-- ===== src/Room.antt =====
-- internal/room: the orchestrator of a room, by its parts.
pub mod ToolLoop
pub mod Lanes
pub mod Writers
pub mod FollowUps
pub mod Continuations
pub mod Conversations
