-- ===== src/Chat.antt =====
-- internal/chat: the records that a room keeps.
pub mod Coordination
pub mod FollowUps
pub mod Participants
pub mod Corrections
