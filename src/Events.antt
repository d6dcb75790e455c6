-- ===== src/Events.antt =====
-- internal/remote/events/hub.go: the replay hub of sanitized remote events.
pub mod Cursor
pub mod Subscriber
pub mod Hub
