-- ===== src/Agent.antt =====
-- internal/agent: what the provider adapters share.
pub mod Notifications
pub mod Tools
