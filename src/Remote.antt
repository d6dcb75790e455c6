-- ===== src/Remote.antt =====
-- internal/remote: the devices that a host lets in from outside.
pub mod Device
