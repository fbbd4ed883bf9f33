-- ===== src/Shared.antt =====
-- shared/: the limits, the device types and the text protocol that server and client share.
pub mod Config
pub mod DeviceTypes
pub mod Protocol
