-- ===== src/Server.antt =====
-- server/: the farm server.
pub mod Coops
pub mod Log
pub mod Sessions
pub mod Devices
pub mod Storage
pub mod CoopLogic
pub mod Net
pub mod Main
