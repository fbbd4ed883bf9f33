-- ===== src/Tests.antt =====
-- The theorems at concrete inputs.
pub mod Instances
pub mod Coops
pub mod Sessions
pub mod Devices
pub mod Commands
pub mod Login
pub mod Placement
pub mod Password
pub mod Net
pub mod Client
pub mod Buffer
pub mod Slots
pub mod Storage
