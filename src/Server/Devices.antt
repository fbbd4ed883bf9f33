-- ===== src/Server/Devices.antt =====
-- server/devices.h and server/devices.c: the devices, their data and their operations. The union
-- `DeviceData` and the tag `identity.type` are one data type. A schedule is the list of its
-- `schedule_count` entries, the context the list of its `count` devices; what stands behind them
-- in the arrays is never read. Pointers that the callers never leave null are values here.
pub mod State
pub mod Default
pub mod Config
pub mod Registry
pub mod Calls
pub mod Limits
pub mod DefaultLimits
pub mod Added
pub mod Info
pub mod Written
pub mod Fit
