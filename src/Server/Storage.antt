-- ===== src/Server/Storage.antt =====
-- server/storage.h and server/storage.c: the farm as a JSON file.
pub mod Build
pub mod Parse
pub mod Farm
pub mod Loaded
pub mod Restored
pub mod Grouped
pub mod RoundTrip
