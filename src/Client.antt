-- ===== src/Client.antt =====
-- client/: the terminal client.
pub mod Net
pub mod Response
pub mod Backend
pub mod Listing
pub mod Coops
pub mod RoundTrip
pub mod Ui
pub mod App
pub mod Served
pub mod Options
pub mod Process
