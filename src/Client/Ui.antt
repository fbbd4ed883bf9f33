-- ===== src/Client/Ui.antt =====
-- client/ui_client.h and client/ui_client.c: the menus.
pub mod State
pub mod Input
pub mod Select
pub mod Display
pub mod Menus
pub mod Manage
pub mod Shrinks
pub mod Turns
pub mod Ends
pub mod Tokens
