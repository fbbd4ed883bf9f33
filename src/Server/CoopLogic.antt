-- ===== src/Server/CoopLogic.antt =====
-- server/coop_logic.c: the state of the server, its start and the router of commands.
pub mod State
pub mod Input
pub mod Control
pub mod Reply
pub mod Account
pub mod Operate
pub mod Router
pub mod Sound
pub mod Kept
pub mod Reach
pub mod Access
pub mod Refusal
pub mod Login
pub mod Placement
pub mod Password
pub mod Restart
