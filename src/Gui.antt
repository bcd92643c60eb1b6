-- ===== src/Gui.antt =====
-- crates/quadcontrol-gui/src-tauri/src/lib.rs: the stores behind the commands of the desktop client.
-- A lock that is poisoned is not modelled: each command then answers with an error.
pub mod Pairing
pub mod Recent
pub mod IosSlot
pub mod Sessions
pub mod Shutdown
pub mod Status
pub mod Manual
