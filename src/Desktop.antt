-- ===== src/Desktop.antt =====
-- crates/helium-sync-client/src-tauri/src/main.rs: what the commands of the desktop client do with the
-- client core, the client's tables and the files of a browser profile.
pub mod Machine
pub mod Extensions
pub mod Records
pub mod Sync
pub mod Profiles
pub mod Login
