-- ===== src/Server.antt =====
-- crates/helium-sync-server: the HTTP API over SQLite.
pub mod Errors
pub mod Tables
pub mod Checks
pub mod Objects
pub mod Devices
pub mod Feed
pub mod Auth
pub mod Router
pub mod Invariant
pub mod Reachable
pub mod History
pub mod Store
pub mod Config
