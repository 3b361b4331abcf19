-- ===== src/Client.antt =====
-- crates/helium-sync-client-core: what a client does with the API.
pub mod Errors
pub mod Crypto
pub mod Api
pub mod Sync
pub mod Discovery
pub mod State
pub mod Extensions
pub mod Bookmarks
pub mod Secrets
