-- ===== src/Profile.antt =====
-- crates/helium-sync-profile: bookmark trees and their merge.
pub mod Errors
pub mod Node
pub mod Merge
pub mod Raw
pub mod Stats
pub mod Files
pub mod Restore
pub mod Create
pub mod Payload
