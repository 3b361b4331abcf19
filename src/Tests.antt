-- ===== src/Tests.antt =====
-- Concrete runs, and the theorems at concrete inputs.
mod Codec
mod Common
mod Crypto
mod Sync
mod Server
mod Requests
mod Profile
mod State
mod Extensions
mod Bookmarks
mod Config
mod Disk
mod Files
mod Folders
mod Login
mod Desktop
