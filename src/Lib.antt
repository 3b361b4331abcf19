-- ===== src/Lib.antt =====
-- Helium Sync: the server's object store and change feed, the client core that encrypts, uploads,
-- downloads and discovers, the client's own tables, the server's configuration, the three-way merge
-- and the guarded restore of bookmarks, and the desktop client's synchronisation of a profile.
--
-- The parts and how they meet. A client (crates/helium-sync-client-core) encrypts an object for its
-- metadata, sends it through its API client to the server (crates/helium-sync-server), and reads it
-- back; a second client finds it by the change feed. The server keeps the current objects and a feed
-- of changes in SQLite tables. Bookmarks of both sides are merged against their last common state
-- (crates/helium-sync-profile); the client keeps that state, and what it has saved where, in tables
-- of its own. The desktop client (crates/helium-sync-client/src-tauri) joins these to a
-- synchronisation of a browser profile. All speak the types of crates/helium-sync-common.
--
-- - Common/Protocol, Common/Types: crates/helium-sync-common/src/lib.rs, with its names. A UUID and a
--   time are numbers; Common/Codec has the crates that write and read them, and JSON, as parameters.
-- - Server/Tables: crates/helium-sync-server/migrations/0001_initial.sql, and a monad of statements
--   on the tables. A failed transaction carries no tables, which is its rollback; a function
--   says which statements the database refuses. Rowids come from `sequence`, up to i64::MAX.
-- - Server/Checks, Server/Objects, Server/Devices, Server/Feed, Server/Router:
--   crates/helium-sync-server/src/api.rs, a function for each handler and helper, under its name.
--   A handler without a transaction keeps what its statements have written before an error.
--   `serve` is one request through `router`, `run` a sequence of requests, each with its own
--   world (`Env`: time, refused statements). Server/Auth: crates/helium-sync-server/src/auth.rs.
--   Server/History has the invariant of the tables, Server/Reachable all that requests lead to.
-- - Server/Config: `ServerConfig::load` and `validate` of crates/helium-sync-server/src/config.rs,
--   over a record of the machine. `existing` has fuel for each character of the path.
-- - Client/Crypto: crates/helium-sync-client-core/src/crypto.rs over `Primitives`, the record of the
--   cryptographic crates. Random bytes are arguments.
-- - Client/Api: crates/helium-sync-client-core/src/api.rs over a transport that may change the world
--   behind it. Client/Api/Served is the client of the modelled server.
-- - Client/Sync, Client/Discovery: `upload`, `download`, `delete_objects`, `discover_bookmarks` and
--   `discover_extension_bundle` of crates/helium-sync-client-core/src/orchestration.rs.
-- - Client/Discovery/Pages: the two discoveries again, as calls whose requests may change the world.
-- - Client/Extensions, Client/Bookmarks: `save_extension_bundle`, `load_extension_bundle` and
--   `load_extension_manifest` of the same file, and its operations on bookmarks, local bases and the
--   device. `chunks_fuel` has fuel for a chunk of each byte.
-- - Client/State: crates/helium-sync-client-core/src/state.rs and its migrations, the tables of
--   `LocalState` and a monad of statements on them as for the server. Client/State/Sync,
--   Client/State/Profiles and Client/State/Archives have its operations, Client/State/Calls
--   sequences of them, Client/State/Valid and Client/State/Kept what they keep.
-- - Server/Store: the store that the object handlers promise, a map from keys to versioned entries
--   with one relation for a write; Server/Store/View reads it off the tables. Server/Invariant is
--   the rule for what every request keeps. Server/Objects/Admission says in terms of rows when a
--   write is accepted, Server/Objects/Batch has single requests in a row.
-- - Profile/Node, Profile/Merge, Profile/Raw, Profile/Stats: the bookmark trees, `merge_bookmarks`,
--   `convert_node` and `bookmark_stats` of crates/helium-sync-profile/src/lib.rs. A counter of
--   conflicts is a second result.
-- - Profile/Files, Profile/Restore: `read_bookmarks`, `restore_bookmarks`, `create_backup_archive` and
--   `chromium_bookmarks_json` of the same file, over `FileSystem`, `ZipWriter` and `BookmarksJson`.
--   Profile/Restore/Laws says what a restore relies on of them. Profile/Create:
--   `create_profile_with_reserved`, whose loop has fuel for each number of 32 bits.
--   Profile/Payload: `extract_extension_payload`, with paths as lists of components.
-- - Client/Secrets: the interface of crates/helium-sync-client-core/src/secrets.rs, and its store in
--   memory.
-- - Desktop: crates/helium-sync-client/src-tauri/src/main.rs. Desktop/Machine is the state of a
--   command, its session, tables and disk, and what it draws; Desktop/Records has what is recorded,
--   Desktop/Extensions and Desktop/Sync the synchronisation of extensions and of a profile,
--   Desktop/Profiles its saving and loading, and `save_bookmarks` and `bookmark_round_trip` of
--   orchestration.rs. Desktop/Login has the steps of a sign-in. Errors are the texts that the commands
--   return.
-- - Prelude has what the modules share; Tests has runs and the theorems at concrete inputs.
--
-- Fuel. `merge_optional_node` descends the local tree and is given one more than its height.
-- `gather` is given a number of pages, of which one more than there are changes are enough;
-- `gather_pages` has fuel for each u64, since a cursor that does not rise ends it.
--
-- Not modelled: sockets, TLS, SSH, HTTPS, the keyring, profile discovery, the packing of extensions
-- and, but for the unpacking, their restore (parameters of Desktop/Machine), the rest of the desktop
-- commands and the web UI, most of which is I/O. Staging directories are not removed in the model.
-- Requests are served one after the other. Messages for people and request IDs are left out, since the program does not
-- read them.
pub mod Prelude
pub mod Common
pub mod Server
pub mod Client
pub mod Profile
pub mod Desktop
mod Tests
