-- ===== src/Desktop/Machine.antt =====
-- main.rs: what a synchronisation works on. The session, the client's tables and the disk are the
-- state; what a run draws, and which statements its database refuses, is a `Turn`.
use Prim.Native.String.{◌++◌ as text_append}
use helium_sync.Prelude.{ℕ, Bool, String, List, Result, ok, err}
use helium_sync.Prelude.Step.{Step, map_err}
use helium_sync.Common.Types.{ObjectId, Timestamp}
use helium_sync.Common.Codec.{Codec}
use helium_sync.Client.Errors.{ClientError}
use helium_sync.Client.Api.{Action, Session}
use helium_sync.Client.Sync.{ClientCore}
use helium_sync.Client.Extensions.{Formats, Draws, ExtensionBundleDescriptor, ExtensionBundleStats}
use helium_sync.Client.Bookmarks.{SnapshotJson}
use helium_sync.Client.State.{Database, Statement, Query}
use helium_sync.Profile.Errors.{ProfileError}
use helium_sync.Profile.Files.{IoError, FileSystem, BookmarksJson, DiscoveredProfile}
use helium_sync.Profile.Restore.{ZipWriter}

-- `ExtensionRestoreResult`
pub record ExtensionRestoreResult : Type 0 where
  pub backup_path : String
  pub stats : ExtensionBundleStats

-- What the client takes from outside and from `create_extension_bundle` and
-- `restore_extension_bundle` of the profile crate. The removal of a staging directory is left out.
pub record Bundles (F : Type 0) : Type 0 where
  -- `tempfile::tempdir`
  pub tempdir : Step IoError F String
  -- `std::fs::write`
  pub write : String → List ℕ → Step IoError F (Unit {0})
  -- profile, archive
  pub create : DiscoveredProfile → String → Step ProfileError F ExtensionBundleDescriptor
  -- suffix, profile, archive, directory of the backup
  pub restore :
      String → DiscoveredProfile → String → String → Step ProfileError F ExtensionRestoreResult

pub record Desktop (S F : Type 0) : Type 0 where
  pub core : ClientCore S
  pub server_id : String
  pub codec : Codec
  pub formats : Formats
  pub snapshot_json : SnapshotJson
  pub bookmarks_json : BookmarksJson
  pub fs : FileSystem F
  pub zip : ZipWriter F
  pub bundles : Bundles F
  -- `ProfileError::to_string`
  pub profile_text : ProfileError → String
  -- `str::as_bytes` and `String::from_utf8`
  pub as_bytes : String → List ℕ
  pub from_utf8 : List ℕ → Result String String
  -- a number in a message
  pub decimal : ℕ → String

pub record Turn : Type 0 where
  pub fails : Statement → Bool
  pub now : String
  pub unique : String
  pub draws : Draws
  pub extension_nonce : List ℕ
  pub bookmark_id : ObjectId
  pub modified_at : Timestamp
  pub bookmark_nonce : List ℕ
  pub base_nonce : List ℕ

pub record Machine (S F : Type 0) : Type 0 where
  pub session : Session S
  pub database : Database
  pub disk : F

-- a step of a command: its errors are texts
abbrev pub Command : Type 0 → Type 0 → Type 0 → Type 0
Command S F A = Step String (Machine S F) A

abbrev after_query :
    {S F A : Type 0}
    → Machine S F
    → Result ClientError (A × Database)
    → Result ClientError A × Machine S F
after_query m (ok r) = (ok r.0, record m { database = r.1 })
after_query m (err e) = (err e, m)

module _ {S F : Type 0} where
  abbrev pub in_session : {A : Type 0} → Action S A → Step ClientError (Machine S F) A
  in_session action m = let r = action m.session in (r.0, record m { session = r.1 })

  -- a statement that fails changes nothing
  abbrev pub in_database : {A : Type 0} → Query A → Step ClientError (Machine S F) A
  in_database query m = after_query m (query m.database)

  abbrev pub on_disk : {E A : Type 0} → Step E F A → Step E (Machine S F) A
  on_disk step m = let r = step m.disk in (r.0, record m { disk = r.1 })

module _ {S F : Type 0} (desktop : Desktop S F) where
  -- `.map_err(|error| error.to_string())`
  abbrev pub told : {A : Type 0} → Step ClientError (Machine S F) A → Command S F A
  told = map_err desktop.formats.error_text

  abbrev pub told_profile : {A : Type 0} → Step ProfileError (Machine S F) A → Command S F A
  told_profile = map_err desktop.profile_text

-- `.map_err(|error| format!("…{error}"))`
abbrev pub prefixed : {S F A : Type 0} → String → Command S F A → Command S F A
prefixed what = map_err (text_append what)

abbrev pub or_prefixed : {A : Type 0} → String → Result String A → Result String A
or_prefixed what (ok a) = ok a
or_prefixed what (err e) = err (text_append what e)
