-- ===== src/Desktop/Records.antt =====
-- main.rs: what a synchronisation records and reads again: `persist_sync_state`,
-- `persist_extension_sync_state`, `extension_base_hash`, and the part of `sync_profile_with_server`
-- that opens the bookmark base.
use helium_sync.Prelude.{ℕ, String, Option, List, Result, ok, err}
use helium_sync.Prelude.Fallible
use helium_sync.Prelude.Step.{◌>>=◌, give}
use helium_sync.Client.Errors.{ClientError}
use helium_sync.Client.Sync.{SyncProof}
use helium_sync.Client.Extensions.{ExtensionManifestV1, extension_manifest_namespace}
use helium_sync.Client.Bookmarks.{
  bookmark_namespace, protect_sync_base, open_sync_base, protect_extension_sync_base,
  open_extension_sync_base,
}
use helium_sync.Client.State.Sync.{SyncKey, save_sync_state, sync_base}
use helium_sync.Profile.Node.{BookmarkSnapshotV1}
use helium_sync.Profile.Files.{DiscoveredProfile}
use helium_sync.Desktop.Machine.{Desktop, Turn, Command, in_database, told, or_prefixed}

module _ {S F : Type 0} (desktop : Desktop S F) (turn : Turn) (profile : DiscoveredProfile) where
  abbrev pub key_in : String → SyncKey
  key_in namespace = record {
    server_id = desktop.server_id;
    namespace = namespace;
    local_key = profile.directory_name;
  }

  abbrev pub text_of : {A : Type 0} → Result ClientError A → Result String A
  text_of (ok a) = ok a
  text_of (err e) = err (desktop.formats.error_text e)

  abbrev pub save_state : String → SyncProof → List ℕ → Command S F (Unit {0})
  save_state namespace proof encrypted = told desktop (
      in_database (
        save_sync_state desktop.codec turn.fails turn.now (key_in namespace) proof.object_id
          proof.revision encrypted))

  abbrev pub sealed_hash : ExtensionManifestV1 → Result String (List ℕ)
  sealed_hash manifest = or_prefixed "Extension sync state: " (
      text_of (
        protect_extension_sync_base desktop.core turn.extension_nonce profile.directory_name
          (desktop.as_bytes manifest.archive_sha256)))

  unfoldable pub persist_extension_sync_state :
      ExtensionManifestV1 → SyncProof → Command S F (Unit {0})
  persist_extension_sync_state manifest proof =
      give (sealed_hash manifest) >>= save_state extension_manifest_namespace proof

  abbrev pub protected : List ℕ → Result String (List ℕ)
  protected snapshot_json = or_prefixed "Bookmark sync state: " (
      text_of (protect_sync_base desktop.core turn.base_nonce profile.directory_name snapshot_json))

  abbrev pub sealed_base : BookmarkSnapshotV1 → Result String (List ℕ)
  sealed_base snapshot =
      Fallible.◌>>=◌ (or_prefixed "Bookmark sync state: " (desktop.snapshot_json.write snapshot))
        protected

  unfoldable pub persist_sync_state : BookmarkSnapshotV1 → SyncProof → Command S F (Unit {0})
  persist_sync_state snapshot proof =
      give (sealed_base snapshot) >>= save_state bookmark_namespace proof

  abbrev pub stored_base : String → Command S F (Option (List ℕ))
  stored_base namespace = told desktop (in_database (sync_base turn.fails (key_in namespace)))

  -- the closures over a base that was found
  abbrev pub open_hash : List ℕ → Result String String
  open_hash encrypted =
      Fallible.◌>>=◌
        (or_prefixed "Stored extension sync base: "
          (text_of (open_extension_sync_base desktop.core profile.directory_name encrypted)))
        λ plaintext.
          or_prefixed "Stored extension sync base is invalid: " (desktop.from_utf8 plaintext)

  abbrev pub open_base : List ℕ → Result String BookmarkSnapshotV1
  open_base encrypted =
      Fallible.◌>>=◌
        (or_prefixed "Stored bookmark sync base: "
          (text_of (open_sync_base desktop.core profile.directory_name encrypted)))
        λ plaintext.
          or_prefixed "Stored bookmark sync base is invalid: "
            (desktop.snapshot_json.read plaintext)

  unfoldable pub extension_base_hash : Command S F (Option String)
  extension_base_hash = do
    stored ← stored_base extension_manifest_namespace
    give (Fallible.transpose open_hash stored)

  unfoldable pub bookmark_base : Command S F (Option BookmarkSnapshotV1)
  bookmark_base = do
    stored ← stored_base bookmark_namespace
    give (Fallible.transpose open_base stored)
