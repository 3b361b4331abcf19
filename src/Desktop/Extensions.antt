-- ===== src/Desktop/Extensions.antt =====
-- main.rs: the extensions of a profile: `capture_extensions`, `remote_extension_manifest`,
-- `save_extensions_to_server`, `load_extensions_from_server` and `sync_extensions_with_server`.
pub mod Guarded
use helium_sync.Prelude.{
  ℕ, Bool, true, false, not, ◌&&◌, str_eq, String, Option, none, some, List, Result, ok, err, ok_or,
}
use helium_sync.Prelude.Step.{Step, ◌>>=◌, ◌>>◌, give, map_err, branch}
use helium_sync.Common.Types.{ObjectId}
use helium_sync.Client.Sync.{SyncProof}
use helium_sync.Client.Extensions.{
  ExtensionBundleStats, ExtensionBundleDescriptor, ExtensionManifestV1,
  extension_manifest_namespace, is_some,
}
use helium_sync.Client.Extensions.Load.{load_extension_manifest, load_extension_bundle}
use helium_sync.Client.Extensions.Save.{save_extension_bundle}
use helium_sync.Client.Discovery.Pages.{discover_extension_bundle}
use helium_sync.Client.State.Sync.{ObjectMapping, mapping}
use helium_sync.Profile.Files.{DiscoveredProfile}
use helium_sync.Desktop.Machine.{
  Desktop, Turn, Machine, Command, ExtensionRestoreResult, in_session, in_database, on_disk, told,
  told_profile, prefixed,
}
use helium_sync.Desktop.Records.{key_in, persist_extension_sync_state, extension_base_hash}
use Prim.Native.String.{◌++◌ as text_append}

pub record ExtensionSyncOutcome : Type 0 where
  pub stats : ExtensionBundleStats
  pub backup_path : Option String
  pub message : String

-- a manifest of the server, with its proof
abbrev pub Remote : Type 0
Remote = ExtensionManifestV1 × SyncProof

abbrev pub object_of : Option Remote → Option ObjectId
object_of none = none
object_of (some remote) = some remote.1.object_id

abbrev pub revision_of : Option Remote → Option ℕ
revision_of none = none
revision_of (some remote) = some remote.1.revision

-- `base.as_ref().is_none_or(|base| base != hash)`
abbrev pub differs : Option String → String → Bool
differs none hash = true
differs (some base) hash = not (str_eq base hash)

-- what `sync_extensions_with_server` has come to know when a manifest is on the server
pub data Choice : Type 0 where
  keep restore upload refuse : Choice

-- the `match` of `sync_extensions_with_server`: whether there is a base, and what has changed
abbrev pub decide : (has_base local_changed remote_changed : Bool) → Choice
decide _ false false = Choice.keep
decide false true false = Choice.keep
decide false false true = Choice.restore
decide false true true = Choice.restore
decide true false true = Choice.restore
decide true true false = Choice.upload
decide true true true = Choice.refuse

-- the early return, and what follows it
unfoldable pub choose : Option String → String → String → Choice
choose base local remote = elim (not (is_some base) && str_eq local remote) [
  | true ↦ Choice.keep
  | false ↦ decide (is_some base) (differs base local) (differs base remote)
]

abbrev pub up_to_date : String
up_to_date = "Extensions are already up to date."

abbrev pub refusal : String
refusal =
    "Extensions changed both locally and on the server. Use Recovery to explicitly replace the server copy or restore the server copy."

module _ {S F : Type 0} (desktop : Desktop S F) (turn : Turn) (profile : DiscoveredProfile) where
  unfoldable pub capture_extensions : Command S F (ExtensionBundleDescriptor × List ℕ)
  capture_extensions = do
    staging ←
        map_err (λ e. text_append "Extension staging: " e.text) (on_disk desktop.bundles.tempdir)
    descriptor ←
        told_profile desktop
          (on_disk (desktop.bundles.create profile (desktop.fs.join staging "extensions.zip")))
    archive ←
        map_err (λ e. text_append "Could not read staged extension archive: " e.text)
          (on_disk (desktop.fs.read (desktop.fs.join staging "extensions.zip")))
    give (ok (descriptor, archive))

  abbrev pub remote_at : Option ObjectMapping → Command S F (Option Remote)
  remote_at (some found) =
      told desktop
        (in_session (load_extension_manifest desktop.core desktop.formats found.object_id))
      >>= λ remote. give (ok (some remote))
  remote_at none =
      told desktop
        (in_session (discover_extension_bundle desktop.core desktop.formats profile.directory_name))

  unfoldable pub remote_extension_manifest : Command S F (Option Remote)
  remote_extension_manifest = do
    found ← told desktop (
        in_database (
          mapping desktop.codec turn.fails
            (key_in desktop turn profile extension_manifest_namespace)))
    remote_at found

  -- the upload of a bundle, and what is recorded of it
  abbrev pub put_bundle :
      ExtensionBundleDescriptor × List ℕ → Option Remote → String → Command S F ExtensionSyncOutcome
  put_bundle captured remote message = do
    saved ← told desktop (
        in_session (
          save_extension_bundle desktop.core desktop.formats turn.draws captured.0 captured.1
            (object_of remote) (revision_of remote)))
    persist_extension_sync_state desktop turn profile saved.1 saved.0
    give (ok (record { stats = saved.1.stats; backup_path = none; message = message }))

  unfoldable pub save_extensions_to_server : Command S F ExtensionSyncOutcome
  save_extensions_to_server = do
    captured ← capture_extensions
    remote ← remote_extension_manifest
    put_bundle captured remote "Uploaded installed extensions and extension data."

  -- what has been loaded is staged and restored
  abbrev pub restore_archive : List ℕ → String → Command S F ExtensionRestoreResult
  restore_archive archive backup_dir = do
    staging ←
        map_err (λ e. text_append "Extension staging: " e.text) (on_disk desktop.bundles.tempdir)
    map_err (λ e. text_append "Could not stage downloaded extension archive: " e.text)
        (on_disk (desktop.bundles.write (desktop.fs.join staging "extensions.zip") archive))
    told_profile desktop (
        on_disk (
          desktop.bundles.restore turn.unique profile (desktop.fs.join staging "extensions.zip")
            backup_dir))

  unfoldable pub load_extensions_from_server : String → Command S F ExtensionSyncOutcome
  load_extensions_from_server backup_dir = do
    remote ← remote_extension_manifest
    found ← give (ok_or remote "This profile has no saved extension copy.")
    loaded ←
        told desktop
          (in_session (load_extension_bundle desktop.core desktop.formats found.1.object_id))
    restored ← restore_archive loaded.1 backup_dir
    persist_extension_sync_state desktop turn profile loaded.0 loaded.2
    give (
        ok (record {
          stats = restored.stats;
          backup_path = some restored.backup_path;
          message = "Restored installed extensions and extension data after backup.";
        }))

  -- only the base is recorded
  abbrev pub keep_remote : Remote → Command S F ExtensionSyncOutcome
  keep_remote remote = do
    persist_extension_sync_state desktop turn profile remote.0 remote.1
    give (ok (record { stats = remote.0.stats; backup_path = none; message = up_to_date }))

  abbrev pub carry_out : String → Remote → Choice → Command S F ExtensionSyncOutcome
  carry_out backup_dir remote Choice.keep = keep_remote remote
  carry_out backup_dir remote Choice.restore = load_extensions_from_server backup_dir
  carry_out backup_dir remote Choice.upload = save_extensions_to_server
  carry_out backup_dir remote Choice.refuse = give (err refusal)

  abbrev pub sync_with :
      String → ExtensionBundleDescriptor × List ℕ → Option Remote → Command S F ExtensionSyncOutcome
  sync_with backup_dir captured none = put_bundle captured none "Started encrypted extension sync."
  sync_with backup_dir captured (some remote) = do
    base ← extension_base_hash desktop turn profile
    carry_out backup_dir remote (choose base captured.0.archive_sha256 remote.0.archive_sha256)

  unfoldable pub sync_extensions_with_server : String → Command S F ExtensionSyncOutcome
  sync_extensions_with_server backup_dir = do
    captured ← capture_extensions
    remote ← remote_extension_manifest
    sync_with backup_dir captured remote
