-- ===== src/Desktop/Profiles.antt =====
-- main.rs: `save_profile_to_server` and `load_profile_from_server`, and of orchestration.rs
-- `save_bookmarks` and `bookmark_round_trip`, which read the bookmark file themselves.
use Prim.Native.String.{◌++◌ as text_append}
use helium_sync.Prelude.{ℕ, String, Option, none, some, Result, ok, ok_or}
use helium_sync.Prelude.Step.{Step, ◌>>=◌, ◌>>◌, give, map_err}
use helium_sync.Common.Types.{ObjectId}
use helium_sync.Client.Errors.{ClientError}
use helium_sync.Client.Crypto.{or_serialization}
use helium_sync.Client.Sync.{SyncProof, upload}
use helium_sync.Client.Bookmarks.{bookmark_namespace, save_bookmark_snapshot}
use helium_sync.Client.State.Sync.{ObjectMapping}
use helium_sync.Profile.Node.{BookmarkSnapshotV1}
use helium_sync.Profile.Files.{DiscoveredProfile, read_bookmarks}
use helium_sync.Profile.Restore.{RestoreResult, restore_bookmarks}
use helium_sync.Desktop.Machine.{
  Desktop, Turn, Machine, Command, in_session, on_disk, told, told_profile, prefixed,
}
use helium_sync.Desktop.Records.{persist_sync_state}
use helium_sync.Desktop.Extensions.{save_extensions_to_server, load_extensions_from_server}
use helium_sync.Desktop.Sync.{SyncFeedback, find_mapping, load_at, feedback, stats_of, to_option}

abbrev mapped_object : Option ObjectMapping → Option ObjectId
mapped_object none = none
mapped_object (some found) = some found.object_id

abbrev mapped_revision : Option ObjectMapping → Option ℕ
mapped_revision none = none
mapped_revision (some found) = some found.revision

module _ {S F : Type 0} (desktop : Desktop S F) (turn : Turn) (profile : DiscoveredProfile) where
  -- `read_bookmarks(…)?`, as an error of the client
  abbrev read_for_client : Step ClientError (Machine S F) BookmarkSnapshotV1
  read_for_client =
      map_err (λ e. ClientError.profile (desktop.profile_text e))
        (on_disk (
          read_bookmarks desktop.fs desktop.bookmarks_json profile.bookmarks_path
            profile.directory_name))

  unfoldable pub save_bookmarks :
      Option ObjectId → Option ℕ → Step ClientError (Machine S F) (SyncProof × BookmarkSnapshotV1)
  save_bookmarks object_id base_revision = do
    snapshot ← read_for_client
    proof ← in_session (
        save_bookmark_snapshot desktop.core desktop.snapshot_json turn.bookmark_id turn.modified_at
          turn.bookmark_nonce snapshot object_id base_revision)
    give (ok (proof, snapshot))

  unfoldable pub bookmark_round_trip :
      Step ClientError (Machine S F) (SyncProof × BookmarkSnapshotV1)
  bookmark_round_trip = do
    snapshot ← read_for_client
    plaintext ← give (or_serialization (desktop.snapshot_json.write snapshot))
    proof ← in_session (
        upload desktop.core turn.bookmark_id turn.modified_at turn.bookmark_nonce bookmark_namespace
          plaintext none none)
    give (ok (proof, snapshot))

  unfoldable pub save_profile_to_server : Command S F SyncFeedback
  save_profile_to_server = do
    extensions ←
        prefixed "Extension save failed before bookmarks were changed: "
          (save_extensions_to_server desktop turn profile)
    found ← find_mapping desktop turn profile
    saved ← told desktop (save_bookmarks (mapped_object found) (mapped_revision found))
    persist_sync_state desktop turn profile saved.1 saved.0
    feedback desktop turn profile "saved"
        (text_append "Saved " (
          text_append (desktop.decimal (stats_of desktop turn profile saved.1).bookmarks) (
            text_append " bookmarks in " (
              text_append (desktop.decimal (stats_of desktop turn profile saved.1).folders)
                (text_append " folders. " extensions.message)))))
        (stats_of desktop turn profile saved.1) saved.0 0 none extensions

  abbrev restored_message : RestoreResult → String
  restored_message restored = text_append "Loaded " (
      text_append (desktop.decimal restored.stats.bookmarks)
        " bookmarks. Previous bookmarks and extension data are backed up in Downloads.")

  -- `downloads` is what `downloads_dir` answers
  unfoldable pub load_profile_from_server : Result String String → Command S F SyncFeedback
  load_profile_from_server downloads = do
    backup_dir ← give downloads
    extensions ←
        prefixed "Extension restore failed before bookmarks were changed: "
          (load_extensions_from_server desktop turn profile backup_dir)
    found ← find_mapping desktop turn profile
    mapped ← give (ok_or found "This profile has no saved server copy. Save it before loading.")
    loaded ← load_at desktop turn profile mapped.object_id
    restored ← told_profile desktop (
        on_disk (
          restore_bookmarks desktop.fs desktop.zip turn.unique profile desktop.bookmarks_json
            (λ snapshot. to_option (desktop.snapshot_json.write snapshot)) loaded.0 backup_dir))
    persist_sync_state desktop turn profile loaded.0 loaded.1
    feedback desktop turn profile "loaded" (restored_message restored) restored.stats loaded.1 0
        (some restored.backup_path) extensions
