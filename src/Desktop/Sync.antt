-- ===== src/Desktop/Sync.antt =====
-- main.rs: `sync_profile_with_server`.
pub mod Recorded
pub mod Parts
pub mod Sides
pub mod Synced
pub mod Converged
use helium_sync.Prelude.{
  ℕ, Bool, true, false, not, String, Option, none, some, List, Result, ok, err,
}
use helium_sync.Prelude.Step.{Step, ◌>>=◌, ◌>>◌, give, map_err, branch}
use helium_sync.Common.Types.{ObjectId}
use helium_sync.Client.Sync.{SyncProof}
use helium_sync.Client.Extensions.{ExtensionBundleStats}
use helium_sync.Client.Bookmarks.{bookmark_namespace, load_bookmarks, save_bookmark_snapshot}
use helium_sync.Client.Discovery.Pages.{discover_bookmarks}
use helium_sync.Client.State.Profiles.{ProfilePreference, profile_preferences}
use helium_sync.Client.State.Sync.{ObjectMapping, mapping}
use helium_sync.Prelude.Rows.{first}
use helium_sync.Profile.Node.{BookmarkRoot, BookmarkSnapshotV1, option_eq, node_eq}
use helium_sync.Profile.Merge.{BookmarkMergeResult, merge_bookmarks}
use helium_sync.Profile.Stats.{BookmarkStats, bookmark_stats}
use helium_sync.Profile.Files.{DiscoveredProfile, read_bookmarks}
use helium_sync.Profile.Restore.{restore_bookmarks}
use helium_sync.Desktop.Machine.{
  Desktop, Turn, Machine, Command, in_session, in_database, on_disk, told, told_profile, prefixed,
}
use helium_sync.Desktop.Records.{key_in, persist_sync_state, bookmark_base}
use helium_sync.Desktop.Extensions.{ExtensionSyncOutcome, sync_extensions_with_server}
use helium_sync.Prelude.{◌&&◌, ◌==◌, str_eq, [], ◌∷◌}
use Prim.Native.String.{◌++◌ as text_append}

pub record SyncFeedback : Type 0 where
  pub action : String
  pub profile_directory : String
  pub profile_name : String
  pub stats : BookmarkStats
  pub revision : ℕ
  pub conflicts : ℕ
  pub backup_path : Option String
  pub message : String
  pub extension_stats : Option ExtensionBundleStats
  pub extension_backup_path : Option String

-- the derived `PartialEq` of `BookmarkSnapshotV1`
unfoldable pub roots_eq : List BookmarkRoot → List BookmarkRoot → Bool
roots_eq [] [] = true
roots_eq [] (y ∷ ys) = false
roots_eq (x ∷ xs) [] = false
roots_eq (x ∷ xs) (y ∷ ys) = str_eq x.key y.key && node_eq x.node y.node && roots_eq xs ys

unfoldable pub snapshot_eq : BookmarkSnapshotV1 → BookmarkSnapshotV1 → Bool
snapshot_eq a b =
    str_eq a.format b.format
    && str_eq a.source_browser b.source_browser
    && str_eq a.profile_directory b.profile_directory
    && a.chromium_version == b.chromium_version
    && roots_eq a.roots b.roots

-- a snapshot of the server, with its proof
abbrev pub Remote : Type 0
Remote = BookmarkSnapshotV1 × SyncProof

abbrev pub to_option : {A : Type 0} → Result String A → Option A
to_option (ok a) = some a
to_option (err e) = none

abbrev pub name_or : DiscoveredProfile → Option ProfilePreference → String
name_or profile none = profile.display_name
name_or profile (some preference) = preference.display_name

-- `snapshot != other` at `(local_changed, remote_changed)`
abbrev sync_message : (local_changed remote_changed : Bool) → String → String
sync_message false false conflicts = "Bookmarks are already up to date."
sync_message true false conflicts =
    "Applied server changes locally and backed up the previous Bookmarks file."
sync_message false true conflicts = "Uploaded local bookmark changes."
sync_message true true conflicts =
    text_append "Merged local and server changes; "
      (text_append conflicts " concurrent edit(s) were resolved.")

module _ {S F : Type 0} (desktop : Desktop S F) (turn : Turn) (profile : DiscoveredProfile) where
  abbrev pub name_in : List ProfilePreference → String
  name_in preferences =
      name_or profile (first (λ p. str_eq p.directory_name profile.directory_name) preferences)

  unfoldable pub profile_name : Command S F String
  profile_name = told desktop (in_database (profile_preferences turn.fails)) >>= λ preferences.
      give (ok (name_in preferences))

  abbrev pub stats_of : BookmarkSnapshotV1 → BookmarkStats
  stats_of = bookmark_stats (λ snapshot. to_option (desktop.snapshot_json.write snapshot))

  abbrev pub read_local : Command S F BookmarkSnapshotV1
  read_local = told_profile desktop (
      on_disk (
        read_bookmarks desktop.fs desktop.bookmarks_json profile.bookmarks_path
          profile.directory_name))

  abbrev pub find_mapping : Command S F (Option ObjectMapping)
  find_mapping = told desktop (
      in_database
        (mapping desktop.codec turn.fails (key_in desktop turn profile bookmark_namespace)))

  abbrev pub load_at : ObjectId → Command S F Remote
  load_at object_id =
      told desktop (in_session (load_bookmarks desktop.core desktop.snapshot_json object_id))

  abbrev pub remote_at : Option ObjectMapping → Command S F (Option Remote)
  remote_at (some found) = load_at found.object_id >>= λ remote. give (ok (some remote))
  remote_at none =
      told desktop
        (in_session (discover_bookmarks desktop.core desktop.snapshot_json profile.directory_name))

  abbrev pub save_snapshot : BookmarkSnapshotV1 → Option ObjectId → Option ℕ → Command S F SyncProof
  save_snapshot snapshot object_id base_revision = told desktop (
      in_session (
        save_bookmark_snapshot desktop.core desktop.snapshot_json turn.bookmark_id turn.modified_at
          turn.bookmark_nonce snapshot object_id base_revision))

  abbrev pub feedback :
      String
      → String
      → BookmarkStats
      → SyncProof
      → ℕ
      → Option String
      → ExtensionSyncOutcome
      → Command S F SyncFeedback
  feedback action message stats proof conflicts backup_path extensions = profile_name >>= λ name.
      give (
        ok (record {
          action = action;
          profile_directory = profile.directory_name;
          profile_name = name;
          stats = stats;
          revision = proof.revision;
          conflicts = conflicts;
          backup_path = backup_path;
          message = message;
          extension_stats = some extensions.stats;
          extension_backup_path = extensions.backup_path;
        }))

  -- what ends every synchronisation that succeeds
  abbrev pub conclude :
      String
      → String
      → BookmarkSnapshotV1
      → SyncProof
      → ℕ
      → Option String
      → ExtensionSyncOutcome
      → Command S F SyncFeedback
  conclude action message snapshot proof conflicts backup_path extensions =
      persist_sync_state desktop turn profile snapshot proof >>= λ _.
      feedback action message (stats_of snapshot) proof conflicts backup_path extensions

  abbrev pub started : BookmarkStats → ExtensionSyncOutcome → String
  started stats extensions = text_append "Started encrypted sync with " (
      text_append (desktop.decimal stats.bookmarks) (
        text_append " bookmarks in " (
          text_append (desktop.decimal stats.folders)
            (text_append " folders. " extensions.message))))

  -- there is no copy on the server yet
  abbrev pub start_sync : ExtensionSyncOutcome → BookmarkSnapshotV1 → Command S F SyncFeedback
  start_sync extensions local_snapshot = save_snapshot local_snapshot none none >>= λ proof.
      conclude "synced" (started (stats_of local_snapshot) extensions) local_snapshot proof 0 none
        extensions

  abbrev pub merge_with :
      Option BookmarkSnapshotV1
      → BookmarkSnapshotV1
      → BookmarkSnapshotV1
      → Command S F BookmarkMergeResult
  merge_with base local_snapshot remote_snapshot =
      told_profile desktop (give (merge_bookmarks base local_snapshot remote_snapshot))

  -- `if remote_changed { … }`
  abbrev pub update_remote : Bool → BookmarkSnapshotV1 → SyncProof → Command S F SyncProof
  update_remote true merged proof =
      save_snapshot merged (some proof.object_id) (some proof.revision)
  update_remote false merged proof = give (ok proof)

  -- `if local_changed { … }`
  abbrev pub update_local : Bool → BookmarkSnapshotV1 → String → Command S F (Option String)
  update_local true merged backup_dir =
      told_profile desktop (
        on_disk (
          restore_bookmarks desktop.fs desktop.zip turn.unique profile desktop.bookmarks_json
            (λ snapshot. to_option (desktop.snapshot_json.write snapshot)) merged backup_dir))
      >>= λ restored. give (ok (some restored.backup_path))
  update_local false merged backup_dir = give (ok none)

  abbrev pub remote_changed : BookmarkMergeResult → Remote → Bool
  remote_changed merged remote = not (snapshot_eq merged.snapshot remote.0)

  abbrev pub local_changed : BookmarkMergeResult → BookmarkSnapshotV1 → Bool
  local_changed merged local_snapshot = not (snapshot_eq merged.snapshot local_snapshot)

  abbrev pub merged_message :
      BookmarkMergeResult → BookmarkSnapshotV1 → Remote → ExtensionSyncOutcome → String
  merged_message merged local_snapshot remote extensions =
      text_append
        (sync_message (local_changed merged local_snapshot) (remote_changed merged remote)
          (desktop.decimal merged.conflicts))
        (text_append " " extensions.message)

  -- what follows the upload
  abbrev pub apply_locally :
      String
      → ExtensionSyncOutcome
      → BookmarkSnapshotV1
      → Remote
      → BookmarkMergeResult
      → SyncProof
      → Command S F SyncFeedback
  apply_locally backup_dir extensions local_snapshot remote merged proof =
      update_local (local_changed merged local_snapshot) merged.snapshot backup_dir
      >>= λ backup_path.
          conclude "synced" (merged_message merged local_snapshot remote extensions) merged.snapshot
            proof merged.conflicts backup_path extensions

  -- what follows the merge
  abbrev pub apply_merged :
      String
      → ExtensionSyncOutcome
      → BookmarkSnapshotV1
      → Remote
      → BookmarkMergeResult
      → Command S F SyncFeedback
  apply_merged backup_dir extensions local_snapshot remote merged =
      update_remote (remote_changed merged remote) merged.snapshot remote.1
      >>= apply_locally backup_dir extensions local_snapshot remote merged

  abbrev pub merge_and_apply :
      String
      → ExtensionSyncOutcome
      → BookmarkSnapshotV1
      → Remote
      → Option BookmarkSnapshotV1
      → Command S F SyncFeedback
  merge_and_apply backup_dir extensions local_snapshot remote base =
      merge_with base local_snapshot remote.0
      >>= apply_merged backup_dir extensions local_snapshot remote

  abbrev pub continue_sync :
      String → ExtensionSyncOutcome → BookmarkSnapshotV1 → Option Remote → Command S F SyncFeedback
  continue_sync backup_dir extensions local_snapshot none = start_sync extensions local_snapshot
  continue_sync backup_dir extensions local_snapshot (some remote) =
      bookmark_base desktop turn profile
      >>= merge_and_apply backup_dir extensions local_snapshot remote

  abbrev pub fetch_and_continue :
      String
      → ExtensionSyncOutcome
      → BookmarkSnapshotV1
      → Option ObjectMapping
      → Command S F SyncFeedback
  fetch_and_continue backup_dir extensions local_snapshot found =
      remote_at found >>= continue_sync backup_dir extensions local_snapshot

  abbrev pub find_and_continue :
      String → ExtensionSyncOutcome → BookmarkSnapshotV1 → Command S F SyncFeedback
  find_and_continue backup_dir extensions local_snapshot =
      find_mapping >>= fetch_and_continue backup_dir extensions local_snapshot

  -- what follows the synchronisation of the extensions
  abbrev pub sync_bookmarks : String → ExtensionSyncOutcome → Command S F SyncFeedback
  sync_bookmarks backup_dir extensions = read_local >>= find_and_continue backup_dir extensions

  unfoldable pub sync_profile_with_server : String → Command S F SyncFeedback
  sync_profile_with_server backup_dir =
      prefixed "Extension sync stopped before bookmark sync: "
        (sync_extensions_with_server desktop turn profile backup_dir)
      >>= sync_bookmarks backup_dir
