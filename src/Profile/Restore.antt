-- ===== src/Profile/Restore.antt =====
-- crates/helium-sync-profile/src/lib.rs: `restore_bookmarks` and `create_backup_archive`. The suffix
-- that `unique_suffix` draws is an argument; the zip crate's writer is a parameter.
pub mod Laws
pub mod Kept
pub mod Safe
pub mod ReadBack
use Prim.Native.Char.{code}
use Prim.Native.String.{◌++◌ as text_append}
use helium_sync.Prelude.{
  ℕ, Bool, true, false, ◌&&◌, ◌||◌, ◌==◌, leb, str_eq, if◌then◌else◌, String, Option, none, some,
  List, Result, ok, err, guard,
}
use helium_sync.Prelude.Step.{Step, ◌>>=◌, ◌>>◌, give, map_err, on_error, ignore, branch}
use helium_sync.Profile.Errors.{ProfileError, archive, write, profile_mismatch}
use helium_sync.Profile.Node.{BookmarkSnapshotV1}
use helium_sync.Profile.Stats.{BookmarkStats, bookmark_stats}
use helium_sync.Profile.Files.{
  IoError, FileSystem, BookmarksJson, DiscoveredProfile, or_parse, chromium_bookmarks_json,
}

pub record RestoreResult : Type 0 where
  pub backup_path : String
  pub stats : BookmarkStats

-- `zip::ZipWriter` on the file at a path
pub record ZipWriter (F : Type 0) : Type 0 where
  -- archive, entry
  pub start_file : String → String → Step String F (Unit {0})
  -- archive, source: `File::open` and `std::io::copy`
  pub copy : String → String → Step String F (Unit {0})
  -- archive, text
  pub write_text : String → String → Step String F (Unit {0})
  -- `finish` and `sync_all`
  pub finish : String → Step String F (Unit {0})

-- `c.is_ascii_alphanumeric() || matches!(c, '-' | '_')`, of a code point
abbrev is_safe : ℕ → Bool
is_safe c =
    (leb 48 c && leb c 57)
    || (leb 65 c && leb c 90)
    || (leb 97 c && leb c 122)
    || c == 45
    || c == 95

unfoldable pub safe_profile_name : String → String
safe_profile_name String.[] = ""
safe_profile_name (String.◌∷◌ c rest) =
    let later = safe_profile_name rest in
    if is_safe (code c) then String.◌∷◌ c later else text_append "_" later

-- `replace('\\', "_")`
unfoldable pub without_backslash : String → String
without_backslash String.[] = ""
without_backslash (String.◌∷◌ c rest) =
    let later = without_backslash rest in
    if code c == 92 then text_append "_" later else String.◌∷◌ c later

abbrev pub entry_name : DiscoveredProfile → String
entry_name profile = text_append (without_backslash profile.directory_name) "/Bookmarks"

abbrev pub no_bookmarks : String
no_bookmarks = "No local Bookmarks file existed before this load.\n"

module _ {F : Type 0} (fs : FileSystem F) (zip : ZipWriter F) where
  abbrev pub or_write : {A : Type 0} → String → Step IoError F A → Step ProfileError F A
  or_write path = map_err (λ e. write path e.text)

  -- `let _cleanup_result = fs::remove_file(path)`, and the error is passed on
  abbrev pub removing : {A : Type 0} → String → ProfileError → Step ProfileError F A
  removing path e = do ignore (fs.remove_file path); give (err e)

  -- the closure of `create_backup_archive`
  abbrev pub fill_archive : String → DiscoveredProfile → Step String F (Unit {0})
  fill_archive backup_path profile = do
    (λ disk.
        branch (fs.is_file profile.bookmarks_path disk)
          (zip.start_file backup_path (entry_name profile)
            >> zip.copy backup_path profile.bookmarks_path)
          (zip.start_file backup_path "README.txt" >> zip.write_text backup_path no_bookmarks) disk)
    zip.finish backup_path

  unfoldable pub create_backup_archive : String → DiscoveredProfile → Step ProfileError F (Unit {0})
  create_backup_archive backup_path profile = do
    map_err (λ e. archive backup_path e.text) (fs.create_new backup_path)
    on_error (λ e. removing backup_path (archive backup_path e)) (fill_archive backup_path profile)

  -- the new file, staged beside the live one
  abbrev pub stage : String → List ℕ → Step ProfileError F (Unit {0})
  stage staged_path restored = do
    or_write staged_path (fs.create_new staged_path)
    on_error (λ e. removing staged_path (write staged_path e.text))
        (fs.write_all staged_path restored)

  -- `replacement failed …`
  abbrev pub details_of : String → String → Result IoError (Unit {0}) → String
  details_of backup_path source (ok _) =
      text_append "replacement failed and the original was restored: " source
  details_of backup_path source (err rollback_error) = text_append "replacement failed (" (
      text_append source (
        text_append "); restoring the original also failed ("
          (text_append rollback_error.text (text_append "); backup: " backup_path))))

  -- the original file is moved back where that can be done
  abbrev pub roll_back :
      String → String → String → String → IoError → Step ProfileError F (Unit {0})
  roll_back backup_path previous_path staged_path live source disk =
      let rollback = fs.rename previous_path live disk in
      removing staged_path (archive live (details_of backup_path source.text rollback.0)) rollback.1

  abbrev pub swap : String → String → String → String → Step ProfileError F (Unit {0})
  swap backup_path previous_path staged_path live = do
    on_error (λ e. removing staged_path (write live e.text)) (fs.rename live previous_path)
    on_error (roll_back backup_path previous_path staged_path live) (fs.rename staged_path live)
    or_write previous_path (fs.remove_file previous_path)

  abbrev pub install : String → String → Step ProfileError F (Unit {0})
  install staged_path live =
      on_error (λ e. removing staged_path (write live e.text)) (fs.rename staged_path live)

  module _ (unique : String) (profile : DiscoveredProfile) where
    abbrev pub backup_path_in : String → String
    backup_path_in downloads_dir = fs.join downloads_dir (
        text_append "Helium-Sync-" (
          text_append (safe_profile_name profile.directory_name)
            (text_append "-before-load-" (text_append unique ".zip"))))

    abbrev pub staged_path : String
    staged_path = fs.join profile.path (text_append ".Bookmarks.helium-sync-new-" unique)

    abbrev pub previous_path : String
    previous_path = fs.join profile.path (text_append ".Bookmarks.helium-sync-previous-" unique)

    -- `restore_bookmarks` once the new text is there
    abbrev pub restore_bytes : String → List ℕ → Step ProfileError F (Unit {0})
    restore_bytes downloads_dir restored = do
      or_write downloads_dir (fs.create_dir_all downloads_dir)
      create_backup_archive (backup_path_in downloads_dir) profile
      stage staged_path restored
      (λ disk.
          branch (fs.exists profile.bookmarks_path disk)
            (swap (backup_path_in downloads_dir) previous_path staged_path profile.bookmarks_path)
            (install staged_path profile.bookmarks_path) disk)

    module _ (json : BookmarksJson) (to_vec : BookmarkSnapshotV1 → Option (List ℕ)) where
      unfoldable pub restore_bookmarks :
          BookmarkSnapshotV1 → String → Step ProfileError F RestoreResult
      restore_bookmarks snapshot downloads_dir = do
        give (
            guard (str_eq snapshot.profile_directory profile.directory_name)
              (profile_mismatch snapshot.profile_directory profile.directory_name))
        restored ← give (or_parse profile.bookmarks_path (chromium_bookmarks_json json snapshot))
        restore_bytes downloads_dir restored
        give (
            ok (record {
              backup_path = backup_path_in downloads_dir;
              stats = bookmark_stats to_vec snapshot;
            }))
