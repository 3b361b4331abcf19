-- ===== src/Profile/Restore/Safe.antt =====
-- crates/helium-sync-profile/src/lib.rs: `restore_bookmarks` as a whole.
use helium_sync.Prelude.{
  ℕ, ◌≡◌, ◌⊎◌, inl, inr, refl, String, Option, List, ok, Result, Result-cases, str_eq, Bool-cases,
}
use helium_sync.Prelude.Step.{Ends, Ends->>=, Ends-map_err, Ends-weaken}
use helium_sync.Profile.Node.{BookmarkSnapshotV1}
use helium_sync.Profile.Files.{
  FileSystem, BookmarksJson, DiscoveredProfile, chromium_bookmarks_json,
}
use helium_sync.Profile.Restore.{
  ZipWriter, restore_bookmarks, restore_bytes, backup_path_in, staged_path, previous_path, stage,
  create_backup_archive,
}
use helium_sync.Profile.Restore.Laws.{Contents, Lawful, Ends-both, create_backup_archive-keeps}
use helium_sync.Profile.Restore.Kept.{
  Site, ArePaths, IsStart, IsAside, IsStaged, IsDone, IsKept, IsStart-backup, IsStart-Same,
  stage-staged, exchange-IsDone,
}

abbrev pub site_of :
    {F : Type 0} → FileSystem F → ZipWriter F → String → DiscoveredProfile → String → F → Site F
site_of fs zip unique profile downloads start = record {
  live = profile.bookmarks_path;
  staged = staged_path fs zip unique profile;
  previous = previous_path fs zip unique profile;
  backup = backup_path_in fs zip unique profile downloads;
  start = start;
}

module _ {F : Type 0} (content : Contents F) (site : Site F) (text : Result String (List ℕ)) where
  -- the live file is the text, and no file but the four of the site has changed
  abbrev pub IsRestored : F → Type 0
  IsRestored disk = (bytes : List ℕ) × (text ≡ ok bytes) × IsDone content site bytes disk

  -- what was in the live file is still there, or has been moved aside, or is replaced
  abbrev pub IsNotLost : F → Type 0
  IsNotLost disk = IsStart content site disk ⊎ (IsRestored disk ⊎ IsAside content site disk)

  lost_or_kept :
      (bytes : List ℕ) (t : F) → text ≡ ok bytes → IsKept content site bytes t → IsNotLost t
  lost_or_kept bytes t h (inl kept) = inl kept
  lost_or_kept bytes t h (inr (inl done)) = inr (inl (bytes, h, done))
  lost_or_kept bytes t h (inr (inr aside)) = inr (inr aside)

module _ {F : Type 0} (fs : FileSystem F) (zip : ZipWriter F) (content : Contents F)
    (laws : Lawful content fs zip) (unique : String) (profile : DiscoveredProfile)
    (downloads : String) (paths : ArePaths fs zip unique profile downloads) (start : F) where
  abbrev site : Site F
  site = site_of fs zip unique profile downloads start

  unchanged : IsStart content site start
  unchanged = (refl, λ q l s p b. refl)

  restore_bytes-IsDone :
      (bytes : List ℕ)
      → Ends
          (λ a t. IsDone content site bytes t)
          (λ e t. IsKept content site bytes t)
          (restore_bytes fs zip unique profile downloads bytes start)
  restore_bytes-IsDone bytes =
      let is_start = IsStart-backup fs zip content laws _ _ _ site.backup paths start bytes in
      Ends->>= (λ a t. IsStart content site t) (λ a t. IsDone content site bytes t)
        (λ e t. IsKept content site bytes t) _ _
        (Ends-map_err (λ a t. IsStart content site t) (IsKept content site bytes) _
          (fs.create_dir_all downloads start)
          (Ends-weaken _ _ _ _ (fs.create_dir_all downloads start)
            (Ends-both (IsStart content site) (fs.create_dir_all downloads start) (
              IsStart-Same fs zip content laws _ _ _ site.backup paths start bytes start _
                (laws.create_dir_all downloads start) unchanged))
            (λ a t h. h) (λ e t h. inl h)))
        (λ a t h.
          Ends->>= (λ a t. IsStart content site t) (λ a t. IsDone content site bytes t)
            (λ e t. IsKept content site bytes t)
            (create_backup_archive fs zip site.backup profile t) _
            (Ends-weaken _ _ _ _ (create_backup_archive fs zip site.backup profile t)
              (create_backup_archive-keeps fs zip content laws site.backup (IsStart content site)
                is_start profile t h)
              (λ a t h. h) (λ e t h. inl h))
            (λ a u g.
              Ends->>= (λ a t. IsStaged content site bytes t) (λ a t. IsDone content site bytes t)
                (λ e t. IsKept content site bytes t) (stage fs zip site.staged bytes u) _
                (Ends-weaken _ _ _ _ (stage fs zip site.staged bytes u)
                  (stage-staged fs zip content laws _ _ _ site.backup paths start bytes u g)
                  (λ a t h. h) (λ e t h. inl h))
                (λ a v k.
                  exchange-IsDone fs zip content laws _ _ _ site.backup paths start bytes
                    (fs.exists profile.bookmarks_path v) v k)))

  module _ (json : BookmarksJson) (to_vec : BookmarkSnapshotV1 → Option (List ℕ))
      (snapshot : BookmarkSnapshotV1) where
    abbrev text : Result String (List ℕ)
    text = chromium_bookmarks_json json snapshot

    -- A restore of bookmarks that succeeds leaves the text of the snapshot in the bookmark file;
    -- one that fails, at whatever step, leaves in it what was there, or that text, or has left
    -- what was there in the file that it moves aside; and no file but the four of the restore
    -- changes, under the laws of the file system and of the archive writer, where the four paths
    -- differ.
    pub restore_bookmarks-kept :
        Ends
          (λ r t. IsRestored content site text t)
          (λ e t. IsNotLost content site text t)
          (restore_bookmarks fs zip unique profile json to_vec snapshot downloads start)
    unfolding restore_bookmarks
    restore_bookmarks-kept =
        elim (Bool-cases (str_eq snapshot.profile_directory profile.directory_name)) [
          | inr other ↦ rw other (inl unchanged)
          | inl same ↦ elim (Result-cases text) [
            | inl (e, h) ↦ rw (same, h) (inl unchanged)
            | inr (bytes, h) ↦
                rw (same, h)
                  (Ends->>= (λ a t. IsDone content site bytes t)
                    (λ r t. IsRestored content site (ok bytes) t)
                    (λ e t. IsNotLost content site (ok bytes) t)
                    (restore_bytes fs zip unique profile downloads bytes start) _
                    (Ends-weaken _ _ _ _ (restore_bytes fs zip unique profile downloads bytes start)
                      (restore_bytes-IsDone bytes) (λ a t h. h)
                      (λ e t g. lost_or_kept content site (ok bytes) bytes t refl g))
                    (λ a t g. (bytes, refl, g)))
          ]
        ]
