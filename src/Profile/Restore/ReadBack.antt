-- ===== src/Profile/Restore/ReadBack.antt =====
-- crates/helium-sync-profile/src/lib.rs: `read_bookmarks` after `restore_bookmarks`.
use helium_sync.Prelude.{
  ℕ, ◌≡◌, refl, ap, ◌∙◌, sym, subst, true, Bool-cases, inl, inr, arith, eq_iff, str_eq, String,
  Option, some, List, [], ◌∷◌, map, Result, ok, err, Result-cases, Option-cases, none, ◌==◌,
}
use helium_sync.Prelude.Step.{Ends}
use helium_sync.Profile.Errors.{ProfileError}
use helium_sync.Profile.Node.{BookmarkNode, BookmarkRoot, BookmarkSnapshotV1, option_eq}
use helium_sync.Profile.Raw.{RawNode, raw_of, convert_root, convert_root-raw_root, raw_root}
use helium_sync.Profile.Files.{
  IoError, Metadata, FileSystem, RawBookmarks, BookmarksJson, DiscoveredProfile, collect_map,
  convert_roots, snapshot_of, same_metadata, read_bookmarks, parse_bookmarks,
  chromium_bookmarks_json,
}
use helium_sync.Profile.Files.Sorted.{under_key, collect_map-map}
use helium_sync.Profile.Restore.{ZipWriter, RestoreResult, restore_bookmarks}
use helium_sync.Profile.Restore.Laws.{Contents, Lawful}
use helium_sync.Profile.Restore.Kept.{ArePaths}
use helium_sync.Profile.Restore.Safe.{restore_bookmarks-kept, IsRestored, IsNotLost, site_of}

-- A file that is there is read, while no other program writes.
pub record Readable {F : Type 0} (content : Contents F) (fs : FileSystem F) : Type 0 where
  pub metadata :
      (p : String) (disk : F) (bytes : List ℕ)
      → content p disk ≡ some bytes
      → (m : Metadata) × (fs.metadata p disk ≡ (ok m, disk))
  pub read :
      (p : String) (disk : F) (bytes : List ℕ)
      → content p disk ≡ some bytes
      → fs.read p disk ≡ (ok bytes, disk)
  pub asked : (p : String) (disk : F) → (fs.metadata p disk).1 ≡ disk
  pub missing :
      (p : String) (disk : F)
      → content p disk ≡ none
      → (e : IoError) × (fs.read p disk ≡ (err e, disk))

-- Bookmark files are read as they were written.
abbrev pub JsonReadsBack : BookmarksJson → Type 0
JsonReadsBack json =
    (raw : RawBookmarks) (bytes : List ℕ)
    → json.to_vec_pretty raw ≡ ok bytes
    → json.from_slice bytes ≡ ok raw

-- The snapshot that a bookmark file with this one's text holds: of two roots with one key the later,
-- in the order of the keys.
abbrev root_of : String × BookmarkNode → BookmarkRoot
root_of (key, node) = record { key = key; node = node }

abbrev pair_of : BookmarkRoot → String × BookmarkNode
pair_of root = (root.key, root.node)

unfoldable pub as_in_file : BookmarkSnapshotV1 → BookmarkSnapshotV1
as_in_file snapshot =
    snapshot_of snapshot.profile_directory snapshot.chromium_version
      (map root_of (collect_map [] (map pair_of snapshot.roots)))

convert_roots-map :
    (entries : List (String × BookmarkNode))
    → convert_roots (map (under_key raw_of) entries) ≡ ok (map root_of entries)
unfolding convert_roots raw_root
convert_roots-map [] = refl
convert_roots-map ((key, node) ∷ rest) =
    let read : convert_root (key, raw_of node) ≡ ok (root_of (key, node)) =
      convert_root-raw_root (root_of (key, node)) in
    rw (read, convert_roots-map rest) refl

raw_roots-map :
    (roots : List BookmarkRoot) → map raw_root roots ≡ map (under_key raw_of) (map pair_of roots)
unfolding raw_root
raw_roots-map [] = refl
raw_roots-map (root ∷ rest) =
    ap (λ (xs : List (String × RawNode)). (root.key, raw_of root.node) ∷ xs) (raw_roots-map rest)

same_option : (a : Option ℕ) → option_eq ◌==◌ a a ≡ true
same_option none = refl
same_option (some n) = ground arith

module _ (json : BookmarksJson) (reads : JsonReadsBack json) (snapshot : BookmarkSnapshotV1)
    (bytes : List ℕ) (written : chromium_bookmarks_json json snapshot ≡ ok bytes) where
  sorted_roots :
      collect_map [] (map raw_root snapshot.roots)
      ≡ map (under_key raw_of) (collect_map [] (map pair_of snapshot.roots))
  sorted_roots =
      ap (collect_map []) (raw_roots-map snapshot.roots)
      ∙ collect_map-map raw_of [] (map pair_of snapshot.roots)

  parse_bookmarks-written :
      (path : String)
      → parse_bookmarks json path snapshot.profile_directory bytes ≡ ok (as_in_file snapshot)
  unfolding parse_bookmarks chromium_bookmarks_json as_in_file
  parse_bookmarks-written path =
      rw
        (
          reads _ bytes written,
          sorted_roots,
          convert_roots-map (collect_map [] (map pair_of snapshot.roots)),
        )
        refl

module _ {F : Type 0} (fs : FileSystem F) (content : Contents F) (readable : Readable content fs)
    (json : BookmarksJson) (path profile_directory : String) (disk : F) (bytes : List ℕ)
    (there : content path disk ≡ some bytes) where
  -- A quiet file is read at the first attempt.
  read_bookmarks-parse :
      read_bookmarks fs json path profile_directory disk
      ≡ (parse_bookmarks json path profile_directory bytes, disk)
  unfolding read_bookmarks
  read_bookmarks-parse =
      let m = readable.metadata path disk bytes there in
      let same = same_option m.0.modified in
      let at : same_metadata m.0 m.0 ≡ true = ground (arith, same) in
      rw (m.1, readable.read path disk bytes there, m.1, at) refl

module _ {F : Type 0} (fs : FileSystem F) (content : Contents F) (readable : Readable content fs)
    (json : BookmarksJson) (path profile_directory : String) where
  read_bookmarks-missing :
      (disk : F)
      → content path disk ≡ none
      → (e : ProfileError) × ((read_bookmarks fs json path profile_directory disk).0 ≡ err e)
  unfolding read_bookmarks
  read_bookmarks-missing disk h =
      let quiet = readable.asked path disk in
      let absent = readable.missing path disk h in
      elim (Result-cases (fs.metadata path disk).0) [
        | inl (e, failed) ↦ (ProfileError.read path e.text, rw failed refl)
        | inr (m, found) ↦ (ProfileError.read path absent.0.text, rw (found, quiet, absent.1) refl)
      ]

  -- A read that succeeds leaves the disk as it is.
  pub read_bookmarks-quiet :
      (disk disk' : F) (snapshot : BookmarkSnapshotV1)
      → read_bookmarks fs json path profile_directory disk ≡ (ok snapshot, disk')
      → disk' ≡ disk
  read_bookmarks-quiet disk disk' snapshot h = elim (Option-cases (content path disk)) [
    | inl gone ↦ let failed = read_bookmarks-missing disk gone in absurd (ground arith)
    | inr (bytes, there) ↦
        let parsed =
          read_bookmarks-parse fs content readable json path profile_directory disk bytes there in
        ground arith
  ]

module _ {F : Type 0} (fs : FileSystem F) (zip : ZipWriter F) (content : Contents F)
    (laws : Lawful content fs zip) (readable : Readable content fs) (json : BookmarksJson)
    (reads : JsonReadsBack json) (to_vec : BookmarkSnapshotV1 → Option (List ℕ)) (unique : String)
    (profile : DiscoveredProfile) (downloads : String)
    (paths : ArePaths fs zip unique profile downloads) (snapshot : BookmarkSnapshotV1)
    (start disk : F) (r : RestoreResult)
    (restored : restore_bookmarks fs zip unique profile json to_vec snapshot downloads start
      ≡ (ok r, disk)) where
  own_directory : snapshot.profile_directory ≡ profile.directory_name
  unfolding restore_bookmarks
  own_directory = elim (Bool-cases (str_eq snapshot.profile_directory profile.directory_name)) [
    | inl same ↦ (eq_iff snapshot.profile_directory profile.directory_name).0 same
    | inr other ↦ absurd (ground arith)
  ]

  is_restored :
      IsRestored content
        (site_of fs zip unique profile downloads start)
        (chromium_bookmarks_json json snapshot)
        disk
  is_restored =
      subst
        (λ (x : Result ProfileError RestoreResult × F).
          Ends
            (λ r t.
              IsRestored content (site_of fs zip unique profile downloads start)
                (chromium_bookmarks_json json snapshot) t)
            (λ e t.
              IsNotLost content (site_of fs zip unique profile downloads start)
                (chromium_bookmarks_json json snapshot) t)
            x)
        restored
        (restore_bookmarks-kept fs zip content laws unique profile downloads paths start json to_vec
          snapshot)

  -- After a restore of bookmarks that succeeds, the bookmark file reads as the restored snapshot
  -- with its roots in the order of their keys, of two roots with one key the later, and leaves the
  -- disk as it is, under the laws of the file system, of the archive writer and of JSON, where the
  -- four paths of the restore differ.
  pub read_bookmarks-restored :
      read_bookmarks fs json profile.bookmarks_path profile.directory_name disk
      ≡ (ok (as_in_file snapshot), disk)
  read_bookmarks-restored =
      read_bookmarks-parse fs content readable json _ _ disk is_restored.0 is_restored.2.0
      ∙ ap (λ (x : Result ProfileError BookmarkSnapshotV1). (x, disk))
          (ap (λ d. parse_bookmarks json profile.bookmarks_path d is_restored.0) (sym own_directory)
            ∙ parse_bookmarks-written json reads snapshot is_restored.0 is_restored.1
                profile.bookmarks_path)
