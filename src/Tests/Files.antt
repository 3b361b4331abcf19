-- ===== src/Tests/Files.antt =====
-- `restore_bookmarks` and `read_bookmarks` (crates/helium-sync-profile/src/lib.rs) on a disk.
use helium_sync.Prelude.{
  ℕ, ◌≡◌, ◌≢◌, refl, ap, sym, ◌∙◌, Bool, true, false, ◌&&◌, Bool-cases, inl, inr, arith, str_eq,
  eq_iff, if◌then◌else◌, String, Option, none, some, List, [], ◌∷◌, Result, ok, err,
}
use helium_sync.Prelude.Table.{lookup, insert}
use helium_sync.Prelude.Rows.{compare_by}
use helium_sync.Prelude.Step.{Ends}
use helium_sync.Profile.Node.{BookmarkSnapshotV1, BookmarkNode, Nodes}
use helium_sync.Profile.Raw.{RawNode, RawNodes, raw_node, raw_nil, raw_cons, raw_of, raw_root}
use helium_sync.Profile.Stats.{count, count_roots, bookmark_stats}
use helium_sync.Profile.Files.{
  RawBookmarks, BookmarksJson, BookmarkStatus, DiscoveredProfile, insert_key, collect_map,
  chromium_bookmarks_json, read_bookmarks,
}
use helium_sync.Profile.Restore.{
  restore_bookmarks, create_backup_archive, safe_profile_name, without_backslash,
}
use helium_sync.Profile.Restore.Kept.{ArePaths}
use helium_sync.Profile.Restore.Safe.{IsRestored, IsNotLost, site_of, restore_bookmarks-kept}
use helium_sync.Profile.Restore.ReadBack.{JsonReadsBack, as_in_file, read_bookmarks-restored}
use helium_sync.Tests.Disk.{
  Disk, content, disk_system, disk_system-Lawful, disk_system-Readable, zip, remove,
}

abbrev bar_roots : List (String × RawNode)
bar_roots = ("bookmark_bar", raw_node "1" "Bar" "folder" none none none raw_nil) ∷ []

unfoldable is_absent : Option String → Bool
is_absent none = true
is_absent (some s) = false

is_absent-eq : (o : Option String) → is_absent o ≡ true → o ≡ none
unfolding is_absent
is_absent-eq none h = refl
is_absent-eq (some s) h = absurd (ground arith)

unfoldable is_empty : RawNodes → Bool
is_empty raw_nil = true
is_empty (raw_cons x xs) = false

is_empty-eq : (xs : RawNodes) → is_empty xs ≡ true → xs ≡ raw_nil
unfolding is_empty
is_empty-eq raw_nil h = refl
is_empty-eq (raw_cons x xs) h = absurd (ground arith)

-- the roots that this JSON can write: an empty bookmark bar
unfoldable pub is_bar : List (String × RawNode) → Bool
unfolding is_absent is_empty
is_bar [] = false
is_bar ((key, raw_node id name kind target added modified xs) ∷ []) =
    str_eq key "bookmark_bar"
    && str_eq id "1"
    && str_eq name "Bar"
    && str_eq kind "folder"
    && is_absent target
    && is_absent added
    && is_absent modified
    && is_empty xs
is_bar (x ∷ y ∷ ys) = false

is_bar-eq : (roots : List (String × RawNode)) → is_bar roots ≡ true → roots ≡ bar_roots
unfolding is_bar
is_bar-eq [] h = absurd (ground arith)
is_bar-eq ((key, raw_node id name kind target added modified xs) ∷ []) h = ground (
  arith,
  eq_iff key "bookmark_bar",
  eq_iff id "1",
  eq_iff name "Bar",
  eq_iff kind "folder",
  is_absent-eq target,
  is_absent-eq added,
  is_absent-eq modified,
  is_empty-eq xs,
)
is_bar-eq (x ∷ y ∷ ys) h = absurd (ground arith)

abbrev parse_bar : List ℕ → Result String RawBookmarks
parse_bar [] = err "end of file"
parse_bar (version ∷ rest) = ok (record { version = version; roots = bar_roots })

abbrev pub bar_json : BookmarksJson
bar_json = record {
  from_slice = parse_bar;
  to_vec_pretty = λ raw. if is_bar raw.roots then ok (raw.version ∷ []) else err "other roots";
}

pub bar_json-ReadsBack : JsonReadsBack bar_json
bar_json-ReadsBack raw bytes h = elim (Bool-cases (is_bar raw.roots)) [
  | inl own ↦
      let roots = is_bar-eq raw.roots own in
      let made : raw.version ∷ [] ≡ bytes = ground arith in
      sym (ap parse_bar made)
      ∙ ap (λ (rs : List (String × RawNode)). ok (record { version = raw.version; roots = rs }))
          (sym roots)
  | inr other ↦ absurd (ground arith)
]

abbrev pub bar : BookmarkSnapshotV1
bar = record {
  format = "helium-bookmarks-v1";
  source_browser = "helium";
  profile_directory = "Default";
  chromium_version = 8;
  roots =
      record { key = "bookmark_bar"; node = BookmarkNode.folder "1" "Bar" none none Nodes.nil }
      ∷ [];
}

abbrev pub the_profile : DiscoveredProfile
the_profile = record {
  directory_name = "Default";
  display_name = "Me";
  path = "Default";
  bookmarks_path = "Default/Bookmarks";
  bookmark_status = BookmarkStatus.readable;
}

abbrev pub the_disk : Disk
the_disk = ("Default/Bookmarks", 7 ∷ []) ∷ []

differ : (a b : String) → str_eq a b ≡ false → a ≢ b
differ a b h e = let same = (eq_iff a b).1 e in absurd (ground arith)

pub the_paths : ArePaths disk_system zip "1" the_profile "Downloads"
unfolding safe_profile_name
the_paths = record {
  live_staged = differ _ _ refl;
  live_previous = differ _ _ refl;
  live_backup = differ _ _ refl;
  staged_previous = differ _ _ refl;
  previous_staged = differ _ _ refl;
  staged_live = differ _ _ refl;
  previous_live = differ _ _ refl;
}

abbrev no_json : BookmarkSnapshotV1 → Option (List ℕ)
no_json snapshot = none

-- An existing file is replaced.
restore_bookmarks-kept_example :
    Ends
      (λ r t.
        IsRestored content
          (site_of disk_system zip "1" the_profile "Downloads" the_disk)
          (chromium_bookmarks_json bar_json bar)
          t)
      (λ e t.
        IsNotLost content
          (site_of disk_system zip "1" the_profile "Downloads" the_disk)
          (chromium_bookmarks_json bar_json bar)
          t)
      (restore_bookmarks disk_system zip "1" the_profile bar_json no_json bar "Downloads" the_disk)
restore_bookmarks-kept_example =
    restore_bookmarks-kept disk_system zip content disk_system-Lawful "1" the_profile "Downloads"
      the_paths the_disk bar_json no_json bar

abbrev backup : String
backup = "Downloads/Helium-Sync-Default-before-load-1.zip"

abbrev after : Disk
after = (backup, 1 ∷ 2 ∷ []) ∷ ("Default/Bookmarks", 8 ∷ []) ∷ []

restored :
    restore_bookmarks disk_system zip "1" the_profile bar_json no_json bar "Downloads" the_disk ≡ (
      ok (record {
        backup_path = backup;
        stats = record { bookmarks = 0; folders = 1; bytes = 0 };
      }),
      after,
    )
unfolding restore_bookmarks create_backup_archive chromium_bookmarks_json collect_map insert_key
    compare_by raw_root raw_of is_bar safe_profile_name without_backslash bookmark_stats count_roots
    count lookup insert remove
restored = refl

read_bookmarks-restored_example :
    read_bookmarks disk_system bar_json "Default/Bookmarks" "Default" after
    ≡ (ok (as_in_file bar), after)
read_bookmarks-restored_example =
    read_bookmarks-restored disk_system zip content disk_system-Lawful disk_system-Readable bar_json
      bar_json-ReadsBack no_json "1" the_profile "Downloads" the_paths bar the_disk _ _ restored

bar-as_in_file : as_in_file bar ≡ bar
unfolding as_in_file collect_map insert_key
bar-as_in_file = refl
