-- ===== src/Profile/Stats.antt =====
-- crates/helium-sync-profile/src/lib.rs: `bookmark_stats`. The counters are `u64`, which no tree in
-- memory fills, and stand here as ℕ; `serde_json::to_vec` is a parameter.
pub mod Flat
use helium_sync.Prelude.{ℕ, ◌+◌, Option, none, some, List, [], ◌∷◌, length, min, u64_max}
use helium_sync.Profile.Node.{
  BookmarkNode, BookmarkRoot, BookmarkSnapshotV1, Nodes, folder, url, nil, cons,
}

pub record BookmarkStats : Type 0 where
  pub bookmarks : ℕ
  pub folders : ℕ
  pub bytes : ℕ

-- the counters `bookmarks` and `folders`
abbrev pub Counters : Type 0
Counters = ℕ × ℕ

unfoldable mutual
  pub count : BookmarkNode → Counters → Counters
  count (folder id name added modified children) (bookmarks, folders) =
      count_nodes children (bookmarks, folders + 1)
  count (url id name target added) (bookmarks, folders) = (bookmarks + 1, folders)

  -- `for child in children`
  pub count_nodes : Nodes → Counters → Counters
  count_nodes nil c = c
  count_nodes (cons x xs) c = count_nodes xs (count x c)

-- `for root in &snapshot.roots`
unfoldable pub count_roots : List BookmarkRoot → Counters → Counters
unfolding count
count_roots [] c = c
count_roots (root ∷ rest) c = count_roots rest (count root.node c)

abbrev size_of : Option (List ℕ) → ℕ
size_of none = 0
size_of (some bytes) = min (length bytes) u64_max

unfoldable pub bookmark_stats :
    (BookmarkSnapshotV1 → Option (List ℕ)) → BookmarkSnapshotV1 → BookmarkStats
unfolding count_roots
bookmark_stats to_vec snapshot =
    let counters = count_roots snapshot.roots (0, 0) in
    record { bookmarks = counters.0; folders = counters.1; bytes = size_of (to_vec snapshot) }
