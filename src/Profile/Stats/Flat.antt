-- ===== src/Profile/Stats/Flat.antt =====
-- `bookmark_stats` against the list of all nodes below the roots.
use helium_sync.Prelude.{
  ℕ, ◌+◌, ◌≡◌, ap, ◌∙◌, Bool, true, false, not, Option, List, [], ◌∷◌, ◌++◌, arith,
}
use helium_sync.Prelude.Rows
use helium_sync.Profile.Node.{
  BookmarkNode, BookmarkRoot, BookmarkSnapshotV1, Nodes, folder, url, nil, cons,
}
use helium_sync.Profile.Stats.{Counters, count, count_nodes, count_roots, bookmark_stats}

-- a node and all that is below it, from the top down
unfoldable mutual
  pub all_nodes : BookmarkNode → List BookmarkNode
  all_nodes (folder id name added modified children) =
      folder id name added modified children ∷ below children
  all_nodes (url id name target added) = url id name target added ∷ []

  pub below : Nodes → List BookmarkNode
  below nil = []
  below (cons x xs) = all_nodes x ++ below xs

unfoldable pub nodes_of : List BookmarkRoot → List BookmarkNode
nodes_of [] = []
nodes_of (root ∷ rest) = all_nodes root.node ++ nodes_of rest

abbrev pub is_url : BookmarkNode → Bool
is_url (url _ _ _ _) = true
is_url (folder _ _ _ _ _) = false

abbrev pub is_folder : BookmarkNode → Bool
is_folder x = not (is_url x)

-- the counters after the nodes of a list
abbrev tally : List BookmarkNode → Counters → Counters
tally nodes (b, f) = (b + Rows.count is_url nodes, f + Rows.count is_folder nodes)

tally-append :
    (xs ys : List BookmarkNode) (c : Counters) → tally ys (tally xs c) ≡ tally (xs ++ ys) c
tally-append xs ys (b, f) =
    let urls = Rows.count-append is_url xs ys in
    let folders = Rows.count-append is_folder xs ys in ground arith

mutual
  unfolding count all_nodes Rows.count

  count-tally : (x : BookmarkNode) (c : Counters) → count x c ≡ tally (all_nodes x) c
  count-tally (folder id name added modified children) (b, f) =
      let rest = count_nodes-tally children (b, f + 1) in ground arith
  count-tally (url id name target added) (b, f) = ground arith

  count_nodes-tally : (xs : Nodes) (c : Counters) → count_nodes xs c ≡ tally (below xs) c
  count_nodes-tally nil (b, f) = ground arith
  count_nodes-tally (cons x xs) c =
      ap (count_nodes xs) (count-tally x c)
      ∙ count_nodes-tally xs (tally (all_nodes x) c)
      ∙ tally-append (all_nodes x) (below xs) c

count_roots-tally :
    (roots : List BookmarkRoot) (c : Counters) → count_roots roots c ≡ tally (nodes_of roots) c
unfolding count_roots nodes_of Rows.count
count_roots-tally [] (b, f) = ground arith
count_roots-tally (root ∷ rest) c =
    ap (count_roots rest) (count-tally root.node c)
    ∙ count_roots-tally rest (tally (all_nodes root.node) c)
    ∙ tally-append (all_nodes root.node) (nodes_of rest) c

-- The counts of bookmarks and folders, which the code adds up by descending each tree, are the
-- numbers of URL nodes and of folder nodes in the list of all nodes of all roots.
pub bookmark_stats-flat :
    (to_vec : BookmarkSnapshotV1 → Option (List ℕ)) (snapshot : BookmarkSnapshotV1)
    → ((bookmark_stats to_vec snapshot).bookmarks ≡ Rows.count is_url (nodes_of snapshot.roots))
      × ((bookmark_stats to_vec snapshot).folders ≡ Rows.count is_folder (nodes_of snapshot.roots))
unfolding bookmark_stats
bookmark_stats-flat to_vec snapshot =
    let flat = count_roots-tally snapshot.roots (0, 0) in
    (ap (λ (c : Counters). c.0) flat ∙ omega arith, ap (λ (c : Counters). c.1) flat ∙ omega arith)
