-- ===== src/Profile/Merge.antt =====
-- crates/helium-sync-profile/src/lib.rs: the three-way merge of bookmarks. The source adds to one
-- counter of conflicts as it goes; here each step returns the conflicts that it adds.
pub mod ThreeWay
pub mod Keys
pub mod Roots
pub mod Fuel
pub mod Children
use helium_sync.Prelude.{
  ℕ, zero, suc, ◌+◌, Bool, true, false, not, ◌&&◌, ◌||◌, str_eq, if◌then◌else◌, String, Option,
  none, some, List, [], ◌∷◌, ◌++◌, map, max, Result, ok, err, ◌>>=◌, ◌>>◌, guard,
}
use helium_sync.Profile.Errors.{ProfileError, incompatible_snapshot}
use helium_sync.Profile.Node.{
  BookmarkNode, folder, url, Nodes, nil, cons, to_list, of_list, BookmarkRoot, BookmarkSnapshotV1,
  node_id, option_eq, node_eq, height,
}

-- a value with the conflicts that were met on the way
abbrev pub Tally : Type 0 → Type 0
Tally A = A × ℕ

unfoldable pub merge_value : {A : Type 0} → (A → A → Bool) → Option A → A → A → Tally A
merge_value eq base local remote =
    if eq local remote
    then (local, 0)
    else if option_eq eq (some local) base
    then (remote, 0)
    else if option_eq eq (some remote) base
    then (local, 0)
    else (remote, 1)

-- `node_map(nodes).get(id)`: of two nodes with one ID the later stays in the map
unfoldable pub find_node : String → List BookmarkNode → Option BookmarkNode
find_node id [] = none
find_node id (x ∷ xs) = elim (find_node id xs) [
  | some y ↦ some y
  | none ↦ if str_eq (node_id x) id then some x else none
]

unfoldable pub contains : String → List String → Bool
contains id [] = false
contains id (x ∷ xs) = str_eq x id || contains id xs

-- the loop that collects each key once, where it stands first
unfoldable pub unseen : List String → List String → List String
unseen seen [] = []
unseen seen (x ∷ xs) = elim (contains x seen) [
  | true ↦ unseen seen xs
  | false ↦ x ∷ unseen (x ∷ seen) xs
]

-- one call of `merge_optional_node`, for the children of a folder
abbrev pub MergeOptional : Type 0
MergeOptional =
    Option BookmarkNode → Option BookmarkNode → Option BookmarkNode → Tally (Option BookmarkNode)

abbrev pub kept {ℓ} : {A : Type ℓ} → Option A → List A → List A
kept none xs = xs
kept (some x) xs = x ∷ xs

-- the `filter_map` over the IDs
unfoldable pub merge_ids :
    MergeOptional
    → (base local remote : String → Option BookmarkNode) → List String
    → Tally (List BookmarkNode)
merge_ids merge base local remote [] = ([], 0)
merge_ids merge base local remote (id ∷ ids) =
    let here = merge (base id) (local id) (remote id) in
    let rest = merge_ids merge base local remote ids in (kept here.0 rest.0, here.1 + rest.1)

abbrev pub children_or_none : Option (List BookmarkNode) → List BookmarkNode
children_or_none none = []
children_or_none (some xs) = xs

unfoldable pub merge_children :
    MergeOptional
    → Option (List BookmarkNode)
    → List BookmarkNode
    → List BookmarkNode
    → Tally (List BookmarkNode)
merge_children merge base local remote =
    let bases = children_or_none base in
    merge_ids merge (λ id. find_node id bases) (λ id. find_node id local)
      (λ id. find_node id remote) (unseen [] (map node_id (remote ++ (local ++ bases))))

-- the fields of a base folder, and of a base URL, with the ID of the local one
pub record BaseFolder : Type 0 where
  pub name : String
  pub date_added : Option String
  pub date_modified : Option String
  pub children : List BookmarkNode

pub record BaseUrl : Type 0 where
  pub name : String
  pub target : String
  pub date_added : Option String

unfoldable pub base_folder : String → Option BookmarkNode → Option BaseFolder
base_folder id none = none
base_folder id (some (url i n u a)) = none
base_folder id (some (folder i n a m xs)) =
    if str_eq i id
    then some (record { name = n; date_added = a; date_modified = m; children = to_list xs })
    else none

unfoldable pub base_url : String → Option BookmarkNode → Option BaseUrl
base_url id none = none
base_url id (some (folder i n a m xs)) = none
base_url id (some (url i n u a)) =
    if str_eq i id then some (record { name = n; target = u; date_added = a }) else none

abbrev pub field {ℓ κ} : {A : Type ℓ} {B : Type κ} → (A → B) → Option A → Option B
field f none = none
field f (some a) = some (f a)

unfoldable pub merge_present_node :
    MergeOptional → Option BookmarkNode → BookmarkNode → BookmarkNode → Tally BookmarkNode
merge_present_node merge base (folder i n a m xs) (folder i' n' a' m' xs') =
    if str_eq i i'
    then (let b = base_folder i base in
        let name = merge_value str_eq (field (λ v. v.name) b) n n' in
        let added = merge_value (option_eq str_eq) (field (λ v. v.date_added) b) a a' in
        let modified = merge_value (option_eq str_eq) (field (λ v. v.date_modified) b) m m' in
        let children =
          merge_children merge (field (λ v. v.children) b) (to_list xs) (to_list xs') in
        (
          folder i name.0 added.0 modified.0 (of_list children.0),
          name.1 + added.1 + modified.1 + children.1,
        ))
    else (folder i' n' a' m' xs', 1)
merge_present_node merge base (url i n u a) (url i' n' u' a') =
    if str_eq i i'
    then (let b = base_url i base in
        let name = merge_value str_eq (field (λ v. v.name) b) n n' in
        let target = merge_value str_eq (field (λ v. v.target) b) u u' in
        let added = merge_value (option_eq str_eq) (field (λ v. v.date_added) b) a a' in
        (url i name.0 target.0 added.0, name.1 + target.1 + added.1))
    else (url i' n' u' a', 1)
merge_present_node merge base (folder i n a m xs) (url i' n' u' a') = (url i' n' u' a', 1)
merge_present_node merge base (url i n u a) (folder i' n' a' m' xs') = (folder i' n' a' m' xs', 1)

-- the `match` at the end of `merge_optional_node`
unfoldable pub merge_changed : MergeOptional → MergeOptional
merge_changed merge base (some local) (some remote) =
    let merged = merge_present_node merge base local remote in (some merged.0, merged.1)
merge_changed merge (some base) none (some remote) = (some remote, 1)
merge_changed merge (some base) (some local) none = (some local, 1)
merge_changed merge none none (some remote) = (none, 0)
merge_changed merge none (some local) none = (none, 0)
merge_changed merge base none none = (none, 0)

-- The recursion goes down the local tree, so fuel above its height is never used up; without fuel
-- the result has no meaning (Profile/Merge/Fuel).
unfoldable pub merge_optional_node : ℕ → MergeOptional
merge_optional_node zero base local remote = (none, 0)
merge_optional_node (suc fuel) base local remote =
    let merged = merge_changed (merge_optional_node fuel) base local remote in
    if option_eq node_eq local remote
    then (local, 0)
    else if option_eq node_eq local base
    then (remote, 0)
    else if option_eq node_eq remote base
    then (local, 0)
    else merged

unfoldable pub validate_merge_pair :
    BookmarkSnapshotV1 → BookmarkSnapshotV1 → Result ProfileError (Unit {0})
validate_merge_pair left right =
    guard
      (str_eq left.format right.format
        && str_eq left.source_browser right.source_browser
        && str_eq left.profile_directory right.profile_directory)
      incompatible_snapshot

-- the map of the roots: of two roots with one key the later stays
unfoldable pub find_root : String → List BookmarkRoot → Option BookmarkNode
find_root key [] = none
find_root key (x ∷ xs) = elim (find_root key xs) [
  | some y ↦ some y
  | none ↦ if str_eq x.key key then some x.node else none
]

abbrev pub keys : List BookmarkRoot → List String
keys [] = []
keys (x ∷ xs) = x.key ∷ keys xs

abbrev pub kept_root : String → Option BookmarkNode → List BookmarkRoot → List BookmarkRoot
kept_root key none roots = roots
kept_root key (some node) roots = record { key = key; node = node } ∷ roots

-- the `filter_map` over the keys
unfoldable pub merge_keys :
    MergeOptional
    → (base local remote : List BookmarkRoot) → List String
    → Tally (List BookmarkRoot)
merge_keys merge base local remote [] = ([], 0)
merge_keys merge base local remote (key ∷ rest) =
    let here = merge (find_root key base) (find_root key local) (find_root key remote) in
    let later = merge_keys merge base local remote rest in
    (kept_root key here.0 later.0, here.1 + later.1)

abbrev pub roots_or_none : Option BookmarkSnapshotV1 → List BookmarkRoot
roots_or_none none = []
roots_or_none (some s) = s.roots

abbrev pub validate_base :
    Option BookmarkSnapshotV1 → BookmarkSnapshotV1 → Result ProfileError (Unit {0})
validate_base none local = ok tt
validate_base (some base) local = validate_merge_pair base local

abbrev pub roots_height : List BookmarkRoot → ℕ
roots_height [] = 0
roots_height (x ∷ xs) = max (height x.node) (roots_height xs)

pub record BookmarkMergeResult : Type 0 where
  pub snapshot : BookmarkSnapshotV1
  pub conflicts : ℕ

unfoldable pub merge_roots : (base local remote : List BookmarkRoot) → Tally (List BookmarkRoot)
merge_roots base local remote =
    merge_keys (merge_optional_node (roots_height local + 1)) base local remote
      (unseen [] (keys (remote ++ (local ++ base))))

unfoldable pub merge_bookmarks :
    Option BookmarkSnapshotV1
    → BookmarkSnapshotV1
    → BookmarkSnapshotV1
    → Result ProfileError BookmarkMergeResult
merge_bookmarks base local remote = do
  validate_merge_pair local remote
  validate_base base local
  let merged = merge_roots (roots_or_none base) local.roots remote.roots
  ok (record {
    snapshot = record {
      format = remote.format;
      source_browser = remote.source_browser;
      profile_directory = remote.profile_directory;
      chromium_version = max local.chromium_version remote.chromium_version;
      roots = merged.0;
    };
    conflicts = merged.1;
  })
