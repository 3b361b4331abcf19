-- ===== src/Profile/Node.antt =====
-- crates/helium-sync-profile/src/lib.rs: bookmark trees and snapshots.
pub mod Equality
use helium_sync.Prelude.{
  ℕ, ◌+◌, Bool, true, false, ◌&&◌, str_eq, ◌==◌, if◌then◌else◌, String, Option, none, some, List,
  [], ◌∷◌, max,
}

-- `BookmarkNode`; the vector of children is a type of the block.
mutual
  pub data BookmarkNode : Type 0 where
    -- id, name, date_added, date_modified, children
    folder : String → String → Option String → Option String → Nodes → BookmarkNode
    -- id, name, url, date_added
    url : String → String → String → Option String → BookmarkNode

  pub data Nodes : Type 0 where
    nil : Nodes
    cons : BookmarkNode → Nodes → Nodes

abbrev pub to_list : Nodes → List BookmarkNode
to_list nil = []
to_list (cons x xs) = x ∷ to_list xs

abbrev pub of_list : List BookmarkNode → Nodes
of_list [] = nil
of_list (x ∷ xs) = cons x (of_list xs)

pub record BookmarkRoot : Type 0 where
  pub key : String
  pub node : BookmarkNode

pub record BookmarkSnapshotV1 : Type 0 where
  pub format : String
  pub source_browser : String
  pub profile_directory : String
  pub chromium_version : ℕ
  pub roots : List BookmarkRoot

abbrev pub node_id : BookmarkNode → String
node_id (folder id _ _ _ _) = id
node_id (url id _ _ _) = id

abbrev pub option_eq {ℓ} : {A : Type ℓ} → (A → A → Bool) → Option A → Option A → Bool
option_eq eq none none = true
option_eq eq none (some b) = false
option_eq eq (some a) none = false
option_eq eq (some a) (some b) = eq a b

-- the derived `PartialEq` of `BookmarkNode`
unfoldable mutual
  pub node_eq : BookmarkNode → BookmarkNode → Bool
  node_eq (folder i n a m xs) (folder i' n' a' m' xs') =
      str_eq i i'
      && str_eq n n'
      && option_eq str_eq a a'
      && option_eq str_eq m m'
      && nodes_eq xs xs'
  node_eq (folder i n a m xs) (url i' n' u' a') = false
  node_eq (url i n u a) (url i' n' u' a') =
      str_eq i i' && str_eq n n' && str_eq u u' && option_eq str_eq a a'
  node_eq (url i n u a) (folder i' n' a' m' xs') = false

  pub nodes_eq : Nodes → Nodes → Bool
  nodes_eq nil nil = true
  nodes_eq nil (cons y ys) = false
  nodes_eq (cons x xs) nil = false
  nodes_eq (cons x xs) (cons y ys) = node_eq x y && nodes_eq xs ys

-- the levels of folders in a tree
unfoldable mutual
  pub height : BookmarkNode → ℕ
  height (folder i n a m xs) = heights xs + 1
  height (url i n u a) = 1

  pub heights : Nodes → ℕ
  heights nil = 0
  heights (cons x xs) = max (height x) (heights xs)
