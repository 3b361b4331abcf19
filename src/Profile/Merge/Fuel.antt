-- ===== src/Profile/Merge/Fuel.antt =====
-- The merge under different amounts of fuel.
use helium_sync.Prelude.{
  ◌-◌, ℕ, zero, suc, ◌+◌, ◌≤◌, ◌<◌, ◌≡◌, refl, Option, none, some, String, List, [], ◌∷◌, ◌++◌, map,
  arith,
}
use helium_sync.Profile.Node.{
  BookmarkNode, folder, url, Nodes, nil, cons, to_list, height, heights, node_id,
}
use helium_sync.Profile.Merge.{
  MergeOptional, find_node, merge_ids, merge_children, merge_present_node, merge_changed,
  merge_optional_node, children_or_none, unseen, base_folder, field,
}

abbrev pub height_of : Option BookmarkNode → ℕ
height_of none = 0
height_of (some x) = height x

find_node-height : (id : String) (xs : Nodes) → height_of (find_node id (to_list xs)) ≤ heights xs
unfolding find_node height
find_node-height id nil = omega arith
find_node-height id (cons x xs) = ground (arith, find_node-height id xs)

module _ (m n : MergeOptional) where
  merge_ids_cong :
      (base local remote : String → Option BookmarkNode) (ids : List String)
      → ((id : String) → m (base id) (local id) (remote id) ≡ n (base id) (local id) (remote id))
      → merge_ids m base local remote ids ≡ merge_ids n base local remote ids
  unfolding merge_ids
  merge_ids_cong base local remote [] h = refl
  merge_ids_cong base local remote (id ∷ ids) h =
      ground (arith, h id, merge_ids_cong base local remote ids h)

  merge_children_cong :
      (bound : ℕ) (base : Option (List BookmarkNode)) (local : Nodes) (remote : List BookmarkNode)
      → heights local ≤ bound
      → ((b l r : Option BookmarkNode) → height_of l ≤ bound → m b l r ≡ n b l r)
      → merge_children m base (to_list local) remote ≡ merge_children n base (to_list local) remote
  unfolding merge_children
  merge_children_cong bound base local remote small same =
      let bases = children_or_none base in
      merge_ids_cong (λ id. find_node id bases) (λ id. find_node id (to_list local))
        (λ id. find_node id remote) (unseen [] (map node_id (remote ++ (to_list local ++ bases))))
        (λ id.
          same (find_node id bases) (find_node id (to_list local)) (find_node id remote)
            (omega (arith, find_node-height id local)))

  -- The merge of two present nodes asks about nodes below the local one only.
  merge_present_node_cong :
      (bound : ℕ) (base : Option BookmarkNode) (local remote : BookmarkNode)
      → height local ≤ bound + 1
      → ((b l r : Option BookmarkNode) → height_of l ≤ bound → m b l r ≡ n b l r)
      → merge_present_node m base local remote ≡ merge_present_node n base local remote
  unfolding merge_present_node height
  merge_present_node_cong bound base (folder i a b c xs) (folder i' a' b' c' xs') small same = rw (
      merge_children_cong bound (field (λ v. v.children) (base_folder i base)) xs (to_list xs')
        (omega arith) same)
  merge_present_node_cong bound base (url i a u d) (url i' a' u' d') small same = refl
  merge_present_node_cong bound base (folder i a b c xs) (url i' a' u' d') small same = refl
  merge_present_node_cong bound base (url i a u d) (folder i' a' b' c' xs') small same = refl

height_pos : (x : BookmarkNode) → 0 < height x
unfolding height
height_pos (folder i a b c xs) = omega arith
height_pos (url i a u d) = omega arith

-- Any fuel above the height of the local tree gives the same merge, so the fuel that the model
-- picks is enough and its out-of-fuel answer is never part of a result.
pub merge_optional_node-fuel :
    (f g : ℕ) (base local remote : Option BookmarkNode)
    → height_of local < f
    → height_of local < g
    → merge_optional_node f base local remote ≡ merge_optional_node g base local remote
unfolding merge_optional_node merge_changed
merge_optional_node-fuel zero g base local remote hf hg = elim hf [ ]
merge_optional_node-fuel (suc f) zero base local remote hf hg = elim hg [ ]
merge_optional_node-fuel (suc f) (suc g) base (some l) (some r) hf hg =
    let present =
      merge_present_node_cong (merge_optional_node f) (merge_optional_node g) (height l - 1) base l
        r (omega (arith, height_pos l))
        (λ b l' r' small.
          merge_optional_node-fuel f g b l' r' (omega (arith, height_pos l))
            (omega (arith, height_pos l))) in
    rw present
merge_optional_node-fuel (suc f) (suc g) none none (some r) hf hg = refl
merge_optional_node-fuel (suc f) (suc g) (some b) none (some r) hf hg = refl
merge_optional_node-fuel (suc f) (suc g) none (some l) none hf hg = refl
merge_optional_node-fuel (suc f) (suc g) (some b) (some l) none hf hg = refl
merge_optional_node-fuel (suc f) (suc g) none none none hf hg = refl
merge_optional_node-fuel (suc f) (suc g) (some b) none none hf hg = refl
