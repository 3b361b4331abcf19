-- ===== src/Profile/Merge/Children.antt =====
-- The children of a folder under the merge, ID by ID (`merge_children`).
use helium_sync.Prelude.{
  ℕ, zero, suc, ◌≡◌, refl, ap, ◌∙◌, subst, true, false, Option, none, some, String, List, [], ◌∷◌,
  ◌++◌, arith, str_eq, eq_iff, if◌then◌else◌, Bool-cases, inl, inr, map,
}
use mathlib.Core.List.{map-append}
use helium_sync.Profile.Node.{BookmarkNode, folder, url, node_id}
use helium_sync.Profile.Merge.{
  MergeOptional, contains, unseen, find_node, kept, merge_ids, merge_children, merge_present_node,
  merge_changed, merge_optional_node, children_or_none,
}
use helium_sync.Profile.Merge.Keys.{Distinct, contains-append, contains-unseen, unseen-Distinct}
use helium_sync.Profile.Merge.ThreeWay.{IsThreeWay, merge_optional_node-IsThreeWay}

-- a node, if there is one, has this ID
abbrev pub HasId : String → Option BookmarkNode → Type 0
HasId id none = Unit {0}
HasId id (some x) = str_eq (node_id x) id ≡ true

pub find_node-HasId : (id : String) (xs : List BookmarkNode) → HasId id (find_node id xs)
unfolding find_node
find_node-HasId id [] = tt
find_node-HasId id (x ∷ xs) = ground (arith, find_node-HasId id xs)

find_node_missing :
    (id : String) (xs : List BookmarkNode)
    → contains id (map node_id xs) ≡ false
    → find_node id xs ≡ none
unfolding contains find_node
find_node_missing id [] h = refl
find_node_missing id (x ∷ xs) h = ground (arith, find_node_missing id xs)

-- A merge invents no node: its result has the ID of what was merged.
abbrev pub KeepsId : MergeOptional → Type 0
KeepsId merge =
    (id : String) (b l r : Option BookmarkNode)
    → HasId id b
    → HasId id l
    → HasId id r
    → HasId id (merge b l r).0

merge_present_node-HasId :
    (m : MergeOptional) (id : String) (base : Option BookmarkNode) (l r : BookmarkNode)
    → HasId id (some l)
    → HasId id (some r)
    → HasId id (some (merge_present_node m base l r).0)
unfolding merge_present_node
merge_present_node-HasId m id base (folder i a b c xs) (folder i' a' b' c' xs') h k = ground arith
merge_present_node-HasId m id base (url i a u d) (url i' a' u' d') h k = ground arith
merge_present_node-HasId m id base (folder i a b c xs) (url i' a' u' d') h k = k
merge_present_node-HasId m id base (url i a u d) (folder i' a' b' c' xs') h k = k

pub merge_optional_node-KeepsId : (fuel : ℕ) → KeepsId (merge_optional_node fuel)
unfolding merge_optional_node merge_changed
merge_optional_node-KeepsId zero id b l r hb hl hr = tt
merge_optional_node-KeepsId (suc fuel) id b (some l) (some r) hb hl hr =
    ground (arith, merge_present_node-HasId (merge_optional_node fuel) id b l r)
merge_optional_node-KeepsId (suc fuel) id (some b) none (some r) hb hl hr = ground arith
merge_optional_node-KeepsId (suc fuel) id none none (some r) hb hl hr = ground arith
merge_optional_node-KeepsId (suc fuel) id (some b) (some l) none hb hl hr = ground arith
merge_optional_node-KeepsId (suc fuel) id none (some l) none hb hl hr = ground arith
merge_optional_node-KeepsId (suc fuel) id none none none hb hl hr = ground arith
merge_optional_node-KeepsId (suc fuel) id (some b) none none hb hl hr = ground arith

module _ (merge : MergeOptional) (keeps : KeepsId merge)
    (base local remote : List BookmarkNode) where
  abbrev at : String → Option BookmarkNode
  at id = (merge (find_node id base) (find_node id local) (find_node id remote)).0

  at-HasId : (id : String) → HasId id (at id)
  at-HasId id =
      keeps id (find_node id base) (find_node id local) (find_node id remote)
        (find_node-HasId id base) (find_node-HasId id local) (find_node-HasId id remote)

  find_node-kept :
      (id k : String) (node : Option BookmarkNode) (rest : List BookmarkNode)
      → HasId k node
      → (str_eq k id ≡ true → find_node id rest ≡ none)
      → find_node id (kept node rest) ≡ (if str_eq k id then node else find_node id rest)
  unfolding find_node
  find_node-kept id k none rest own h = ground arith
  find_node-kept id k (some x) rest own h = ground (arith, eq_iff (node_id x) k)

  find_node-merge_ids :
      (id : String) (ids : List String)
      → Distinct ids
      → find_node id
          (merge_ids merge
            (λ i. find_node i base)
            (λ i. find_node i local)
            (λ i. find_node i remote)
            ids).0
        ≡ (if contains id ids then at id else none)
  unfolding merge_ids contains find_node
  find_node-merge_ids id [] d = refl
  find_node-merge_ids id (k ∷ ks) d =
      let rest =
        (merge_ids merge (λ i. find_node i base) (λ i. find_node i local) (λ i. find_node i remote)
          ks).0 in
      let ih : find_node id rest ≡ (if contains id ks then at id else none) =
        find_node-merge_ids id ks d.1 in
      elim (Bool-cases (str_eq k id)) [
        | inl own ↦
            let e : k ≡ id = (eq_iff k id).0 own in
            let absent : contains id ks ≡ false = subst (λ z. contains z ks ≡ false) e d.0 in
            let gone : find_node id rest ≡ none = ih ∙ ap (λ b. if b then at id else none) absent in
            find_node-kept id k (at k) rest (at-HasId k) (λ _. gone) ∙ rw own (ap at e)
        | inr other ↦ find_node-kept id k (at k) rest (at-HasId k) (λ h. cc) ∙ rw other ih
      ]

  abbrev all_ids : List String
  all_ids = unseen [] (map node_id (remote ++ (local ++ base)))

  missing_everywhere :
      (id : String)
      → contains id all_ids ≡ false
      → (find_node id base ≡ none) × (find_node id local ≡ none) × (find_node id remote ≡ none)
  missing_everywhere id h =
      let spread = ap (contains id) (
        map-append node_id remote (local ++ base)
        ∙ ap (◌++◌ (map node_id remote)) (map-append node_id local base)) in
      let all = contains-append id (map node_id remote) (map node_id local ++ map node_id base) in
      let two = contains-append id (map node_id local) (map node_id base) in
      let seen = contains-unseen id [] (map node_id (remote ++ (local ++ base))) in
      (
        find_node_missing id base (unfold contains in ground arith),
        find_node_missing id local (unfold contains in ground arith),
        find_node_missing id remote (unfold contains in ground arith),
      )

nothing-IsThreeWay : IsThreeWay none none none none
nothing-IsThreeWay = record {
  same = λ h. refl;
  theirs = λ h. refl;
  ours = λ h. refl;
  gone = λ h. inl (refl, inl refl);
}

-- Below a folder, too, the children merge three ways at each ID, under any fuel but 0.
pub merge_children-IsThreeWay :
    (fuel : ℕ) (base : Option (List BookmarkNode)) (local remote : List BookmarkNode) (id : String)
    → IsThreeWay
        (find_node id (children_or_none base))
        (find_node id local)
        (find_node id remote)
        (find_node id (merge_children (merge_optional_node (suc fuel)) base local remote).0)
unfolding merge_children
merge_children-IsThreeWay fuel base local remote id =
    let merge = merge_optional_node (suc fuel) in
    let bases = children_or_none base in
    let keeps = merge_optional_node-KeepsId (suc fuel) in
    let three =
      merge_optional_node-IsThreeWay fuel (find_node id bases) (find_node id local)
        (find_node id remote) in
    let found =
      find_node-merge_ids merge keeps bases local remote id (all_ids merge keeps bases local remote)
        (unseen-Distinct [] _) in
    elim (Bool-cases (contains id (all_ids merge keeps bases local remote))) [
      | inl there ↦ rw (found, there) three
      | inr absent ↦
          let (b, l, r) = missing_everywhere merge keeps bases local remote id absent in
          rw (found, absent, b, l, r) nothing-IsThreeWay
    ]
