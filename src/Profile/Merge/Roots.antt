-- ===== src/Profile/Merge/Roots.antt =====
-- The roots of a snapshot under the merge, key by key (`merge_bookmarks`).
use helium_sync.Prelude.{
  ◌≤◌, ◌<◌, ℕ, suc, ◌+◌, ◌≡◌, refl, ap, sym, ◌∙◌, subst, true, false, Option, none, some, String,
  List, [], ◌∷◌, ◌++◌, arith, str_eq, eq_iff, if◌then◌else◌, Bool-cases, inl, inr, ok, ◌⊎◌,
}
use native.Mathlib.Numerals.{add-one}
use helium_sync.Profile.Node.{BookmarkNode, BookmarkRoot, BookmarkSnapshotV1}
use helium_sync.Profile.Merge.{
  MergeOptional, contains, unseen, find_root, keys, kept_root, merge_keys, merge_roots,
  merge_optional_node, merge_bookmarks, BookmarkMergeResult, roots_or_none, roots_height,
}
use helium_sync.Profile.Merge.Fuel.{height_of, merge_optional_node-fuel}
use helium_sync.Profile.Merge.Keys.{Distinct, contains-append, contains-unseen, unseen-Distinct}
use helium_sync.Profile.Merge.ThreeWay.{
  IsThreeWay, merge_optional_node-IsThreeWay, merge_optional_node-conflicts,
}

keys-append : (xs ys : List BookmarkRoot) → keys (xs ++ ys) ≡ keys xs ++ keys ys
keys-append [] ys = refl
keys-append (x ∷ xs) ys = ap (◌∷◌ x.key) (keys-append xs ys)

find_root_missing :
    (key : String) (xs : List BookmarkRoot)
    → contains key (keys xs) ≡ false
    → find_root key xs ≡ none
unfolding contains find_root
find_root_missing key [] h = refl
find_root_missing key (x ∷ xs) h = ground (arith, find_root_missing key xs)

module _ (merge : MergeOptional) (base local remote : List BookmarkRoot) where
  abbrev at : String → Option BookmarkNode
  at key = (merge (find_root key base) (find_root key local) (find_root key remote)).0

  find_root-kept :
      (key k : String) (node : Option BookmarkNode) (rest : List BookmarkRoot)
      → (str_eq k key ≡ true → find_root key rest ≡ none)
      → find_root key (kept_root k node rest) ≡ (if str_eq k key then node else find_root key rest)
  unfolding find_root
  find_root-kept key k none rest h = ground arith
  find_root-kept key k (some x) rest h = ground arith

  find_root-merge_keys :
      (key : String) (ks : List String)
      → Distinct ks
      → find_root key (merge_keys merge base local remote ks).0
        ≡ (if contains key ks then at key else none)
  unfolding merge_keys contains find_root
  find_root-merge_keys key [] d = refl
  find_root-merge_keys key (k ∷ ks) d =
      let rest = (merge_keys merge base local remote ks).0 in
      let ih : find_root key rest ≡ (if contains key ks then at key else none) =
        find_root-merge_keys key ks d.1 in
      elim (Bool-cases (str_eq k key)) [
        | inl own ↦
            let e : k ≡ key = (eq_iff k key).0 own in
            let absent : contains key ks ≡ false = subst (λ z. contains z ks ≡ false) e d.0 in
            let gone : find_root key rest ≡ none =
              ih ∙ ap (λ b. if b then at key else none) absent in
            find_root-kept key k (at k) rest (λ _. gone) ∙ rw own (ap at e)
        | inr other ↦ find_root-kept key k (at k) rest (λ h. cc) ∙ rw other ih
      ]

  merge_keys-conflicts :
      ((key : String)
        → (merge (find_root key base) (find_root key local) (find_root key remote)).1 ≡ 0)
      → (ks : List String) → (merge_keys merge base local remote ks).1 ≡ 0
  unfolding merge_keys
  merge_keys-conflicts none_here [] = refl
  merge_keys-conflicts none_here (k ∷ ks) =
      omega (arith, none_here k, merge_keys-conflicts none_here ks)

module _ (base local remote : List BookmarkRoot) where
  abbrev all_keys : List String
  all_keys = unseen [] (keys (remote ++ (local ++ base)))

  -- no root anywhere, no root in the result
  missing_everywhere :
      (key : String)
      → contains key all_keys ≡ false
      → (find_root key base ≡ none) × (find_root key local ≡ none) × (find_root key remote ≡ none)
  missing_everywhere key h =
      let spread =
        ap (contains key)
          (keys-append remote (local ++ base) ∙ ap (◌++◌ (keys remote)) (keys-append local base)) in
      let all = contains-append key (keys remote) (keys local ++ keys base) in
      let two = contains-append key (keys local) (keys base) in
      let seen = contains-unseen key [] (keys (remote ++ (local ++ base))) in
      (
        find_root_missing key base (unfold contains in ground arith),
        find_root_missing key local (unfold contains in ground arith),
        find_root_missing key remote (unfold contains in ground arith),
      )

  -- At each key the merged roots hold the merge of what the three inputs hold there.
  pub find_root-merge_roots :
      (key : String)
      → find_root key (merge_roots base local remote).0
        ≡ (merge_optional_node
            (suc (roots_height local))
            (find_root key base)
            (find_root key local)
            (find_root key remote)).0
  unfolding merge_roots
  find_root-merge_roots key =
      let merge = merge_optional_node (suc (roots_height local)) in
      rw add-one (
        find_root-merge_keys merge base local remote key all_keys (unseen-Distinct [] _)
        ∙ elim (Bool-cases (contains key all_keys)) [
          | inl there ↦ rw there
          | inr absent ↦
              let (b, l, r) = missing_everywhere key absent in
              rw (absent, b, l, r)
                (sym
                  ((merge_optional_node-IsThreeWay (roots_height local) none none none).same refl))
        ])

find_root-height :
    (key : String) (xs : List BookmarkRoot) → height_of (find_root key xs) ≤ roots_height xs
unfolding find_root
find_root-height key [] = omega arith
find_root-height key (x ∷ xs) = ground (arith, find_root-height key xs)

-- Merged roots are, at each key, the merge of what the three inputs hold there, under any fuel
-- above the height of the local trees: the fuel that the model picks never runs out.
pub find_root-merge_roots_fuel :
    (base local remote : List BookmarkRoot) (fuel : ℕ) (key : String)
    → roots_height local < fuel
    → find_root key (merge_roots base local remote).0
      ≡ (merge_optional_node fuel
          (find_root key base)
          (find_root key local)
          (find_root key remote)).0
find_root-merge_roots_fuel base local remote fuel key enough =
    find_root-merge_roots base local remote key
    ∙ ap (λ (m : Option BookmarkNode × ℕ). m.0)
        (merge_optional_node-fuel (suc (roots_height local)) fuel (find_root key base)
          (find_root key local) (find_root key remote) (omega (arith, find_root-height key local))
          (omega (arith, find_root-height key local)))

module _ (base : Option BookmarkSnapshotV1) (local remote : BookmarkSnapshotV1)
    (r : BookmarkMergeResult) (merged : merge_bookmarks base local remote ≡ ok r) where
  roots_of_merged : r.snapshot.roots ≡ (merge_roots (roots_or_none base) local.roots remote.roots).0
  unfolding merge_bookmarks
  roots_of_merged = ground arith

  conflicts_of_merged : r.conflicts ≡ (merge_roots (roots_or_none base) local.roots remote.roots).1
  unfolding merge_bookmarks
  conflicts_of_merged = ground arith

  -- Whenever bookmarks are merged, the result at each root key is a three-way merge of what the
  -- base, the local and the remote snapshot hold there: what both sides have stays, a change on
  -- one side is taken over, and a root is dropped only if one side deleted it and the other did
  -- not change it.
  pub merge_bookmarks-IsThreeWay :
      (key : String)
      → IsThreeWay
          (find_root key (roots_or_none base))
          (find_root key local.roots)
          (find_root key remote.roots)
          (find_root key r.snapshot.roots)
  merge_bookmarks-IsThreeWay key =
      rw (roots_of_merged, find_root-merge_roots (roots_or_none base) local.roots remote.roots key)
        (merge_optional_node-IsThreeWay (roots_height local.roots)
          (find_root key (roots_or_none base)) (find_root key local.roots)
          (find_root key remote.roots))

  -- A merge reports no conflict where, at every root key, at most one side has changed or both
  -- agree.
  pub merge_bookmarks-conflicts :
      ((key : String)
        → (find_root key local.roots ≡ find_root key remote.roots)
          ⊎ (find_root key local.roots ≡ find_root key (roots_or_none base))
          ⊎ (find_root key remote.roots ≡ find_root key (roots_or_none base)))
      → r.conflicts ≡ 0
  unfolding merge_roots
  merge_bookmarks-conflicts one_side =
      let merge = merge_optional_node (roots_height local.roots + 1) in
      conflicts_of_merged
      ∙ merge_keys-conflicts merge (roots_or_none base) local.roots remote.roots
          (λ key. rw add-one (
            merge_optional_node-conflicts (roots_height local.roots)
              (find_root key (roots_or_none base)) (find_root key local.roots)
              (find_root key remote.roots) (one_side key)))
          (unseen [] (keys (remote.roots ++ (local.roots ++ roots_or_none base))))
