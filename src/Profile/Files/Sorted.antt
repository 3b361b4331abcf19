-- ===== src/Profile/Files/Sorted.antt =====
-- crates/helium-sync-profile/src/lib.rs: the entries of a map, in the order of their keys.
use mathlib.Core.List.{append-nil, append_assoc}
use helium_sync.Prelude.{
  ◌≡◌, refl, ap, ◌∙◌, sym, ◌⊎◌, inl, inr, map, String, List, [], ◌∷◌, ◌++◌, All,
}
use helium_sync.Prelude.Rows.{Order, binary}
use helium_sync.Profile.Files.{insert_key, collect_map}

Order-cases : (o : Order) → (o ≡ Order.less) ⊎ ((o ≡ Order.equal) ⊎ (o ≡ Order.greater))
Order-cases Order.less = inl refl
Order-cases Order.equal = inr (inl refl)
Order-cases Order.greater = inr (inr refl)

module _ {ℓ} {A : Type ℓ} where
  -- every entry has a key before the given one
  abbrev pub AreBefore : String → List (String × A) → Type 0
  AreBefore key = All (λ entry. binary entry.0 key ≡ Order.less)

  -- The entries after `before` come in the order of their keys, each with a key of its own.
  abbrev pub Ascends : List (String × A) → List (String × A) → Type ℓ
  Ascends before [] = Unit
  Ascends before ((key, a) ∷ rest) = AreBefore key before × Ascends (before ++ (key, a) ∷ []) rest

  insert_key-last :
      (key : String) (a : A) (entries : List (String × A))
      → AreBefore key entries
      → insert_key key a entries ≡ entries ++ (key, a) ∷ []
  unfolding insert_key
  insert_key-last key a [] h = refl
  insert_key-last key a ((k, old) ∷ rest) (first, later) =
      rw (first, insert_key)
        (ap (λ (xs : List (String × A)). (k, old) ∷ xs) (insert_key-last key a rest later))

  -- A map that is made of entries in order has just these entries.
  pub collect_map-Ascends :
      (before rest : List (String × A))
      → Ascends before rest
      → collect_map before rest ≡ before ++ rest
  unfolding collect_map
  collect_map-Ascends before [] h = sym (append-nil before)
  collect_map-Ascends before ((key, a) ∷ rest) (first, later) =
      ap (λ (xs : List (String × A)). collect_map xs rest) (insert_key-last key a before first)
      ∙ collect_map-Ascends (before ++ (key, a) ∷ []) rest later
      ∙ append_assoc before ((key, a) ∷ []) rest

-- A map of other values under the same keys is made in the same way.
module _ {ℓ κ} {A : Type ℓ} {B : Type κ} (f : A → B) where
  abbrev pub under_key : String × A → String × B
  under_key (key, a) = (key, f a)

  insert_key-map :
      (key : String) (a : A) (entries : List (String × A))
      → insert_key key (f a) (map under_key entries) ≡ map under_key (insert_key key a entries)
  unfolding insert_key
  insert_key-map key a [] = refl
  insert_key-map key a ((k, old) ∷ rest) = elim (Order-cases (binary k key)) [
    | inl before ↦
        rw (before, insert_key)
          (ap (λ (xs : List (String × B)). (k, f old) ∷ xs) (insert_key-map key a rest))
    | inr (inl same) ↦ rw (same, insert_key) refl
    | inr (inr after) ↦ rw (after, insert_key) refl
  ]

  pub collect_map-map :
      (before rest : List (String × A))
      → collect_map (map under_key before) (map under_key rest)
        ≡ map under_key (collect_map before rest)
  unfolding collect_map
  collect_map-map before [] = refl
  collect_map-map before ((key, a) ∷ rest) =
      ap (λ (xs : List (String × B)). collect_map xs (map under_key rest))
        (insert_key-map key a before)
      ∙ collect_map-map (insert_key key a before) rest
