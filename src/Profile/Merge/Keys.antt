-- ===== src/Profile/Merge/Keys.antt =====
-- The list of keys over which the merge runs: each key of an input once.
use helium_sync.Prelude.{
  ◌≡◌, refl, false, not, ◌&&◌, ◌||◌, String, List, [], ◌∷◌, ◌++◌, arith, eq_iff, Bool-cases, inl,
  inr,
}
use helium_sync.Profile.Merge.{contains, unseen}

abbrev pub Distinct : List String → Type 0
Distinct [] = Unit {0}
Distinct (x ∷ xs) = (contains x xs ≡ false) × Distinct xs

pub contains-append :
    (y : String) (xs ys : List String) → contains y (xs ++ ys) ≡ (contains y xs || contains y ys)
unfolding contains
contains-append y [] ys = refl
contains-append y (x ∷ xs) ys = ground (arith, contains-append y xs ys)

-- A key is collected if it was not seen before and is in the list.
pub contains-unseen :
    (y : String) (seen xs : List String)
    → contains y (unseen seen xs) ≡ (not (contains y seen) && contains y xs)
unfolding contains unseen
contains-unseen y seen [] = ground arith
contains-unseen y seen (x ∷ xs) =
    ground (arith, eq_iff x y, contains-unseen y seen xs, contains-unseen y (x ∷ seen) xs)

pub unseen-Distinct : (seen xs : List String) → Distinct (unseen seen xs)
unfolding unseen contains
unseen-Distinct seen [] = tt
unseen-Distinct seen (x ∷ xs) = elim (Bool-cases (contains x seen)) [
  | inl old ↦ rw (old, unseen) (unseen-Distinct seen xs)
  | inr new ↦
      rw (new, unseen)
        (ground (arith, contains-unseen x (x ∷ seen) xs, eq_iff x x), unseen-Distinct (x ∷ seen) xs)
]
