-- ===== src/Prelude/Rows.antt =====
-- Rows that a condition selects, and their order: what the statements of SQLite do with a table.
use Prim.Native.Char.{code}
use Prim.Native.String.{String}
use Prim.Native.Nat.{ℕ, ◌+◌}
use mathlib.Core.Path.{◌≡◌, refl}
use mathlib.Core.Bool.{Bool, true, false, ◌&&◌}
use mathlib.Core.Option.{Option, none, some}
use mathlib.Core.List.{List, [], ◌∷◌, ◌++◌}
use native.Mathlib.Omega.{arith}
use helium_sync.Prelude.Tests.{ltb, leb, ◌==◌, if◌then◌else◌, Bool-cases}
use mathlib.Core.Logic.{inl, inr}

module _ {ℓ} {A : Type ℓ} where
  -- `SELECT … WHERE`, at most one row; and `Iterator::find`
  unfoldable pub first : (A → Bool) → List A → Option A
  first p [] = none
  first p (a ∷ rest) = let later = first p rest in if p a then some a else later

  -- `INSERT … ON CONFLICT DO UPDATE`: the row that conflicts is replaced
  unfoldable pub upsert : (A → Bool) → A → List A → List A
  upsert p new [] = new ∷ []
  upsert p new (a ∷ rest) = let later = upsert p new rest in if p a then new ∷ rest else a ∷ later

  -- `SELECT COUNT(*) … WHERE`
  unfoldable pub count : (A → Bool) → List A → ℕ
  count p [] = 0
  count p (a ∷ rest) = let later = count p rest in if p a then later + 1 else later

  -- the order that a test gives; rows that compare equal keep their places
  unfoldable pub place : (A → A → Bool) → A → List A → List A
  place le a [] = a ∷ []
  place le a (b ∷ bs) = let later = place le a bs in if le a b then a ∷ b ∷ bs else b ∷ later

  unfoldable pub order_by : (A → A → Bool) → List A → List A
  order_by le [] = []
  order_by le (a ∷ rest) = place le a (order_by le rest)

  pub first-upsert :
      (p : A → Bool) (new : A) (rows : List A)
      → p new ≡ true
      → first p (upsert p new rows) ≡ some new
  unfolding first upsert
  first-upsert p new [] h = ground arith
  first-upsert p new (a ∷ rest) h = let ih = first-upsert p new rest h in ground arith

  pub first-upsert_other :
      (p q : A → Bool) (new : A) (rows : List A)
      → q new ≡ false
      → ((a : A) → p a ≡ true → q a ≡ false)
      → first q (upsert p new rows) ≡ first q rows
  unfolding first upsert
  first-upsert_other p q new [] h apart = ground arith
  first-upsert_other p q new (a ∷ rest) h apart =
      let ih = first-upsert_other p q new rest h apart in
      elim (Bool-cases (p a)) [
        | inl own ↦ let other = apart a own in ground arith
        | inr other_row ↦ ground arith
      ]

  pub count-append : (p : A → Bool) (xs ys : List A) → count p (xs ++ ys) ≡ count p xs + count p ys
  unfolding count
  count-append p [] ys = omega arith
  count-append p (x ∷ xs) ys = let ih = count-append p xs ys in ground arith

  count-place :
      (p : A → Bool) (le : A → A → Bool) (a : A) (rest : List A)
      → count p (place le a rest) ≡ count p (a ∷ rest)
  unfolding count place
  count-place p le a [] = refl
  count-place p le a (b ∷ bs) = let ih = count-place p le a bs in ground arith

  -- An order keeps the rows: rest many rest before meet any condition.
  pub count-order_by :
      (p : A → Bool) (le : A → A → Bool) (rest : List A) → count p (order_by le rest) ≡ count p rest
  unfolding order_by count
  count-order_by p le [] = refl
  count-order_by p le (a ∷ rest) =
      let ih = count-order_by p le rest in
      let here = count-place p le a (order_by le rest) in ground arith

  first-place :
      (p : A → Bool) (le : A → A → Bool) (a : A) (rest : List A)
      → p a ≡ false
      → first p (place le a rest) ≡ first p rest
  unfolding first place
  first-place p le a [] h = ground arith
  first-place p le a (b ∷ bs) h = let ih = first-place p le a bs h in ground arith

  first-place_only :
      (p : A → Bool) (le : A → A → Bool) (a : A) (rest : List A)
      → p a ≡ true
      → count p rest ≡ 0
      → first p (place le a rest) ≡ some a
  unfolding first place count
  first-place_only p le a [] h none_yet = ground arith
  first-place_only p le a (b ∷ bs) h none_yet = ground (arith, first-place_only p le a bs h)

  -- The only row that meets a condition is found in any order.
  pub first-order_by :
      (p : A → Bool) (le : A → A → Bool) (rest : List A)
      → leb (count p rest) 1 ≡ true
      → first p (order_by le rest) ≡ first p rest
  unfolding order_by first count
  first-order_by p le [] h = refl
  first-order_by p le (a ∷ rest) h =
      let kept = count-order_by p le rest in
      elim (Bool-cases (p a)) [
        | inl own ↦
            let found = first-place_only p le a (order_by le rest) own (ground arith) in
            ground arith
        | inr passed ↦
            let ih = first-order_by p le rest (ground arith) in
            let same = first-place p le a (order_by le rest) passed in ground arith
      ]

-- `COLLATE NOCASE`: the letters A to Z count rest a to z, and no other
abbrev lower : ℕ → ℕ
lower c = if leb 65 c && leb c 90 then c + 32 else c

-- -1, 0 and 1 of a collation are less, equal and greater
pub data Order : Type 0 where
  less equal greater : Order

unfoldable pub compare_by : (ℕ → ℕ) → String → String → Order
compare_by fold String.[] String.[] = Order.equal
compare_by fold String.[] (String.◌∷◌ d t) = Order.less
compare_by fold (String.◌∷◌ c s) String.[] = Order.greater
compare_by fold (String.◌∷◌ c s) (String.◌∷◌ d t) =
    let rest = compare_by fold s t in
    if ltb (fold (code c)) (fold (code d))
    then Order.less
    else (if fold (code c) == fold (code d) then rest else Order.greater)

abbrev pub nocase : String → String → Order
nocase = compare_by lower

abbrev pub binary : String → String → Order
binary = compare_by (λ c. c)

-- ORDER BY first, second
abbrev pub then_by : Order → Order → Order
then_by Order.equal next = next
then_by Order.less next = Order.less
then_by Order.greater next = Order.greater

abbrev pub not_after : Order → Bool
not_after Order.greater = false
not_after Order.less = true
not_after Order.equal = true
