-- ===== src/Prelude/Fallible.antt =====
-- Rust's `Result`, and its `?` as a bind.
use mathlib.Core.Path.{◌≡◌, refl}
use mathlib.Core.Logic.{◌⊎◌, inl, inr}
use mathlib.Core.Bool.{Bool, true, false}
use mathlib.Core.Option.{Option, none, some}

pub data Result {ℓ κ} (E : Type ℓ) (A : Type κ) : Type (ℓ ⊔ κ) where
  ok : A → Result E A
  err : E → Result E A

-- `if !test { return Err(e) }`
abbrev pub guard {ε} : {E : Type ε} → Bool → E → Result E (Unit {0})
guard true e = ok tt
guard false e = err e

-- `option.ok_or(e)`
abbrev pub ok_or {ε ℓ} : {E : Type ε} {A : Type ℓ} → Option A → E → Result E A
ok_or none e = err e
ok_or (some a) e = ok a

-- `first?`, and what follows it
infixl 5 ◌>>=◌ ◌>>◌
abbrev pub ◌>>=◌ {ε ℓ κ} :
    {E : Type ε} {A : Type ℓ} {B : Type κ} → Result E A → (A → Result E B) → Result E B
◌>>=◌ first next = elim first [ err e ↦ err e | ok value ↦ next value ]

abbrev pub ◌>>◌ {ε κ} : {E : Type ε} {B : Type κ} → Result E (Unit {0}) → Result E B → Result E B
◌>>◌ first second = first >>= λ _. second

-- `option.map(f).transpose()` where `f` is fallible
abbrev pub transpose {ε ℓ κ} :
    {E : Type ε} {A : Type ℓ} {B : Type κ} → (A → Result E B) → Option A → Result E (Option B)
transpose f none = ok none
transpose f (some a) = f a >>= λ b. ok (some b)

-- To split on a computed result and keep the equation.
pub Result-cases {ε ℓ} :
    {E : Type ε} {A : Type ℓ} (m : Result E A) → ((e : E) × (m ≡ err e)) ⊎ ((a : A) × (m ≡ ok a))
Result-cases (ok a) = inr (a, refl)
Result-cases (err e) = inl (e, refl)

-- What has succeeded has succeeded at each `?`.
pub >>=-eq-ok {ε ℓ κ} :
    {E : Type ε} {A : Type ℓ} {B : Type κ} (first : Result E A) (next : A → Result E B) {result : B}
    → first >>= next ≡ ok result
    → (value : A) × (first ≡ ok value) × (next value ≡ ok result)
>>=-eq-ok (err e) next h = cc
>>=-eq-ok (ok value) next h = (value, refl, h)

pub ok-injective {ε ℓ} :
    {E : Type ε} {A : Type ℓ} {a b : A} → ◌≡◌ {A = Result E A} (ok a) (ok b) → a ≡ b
ok-injective h = cc
