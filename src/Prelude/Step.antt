-- ===== src/Prelude/Step.antt =====
-- What may fail and changes a state as it goes: a failure keeps what was done before it.
use mathlib.Core.Path.{◌≡◌}
use mathlib.Core.Logic.{inl, inr}
use mathlib.Core.Bool.{Bool, true, false}
use native.Mathlib.Omega.{arith}
use helium_sync.Prelude.Fallible.{Result, ok, err, Result-cases}

abbrev pub Step : Type 0 → Type 0 → Type 0 → Type 0
Step E S A = S → Result E A × S

abbrev continue : {E S A B : Type 0} → (A → Step E S B) → Result E A × S → Result E B × S
continue f (ok a, s) = f a s
continue f (err e, s) = (err e, s)

infixl 5 ◌>>=◌ ◌>>◌
abbrev pub ◌>>=◌ : {E S A B : Type 0} → Step E S A → (A → Step E S B) → Step E S B
◌>>=◌ m f s = continue f (m s)

abbrev pub ◌>>◌ : {E S A B : Type 0} → Step E S A → Step E S B → Step E S B
m >> n = m >>= λ _. n

abbrev pub give : {E S A : Type 0} → Result E A → Step E S A
give r s = (r, s)

-- What has succeeded has succeeded at each step.
pub >>=-eq-ok :
    {E S A B : Type 0} (m : Step E S A) (f : A → Step E S B) (s s' : S) (b : B)
    → (m >>= f) s ≡ (ok b, s')
    → (a : A) × (t : S) × (m s ≡ (ok a, t)) × (f a t ≡ (ok b, s'))
>>=-eq-ok m f s s' b h = elim (Result-cases (m s).0) [
  | inl (e, p) ↦ absurd (ground arith)
  | inr (a, p) ↦ (a, (m s).1, ground arith, ground arith)
]

abbrev relabel : {E E' S A : Type 0} → (E → E') → Result E A × S → Result E' A × S
relabel name (ok a, s) = (ok a, s)
relabel name (err e, s) = (err (name e), s)

-- `result.map_err(name)`
abbrev pub map_err : {E E' S A : Type 0} → (E → E') → Step E S A → Step E' S A
map_err name m s = relabel name (m s)

abbrev handle : {E E' S A : Type 0} → (E → Step E' S A) → Result E A × S → Result E' A × S
handle handler (ok a, s) = (ok a, s)
handle handler (err e, s) = handler e s

-- what is done about a failure
abbrev pub on_error : {E E' S A : Type 0} → (E → Step E' S A) → Step E S A → Step E' S A
on_error handler m s = handle handler (m s)

-- `let _ = result`
abbrev pub ignore : {E E' S A : Type 0} → Step E S A → Step E' S (Unit {0})
ignore m s = (ok tt, (m s).1)

-- `if test(state) { m } else { n }`
abbrev pub branch : {E S A : Type 0} → Bool → Step E S A → Step E S A → Step E S A
branch true m n = m
branch false m n = n

-- What holds after a step: one property of its success and one of its failure.
abbrev pub Ends : {E S A : Type 0} → (A → S → Type 0) → (E → S → Type 0) → Result E A × S → Type 0
Ends good bad (ok a, s) = good a s
Ends good bad (err e, s) = bad e s

module _ {E S : Type 0} where
  pub Ends->>= :
      {A B : Type 0} (good : A → S → Type 0) (good' : B → S → Type 0) (bad : E → S → Type 0)
      (r : Result E A × S) (f : A → Step E S B)
      → Ends good bad r
      → ((a : A) (s : S) → good a s → Ends good' bad (f a s))
      → Ends good' bad (continue f r)
  Ends->>= good good' bad (ok a, s) f first next = next a s first
  Ends->>= good good' bad (err e, s) f first next = first

  pub Ends-on_error :
      {E' A : Type 0} (good : A → S → Type 0) (bad : E → S → Type 0) (bad' : E' → S → Type 0)
      (r : Result E A × S) (handler : E → Step E' S A)
      → Ends good bad r
      → ((e : E) (s : S) → bad e s → Ends good bad' (handler e s))
      → Ends good bad' (handle handler r)
  Ends-on_error good bad bad' (ok a, s) handler first next = first
  Ends-on_error good bad bad' (err e, s) handler first next = next e s first

  pub Ends-map_err :
      {E' A : Type 0} (good : A → S → Type 0) (bad : S → Type 0) (name : E → E')
      (r : Result E A × S)
      → Ends good (λ e s. bad s) r
      → Ends good (λ e s. bad s) (relabel name r)
  Ends-map_err good bad name (ok a, s) first = first
  Ends-map_err good bad name (err e, s) first = first

  -- A property of both outcomes holds after a step whose result is dropped.
  pub Ends-always :
      {A : Type 0} (P : S → Type 0) (r : Result E A × S) → Ends (λ a s. P s) (λ e s. P s) r → P r.1
  Ends-always P (ok a, s) first = first
  Ends-always P (err e, s) first = first

  pub Ends-weaken :
      {A : Type 0} (good good' : A → S → Type 0) (bad bad' : E → S → Type 0) (r : Result E A × S)
      → Ends good bad r
      → ((a : A) (s : S) → good a s → good' a s)
      → ((e : E) (s : S) → bad e s → bad' e s)
      → Ends good' bad' r
  Ends-weaken good good' bad bad' (ok a, s) first better worse = better a s first
  Ends-weaken good good' bad bad' (err e, s) first better worse = worse e s first
