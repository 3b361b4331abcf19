-- ===== src/Server/Auth/Digest.antt =====
-- What the token check and the protocol check of auth.rs and api.rs let through.
use helium_sync.Prelude.{
  ℕ, ◌≡◌, refl, true, String, Option, some, List, [], ◌∷◌, ok, arith, Option-cases, inl, inr,
}
use helium_sync.Server.Auth.{
  ct_eq, presented_token, require_auth, requested_version, require_protocol,
}

pub ct_eq-eq : (xs ys : List ℕ) → ct_eq xs ys ≡ true → xs ≡ ys
unfolding ct_eq
ct_eq-eq [] [] h = refl
ct_eq-eq [] (y ∷ ys) h = ground arith
ct_eq-eq (x ∷ xs) [] h = ground arith
ct_eq-eq (x ∷ xs) (y ∷ ys) h = ground (arith, ct_eq-eq xs ys)

pub ct_eq_refl : (xs : List ℕ) → ct_eq xs xs ≡ true
unfolding ct_eq
ct_eq_refl [] = refl
ct_eq_refl (x ∷ xs) = ground (arith, ct_eq_refl xs)

module _ (sha256 : String → List ℕ) (expected : List ℕ) (authorization : Option String) where
  pub require_auth-token :
      require_auth sha256 expected authorization ≡ ok tt
      → (token : String) × (presented_token authorization ≡ some token) × (sha256 token ≡ expected)
  unfolding require_auth
  require_auth-token h = elim (Option-cases (presented_token authorization)) [
    | inl missing ↦ absurd (ground arith)
    | inr (token, e) ↦ (token, e, ground (arith, ct_eq-eq (sha256 token) expected))
  ]

pub require_protocol-version :
    (header : Option String) → require_protocol header ≡ ok tt → requested_version header ≡ some 1
unfolding require_protocol
require_protocol-version header h = ground arith
