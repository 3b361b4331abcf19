-- ===== src/Client/Crypto/Recovery.antt =====
-- Recovery codes (crypto.rs: `MasterKey::recovery_code`, `MasterKey::from_recovery_code`).
use helium_sync.Prelude.{
  ℕ, zero, suc, ◌+◌, ◌≡◌, refl, ap, String, some, List, [], ◌∷◌, ◌++◌, length, take, drop, arith,
  ok, true, take-append-drop, length-take,
}
use helium_sync.Server.Auth.Prefix.{strip_prefix-append, strip_prefix-some}
use helium_sync.Server.Auth.{ct_eq, strip_prefix}
use helium_sync.Server.Auth.Digest.{ct_eq-eq, ct_eq_refl}
use helium_sync.Client.Crypto.{Primitives, recovery_code, from_recovery_code}

-- Documented behaviour of the crates: a digest has 32 bytes, base64url is read back, and a text that
-- is read is the one that is written for its bytes.
pub record Digests (p : Primitives) : Type 0 where
  pub size : (bytes : List ℕ) → length (p.sha256 bytes) ≡ 32
  pub read_back : (bytes : List ℕ) → p.parse_base64 (p.base64 bytes) ≡ some bytes
  pub canonical :
      (text : String) (bytes : List ℕ) → p.parse_base64 text ≡ some bytes → p.base64 bytes ≡ text

take-append : (n : ℕ) (xs ys : List ℕ) → length xs ≡ n → take n (xs ++ ys) ≡ xs
take-append zero [] ys h = refl
take-append zero (x ∷ xs) ys h = absurd (omega arith)
take-append (suc n) [] ys h = absurd (omega arith)
take-append (suc n) (x ∷ xs) ys h = ap (◌∷◌ x) (take-append n xs ys (omega arith))

drop-append : (n : ℕ) (xs ys : List ℕ) → length xs ≡ n → drop n (xs ++ ys) ≡ ys
drop-append zero [] ys h = refl
drop-append zero (x ∷ xs) ys h = absurd (omega arith)
drop-append (suc n) [] ys h = absurd (omega arith)
drop-append (suc n) (x ∷ xs) ys h = drop-append n xs ys (omega arith)

length-append : (xs ys : List ℕ) → length (xs ++ ys) ≡ length xs + length ys
length-append [] ys = omega arith
length-append (x ∷ xs) ys = omega (arith, length-append xs ys)

module _ (p : Primitives) (laws : Digests p) where
  -- A recovery code gives back the 32-byte master key that it was made from, under the laws of the
  -- digest and of base64url.
  pub from_recovery_code-recovery_code :
      (key : List ℕ) → length key ≡ 32 → from_recovery_code p (recovery_code p key) ≡ ok key
  unfolding from_recovery_code recovery_code
  from_recovery_code-recovery_code key size =
      let check = take 4 (p.sha256 key) in
      let n : length check ≡ 4 = omega (arith, length-take 4 (p.sha256 key), laws.size key) in
      rw (
        strip_prefix-append,
        laws.read_back,
        length-append,
        size,
        n,
        drop-append 32 key check size,
        take-append 32 key check size,
        ct_eq_refl,
      )

  -- what an accepted code contains
  record Accepted (code : String) (key : List ℕ) : Type 0 where
    encoded : String
    prefixed : strip_prefix "hsync1:" code ≡ some encoded
    decoded : List ℕ
    read : p.parse_base64 encoded ≡ some decoded
    checked : ct_eq (drop 32 decoded) (take 4 (p.sha256 (take 32 decoded))) ≡ true
    first : key ≡ take 32 decoded

  from_recovery_code-Accepted :
      (code : String) (key : List ℕ) → from_recovery_code p code ≡ ok key → Accepted code key
  unfolding from_recovery_code
  from_recovery_code-Accepted code key h = ground arith

  -- A code is accepted only if it is the recovery code of the key that it gives, under the laws of
  -- the digest and of base64url: each key has one code.
  pub recovery_code-from_recovery_code :
      (code : String) (key : List ℕ)
      → from_recovery_code p code ≡ ok key
      → recovery_code p key ≡ code
  unfolding recovery_code
  recovery_code-from_recovery_code code key h =
      let f = from_recovery_code-Accepted code key h in
      let check = ct_eq-eq (drop 32 f.decoded) (take 4 (p.sha256 (take 32 f.decoded))) f.checked in
      rw
        (f.first, ← check, take-append-drop 32 f.decoded, laws.canonical f.encoded f.decoded f.read)
        (strip_prefix-some "hsync1:" code f.encoded f.prefixed)
