-- ===== src/Client/Crypto/Bytes.antt =====
-- Byte strings: the big-endian bytes of a number, and the framing of `append_field` (crypto.rs).
use helium_sync.Prelude.{
  ℕ, zero, suc, ◌*◌, ◌/◌, ◌%◌, ◌^◌, ◌<◌, ◌≡◌, refl, sym, ap, ◌∙◌, List, [], ◌∷◌, ◌++◌, arith,
  length, ltb, if◌then◌else◌, Result, ok, err,
}
use helium_sync.Client.Errors.{ClientError, crypto}

-- `to_be_bytes` of a number of k bytes
unfoldable pub be_bytes : ℕ → ℕ → List ℕ
be_bytes zero n = []
be_bytes (suc k) n = be_bytes k (n / 256) ++ (n % 256) ∷ []

abbrev pub framed : List ℕ → List ℕ
framed field = be_bytes 4 (length field) ++ field

unfoldable pub append_field : List ℕ → List ℕ → Result ClientError (List ℕ)
append_field output field =
    if ltb (length field) (2 ^ 32)
    then ok (output ++ framed field)
    else err (crypto "authenticated metadata is too large")

-- Two byte strings with heads of one length are equal only part by part.
pub append-cancel :
    (xs xs' ys ys' : List ℕ)
    → length xs ≡ length xs'
    → xs ++ ys ≡ xs' ++ ys'
    → (xs ≡ xs') × (ys ≡ ys')
append-cancel [] [] ys ys' e h = (refl, h)
append-cancel [] (y ∷ xs') ys ys' e h = absurd (omega arith)
append-cancel (x ∷ xs) [] ys ys' e h = absurd (omega arith)
append-cancel (x ∷ xs) (x' ∷ xs') ys ys' e h =
    let heads : x ≡ x' = ground arith in
    let tails : xs ++ ys ≡ xs' ++ ys' = ground arith in
    let (p, q) = append-cancel xs xs' ys ys' (omega arith) tails in (cc, q)

length-append_one : (xs : List ℕ) (x : ℕ) → length (xs ++ x ∷ []) ≡ suc (length xs)
length-append_one [] x = refl
length-append_one (y ∷ xs) x = omega (arith, length-append_one xs x)

pub length-be_bytes : (k n : ℕ) → length (be_bytes k n) ≡ k
unfolding be_bytes
length-be_bytes zero n = refl
length-be_bytes (suc k) n =
    length-append_one (be_bytes k (n / 256)) (n % 256) ∙ ap suc (length-be_bytes k (n / 256))

quotient_below : (p m : ℕ) → m < 256 * p → m / 256 < p
quotient_below p m h = omega arith

pow_suc : (k : ℕ) → 256 ^ suc k ≡ 256 * 256 ^ k
pow_suc k = omega arith

pub append_assoc : (xs ys zs : List ℕ) → (xs ++ ys) ++ zs ≡ xs ++ (ys ++ zs)
append_assoc [] ys zs = refl
append_assoc (x ∷ xs) ys zs = ap (◌∷◌ x) (append_assoc xs ys zs)

-- A number below 256 ^ k is known by its k bytes.
pub be_bytes-injective :
    (k m n : ℕ) → m < 256 ^ k → n < 256 ^ k → be_bytes k m ≡ be_bytes k n → m ≡ n
unfolding be_bytes
be_bytes-injective zero m n small small' h = omega arith
be_bytes-injective (suc k) m n small small' h =
    let (high, low) =
      append-cancel (be_bytes k (m / 256)) (be_bytes k (n / 256)) ((m % 256) ∷ []) ((n % 256) ∷ [])
        (length-be_bytes k (m / 256) ∙ sym (length-be_bytes k (n / 256))) h in
    let e : m / 256 ≡ n / 256 =
      be_bytes-injective k (m / 256) (n / 256)
        (quotient_below (256 ^ k) m (omega (arith, pow_suc k)))
        (quotient_below (256 ^ k) n (omega (arith, pow_suc k))) high in
    let d : m % 256 ≡ n % 256 = ground arith in omega (arith, e, d)

-- A framed field is told from what follows it.
pub framed-cancel :
    (x y r s : List ℕ)
    → length x < 2 ^ 32
    → length y < 2 ^ 32
    → framed x ++ r ≡ framed y ++ s
    → (x ≡ y) × (r ≡ s)
framed-cancel x y r s hx hy h =
    let n = length-be_bytes 4 (length x) ∙ sym (length-be_bytes 4 (length y)) in
    let (sizes, rest) =
      append-cancel (be_bytes 4 (length x)) (be_bytes 4 (length y)) (x ++ r) (y ++ s) n (
        sym (append_assoc (be_bytes 4 (length x)) x r)
        ∙ h
        ∙ append_assoc (be_bytes 4 (length y)) y s) in
    append-cancel x y r s (be_bytes-injective 4 (length x) (length y) hx hy sizes) rest
