-- ===== src/Tests/Crypto.antt =====
-- Crates that meet the laws, with a cipher that hides nothing, and the theorems on crypto.rs there.
use Prim.Native.Char.{Char, code}
use text.Mathlib.TextEquality.{Char-path}
use helium_sync.Prelude.{
  ℕ, zero, suc, ◌≡◌, refl, sym, ◌==◌, if◌then◌else◌, String, Option, none, some, List, [], ◌∷◌,
  ◌++◌, ok, err, arith, replicate, Option-cases, Bool-cases, ==_iff, inl, inr,
}
use helium_sync.Server.Auth.{strip_prefix, ct_eq}
use helium_sync.Client.Crypto.{
  Primitives, ObjectMetadata, associated_data, recovery_code, from_recovery_code,
}
use helium_sync.Client.Crypto.Bytes.{be_bytes, append_field}
use helium_sync.Client.Crypto.Context.{TellsApart, associated_data-injective}
use helium_sync.Client.Crypto.RoundTrip.{Unseals}
use helium_sync.Client.Crypto.Recovery.{Digests, recovery_code-from_recovery_code}
use helium_sync.Tests.Codec.{unary, parse_unary-unary}
use helium_sync.Tests.Server.{alice, note_id}

unfoldable pub codes : String → List ℕ
codes String.[] = []
codes (String.◌∷◌ c s) = code c ∷ codes s

codes-injective : (s t : String) → codes s ≡ codes t → s ≡ t
unfolding codes
codes-injective String.[] String.[] h = refl
codes-injective String.[] (String.◌∷◌ d t) h = absurd (ground arith)
codes-injective (String.◌∷◌ c s) String.[] h = absurd (ground arith)
codes-injective (String.◌∷◌ c s) (String.◌∷◌ d t) h =
    let heads : c ≡ d = Char-path c d (ground arith) in
    let tails : s ≡ t = codes-injective s t (ground arith) in cc

-- bytes as unary numbers, each with an end mark
abbrev ones : ℕ → String → String
ones zero s = String.◌∷◌ "0" s
ones (suc n) s = String.◌∷◌ "1" (ones n s)

unfoldable pub marks : List ℕ → String
marks [] = ""
marks (n ∷ ns) = ones n (marks ns)

abbrev one_more : Option (List ℕ) → Option (List ℕ)
one_more none = none
one_more (some []) = none
one_more (some (n ∷ ns)) = some (suc n ∷ ns)

abbrev a_zero : Option (List ℕ) → Option (List ℕ)
a_zero none = none
a_zero (some ns) = some (0 ∷ ns)

unfoldable pub parse_marks : String → Option (List ℕ)
parse_marks String.[] = some []
parse_marks (String.◌∷◌ c s) =
    let rest = parse_marks s in
    if code c == 48 then a_zero rest else if code c == 49 then one_more rest else none

parse_marks-ones :
    (n : ℕ) (s : String) (ns : List ℕ)
    → parse_marks s ≡ some ns
    → parse_marks (ones n s) ≡ some (n ∷ ns)
unfolding parse_marks
parse_marks-ones zero s ns h = rw h
parse_marks-ones (suc n) s ns h = rw (parse_marks-ones n s ns h)

parse_marks-marks : (ns : List ℕ) → parse_marks (marks ns) ≡ some ns
unfolding marks parse_marks
parse_marks-marks [] = refl
parse_marks-marks (n ∷ ns) = parse_marks-ones n (marks ns) ns (parse_marks-marks ns)

marks-a_zero :
    (c : Char) (s : String) (ms ns : List ℕ)
    → code c ≡ 48
    → marks ms ≡ s
    → a_zero (some ms) ≡ some ns
    → marks ns ≡ String.◌∷◌ c s
unfolding marks
marks-a_zero c s ms ns digit ih h =
    let e : "0" ≡ c = Char-path "0" c (sym digit) in
    let made : ns ≡ 0 ∷ ms = ground arith in rw (made, ih, e)

marks-one_more :
    (c : Char) (s : String) (ms ns : List ℕ)
    → code c ≡ 49
    → marks ms ≡ s
    → one_more (some ms) ≡ some ns
    → marks ns ≡ String.◌∷◌ c s
unfolding marks
marks-one_more c s [] ns digit ih h = absurd (ground arith)
marks-one_more c s (m ∷ ms) ns digit ih h =
    let e : "1" ≡ c = Char-path "1" c (sym digit) in
    let made : ns ≡ suc m ∷ ms = ground arith in rw (made, ih, e)

marks-parse_marks : (s : String) (ns : List ℕ) → parse_marks s ≡ some ns → marks ns ≡ s
unfolding marks parse_marks
marks-parse_marks String.[] ns h = let made : ns ≡ [] = ground arith in rw made
marks-parse_marks (String.◌∷◌ c s) ns h = elim (Option-cases (parse_marks s)) [
  | inl none_left ↦ absurd (ground arith)
  | inr (ms, e) ↦
      let ih = marks-parse_marks s ms e in
      elim (Bool-cases (code c == 48)) [
        | inl zero_digit ↦
            marks-a_zero c s ms ns ((==_iff (code c) 48).0 zero_digit) ih (ground arith)
        | inr other ↦ elim (Bool-cases (code c == 49)) [
          | inl one_digit ↦
              marks-one_more c s ms ns ((==_iff (code c) 49).0 one_digit) ih (ground arith)
          | inr neither ↦ absurd (ground arith)
        ]
      ]
]

abbrev pub sample_primitives : Primitives
sample_primitives = record {
  utf8 = codes;
  uuid_bytes = λ n. n ∷ [];
  rfc3339 = λ t. ok (unary t);
  hkdf = λ salt key info. some key;
  seal = λ key nonce aad message. some message;
  unseal = λ key nonce aad ciphertext. some ciphertext;
  sha256 = λ bytes. replicate 32 0;
  base64 = marks;
  parse_base64 = parse_marks;
  envelope_json = λ e. err "unsupported";
  parse_envelope_json = λ bytes. err "unsupported";
}

time_told :
    (m n : ℕ) (s : String)
    → sample_primitives.rfc3339 m ≡ ok s
    → sample_primitives.rfc3339 n ≡ ok s
    → m ≡ n
time_told m n s h h' = ground (arith, parse_unary-unary m, parse_unary-unary n)

sample-TellsApart : TellsApart sample_primitives
sample-TellsApart = record {
  utf8 = codes-injective;
  uuid = λ m n h. ground arith;
  time = time_told;
}

pub sample-Unseals : Unseals sample_primitives
sample-Unseals = record {
  sealed = λ key nonce aad message ciphertext h. sym h;
  json = λ e bytes h. absurd (ground arith);
}

pub sample-Digests : Digests sample_primitives
sample-Digests = record {
  size = λ bytes. refl;
  read_back = parse_marks-marks;
  canonical = marks-parse_marks;
}

abbrev pub sample_key : List ℕ
sample_key = replicate 32 5

abbrev sample_metadata : ObjectMetadata
sample_metadata = record {
  protocol = 1;
  object_id = note_id;
  namespace = "b";
  device_id = alice;
  revision = 1;
  modified_at = record { instant = 3 };
}

abbrev sample_aad : List ℕ
sample_aad =
    codes "helium-sync/aad/v1"
    ++ (0 ∷ 1 ∷ 0 ∷ 0 ∷ 0 ∷ 1 ∷ 2 ∷ 0 ∷ 0 ∷ 0 ∷ 1 ∷ 98 ∷ 0 ∷ 0 ∷ 0 ∷ 1 ∷ 0 ∷ [])
    ++ (0 ∷ 0 ∷ 0 ∷ 0 ∷ 0 ∷ 0 ∷ 0 ∷ 1 ∷ 0 ∷ 0 ∷ 0 ∷ 3 ∷ 49 ∷ 49 ∷ 49 ∷ 1 ∷ [])

sample_run : associated_data sample_primitives sample_metadata 1 ≡ ok sample_aad
unfolding associated_data append_field be_bytes codes unary
sample_run = refl

associated_data-injective_example :
    (sample_metadata ≡ sample_metadata) × (sample_metadata.protocol ≡ sample_metadata.protocol)
associated_data-injective_example =
    associated_data-injective sample_primitives sample-TellsApart sample_metadata sample_metadata 1
      1 sample_aad (omega arith, omega arith) (omega arith, omega arith) sample_run sample_run

-- a code is read
code_run :
    from_recovery_code sample_primitives (recovery_code sample_primitives sample_key)
    ≡ ok sample_key
unfolding from_recovery_code recovery_code marks parse_marks strip_prefix ct_eq
code_run = refl

recovery_code-from_recovery_code_example :
    recovery_code sample_primitives sample_key ≡ recovery_code sample_primitives sample_key
recovery_code-from_recovery_code_example =
    recovery_code-from_recovery_code sample_primitives sample-Digests
      (recovery_code sample_primitives sample_key) sample_key code_run
