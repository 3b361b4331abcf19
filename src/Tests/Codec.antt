-- ===== src/Tests/Codec.antt =====
-- A codec that meets the laws: numbers in unary, and one envelope that has a text.
use Prim.Native.String.{String}
use helium_sync.Prelude.{
  ℕ, zero, suc, ◌≡◌, refl, ap, Bool, true, ◌&&◌, ◌==◌, str_eq, eq_iff, if◌then◌else◌, Option, none,
  some, arith, replicate, sym,
}
use helium_sync.Common.Types.{EncryptedEnvelopeV1}
use helium_sync.Common.Codec.{Codec, ReadsBack}
use helium_sync.Server.Auth.{ct_eq}
use helium_sync.Server.Auth.Digest.{ct_eq-eq}

unfoldable pub unary : ℕ → String
unary zero = ""
unary (suc n) = String.◌∷◌ "1" (unary n)

unfoldable pub parse_unary : String → Option ℕ
parse_unary String.[] = some 0
parse_unary (String.◌∷◌ c s) = elim (parse_unary s) [ none ↦ none | some n ↦ some (suc n) ]

pub parse_unary-unary : (n : ℕ) → parse_unary (unary n) ≡ some n
unfolding unary parse_unary
parse_unary-unary zero = refl
parse_unary-unary (suc n) = rw (parse_unary-unary n)

abbrev pub sample_envelope : EncryptedEnvelopeV1
sample_envelope = record {
  version = 1;
  algorithm = "XCHACHA20-POLY1305";
  key_version = 1;
  nonce = record { bytes = replicate 24 7 };
  ciphertext = record { bytes = replicate 32 9 };
}

unfoldable pub is_sample : EncryptedEnvelopeV1 → Bool
is_sample e =
    e.version == 1
    && str_eq e.algorithm "XCHACHA20-POLY1305"
    && e.key_version == 1
    && ct_eq e.nonce.bytes (replicate 24 7)
    && ct_eq e.ciphertext.bytes (replicate 32 9)

is_sample-eq : (e : EncryptedEnvelopeV1) → is_sample e ≡ true → e ≡ sample_envelope
unfolding is_sample
is_sample-eq e h = ground (
  arith,
  eq_iff e.algorithm "XCHACHA20-POLY1305",
  ct_eq-eq e.nonce.bytes (replicate 24 7),
  ct_eq-eq e.ciphertext.bytes (replicate 32 9),
)

unfoldable pub sample_text : EncryptedEnvelopeV1 → Option String
sample_text e = if is_sample e then some "sample" else none

abbrev pub sample_codec : Codec
sample_codec = record {
  uuid_text = unary;
  parse_uuid_text = parse_unary;
  format_time = λ t. some (unary t);
  parse_time = parse_unary;
  envelope_text = sample_text;
  parse_envelope = λ s. some sample_envelope;
}

sample_text-eq :
    (e : EncryptedEnvelopeV1) (s : String) → sample_text e ≡ some s → e ≡ sample_envelope
unfolding sample_text
sample_text-eq e s h = is_sample-eq e (ground arith)

time-ReadsBack : (t : ℕ) (s : String) → some (unary t) ≡ some s → parse_unary s ≡ some t
time-ReadsBack t s h = ground (arith, parse_unary-unary t)

pub sample_codec-ReadsBack : ReadsBack sample_codec
sample_codec-ReadsBack = record {
  uuid = parse_unary-unary;
  time = time-ReadsBack;
  envelope = λ e s h. ap some (sym (sample_text-eq e s h));
}
