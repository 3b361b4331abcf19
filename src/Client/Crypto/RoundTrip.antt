-- ===== src/Client/Crypto/RoundTrip.antt =====
-- Decryption (crypto.rs: `decrypt`, `decrypt_local_state`) of what was encrypted.
use helium_sync.Prelude.{ℕ, ◌≡◌, ap, ◌∙◌, String, some, List, length, arith, ok, Result}
use helium_sync.Common.Types.{EncryptedEnvelopeV1, SyncObject}
use helium_sync.Client.Errors.{ClientError}
use helium_sync.Client.Crypto.{
  Primitives, ObjectMetadata, metadata_of, associated_data, derive_key, encrypt, decrypt,
  derive_local_state_key, local_state_aad, encrypt_local_state, decrypt_local_state,
}

-- Documented behaviour of the crates: what is sealed is unsealed under the same key, nonce and
-- associated data, and JSON is read back.
pub record Unseals (p : Primitives) : Type 0 where
  pub sealed :
      (key nonce aad message ciphertext : List ℕ)
      → p.seal key nonce aad message ≡ some ciphertext
      → p.unseal key nonce aad ciphertext ≡ some message
  pub json :
      (e : EncryptedEnvelopeV1) (bytes : List ℕ)
      → p.envelope_json e ≡ ok bytes
      → p.parse_envelope_json bytes ≡ ok e

abbrev sealed_envelope : String → List ℕ → List ℕ → EncryptedEnvelopeV1
sealed_envelope algorithm nonce ciphertext = record {
  version = 1;
  algorithm = algorithm;
  key_version = 1;
  nonce = record { bytes = nonce };
  ciphertext = record { bytes = ciphertext };
}

-- what an encryption has computed on the way, and what holds of the envelope that it has made
record Sealed (p : Primitives) (key_of aad_of : Result ClientError (List ℕ))
    (nonce plaintext : List ℕ) (algorithm : String) (Made : EncryptedEnvelopeV1 → Type 0)
    : Type 0 where
  key : List ℕ
  key_ok : key_of ≡ ok key
  aad : List ℕ
  aad_ok : aad_of ≡ ok aad
  ciphertext : List ℕ
  sealed : p.seal key nonce aad plaintext ≡ some ciphertext
  made : Made (sealed_envelope algorithm nonce ciphertext)

module _ (p : Primitives) (laws : Unseals p) (master_key nonce plaintext : List ℕ)
    (size : length nonce ≡ 24) where
  encrypt-Sealed :
      (m : ObjectMetadata) (envelope : EncryptedEnvelopeV1)
      → encrypt p master_key m nonce plaintext ≡ ok envelope
      → Sealed p
          (derive_key p master_key m.object_id m.namespace 1)
          (associated_data p m 1)
          nonce
          plaintext
          "XCHACHA20-POLY1305"
          (λ e. envelope ≡ e)
  unfolding encrypt
  encrypt-Sealed m envelope h = ground arith

  encrypt_local_state-Sealed :
      (purpose : String) (encoded : List ℕ)
      → encrypt_local_state p master_key purpose nonce plaintext ≡ ok encoded
      → Sealed p
          (derive_local_state_key p master_key purpose)
          (local_state_aad p purpose)
          nonce
          plaintext
          "XCHACHA20-POLY1305-LOCAL-STATE"
          (λ e. p.envelope_json e ≡ ok encoded)
  unfolding encrypt_local_state
  encrypt_local_state-Sealed purpose encoded h = ground arith

  -- Decrypting an object gives back the plaintext that was encrypted for exactly the metadata that
  -- the object carries, whatever cursor and deletion mark the server has put on it.
  pub decrypt-encrypt :
      (object : SyncObject) (envelope : EncryptedEnvelopeV1)
      → encrypt p master_key (metadata_of p object) nonce plaintext ≡ ok envelope
      → object.envelope ≡ some envelope
      → decrypt p master_key object ≡ ok plaintext
  unfolding decrypt
  decrypt-encrypt object envelope h stored =
      let f = encrypt-Sealed (metadata_of p object) envelope h in
      rw (
        stored ∙ ap some f.made,
        f.key_ok,
        f.aad_ok,
        size,
        laws.sealed f.key nonce f.aad plaintext f.ciphertext f.sealed,
      )

  -- Local state that was encrypted for a purpose is decrypted for that purpose.
  pub decrypt_local_state-encrypt_local_state :
      (purpose : String) (encoded : List ℕ)
      → encrypt_local_state p master_key purpose nonce plaintext ≡ ok encoded
      → decrypt_local_state p master_key purpose encoded ≡ ok plaintext
  unfolding decrypt_local_state
  decrypt_local_state-encrypt_local_state purpose encoded h =
      let f = encrypt_local_state-Sealed purpose encoded h in
      rw (
        laws.json (sealed_envelope "XCHACHA20-POLY1305-LOCAL-STATE" nonce f.ciphertext) encoded
            f.made,
        f.key_ok,
        f.aad_ok,
        size,
        laws.sealed f.key nonce f.aad plaintext f.ciphertext f.sealed,
      )
