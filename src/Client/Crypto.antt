-- ===== src/Client/Crypto.antt =====
-- crates/helium-sync-client-core/src/crypto.rs: envelopes, their keys and associated data, local
-- state, and recovery codes. Zeroing a key has no effect on a result and is left out. Random bytes
-- are arguments. The cryptographic crates are parameters.
pub mod Bytes
pub mod Context
pub mod RoundTrip
pub mod Recovery
use Prim.Native.String.{◌++◌ as text_append}
use helium_sync.Prelude.{
  ℕ, ◌+◌, not, ◌||◌, ◌==◌, str_eq, if◌then◌else◌, String, Option, none, some, List, [], ◌∷◌, ◌++◌,
  Result, ok, err, ◌>>=◌, ◌>>◌, guard, ok_or, length, take, drop,
}
use helium_sync.Common.Protocol.{ProtocolVersion, protocol_max}
use helium_sync.Common.Types.{ObjectId, DeviceId, Timestamp, EncryptedEnvelopeV1, SyncObject}
use helium_sync.Server.Auth.{ct_eq, strip_prefix}
use helium_sync.Client.Errors.{ClientError, crypto, serialization}
use Bytes.{be_bytes, append_field}

-- What the crates compute: `as_bytes`, RFC 3339, HKDF-SHA256 with 32 bytes of output,
-- XChaCha20-Poly1305 (key, nonce, associated data, text), SHA-256, unpadded base64url, and JSON.
-- An error of a crate is its text.
pub record Primitives : Type 0 where
  pub utf8 : String → List ℕ
  pub uuid_bytes : ℕ → List ℕ
  pub rfc3339 : ℕ → Result String String
  pub hkdf : List ℕ → List ℕ → List ℕ → Option (List ℕ)
  pub seal : List ℕ → List ℕ → List ℕ → List ℕ → Option (List ℕ)
  pub unseal : List ℕ → List ℕ → List ℕ → List ℕ → Option (List ℕ)
  pub sha256 : List ℕ → List ℕ
  pub base64 : List ℕ → String
  pub parse_base64 : String → Option (List ℕ)
  pub envelope_json : EncryptedEnvelopeV1 → Result String (List ℕ)
  pub parse_envelope_json : List ℕ → Result String EncryptedEnvelopeV1

pub record ObjectMetadata : Type 0 where
  pub protocol : ProtocolVersion
  pub object_id : ObjectId
  pub namespace : String
  pub device_id : DeviceId
  pub revision : ℕ
  pub modified_at : Timestamp

-- `map_err(|error| ClientError::Serialization(error.to_string()))`
abbrev pub or_serialization : {A : Type 0} → Result String A → Result ClientError A
or_serialization (ok a) = ok a
or_serialization (err text) = err (serialization text)

abbrev pub master_key_length : ℕ
master_key_length = 32

abbrev pub authentication_failed : ClientError
authentication_failed = crypto "ciphertext authentication failed; payload or metadata was changed"

module _ (p : Primitives) where
  unfoldable pub associated_data : ObjectMetadata → ℕ → Result ClientError (List ℕ)
  associated_data metadata envelope_version = do
    with_object ←
        append_field (p.utf8 "helium-sync/aad/v1" ++ be_bytes 2 metadata.protocol)
          (p.uuid_bytes metadata.object_id.uuid)
    with_namespace ← append_field with_object (p.utf8 metadata.namespace)
    with_device ← append_field with_namespace (p.uuid_bytes metadata.device_id.uuid)
    timestamp ← or_serialization (p.rfc3339 metadata.modified_at.instant)
    with_time ← append_field (with_device ++ be_bytes 8 metadata.revision) (p.utf8 timestamp)
    ok (with_time ++ envelope_version ∷ [])

  unfoldable pub derive_key : List ℕ → ObjectId → String → ℕ → Result ClientError (List ℕ)
  derive_key master_key object_id namespace key_version = do
    info ← append_field (p.utf8 "helium-sync/object-key/") (p.utf8 namespace)
    ok_or (p.hkdf (p.uuid_bytes object_id.uuid) master_key (info ++ be_bytes 4 key_version))
        (crypto "object key derivation failed")

  unfoldable pub encrypt :
      List ℕ → ObjectMetadata → List ℕ → List ℕ → Result ClientError EncryptedEnvelopeV1
  encrypt master_key metadata nonce plaintext = do
    key ← derive_key master_key metadata.object_id metadata.namespace 1
    aad ← associated_data metadata 1
    ciphertext ← ok_or (p.seal key nonce aad plaintext) (crypto "payload encryption failed")
    ok (record {
      version = 1;
      algorithm = "XCHACHA20-POLY1305";
      key_version = 1;
      nonce = record { bytes = nonce };
      ciphertext = record { bytes = ciphertext };
    })

  abbrev pub metadata_of : SyncObject → ObjectMetadata
  metadata_of object = record {
    protocol = protocol_max;
    object_id = object.id;
    namespace = object.namespace;
    device_id = object.device_id;
    revision = object.revision;
    modified_at = object.modified_at;
  }

  unfoldable pub decrypt : List ℕ → SyncObject → Result ClientError (List ℕ)
  decrypt master_key object = do
    envelope ← ok_or object.envelope (crypto "deleted object does not contain an encrypted payload")
    guard
        (not (
          not (envelope.version == 1)
          || not (envelope.key_version == 1)
          || not (str_eq envelope.algorithm "XCHACHA20-POLY1305")
          || not (length envelope.nonce.bytes == 24)))
        (crypto "encrypted envelope algorithm or version is unsupported")
    key ← derive_key master_key object.id object.namespace envelope.key_version
    aad ← associated_data (metadata_of object) envelope.version
    ok_or (p.unseal key envelope.nonce.bytes aad envelope.ciphertext.bytes) authentication_failed

  unfoldable pub derive_local_state_key : List ℕ → String → Result ClientError (List ℕ)
  derive_local_state_key master_key purpose = do
    info ← append_field (p.utf8 "helium-sync/local-state-key/v1") (p.utf8 purpose)
    ok_or (p.hkdf (p.utf8 "helium-sync/local-state-salt/v1") master_key info)
        (crypto "local state key derivation failed")

  unfoldable pub local_state_aad : String → Result ClientError (List ℕ)
  local_state_aad purpose = append_field (p.utf8 "helium-sync/local-state-aad/v1") (p.utf8 purpose)

  unfoldable pub encrypt_local_state :
      List ℕ → String → List ℕ → List ℕ → Result ClientError (List ℕ)
  encrypt_local_state master_key purpose nonce plaintext = do
    key ← derive_local_state_key master_key purpose
    aad ← local_state_aad purpose
    ciphertext ← ok_or (p.seal key nonce aad plaintext) (crypto "local state encryption failed")
    or_serialization (
        p.envelope_json (record {
          version = 1;
          algorithm = "XCHACHA20-POLY1305-LOCAL-STATE";
          key_version = 1;
          nonce = record { bytes = nonce };
          ciphertext = record { bytes = ciphertext };
        }))

  unfoldable pub decrypt_local_state : List ℕ → String → List ℕ → Result ClientError (List ℕ)
  decrypt_local_state master_key purpose encoded = do
    envelope ← or_serialization (p.parse_envelope_json encoded)
    guard
        (not (
          not (envelope.version == 1)
          || not (envelope.key_version == 1)
          || not (str_eq envelope.algorithm "XCHACHA20-POLY1305-LOCAL-STATE")
          || not (length envelope.nonce.bytes == 24)))
        (crypto "local state envelope algorithm or version is unsupported")
    key ← derive_local_state_key master_key purpose
    aad ← local_state_aad purpose
    ok_or (p.unseal key envelope.nonce.bytes aad envelope.ciphertext.bytes)
        (crypto "local state authentication failed; data or context changed")

  unfoldable pub recovery_code : List ℕ → String
  recovery_code key = text_append "hsync1:" (p.base64 (key ++ take 4 (p.sha256 key)))

  unfoldable pub from_recovery_code : String → Result ClientError (List ℕ)
  from_recovery_code code = do
    encoded ← ok_or (strip_prefix "hsync1:" code) (crypto "recovery code must start with hsync1:")
    decoded ← ok_or (p.parse_base64 encoded) (crypto "recovery code is not valid base64url")
    guard (length decoded == master_key_length + 4) (crypto "recovery code has an invalid length")
    guard
        (ct_eq (drop master_key_length decoded)
          (take 4 (p.sha256 (take master_key_length decoded))))
        (crypto "recovery code checksum did not match")
    ok (take master_key_length decoded)
