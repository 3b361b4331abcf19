-- ===== src/Client/Sync.antt =====
-- crates/helium-sync-client-core/src/orchestration.rs: `upload`, `download` and `delete_objects`.
-- The fresh object ID, the time and the nonce of an upload are arguments.
pub mod EndToEnd
use helium_sync.Prelude.{
  ℕ, ◌+◌, Bool, true, ltb, str_eq, if◌then◌else◌, String, Option, none, some, List, [], ◌∷◌, Result,
  ok, err, u64_max,
}
use helium_sync.Common.Protocol.{protocol_max}
use helium_sync.Common.Types.{
  ObjectId, DeviceId, Timestamp, SyncObject, EncryptedEnvelopeV1, PutObjectRequest,
  DeleteObjectRequest,
}
use helium_sync.Server.Auth.{ct_eq}
use helium_sync.Client.Errors.{ClientError, crypto, serialization}
use helium_sync.Client.Crypto.{Primitives, ObjectMetadata, encrypt, decrypt}
use helium_sync.Client.Api
use helium_sync.Client.Api.{ApiClient, Action, ◌>>=◌, ◌>>◌, lift}
use Prim.Native.String.{◌++◌ as text_append}

pub record SyncProof : Type 0 where
  pub object_id : ObjectId
  pub namespace : String
  pub revision : ℕ
  pub cursor : ℕ
  pub plaintext_matches : Bool

-- `ClientCore`
pub record ClientCore (S : Type 0) : Type 0 where
  pub api : ApiClient S
  pub primitives : Primitives
  pub master_key : List ℕ
  pub device_id : DeviceId

abbrev or_fresh : ObjectId → Option ObjectId → ObjectId
or_fresh fresh none = fresh
or_fresh fresh (some id) = id

-- `base_revision.map_or(1, |revision| revision.saturating_add(1))`
unfoldable pub predicted_revision : Option ℕ → ℕ
predicted_revision none = 1
predicted_revision (some revision) = if ltb revision u64_max then revision + 1 else u64_max

module _ {S : Type 0} (core : ClientCore S) where
  abbrev pub upload_metadata : String → ObjectId → Option ℕ → Timestamp → ObjectMetadata
  upload_metadata namespace object_id base_revision modified_at = record {
    protocol = protocol_max;
    object_id = object_id;
    namespace = namespace;
    device_id = core.device_id;
    revision = predicted_revision base_revision;
    modified_at = modified_at;
  }

  abbrev pub upload_request : String → Option ℕ → Timestamp → EncryptedEnvelopeV1 → PutObjectRequest
  upload_request namespace base_revision modified_at envelope = record {
    namespace = namespace;
    base_revision = base_revision;
    device_id = core.device_id;
    modified_at = modified_at;
    envelope = envelope;
  }

  abbrev checked_proof :
      ObjectId → String → List ℕ → SyncObject → List ℕ → Result ClientError SyncProof
  checked_proof object_id namespace plaintext stored decrypted =
      if ct_eq decrypted plaintext
      then ok (record {
        object_id = object_id;
        namespace = namespace;
        revision = stored.revision;
        cursor = stored.cursor;
        plaintext_matches = true;
      })
      else err (crypto "retrieved plaintext did not match the uploaded object")

  abbrev pub check_stored : ObjectId → String → List ℕ → SyncObject → Action S SyncProof
  check_stored object_id namespace plaintext stored = do
    decrypted ← lift (decrypt core.primitives core.master_key stored)
    lift (checked_proof object_id namespace plaintext stored decrypted)

  -- the second half of `upload`
  abbrev pub read_back : ObjectId → String → List ℕ → Action S SyncProof
  read_back object_id namespace plaintext = do
    stored ← Api.get_object core.api object_id
    check_stored object_id namespace plaintext stored

  -- `upload` under the object ID that it has settled on
  unfoldable pub upload_at :
      Timestamp → List ℕ → String → List ℕ → ObjectId → Option ℕ → Action S SyncProof
  upload_at modified_at nonce namespace plaintext object_id base_revision = do
    envelope ← lift (
        encrypt core.primitives core.master_key
          (upload_metadata namespace object_id base_revision modified_at) nonce plaintext)
    Api.put_object core.api object_id (upload_request namespace base_revision modified_at envelope)
    read_back object_id namespace plaintext

  unfoldable pub upload :
      ObjectId
      → Timestamp
      → List ℕ
      → String
      → List ℕ
      → Option ObjectId
      → Option ℕ
      → Action S SyncProof
  upload fresh modified_at nonce namespace plaintext object_id base_revision =
      upload_at modified_at nonce namespace plaintext (or_fresh fresh object_id) base_revision

  abbrev pub in_namespace : String → SyncObject → Result ClientError (Unit {0})
  in_namespace expected stored =
      if str_eq stored.namespace expected
      then ok tt
      else err
          (serialization (text_append "server object has unexpected namespace " stored.namespace))

  abbrev pub open_stored : String → ObjectId → SyncObject → Action S (List ℕ × SyncProof)
  open_stored expected_namespace object_id stored = do
    lift (in_namespace expected_namespace stored)
    plaintext ← lift (decrypt core.primitives core.master_key stored)
    lift (
        ok (
          plaintext,
          record {
            object_id = object_id;
            namespace = stored.namespace;
            revision = stored.revision;
            cursor = stored.cursor;
            plaintext_matches = true;
          },
        ))

  unfoldable pub download : String → ObjectId → Action S (List ℕ × SyncProof)
  download expected_namespace object_id = do
    stored ← Api.get_object core.api object_id
    open_stored expected_namespace object_id stored

  -- each deletion with its time
  unfoldable pub delete_objects : List (ObjectId × ℕ × Timestamp) → Action S (Unit {0})
  delete_objects [] = lift (ok tt)
  delete_objects ((object_id, revision, now) ∷ rest) = do
    Api.delete_object core.api object_id
        (record { base_revision = revision; device_id = core.device_id; modified_at = now })
    delete_objects rest
