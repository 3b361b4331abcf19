-- ===== src/Client/Bookmarks.antt =====
-- crates/helium-sync-client-core/src/orchestration.rs: bookmarks as objects, the local bases of a
-- synchronisation, and the registration of the device.
pub mod EndToEnd
use Prim.Native.String.{◌++◌ as text_append}
use helium_sync.Prelude.{
  ℕ, Bool, true, not, str_eq, if◌then◌else◌, String, Option, none, some, List, Result, ok, err,
}
use helium_sync.Common.Types.{
  ObjectId, DeviceId, Timestamp, SyncObject, RegisterDeviceRequest, Device,
}
use helium_sync.Server.Router.{Endpoint, Body}
use helium_sync.Client.Errors.{ClientError, state, api}
use helium_sync.Client.Crypto.{decrypt, encrypt_local_state, decrypt_local_state, or_serialization}
use helium_sync.Client.Api.{
  Action, Session, ◌>>=◌, ◌>>◌, lift, get_object, json_request, ensure_negotiated,
}
use helium_sync.Client.Sync.{ClientCore, SyncProof, in_namespace, upload}
use helium_sync.Client.Extensions.{both_or_neither, extension_manifest_namespace}
use helium_sync.Profile.Node.{BookmarkSnapshotV1}

abbrev pub bookmark_namespace : String
bookmark_namespace = "helium.bookmarks.v1"

abbrev pub synthetic_sentinel : String
synthetic_sentinel = "HELIUM_SYNC_TRANSPORT_TEST_PLAINTEXT_7f3a9c21"

-- `serde_json` at `BookmarkSnapshotV1`
pub record SnapshotJson : Type 0 where
  pub write : BookmarkSnapshotV1 → Result String (List ℕ)
  pub read : List ℕ → Result String BookmarkSnapshotV1

abbrev decode_device : Body → Option Device
decode_device (Body.device d) = some d.1
decode_device _ = none

-- `device_exists` counts as success
abbrev pub registered : Result ClientError Device → Result ClientError (Unit {0})
registered (ok _) = ok tt
registered (err (api status code message)) =
    if str_eq code "device_exists" then ok tt else err (api status code message)
registered (err e) = err e

module _ {S : Type 0} (core : ClientCore S) where
  -- `ApiClient::register_device`
  abbrev pub post_device : RegisterDeviceRequest → Action S Device
  post_device request = do
    ensure_negotiated core.api
    json_request core.api decode_device (Endpoint.register_device request) true

  unfoldable pub register_device : String → Action S (Unit {0})
  register_device name s =
      let r = post_device (record { id = core.device_id; name = name }) s in (registered r.0, r.1)

  abbrev pub purpose : String → String → String
  purpose namespace profile_directory = text_append namespace (text_append ":" profile_directory)

  -- each with the nonce that it draws
  unfoldable pub protect_sync_base : List ℕ → String → List ℕ → Result ClientError (List ℕ)
  protect_sync_base nonce profile_directory plaintext =
      encrypt_local_state core.primitives core.master_key
        (purpose bookmark_namespace profile_directory) nonce plaintext

  unfoldable pub open_sync_base : String → List ℕ → Result ClientError (List ℕ)
  open_sync_base profile_directory encrypted =
      decrypt_local_state core.primitives core.master_key
        (purpose bookmark_namespace profile_directory) encrypted

  unfoldable pub protect_extension_sync_base :
      List ℕ → String → List ℕ → Result ClientError (List ℕ)
  protect_extension_sync_base nonce profile_directory plaintext =
      encrypt_local_state core.primitives core.master_key
        (purpose extension_manifest_namespace profile_directory) nonce plaintext

  unfoldable pub open_extension_sync_base : String → List ℕ → Result ClientError (List ℕ)
  open_extension_sync_base profile_directory encrypted =
      decrypt_local_state core.primitives core.master_key
        (purpose extension_manifest_namespace profile_directory) encrypted

  unfoldable pub synthetic_round_trip : ObjectId → Timestamp → List ℕ → Action S SyncProof
  synthetic_round_trip fresh now nonce =
      upload core fresh now nonce "synthetic.v1" (core.primitives.utf8 synthetic_sentinel) none none

  module _ (json : SnapshotJson) where
    abbrev pub paired : Bool → Result ClientError (Unit {0})
    paired both =
        if both
        then ok tt
        else err (state "bookmark object ID and revision must either both exist or both be absent")

    unfoldable pub save_bookmark_snapshot :
        ObjectId
        → Timestamp
        → List ℕ
        → BookmarkSnapshotV1
        → Option ObjectId
        → Option ℕ
        → Action S SyncProof
    save_bookmark_snapshot fresh now nonce snapshot object_id base_revision = do
      lift (paired (both_or_neither object_id base_revision))
      plaintext ← lift (or_serialization (json.write snapshot))
      upload core fresh now nonce bookmark_namespace plaintext object_id base_revision

    abbrev pub open_bookmarks : ObjectId → SyncObject → Action S (BookmarkSnapshotV1 × SyncProof)
    open_bookmarks object_id stored = do
      lift (in_namespace core bookmark_namespace stored)
      plaintext ← lift (decrypt core.primitives core.master_key stored)
      snapshot ← lift (or_serialization (json.read plaintext))
      lift (
          ok (
            snapshot,
            record {
              object_id = object_id;
              namespace = stored.namespace;
              revision = stored.revision;
              cursor = stored.cursor;
              plaintext_matches = true;
            },
          ))

    unfoldable pub load_bookmarks : ObjectId → Action S (BookmarkSnapshotV1 × SyncProof)
    load_bookmarks object_id = do
      stored ← get_object core.api object_id
      open_bookmarks object_id stored
