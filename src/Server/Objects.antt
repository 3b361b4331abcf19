-- ===== src/Server/Objects.antt =====
-- api.rs: reading, writing, deleting and batching objects.
pub mod Written
pub mod Put
pub mod Delete
pub mod Admission
pub mod Atomic
pub mod Readback
pub mod Conflicts
pub mod Batch
use helium_sync.Prelude.{
  ℕ, suc, Bool, ◌||◌, ltb, ◌==◌, if◌then◌else◌, Option, none, some, List, [], ◌∷◌, Result, ok, err,
  ok_or, length,
}
use helium_sync.Prelude.Fallible
use helium_sync.Common.Types.{
  ObjectId, DeviceId, SyncObject, PutObjectRequest, DeleteObjectRequest, BatchOperation,
  BatchRequest, BatchResponse,
}
use helium_sync.Common.Codec.{Codec}
use helium_sync.Server.Errors.{ApiError, api_error, conflict, serialization_error}
use helium_sync.Server.Tables.{
  DeviceRow, ObjectRow, Tables, Statement, Tx, pure, lift, ◌>>=◌, ◌>>◌, attempt, fetch_device,
  fetch_object, record_change, store_object, replace_object,
}
use helium_sync.Server.Checks.{
  validate_put, i64_from_u64, u64_from_i64, checked_next, timestamp_string, row_to_object,
}

abbrev pub max_batch_operations : ℕ
max_batch_operations = 100

-- the `match row` of `ensure_active_device`
unfoldable pub active_device : Option DeviceRow → Result ApiError (Unit {0})
active_device none = err (api_error 403 "device_unregistered")
active_device (some row) = elim row.revoked_at [
  | none ↦ ok tt
  | some _ ↦ err (api_error 403 "device_revoked")
]

-- The `match (current, request.base_revision)` of `put_object_tx`: an arm whose guard fails falls
-- through to the conflict.
unfoldable pub next_revision : Option ObjectRow → Option ℕ → Result ApiError ℕ
next_revision none none = ok 1
next_revision none (some base) = err (api_error 409 "object_missing")
next_revision (some row) none =
    Fallible.◌>>=◌ (u64_from_i64 row.revision)
      λ current. Fallible.◌>>=◌ (u64_from_i64 row.cursor) λ cursor. err (conflict current cursor)
next_revision (some row) (some base) = Fallible.◌>>=◌ (u64_from_i64 row.revision) λ current.
    if current == base
    then checked_next base
    else Fallible.◌>>=◌ (u64_from_i64 row.cursor) λ cursor. err (conflict current cursor)

-- the revision test of `delete_object_tx`, and the next revision
unfoldable pub deleting_revision : ObjectRow → ℕ → Result ApiError ℕ
deleting_revision row base = Fallible.◌>>=◌ (u64_from_i64 row.revision) λ current.
    if current == base
    then checked_next current
    else Fallible.◌>>=◌ (u64_from_i64 row.cursor) λ cursor. err (conflict current cursor)

module _ (c : Codec) (fails : Statement → Bool) where
  unfoldable pub ensure_active_device : DeviceId → Tx (Unit {0})
  ensure_active_device id = do
    row ← fetch_device fails (c.uuid_text id.uuid)
    lift (active_device row)

  unfoldable pub put_object_tx : ObjectId → PutObjectRequest → Tx SyncObject
  put_object_tx id request = do
    lift (validate_put request)
    ensure_active_device request.device_id
    current ← fetch_object fails (c.uuid_text id.uuid)
    new_revision ← lift (next_revision current request.base_revision)
    modified_at ← lift (timestamp_string c request.modified_at)
    revision_i64 ← lift (i64_from_u64 new_revision)
    rowid ← record_change fails (record {
      object_id = c.uuid_text id.uuid;
      namespace = request.namespace;
      revision = revision_i64;
      device_id = c.uuid_text request.device_id.uuid;
      modified_at = modified_at;
      deleted = 0;
    })
    cursor ← lift (u64_from_i64 rowid)
    envelope_json ← lift (ok_or (c.envelope_text request.envelope) serialization_error)
    cursor_i64 ← lift (i64_from_u64 cursor)
    store_object fails (c.uuid_text id.uuid) (record {
      namespace = request.namespace;
      revision = revision_i64;
      cursor = cursor_i64;
      device_id = c.uuid_text request.device_id.uuid;
      modified_at = modified_at;
      deleted = 0;
      envelope_json = some envelope_json;
    })
    pure (record {
      id = id;
      namespace = request.namespace;
      revision = new_revision;
      cursor = cursor;
      device_id = request.device_id;
      modified_at = request.modified_at;
      deleted = Bool.false;
      envelope = some request.envelope;
    })

  unfoldable pub delete_object_tx : ObjectId → DeleteObjectRequest → Tx SyncObject
  delete_object_tx id request = do
    ensure_active_device request.device_id
    found ← fetch_object fails (c.uuid_text id.uuid)
    row ← lift (ok_or found (api_error 404 "object_not_found"))
    new_revision ← lift (deleting_revision row request.base_revision)
    modified_at ← lift (timestamp_string c request.modified_at)
    revision_i64 ← lift (i64_from_u64 new_revision)
    rowid ← record_change fails (record {
      object_id = c.uuid_text id.uuid;
      namespace = row.namespace;
      revision = revision_i64;
      device_id = c.uuid_text request.device_id.uuid;
      modified_at = modified_at;
      deleted = 1;
    })
    cursor ← lift (u64_from_i64 rowid)
    cursor_i64 ← lift (i64_from_u64 cursor)
    replace_object fails (c.uuid_text id.uuid) (record {
      namespace = row.namespace;
      revision = revision_i64;
      cursor = cursor_i64;
      device_id = c.uuid_text request.device_id.uuid;
      modified_at = modified_at;
      deleted = 1;
      envelope_json = none;
    })
    pure (record {
      id = id;
      namespace = row.namespace;
      revision = new_revision;
      cursor = cursor;
      device_id = request.device_id;
      modified_at = request.modified_at;
      deleted = Bool.true;
      envelope = none;
    })

-- A handler's answer, with the tables that it leaves. An error drops the open transaction.
abbrev pub Reply : Type 0 → Type 0
Reply A = Result ApiError A × Tables

-- `pool.begin()`, the body, `transaction.commit()`
unfoldable pub transact : {A : Type 0} → (Statement → Bool) → Tx A → Tables → Reply A
transact fails body t =
    elim ((do attempt fails Statement.begin; a ← body; attempt fails Statement.commit; pure a) t) [
      | ok r ↦ (ok r.0, r.1)
      | err e ↦ (err e, t)
    ]

-- one operation of a batch, with the statements that fail for it
unfoldable pub apply_operation : Codec → (Statement → Bool) → BatchOperation → Tx SyncObject
apply_operation c fails (BatchOperation.put id request) = put_object_tx c fails id request
apply_operation c fails (BatchOperation.delete id request) = delete_object_tx c fails id request

-- The loop of `batch`; the n-th operation meets the failures `outage n`.
unfoldable pub apply_operations :
    Codec → (ℕ → Statement → Bool) → List BatchOperation → Tx (List SyncObject)
apply_operations c outage [] = pure []
apply_operations c outage (operation ∷ rest) = do
  object ← apply_operation c (outage 0) operation
  objects ← apply_operations c (λ n. outage (suc n)) rest
  pure (object ∷ objects)

module _ (c : Codec) (fails : Statement → Bool) where
  unfoldable pub put_object : ObjectId → PutObjectRequest → Tables → Reply SyncObject
  put_object id request = transact fails (put_object_tx c fails id request)

  unfoldable pub delete_object : ObjectId → DeleteObjectRequest → Tables → Reply SyncObject
  delete_object id request = transact fails (delete_object_tx c fails id request)

  unfoldable pub get_object : ObjectId → Tables → Result ApiError SyncObject
  get_object id t = Fallible.◌>>=◌ (fetch_object fails (c.uuid_text id.uuid) t) λ r.
      Fallible.◌>>=◌ (ok_or r.0 (api_error 404 "object_not_found"))
        λ row. row_to_object c (c.uuid_text id.uuid) row

-- the body of the transaction of `batch`
abbrev pub batch_body : Codec → (ℕ → Statement → Bool) → List BatchOperation → Tx BatchResponse
batch_body c outage operations = do
  objects ← apply_operations c outage operations
  pure (record { objects = objects })

unfoldable pub batch :
    Codec
    → (Statement → Bool)
    → (ℕ → Statement → Bool)
    → BatchRequest
    → Tables
    → Reply BatchResponse
batch c fails outage request t =
    if length request.operations == 0 || ltb max_batch_operations (length request.operations)
    then (err (api_error 422 "invalid_batch_size"), t)
    else transact fails (batch_body c outage request.operations) t
