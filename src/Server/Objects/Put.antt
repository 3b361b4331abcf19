-- ===== src/Server/Objects/Put.antt =====
-- What a successful `put_object_tx` (api.rs) has checked and written, and when it succeeds.
use helium_sync.Prelude.{ℕ, false, ◌+◌, ◌≤◌, ◌<◌, ◌≡◌, pos, Bool, String, some, ok, arith, i64_max}
use helium_sync.Prelude.Table.{lookup}
use helium_sync.Common.Types.{ObjectId, SyncObject, PutObjectRequest}
use helium_sync.Common.Codec.{Codec}
use helium_sync.Server.Objects.Written.{written}
use helium_sync.Server.Tables.{
  ObjectRow, Tables, Statement, fetch_device, fetch_object, record_change, store_object,
}
use helium_sync.Server.Checks.{validate_put, i64_from_u64, u64_from_i64, timestamp_string}
use helium_sync.Server.Objects.{next_revision, active_device, ensure_active_device, put_object_tx}

abbrev pub put_row : Codec → PutObjectRequest → ℕ → ℕ → String → String → ObjectRow
put_row c request revision cursor modified_at envelope_json = record {
  namespace = request.namespace;
  revision = pos revision;
  cursor = pos cursor;
  device_id = c.uuid_text request.device_id.uuid;
  modified_at = modified_at;
  deleted = 0;
  envelope_json = some envelope_json;
}

abbrev pub put_reply : ObjectId → PutObjectRequest → ℕ → ℕ → SyncObject
put_reply id request revision cursor = record {
  id = id;
  namespace = request.namespace;
  revision = revision;
  cursor = cursor;
  device_id = request.device_id;
  modified_at = request.modified_at;
  deleted = Bool.false;
  envelope = some request.envelope;
}

pub record PutFacts (c : Codec) (id : ObjectId) (request : PutObjectRequest) (t : Tables)
    (r : SyncObject × Tables) : Type 0 where
  pub revision : ℕ
  pub modified_at : String
  pub envelope_json : String
  pub revision_ok :
      next_revision (lookup (c.uuid_text id.uuid) t.objects) request.base_revision ≡ ok revision
  pub time_ok : c.format_time request.modified_at.instant ≡ some modified_at
  pub envelope_ok : c.envelope_text request.envelope ≡ some envelope_json
  pub in_range : revision ≤ i64_max
  pub room : t.sequence < i64_max
  pub active : active_device (lookup (c.uuid_text request.device_id.uuid) t.devices) ≡ ok tt
  pub valid : validate_put request ≡ ok tt
  pub reply : r.0 ≡ put_reply id request revision (t.sequence + 1)
  pub tables :
      r.1
      ≡ written t
          (c.uuid_text id.uuid)
          (put_row c request revision (t.sequence + 1) modified_at envelope_json)

module _ (c : Codec) (fails : Statement → Bool) (id : ObjectId) (request : PutObjectRequest)
    (t : Tables) where
  -- A put that returns has passed every check and has written exactly one change and one object
  -- row, at the next revision and the next cursor; the object that it returns says the same.
  pub put_object_tx-facts :
      (r : SyncObject × Tables)
      → put_object_tx c fails id request t ≡ ok r
      → PutFacts c id request t r
  unfolding put_object_tx ensure_active_device fetch_device fetch_object record_change store_object
      timestamp_string i64_from_u64 u64_from_i64
  put_object_tx-facts r h = ground arith

  -- A valid put by an active device at the next revision succeeds, if the numbers are in range,
  -- time and envelope have texts, and the database executes the statements.
  pub put_object_tx_total :
      {n : ℕ} {modified_at envelope_json : String}
      → validate_put request ≡ ok tt
      → active_device (lookup (c.uuid_text request.device_id.uuid) t.devices) ≡ ok tt
      → next_revision (lookup (c.uuid_text id.uuid) t.objects) request.base_revision ≡ ok n
      → 0 < n
      → n ≤ i64_max
      → t.sequence < i64_max
      → c.format_time request.modified_at.instant ≡ some modified_at
      → c.envelope_text request.envelope ≡ some envelope_json
      → ((s : Statement) → fails s ≡ false)
      → put_object_tx c fails id request t
        ≡ ok (
          put_reply id request n (t.sequence + 1),
          written t
              (c.uuid_text id.uuid)
              (put_row c request n (t.sequence + 1) modified_at envelope_json),
        )
  unfolding put_object_tx ensure_active_device fetch_device fetch_object record_change store_object
      timestamp_string i64_from_u64 u64_from_i64 active_device
  put_object_tx_total valid active next positive in_range room time envelope up = ground (
    arith,
    up Statement.select_device,
    up Statement.select_object,
    up Statement.insert_change,
    up Statement.upsert_object,
  )
