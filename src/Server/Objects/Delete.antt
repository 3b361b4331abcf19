-- ===== src/Server/Objects/Delete.antt =====
-- What a successful `delete_object_tx` (api.rs) has checked and written, and when it succeeds.
use helium_sync.Prelude.{
  inl, inr, Option-cases, ℕ, false, ◌+◌, ◌≤◌, ◌<◌, ◌≡◌, pos, Bool, String, none, some, ok, arith,
  i64_max,
}
use helium_sync.Prelude.Table.{lookup}
use helium_sync.Common.Types.{ObjectId, SyncObject, DeleteObjectRequest}
use helium_sync.Common.Codec.{Codec}
use helium_sync.Server.Objects.Written.{written}
use helium_sync.Server.Tables.{
  ObjectRow, Tables, Statement, fetch_device, fetch_object, record_change, replace_object,
}
use helium_sync.Server.Checks.{i64_from_u64, u64_from_i64, timestamp_string}
use helium_sync.Server.Objects.{
  deleting_revision, active_device, ensure_active_device, delete_object_tx,
}

-- a tombstone keeps the namespace of the row that it replaces
abbrev pub tombstone_row : Codec → DeleteObjectRequest → ObjectRow → ℕ → ℕ → String → ObjectRow
tombstone_row c request row revision cursor modified_at = record {
  namespace = row.namespace;
  revision = pos revision;
  cursor = pos cursor;
  device_id = c.uuid_text request.device_id.uuid;
  modified_at = modified_at;
  deleted = 1;
  envelope_json = none;
}

abbrev pub delete_reply : ObjectId → DeleteObjectRequest → ObjectRow → ℕ → ℕ → SyncObject
delete_reply id request row revision cursor = record {
  id = id;
  namespace = row.namespace;
  revision = revision;
  cursor = cursor;
  device_id = request.device_id;
  modified_at = request.modified_at;
  deleted = Bool.true;
  envelope = none;
}

pub record DeleteFacts (c : Codec) (id : ObjectId) (request : DeleteObjectRequest) (row : ObjectRow)
    (t : Tables) (r : SyncObject × Tables) : Type 0 where
  pub revision : ℕ
  pub revision_ok : deleting_revision row request.base_revision ≡ ok revision
  pub modified_at : String
  pub time_ok : c.format_time request.modified_at.instant ≡ some modified_at
  pub in_range : revision ≤ i64_max
  pub room : t.sequence < i64_max
  pub active : active_device (lookup (c.uuid_text request.device_id.uuid) t.devices) ≡ ok tt
  pub reply : r.0 ≡ delete_reply id request row revision (t.sequence + 1)
  pub tables :
      r.1
      ≡ written t
          (c.uuid_text id.uuid)
          (tombstone_row c request row revision (t.sequence + 1) modified_at)

module _ (c : Codec) (fails : Statement → Bool) (id : ObjectId) (request : DeleteObjectRequest)
    (t : Tables) where
  delete_object_tx-found :
      (r : SyncObject × Tables)
      → delete_object_tx c fails id request t ≡ ok r
      → (row : ObjectRow) × (lookup (c.uuid_text id.uuid) t.objects ≡ some row)
  unfolding delete_object_tx ensure_active_device fetch_device fetch_object record_change
      replace_object timestamp_string i64_from_u64 u64_from_i64
  delete_object_tx-found r h = elim (Option-cases (lookup (c.uuid_text id.uuid) t.objects)) [
    | inl missing ↦ absurd (ground arith)
    | inr found ↦ found
  ]

  delete_object_tx-facts_at :
      (row : ObjectRow) (r : SyncObject × Tables)
      → lookup (c.uuid_text id.uuid) t.objects ≡ some row
      → delete_object_tx c fails id request t ≡ ok r
      → DeleteFacts c id request row t r
  unfolding delete_object_tx ensure_active_device fetch_device fetch_object record_change
      replace_object timestamp_string i64_from_u64 u64_from_i64
  delete_object_tx-facts_at row r e h = ground arith

  -- A delete that returns has found its row, has passed every check and has written exactly one
  -- tombstone and one change, at the next revision and the next cursor.
  pub delete_object_tx-facts :
      (r : SyncObject × Tables)
      → delete_object_tx c fails id request t ≡ ok r
      → (row : ObjectRow) × (lookup (c.uuid_text id.uuid) t.objects ≡ some row)
        × DeleteFacts c id request row t r
  delete_object_tx-facts r h =
      let (row, e) = delete_object_tx-found r h in (row, e, delete_object_tx-facts_at row r e h)

  -- The converse: those checks are enough, if the database executes the statements.
  pub delete_object_tx_total :
      {row : ObjectRow} {n : ℕ} {modified_at : String}
      → active_device (lookup (c.uuid_text request.device_id.uuid) t.devices) ≡ ok tt
      → lookup (c.uuid_text id.uuid) t.objects ≡ some row
      → deleting_revision row request.base_revision ≡ ok n
      → 0 < n
      → n ≤ i64_max
      → t.sequence < i64_max
      → c.format_time request.modified_at.instant ≡ some modified_at
      → ((s : Statement) → fails s ≡ false)
      → delete_object_tx c fails id request t
        ≡ ok (
          delete_reply id request row n (t.sequence + 1),
          written t
              (c.uuid_text id.uuid)
              (tombstone_row c request row n (t.sequence + 1) modified_at),
        )
  unfolding delete_object_tx ensure_active_device fetch_device fetch_object record_change
      replace_object timestamp_string i64_from_u64 u64_from_i64 active_device
  delete_object_tx_total active found next positive in_range room time up = ground (
    arith,
    up Statement.select_device,
    up Statement.select_object,
    up Statement.insert_change,
    up Statement.update_object,
  )
