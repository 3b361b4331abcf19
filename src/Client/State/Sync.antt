-- ===== src/Client/State/Sync.antt =====
-- state.rs: the mappings of local keys to server objects, and the snapshots that a later
-- synchronisation merges against.
pub mod Recorded
use helium_sync.Prelude.{
  ℕ, ℤ, ◌&&◌, str_eq, String, Option, none, some, List, Bool, Result, ok, ok_or, map,
}
use helium_sync.Prelude.Rows.{first, upsert}
use helium_sync.Prelude.Fallible
use helium_sync.Common.Types.{ObjectId}
use helium_sync.Common.Codec.{Codec}
use helium_sync.Client.Errors.{ClientError, state}
use helium_sync.Client.State.{
  MappingRow, BaseRow, Database, Statement, Query, pure, lift, ◌>>=◌, ◌>>◌, attempt, change, to_i64,
  to_u64,
}

-- the columns of the primary key
pub record SyncKey : Type 0 where
  pub server_id : String
  pub namespace : String
  pub local_key : String

pub record ObjectMapping : Type 0 where
  pub object_id : ObjectId
  pub revision : ℕ

abbrev pub maps : SyncKey → MappingRow → Bool
maps k row =
    str_eq row.server_id k.server_id
    && str_eq row.namespace k.namespace
    && str_eq row.local_key k.local_key

abbrev pub is_base : SyncKey → BaseRow → Bool
is_base k row =
    str_eq row.server_id k.server_id
    && str_eq row.namespace k.namespace
    && str_eq row.local_key k.local_key

abbrev pub base_row : String → SyncKey → List ℕ → BaseRow
base_row now k snapshot_json = record {
  server_id = k.server_id;
  namespace = k.namespace;
  local_key = k.local_key;
  snapshot_json = snapshot_json;
  updated_at = now;
}

abbrev pub mapping_row : Codec → SyncKey → ObjectId → ℤ → MappingRow
mapping_row c k object_id revision = record {
  server_id = k.server_id;
  namespace = k.namespace;
  local_key = k.local_key;
  object_id = c.uuid_text object_id.uuid;
  revision = revision;
}

abbrev snapshot_of : Option BaseRow → Option (List ℕ)
snapshot_of none = none
snapshot_of (some row) = some row.snapshot_json

abbrev pub read_mapping : Codec → MappingRow → Result ClientError ObjectMapping
read_mapping c row = Fallible.◌>>=◌ (ok_or (c.parse_uuid_text row.object_id) (state "")) λ id.
    Fallible.◌>>=◌ (to_u64 row.revision)
      λ revision. ok (record { object_id = record { uuid = id }; revision = revision })

module _ (fails : Statement → Bool) where
  -- INSERT INTO sync_bases … ON CONFLICT DO UPDATE
  abbrev write_base : String → SyncKey → List ℕ → Query (Unit {0})
  write_base now k snapshot_json = do
    attempt fails Statement.upsert_base
    change (λ d. record d { bases = upsert (is_base k) (base_row now k snapshot_json) d.bases })

  unfoldable pub sync_base : SyncKey → Query (Option (List ℕ))
  sync_base k = do
    attempt fails Statement.select_base
    (λ d. ok (snapshot_of (first (is_base k) d.bases), d))

module _ (c : Codec) (fails : Statement → Bool) where
  -- INSERT INTO object_mappings … ON CONFLICT DO UPDATE
  abbrev write_mapping : SyncKey → ObjectId → ℤ → Query (Unit {0})
  write_mapping k object_id revision = do
    attempt fails Statement.upsert_mapping
    change (λ d. record d {
      mappings = upsert (maps k) (mapping_row c k object_id revision) d.mappings;
    })

  unfoldable pub save_mapping : SyncKey → ObjectId → ℕ → Query (Unit {0})
  save_mapping k object_id revision = do
    revision_i64 ← lift (to_i64 revision)
    write_mapping k object_id revision_i64

  unfoldable pub save_sync_state : String → SyncKey → ObjectId → ℕ → List ℕ → Query (Unit {0})
  save_sync_state now k object_id revision snapshot_json = do
    revision_i64 ← lift (to_i64 revision)
    attempt fails Statement.begin
    write_mapping k object_id revision_i64
    write_base fails now k snapshot_json
    attempt fails Statement.commit

  unfoldable pub mapping : SyncKey → Query (Option ObjectMapping)
  mapping k = do
    attempt fails Statement.select_mapping
    (λ d. lift (Fallible.transpose (read_mapping c) (first (maps k) d.mappings)) d)
