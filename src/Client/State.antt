-- ===== src/Client/State.antt =====
-- crates/helium-sync-client-core/src/state.rs: `LocalState`, the client's SQLite tables
-- (migrations/0001_initial.sql to 0005_profile_archives.sql). `fails` says which statements the
-- database refuses to execute, and `now` is CURRENT_TIMESTAMP. A statement that fails changes
-- nothing, and a transaction that fails is dropped, so an error carries no tables.
pub mod Sync
pub mod Profiles
pub mod Archives
pub mod Values
pub mod Calls
pub mod Valid
pub mod Kept
use helium_sync.Prelude.{
  ℕ, ℤ, pos, negsuc, Bool, true, false, not, ◌&&◌, leb, str_eq, if◌then◌else◌, String, Option, none,
  some, List, [], ◌∷◌, Result, ok, err, ok_or, i64_max,
}
use helium_sync.Prelude.Table.{Table, lookup, insert}
use helium_sync.Common.Types.{ObjectId, DeviceId}
use helium_sync.Common.Codec.{Codec}
use helium_sync.Client.Errors.{ClientError, state}

-- the row of `server_connections` under its server ID
pub record ConnectionRow : Type 0 where
  pub transport : String
  pub endpoint : String
  pub updated_at : String

pub record MappingRow : Type 0 where
  pub server_id : String
  pub namespace : String
  pub local_key : String
  pub object_id : String
  pub revision : ℤ

pub record BaseRow : Type 0 where
  pub server_id : String
  pub namespace : String
  pub local_key : String
  pub snapshot_json : List ℕ
  pub updated_at : String

-- the row of `profile_preferences` under its directory name
pub record ProfileRow : Type 0 where
  pub display_name : String
  pub is_default : ℕ
  pub updated_at : String
  pub auto_sync : ℕ

pub record ArchiveRow : Type 0 where
  pub id : String
  pub directory_name : String
  pub archive_directory : String
  pub display_name : String
  pub archived_at : String

pub record Database : Type 0 where
  pub metadata : Table String
  pub cursors : Table ℤ
  pub connections : Table ConnectionRow
  pub mappings : List MappingRow
  pub bases : List BaseRow
  pub profiles : Table ProfileRow
  pub archives : List ArchiveRow

-- after the migrations
abbrev pub new_database : Database
new_database = record {
  metadata = [];
  cursors = [];
  connections = [];
  mappings = [];
  bases = [];
  profiles = [];
  archives = [];
}

pub data Statement : Type 0 where
  begin commit : Statement
  select_device insert_device select_cursor upsert_cursor upsert_connection : Statement
  upsert_mapping select_mapping upsert_base select_base : Statement
  insert_profile select_profiles update_name select_profile clear_default update_default : Statement
  update_auto_sync insert_archive unset_default select_archives delete_archive : Statement

abbrev pub Query : Type 0 → Type 0
Query A = Database → Result ClientError (A × Database)

abbrev pub pure : {A : Type 0} → A → Query A
pure a d = ok (a, d)

abbrev pub lift : {A : Type 0} → Result ClientError A → Query A
lift (ok a) d = ok (a, d)
lift (err e) d = err e

infixl 5 ◌>>=◌ ◌>>◌
abbrev pub ◌>>=◌ : {A B : Type 0} → Query A → (A → Query B) → Query B
◌>>=◌ m f d = elim (m d) [ ok r ↦ f r.0 r.1 | err e ↦ err e ]

abbrev pub ◌>>◌ : {A B : Type 0} → Query A → Query B → Query B
m >> n = m >>= λ _. n

abbrev pub is_row : {V : Type 0} → Option V → Bool
is_row none = false
is_row (some _) = true

-- The text of the database's own errors is not modelled.
abbrev pub database_error : ClientError
database_error = state ""

-- what the schema demands of a statement
abbrev pub constraint : Bool → Query (Unit {0})
constraint true d = ok (tt, d)
constraint false d = err database_error

abbrev pub attempt : (Statement → Bool) → Statement → Query (Unit {0})
attempt fails k = constraint (not (fails k))

abbrev pub change : (Database → Database) → Query (Unit {0})
change f d = ok (tt, f d)

-- `i64::try_from(value)` and `u64::try_from(value)`
unfoldable pub to_i64 : ℕ → Result ClientError ℤ
to_i64 value = if leb value i64_max then ok (pos value) else err (state "")

unfoldable pub to_u64 : ℤ → Result ClientError ℕ
to_u64 (pos n) = ok n
to_u64 (negsuc n) = err (state "")

abbrev pub is_natural : ℤ → Bool
is_natural (pos n) = true
is_natural (negsuc n) = false

abbrev pub cursor_or_zero : Option ℤ → Result ClientError ℕ
cursor_or_zero none = ok 0
cursor_or_zero (some row) = to_u64 row

module _ (c : Codec) (fails : Statement → Bool) where
  abbrev pub stored_device : String → Query DeviceId
  stored_device value = do
    id ← lift (ok_or (c.parse_uuid_text value) (state ""))
    pure (record { uuid = id })

  -- `fresh` is the ID that `DeviceId::new` draws
  abbrev pub create_device : DeviceId → Query DeviceId
  create_device fresh = do
    attempt fails Statement.insert_device
    change (λ d. record d { metadata = insert "device_id" (c.uuid_text fresh.uuid) d.metadata })
    pure fresh

  unfoldable pub device_id : DeviceId → Query DeviceId
  device_id fresh = do
    attempt fails Statement.select_device
    (λ d. elim (lookup "device_id" d.metadata) [
      | none ↦ create_device fresh d
      | some value ↦ stored_device value d
    ])

module _ (fails : Statement → Bool) where
  unfoldable pub cursor : String → Query ℕ
  cursor server_id = do
    attempt fails Statement.select_cursor
    (λ d. lift (cursor_or_zero (lookup server_id d.cursors)) d)

  unfoldable pub set_cursor : String → ℕ → Query (Unit {0})
  set_cursor server_id value = do
    cursor ← lift (to_i64 value)
    attempt fails Statement.upsert_cursor
    constraint (is_natural cursor)
    change (λ d. record d { cursors = insert server_id cursor d.cursors })

  unfoldable pub save_connection : String → String → String → String → Query (Unit {0})
  save_connection now server_id transport endpoint = do
    attempt fails Statement.upsert_connection
    change (λ d. record d {
      connections =
          insert server_id (record { transport = transport; endpoint = endpoint; updated_at = now })
            d.connections;
    })
