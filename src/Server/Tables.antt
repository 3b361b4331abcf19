-- ===== src/Server/Tables.antt =====
-- The SQLite tables of crates/helium-sync-server/migrations/0001_initial.sql, transactions on them,
-- and the statements of api.rs. A transaction that fails is dropped, which rolls it back, so an
-- error carries no tables. `fails` says which statements the database refuses to execute.
use helium_sync.Prelude.{
  ◌≡◌, inl, inr, arith, Result-cases, ℕ, ◌+◌, ℤ, pos, negsuc, Bool, true, false, not, ◌&&◌, ltb,
  String, Option, none, some, List, [], ◌∷◌, ◌++◌, Result, ok, err, i64_max,
}
use helium_sync.Prelude.Table.{Table, lookup, insert}
use helium_sync.Server.Errors.{ApiError, database_error}

-- one row of `devices`; its key `id` is the key of the table
pub record DeviceRow : Type 0 where
  pub name : String
  pub created_at : String
  pub revoked_at : Option String

pub record ObjectRow : Type 0 where
  pub namespace : String
  pub revision : ℤ
  pub cursor : ℤ
  pub device_id : String
  pub modified_at : String
  pub deleted : ℕ
  pub envelope_json : Option String

-- the columns of `changes` that an insert gives
pub record NewChange : Type 0 where
  pub object_id : String
  pub namespace : String
  pub revision : ℤ
  pub device_id : String
  pub modified_at : String
  pub deleted : ℕ

-- `cursor` is the rowid, which AUTOINCREMENT assigns from 1 on
pub record ChangeRow : Type 0 where
  pub cursor : ℕ
  pub columns : NewChange
  pub open columns use *

-- `changes` is in the order of insertion, and `sequence` is the largest rowid ever assigned.
pub record Tables : Type 0 where
  pub devices : Table DeviceRow
  pub objects : Table ObjectRow
  pub changes : List ChangeRow
  pub sequence : ℕ

abbrev pub no_rows : Tables
no_rows = record { devices = []; objects = []; changes = []; sequence = 0 }

pub data Statement : Type 0 where
  begin commit ping : Statement
  select_device insert_device update_device select_devices : Statement
  select_object insert_change upsert_object update_object select_changes : Statement

abbrev pub Tx : Type 0 → Type 0
Tx A = Tables → Result ApiError (A × Tables)

abbrev pub pure : {A : Type 0} → A → Tx A
pure a t = ok (a, t)

abbrev pub lift : {A : Type 0} → Result ApiError A → Tx A
lift (ok a) t = ok (a, t)
lift (err e) t = err e

infixl 5 ◌>>=◌ ◌>>◌
abbrev pub ◌>>=◌ : {A B : Type 0} → Tx A → (A → Tx B) → Tx B
◌>>=◌ m f t = elim (m t) [ ok r ↦ f r.0 r.1 | err e ↦ err e ]

abbrev pub ◌>>◌ : {B : Type 0} → Tx (Unit {0}) → Tx B → Tx B
m >> n = m >>= λ _. n

-- what the schema demands of a statement
abbrev pub constraint : Bool → Tx (Unit {0})
constraint true t = ok (tt, t)
constraint false t = err database_error

-- `execute` or `fetch` of one statement, with `map_err(database_error)`
abbrev pub attempt : (Statement → Bool) → Statement → Tx (Unit {0})
attempt fails k = constraint (not (fails k))

abbrev pub is_row : {V : Type 0} → Option V → Bool
is_row none = false
is_row (some _) = true

abbrev pub is_positive : ℤ → Bool
is_positive (pos n) = ltb 0 n
is_positive (negsuc n) = false

-- SELECT revoked_at FROM devices WHERE id = ?
unfoldable pub fetch_device : (Statement → Bool) → String → Tx (Option DeviceRow)
fetch_device fails id = do attempt fails Statement.select_device; (λ t. ok (lookup id t.devices, t))

-- SELECT … FROM objects WHERE id = ?
unfoldable pub fetch_object : (Statement → Bool) → String → Tx (Option ObjectRow)
fetch_object fails id = do attempt fails Statement.select_object; (λ t. ok (lookup id t.objects, t))

-- The row is appended under the next rowid, which is the result: `last_insert_rowid()`.
abbrev append_change : NewChange → Tx ℤ
append_change row t = ok (
  pos (t.sequence + 1),
  record t {
    changes = t.changes ++ record { cursor = t.sequence + 1; columns = row } ∷ [];
    sequence = t.sequence + 1;
  },
)

-- INSERT INTO changes; a rowid stops at i64::MAX, and `device_id` references a device
unfoldable pub record_change : (Statement → Bool) → NewChange → Tx ℤ
record_change fails row = do
  attempt fails Statement.insert_change
  (λ t. constraint (ltb t.sequence i64_max && is_row (lookup row.device_id t.devices)) t)
  append_change row

-- a write to `objects` under the CHECK and REFERENCES constraints of the schema
abbrev write_object : String → ObjectRow → Tx (Unit {0})
write_object id row = do
  constraint (is_positive row.revision && is_positive row.cursor)
  (λ t. constraint (is_row (lookup row.device_id t.devices)) t)
  (λ t. ok (tt, record t { objects = insert id row t.objects }))

-- INSERT INTO objects … ON CONFLICT(id) DO UPDATE SET …
unfoldable pub store_object : (Statement → Bool) → String → ObjectRow → Tx (Unit {0})
store_object fails id row = do attempt fails Statement.upsert_object; write_object id row

-- UPDATE objects SET … WHERE id=?, of the row `old` that the transaction has read under `id`
unfoldable pub replace_object : (Statement → Bool) → String → ObjectRow → Tx (Unit {0})
replace_object fails id row = do attempt fails Statement.update_object; write_object id row

-- Inversion of a successful bind.
pub >>=-eq-ok :
    {A B : Type 0} (m : Tx A) (f : A → Tx B) (t : Tables) (r : B × Tables)
    → (m >>= f) t ≡ ok r
    → (a : A × Tables) × (m t ≡ ok a) × (f a.0 a.1 ≡ ok r)
>>=-eq-ok m f t r h = elim (Result-cases (m t)) [
  | inl (e, p) ↦ absurd (ground arith)
  | inr (a, p) ↦ (a, p, ground arith)
]
