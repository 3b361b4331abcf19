-- ===== src/Server/Devices.antt =====
-- api.rs: registering, listing and revoking devices.
use Prim.Native.String.{len}
use helium_sync.Prelude.{
  Bool, true, false, not, ◌&&◌, ◌||◌, ltb, str_eq, if◌then◌else◌, String, Option, none, some, List,
  [], ◌∷◌, Result, ok, err, transpose,
}
use helium_sync.Prelude.Fallible
use helium_sync.Prelude.Table.{Table, lookup, insert}
use helium_sync.Prelude.Trim.{trim, text_leb}
use helium_sync.Common.Types.{DeviceId, Timestamp, Device, RegisterDeviceRequest}
use helium_sync.Common.Codec.{Codec}
use helium_sync.Server.Errors.{ApiError, api_error}
use helium_sync.Server.Tables.{
  DeviceRow, Tables, Statement, Tx, ◌>>◌, constraint, attempt, is_row, fetch_device,
}
use helium_sync.Server.Checks.{timestamp_string, parse_timestamp, parse_uuid}
use helium_sync.Prelude.Step.{Step, ◌>>=◌, give}

-- A handler without a transaction goes from statement to statement, and an error keeps what the
-- statements before it have written.
abbrev pub Handler : Type 0 → Type 0
Handler A = Step ApiError Tables A

-- one statement on the pool, which commits by itself; one that fails changes nothing
unfoldable pub autocommit : {A : Type 0} → Tx A → Handler A
autocommit statement t = elim (statement t) [ ok r ↦ (ok r.0, r.1) | err e ↦ (err e, t) ]

abbrev is_unrevoked : DeviceRow → Bool
is_unrevoked row = not (is_row row.revoked_at)

-- INSERT INTO devices (id, name, created_at) VALUES (?, ?, ?); `id` is the primary key
unfoldable pub add_device : (Statement → Bool) → String → DeviceRow → Tx (Unit {0})
add_device fails id row =
    attempt fails Statement.insert_device
    >> (λ t. constraint (not (is_row (lookup id t.devices))) t)
    >> (λ t. ok (tt, record t { devices = insert id row t.devices }))

-- UPDATE devices SET revoked_at = ? WHERE id = ? AND revoked_at IS NULL; the rows affected
abbrev revoke_row : String → String → Option DeviceRow → Tables → Bool × Tables
revoke_row id when none t = (false, t)
revoke_row id when (some row) t =
    if is_unrevoked row
    then (true, record t { devices = insert id (record row { revoked_at = some when }) t.devices })
    else (false, t)

unfoldable pub mark_revoked : (Statement → Bool) → String → String → Tx Bool
mark_revoked fails id when =
    attempt fails Statement.update_device >> (λ t. ok (revoke_row id when (lookup id t.devices) t))

module _ (c : Codec) (fails : Statement → Bool) (now : Timestamp) where
  -- Beside the device: whether it was created (201) or was there already (200).
  abbrev found_device : DeviceId → String → DeviceRow → Result ApiError (Bool × Device)
  found_device id name row =
      if str_eq row.name name && is_unrevoked row
      then Fallible.◌>>=◌ (parse_timestamp c row.created_at) (λ created_at.
        ok (false, record { id = id; name = row.name; created_at = created_at; revoked_at = none }))
      else err (api_error 409 "device_exists")

  abbrev new_device : DeviceId → String → Handler (Bool × Device)
  new_device id name = give (timestamp_string c now) >>= λ created_at.
      autocommit (
        add_device fails (c.uuid_text id.uuid)
          (record { name = name; created_at = created_at; revoked_at = none }))
      >>= λ _.
          give (ok (true, record { id = id; name = name; created_at = now; revoked_at = none }))

  abbrev device_or_new : DeviceId → String → Option DeviceRow → Handler (Bool × Device)
  device_or_new id name (some row) = give (found_device id name row)
  device_or_new id name none = new_device id name

  unfoldable pub register_device : RegisterDeviceRequest → Handler (Bool × Device)
  unfolding autocommit
  register_device request =
      let name = trim request.name in
      if str_eq name "" || ltb 128 (len name)
      then give (err (api_error 422 "invalid_device_name"))
      else (autocommit (fetch_device fails (c.uuid_text request.id.uuid))
          >>= device_or_new request.id name)

  abbrev revoked : Bool → Result ApiError (Unit {0})
  revoked affected = if affected then ok tt else err (api_error 404 "device_not_found")

  unfoldable pub revoke_device : DeviceId → Handler (Unit {0})
  unfolding autocommit
  revoke_device id = give (timestamp_string c now) >>= λ revoked_at.
      autocommit (mark_revoked fails (c.uuid_text id.uuid) revoked_at) >>= λ affected.
      give (revoked affected)

-- ORDER BY created_at, id
abbrev row_leb : String × DeviceRow → String × DeviceRow → Bool
row_leb (i, a) (j, b) =
    if str_eq a.created_at b.created_at then text_leb i j else text_leb a.created_at b.created_at

abbrev insert_row : String × DeviceRow → Table DeviceRow → Table DeviceRow
insert_row r [] = r ∷ []
insert_row r (s ∷ rest) =
    let later = insert_row r rest in if row_leb r s then r ∷ s ∷ rest else s ∷ later

unfoldable pub order_devices : Table DeviceRow → Table DeviceRow
order_devices [] = []
order_devices (r ∷ rest) = insert_row r (order_devices rest)

unfoldable pub row_to_device : Codec → String × DeviceRow → Result ApiError Device
row_to_device c (key, row) = Fallible.◌>>=◌ (parse_uuid c key) λ id.
    Fallible.◌>>=◌ (parse_timestamp c row.created_at) λ created_at.
      Fallible.◌>>=◌ (transpose (parse_timestamp c) row.revoked_at) λ revoked_at. ok (record {
        id = record { uuid = id };
        name = row.name;
        created_at = created_at;
        revoked_at = revoked_at;
      })

-- `iter().map(f).collect::<Result<Vec<_>, _>>()`
unfoldable pub collect {ℓ κ} :
    {A : Type ℓ} {B : Type κ} → (A → Result ApiError B) → List A → Result ApiError (List B)
collect f [] = ok []
collect f (x ∷ xs) = Fallible.◌>>=◌ (f x) λ y. Fallible.◌>>=◌ (collect f xs) λ ys. ok (y ∷ ys)

unfoldable pub list_devices : Codec → (Statement → Bool) → Tables → Result ApiError (List Device)
list_devices c fails t =
    Fallible.◌>>=◌ (attempt fails Statement.select_devices t)
      λ _. collect (row_to_device c) (order_devices t.devices)
