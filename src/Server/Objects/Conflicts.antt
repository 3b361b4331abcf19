-- ===== src/Server/Objects/Conflicts.antt =====
-- The revision check of `put_object_tx` (api.rs).
use helium_sync.Prelude.{
  String, String, Bool, refl, sym, ap, ◌∙◌, ℕ, ◌+◌, ◌≡◌, ◌≢◌, false, Option, none, some, ok, err,
  arith, pos, i64_max,
}
use helium_sync.Prelude.Table.{lookup, lookup-insert_self}
use helium_sync.Common.Types.{ObjectId, SyncObject, PutObjectRequest}
use helium_sync.Common.Codec.{Codec}
use helium_sync.Server.Errors.{ApiError, conflict}
use helium_sync.Server.Tables.{ObjectRow, Tables, Statement, fetch_object, fetch_device}
use helium_sync.Server.Checks.{
  validate_put, u64_from_i64, i64_from_u64, checked_next, timestamp_string, numeric_range,
}
use helium_sync.Server.Objects.{active_device, next_revision, ensure_active_device, put_object_tx}
use helium_sync.Server.Objects.Put.{put_object_tx-facts, put_row}

next_revision_stale :
    (row : ObjectRow) (base : Option ℕ) (n k : ℕ)
    → row.revision ≡ pos n
    → row.cursor ≡ pos k
    → base ≢ some n
    → next_revision (some row) base ≡ err (conflict n k)
unfolding next_revision u64_from_i64
next_revision_stale row none n k r q h = ground arith
next_revision_stale row (some m) n k r q h =
    let ne : n ≢ m = λ e. h (ap some (sym e)) in ground arith

next_revision-ne :
    (o : Option ObjectRow) (base : Option ℕ) (n : ℕ) → next_revision o base ≡ ok n → base ≢ some n
unfolding next_revision u64_from_i64 checked_next
next_revision-ne o base n h e = ground arith

module _ (c : Codec) (fails : Statement → Bool) (id : ObjectId) (request : PutObjectRequest)
    (t : Tables) (up : (s : Statement) → fails s ≡ false) (valid : validate_put request ≡ ok tt)
    (active : active_device (lookup (c.uuid_text request.device_id.uuid) t.devices) ≡ ok tt) where
  -- A valid put by an active device gets exactly the error of its revision check.
  put_refused :
      (e : ApiError)
      → next_revision (lookup (c.uuid_text id.uuid) t.objects) request.base_revision ≡ err e
      → put_object_tx c fails id request t ≡ err e
  unfolding put_object_tx ensure_active_device fetch_device fetch_object active_device
  put_refused e h = ground (arith, up Statement.select_device, up Statement.select_object)

  -- A valid put by an active device whose base is not the current revision of a stored object is
  -- refused, if the database executes its statements, and the conflict names the current revision
  -- and cursor.
  pub put_stale :
      (row : ObjectRow) (n k : ℕ)
      → lookup (c.uuid_text id.uuid) t.objects ≡ some row
      → row.revision ≡ pos n
      → row.cursor ≡ pos k
      → request.base_revision ≢ some n
      → put_object_tx c fails id request t ≡ err (conflict n k)
  put_stale row n k found rev cur stale =
      put_refused (conflict n k)
        (rw found (next_revision_stale row request.base_revision n k rev cur stale))

  -- At the last revision that SQLite can hold, a valid put by an active device with the right
  -- base, whose time has a text, fails with the range error of the column, if the database
  -- executes its statements.
  pub put_at_last_revision :
      (row : ObjectRow) (when : String)
      → lookup (c.uuid_text id.uuid) t.objects ≡ some row
      → row.revision ≡ pos i64_max
      → request.base_revision ≡ some i64_max
      → c.format_time request.modified_at.instant ≡ some when
      → put_object_tx c fails id request t ≡ err numeric_range
  unfolding put_object_tx ensure_active_device fetch_device fetch_object active_device next_revision
      u64_from_i64 checked_next timestamp_string i64_from_u64
  put_at_last_revision row when found rev base time =
      ground (arith, up Statement.select_device, up Statement.select_object)

-- Of two puts with one base, only the first is applied: once a put has succeeded, any valid put of
-- that object with the same base, from whatever active device, is refused with the revision and
-- cursor that the first put got, if the database executes its statements.
pub put_twice :
    (c : Codec) (fails fails' : Statement → Bool) (id : ObjectId) (first second : PutObjectRequest)
    (t : Tables) (r : SyncObject × Tables)
    → put_object_tx c fails id first t ≡ ok r
    → second.base_revision ≡ first.base_revision
    → ((s : Statement) → fails' s ≡ false)
    → validate_put second ≡ ok tt
    → active_device (lookup (c.uuid_text second.device_id.uuid) r.1.devices) ≡ ok tt
    → put_object_tx c fails' id second r.1 ≡ err (conflict r.0.revision r.0.cursor)
put_twice c fails fails' id first second t r h same up valid active =
    let f = put_object_tx-facts c fails id first t r h in
    let key = c.uuid_text id.uuid in
    let row = put_row c first f.revision (t.sequence + 1) f.modified_at f.envelope_json in
    let found : lookup key r.1.objects ≡ some row =
      ap (λ (u : Tables). lookup key u.objects) f.tables ∙ lookup-insert_self key row t.objects in
    let moved : second.base_revision ≢ some f.revision = λ e.
      next_revision-ne (lookup key t.objects) first.base_revision f.revision f.revision_ok
        (sym same ∙ e) in
    rw f.reply (
      put_stale c fails' id second r.1 up valid active row f.revision (t.sequence + 1) found refl
        refl moved)
