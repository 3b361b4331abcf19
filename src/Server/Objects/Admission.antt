-- ===== src/Server/Objects/Admission.antt =====
-- api.rs: when `put_object_tx` and `delete_object_tx` accept a write, said of the rows and of the
-- request alone, without the checks of the code.
use Prim.Native.String.{len}
use helium_sync.Prelude.{
  ℕ, suc, ◌+◌, ◌*◌, ◌≤◌, ◌<◌, ◌≡◌, ◌≢◌, refl, subst, pos, Bool, false, Bool-cases, inl, inr, arith,
  String, eq_iff, str_eq, Option, Option-cases, none, some, ok, length, i64_max,
}
use helium_sync.Prelude.Table.{lookup}
use helium_sync.Common.Types.{ObjectId, SyncObject, PutObjectRequest, DeleteObjectRequest}
use helium_sync.Common.Codec.{Codec}
use helium_sync.Server.Tables.{DeviceRow, ObjectRow, Tables, Statement}
use helium_sync.Server.Checks.{validate_put, u64_from_i64, checked_next}
use helium_sync.Server.Objects.{
  next_revision, deleting_revision, active_device, put_object_tx, delete_object_tx,
}
use helium_sync.Server.Objects.Written.{written}
use helium_sync.Server.Objects.Put.{put_row, put_reply, put_object_tx-facts, put_object_tx_total}
use helium_sync.Server.Objects.Delete.{
  tombstone_row, delete_reply, delete_object_tx-facts, delete_object_tx_total,
}

-- the documented limits of a put
pub record IsWellFormed (request : PutObjectRequest) : Type 0 where
  pub named : request.namespace ≢ ""
  pub short : len request.namespace ≤ 128
  pub version : request.envelope.version ≡ 1
  pub algorithm : request.envelope.algorithm ≡ "XCHACHA20-POLY1305"
  pub nonce : length request.envelope.nonce.bytes ≡ 24
  pub size : length request.envelope.ciphertext.bytes ≤ 4 * 1024 * 1024

-- The device has a row, which nobody has revoked.
abbrev pub IsActive : String → Tables → Type 0
IsActive key t = (row : DeviceRow) × (lookup key t.devices ≡ some row) × (row.revoked_at ≡ none)

-- The base names the stored revision, or the absence of the object; the revision is the next one.
pub data IsNext : Option ObjectRow → Option ℕ → ℕ → Type 0 where
  first : IsNext none none 1
  later : (row : ObjectRow) (n : ℕ) → row.revision ≡ pos n → IsNext (some row) (some n) (suc n)

pub record IsAdmittedPut (c : Codec) (id : ObjectId) (request : PutObjectRequest) (t : Tables)
    (revision : ℕ) (modified_at envelope_json : String) : Type 0 where
  pub well_formed : IsWellFormed request
  pub active : IsActive (c.uuid_text request.device_id.uuid) t
  pub next : IsNext (lookup (c.uuid_text id.uuid) t.objects) request.base_revision revision
  pub in_range : revision ≤ i64_max
  pub room : t.sequence < i64_max
  pub time : c.format_time request.modified_at.instant ≡ some modified_at
  pub envelope : c.envelope_text request.envelope ≡ some envelope_json

pub record IsAdmittedDelete (c : Codec) (id : ObjectId) (request : DeleteObjectRequest) (t : Tables)
    (row : ObjectRow) (modified_at : String) : Type 0 where
  pub found : lookup (c.uuid_text id.uuid) t.objects ≡ some row
  pub active : IsActive (c.uuid_text request.device_id.uuid) t
  pub current : row.revision ≡ pos request.base_revision
  pub in_range : suc request.base_revision ≤ i64_max
  pub room : t.sequence < i64_max
  pub time : c.format_time request.modified_at.instant ≡ some modified_at

-- The put was admitted, and has written one row and one change at the next revision and cursor.
abbrev pub WasPut : Codec → ObjectId → PutObjectRequest → Tables → SyncObject × Tables → Type 0
WasPut c id request t r =
    (n : ℕ) × (modified_at : String) × (envelope_json : String) × IsAdmittedPut c id request t n
      modified_at envelope_json
    × (r ≡ (
      put_reply id request n (t.sequence + 1),
      written t (c.uuid_text id.uuid)
          (put_row c request n (t.sequence + 1) modified_at envelope_json),
    ))

-- The same of a delete, with a tombstone at the revision after the base.
abbrev pub WasDeleted :
    Codec → ObjectId → DeleteObjectRequest → Tables → SyncObject × Tables → Type 0
WasDeleted c id request t r =
    (row : ObjectRow) × (modified_at : String) × IsAdmittedDelete c id request t row modified_at
    × (r ≡ (
      delete_reply id request row (suc request.base_revision) (t.sequence + 1),
      written t (c.uuid_text id.uuid)
          (tombstone_row c request row (suc request.base_revision) (t.sequence + 1) modified_at),
    ))

validate_put-IsWellFormed :
    (request : PutObjectRequest) → validate_put request ≡ ok tt → IsWellFormed request
unfolding validate_put
validate_put-IsWellFormed request h =
    let name = eq_iff request.namespace "" in
    let algorithm = eq_iff request.envelope.algorithm "XCHACHA20-POLY1305" in
    record {
      named = λ e. ground (arith, name.1 e);
      short = ground arith;
      version = ground arith;
      algorithm = algorithm.0 (ground arith);
      nonce = ground arith;
      size = ground arith;
    }

IsWellFormed-validate_put :
    (request : PutObjectRequest) → IsWellFormed request → validate_put request ≡ ok tt
unfolding validate_put
IsWellFormed-validate_put request v =
    let algorithm = (eq_iff request.envelope.algorithm "XCHACHA20-POLY1305").1 v.algorithm in
    let short = v.short in
    let version = v.version in
    let nonce = v.nonce in
    let size = v.size in
    elim (Bool-cases (str_eq request.namespace "")) [
      | inl empty ↦ absurd (v.named ((eq_iff request.namespace "").0 empty))
      | inr other ↦ ground arith
    ]

active_device-IsActive :
    (key : String) (t : Tables) → active_device (lookup key t.devices) ≡ ok tt → IsActive key t
unfolding active_device
active_device-IsActive key t h = elim (Option-cases (lookup key t.devices)) [
  | inl missing ↦ absurd (ground arith)
  | inr (row, found) ↦ (row, found, ground arith)
]

IsActive-active_device :
    (key : String) (t : Tables) → IsActive key t → active_device (lookup key t.devices) ≡ ok tt
unfolding active_device
IsActive-active_device key t (row, found, unrevoked) = rw (found, active_device, unrevoked) refl

next_revision-IsNext :
    (o : Option ObjectRow) (base : Option ℕ) (n : ℕ) → next_revision o base ≡ ok n → IsNext o base n
unfolding next_revision u64_from_i64 checked_next
next_revision-IsNext none none n h = subst (IsNext none none) (ground arith) IsNext.first
next_revision-IsNext none (some b) n h = absurd (ground arith)
next_revision-IsNext (some row) none n h = absurd (ground arith)
next_revision-IsNext (some row) (some b) n h =
    subst (IsNext (some row) (some b)) (ground arith) (IsNext.later row b (ground arith))

IsNext-next_revision :
    (o : Option ObjectRow) (base : Option ℕ) (n : ℕ)
    → IsNext o base n
    → n ≤ i64_max
    → (next_revision o base ≡ ok n) × (0 < n)
unfolding next_revision u64_from_i64 checked_next
IsNext-next_revision _ _ _ IsNext.first small = (refl, omega arith)
IsNext-next_revision _ _ _ (IsNext.later row n stored) small = (ground arith, omega arith)

deleting_revision_next :
    (row : ObjectRow) (base n : ℕ)
    → deleting_revision row base ≡ ok n
    → (row.revision ≡ pos base) × (n ≡ suc base)
unfolding deleting_revision u64_from_i64 checked_next
deleting_revision_next row base n h = (ground arith, ground arith)

next_deleting_revision :
    (row : ObjectRow) (base : ℕ)
    → row.revision ≡ pos base
    → suc base ≤ i64_max
    → deleting_revision row base ≡ ok (suc base)
unfolding deleting_revision u64_from_i64 checked_next
next_deleting_revision row base stored small = ground arith

module _ (c : Codec) (fails : Statement → Bool) (id : ObjectId) (t : Tables) where
  -- A put that returns was admitted: namespace, envelope and ciphertext keep their limits, the
  -- device has a row that is not revoked, the base is the stored revision, or nothing where the
  -- object is not stored, and the next revision and the cursor fit i64. It has written exactly one
  -- change and one object row, at revision 1 or the one after the base and at the next cursor, and
  -- the object that it returns says the same.
  pub put_object_tx-IsAdmittedPut :
      (request : PutObjectRequest) (r : SyncObject × Tables)
      → put_object_tx c fails id request t ≡ ok r
      → WasPut c id request t r
  put_object_tx-IsAdmittedPut request r h =
      let f = put_object_tx-facts c fails id request t r h in
      let reply = f.reply in
      let tables = f.tables in
      (
        f.revision,
        f.modified_at,
        f.envelope_json,
        record {
          well_formed = validate_put-IsWellFormed request f.valid;
          active = active_device-IsActive (c.uuid_text request.device_id.uuid) t f.active;
          next =
              next_revision-IsNext (lookup (c.uuid_text id.uuid) t.objects) request.base_revision
                f.revision f.revision_ok;
          in_range = f.in_range;
          room = f.room;
          time = f.time_ok;
          envelope = f.envelope_ok;
        },
        ground arith,
      )

  -- Every admitted put succeeds, if the database executes the statements, with this one change and
  -- this one row: a put within the limits, by a device with a row that is not revoked, whose base
  -- is the stored revision, or nothing where the object is not stored, where the next revision and
  -- the cursor fit i64, and time and envelope have texts.
  pub put_object_tx_admitted :
      (request : PutObjectRequest) (n : ℕ) (modified_at envelope_json : String)
      → IsAdmittedPut c id request t n modified_at envelope_json
      → ((s : Statement) → fails s ≡ false)
      → put_object_tx c fails id request t
        ≡ ok (
          put_reply id request n (t.sequence + 1),
          written t
              (c.uuid_text id.uuid)
              (put_row c request n (t.sequence + 1) modified_at envelope_json),
        )
  put_object_tx_admitted request n modified_at envelope_json a up =
      let (next, positive) =
        IsNext-next_revision (lookup (c.uuid_text id.uuid) t.objects) request.base_revision n a.next
          a.in_range in
      put_object_tx_total c fails id request t (IsWellFormed-validate_put request a.well_formed)
        (IsActive-active_device (c.uuid_text request.device_id.uuid) t a.active) next positive
        a.in_range a.room a.time a.envelope up

  -- A delete that returns has found the row of its object at the revision of its base, comes from
  -- a device with a row that is not revoked, and has written exactly one tombstone, in the
  -- namespace of the row, and one change, at the revision after the base and the next cursor; the
  -- object that it returns says the same.
  pub delete_object_tx-IsAdmittedDelete :
      (request : DeleteObjectRequest) (r : SyncObject × Tables)
      → delete_object_tx c fails id request t ≡ ok r
      → WasDeleted c id request t r
  delete_object_tx-IsAdmittedDelete request r h =
      let (row, found, f) = delete_object_tx-facts c fails id request t r h in
      let (current, n) =
        deleting_revision_next row request.base_revision f.revision f.revision_ok in
      let reply = f.reply in
      let tables = f.tables in
      let in_range = f.in_range in
      (
        row,
        f.modified_at,
        record {
          found = found;
          active = active_device-IsActive (c.uuid_text request.device_id.uuid) t f.active;
          current = current;
          in_range = ground arith;
          room = f.room;
          time = f.time_ok;
        },
        ground arith,
      )

  -- Every delete whose base is the revision of the stored row, by a device with a row that is not
  -- revoked, where the next revision and the cursor fit i64 and the time has a text, succeeds with
  -- this tombstone and this change, if the database executes the statements.
  pub delete_object_tx_admitted :
      (request : DeleteObjectRequest) (row : ObjectRow) (modified_at : String)
      → IsAdmittedDelete c id request t row modified_at
      → ((s : Statement) → fails s ≡ false)
      → delete_object_tx c fails id request t
        ≡ ok (
          delete_reply id request row (suc request.base_revision) (t.sequence + 1),
          written t (c.uuid_text id.uuid) (
              tombstone_row c request row (suc request.base_revision) (t.sequence + 1) modified_at),
        )
  delete_object_tx_admitted request row modified_at a up =
      delete_object_tx_total c fails id request t
        (IsActive-active_device (c.uuid_text request.device_id.uuid) t a.active) a.found
        (next_deleting_revision row request.base_revision a.current a.in_range) (omega arith)
        a.in_range a.room a.time up
