-- ===== src/Tests/Server.antt =====
-- Runs of the server (api.rs) on a small world, and its theorems at concrete inputs.
use helium_sync.Prelude.{
  ℕ, ◌≡◌, refl, Bool, false, pos, Option, none, some, [], ◌∷◌, ok, err, i64_max, arith,
}
use helium_sync.Prelude.Table.{lookup, insert}
use helium_sync.Common.Types.{ObjectId, DeviceId, PutObjectRequest, DeleteObjectRequest, SyncObject}
use helium_sync.Server.Errors.{conflict}
use helium_sync.Server.Tables.{
  ObjectRow, Tables, Statement, fetch_device, fetch_object, record_change, store_object,
  replace_object,
}
use helium_sync.Server.Checks.{
  validate_put, i64_from_u64, u64_from_i64, checked_next, timestamp_string, numeric_range,
}
use helium_sync.Server.Objects.{
  active_device, next_revision, deleting_revision, ensure_active_device, put_object_tx,
  delete_object_tx, get_object,
}
use helium_sync.Server.Objects.Written.{written}
use helium_sync.Server.Objects.Put.{put_row, put_reply}
use helium_sync.Server.Objects.Delete.{tombstone_row, delete_reply}
use helium_sync.Server.Objects.Conflicts.{put_stale, put_at_last_revision, put_twice}
use helium_sync.Server.Objects.Readback.{get-put, get-delete}
use helium_sync.Server.Objects.Admission.{
  IsAdmittedPut, IsAdmittedDelete, IsNext, WasPut, WasDeleted, put_object_tx-IsAdmittedPut,
  put_object_tx_admitted, delete_object_tx-IsAdmittedDelete, delete_object_tx_admitted,
}
use helium_sync.Tests.Codec.{
  sample_codec, sample_codec-ReadsBack, sample_envelope, unary, sample_text, is_sample,
}
use helium_sync.Server.Auth.{ct_eq}

abbrev pub up : Statement → Bool
up s = false

abbrev pub alice : DeviceId
alice = record { uuid = 0 }

abbrev pub note_id : ObjectId
note_id = record { uuid = 2 }

abbrev pub with_device : Tables
with_device = record {
  devices = ("", record { name = "alice"; created_at = "1"; revoked_at = none }) ∷ [];
  objects = [];
  changes = [];
  sequence = 0;
}

abbrev pub put_request : Option ℕ → PutObjectRequest
put_request base = record {
  namespace = "bookmarks";
  base_revision = base;
  device_id = alice;
  modified_at = record { instant = 3 };
  envelope = sample_envelope;
}

abbrev pub first_row : ObjectRow
first_row = put_row sample_codec (put_request none) 1 1 "111" "sample"

abbrev pub with_object : Tables
with_object = written with_device "11" first_row

abbrev pub first_reply : SyncObject
first_reply = put_reply note_id (put_request none) 1 1

abbrev second_row : ObjectRow
second_row = put_row sample_codec (put_request (some 1)) 2 2 "111" "sample"

abbrev delete_request : DeleteObjectRequest
delete_request = record {
  base_revision = 1;
  device_id = alice;
  modified_at = record { instant = 4 };
}

abbrev grave : ObjectRow
grave = tombstone_row sample_codec delete_request first_row 2 2 "1111"

pub first_put :
    put_object_tx sample_codec up note_id (put_request none) with_device
    ≡ ok (first_reply, with_object)
unfolding put_object_tx ensure_active_device fetch_device fetch_object record_change store_object
    timestamp_string i64_from_u64 u64_from_i64 checked_next validate_put next_revision active_device
    lookup insert unary sample_text is_sample ct_eq
first_put = refl

-- the row after a put, at the last revision
abbrev full : Tables
full = record with_object { objects = ("11", record first_row { revision = pos i64_max }) ∷ [] }

first_delete :
    delete_object_tx sample_codec up note_id delete_request with_object
    ≡ ok (delete_reply note_id delete_request first_row 2 2, written with_object "11" grave)
unfolding delete_object_tx deleting_revision replace_object put_object_tx ensure_active_device
    fetch_device fetch_object record_change store_object timestamp_string i64_from_u64 u64_from_i64
    checked_next validate_put next_revision active_device lookup insert unary sample_text is_sample
    ct_eq
first_delete = refl

valid_request : (base : Option ℕ) → validate_put (put_request base) ≡ ok tt
unfolding validate_put
valid_request base = refl

active_alice : active_device (lookup "" with_object.devices) ≡ ok tt
unfolding active_device lookup
active_alice = refl

put_object_tx-IsAdmittedPut_example :
    WasPut sample_codec note_id (put_request none) with_device (first_reply, with_object)
put_object_tx-IsAdmittedPut_example =
    put_object_tx-IsAdmittedPut sample_codec up note_id with_device (put_request none)
      (first_reply, with_object) first_put

second_next : IsNext (lookup "11" with_object.objects) (some 1) 2
unfolding lookup insert
second_next = IsNext.later first_row 1 refl

second_admitted :
    IsAdmittedPut sample_codec note_id (put_request (some 1)) with_object 2 "111" "sample"
unfolding lookup unary sample_text is_sample ct_eq
second_admitted = record {
  well_formed = record {
    named = λ e. cc;
    short = omega arith;
    version = refl;
    algorithm = refl;
    nonce = refl;
    size = omega arith;
  };
  active = (record { name = "alice"; created_at = "1"; revoked_at = none }, refl, refl);
  next = second_next;
  in_range = omega arith;
  room = omega arith;
  time = refl;
  envelope = refl;
}

sample_envelope_text : sample_text sample_envelope ≡ some "sample"
unfolding sample_text is_sample ct_eq
sample_envelope_text = refl

put_object_tx_admitted_example :
    put_object_tx sample_codec up note_id (put_request (some 1)) with_object
    ≡ ok (put_reply note_id (put_request (some 1)) 2 2, written with_object "11" second_row)
unfolding unary
put_object_tx_admitted_example =
    put_object_tx_admitted sample_codec up note_id with_object (put_request (some 1)) 2 "111"
      "sample" second_admitted (λ s. refl)

put_twice_example :
    put_object_tx sample_codec up note_id (put_request none) with_object ≡ err (conflict 1 1)
unfolding unary
put_twice_example =
    put_twice sample_codec up up note_id (put_request none) (put_request none) with_device
      (first_reply, with_object) first_put refl (λ s. refl) (valid_request none) active_alice

found_first : lookup "11" with_object.objects ≡ some first_row
unfolding lookup insert
found_first = refl

put_stale_example :
    put_object_tx sample_codec up note_id (put_request (some 7)) with_object ≡ err (conflict 1 1)
unfolding unary
put_stale_example =
    put_stale sample_codec up note_id (put_request (some 7)) with_object (λ s. refl)
      (valid_request (some 7)) active_alice first_row 1 1 found_first refl refl
      (λ e. ground (arith, e))

full_row : lookup "11" full.objects ≡ some (record first_row { revision = pos i64_max })
unfolding lookup
full_row = refl

put_at_last_revision_example :
    put_object_tx sample_codec up note_id (put_request (some i64_max)) full ≡ err numeric_range
unfolding unary
put_at_last_revision_example =
    put_at_last_revision sample_codec up note_id (put_request (some i64_max)) full (λ s. refl)
      (valid_request (some i64_max)) active_alice (record first_row { revision = pos i64_max })
      "111" full_row refl refl refl

get-put_example : get_object sample_codec up note_id with_object ≡ ok first_reply
get-put_example =
    get-put sample_codec sample_codec-ReadsBack up refl up note_id (put_request none) with_device
      (first_reply, with_object) first_put

get-delete_example :
    get_object sample_codec up note_id (written with_object "11" grave)
    ≡ ok (delete_reply note_id delete_request first_row 2 2)
get-delete_example =
    get-delete sample_codec sample_codec-ReadsBack up refl up note_id delete_request with_object
      (delete_reply note_id delete_request first_row 2 2, written with_object "11" grave)
      first_delete

delete_object_tx-IsAdmittedDelete_example :
    WasDeleted sample_codec note_id delete_request with_object
      (delete_reply note_id delete_request first_row 2 2, written with_object "11" grave)
delete_object_tx-IsAdmittedDelete_example =
    delete_object_tx-IsAdmittedDelete sample_codec up note_id with_object delete_request
      (delete_reply note_id delete_request first_row 2 2, written with_object "11" grave)
      first_delete

tombstone_admitted :
    IsAdmittedDelete sample_codec note_id delete_request with_object first_row "1111"
unfolding lookup insert unary
tombstone_admitted = record {
  found = refl;
  active = (record { name = "alice"; created_at = "1"; revoked_at = none }, refl, refl);
  current = refl;
  in_range = omega arith;
  room = omega arith;
  time = refl;
}

delete_object_tx_admitted_example :
    delete_object_tx sample_codec up note_id delete_request with_object
    ≡ ok (delete_reply note_id delete_request first_row 2 2, written with_object "11" grave)
unfolding unary
delete_object_tx_admitted_example =
    delete_object_tx_admitted sample_codec up note_id with_object delete_request first_row "1111"
      tombstone_admitted (λ s. refl)
