-- ===== src/Server/Objects/Readback.antt =====
-- What `get_object` (api.rs) answers after a write.
use helium_sync.Prelude.{String, String, Bool, ℕ, ◌+◌, ◌≡◌, false, some, ok, arith}
use helium_sync.Prelude.Table.{lookup-insert_self}
use helium_sync.Common.Types.{ObjectId, SyncObject, PutObjectRequest, DeleteObjectRequest}
use helium_sync.Common.Codec.{Codec, ReadsBack}
use helium_sync.Server.Tables.{ObjectRow, Tables, Statement, fetch_object}
use helium_sync.Server.Checks.{row_to_object}
use helium_sync.Server.Objects.{put_object_tx, delete_object_tx, get_object}
use helium_sync.Server.Objects.Written.{written}
use helium_sync.Server.Objects.Put.{put_object_tx-facts, put_row, put_reply}
use helium_sync.Server.Objects.Delete.{delete_object_tx-facts, tombstone_row, delete_reply}

module _ (c : Codec) (laws : ReadsBack c) (up : Statement → Bool)
    (reads : up Statement.select_object ≡ false) where
  get_written :
      (id : ObjectId) (t : Tables) (row : ObjectRow) (o : SyncObject)
      → row_to_object c (c.uuid_text id.uuid) row ≡ ok o
      → get_object c up id (written t (c.uuid_text id.uuid) row) ≡ ok o
  unfolding get_object fetch_object
  get_written id t row o h = ground (arith, lookup-insert_self (c.uuid_text id.uuid) row t.objects)

  row_to_object-put_row :
      (id : ObjectId) (request : PutObjectRequest) (n k : ℕ) (when json : String)
      → c.format_time request.modified_at.instant ≡ some when
      → c.envelope_text request.envelope ≡ some json
      → row_to_object c (c.uuid_text id.uuid) (put_row c request n k when json)
        ≡ ok (put_reply id request n k)
  unfolding row_to_object
  row_to_object-put_row id request n k when json time envelope = ground (
    arith,
    laws.uuid id.uuid,
    laws.uuid request.device_id.uuid,
    laws.time request.modified_at.instant when time,
    laws.envelope request.envelope json envelope,
  )

  row_to_object-tombstone_row :
      (id : ObjectId) (request : DeleteObjectRequest) (row : ObjectRow) (n k : ℕ) (when : String)
      → c.format_time request.modified_at.instant ≡ some when
      → row_to_object c (c.uuid_text id.uuid) (tombstone_row c request row n k when)
        ≡ ok (delete_reply id request row n k)
  unfolding row_to_object
  row_to_object-tombstone_row id request row n k when time = ground (
    arith,
    laws.uuid id.uuid,
    laws.uuid request.device_id.uuid,
    laws.time request.modified_at.instant when time,
  )

  -- After a put that succeeds, a read of the object that the database executes answers exactly the
  -- object that the put returned, if the codec reads back what it wrote.
  pub get-put :
      (fails : Statement → Bool) (id : ObjectId) (request : PutObjectRequest) (t : Tables)
      (r : SyncObject × Tables)
      → put_object_tx c fails id request t ≡ ok r
      → get_object c up id r.1 ≡ ok r.0
  get-put fails id request t r h =
      let f = put_object_tx-facts c fails id request t r h in
      rw (f.tables, f.reply)
        (get_written id t _ _ (
          row_to_object-put_row id request f.revision (t.sequence + 1) f.modified_at f.envelope_json
            f.time_ok f.envelope_ok))

  -- After a delete that succeeds, a read that the database executes answers the tombstone that the
  -- delete returned, if the codec reads back what it wrote.
  pub get-delete :
      (fails : Statement → Bool) (id : ObjectId) (request : DeleteObjectRequest) (t : Tables)
      (r : SyncObject × Tables)
      → delete_object_tx c fails id request t ≡ ok r
      → get_object c up id r.1 ≡ ok r.0
  get-delete fails id request t r h =
      let (row, found, f) = delete_object_tx-facts c fails id request t r h in
      rw (f.tables, f.reply)
        (get_written id t _ _ (
          row_to_object-tombstone_row id request row f.revision (t.sequence + 1) f.modified_at
            f.time_ok))
