-- ===== src/Server/History/Steps.antt =====
-- The invariant of the tables (History) along the writes of api.rs.
use helium_sync.Prelude.{ℕ, suc, ◌≡◌, refl, ap, pos, String, Option, none, some, ok, arith, Bool}
use helium_sync.Common.Types.{
  ObjectId, SyncObject, PutObjectRequest, DeleteObjectRequest, BatchOperation,
}
use helium_sync.Common.Codec.{Codec}
use helium_sync.Server.Tables.{ObjectRow, ChangeRow, Tables, Statement}
use helium_sync.Server.Checks.{u64_from_i64, checked_next}
use helium_sync.Server.Objects.{
  next_revision, deleting_revision, put_object_tx, delete_object_tx, apply_operation,
}
use helium_sync.Server.Objects.Put.{put_object_tx-facts}
use helium_sync.Server.Objects.Delete.{delete_object_tx-facts}
use helium_sync.Server.History.{IsConsistent, Agrees, revision_of, written-IsConsistent}

-- a row of consistent tables has a revision that is no negative number
revision_of_agreeing :
    (key : String) (x : Option ChangeRow) (row : ObjectRow)
    → Agrees key x (some row)
    → row.revision ≡ pos (revision_of (some row))
revision_of_agreeing key none row a = absurd a
revision_of_agreeing key (some x) row a = a.2

next_revision-next :
    (o : Option ObjectRow) (base : Option ℕ) (n : ℕ)
    → next_revision o base ≡ ok n
    → n ≡ suc (revision_of o)
unfolding next_revision u64_from_i64 checked_next
next_revision-next o base n h = ground arith

deleting_revision-next :
    (row : ObjectRow) (base n : ℕ)
    → deleting_revision row base ≡ ok n
    → n ≡ suc (revision_of (some row))
unfolding deleting_revision u64_from_i64 checked_next
deleting_revision-next row base n h = ground arith

module _ (c : Codec) (fails : Statement → Bool) (t : Tables) (v : IsConsistent t) where
  pub put_object_tx-IsConsistent :
      (id : ObjectId) (request : PutObjectRequest) (r : SyncObject × Tables)
      → put_object_tx c fails id request t ≡ ok r
      → IsConsistent r.1
  put_object_tx-IsConsistent id request r h =
      let f = put_object_tx-facts c fails id request t r h in
      rw f.tables (
        written-IsConsistent t (c.uuid_text id.uuid) _ v
          (ap pos (next_revision-next _ request.base_revision f.revision f.revision_ok)) refl
          f.room)

  pub delete_object_tx-IsConsistent :
      (id : ObjectId) (request : DeleteObjectRequest) (r : SyncObject × Tables)
      → delete_object_tx c fails id request t ≡ ok r
      → IsConsistent r.1
  delete_object_tx-IsConsistent id request r h =
      let (row, found, f) = delete_object_tx-facts c fails id request t r h in
      rw f.tables (
        written-IsConsistent t (c.uuid_text id.uuid) _ v
          (rw found
            (ap pos (deleting_revision-next row request.base_revision f.revision f.revision_ok)))
          refl f.room)

  pub apply_operation-IsConsistent :
      (operation : BatchOperation) (r : SyncObject × Tables)
      → apply_operation c fails operation t ≡ ok r
      → IsConsistent r.1
  unfolding apply_operation
  apply_operation-IsConsistent (BatchOperation.put id request) r h =
      put_object_tx-IsConsistent id request r h
  apply_operation-IsConsistent (BatchOperation.delete id request) r h =
      delete_object_tx-IsConsistent id request r h
