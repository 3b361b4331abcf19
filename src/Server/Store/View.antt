-- ===== src/Server/Store/View.antt =====
-- The store that the tables stand for, and the writes of api.rs as its writes.
use mathlib.Core.Path.{fun_ext}
use mathlib.Core.List.{map-append}
use helium_sync.Prelude.{
  List, [], ◌∷◌, ◌++◌, map, ℕ, suc, ◌+◌, ◌≡◌, ap, ◌∙◌, Option, none, some, String, str_eq, ok,
  arith, Bool, Bool-cases, inl, inr,
}
use helium_sync.Prelude.Table.{lookup, lookup-insert}
use helium_sync.Common.Types.{
  ObjectId, SyncObject, PutObjectRequest, DeleteObjectRequest, BatchOperation,
}
use helium_sync.Common.Codec.{Codec}
use helium_sync.Server.Tables.{ObjectRow, ChangeRow, Tables, Statement}
use helium_sync.Server.Checks.{u64_from_i64, checked_next}
use helium_sync.Server.Objects.{
  next_revision, deleting_revision, put_object_tx, delete_object_tx, apply_operation,
}
use helium_sync.Server.Objects.Written.{written}
use helium_sync.Server.Objects.Put.{put_row, put_object_tx-facts}
use helium_sync.Server.Objects.Delete.{tombstone_row, delete_object_tx-facts}
use helium_sync.Server.History.{revision_of}
use helium_sync.Server.Store.{Entry, Label, Store, current, after, update, Write}

abbrev pub entry_of : ObjectRow → Entry
entry_of row = record {
  revision = revision_of (some row);
  namespace = row.namespace;
  content = row.envelope_json;
}

abbrev pub entry_or_none : Option ObjectRow → Option Entry
entry_or_none none = none
entry_or_none (some row) = some (entry_of row)

abbrev pub view : Tables → Store
view t key = entry_or_none (lookup key t.objects)

view-written :
    (t : Tables) (key : String) (row : ObjectRow)
    → view (written t key row) ≡ update (view t) key (entry_of row)
view-written t key row = fun_ext (λ at. elim (Bool-cases (str_eq key at)) [
  | inl own ↦ rw (lookup-insert, own)
  | inr other ↦ rw (lookup-insert, other)
])

-- the revision check of a put, on entries
next_revision-current :
    (o : Option ObjectRow) (base : Option ℕ) (n : ℕ)
    → next_revision o base ≡ ok n
    → (base ≡ current (entry_or_none o)) × (n ≡ after base)
unfolding next_revision u64_from_i64 checked_next
next_revision-current o base n h = ground arith

deleting_revision-current :
    (row : ObjectRow) (base n : ℕ)
    → deleting_revision row base ≡ ok n
    → (base ≡ revision_of (some row)) × (n ≡ suc base)
unfolding deleting_revision u64_from_i64 checked_next
deleting_revision-current row base n h = ground arith

-- the keys that the feed names
abbrev pub named : List ChangeRow → List String
named = map (λ row. row.object_id)

-- what an operation asks for
abbrev pub label_of : Codec → BatchOperation → Label
label_of c (BatchOperation.put id request) = record {
  key = c.uuid_text id.uuid;
  namespace = some request.namespace;
  base = request.base_revision;
  content = c.envelope_text request.envelope;
}
label_of c (BatchOperation.delete id request) = record {
  key = c.uuid_text id.uuid;
  namespace = none;
  base = some request.base_revision;
  content = none;
}

-- one write under this label, which the feed has got under its key
abbrev pub Appended : Label → Tables → Tables → Type 0
Appended label t u =
    Write (view t) (view u) label × (named u.changes ≡ named t.changes ++ label.key ∷ [])

names :
    (t : Tables) (key : String) (row : ObjectRow) (u : Tables)
    → u ≡ written t key row
    → named u.changes ≡ named t.changes ++ key ∷ []
names t key row u e = ap (λ (x : Tables). named x.changes) e ∙ map-append _ t.changes _

module _ (c : Codec) (fails : Statement → Bool) (t : Tables) where
  put_object_tx-Write :
      (id : ObjectId) (request : PutObjectRequest) (r : SyncObject × Tables)
      → put_object_tx c fails id request t ≡ ok r
      → Appended (label_of c (BatchOperation.put id request)) t r.1
  put_object_tx-Write id request r h =
      let f = put_object_tx-facts c fails id request t r h in
      let key = c.uuid_text id.uuid in
      let (base, n) = next_revision-current _ request.base_revision f.revision f.revision_ok in
      let row = put_row c request f.revision (t.sequence + 1) f.modified_at f.envelope_json in
      rw f.envelope_ok (
        Write.put key request.namespace f.envelope_json request.base_revision base (
            ap view f.tables
            ∙ view-written t key row
            ∙ ap
                (λ k. update (view t) key (record {
                  revision = k;
                  namespace = request.namespace;
                  content = some f.envelope_json;
                }))
                n),
        names t key row r.1 f.tables,
      )

  delete_object_tx-Write :
      (id : ObjectId) (request : DeleteObjectRequest) (r : SyncObject × Tables)
      → delete_object_tx c fails id request t ≡ ok r
      → Appended (label_of c (BatchOperation.delete id request)) t r.1
  delete_object_tx-Write id request r h =
      let (old, found, f) = delete_object_tx-facts c fails id request t r h in
      let key = c.uuid_text id.uuid in
      let (base, n) =
        deleting_revision-current old request.base_revision f.revision f.revision_ok in
      let row = tombstone_row c request old f.revision (t.sequence + 1) f.modified_at in
      (
        Write.delete key (entry_of old) request.base_revision (ap entry_or_none found) base (
            ap view f.tables
            ∙ view-written t key row
            ∙ ap
                (λ k.
                  update (view t) key
                    (record { revision = k; namespace = old.namespace; content = none }))
                n),
        names t key row r.1 f.tables,
      )

  -- One operation of a batch is one write, and one change of the feed.
  pub apply_operation-Write :
      (operation : BatchOperation) (r : SyncObject × Tables)
      → apply_operation c fails operation t ≡ ok r
      → Appended (label_of c operation) t r.1
  unfolding apply_operation
  apply_operation-Write (BatchOperation.put id request) r h = put_object_tx-Write id request r h
  apply_operation-Write (BatchOperation.delete id request) r h =
      delete_object_tx-Write id request r h
