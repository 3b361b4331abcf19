-- ===== src/Client/State/Sync/Recorded.antt =====
-- state.rs: `save_sync_state` and what `mapping` and `sync_base` read after it.
use helium_sync.Prelude.{
  ℕ, ◌≡◌, ◌≢◌, refl, Bool, true, false, ◌&&◌, ◌≤◌, i64_max, Bool-cases, inl, inr, str_eq, eq_iff,
  eq_refl, String, some, List, Result, ok, err, arith, pos,
}
use helium_sync.Prelude.Rows.{first, upsert, first-upsert, first-upsert_other}
use helium_sync.Common.Types.{ObjectId}
use helium_sync.Common.Codec.{Codec, ReadsBack}
use helium_sync.Client.Errors.{ClientError}
use helium_sync.Client.State.{BaseRow, MappingRow, Database, Statement, lift, to_i64, to_u64}
use helium_sync.Client.State.Sync.{
  SyncKey, maps, is_base, mapping_row, base_row, save_sync_state, sync_base, mapping,
}

-- what a query answers, without the tables
abbrev pub answer : {A : Type 0} → Result ClientError (A × Database) → Result ClientError A
answer (ok r) = ok r.0
answer (err e) = err e

pub answer-lift :
    {A : Type 0} (r : Result ClientError A) (d d' : Database)
    → answer (lift r d) ≡ answer (lift r d')
answer-lift (ok a) d d' = refl
answer-lift (err e) d d' = refl

-- rows of one key are not rows of another
same-key :
    (k other : SyncKey) (server_id namespace local_key : String)
    → ((str_eq server_id k.server_id
          && str_eq namespace k.namespace
          && str_eq local_key k.local_key)
        ≡ true)
    → ((str_eq server_id other.server_id
          && str_eq namespace other.namespace
          && str_eq local_key other.local_key)
        ≡ true)
    → other ≡ k
same-key k other a b c h g =
    let server = eq_iff a k.server_id in
    let namespace = eq_iff b k.namespace in
    let local = eq_iff c k.local_key in
    ground (arith, eq_iff a other.server_id, eq_iff b other.namespace, eq_iff c other.local_key)

module _ (k other : SyncKey) (differs : other ≢ k) where
  maps-other : (row : MappingRow) → maps k row ≡ true → maps other row ≡ false
  maps-other row h = elim (Bool-cases (maps other row)) [
    | inl own ↦ absurd (differs (same-key k other row.server_id row.namespace row.local_key h own))
    | inr passed ↦ passed
  ]

  is_base-other : (row : BaseRow) → is_base k row ≡ true → is_base other row ≡ false
  is_base-other row h = elim (Bool-cases (is_base other row)) [
    | inl own ↦ absurd (differs (same-key k other row.server_id row.namespace row.local_key h own))
    | inr passed ↦ passed
  ]

-- the tables after a synchronisation has been recorded
record Recorded (c : Codec) (now : String) (k : SyncKey) (object_id : ObjectId) (revision : ℕ)
    (snapshot_json : List ℕ) (d d' : Database) : Type 0 where
  pub range : revision ≤ i64_max
  pub mappings : d'.mappings ≡ upsert (maps k) (mapping_row c k object_id (pos revision)) d.mappings
  pub bases : d'.bases ≡ upsert (is_base k) (base_row now k snapshot_json) d.bases

module _ (c : Codec) (writes : Statement → Bool) (now : String) (k : SyncKey) (object_id : ObjectId)
    (revision : ℕ) (snapshot_json : List ℕ) (d d' : Database)
    (saved : save_sync_state c writes now k object_id revision snapshot_json d ≡ ok (tt, d')) where
  save_sync_state-facts : Recorded c now k object_id revision snapshot_json d d'
  unfolding save_sync_state to_i64
  save_sync_state-facts = record {
    range = ground arith;
    mappings = ground arith;
    bases = ground arith;
  }

  mapping_now : first (maps k) d'.mappings ≡ some (mapping_row c k object_id (pos revision))
  mapping_now =
      let own : maps k (mapping_row c k object_id (pos revision)) ≡ true =
        ground (arith, eq_refl k.server_id, eq_refl k.namespace, eq_refl k.local_key) in
      rw save_sync_state-facts.mappings (first-upsert (maps k) _ d.mappings own)

  base_now : first (is_base k) d'.bases ≡ some (base_row now k snapshot_json)
  base_now =
      let own : is_base k (base_row now k snapshot_json) ≡ true =
        ground (arith, eq_refl k.server_id, eq_refl k.namespace, eq_refl k.local_key) in
      rw save_sync_state-facts.bases (first-upsert (is_base k) _ d.bases own)

  other_mapping :
      (other : SyncKey) → other ≢ k → first (maps other) d'.mappings ≡ first (maps other) d.mappings
  other_mapping other differs =
      let own : maps k (mapping_row c k object_id (pos revision)) ≡ true =
        ground (arith, eq_refl k.server_id, eq_refl k.namespace, eq_refl k.local_key) in
      rw save_sync_state-facts.mappings (
        first-upsert_other (maps k) (maps other) _ d.mappings
          (maps-other k other differs (mapping_row c k object_id (pos revision)) own)
          (maps-other k other differs))

  other_base :
      (other : SyncKey) → other ≢ k → first (is_base other) d'.bases ≡ first (is_base other) d.bases
  other_base other differs =
      let own : is_base k (base_row now k snapshot_json) ≡ true =
        ground (arith, eq_refl k.server_id, eq_refl k.namespace, eq_refl k.local_key) in
      rw save_sync_state-facts.bases (
        first-upsert_other (is_base k) (is_base other) _ d.bases
          (is_base-other k other differs (base_row now k snapshot_json) own)
          (is_base-other k other differs))

  -- After a synchronisation has been recorded, the mapping and the base of its key read back as
  -- the object ID, the revision and the snapshot that were given, and those of every other key
  -- read as before, under the laws of the codec, if the database executes the reads.
  pub save_sync_state-recorded :
      (laws : ReadsBack c) (reads : Statement → Bool)
      → reads Statement.select_mapping ≡ false
      → reads Statement.select_base ≡ false
      → (mapping c reads k d'
          ≡ ok (some (record { object_id = object_id; revision = revision }), d'))
        × (sync_base reads k d' ≡ ok (some snapshot_json, d'))
        × ((other : SyncKey)
            → other ≢ k
            → (answer (mapping c reads other d') ≡ answer (mapping c reads other d))
              × (answer (sync_base reads other d') ≡ answer (sync_base reads other d)))
  unfolding mapping sync_base to_u64
  save_sync_state-recorded laws reads up up' = (
    rw (up, mapping_now, laws.uuid) refl,
    rw (up', base_now) refl,
    λ other differs. (
      rw (up, other_mapping other differs) (answer-lift _ d' d),
      rw (up', other_base other differs) refl,
    ),
  )
