-- ===== src/Client/State/Values.antt =====
-- state.rs: what `device_id` and `cursor` read of what was stored.
use helium_sync.Prelude.{
  ℕ, ◌≤◌, ◌≡◌, ◌≢◌, refl, pos, Bool, false, eq_iff, String, some, ok, arith, Option-cases, inl, inr,
  i64_max,
}
use helium_sync.Prelude.Table.{lookup, insert, lookup-insert, lookup-insert_self}
use helium_sync.Common.Types.{DeviceId}
use helium_sync.Common.Codec.{Codec, ReadsBack}
use helium_sync.Client.State.{
  Database, Statement, cursor_or_zero, device_id, cursor, set_cursor, to_i64, to_u64,
}
use helium_sync.Client.State.Sync.Recorded.{answer, answer-lift}

-- Once the device ID has been read or drawn, every later call whose read the database executes
-- answers the same ID, whatever it would draw, and changes nothing, under the laws of the codec.
pub device_id-stable :
    (c : Codec) (laws : ReadsBack c) (fails again : Statement → Bool) (fresh other id : DeviceId)
    (d d' : Database)
    → device_id c fails fresh d ≡ ok (id, d')
    → again Statement.select_device ≡ false
    → device_id c again other d' ≡ ok (id, d')
unfolding device_id
device_id-stable c laws fails again fresh other id d d' h up =
    elim (Option-cases (lookup "device_id" d.metadata)) [
      | inl new ↦
          let e : d'
              ≡ record d { metadata = insert "device_id" (c.uuid_text fresh.uuid) d.metadata } =
            ground arith in
          let same : id ≡ fresh = ground arith in
          let found : lookup "device_id" d'.metadata ≡ some (c.uuid_text fresh.uuid) =
            rw e (lookup-insert_self "device_id" (c.uuid_text fresh.uuid) d.metadata) in
          let read = laws.uuid fresh.uuid in ground (arith, found, read, same)
      | inr (value, old) ↦ ground arith
    ]

module _ (writes reads : Statement → Bool) (server_id : String) (value : ℕ) (d d' : Database)
    (stored : set_cursor writes server_id value d ≡ ok (tt, d'))
    (up : reads Statement.select_cursor ≡ false) where
  -- A cursor that could be stored is at most i64::MAX and reads back as it was given, and the
  -- cursors of other servers read as before, if the database executes the read.
  pub set_cursor-cursor :
      (value ≤ i64_max)
      × (cursor reads server_id d' ≡ ok (value, d'))
      × ((other : String)
          → other ≢ server_id
          → answer (cursor reads other d') ≡ answer (cursor reads other d))
  unfolding set_cursor cursor to_i64 to_u64
  set_cursor-cursor =
      let e : d' ≡ record d { cursors = insert server_id (pos value) d.cursors } = ground arith in
      (
        ground arith,
        rw (up, e, lookup-insert_self) refl,
        λ other differs.
            let same : lookup other d'.cursors ≡ lookup other d.cursors =
              rw (e, lookup-insert) (ground (arith, eq_iff server_id other)) in
            rw (up, same) (answer-lift (cursor_or_zero (lookup other d.cursors)) d' d),
      )
