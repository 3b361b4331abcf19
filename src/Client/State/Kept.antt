-- ===== src/Client/State/Kept.antt =====
-- state.rs: what the tables keep under any sequence of calls.
use helium_sync.Prelude.{
  ℕ, ◌≡◌, refl, Bool, String, List, [], ◌∷◌, ◌++◌, ok, arith, Option-cases, Result-cases, inl, inr,
}
use helium_sync.Prelude.Trim.{trim}
use helium_sync.Prelude.Table.{lookup, lookup-insert}
use helium_sync.Prelude.Rows.{count}
use helium_sync.Common.Types.{ObjectId, DeviceId}
use helium_sync.Common.Codec.{Codec}
use helium_sync.Client.State
use helium_sync.Client.State.{
  ProfileRow, ArchiveRow, Database, Statement, Query, pure, lift, ◌>>=◌, ◌>>◌, constraint, attempt,
  change, new_database, to_i64, to_u64, create_device, stored_device, is_natural,
}
use helium_sync.Client.State.Sync
use helium_sync.Client.State.Sync.{SyncKey}
use helium_sync.Client.State.Profiles
use helium_sync.Client.State.Profiles.{
  is_default_row, is_profile, update_rows, update_profiles, insert_if_new, new_row, named, synced,
  unset, clear, choose,
}
use helium_sync.Client.State.Archives
use helium_sync.Client.State.Archives.{has_id, clashes, without, archive_row}
use helium_sync.Client.State.Archives.Rows.{unique-without}
use helium_sync.Client.State.Calls.{Operation, Call, kept, perform, run}
use helium_sync.Client.State.Valid.{
  IsValid, Same-IsValid, Written, Updated, Updated-IsValid, Inserted, Removed, insert-IsValid,
  append-IsValid, written-IsReadable,
}

abbrev Keeps : {A : Type 0} → Query A → Type 0
Keeps {A = A} m = (d : Database) → IsValid d → (r : A × Database) → m d ≡ ok r → IsValid r.1

module _ (c : Codec) (fails : Statement → Bool) (now : String) where
  device_id-Keeps : (fresh : DeviceId) → Keeps (State.device_id c fails fresh)
  unfolding State.device_id
  device_id-Keeps fresh d v r h = Same-IsValid d r.1 (ground arith) v

  save_connection-Keeps :
      (server_id transport endpoint : String)
      → Keeps (State.save_connection fails now server_id transport endpoint)
  unfolding State.save_connection
  save_connection-Keeps server_id transport endpoint d v r h = Same-IsValid d r.1 (ground arith) v

  save_mapping-Keeps :
      (k : SyncKey) (id : ObjectId) (revision : ℕ) → Keeps (Sync.save_mapping c fails k id revision)
  unfolding Sync.save_mapping to_i64
  save_mapping-Keeps k id revision d v r h = Same-IsValid d r.1 (ground arith) v

  save_sync_state-Keeps :
      (k : SyncKey) (id : ObjectId) (revision : ℕ) (snapshot_json : List ℕ)
      → Keeps (Sync.save_sync_state c fails now k id revision snapshot_json)
  unfolding Sync.save_sync_state to_i64
  save_sync_state-Keeps k id revision snapshot_json d v r h = Same-IsValid d r.1 (ground arith) v

  set_cursor-Keeps :
      (server_id : String) (value : ℕ) → Keeps (State.set_cursor fails server_id value)
  unfolding State.set_cursor to_i64
  set_cursor-Keeps server_id value d (keyed, one, archived, cursors) r h =
      let (p, a, e) : Written d r.1 server_id value = ground arith in
      rw (p, a, e)
        (
          keyed,
          one,
          archived,
          λ at n. rw lookup-insert (written-IsReadable server_id at value n d (cursors at n)),
        )

  rename_profile-Keeps :
      (directory_name display_name : String)
      → Keeps (Profiles.rename_profile fails now directory_name display_name)
  unfolding Profiles.rename_profile update_profiles
  rename_profile-Keeps directory_name display_name d v r h =
      Updated-IsValid (is_profile directory_name) (named now (trim display_name)) d r.1
        (ground arith) v

  set_auto_sync-Keeps :
      (directory_name : String) (enabled : Bool)
      → Keeps (Profiles.set_auto_sync fails now directory_name enabled)
  unfolding Profiles.set_auto_sync update_profiles
  set_auto_sync-Keeps directory_name enabled d v r h =
      Updated-IsValid (is_profile directory_name) (synced now enabled) d r.1 (ground arith) v

  ensure_profile-Keeps :
      (directory_name display_name : String)
      → Keeps (Profiles.ensure_profile fails now directory_name display_name)
  unfolding Profiles.ensure_profile
  ensure_profile-Keeps directory_name display_name d v r h =
      let row = new_row now display_name in
      elim (Option-cases (lookup directory_name d.profiles)) [
        | inl new ↦
            let (p, a, e) : Inserted d r.1 directory_name row = ground arith in
            rw (p, a, e) (insert-IsValid d directory_name row new refl v)
        | inr (row, old) ↦ Same-IsValid d r.1 (ground arith) v
      ]

  set_default_profile-Keeps :
      (directory_name : String) → Keeps (Profiles.set_default_profile fails now directory_name)
  unfolding Profiles.set_default_profile update_profiles
  set_default_profile-Keeps directory_name d v r h =
      let cleared = record d { profiles = update_rows is_default_row clear d.profiles } in
      let first : Updated is_default_row clear d cleared = ground arith in
      let chosen : Updated (is_profile directory_name) (choose now) cleared r.1 = ground arith in
      Updated-IsValid (is_profile directory_name) (choose now) cleared r.1 chosen
        (Updated-IsValid is_default_row clear d cleared first v)

  remove_profile_archive-Keeps : (id : String) → Keeps (Archives.remove_profile_archive fails id)
  unfolding Archives.remove_profile_archive
  remove_profile_archive-Keeps id d (keyed, one, archived, cursors) r h =
      let (p, a, e) : Removed d r.1 id = ground arith in
      rw (p, a, e)
        (keyed, one, λ at. unique-without at (has_id id) d.archives (archived at), cursors)

  record_profile_archive-Keeps :
      (id directory_name archive_directory display_name : String)
      → Keeps (
          Archives.record_profile_archive fails now id directory_name archive_directory
            display_name)
  unfolding Archives.record_profile_archive update_profiles
  record_profile_archive-Keeps id directory_name archive_directory display_name d v r h =
      let row = archive_row now id directory_name archive_directory display_name in
      let added = record d { archives = d.archives ++ row ∷ [] } in
      let free : count (clashes row) d.archives ≡ 0 = ground arith in
      let last : Updated (is_profile directory_name) (unset now) added r.1 = ground arith in
      Updated-IsValid (is_profile directory_name) (unset now) added r.1 last
        (append-IsValid d row free v)

kept-IsValid :
    {A : Type 0} (m : Query A) → Keeps m → (d : Database) → IsValid d → IsValid (kept d (m d))
kept-IsValid m keeps d v = elim (Result-cases (m d)) [
  | inl (e, p) ↦ rw p v
  | inr (r, p) ↦ rw p (keeps d v r p)
]

module _ (c : Codec) (fails : Statement → Bool) (now : String) where
  perform-IsValid :
      (operation : Operation) (d : Database) → IsValid d → IsValid (perform c fails now operation d)
  unfolding perform
  perform-IsValid (Operation.device_id fresh) = kept-IsValid _ (device_id-Keeps c fails now fresh)
  perform-IsValid (Operation.set_cursor server_id value) =
      kept-IsValid _ (set_cursor-Keeps c fails now server_id value)
  perform-IsValid (Operation.save_connection server_id transport endpoint) =
      kept-IsValid _ (save_connection-Keeps c fails now server_id transport endpoint)
  perform-IsValid (Operation.save_mapping k id revision) =
      kept-IsValid _ (save_mapping-Keeps c fails now k id revision)
  perform-IsValid (Operation.save_sync_state k id revision snapshot_json) =
      kept-IsValid _ (save_sync_state-Keeps c fails now k id revision snapshot_json)
  perform-IsValid (Operation.ensure_profile directory_name display_name) =
      kept-IsValid _ (ensure_profile-Keeps c fails now directory_name display_name)
  perform-IsValid (Operation.rename_profile directory_name display_name) =
      kept-IsValid _ (rename_profile-Keeps c fails now directory_name display_name)
  perform-IsValid (Operation.set_default_profile directory_name) =
      kept-IsValid _ (set_default_profile-Keeps c fails now directory_name)
  perform-IsValid (Operation.remove_profile_archive id) =
      kept-IsValid _ (remove_profile_archive-Keeps c fails now id)
  perform-IsValid (Operation.set_auto_sync directory_name enabled) =
      kept-IsValid _ (set_auto_sync-Keeps c fails now directory_name enabled)
  perform-IsValid (Operation.record_profile_archive id directory_name archive_directory name) =
      kept-IsValid _
        (record_profile_archive-Keeps c fails now id directory_name archive_directory name)

run-IsValid : (c : Codec) (calls : List Call) (d : Database) → IsValid d → IsValid (run c calls d)
unfolding run
run-IsValid c [] d v = v
run-IsValid c (call ∷ rest) d v =
    run-IsValid c rest _ (perform-IsValid c call.fails call.now call.operation d v)

-- Whatever operations run on the client's new database, with whatever statements refused, there is
-- one row for each profile directory, at most one profile is the default, no two archives have one
-- ID, and every stored cursor can be read as a u64.
pub run-new_database-IsValid : (c : Codec) (calls : List Call) → IsValid (run c calls new_database)
unfolding lookup count
run-new_database-IsValid c calls =
    run-IsValid c calls new_database (λ id. refl, refl, λ id. refl, λ server_id n e. cc)
