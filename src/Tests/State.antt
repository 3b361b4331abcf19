-- ===== src/Tests/State.antt =====
-- The client's tables (state.rs) at concrete rows.
use helium_sync.Prelude.{
  ℕ, ◌≡◌, ◌≢◌, refl, pos, Bool, true, false, some, List, [], ◌∷◌, ok, take, subst,
}
use helium_sync.Prelude.Table.{lookup, insert}
use helium_sync.Prelude.Rows.{upsert}
use helium_sync.Common.Types.{DeviceId}
use helium_sync.Client.State.{Database, Statement, new_database, device_id, set_cursor, to_i64}
use helium_sync.Client.State.Sync.{
  SyncKey, save_sync_state, mapping, sync_base, mapping_row, base_row,
}
use helium_sync.Client.State.Sync.Recorded.{answer, save_sync_state-recorded}
use helium_sync.Client.State.Profiles.{
  ensure_profile, is_named, new_row, set_default_profile, default_profile,
}
use helium_sync.Client.State.Profiles.Default.{IsKeyed, set_default_profile-default}
use helium_sync.Client.State.Calls.{Operation, Call, run, perform}
use helium_sync.Client.State.Kept.{run-new_database-IsValid}
use helium_sync.Tests.Codec.{sample_codec, sample_codec-ReadsBack, unary}
use helium_sync.Tests.Server.{note_id}

abbrev works : Statement → Bool
works k = false

abbrev laptop : DeviceId
laptop = record { uuid = 2 }

abbrev desk : DeviceId
desk = record { uuid = 5 }

abbrev with_laptop : Database
with_laptop = record new_database { metadata = ("device_id", "11") ∷ [] }

drawn : device_id sample_codec works laptop new_database ≡ ok (laptop, with_laptop)
unfolding device_id lookup insert unary
drawn = refl

abbrev with_cursor : Database
with_cursor = record new_database { cursors = ("server", pos 42) ∷ [] }

stored : set_cursor works "server" 42 new_database ≡ ok (tt, with_cursor)
unfolding set_cursor to_i64 insert
stored = refl

abbrev key : SyncKey
key = record { server_id = "server"; namespace = "bookmarks"; local_key = "Default" }

abbrev snapshot : List ℕ
snapshot = 1 ∷ 2 ∷ 3 ∷ []

abbrev synced_once : Database
synced_once = record new_database {
  mappings = mapping_row sample_codec key note_id (pos 4) ∷ [];
  bases = base_row "noon" key snapshot ∷ [];
}

recorded :
    save_sync_state sample_codec works "noon" key note_id 4 snapshot new_database
    ≡ ok (tt, synced_once)
unfolding save_sync_state to_i64 upsert
recorded = refl

save_sync_state-recorded_example :
    (mapping sample_codec works key synced_once
      ≡ ok (some (record { object_id = note_id; revision = 4 }), synced_once))
    × (sync_base works key synced_once ≡ ok (some snapshot, synced_once))
    × ((other : SyncKey)
        → other ≢ key
        → (answer (mapping sample_codec works other synced_once)
            ≡ answer (mapping sample_codec works other new_database))
          × (answer (sync_base works other synced_once)
              ≡ answer (sync_base works other new_database)))
save_sync_state-recorded_example =
    save_sync_state-recorded sample_codec works "noon" key note_id 4 snapshot new_database
      synced_once recorded sample_codec-ReadsBack works refl refl

abbrev calls : List Call
calls =
    record { fails = works; now = "noon"; operation = Operation.ensure_profile "Default" "Me" }
    ∷ record { fails = works; now = "noon"; operation = Operation.ensure_profile "Work" "Job" }
    ∷ record { fails = works; now = "one"; operation = Operation.set_default_profile "Default" }
    ∷ record {
      fails = works;
      now = "two";
      operation = Operation.record_profile_archive "a" "Default" "old/Default" "Me";
    }
    ∷ []

abbrev two_profiles : Database
two_profiles = record new_database {
  profiles = ("Default", new_row "noon" "Me") ∷ ("Work", new_row "noon" "Job") ∷ [];
}

two_calls : run sample_codec (take 2 calls) new_database ≡ two_profiles
unfolding run perform ensure_profile is_named lookup insert
two_calls = refl

set_default_profile-default_example :
    (d' : Database) × (set_default_profile works "one" "Work" two_profiles ≡ ok (tt, d'))
    × (default_profile works d'
        ≡ ok (
          some (record {
            directory_name = "Work";
            display_name = "Job";
            is_default = true;
            auto_sync = true;
          }),
          d',
        ))
unfolding lookup
set_default_profile-default_example =
    set_default_profile-default works (λ k. refl) "one" "Work" two_profiles
      (subst (λ d. IsKeyed d.profiles) two_calls
        (run-new_database-IsValid sample_codec (take 2 calls)).0)
      (new_row "noon" "Job") refl
