-- ===== src/Client/State/Calls.antt =====
-- state.rs: every operation of `LocalState` that writes, and sequences of their calls.
use helium_sync.Prelude.{ℕ, Bool, String, List, [], ◌∷◌, Result, ok, err}
use helium_sync.Common.Types.{ObjectId, DeviceId}
use helium_sync.Common.Codec.{Codec}
use helium_sync.Client.Errors.{ClientError}
use helium_sync.Client.State
use helium_sync.Client.State.{
  ProfileRow, ArchiveRow, Database, Statement, Query, pure, lift, ◌>>=◌, ◌>>◌, constraint, attempt,
  change, new_database, to_i64, to_u64, create_device, stored_device, is_natural,
}
use helium_sync.Client.State.Sync
use helium_sync.Client.State.Sync.{SyncKey}
use helium_sync.Client.State.Profiles
use helium_sync.Client.State.Profiles.{
  is_default_row, is_profile, update_rows, update_profiles, insert_if_new, new_row, expect_row,
  registered,
}
use helium_sync.Client.State.Archives
use helium_sync.Client.State.Archives.{has_id, clashes, without}

-- the operations that write, with what is drawn for them
pub data Operation : Type 0 where
  device_id : DeviceId → Operation
  set_cursor : String → ℕ → Operation
  save_connection : String → String → String → Operation
  save_mapping : SyncKey → ObjectId → ℕ → Operation
  save_sync_state : SyncKey → ObjectId → ℕ → List ℕ → Operation
  ensure_profile rename_profile : String → String → Operation
  set_default_profile remove_profile_archive : String → Operation
  set_auto_sync : String → Bool → Operation
  record_profile_archive : String → String → String → String → Operation

-- one call: its time and the statements that fail for it
pub record Call : Type 0 where
  pub fails : Statement → Bool
  pub now : String
  pub operation : Operation

abbrev pub kept : {A : Type 0} → Database → Result ClientError (A × Database) → Database
kept d (ok r) = r.1
kept d (err e) = d

unfoldable pub perform : Codec → (Statement → Bool) → String → Operation → Database → Database
perform c fails now (device_id fresh) d = kept d (State.device_id c fails fresh d)
perform c fails now (set_cursor server_id value) d =
    kept d (State.set_cursor fails server_id value d)
perform c fails now (save_connection server_id transport endpoint) d =
    kept d (State.save_connection fails now server_id transport endpoint d)
perform c fails now (save_mapping k object_id revision) d =
    kept d (Sync.save_mapping c fails k object_id revision d)
perform c fails now (save_sync_state k object_id revision snapshot_json) d =
    kept d (Sync.save_sync_state c fails now k object_id revision snapshot_json d)
perform c fails now (ensure_profile directory_name display_name) d =
    kept d (Profiles.ensure_profile fails now directory_name display_name d)
perform c fails now (rename_profile directory_name display_name) d =
    kept d (Profiles.rename_profile fails now directory_name display_name d)
perform c fails now (set_default_profile directory_name) d =
    kept d (Profiles.set_default_profile fails now directory_name d)
perform c fails now (remove_profile_archive id) d =
    kept d (Archives.remove_profile_archive fails id d)
perform c fails now (set_auto_sync directory_name enabled) d =
    kept d (Profiles.set_auto_sync fails now directory_name enabled d)
perform c fails now (record_profile_archive id directory_name archive_directory display_name) d =
    kept d
      (Archives.record_profile_archive fails now id directory_name archive_directory display_name d)

unfoldable pub run : Codec → List Call → Database → Database
run c [] d = d
run c (call ∷ rest) d = run c rest (perform c call.fails call.now call.operation d)
