-- ===== src/Profile/Errors.antt =====
-- crates/helium-sync-profile/src/lib.rs: `ProfileError`. A text stands for the error of another
-- crate; the text of an incompatible snapshot is not modelled.
use helium_sync.Prelude.{String}

pub data ProfileError : Type 0 where
  not_found : ProfileError
  -- path, source
  read parse : String → String → ProfileError
  changing : String → ProfileError
  unsupported_node_type : String → ProfileError
  unsafe_restore : String → ProfileError
  -- path, details
  archive : String → String → ProfileError
  write : String → String → ProfileError
  -- snapshot_profile, selected_profile
  profile_mismatch : String → String → ProfileError
  incompatible_snapshot : ProfileError
  invalid_profile_name : String → ProfileError
  invalid_extension_archive : String → ProfileError
