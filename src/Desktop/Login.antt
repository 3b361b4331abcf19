-- ===== src/Desktop/Login.antt =====
-- main.rs: what a sign-in does: `load_or_create_master_key`, `ensure_discovered_profiles`,
-- `ensure_profile_directory_unlocked` and `forced_default_sync`. What `discover` finds, whether
-- Helium is closed, and the lock files are parameters.
pub mod Keys
use Prim.Native.String.{◌++◌ as text_append}
use helium_sync.Prelude.{
  ℕ, Bool, true, false, not, ◌&&◌, str_eq, if◌then◌else◌, String, Option, none, some, List, [], ◌∷◌,
  Result, ok, err,
}
use helium_sync.Prelude.Rows.{first}
use helium_sync.Prelude.Fallible
use helium_sync.Prelude.Step.{Step, ◌>>=◌, ◌>>◌, give, map_err, branch}
use helium_sync.Client.Errors.{ClientError}
use helium_sync.Client.Crypto.{Primitives, recovery_code, from_recovery_code}
use helium_sync.Client.Secrets.{SecretStore}
use helium_sync.Client.State.Profiles.{
  ProfilePreference, ensure_profile, profile_preferences, set_default_profile, default_profile,
}
use helium_sync.Profile.Files.{BookmarkStatus, DiscoveredProfile}
use helium_sync.Desktop.Machine.{Desktop, Turn, Machine, Command, in_database, told}
use helium_sync.Desktop.Sync.{SyncFeedback, sync_profile_with_server}

abbrev pub master_key_name : String
master_key_name = "sync-master-key"

module _ {K : Type 0} (store : SecretStore K) (p : Primitives) (text : ClientError → String)
    (generated : List ℕ) where
  abbrev key_of : String → Result ClientError (List ℕ) → Result String (List ℕ × String)
  key_of code (ok key) = ok (key, code)
  key_of code (err e) = err (text e)

  -- the stored code, or a new one; `generated` is the key that would be drawn
  abbrev pub stored_or_new : Option String → Step String K (List ℕ × String)
  stored_or_new (some code) = give (key_of code (from_recovery_code p code))
  stored_or_new none = do
    map_err text (store.set master_key_name (recovery_code p generated))
    give (ok (generated, recovery_code p generated))

  unfoldable pub load_or_create_master_key : Step String K (List ℕ × String)
  load_or_create_master_key = map_err text (store.get master_key_name) >>= stored_or_new

-- what `symlink_metadata` finds at a lock file
pub data Marker : Type 0 where
  found absent : Marker
  unknown : String → Marker

-- the loop over the lock files
unfoldable pub check_markers : (String → Marker) → List String → Result String (Unit {0})
check_markers look [] = ok tt
check_markers look (name ∷ rest) = elim (look name) [
  | absent ↦ check_markers look rest
  | unknown e ↦ err (
      text_append "Could not inspect Helium's browser lock "
        (text_append name (text_append ": " e)))
  | found ↦ err (
      text_append "Helium's browser lock " (
        text_append name
          " is active. Close every Helium window before creating, syncing, or switching profiles. If Helium crashed, reopen it and close it normally before retrying."))
]

-- `marker_in` joins a name to the user-data directory
unfoldable pub ensure_profile_directory_unlocked :
    (String → Marker) → (String → String) → Result String (Unit {0})
ensure_profile_directory_unlocked look marker_in =
    check_markers look
      (marker_in "SingletonLock" ∷ marker_in "SingletonSocket" ∷ marker_in "SingletonCookie" ∷ [])

abbrev pub is_directory : String → DiscoveredProfile → Bool
is_directory name profile = str_eq profile.directory_name name

abbrev pub is_there : {A : Type 0} → Option A → Bool
is_there none = false
is_there (some _) = true

abbrev first_of : {A : Type 0} → List A → Option A
first_of [] = none
first_of (x ∷ xs) = some x

abbrev or_else : {A : Type 0} → Option A → Option A → Option A
or_else (some a) other = some a
or_else none other = other

-- the profile that becomes the default where none is
abbrev pub new_default : List DiscoveredProfile → Option DiscoveredProfile
new_default profiles = or_else (first (is_directory "Default") profiles) (first_of profiles)

abbrev is_present_default : List DiscoveredProfile → ProfilePreference → Bool
is_present_default profiles preference =
    preference.is_default && is_there (first (is_directory preference.directory_name) profiles)

abbrev initial_name : DiscoveredProfile → String
initial_name profile =
    if str_eq profile.directory_name "Default" then "You" else profile.display_name

module _ {S F : Type 0} (desktop : Desktop S F) (turn : Turn) where
  -- the loop over the profiles that were found
  unfoldable pub ensure_profiles : List DiscoveredProfile → Command S F (Unit {0})
  ensure_profiles [] = give (ok tt)
  ensure_profiles (profile ∷ rest) =
      told desktop (
        in_database
          (ensure_profile turn.fails turn.now profile.directory_name (initial_name profile)))
      >> ensure_profiles rest

  abbrev choose_default : Option DiscoveredProfile → Command S F (Unit {0})
  choose_default none = give (ok tt)
  choose_default (some profile) =
      told desktop (in_database (set_default_profile turn.fails turn.now profile.directory_name))

  unfoldable pub ensure_discovered_profiles :
      Result String (List DiscoveredProfile) → Command S F (List DiscoveredProfile)
  ensure_discovered_profiles discovered = do
    profiles ← give discovered
    ensure_profiles profiles
    preferences ← told desktop (in_database (profile_preferences turn.fails))
    branch (is_there (first (is_present_default profiles) preferences)) (give (ok tt))
        (choose_default (new_default profiles))
    give (ok profiles)

  abbrev is_readable : BookmarkStatus → Bool
  is_readable BookmarkStatus.readable = true
  is_readable BookmarkStatus.missing = false
  is_readable (BookmarkStatus.invalid e) = false

  -- the default profile, once it has been found
  abbrev pub sync_default :
      Result String (Unit {0})
      → Result String String
      → Option DiscoveredProfile
      → Command S F (Option SyncFeedback)
  sync_default closed downloads none = give (ok none)
  sync_default closed downloads (some profile) =
      branch (is_readable profile.bookmark_status)
        (give closed
          >> (give downloads >>= λ backup_dir.
              (sync_profile_with_server desktop turn profile backup_dir >>= λ feedback.
              give (ok (some feedback)))))
        (give (err "The default profile is not readable, so login sync could not complete"))

  abbrev pub sync_preferred :
      Result String (Unit {0})
      → Result String String
      → List DiscoveredProfile
      → Option ProfilePreference
      → Command S F (Option SyncFeedback)
  sync_preferred closed downloads profiles none = give (ok none)
  sync_preferred closed downloads profiles (some preference) =
      sync_default closed downloads (first (is_directory preference.directory_name) profiles)

  -- `closed` and `downloads` are what `ensure_helium_closed` and `downloads_dir` answer
  unfoldable pub forced_default_sync :
      Result String (List DiscoveredProfile)
      → Result String (Unit {0})
      → Result String String
      → Command S F (Option SyncFeedback)
  forced_default_sync discovered closed downloads = do
    profiles ← ensure_discovered_profiles discovered
    preference ← told desktop (in_database (default_profile turn.fails))
    sync_preferred closed downloads profiles preference
