-- ===== src/Profile/Create.antt =====
-- crates/helium-sync-profile/src/lib.rs: `create_profile_with_reserved` and `create_profile`. The
-- loop goes through the numbers of 32 bits from 1.
pub mod Fresh
use Prim.Native.String.{◌++◌ as text_append}
use helium_sync.Prelude.{
  ℕ, zero, suc, Bool, true, false, not, ◌||◌, str_eq, ◌^◌, ◌-◌, String, Option, none, some, List,
  [], ◌∷◌, Result, ok, err,
}
use helium_sync.Prelude.Step.{Step}
use helium_sync.Profile.Errors.{ProfileError, read, write, invalid_profile_name}
use helium_sync.Profile.Files.{IoError, FileSystem, BookmarkStatus, DiscoveredProfile}

abbrev pub u32_max : ℕ
u32_max = 2 ^ 32 - 1

-- `BTreeSet::contains`
unfoldable pub has : String → List String → Bool
has name [] = false
has name (x ∷ xs) = str_eq x name || has name xs

module _ {F : Type 0} (fs : FileSystem F) (decimal : ℕ → String) (user_data_dir : String)
    (reserved : List String) where
  abbrev pub directory_of : ℕ → String
  directory_of number = text_append "Profile " (decimal number)

  abbrev pub new_profile : String → DiscoveredProfile
  new_profile directory_name = record {
    directory_name = directory_name;
    display_name = directory_name;
    path = fs.join user_data_dir directory_name;
    bookmarks_path = fs.join (fs.join user_data_dir directory_name) "Bookmarks";
    bookmark_status = BookmarkStatus.missing;
  }

  -- the loop, with as many numbers as are left
  unfoldable pub reserve : ℕ → ℕ → Step ProfileError F DiscoveredProfile
  reserve zero number disk =
      (err (invalid_profile_name "no available Profile N directory remains"), disk)
  reserve (suc left) number disk = elim (has (directory_of number) reserved) [
    | true ↦ reserve left (suc number) disk
    | false ↦
        let r = fs.create_dir (fs.join user_data_dir (directory_of number)) disk in
        elim r.0 [
          | ok _ ↦ (ok (new_profile (directory_of number)), r.1)
          | err e ↦ elim e.already_exists [
            | true ↦ reserve left (suc number) r.1
            | false ↦ (err (write (fs.join user_data_dir (directory_of number)) e.text), r.1)
          ]
        ]
  ]

  unfoldable pub create_profile_with_reserved : Step ProfileError F DiscoveredProfile
  create_profile_with_reserved disk = elim (fs.is_dir user_data_dir disk) [
    | true ↦ reserve u32_max 1 disk
    | false ↦ (err (read user_data_dir "Helium user-data directory does not exist"), disk)
  ]
