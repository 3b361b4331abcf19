-- ===== src/Tests/Folders.antt =====
-- The directory of a new profile, and the unpacking of extensions
-- (crates/helium-sync-profile/src/lib.rs).
use helium_sync.Prelude.{
  ℕ, ◌+◌, ◌≡◌, refl, true, false, arith, String, Option, none, some, List, [], ◌∷◌, ok, err,
}
use helium_sync.Prelude.Table.{lookup, insert}
use helium_sync.Profile.Files.{IoError, BookmarkStatus, DiscoveredProfile}
use helium_sync.Profile.Create.{has, reserve, create_profile_with_reserved, u32_max}
use helium_sync.Profile.Create.Fresh.{
  LeavesDisk, IsFirstFree, create_profile_with_reserved-IsFirstFree,
}
use helium_sync.Profile.Payload.{
  Entry, contains, validate_extension_relative_path, extract_extension_payload,
}
use helium_sync.Profile.Payload.Allowed.{AllEnclosed, extract_extension_payload-AllEnclosed}
use helium_sync.Server.Auth.{strip_prefix}
use helium_sync.Prelude.Step.{Step}
use helium_sync.Tests.Codec.{unary}
use helium_sync.Tests.Disk.{Disk, make_dir, disk_system}

abbrev third_profile : DiscoveredProfile
third_profile = record {
  directory_name = "Profile 111";
  display_name = "Profile 111";
  path = "Data/Profile 111";
  bookmarks_path = "Data/Profile 111/Bookmarks";
  bookmark_status = BookmarkStatus.missing;
}

abbrev one_profile : Disk
one_profile = ("Data/Profile 11", []) ∷ []

abbrev two_profiles : Disk
two_profiles = insert "Data/Profile 111" [] one_profile

-- the first number is reserved, the second exists
third_made :
    create_profile_with_reserved disk_system unary "Data" ("Profile 1" ∷ []) one_profile
    ≡ (ok third_profile, two_profiles)
unfolding create_profile_with_reserved reserve has unary lookup insert
third_made = refl

refused :
    (path : String) (disk disk' : Disk) (e : IoError) (found : Option (List ℕ))
    → make_dir path disk found ≡ (err e, disk')
    → disk' ≡ disk
refused path disk disk' e none h = absurd (ground arith)
refused path disk disk' e (some bytes) h = ground arith

disk_system-LeavesDisk : LeavesDisk disk_system unary "Data" ("Profile 1" ∷ [])
disk_system-LeavesDisk path disk disk' e = refused path disk disk' e (lookup path disk)

create_profile_with_reserved-IsFirstFree_example :
    IsFirstFree disk_system unary "Data"
      ("Profile 1" ∷ [])
      1
      (1 + u32_max)
      third_profile
      one_profile
      two_profiles
create_profile_with_reserved-IsFirstFree_example =
    create_profile_with_reserved-IsFirstFree disk_system unary "Data" ("Profile 1" ∷ [])
      disk_system-LeavesDisk one_profile two_profiles third_profile third_made

abbrev in_payload : String → Entry
in_payload file = record {
  name = file;
  enclosed = some ("payload" ∷ "Extensions" ∷ file ∷ []);
  is_dir = false;
}

abbrev the_entries : List Entry
the_entries =
    record { name = "archive.json"; enclosed = some ("archive.json" ∷ []); is_dir = false }
    ∷ in_payload "a"
    ∷ record {
      name = "b";
      enclosed = some ("payload" ∷ "IndexedDB" ∷ "chrome-extension_b" ∷ []);
      is_dir = true;
    }
    ∷ []

abbrev copied : Entry → String → Step IoError Disk (Unit {0})
copied entry path disk = (ok tt, insert path (1 ∷ []) disk)

abbrev unpacked : Disk
unpacked = ("Staged/Extensions/a", 1 ∷ []) ∷ []

extracted :
    extract_extension_payload (λ p. "path") disk_system copied "Staged" the_entries none []
    ≡ (ok tt, unpacked)
unfolding extract_extension_payload validate_extension_relative_path contains strip_prefix lookup
    insert
extracted = refl

abbrev unbroken : Option String
unbroken = none

extract_extension_payload-AllEnclosed_example : (unbroken ≡ none) × AllEnclosed the_entries
extract_extension_payload-AllEnclosed_example =
    extract_extension_payload-AllEnclosed (λ p. "path") disk_system copied "Staged" the_entries
      unbroken [] unpacked extracted
