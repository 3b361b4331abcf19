-- ===== src/Profile/Payload.antt =====
-- crates/helium-sync-profile/src/lib.rs: `validate_extension_relative_path` and
-- `extract_extension_payload`. A path is the list of its components; the zip crate's archive is the
-- list of its entries, and the copying of an entry's bytes is a parameter.
pub mod Allowed
use Prim.Native.String.{◌++◌ as text_append}
use helium_sync.Prelude.{
  Bool, true, false, ◌||◌, str_eq, String, Option, none, some, List, [], ◌∷◌, Result, ok, err,
}
use helium_sync.Prelude.Step.{Step, ◌>>=◌, ◌>>◌, give, map_err}
use helium_sync.Server.Auth.{strip_prefix}
use helium_sync.Profile.Errors.{ProfileError, invalid_extension_archive, write}
use helium_sync.Profile.Files.{IoError, FileSystem}

abbrev pub extension_directories : List String
extension_directories =
    "Extensions" ∷ "Extension State" ∷ "Local Extension Settings" ∷ "Sync Extension Settings"
    ∷ "Managed Extension Settings" ∷ "Extension Rules" ∷ "Extension Scripts" ∷ []

unfoldable pub contains : String → List String → Bool
contains name [] = false
contains name (x ∷ xs) = str_eq x name || contains name xs

abbrev pub is_some : Option String → Bool
is_some none = false
is_some (some _) = true

abbrev pub is_extension_database : List String → Bool
is_extension_database [] = false
is_extension_database (child ∷ _) = is_some (strip_prefix "chrome-extension_" child)

-- `enclosed` is what `enclosed_name` answers for the entry
pub record Entry : Type 0 where
  pub name : String
  pub enclosed : Option (List String)
  pub is_dir : Bool

-- `Path::strip_prefix("payload")`
abbrev pub below_payload : List String → Option (List String)
below_payload [] = none
below_payload (first ∷ rest) = elim (str_eq first "payload") [ true ↦ some rest | false ↦ none ]

module _ (display : List String → String) where
  abbrev outside : List String → Result ProfileError (Unit {0})
  outside path = err (
      invalid_extension_archive
        (text_append "payload path is outside the extension allowlist: " (display path)))

  unfoldable pub validate_extension_relative_path : List String → Result ProfileError (Unit {0})
  validate_extension_relative_path [] = err (invalid_extension_archive "empty payload path")
  validate_extension_relative_path (first ∷ rest) = elim (contains first extension_directories) [
    | true ↦ ok tt
    | false ↦ elim (str_eq first "IndexedDB") [
      | true ↦ elim (is_extension_database rest) [ true ↦ ok tt | false ↦ outside (first ∷ rest) ]
      | false ↦ outside (first ∷ rest)
    ]
  ]

  module _ {F : Type 0} (fs : FileSystem F)
      (copy : Entry → String → Step IoError F (Unit {0})) where
    -- the path of the components below a directory
    abbrev pub join_all : String → List String → String
    join_all root [] = root
    join_all root (x ∷ xs) = join_all (fs.join root x) xs

    -- its `parent`
    abbrev pub parent_of : String → List String → String
    parent_of root [] = root
    parent_of root (x ∷ []) = root
    parent_of root (x ∷ y ∷ rest) = parent_of (fs.join root x) (y ∷ rest)

    abbrev or_write : String → Step IoError F (Unit {0}) → Step ProfileError F (Unit {0})
    or_write path m = map_err (λ e. write path e.text) m

    abbrev pub unpack : Entry → Bool → String → String → Step ProfileError F (Unit {0})
    unpack entry true destination parent = or_write destination (fs.create_dir_all destination)
    unpack entry false destination parent =
        or_write parent (fs.create_dir_all parent)
        >> or_write destination (fs.create_new destination)
        >> or_write destination (copy entry destination)

    abbrev pub extract_below :
        String → Entry → Option (List String) → Step ProfileError F (Unit {0})
    extract_below staged entry none = give (ok tt)
    extract_below staged entry (some []) = give (ok tt)
    extract_below staged entry (some (x ∷ xs)) =
        give (validate_extension_relative_path (x ∷ xs))
        >> unpack entry entry.is_dir (join_all staged (x ∷ xs)) (parent_of staged (x ∷ xs))

    abbrev pub extract_entry :
        String → Entry → Option (List String) → Step ProfileError F (Unit {0})
    extract_entry staged entry none =
        give (err (invalid_extension_archive (text_append "unsafe path " entry.name)))
    extract_entry staged entry (some path) = extract_below staged entry (below_payload path)

    -- the entries of the archive that can be read, and why the next one cannot
    unfoldable pub extract_extension_payload :
        String → List Entry → Option String → Step ProfileError F (Unit {0})
    extract_extension_payload staged [] none = give (ok tt)
    extract_extension_payload staged [] (some e) =
        give (err (invalid_extension_archive (text_append "could not read entry: " e)))
    extract_extension_payload staged (entry ∷ rest) broken =
        extract_entry staged entry entry.enclosed >> extract_extension_payload staged rest broken
