-- ===== src/Profile/Payload/Allowed.antt =====
-- crates/helium-sync-profile/src/lib.rs: what `extract_extension_payload` lets through.
use mathlib.Core.List.{Memᴰ}
use Prim.Native.String.{◌++◌ as text_append}
use helium_sync.Server.Auth.{strip_prefix}
use helium_sync.Server.Auth.Prefix.{strip_prefix-some}
use helium_sync.Prelude.{
  Option-cases, ap, sym, subst, ◌∙◌, ◌≡◌, ◌⊎◌, inl, inr, refl, arith, true, Bool-cases, str_eq,
  eq_iff, String, Option, none, some, List, [], ◌∷◌, ok,
}
use helium_sync.Prelude.Step.{Step, give, >>=-eq-ok}
use helium_sync.Profile.Files.{IoError, FileSystem}
use helium_sync.Profile.Payload.{
  Entry, extension_directories, contains, is_extension_database, below_payload,
  validate_extension_relative_path, unpack, extract_below, extract_entry, join_all, parent_of,
  extract_extension_payload,
}

-- the names that an archive may write to
abbrev pub allowed_directories : List String
allowed_directories =
    "Extensions" ∷ "Extension State" ∷ "Local Extension Settings" ∷ "Sync Extension Settings"
    ∷ "Managed Extension Settings" ∷ "Extension Rules" ∷ "Extension Scripts" ∷ []

-- The path begins with one of these names, or with IndexedDB and a name of an extension's database.
pub data IsAllowed : List String → Type 0 where
  directory :
      (first : String) (rest : List String)
      → Memᴰ first allowed_directories
      → IsAllowed (first ∷ rest)
  database :
      (suffix : String) (rest : List String)
      → IsAllowed ("IndexedDB" ∷ text_append "chrome-extension_" suffix ∷ rest)

contains-Mem : (name : String) (xs : List String) → contains name xs ≡ true → Memᴰ name xs
unfolding contains
contains-Mem name [] h = absurd (ground arith)
contains-Mem name (x ∷ xs) h = elim (Bool-cases (str_eq x name)) [
  | inl same ↦ Memᴰ.head (sym ((eq_iff x name).0 same))
  | inr other ↦ Memᴰ.tail (contains-Mem name xs (ground arith))
]

named_database :
    (rest : List String)
    → is_extension_database rest ≡ true
    → (suffix : String) × (others : List String) × (rest
        ≡ text_append "chrome-extension_" suffix ∷ others)
named_database [] h = absurd (ground arith)
named_database (child ∷ others) h = elim (Option-cases (strip_prefix "chrome-extension_" child)) [
  | inl other ↦ absurd (ground arith)
  | inr (suffix, stripped) ↦ (
    suffix,
    others,
    ap (λ (x : String). x ∷ others)
        (sym (strip_prefix-some "chrome-extension_" child suffix stripped)),
  )
]

-- A path that passes the validation is on the list.
pub validate_extension_relative_path-IsAllowed :
    (display : List String → String) (path : List String)
    → validate_extension_relative_path display path ≡ ok tt
    → IsAllowed path
unfolding validate_extension_relative_path
validate_extension_relative_path-IsAllowed display [] h = absurd (ground arith)
validate_extension_relative_path-IsAllowed display (first ∷ rest) h =
    elim (Bool-cases (contains first extension_directories)) [
      | inl listed ↦
          IsAllowed.directory first rest (contains-Mem first extension_directories listed)
      | inr other ↦ elim (Bool-cases (str_eq first "IndexedDB")) [
        | inl indexed ↦ elim (Bool-cases (is_extension_database rest)) [
          | inl own ↦
              let (suffix, others, whole) = named_database rest own in
              subst IsAllowed
                (sym (
                  ap (λ (x : String). x ∷ rest) ((eq_iff first "IndexedDB").0 indexed)
                  ∙ ap (λ (xs : List String). "IndexedDB" ∷ xs) whole))
                (IsAllowed.database suffix others)
          | inr foreign ↦ absurd (ground arith)
        ]
        | inr outside ↦ absurd (ground arith)
      ]
    ]

-- The entry stays in the archive's directory, and lies below `payload` only on an allowed path.
abbrev pub IsEnclosed : Entry → Type 0
IsEnclosed entry =
    (path : List String) × (entry.enclosed ≡ some path)
    × ((below_payload path ≡ none)
        ⊎ (below_payload path ≡ some [])
        ⊎ ((relative : List String) × (below_payload path ≡ some relative) × IsAllowed relative))

pub data AllEnclosed : List Entry → Type 0 where
  empty : AllEnclosed []
  entry_then :
      {entry : Entry} {rest : List Entry}
      → IsEnclosed entry
      → AllEnclosed rest
      → AllEnclosed (entry ∷ rest)

module _ (display : List String → String) {F : Type 0} (fs : FileSystem F)
    (copy : Entry → String → Step IoError F (Unit {0})) (staged : String) where
  below :
      (entry : Entry) (o : Option (List String)) (disk disk' : F)
      → extract_below display fs copy staged entry o disk ≡ (ok tt, disk')
      → (o ≡ none)
        ⊎ (o ≡ some [])
        ⊎ ((relative : List String) × (o ≡ some relative) × IsAllowed relative)
  below entry none disk disk' h = inl refl
  below entry (some []) disk disk' h = inr (inl refl)
  below entry (some (x ∷ xs)) disk disk' h =
      let checked =
        >>=-eq-ok (give (validate_extension_relative_path display (x ∷ xs)))
          (λ _.
            unpack display fs copy entry entry.is_dir (join_all display fs copy staged (x ∷ xs))
              (parent_of display fs copy staged (x ∷ xs)))
          disk disk' tt h in
      inr (
        inr (
          x ∷ xs,
          refl,
          validate_extension_relative_path-IsAllowed display (x ∷ xs) (ground arith),
        ))

  entry-IsEnclosed :
      (entry : Entry) (o : Option (List String)) (disk disk' : F)
      → entry.enclosed ≡ o
      → extract_entry display fs copy staged entry o disk ≡ (ok tt, disk')
      → IsEnclosed entry
  entry-IsEnclosed entry none disk disk' e h = absurd (ground arith)
  entry-IsEnclosed entry (some path) disk disk' e h =
      (path, e, below entry (below_payload path) disk disk' h)

  -- An extension archive is unpacked without an error only if each of its entries can be read and
  -- has a path that the zip crate finds enclosed, and the path of each entry below `payload`
  -- begins with one of seven names, which are written out, or with IndexedDB and a name that
  -- begins with chrome-extension_. Of the components behind these nothing is said.
  pub extract_extension_payload-AllEnclosed :
      (entries : List Entry) (broken : Option String) (disk disk' : F)
      → extract_extension_payload display fs copy staged entries broken disk ≡ (ok tt, disk')
      → (broken ≡ none) × AllEnclosed entries
  unfolding extract_extension_payload
  extract_extension_payload-AllEnclosed [] none disk disk' h = (refl, empty)
  extract_extension_payload-AllEnclosed [] (some e) disk disk' h = absurd (ground arith)
  extract_extension_payload-AllEnclosed (entry ∷ rest) broken disk disk' h =
      let (u, between, first, later) =
        >>=-eq-ok (extract_entry display fs copy staged entry entry.enclosed)
          (λ _. extract_extension_payload display fs copy staged rest broken) disk disk' tt h in
      let (sound, others) = extract_extension_payload-AllEnclosed rest broken between disk' later in
      (sound, entry_then (entry-IsEnclosed entry entry.enclosed disk between refl first) others)
