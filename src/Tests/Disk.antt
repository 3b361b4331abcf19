-- ===== src/Tests/Disk.antt =====
-- A disk as a table of files, which meets the laws of the file system, and bookmark files on it
-- (crates/helium-sync-profile/src/lib.rs).
use Prim.Native.String.{◌++◌ as text_append}
use helium_sync.Prelude.{
  ℕ, ◌≡◌, ◌≢◌, refl, ◌∙◌, sym, Bool, true, false, arith, str_eq, eq_iff, if◌then◌else◌, String,
  Option, none, some, List, [], ◌∷◌, Result, ok, err,
}
use helium_sync.Prelude.Table.{Table, lookup, insert, lookup-insert}
use helium_sync.Prelude.Step.{Step, Ends}
use helium_sync.Profile.Files.{IoError, FileSystem}
use helium_sync.Profile.Restore.{ZipWriter}
use helium_sync.Profile.Restore.Laws.{Contents, Lawful}
use helium_sync.Profile.Restore.ReadBack.{Readable}

abbrev pub Disk : Type 0
Disk = Table (List ℕ)

abbrev pub missing : IoError
missing = record { already_exists = false; text = "missing" }

abbrev pub content : Contents Disk
content path disk = lookup path disk

abbrev is_there : Option (List ℕ) → Bool
is_there none = false
is_there (some bytes) = true

-- a row without its file
unfoldable pub remove : String → Disk → Disk
remove path [] = []
remove path ((key, bytes) ∷ rest) =
    let later = remove path rest in if str_eq key path then later else (key, bytes) ∷ later

abbrev read_file : Disk → Option (List ℕ) → Result IoError (List ℕ) × Disk
read_file disk none = (err missing, disk)
read_file disk (some bytes) = (ok bytes, disk)

abbrev move_file : String → String → Disk → Option (List ℕ) → Result IoError (Unit {0}) × Disk
move_file a b disk none = (err missing, disk)
move_file a b disk (some bytes) = (ok tt, remove a (insert b bytes disk))

abbrev pub done : {E : Type 0} → (Disk → Disk) → Step E Disk (Unit {0})
done f disk = (ok tt, f disk)

abbrev existing : IoError
existing = record { already_exists = true; text = "exists" }

abbrev pub make_dir : String → Disk → Option (List ℕ) → Result IoError (Unit {0}) × Disk
make_dir path disk none = (ok tt, insert path [] disk)
make_dir path disk (some bytes) = (err existing, disk)

abbrev pub disk_system : FileSystem Disk
disk_system = record {
  join = λ a b. text_append a (text_append "/" b);
  metadata = λ p disk. (ok (record { len = 0; modified = none }), disk);
  read = λ p disk. read_file disk (lookup p disk);
  exists = λ p disk. is_there (lookup p disk);
  is_file = λ p disk. is_there (lookup p disk);
  is_dir = λ p disk. true;
  create_dir = λ p disk. make_dir p disk (lookup p disk);
  create_dir_all = λ p. done (λ disk. disk);
  create_new = λ p. done (insert p []);
  write_all = λ p bytes. done (insert p bytes);
  rename = λ a b disk. move_file a b disk (lookup a disk);
  remove_file = λ p. done (remove p);
}

-- an archive is a file whose length counts its writes
abbrev pub zip : ZipWriter Disk
zip = record {
  start_file = λ p entry. done (insert p (1 ∷ []));
  copy = λ p source. done (insert p (1 ∷ 2 ∷ []));
  write_text = λ p text. done (insert p (1 ∷ 3 ∷ []));
  finish = λ p. done (λ disk. disk);
}

lookup-remove_other :
    (path q : String) (disk : Disk) → q ≢ path → lookup q (remove path disk) ≡ lookup q disk
unfolding lookup remove
lookup-remove_other path q [] h = refl
lookup-remove_other path q ((key, bytes) ∷ rest) h =
    let ih = lookup-remove_other path q rest h in ground (arith, ih, eq_iff key path, eq_iff key q)

lookup-remove : (path : String) (disk : Disk) → lookup path (remove path disk) ≡ none
unfolding lookup remove
lookup-remove path [] = refl
lookup-remove path ((key, bytes) ∷ rest) =
    let ih = lookup-remove path rest in ground (arith, ih, eq_iff key path)

lookup-insert_other :
    (p q : String) (bytes : List ℕ) (disk : Disk)
    → q ≢ p
    → lookup q (insert p bytes disk) ≡ lookup q disk
lookup-insert_other p q bytes disk h =
    let step = lookup-insert p q bytes disk in ground (arith, eq_iff p q)

lookup-insert_own :
    (p : String) (bytes : List ℕ) (disk : Disk) → lookup p (insert p bytes disk) ≡ some bytes
lookup-insert_own p bytes disk =
    let step = lookup-insert p p bytes disk in ground (arith, eq_iff p p)

moved :
    (a b : String) (disk : Disk) (found : Option (List ℕ))
    → lookup a disk ≡ found
    → a ≢ b
    → Ends
        (λ _ disk'.
          (lookup b disk' ≡ lookup a disk)
          × (lookup a disk' ≡ none)
          × ((q : String) → q ≢ a → q ≢ b → lookup q disk' ≡ lookup q disk))
        (λ e disk'. (q : String) → lookup q disk' ≡ lookup q disk)
        (move_file a b disk found)
moved a b disk none h apart = λ q. refl
moved a b disk (some bytes) h apart = (
  lookup-remove_other a b (insert b bytes disk) (λ e. apart (sym e))
      ∙ lookup-insert_own b bytes disk
      ∙ sym h,
  lookup-remove a (insert b bytes disk),
  λ q other new.
      lookup-remove_other a q (insert b bytes disk) other ∙ lookup-insert_other b q bytes disk new,
)

pub disk_system-Lawful : Lawful content disk_system zip
disk_system-Lawful = record {
  create_dir_all = λ p disk q. refl;
  create_new = λ p disk q other. lookup-insert_other p q [] disk other;
  write_all = λ p bytes disk.
      (lookup-insert_own p bytes disk, λ q other. lookup-insert_other p q bytes disk other);
  rename = λ a b disk apart. moved a b disk (lookup a disk) refl apart;
  remove_file = λ p disk q other. lookup-remove_other p q disk other;
  start_file = λ p entry disk q other. lookup-insert_other p q _ disk other;
  copy = λ p source disk q other. lookup-insert_other p q _ disk other;
  write_text = λ p text disk q other. lookup-insert_other p q _ disk other;
  finish = λ p disk q other. refl;
}

pub disk_system-Readable : Readable content disk_system
disk_system-Readable = record {
  metadata = λ p disk bytes h. (record { len = 0; modified = none }, refl);
  read = λ p disk bytes h. rw h refl;
  asked = λ p disk. refl;
  missing = λ p disk h. (missing, rw h refl);
}
