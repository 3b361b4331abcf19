-- ===== src/Client/State/Valid.antt =====
-- state.rs: what holds of the tables of `LocalState`, and the changes of rows that keep it.
use helium_sync.Prelude.{
  ℕ, ℤ, pos, negsuc, ◌≡◌, ◌≢◌, Bool, true, leb, str_eq, String, Option, none, some, [], ◌∷◌, ◌++◌,
  arith, Bool-cases, inl, inr, if◌then◌else◌,
}
use helium_sync.Prelude.Table.{lookup, insert}
use helium_sync.Prelude.Rows.{count}
use helium_sync.Client.State.{ProfileRow, ArchiveRow, Database}
use helium_sync.Client.State.Profiles.{is_default_row, update_rows}
use helium_sync.Client.State.Profiles.Rows.{count-update_rows, count-insert, keyed-insert}
use helium_sync.Client.State.Profiles.Default.{IsKeyed}
use helium_sync.Client.State.Archives.{has_id, clashes, without}
use helium_sync.Client.State.Archives.Rows.{unique-append}

-- a stored cursor is not negative
abbrev pub IsReadable : Option ℤ → Type 0
IsReadable o = (n : ℕ) → o ≢ some (negsuc n)

-- one row for each directory, at most one default, one archive for each ID, and readable cursors
abbrev pub IsValid : Database → Type 0
IsValid d =
    IsKeyed d.profiles
    × (leb (count is_default_row d.profiles) 1 ≡ true)
    × ((id : String) → leb (count (has_id id) d.archives) 1 ≡ true)
    × ((server_id : String) → IsReadable (lookup server_id d.cursors))

-- the same rows in the tables that `IsValid` is about
abbrev pub Same : Database → Database → Type 0
Same d u = (u.profiles ≡ d.profiles) × (u.archives ≡ d.archives) × (u.cursors ≡ d.cursors)

pub Same-IsValid : (d u : Database) → Same d u → IsValid d → IsValid u
Same-IsValid d u (p, a, c) v = rw (p, a, c) v

abbrev pub Written : Database → Database → String → ℕ → Type 0
Written d u server_id value =
    (u.profiles ≡ d.profiles)
    × (u.archives ≡ d.archives)
    × (u.cursors ≡ insert server_id (pos value) d.cursors)

-- after an update of the profiles
abbrev pub Updated :
    (String × ProfileRow → Bool) → (ProfileRow → ProfileRow) → Database → Database → Type 0
Updated p f d u =
    (leb (count is_default_row (update_rows p f d.profiles)) 1 ≡ true)
    × (u.profiles ≡ update_rows p f d.profiles)
    × (u.archives ≡ d.archives)
    × (u.cursors ≡ d.cursors)

pub Updated-IsValid :
    (p : String × ProfileRow → Bool) (f : ProfileRow → ProfileRow) (d u : Database)
    → Updated p f d u
    → IsValid d
    → IsValid u
Updated-IsValid p f d u (unique, rows, a, c) (keyed, one, archived, cursors) =
    rw (rows, a, c)
      (λ id. rw (count-update_rows id p f d.profiles) (keyed id), unique, archived, cursors)

-- after a new profile, and after an archive is forgotten
abbrev pub Inserted : Database → Database → String → ProfileRow → Type 0
Inserted d u id row =
    (u.profiles ≡ insert id row d.profiles) × (u.archives ≡ d.archives) × (u.cursors ≡ d.cursors)

abbrev pub Removed : Database → Database → String → Type 0
Removed d u id =
    (u.profiles ≡ d.profiles)
    × (u.archives ≡ without (has_id id) d.archives)
    × (u.cursors ≡ d.cursors)

pub insert-IsValid :
    (d : Database) (id : String) (row : ProfileRow)
    → lookup id d.profiles ≡ none
    → row.is_default ≡ 0
    → IsValid d
    → IsValid (record d { profiles = insert id row d.profiles })
unfolding count
insert-IsValid d id row new unset_row (keyed, one, archived, cursors) =
    let more = count-insert is_default_row id row d.profiles new in
    (λ at. keyed-insert at id row d.profiles new (keyed at), ground arith, archived, cursors)

pub append-IsValid :
    (d : Database) (row : ArchiveRow)
    → count (clashes row) d.archives ≡ 0
    → IsValid d
    → IsValid (record d { archives = d.archives ++ row ∷ [] })
append-IsValid d row free (keyed, one, archived, cursors) =
    (keyed, one, λ at. unique-append at row d.archives free (archived at), cursors)

pub written-IsReadable :
    (server_id at : String) (value n : ℕ) (d : Database)
    → lookup at d.cursors ≢ some (negsuc n)
    → (if str_eq server_id at then some (pos value) else lookup at d.cursors) ≢ some (negsuc n)
written-IsReadable server_id at value n d old = elim (Bool-cases (str_eq server_id at)) [
  | inl own ↦ rw own (λ e. cc)
  | inr other ↦ rw other old
]
