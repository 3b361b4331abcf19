-- ===== src/Client/State/Profiles.antt =====
-- state.rs: what the user has chosen for each profile.
pub mod Rows
pub mod Default
use Prim.Native.Char.{code}
use helium_sync.Prelude.{
  ℕ, suc, Bool, true, false, not, ◌||◌, ◌==◌, ltb, leb, str_eq, if◌then◌else◌, String, Option, none,
  some, List, [], ◌∷◌, ok, err, map,
}
use helium_sync.Prelude.Trim.{trim}
use helium_sync.Prelude.Table.{Table, lookup, insert}
use helium_sync.Prelude.Rows.{first, count, order_by, nocase, binary, then_by, not_after}
use helium_sync.Client.Errors.{state}
use helium_sync.Client.State.{
  ProfileRow, Database, Statement, Query, pure, lift, ◌>>=◌, ◌>>◌, attempt, change, constraint,
  is_row,
}

pub record ProfilePreference : Type 0 where
  pub directory_name : String
  pub display_name : String
  pub is_default : Bool
  pub auto_sync : Bool

-- `chars().count()`
unfoldable pub char_count : String → ℕ
char_count String.[] = 0
char_count (String.◌∷◌ c s) = suc (char_count s)

-- CHECK (length(trim(display_name)) > 0): SQLite trims spaces, and its length stops at a NUL.
unfoldable pub is_named : String → Bool
is_named String.[] = false
is_named (String.◌∷◌ c s) =
    let rest = is_named s in if code c == 32 then rest else not (code c == 0)

abbrev pub is_default_row : String × ProfileRow → Bool
is_default_row (key, row) = row.is_default == 1

-- `UPDATE profile_preferences SET … WHERE …`, with the rows that it affects
unfoldable pub update_rows :
    (String × ProfileRow → Bool) → (ProfileRow → ProfileRow) → Table ProfileRow → Table ProfileRow
update_rows p f [] = []
update_rows p f ((key, row) ∷ rest) =
    let later = update_rows p f rest in
    if p (key, row) then (key, f row) ∷ later else (key, row) ∷ later

abbrev pub is_profile : String → String × ProfileRow → Bool
is_profile directory_name (key, row) = str_eq key directory_name

abbrev affected : (String × ProfileRow → Bool) → Query ℕ
affected p d = ok (count p d.profiles, d)

-- An update obeys the unique index `one_default_profile`.
unfoldable pub update_profiles : (String × ProfileRow → Bool) → (ProfileRow → ProfileRow) → Query ℕ
update_profiles p f = do
  (λ d. constraint (leb (count is_default_row (update_rows p f d.profiles)) 1) d)
  rows ← affected p
  change (λ d. record d { profiles = update_rows p f d.profiles })
  pure rows

abbrev pub expect_row : ℕ → Query (Unit {0})
expect_row rows = if rows == 1 then pure tt else lift (err (state "profile is not registered"))

abbrev pub preference : String × ProfileRow → ProfilePreference
preference (directory_name, row) = record {
  directory_name = directory_name;
  display_name = row.display_name;
  is_default = row.is_default == 1;
  auto_sync = row.auto_sync == 1;
}

-- ORDER BY display_name COLLATE NOCASE, directory_name
abbrev pub by_name : String × ProfileRow → String × ProfileRow → Bool
by_name (k, row) (l, other) =
    not_after (then_by (nocase row.display_name other.display_name) (binary k l))

abbrev pub new_row : String → String → ProfileRow
new_row now display_name = record {
  display_name = display_name;
  is_default = 0;
  updated_at = now;
  auto_sync = 1;
}

-- ON CONFLICT(directory_name) DO NOTHING
abbrev pub insert_if_new : String → ProfileRow → Database → Database
insert_if_new directory_name row d = elim (lookup directory_name d.profiles) [
  | none ↦ record d { profiles = insert directory_name row d.profiles }
  | some _ ↦ d
]

abbrev pub registered : Bool → Query (Unit {0})
registered exists = if exists then pure tt else lift (err (state "profile is not registered"))

abbrev pub clear : ProfileRow → ProfileRow
clear row = record row { is_default = 0 }

abbrev pub choose : String → ProfileRow → ProfileRow
choose now row = record row { is_default = 1; updated_at = now }

abbrev pub named : String → String → ProfileRow → ProfileRow
named now display_name row = record row { display_name = display_name; updated_at = now }

abbrev pub synced : String → Bool → ProfileRow → ProfileRow
synced now enabled row = record row { auto_sync = if enabled then 1 else 0; updated_at = now }

abbrev pub unset : String → ProfileRow → ProfileRow
unset now row = record row { is_default = 0; updated_at = now }

module _ (fails : Statement → Bool) where
  unfoldable pub ensure_profile : String → String → String → Query (Unit {0})
  ensure_profile now directory_name display_name = do
    attempt fails Statement.insert_profile
    constraint (is_named display_name)
    change (insert_if_new directory_name (new_row now display_name))

  unfoldable pub profile_preferences : Query (List ProfilePreference)
  profile_preferences = do
    attempt fails Statement.select_profiles
    (λ d. ok (map preference (order_by by_name d.profiles), d))

  abbrev write_name : String → String → String → Query (Unit {0})
  write_name now directory_name display_name = do
    attempt fails Statement.update_name
    (λ d. constraint (is_named display_name || count (is_profile directory_name) d.profiles == 0) d)
    rows ← update_profiles (is_profile directory_name) (named now display_name)
    expect_row rows

  unfoldable pub rename_profile : String → String → String → Query (Unit {0})
  rename_profile now directory_name display_name =
      let name = trim display_name in
      if str_eq name "" || ltb 128 (char_count name)
      then lift (err (state "profile name must contain 1 to 128 characters"))
      else write_name now directory_name name

  unfoldable pub set_default_profile : String → String → Query (Unit {0})
  set_default_profile now directory_name = do
    attempt fails Statement.begin
    attempt fails Statement.select_profile
    (λ d. registered (is_row (lookup directory_name d.profiles)) d)
    attempt fails Statement.clear_default
    update_profiles is_default_row clear
    attempt fails Statement.update_default
    update_profiles (is_profile directory_name) (choose now)
    attempt fails Statement.commit

  unfoldable pub set_auto_sync : String → String → Bool → Query (Unit {0})
  set_auto_sync now directory_name enabled = do
    attempt fails Statement.update_auto_sync
    rows ← update_profiles (is_profile directory_name) (synced now enabled)
    expect_row rows

  unfoldable pub default_profile : Query (Option ProfilePreference)
  default_profile = do
    profiles ← profile_preferences
    pure (first (λ profile. profile.is_default) profiles)
