-- ===== src/Client/State/Profiles/Default.antt =====
-- state.rs: `set_default_profile`, and what `default_profile` reads after it.
use helium_sync.Prelude.{
  ◌≡◌, ◌∙◌, refl, Bool, true, false, ◌==◌, leb, String, none, some, [], ◌∷◌, arith, Bool-cases, inl,
  inr, ok, map,
}
use helium_sync.Prelude.Table.{Table, lookup}
use helium_sync.Prelude.Rows.{first, count, first-order_by}
use helium_sync.Client.State.{ProfileRow, Database, Statement, ◌>>=◌}
use helium_sync.Client.State.Profiles.{
  ProfilePreference, registered, is_default_row, is_profile, update_rows, update_profiles, clear,
  choose, preference, by_name, set_default_profile, profile_preferences, default_profile,
}
use helium_sync.Client.State.Profiles.Rows.{
  count-update_rows, count-clear, count-choose, first-choose, lookup-clear,
}

-- `directory_name` is a key: no two rows have it
abbrev pub IsKeyed : Table ProfileRow → Type 0
IsKeyed rows = (id : String) → leb (count (is_profile id) rows) 1 ≡ true

first-map :
    (rows : Table ProfileRow)
    → first (λ (profile : ProfilePreference). profile.is_default) (map preference rows)
      ≡ elim (first is_default_row rows) [ none ↦ none | some row ↦ some (preference row) ]
unfolding first
first-map [] = refl
first-map ((key, row) ∷ rest) = let ih = first-map rest in ground arith

-- the rows that `set_default_profile` leaves
abbrev pub with_default : String → String → Table ProfileRow → Table ProfileRow
with_default now id rows =
    update_rows (is_profile id) (choose now) (update_rows is_default_row clear rows)

module _ (now id : String) (rows : Table ProfileRow) (keyed : IsKeyed rows) where
  default_count : count is_default_row (with_default now id rows) ≡ count (is_profile id) rows
  default_count =
      let chosen = count-choose now id (update_rows is_default_row clear rows) (count-clear rows) in
      let same = count-update_rows id is_default_row clear rows in ground arith

  pub one_default : leb (count is_default_row (with_default now id rows)) 1 ≡ true
  one_default = rw default_count (keyed id)

  the_default :
      (row : ProfileRow)
      → lookup id rows ≡ some row
      → (old : ProfileRow) × (lookup id (update_rows is_default_row clear rows) ≡ some old)
        × (choose now old ≡ choose now row)
  the_default row found = elim (Bool-cases (row.is_default == 1)) [
    | inl chosen ↦ (clear row, lookup-clear id rows ∙ rw (found, chosen) refl, refl)
    | inr other ↦ (row, lookup-clear id rows ∙ rw (found, other) refl, refl)
  ]

  first_default :
      (row : ProfileRow)
      → lookup id rows ≡ some row
      → first is_default_row (with_default now id rows) ≡ some (id, choose now row)
  first_default row found =
      let (old, e, same) = the_default row found in
      first-choose now id (update_rows is_default_row clear rows) old (count-clear rows) e
      ∙ rw same refl

module _ (fails : Statement → Bool) (up : (k : Statement) → fails k ≡ false) (now id : String)
    (d : Database) (keyed : IsKeyed d.profiles) where
  set_default_profile-ok :
      (row : ProfileRow)
      → lookup id d.profiles ≡ some row
      → set_default_profile fails now id d
        ≡ ok (tt, record d { profiles = with_default now id d.profiles })
  unfolding set_default_profile update_profiles
  set_default_profile-ok row found =
      let clears : leb (count is_default_row (update_rows is_default_row clear d.profiles)) 1
          ≡ true =
        rw (count-clear d.profiles) refl in
      let one = one_default now id d.profiles keyed in
      rw
        (
          up Statement.begin,
          up Statement.select_profile,
          ◌>>=◌,
          registered,
          found,
          up Statement.clear_default,
          clears,
          up Statement.update_default,
          one,
          up Statement.commit,
        )
        refl

  -- On a table with one row for each directory and a database that executes every statement,
  -- choosing a registered profile succeeds whatever the default was, and the default profile is
  -- then that one, with its name and its automatic synchronisation as they were.
  pub set_default_profile-default :
      (row : ProfileRow)
      → lookup id d.profiles ≡ some row
      → (d' : Database) × (set_default_profile fails now id d ≡ ok (tt, d'))
        × (default_profile fails d'
            ≡ ok (
              some (record {
                directory_name = id;
                display_name = row.display_name;
                is_default = true;
                auto_sync = row.auto_sync == 1;
              }),
              d',
            ))
  unfolding default_profile profile_preferences
  set_default_profile-default row found = (
    record d { profiles = with_default now id d.profiles },
    set_default_profile-ok row found,
    rw
        (
          up,
          first-map,
          first-order_by is_default_row by_name (with_default now id d.profiles)
              (one_default now id d.profiles keyed),
          first_default now id d.profiles keyed row found,
        )
        refl,
  )
