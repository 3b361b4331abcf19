-- ===== src/Client/State/Profiles/Rows.antt =====
-- state.rs: what the updates of `profile_preferences` do to its rows.
use helium_sync.Prelude.{
  ◌+◌, ◌≡◌, refl, if◌then◌else◌, Bool, true, ◌==◌, leb, str_eq, eq_iff, String, Option, none, some,
  [], ◌∷◌, arith, Bool-cases, inl, inr,
}
use helium_sync.Prelude.Table.{Table, lookup, insert}
use helium_sync.Prelude.Rows.{first, count}
use helium_sync.Client.State.{ProfileRow}
use helium_sync.Client.State.Profiles.{is_default_row, is_profile, update_rows, clear, choose}

pub count-update_rows :
    (id : String) (p : String × ProfileRow → Bool) (f : ProfileRow → ProfileRow)
    (rows : Table ProfileRow)
    → count (is_profile id) (update_rows p f rows) ≡ count (is_profile id) rows
unfolding count update_rows
count-update_rows id p f [] = refl
count-update_rows id p f ((key, row) ∷ rest) =
    let ih = count-update_rows id p f rest in ground arith

pub count-clear :
    (rows : Table ProfileRow) → count is_default_row (update_rows is_default_row clear rows) ≡ 0
unfolding count update_rows
count-clear [] = refl
count-clear ((key, row) ∷ rest) = let ih = count-clear rest in ground arith

-- with no default before, one for each row that is chosen
pub count-choose :
    (now id : String) (rows : Table ProfileRow)
    → count is_default_row rows ≡ 0
    → count is_default_row (update_rows (is_profile id) (choose now) rows)
      ≡ count (is_profile id) rows
unfolding count update_rows
count-choose now id [] h = refl
count-choose now id ((key, row) ∷ rest) h =
    let ih = count-choose now id rest (ground arith) in ground arith

-- the chosen row is the first default
pub first-choose :
    (now id : String) (rows : Table ProfileRow) (row : ProfileRow)
    → count is_default_row rows ≡ 0
    → lookup id rows ≡ some row
    → first is_default_row (update_rows (is_profile id) (choose now) rows)
      ≡ some (id, choose now row)
unfolding count update_rows first lookup
first-choose now id [] row h found = absurd (ground arith)
first-choose now id ((key, old) ∷ rest) row h found = elim (Bool-cases (str_eq key id)) [
  | inl own ↦ ground (arith, eq_iff key id)
  | inr passed ↦ let ih = first-choose now id rest row (ground arith) (ground arith) in ground arith
]

-- clearing the default keeps the rest of a row
abbrev pub cleared : Option ProfileRow → Option ProfileRow
cleared none = none
cleared (some row) = some (if row.is_default == 1 then clear row else row)

pub lookup-clear :
    (id : String) (rows : Table ProfileRow)
    → lookup id (update_rows is_default_row clear rows) ≡ cleared (lookup id rows)
unfolding lookup update_rows
lookup-clear id [] = refl
lookup-clear id ((key, row) ∷ rest) = let ih = lookup-clear id rest in ground arith

pub count-lookup :
    (id : String) (rows : Table ProfileRow) → lookup id rows ≡ none → count (is_profile id) rows ≡ 0
unfolding lookup count
count-lookup id [] h = refl
count-lookup id ((key, row) ∷ rest) h = let ih = count-lookup id rest in ground arith

pub count-insert :
    (p : String × ProfileRow → Bool) (id : String) (row : ProfileRow) (rows : Table ProfileRow)
    → lookup id rows ≡ none
    → count p (insert id row rows) ≡ count p rows + count p ((id, row) ∷ [])
unfolding lookup count insert
count-insert p id row [] h = ground arith
count-insert p id row ((key, old) ∷ rest) h =
    let ih = count-insert p id row rest (ground arith) in ground arith

pub keyed-insert :
    (at id : String) (row : ProfileRow) (rows : Table ProfileRow)
    → lookup id rows ≡ none
    → leb (count (is_profile at) rows) 1 ≡ true
    → leb (count (is_profile at) (insert id row rows)) 1 ≡ true
unfolding count
keyed-insert at id row rows new h =
    let absent = count-lookup id rows new in
    let more = count-insert (is_profile at) id row rows new in ground (arith, eq_iff id at)
