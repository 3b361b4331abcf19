-- ===== src/Client/State/Archives/Rows.antt =====
-- state.rs: what the statements on `profile_archives` do to its rows.
use helium_sync.Prelude.{
  ◌≤◌, ◌≡◌, refl, Bool, leb, eq_iff, String, List, [], ◌∷◌, ◌++◌, true, arith,
}
use helium_sync.Prelude.Rows.{count, count-append}
use helium_sync.Client.State.{ArchiveRow}
use helium_sync.Client.State.Archives.{has_id, clashes, without}

count-without :
    (p q : ArchiveRow → Bool) (rows : List ArchiveRow) → count p (without q rows) ≤ count p rows
unfolding count without
count-without p q [] = omega arith
count-without p q (row ∷ rest) = let ih = count-without p q rest in ground arith

-- a row that clashes with none has a new ID
count-clashes :
    (row : ArchiveRow) (rows : List ArchiveRow)
    → count (clashes row) rows ≡ 0
    → count (has_id row.id) rows ≡ 0
unfolding count
count-clashes row [] h = refl
count-clashes row (old ∷ rest) h = let ih = count-clashes row rest in ground arith

pub unique-without :
    (id : String) (q : ArchiveRow → Bool) (rows : List ArchiveRow)
    → leb (count (has_id id) rows) 1 ≡ true
    → leb (count (has_id id) (without q rows)) 1 ≡ true
unique-without id q rows h = let fewer = count-without (has_id id) q rows in ground arith

pub unique-append :
    (id : String) (row : ArchiveRow) (rows : List ArchiveRow)
    → count (clashes row) rows ≡ 0
    → leb (count (has_id id) rows) 1 ≡ true
    → leb (count (has_id id) (rows ++ row ∷ [])) 1 ≡ true
unfolding count
unique-append id row rows free h =
    let new = count-clashes row rows free in
    let more = count-append (has_id id) rows (row ∷ []) in ground (arith, eq_iff row.id id)
