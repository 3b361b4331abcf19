-- ===== src/Server/History/Order.antt =====
-- Cursors that rise along the change feed.
use helium_sync.Prelude.{ℕ, ◌+◌, ◌≤◌, ◌<◌, ◌≡◌, List, [], ◌∷◌, ◌++◌, arith}
use helium_sync.Server.Tables.{ChangeRow}

-- the cursors of the list rise, from above `lo` up to at most `hi`
abbrev pub Ascending : ℕ → List ChangeRow → ℕ → Type 0
Ascending lo [] hi = lo ≤ hi
Ascending lo (x ∷ xs) hi = (lo < x.cursor) × Ascending x.cursor xs hi

pub Ascending-append :
    (lo : ℕ) (xs : List ChangeRow) (hi : ℕ) (x : ChangeRow)
    → Ascending lo xs hi
    → x.cursor ≡ hi + 1
    → Ascending lo (xs ++ x ∷ []) (hi + 1)
Ascending-append lo [] hi x a e = omega arith
Ascending-append lo (y ∷ ys) hi x a e = (a.0, Ascending-append y.cursor ys hi x a.1 e)

pub Ascending-le : (lo : ℕ) (xs : List ChangeRow) (hi : ℕ) → Ascending lo xs hi → lo ≤ hi
Ascending-le lo [] hi a = a
Ascending-le lo (x ∷ xs) hi a = omega (arith, Ascending-le x.cursor xs hi a.1)
