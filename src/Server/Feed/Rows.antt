-- ===== src/Server/Feed/Rows.antt =====
-- The rows of the feed behind a cursor, when cursors rise along it.
use helium_sync.Prelude.{
  ℕ, zero, suc, ◌≤◌, ◌<◌, ◌≡◌, refl, sym, ◌∙◌, List, [], ◌∷◌, arith, take, drop, ltb, Bool-cases,
  inl, inr,
}
use helium_sync.Server.Tables.{ChangeRow}
use helium_sync.Server.Feed.{rows_after}
use helium_sync.Server.History.Order.{Ascending}

-- the cursors of the list rise from above `lo`
abbrev pub Rising : ℕ → List ChangeRow → Type 0
Rising lo [] = Unit {0}
Rising lo (x ∷ xs) = (lo < x.cursor) × Rising x.cursor xs

pub Ascending-Rising : (lo : ℕ) (xs : List ChangeRow) (hi : ℕ) → Ascending lo xs hi → Rising lo xs
Ascending-Rising lo [] hi a = tt
Ascending-Rising lo (x ∷ xs) hi a = (a.0, Ascending-Rising x.cursor xs hi a.1)

Rising-mono : (lo mid : ℕ) (xs : List ChangeRow) → lo ≤ mid → Rising mid xs → Rising lo xs
Rising-mono lo mid [] h r = tt
Rising-mono lo mid (x ∷ xs) h r = (omega arith, r.1)

-- the cursor of the last row, or `after`
abbrev pub end_of : ℕ → List ChangeRow → ℕ
end_of after [] = after
end_of after (x ∷ xs) = end_of x.cursor xs

pub end_of-le :
    (after n : ℕ) (xs : List ChangeRow) → Rising after xs → after ≤ end_of after (take n xs)
end_of-le after zero xs r = omega arith
end_of-le after (suc n) [] r = omega arith
end_of-le after (suc n) (x ∷ xs) r = omega (arith, end_of-le x.cursor n xs r.1)

pub rows_after_all : (after : ℕ) (xs : List ChangeRow) → Rising after xs → rows_after after xs ≡ xs
unfolding rows_after
rows_after_all after [] r = refl
rows_after_all after (x ∷ xs) r =
    ground (arith, rows_after_all after xs (Rising-mono after x.cursor xs (omega arith) r.1))

pub rows_after-Rising :
    (after lo : ℕ) (xs : List ChangeRow) → Rising lo xs → Rising after (rows_after after xs)
unfolding rows_after
rows_after-Rising after lo [] r = tt
rows_after-Rising after lo (x ∷ xs) r = elim (Bool-cases (ltb after x.cursor)) [
  | inl behind ↦ rw behind (
    ground arith,
    rw (rows_after_all after xs (Rising-mono after x.cursor xs (ground arith) r.1)) r.1,
  )
  | inr before ↦ rw before (rows_after-Rising after x.cursor xs r.1)
]

rows_after_twice :
    (after later : ℕ) (xs : List ChangeRow)
    → after ≤ later
    → rows_after later (rows_after after xs) ≡ rows_after later xs
unfolding rows_after
rows_after_twice after later [] h = refl
rows_after_twice after later (x ∷ xs) h = ground (arith, rows_after_twice after later xs h)

drop_behind :
    (n after : ℕ) (xs : List ChangeRow)
    → Rising after xs
    → rows_after (end_of after (take n xs)) xs ≡ drop n xs
unfolding rows_after
drop_behind zero after xs r = rows_after_all after xs r
drop_behind (suc n) after [] r = refl
drop_behind (suc n) after (x ∷ xs) r =
    ground (arith, drop_behind n x.cursor xs r.1, end_of-le x.cursor n xs r.1)

-- The rows behind the last row of a page are the rest of the rows behind the page's own cursor.
pub rows_after_page :
    (n after lo : ℕ) (xs : List ChangeRow)
    → Rising lo xs
    → rows_after (end_of after (take n (rows_after after xs))) xs ≡ drop n (rows_after after xs)
rows_after_page n after lo xs r =
    let rows = rows_after after xs in
    let rising = rows_after-Rising after lo xs r in
    sym (rows_after_twice after (end_of after (take n rows)) xs (end_of-le after n rows rising))
    ∙ drop_behind n after rows rising
