-- ===== src/Server/Feed/Pages.antt =====
-- One page of the change feed (api.rs: `changes`) in terms of the rows behind the cursor.
use helium_sync.Prelude.{
  ◌>>=◌, length-take, take-take_more, ℕ, ◌+◌, ◌≤◌, ◌<◌, ◌≡◌, refl, List, [], ◌∷◌, Bool, ok, arith,
  length, take, last?, ltb, i64_max, false,
}
use helium_sync.Prelude.Fallible
use helium_sync.Common.Types.{Change}
use helium_sync.Common.Codec.{Codec}
use helium_sync.Server.Tables.{ChangeRow, Tables, Statement}
use helium_sync.Server.Checks.{row_to_change, i64_from_u64}
use helium_sync.Server.Devices.{collect}
use helium_sync.Server.Feed.{ChangesQuery, rows_after, cursor_or, changes}
use helium_sync.Server.Feed.Rows.{end_of}

last_after_any :
    (a b : ℕ) (z : Change) (zs : List Change)
    → cursor_or a (last? (z ∷ zs)) ≡ cursor_or b (last? (z ∷ zs))
last_after_any a b z [] = refl
last_after_any a b z (w ∷ ws) = last_after_any a b w ws

last_after :
    (a : ℕ) (y : Change) (zs : List Change)
    → cursor_or a (last? (y ∷ zs)) ≡ cursor_or y.cursor (last? zs)
last_after a y [] = refl
last_after a y (z ∷ zs) = last_after_any a y.cursor z zs

module _ (c : Codec) where
  row_to_change-cursor :
      (x : ChangeRow) (y : Change) → row_to_change c x ≡ ok y → y.cursor ≡ x.cursor
  unfolding row_to_change
  row_to_change-cursor x y h = ground arith

  -- A decoded page ends at the cursor of its last row.
  pub collect-end :
      (after : ℕ) (xs : List ChangeRow) (ys : List Change)
      → collect (row_to_change c) xs ≡ ok ys
      → cursor_or after (last? ys) ≡ end_of after xs
  unfolding collect
  collect-end after [] ys h = let e : ys ≡ [] = ground arith in rw e
  collect-end after (x ∷ xs) ys h =
      let (y, p, q) =
        Fallible.>>=-eq-ok (row_to_change c x)
          (λ y. collect (row_to_change c) xs >>= λ zs. ok (y ∷ zs)) h in
      let (zs, p', q') = Fallible.>>=-eq-ok (collect (row_to_change c) xs) (λ zs. ok (y ∷ zs)) q in
      let e : ys ≡ y ∷ zs = ground arith in
      rw (e, last_after after y zs, collect-end y.cursor xs zs p', row_to_change-cursor x y p)

  -- For a limit from 1 to 1000 and a cursor that fits i64, where the rows of the page decode and
  -- the database executes the query, a page holds the first `limit` rows behind the cursor; it
  -- says where it ends and whether there are more rows.
  pub changes-page :
      (fails : Statement → Bool) (query : ChangesQuery) (t : Tables) (ys : List Change)
      → fails Statement.select_changes ≡ false
      → 0 < query.limit
      → query.limit ≤ 1000
      → query.after ≤ i64_max
      → collect (row_to_change c) (take query.limit (rows_after query.after t.changes)) ≡ ok ys
      → changes c fails query t
        ≡ ok (record {
          changes = ys;
          next_cursor = end_of query.after (take query.limit (rows_after query.after t.changes));
          has_more = ltb query.limit (length (rows_after query.after t.changes));
        })
  unfolding changes i64_from_u64
  changes-page fails query t ys up low high small page =
      let rows = rows_after query.after t.changes in
      ground (
        arith,
        take-take_more query.limit rows,
        length-take (query.limit + 1) rows,
        collect-end query.after (take query.limit rows) ys page,
      )
