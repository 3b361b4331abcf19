-- ===== src/Server/History/Latest.antt =====
-- The latest change of one object in the feed.
use helium_sync.Prelude.{
  ◌≡◌, String, Option, none, some, List, [], ◌∷◌, ◌++◌, arith, str_eq, if◌then◌else◌,
}
use helium_sync.Server.Tables.{ChangeRow}

abbrev later : Option ChangeRow → Option ChangeRow → Option ChangeRow
later none earlier = earlier
later (some x) earlier = some x

unfoldable pub latest : String → List ChangeRow → Option ChangeRow
latest key [] = none
latest key (x ∷ xs) = later (latest key xs) (if str_eq x.object_id key then some x else none)

pub latest-append :
    (key : String) (xs : List ChangeRow) (x : ChangeRow)
    → latest key (xs ++ x ∷ []) ≡ (if str_eq x.object_id key then some x else latest key xs)
unfolding latest
latest-append key [] x = ground arith
latest-append key (y ∷ ys) x = ground (arith, latest-append key ys x)
