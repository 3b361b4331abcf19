-- ===== src/Server/Feed.antt =====
-- api.rs: `changes`, the pages of the change feed.
pub mod Rows
pub mod Decode
pub mod Pages
use helium_sync.Prelude.{
  ℕ, ◌+◌, ◌||◌, Bool, ltb, ◌==◌, if◌then◌else◌, Option, none, some, List, [], ◌∷◌, Result, ok, err,
  ◌>>=◌, length, take, last?,
}
use helium_sync.Common.Types.{Change, ChangesResponse}
use helium_sync.Common.Codec.{Codec}
use helium_sync.Server.Errors.{ApiError, api_error}
use helium_sync.Server.Tables.{ChangeRow, Tables, Statement, attempt}
use helium_sync.Server.Checks.{i64_from_u64, row_to_change}
use helium_sync.Server.Devices.{collect}

abbrev pub max_changes_limit : ℕ
max_changes_limit = 1000

abbrev pub default_changes_limit : ℕ
default_changes_limit = 100

pub record ChangesQuery : Type 0 where
  pub after : ℕ
  pub limit : ℕ

-- SELECT * FROM changes WHERE cursor > ?, in the order of the cursor
unfoldable pub rows_after : ℕ → List ChangeRow → List ChangeRow
rows_after after [] = []
rows_after after (x ∷ xs) =
    let rest = rows_after after xs in if ltb after x.cursor then x ∷ rest else rest

-- `changes.last().map_or(query.after, |change| change.cursor)`
abbrev pub cursor_or : ℕ → Option Change → ℕ
cursor_or after none = after
cursor_or after (some change) = change.cursor

unfoldable pub changes :
    Codec → (Statement → Bool) → ChangesQuery → Tables → Result ApiError ChangesResponse
changes c fails query t =
    if query.limit == 0 || ltb max_changes_limit query.limit
    then err (api_error 422 "invalid_limit")
    else (do
      _ ← i64_from_u64 query.after
      _ ← attempt fails Statement.select_changes t
      let rows = take (query.limit + 1) (rows_after query.after t.changes)
      found ← collect (row_to_change c) (take query.limit rows)
      ok (record {
        changes = found;
        next_cursor = cursor_or query.after (last? found);
        has_more = ltb query.limit (length rows);
      }))
