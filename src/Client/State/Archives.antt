-- ===== src/Client/State/Archives.antt =====
-- state.rs: the profiles that have been put away.
pub mod Rows
use helium_sync.Prelude.{
  ℕ, Bool, ◌||◌, ◌&&◌, not, ◌==◌, str_eq, if◌then◌else◌, String, List, [], ◌∷◌, ◌++◌, ok, err, map,
  some, none,
}
use helium_sync.Prelude.Rows.{first, count, order_by, nocase, binary, then_by, not_after}
use helium_sync.Client.Errors.{state}
use helium_sync.Client.State.{
  ArchiveRow, Database, Statement, Query, pure, lift, ◌>>=◌, ◌>>◌, attempt, change, constraint,
}
use helium_sync.Client.State.Profiles.{is_named, is_profile, update_profiles, unset}

-- `ProfileArchive` has the columns of its row.
abbrev pub ProfileArchive : Type 0
ProfileArchive = ArchiveRow

-- what the keys `id`, `directory_name` and `archive_directory` do not allow twice
abbrev pub clashes : ArchiveRow → ArchiveRow → Bool
clashes new row =
    str_eq row.id new.id
    || str_eq row.directory_name new.directory_name
    || str_eq row.archive_directory new.archive_directory

unfoldable pub without : (ArchiveRow → Bool) → List ArchiveRow → List ArchiveRow
without p [] = []
without p (row ∷ rest) = let later = without p rest in if p row then later else row ∷ later

abbrev pub has_id : String → ArchiveRow → Bool
has_id id row = str_eq row.id id

abbrev expect_archive : ℕ → Query (Unit {0})
expect_archive rows =
    if rows == 1 then pure tt else lift (err (state "profile archive is not registered"))

-- ORDER BY archived_at DESC, display_name COLLATE NOCASE
abbrev latest_first : ArchiveRow → ArchiveRow → Bool
latest_first a b =
    not_after (then_by (binary b.archived_at a.archived_at) (nocase a.display_name b.display_name))

abbrev pub archive_row : String → String → String → String → String → ArchiveRow
archive_row now id directory_name archive_directory display_name = record {
  id = id;
  directory_name = directory_name;
  archive_directory = archive_directory;
  display_name = display_name;
  archived_at = now;
}

module _ (fails : Statement → Bool) where
  -- INSERT INTO profile_archives
  abbrev pub insert_archive : ArchiveRow → Query (Unit {0})
  insert_archive row = do
    attempt fails Statement.insert_archive
    constraint (is_named row.display_name)
    (λ d. constraint (count (clashes row) d.archives == 0) d)
    change (λ d. record d { archives = d.archives ++ row ∷ [] })

  unfoldable pub record_profile_archive :
      String → String → String → String → String → Query (Unit {0})
  record_profile_archive now id directory_name archive_directory display_name = do
    attempt fails Statement.begin
    insert_archive (archive_row now id directory_name archive_directory display_name)
    attempt fails Statement.unset_default
    update_profiles (is_profile directory_name) (unset now)
    attempt fails Statement.commit

  unfoldable pub profile_archives : Query (List ProfileArchive)
  profile_archives = do
    attempt fails Statement.select_archives
    (λ d. ok (order_by latest_first d.archives, d))

  unfoldable pub remove_profile_archive : String → Query (Unit {0})
  remove_profile_archive id = do
    attempt fails Statement.delete_archive
    rows ← (λ d. ok (count (has_id id) d.archives, d))
    change (λ d. record d { archives = without (has_id id) d.archives })
    expect_archive rows
