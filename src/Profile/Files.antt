-- ===== src/Profile/Files.antt =====
-- crates/helium-sync-profile/src/lib.rs: `read_bookmarks`, which reads a profile's bookmark file,
-- and `chromium_bookmarks_json`, which writes its text. The file system is a parameter, whose
-- operations pass its state on, since other programs may write between two of them; so are the crates
-- for JSON. A path is a text.
pub mod Sorted
use helium_sync.Prelude.{
  ℕ, Bool, ◌&&◌, ◌==◌, String, Option, none, some, List, [], ◌∷◌, map, Result, ok, err,
}
use helium_sync.Prelude.Fallible
use helium_sync.Prelude.Rows.{Order, binary}
use helium_sync.Prelude.Step.{Step, ◌>>=◌, ◌>>◌, give, map_err, branch}
use helium_sync.Profile.Errors.{ProfileError, read, parse, changing}
use helium_sync.Profile.Node.{BookmarkRoot, BookmarkSnapshotV1, option_eq}
use helium_sync.Profile.Raw.{RawNode, convert_root, raw_root}

-- what `Metadata::len` and `Metadata::modified().ok()` say
pub record Metadata : Type 0 where
  pub len : ℕ
  pub modified : Option ℕ

-- `std::io::Error`: whether its kind is `AlreadyExists`, and its text
pub record IoError : Type 0 where
  pub already_exists : Bool
  pub text : String

-- `std::fs` over a disk
pub record FileSystem (F : Type 0) : Type 0 where
  pub join : String → String → String
  pub metadata : String → Step IoError F Metadata
  pub read : String → Step IoError F (List ℕ)
  pub exists : String → F → Bool
  pub is_file : String → F → Bool
  pub is_dir : String → F → Bool
  pub create_dir : String → Step IoError F (Unit {0})
  pub create_dir_all : String → Step IoError F (Unit {0})
  -- `OpenOptions::new().create_new(true).write(true).open(path)`
  pub create_new : String → Step IoError F (Unit {0})
  -- `write_all` and `sync_all` on a file that was opened by `create_new`
  pub write_all : String → List ℕ → Step IoError F (Unit {0})
  pub rename : String → String → Step IoError F (Unit {0})
  pub remove_file : String → Step IoError F (Unit {0})

-- `RawBookmarks`, with the entries of its map in the map's order
pub record RawBookmarks : Type 0 where
  pub version : ℕ
  pub roots : List (String × RawNode)

-- `serde_json` at `RawBookmarks` and at the value that `chromium_bookmarks_json` makes
pub record BookmarksJson : Type 0 where
  pub from_slice : List ℕ → Result String RawBookmarks
  pub to_vec_pretty : RawBookmarks → Result String (List ℕ)

pub data BookmarkStatus : Type 0 where
  missing readable : BookmarkStatus
  invalid : String → BookmarkStatus

pub record DiscoveredProfile : Type 0 where
  pub directory_name : String
  pub display_name : String
  pub path : String
  pub bookmarks_path : String
  pub bookmark_status : BookmarkStatus

-- `.map(|(key, node)| …).collect::<Result<Vec<_>, _>>()`
unfoldable pub convert_roots : List (String × RawNode) → Result ProfileError (List BookmarkRoot)
convert_roots [] = ok []
convert_roots (entry ∷ rest) =
    Fallible.◌>>=◌ (convert_root entry)
      λ root. Fallible.◌>>=◌ (convert_roots rest) λ roots. ok (root ∷ roots)

abbrev pub snapshot_of : String → ℕ → List BookmarkRoot → BookmarkSnapshotV1
snapshot_of profile_directory version roots = record {
  format = "helium-bookmarks-v1";
  source_browser = "helium";
  profile_directory = profile_directory;
  chromium_version = version;
  roots = roots;
}

abbrev pub or_parse : {A : Type 0} → String → Result String A → Result ProfileError A
or_parse path (ok a) = ok a
or_parse path (err e) = err (parse path e)

-- what `read_bookmarks` makes of the bytes
unfoldable pub parse_bookmarks :
    BookmarksJson → String → String → List ℕ → Result ProfileError BookmarkSnapshotV1
parse_bookmarks json path profile_directory bytes =
    Fallible.◌>>=◌ (or_parse path (json.from_slice bytes)) λ raw.
      Fallible.◌>>=◌ (convert_roots raw.roots)
        λ roots. ok (snapshot_of profile_directory raw.version roots)

abbrev pub same_metadata : Metadata → Metadata → Bool
same_metadata before after =
    before.len == after.len && option_eq ◌==◌ before.modified after.modified

module _ {F : Type 0} (fs : FileSystem F) where
  abbrev pub or_read : {A : Type 0} → String → Step IoError F A → Step ProfileError F A
  or_read path = map_err (λ e. read path e.text)

  module _ (json : BookmarksJson) (path profile_directory : String) where
    -- one turn of the loop, and what follows where the file has changed meanwhile
    abbrev pub attempt :
        Step ProfileError F BookmarkSnapshotV1 → Step ProfileError F BookmarkSnapshotV1
    attempt again = do
      before ← or_read path (fs.metadata path)
      bytes ← or_read path (fs.read path)
      after ← or_read path (fs.metadata path)
      branch (same_metadata before after) (give (parse_bookmarks json path profile_directory bytes))
          again

    unfoldable pub read_bookmarks : Step ProfileError F BookmarkSnapshotV1
    read_bookmarks = attempt (attempt (give (err (changing path))))

-- `BTreeMap::insert`, on the entries in the order of their keys
unfoldable pub insert_key {ℓ} : {A : Type ℓ} → String → A → List (String × A) → List (String × A)
insert_key key new [] = (key, new) ∷ []
insert_key key new ((k, old) ∷ rest) =
    let later = insert_key key new rest in
    elim (binary k key) [
      | Order.less ↦ (k, old) ∷ later
      | Order.equal ↦ (key, new) ∷ rest
      | Order.greater ↦ (key, new) ∷ (k, old) ∷ rest
    ]

-- `collect` into a `BTreeMap`
unfoldable pub collect_map {ℓ} :
    {A : Type ℓ} → List (String × A) → List (String × A) → List (String × A)
collect_map entries [] = entries
collect_map entries ((key, a) ∷ rest) = collect_map (insert_key key a entries) rest

unfoldable pub chromium_bookmarks_json : BookmarksJson → BookmarkSnapshotV1 → Result String (List ℕ)
chromium_bookmarks_json json snapshot = json.to_vec_pretty (record {
  version = snapshot.chromium_version;
  roots = collect_map [] (map raw_root snapshot.roots);
})
