-- ===== src/Client/Discovery.antt =====
-- crates/helium-sync-client-core/src/orchestration.rs: `discover_bookmarks` and
-- `discover_extension_bundle`, which differ in the namespace and in what they load. The API client is
-- a function from a cursor to a page, and the loading of one object is a function of its ID.
pub mod Complete
pub mod Pages
use helium_sync.Prelude.{
  ℕ, zero, suc, Bool, true, false, not, ltb, leb, ◌==◌, str_eq, if◌then◌else◌, String, Option, none,
  some, List, [], ◌∷◌, Result, ok, err,
}
use helium_sync.Common.Types.{ObjectId, Change, ChangesResponse}
use helium_sync.Client.Errors.{ClientError, crypto, serialization}

-- an entry of the map from object IDs to the latest cursor and deletion mark
pub record Candidate : Type 0 where
  pub uuid : ℕ
  pub cursor : ℕ
  pub deleted : Bool

-- `HashMap::insert`
unfoldable pub insert : Candidate → List Candidate → List Candidate
insert x [] = x ∷ []
insert x (y ∷ ys) = if y.uuid == x.uuid then x ∷ ys else y ∷ insert x ys

-- the body of the loop over a page
unfoldable pub note : String → List Candidate → Change → List Candidate
note namespace candidates change =
    if str_eq change.namespace namespace
    then insert
        (record { uuid = change.object_id.uuid; cursor = change.cursor; deleted = change.deleted })
        candidates
    else candidates

unfoldable pub note_all : String → List Candidate → List Change → List Candidate
note_all namespace candidates [] = candidates
note_all namespace candidates (x ∷ xs) = note_all namespace (note namespace candidates x) xs

abbrev pub cursor_did_not_advance : ClientError
cursor_did_not_advance = serialization "server change cursor did not advance"

-- The loop over the pages, on fuel: `none` means that the fuel ran out.
unfoldable pub gather :
    (ℕ → Result ClientError ChangesResponse)
    → String
    → ℕ
    → ℕ
    → List Candidate
    → Option (Result ClientError (List Candidate))
gather api namespace zero after candidates = none
gather api namespace (suc fuel) after candidates = elim (api after) [
  | err e ↦ some (err e)
  | ok page ↦
      let candidates' = note_all namespace candidates page.changes in
      let rest = gather api namespace fuel page.next_cursor candidates' in
      if not page.has_more
      then some (ok candidates')
      else if leb page.next_cursor after
      then some (err cursor_did_not_advance)
      else rest
]

-- `filter_map` of what is not deleted
unfoldable pub live : List Candidate → List Candidate
live [] = []
live (x ∷ xs) = let rest = live xs in if not x.deleted then x ∷ rest else rest

-- `sort_unstable_by_key` with `Reverse(cursor)`: newest first
unfoldable pub place : Candidate → List Candidate → List Candidate
place x [] = x ∷ []
place x (y ∷ ys) = let later = place x ys in if leb y.cursor x.cursor then x ∷ y ∷ ys else y ∷ later

unfoldable pub newest_first : List Candidate → List Candidate
unfolding place
newest_first [] = []
newest_first (x ∷ xs) = place x (newest_first xs)

unfoldable pub is_undecryptable_candidate : ClientError → Bool
is_undecryptable_candidate (crypto message) =
    str_eq message "ciphertext authentication failed; payload or metadata was changed"
is_undecryptable_candidate _ = false

module _ {A : Type 0} (load : ObjectId → Result ClientError A) (directory_of : A → String)
    (directory : String) where
  -- the loop over the candidates
  unfoldable pub pick : List Candidate → Result ClientError (Option A)
  pick [] = ok none
  pick (x ∷ xs) =
      let rest = pick xs in
      elim (load (record { uuid = x.uuid })) [
        | ok value ↦ if str_eq (directory_of value) directory then ok (some value) else rest
        | err e ↦ if is_undecryptable_candidate e then rest else err e
      ]

  abbrev pick_from : Result ClientError (List Candidate) → Result ClientError (Option A)
  pick_from (ok candidates) = pick (newest_first (live candidates))
  pick_from (err e) = err e

  -- `none` means that the fuel ran out.
  unfoldable pub discover :
      (ℕ → Result ClientError ChangesResponse) → String → ℕ → Option (Result ClientError (Option A))
  discover api namespace fuel = elim (gather api namespace fuel 0 []) [
    | none ↦ none
    | some found ↦ some (pick_from found)
  ]
