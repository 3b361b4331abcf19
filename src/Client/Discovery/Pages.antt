-- ===== src/Client/Discovery/Pages.antt =====
-- orchestration.rs: `discover_bookmarks` and `discover_extension_bundle` as calls of the API client,
-- whose requests may change the world behind it. A cursor is a `u64` that goes up from page to page,
-- so fuel for each `u64` is enough.
pub mod Enough
pub mod Found
use helium_sync.Prelude.{
  ℕ, zero, suc, ◌+◌, Bool, true, false, leb, str_eq, if◌then◌else◌, String, Option, none, some,
  List, [], ◌∷◌, Result, ok, err, u64_max,
}
use helium_sync.Common.Types.{ObjectId, ChangesResponse}
use helium_sync.Client.Errors.{ClientError}
use helium_sync.Client.Api
use helium_sync.Client.Api.{Action, Session, ◌>>=◌, lift}
use helium_sync.Client.Sync.{ClientCore, SyncProof}
use helium_sync.Client.Extensions.{ExtensionManifestV1, Formats, extension_manifest_namespace}
use helium_sync.Client.Extensions.Load.{load_extension_manifest}
use helium_sync.Client.Bookmarks.{SnapshotJson, bookmark_namespace, load_bookmarks}
use helium_sync.Client.Discovery.{
  Candidate, note_all, cursor_did_not_advance, live, newest_first, is_undecryptable_candidate,
}
use helium_sync.Profile.Node.{BookmarkSnapshotV1}

module _ {S : Type 0} (core : ClientCore S) where
  -- the loop over the pages, and the page that has been received
  unfoldable pub gather_pages : String → ℕ → ℕ → List Candidate → Action S (List Candidate)
  gather_pages namespace zero after candidates s = (err cursor_did_not_advance, s)
  gather_pages namespace (suc fuel) after candidates s =
      let r = Api.changes core.api after s in
      elim r.0 [
        | err e ↦ (err e, r.1)
        | ok page ↦ elim page.has_more [
          | false ↦ (ok (note_all namespace candidates page.changes), r.1)
          | true ↦ elim (leb page.next_cursor after) [
            | true ↦ (err cursor_did_not_advance, r.1)
            | false ↦
                gather_pages namespace fuel page.next_cursor
                  (note_all namespace candidates page.changes) r.1
          ]
        ]
      ]

  module _ {A : Type 0} (load : ObjectId → Action S (A × SyncProof)) (directory_of : A → String)
      (directory : String) where
    -- the loop over the candidates
    unfoldable pub pick_candidate : List Candidate → Action S (Option (A × SyncProof))
    pick_candidate [] s = (ok none, s)
    pick_candidate (x ∷ xs) s =
        let r = load (record { uuid = x.uuid }) s in
        elim r.0 [
          | ok value ↦ elim (str_eq (directory_of value.0) directory) [
            | true ↦ (ok (some value), r.1)
            | false ↦ pick_candidate xs r.1
          ]
          | err e ↦ elim (is_undecryptable_candidate e) [
            | true ↦ pick_candidate xs r.1
            | false ↦ (err e, r.1)
          ]
        ]

    abbrev discover_in : String → Action S (Option (A × SyncProof))
    discover_in namespace = do
      candidates ← gather_pages namespace (u64_max + 1) 0 []
      pick_candidate (newest_first (live candidates))

  unfoldable pub discover_bookmarks :
      SnapshotJson → String → Action S (Option (BookmarkSnapshotV1 × SyncProof))
  discover_bookmarks json profile_directory =
      discover_in (load_bookmarks core json) (λ snapshot. snapshot.profile_directory)
        profile_directory bookmark_namespace

  unfoldable pub discover_extension_bundle :
      Formats → String → Action S (Option (ExtensionManifestV1 × SyncProof))
  discover_extension_bundle f profile_directory =
      discover_in (load_extension_manifest core f) (λ manifest. manifest.profile_directory)
        profile_directory extension_manifest_namespace
