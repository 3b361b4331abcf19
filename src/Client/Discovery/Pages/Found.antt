-- ===== src/Client/Discovery/Pages/Found.antt =====
-- orchestration.rs: what discovery finds has been loaded.
use helium_sync.Prelude.{
  ◌≡◌, Bool-cases, inl, inr, arith, String, some, List, [], ◌∷◌, Result-cases, ok, str_eq, ◌+◌,
  u64_max,
}
use helium_sync.Common.Types.{ObjectId}
use helium_sync.Client.Api
use helium_sync.Client.Api.{Action, Session}
use helium_sync.Client.Sync.{ClientCore, SyncProof}
use helium_sync.Client.Bookmarks.{SnapshotJson, bookmark_namespace, load_bookmarks}
use helium_sync.Client.Discovery.{Candidate, is_undecryptable_candidate, live, newest_first}
use helium_sync.Client.Discovery.Pages.{gather_pages, pick_candidate, discover_bookmarks}
use helium_sync.Profile.Node.{BookmarkSnapshotV1}

module _ {S : Type 0} where
  -- The value came from a load.
  abbrev pub WasLoaded : {A : Type 0} → (ObjectId → Action S A) → A → Type 0
  WasLoaded load value =
      (id : ObjectId) × (s : Session S) × (t : Session S) × (load id s ≡ (ok value, t))

  module _ (core : ClientCore S) where
    pick_candidate-loaded :
        {A : Type 0} (load : ObjectId → Action S (A × SyncProof)) (directory_of : A → String)
        (directory : String) (xs : List Candidate) (s t : Session S) (value : A × SyncProof)
        → pick_candidate core load directory_of directory xs s ≡ (ok (some value), t)
        → WasLoaded load value
    unfolding pick_candidate
    pick_candidate-loaded load directory_of directory [] s t value h = absurd (ground arith)
    pick_candidate-loaded load directory_of directory (x ∷ xs) s t value h =
        let id : ObjectId = record { uuid = x.uuid } in
        elim (Result-cases (load id s).0) [
          | inr (found, got) ↦ elim (Bool-cases (str_eq (directory_of found.0) directory)) [
            | inl own ↦ (id, s, (load id s).1, ground arith)
            | inr other ↦
                pick_candidate-loaded load directory_of directory xs (load id s).1 t value
                  (ground arith)
          ]
          | inl (e, failed) ↦ elim (Bool-cases (is_undecryptable_candidate e)) [
            | inl skipped ↦
                pick_candidate-loaded load directory_of directory xs (load id s).1 t value
                  (ground arith)
            | inr stopped ↦ absurd (ground arith)
          ]
        ]

    pub discover_bookmarks-loaded :
        (json : SnapshotJson) (directory : String) (s t : Session S)
        (value : BookmarkSnapshotV1 × SyncProof)
        → discover_bookmarks core json directory s ≡ (ok (some value), t)
        → WasLoaded (load_bookmarks core json) value
    unfolding discover_bookmarks
    discover_bookmarks-loaded json directory s t value h =
        let a =
          Api.>>=-eq-ok (gather_pages core bookmark_namespace (u64_max + 1) 0 [])
            (λ candidates.
              pick_candidate core (load_bookmarks core json)
                (λ snapshot. snapshot.profile_directory) directory (newest_first (live candidates)))
            s t (some value) h in
        pick_candidate-loaded (load_bookmarks core json) (λ snapshot. snapshot.profile_directory)
          directory (newest_first (live a.0)) a.1 t value a.3
