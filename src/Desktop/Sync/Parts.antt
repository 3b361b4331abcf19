-- ===== src/Desktop/Sync/Parts.antt =====
-- main.rs: what the steps of `sync_profile_with_server` keep and find.
use helium_sync.Prelude.{
  ℕ, ◌≡◌, ◌⊎◌, inl, inr, ap, ◌∙◌, arith, String, Option, none, some, List, ok, Result-cases,
}
use helium_sync.Prelude.Step
use helium_sync.Prelude.Fallible
use helium_sync.Prelude.Step.{Step, map_err, give, ◌>>=◌}
use helium_sync.Common.Types.{ObjectId}
use helium_sync.Client.Errors.{ClientError}
use helium_sync.Client.Api.{Action, Session}
use helium_sync.Client.Sync.{SyncProof}
use helium_sync.Client.Bookmarks.{load_bookmarks, save_bookmark_snapshot}
use helium_sync.Client.Discovery.Pages.{discover_bookmarks}
use helium_sync.Client.Discovery.Pages.Found.{WasLoaded, discover_bookmarks-loaded}
use helium_sync.Client.State.{Database}
use helium_sync.Client.State.Profiles.{profile_preferences, ProfilePreference}
use helium_sync.Client.State.Sync.{ObjectMapping}
use helium_sync.Profile.Stats.{BookmarkStats}
use helium_sync.Profile.Node.{BookmarkSnapshotV1}
use helium_sync.Profile.Files.{DiscoveredProfile, read_bookmarks}
use helium_sync.Profile.Restore.ReadBack.{as_in_file}
use helium_sync.Desktop.Machine.{Desktop, Turn, Machine, in_session, in_database, on_disk, told}
use helium_sync.Desktop.Extensions.{ExtensionSyncOutcome}
use helium_sync.Desktop.Records.{bookmark_base}
use helium_sync.Desktop.Records.{bookmark_base, stored_base, open_base, key_in}
use helium_sync.Client.State.Sync.{sync_base}
use helium_sync.Client.Bookmarks.{bookmark_namespace}
use helium_sync.Prelude.Fallible
use helium_sync.Profile.Merge.{BookmarkMergeResult, merge_bookmarks}
use helium_sync.Desktop.Sync.{
  save_snapshot, merge_with, name_in, SyncFeedback, Remote, profile_name, feedback, remote_at,
  load_at, merge_with,
}
use helium_sync.Desktop.Sync.Recorded.{in_database-ok, give-ok}

module _ {S F : Type 0} where
  pub in_session-ok :
      {A : Type 0} (name : ClientError → String) (action : Action S A) (m m' : Machine S F) (a : A)
      → map_err name (in_session action) m ≡ (ok a, m')
      → (action m.session ≡ (ok a, m'.session)) × (m'.disk ≡ m.disk) × (m'.database ≡ m.database)
  in_session-ok name action m m' a h = elim (Result-cases (action m.session).0) [
    | inl (e, p) ↦ absurd (ground arith)
    | inr (b, p) ↦ (ground arith, ground arith, ground arith)
  ]

  pub on_disk-ok :
      {E A : Type 0} (name : E → String) (step : Step E F A) (m m' : Machine S F) (a : A)
      → map_err name (on_disk step) m ≡ (ok a, m')
      → (step m.disk ≡ (ok a, m'.disk)) × (m'.database ≡ m.database)
  on_disk-ok name step m m' a h = elim (Result-cases (step m.disk).0) [
    | inl (e, p) ↦ absurd (ground arith)
    | inr (b, p) ↦ (ground arith, ground arith)
  ]

module _ {S F : Type 0} (desktop : Desktop S F) (turn : Turn) (profile : DiscoveredProfile) where
  -- The snapshot was loaded from the server with the proof, or saved there with it.
  abbrev pub IsHeld : BookmarkSnapshotV1 → SyncProof → Type 0
  IsHeld snapshot proof =
      WasLoaded (load_bookmarks desktop.core desktop.snapshot_json) (snapshot, proof)
      ⊎ ((id : Option ObjectId) × (base : Option ℕ) × (s : Session S) × (t : Session S)
          × (save_bookmark_snapshot desktop.core desktop.snapshot_json turn.bookmark_id
                turn.modified_at turn.bookmark_nonce snapshot id base s
              ≡ (ok proof, t)))

  -- How a snapshot and its proof have come about, with the conflicts, from the machine on which the
  -- server is asked: there is no copy, and the local snapshot is saved as a new object; or the local
  -- one is merged with the server's against the base that is recorded, and the merge is the
  -- server's, or is saved at the server's object and revision.
  pub data Outcome (local_snapshot : BookmarkSnapshotV1) (found : Option ObjectMapping)
      (n : Machine S F) : BookmarkSnapshotV1 → SyncProof → ℕ → Type 0 where
    started :
        {t u : Machine S F} {proof : SyncProof}
        → remote_at desktop turn profile found n ≡ (ok none, t)
        → save_snapshot desktop turn profile local_snapshot none none t ≡ (ok proof, u)
        → Outcome local_snapshot found n local_snapshot proof 0
    kept :
        {t u : Machine S F} {remote : Remote} {base : Option BookmarkSnapshotV1} {conflicts : ℕ}
        → remote_at desktop turn profile found n ≡ (ok (some remote), t)
        → bookmark_base desktop turn profile t ≡ (ok base, u)
        → merge_bookmarks base local_snapshot remote.0
          ≡ ok (record { snapshot = remote.0; conflicts = conflicts })
        → Outcome local_snapshot found n remote.0 remote.1 conflicts
    uploaded :
        {t u w : Machine S F} {remote : Remote} {base : Option BookmarkSnapshotV1}
        {snapshot : BookmarkSnapshotV1} {proof : SyncProof} {conflicts : ℕ}
        → remote_at desktop turn profile found n ≡ (ok (some remote), t)
        → bookmark_base desktop turn profile t ≡ (ok base, u)
        → merge_bookmarks base local_snapshot remote.0
          ≡ ok (record { snapshot = snapshot; conflicts = conflicts })
        → save_snapshot desktop turn profile snapshot
            (some remote.1.object_id)
            (some remote.1.revision)
            u
          ≡ (ok proof, w)
        → Outcome local_snapshot found n snapshot proof conflicts

  -- The bookmark file holds the snapshot: as it is, or as a restore has written it.
  abbrev pub HoldsLocally : BookmarkSnapshotV1 → F → Type 0
  HoldsLocally snapshot disk =
      (read_bookmarks desktop.fs desktop.bookmarks_json profile.bookmarks_path
          profile.directory_name disk
        ≡ (ok snapshot, disk))
      ⊎ (read_bookmarks desktop.fs desktop.bookmarks_json profile.bookmarks_path
            profile.directory_name disk
          ≡ (ok (as_in_file snapshot), disk))

  profile_preferences-quiet :
      (d d' : Database) (ps : List ProfilePreference)
      → profile_preferences turn.fails d ≡ ok (ps, d')
      → d' ≡ d
  unfolding profile_preferences
  profile_preferences-quiet d d' ps h = ground arith

  same_machine :
      (m m' : Machine S F) (d : Database) → m' ≡ record m { database = d } → d ≡ m.database → m' ≡ m
  same_machine m m' d h e = h ∙ ap (λ (x : Database). record m { database = x }) e

  profile_name-ok :
      (m m' : Machine S F) (name : String)
      → profile_name desktop turn profile m ≡ (ok name, m')
      → m' ≡ m
  unfolding profile_name
  profile_name-ok m m' name h =
      let a =
        Step.>>=-eq-ok (told desktop (in_database (profile_preferences turn.fails)))
          (λ preferences. give (ok (name_in desktop turn profile preferences))) m m' name h in
      let b =
        in_database-ok desktop.formats.error_text (profile_preferences turn.fails) m a.1 a.0 a.2 in
      let quiet = profile_preferences-quiet m.database b.0 a.0 b.1 in
      let e : m' ≡ a.1 = ground arith in e ∙ same_machine m a.1 b.0 b.2 quiet

  pub feedback-ok :
      (action message : String) (stats : BookmarkStats) (proof : SyncProof) (conflicts : ℕ)
      (backup_path : Option String) (extensions : ExtensionSyncOutcome) (m m' : Machine S F)
      (f : SyncFeedback)
      → feedback desktop turn profile action message stats proof conflicts backup_path extensions m
        ≡ (ok f, m')
      → (f.revision ≡ proof.revision) × (f.conflicts ≡ conflicts) × (m' ≡ m)
  feedback-ok action message stats proof conflicts backup_path extensions m m' f h =
      elim (Result-cases (profile_name desktop turn profile m).0) [
        | inl (e, failed) ↦ absurd (ground arith)
        | inr (name, got) ↦
            let same =
              profile_name-ok m (profile_name desktop turn profile m).1 name (ground arith) in
            (ground arith, ground arith, ground arith)
      ]

  pub remote_at-held :
      (found : Option ObjectMapping) (m m' : Machine S F) (remote : Remote)
      → remote_at desktop turn profile found m ≡ (ok (some remote), m')
      → WasLoaded (load_bookmarks desktop.core desktop.snapshot_json) remote
  remote_at-held none m m' remote h =
      let a =
        in_session-ok desktop.formats.error_text
          (discover_bookmarks desktop.core desktop.snapshot_json profile.directory_name) m m'
          (some remote) h in
      discover_bookmarks-loaded desktop.core desktop.snapshot_json profile.directory_name m.session
        m'.session remote a.0
  remote_at-held (some found) m m' remote h =
      let a =
        Step.>>=-eq-ok (load_at desktop turn profile found.object_id) (λ r. give (ok (some r))) m m'
          (some remote) h in
      let b =
        in_session-ok desktop.formats.error_text
          (load_bookmarks desktop.core desktop.snapshot_json found.object_id) m a.1 a.0 a.2 in
      let same : a.0 ≡ remote = ground arith in
      (found.object_id, m.session, a.1.session, b.0 ∙ ap (λ (r : Remote). (ok r, a.1.session)) same)

  pub remote_at-disk :
      (found : Option ObjectMapping) (m m' : Machine S F) (remote : Option Remote)
      → remote_at desktop turn profile found m ≡ (ok remote, m')
      → m'.disk ≡ m.disk
  remote_at-disk none m m' remote h =
      (in_session-ok desktop.formats.error_text
        (discover_bookmarks desktop.core desktop.snapshot_json profile.directory_name) m m' remote
        h).1
  remote_at-disk (some found) m m' remote h =
      let a =
        Step.>>=-eq-ok (load_at desktop turn profile found.object_id) (λ r. give (ok (some r))) m m'
          remote h in
      let b =
        in_session-ok desktop.formats.error_text
          (load_bookmarks desktop.core desktop.snapshot_json found.object_id) m a.1 a.0 a.2 in
      let e : m'.disk ≡ a.1.disk = ground arith in e ∙ b.1

  pub bookmark_base-disk :
      (m m' : Machine S F) (base : Option BookmarkSnapshotV1)
      → bookmark_base desktop turn profile m ≡ (ok base, m')
      → m'.disk ≡ m.disk
  unfolding bookmark_base
  bookmark_base-disk m m' base h =
      let a =
        Step.>>=-eq-ok (stored_base desktop turn profile bookmark_namespace)
          (λ stored. give (Fallible.transpose (open_base desktop turn profile) stored)) m m' base
          h in
      let b =
        in_database-ok desktop.formats.error_text
          (sync_base turn.fails (key_in desktop turn profile bookmark_namespace)) m a.1 a.0 a.2 in
      let c = give-ok (Fallible.transpose (open_base desktop turn profile) a.0) a.1 m' base a.3 in
      ap (λ (n : Machine S F). n.disk) (c.1 ∙ b.2)

  pub merge_with-same :
      (base : Option BookmarkSnapshotV1) (local_snapshot remote_snapshot : BookmarkSnapshotV1)
      (m m' : Machine S F) (merged : BookmarkMergeResult)
      → merge_with desktop turn profile base local_snapshot remote_snapshot m ≡ (ok merged, m')
      → (merge_bookmarks base local_snapshot remote_snapshot ≡ ok merged) × (m' ≡ m)
  merge_with-same base local_snapshot remote_snapshot m m' merged h =
      elim (Result-cases (merge_bookmarks base local_snapshot remote_snapshot)) [
        | inl (e, failed) ↦ absurd (ground arith)
        | inr (r, done) ↦ (ground arith, ground arith)
      ]
