-- ===== src/Desktop/Sync/Synced.antt =====
-- main.rs: what a synchronisation that succeeds has done, and the last steps of one.
use helium_sync.Prelude.{ℕ, ◌≡◌, ap, ◌∙◌, sym, subst, false, String, Option, ok, length}
use helium_sync.Prelude.Step
use helium_sync.Prelude.Step.{Step, map_err, give}
use helium_sync.Common.Codec.{ReadsBack}
use helium_sync.Client.Crypto.RoundTrip.{Unseals}
use helium_sync.Client.Sync.{SyncProof}
use helium_sync.Client.State.{Statement}
use helium_sync.Profile.Node.{BookmarkSnapshotV1}
use helium_sync.Profile.Files.{DiscoveredProfile, read_bookmarks}
use helium_sync.Desktop.Machine.{Desktop, Turn, Machine}
use helium_sync.Desktop.Extensions.{ExtensionSyncOutcome, sync_extensions_with_server}
use helium_sync.Client.State.Sync.{ObjectMapping}
use helium_sync.Desktop.Records.{persist_sync_state}
use helium_sync.Desktop.Sync.{SyncFeedback, read_local, find_mapping, feedback, stats_of, conclude}
use helium_sync.Desktop.Sync.Recorded.{SnapshotReadsBack, IsRecorded, persist_sync_state-IsRecorded}
use helium_sync.Desktop.Sync.Parts.{Outcome, IsHeld, HoldsLocally, feedback-ok}

module _ {S F : Type 0} (desktop : Desktop S F) (turn : Turn) (profile : DiscoveredProfile)
    (laws : ReadsBack desktop.codec) (unseals : Unseals desktop.core.primitives)
    (size : length turn.base_nonce ≡ 24) (json : SnapshotReadsBack desktop.snapshot_json)
    (later : Turn) (select_mapping : later.fails Statement.select_mapping ≡ false)
    (select_base : later.fails Statement.select_base ≡ false) where
  abbrev pub Recorded : BookmarkSnapshotV1 → SyncProof → Machine S F → Type 0
  Recorded = IsRecorded desktop turn profile laws unseals size json later select_mapping select_base

  abbrev pub ReadsLocally : BookmarkSnapshotV1 → F → Type 0
  ReadsLocally snapshot disk =
      read_bookmarks desktop.fs desktop.bookmarks_json profile.bookmarks_path profile.directory_name
        disk
      ≡ (ok snapshot, disk)

  -- The steps from the start to the snapshot: the extensions are synchronised, the bookmark file
  -- then holds `before`, and what the mapping of these bookmarks names is asked for.
  abbrev pub Came :
      String → Machine S F → BookmarkSnapshotV1 → BookmarkSnapshotV1 → SyncProof → ℕ → Type 0
  Came backup_dir start before snapshot proof conflicts =
      (extensions : ExtensionSyncOutcome) × (t : Machine S F) × (u : Machine S F) × (found : Option
        ObjectMapping)
      × (n : Machine S F) × (sync_extensions_with_server desktop turn profile backup_dir start
          ≡ (ok extensions, t))
      × ReadsLocally before t.disk
      × (read_local desktop turn profile t ≡ (ok before, u))
      × (find_mapping desktop turn profile u ≡ (ok found, n))
      × Outcome desktop turn profile before found n snapshot proof conflicts

  -- The file, the server and the recorded base agree on a snapshot.
  pub record IsSynced (backup_dir : String) (start : Machine S F) (f : SyncFeedback)
      (m : Machine S F) : Type 0 where
    -- the snapshot that the bookmark file held
    pub before : BookmarkSnapshotV1
    pub snapshot : BookmarkSnapshotV1
    pub proof : SyncProof
    pub came : Came backup_dir start before snapshot proof f.conflicts
    pub revision : f.revision ≡ proof.revision
    pub held : IsHeld desktop turn profile snapshot proof
    pub recorded : Recorded snapshot proof m
    pub local : HoldsLocally desktop turn profile snapshot m.disk

  pub conclude-IsSynced :
      (action message : String) (snapshot : BookmarkSnapshotV1) (proof : SyncProof) (conflicts : ℕ)
      (backup_path : Option String) (extensions : ExtensionSyncOutcome) (m m' : Machine S F)
      (f : SyncFeedback)
      → conclude desktop turn profile action message snapshot proof conflicts backup_path extensions
          m
        ≡ (ok f, m')
      → IsHeld desktop turn profile snapshot proof
      → HoldsLocally desktop turn profile snapshot m.disk
      → (dir : String) (start : Machine S F) (before : BookmarkSnapshotV1)
      → Came dir start before snapshot proof conflicts
      → IsSynced dir start f m'
  conclude-IsSynced action message snapshot proof conflicts backup_path extensions m m' f h held
        local dir start before came =
      let a =
        Step.>>=-eq-ok (persist_sync_state desktop turn profile snapshot proof)
          (λ _.
            feedback desktop turn profile action message (stats_of desktop turn profile snapshot)
              proof conflicts backup_path extensions)
          m m' f h in
      let recorded =
        persist_sync_state-IsRecorded desktop turn profile laws unseals size json later
          select_mapping select_base snapshot proof m a.1 a.2 in
      let told =
        feedback-ok desktop turn profile action message (stats_of desktop turn profile snapshot)
          proof conflicts backup_path extensions a.1 m' f a.3 in
      record {
        before = before;
        snapshot = snapshot;
        came = subst (Came dir start before snapshot proof) (sym told.1) came;
        proof = proof;
        revision = told.0;
        held = held;
        recorded = subst (Recorded snapshot proof) (sym told.2) recorded.0;
        local =
            subst (HoldsLocally desktop turn profile snapshot)
              (sym recorded.1 ∙ ap (λ (n : Machine S F). n.disk) (sym told.2)) local;
      }
