-- ===== src/Desktop/Sync/Converged.antt =====
-- main.rs: `sync_profile_with_server` as a whole.
use helium_sync.Prelude.{
  ℕ, ◌≡◌, inl, inr, refl, ap, ◌∙◌, sym, subst, Bool, true, false, Result-cases, arith, String,
  Option, none, some, ok, length,
}
use helium_sync.Prelude.Step
use helium_sync.Prelude.Step.{Step, map_err, give}
use helium_sync.Common.Codec.{ReadsBack}
use helium_sync.Client.Crypto.RoundTrip.{Unseals}
use helium_sync.Client.Bookmarks.{load_bookmarks, bookmark_namespace}
use helium_sync.Client.Discovery.Pages.Found.{WasLoaded}
use helium_sync.Client.Sync.{SyncProof}
use helium_sync.Client.State.{Statement}
use helium_sync.Client.State.Sync.{ObjectMapping, mapping}
use helium_sync.Profile.Node.{BookmarkSnapshotV1}
use helium_sync.Profile.Merge.{BookmarkMergeResult, merge_bookmarks}
use helium_sync.Profile.Files.{DiscoveredProfile, read_bookmarks}
use helium_sync.Profile.Restore.Laws.{Contents, Lawful}
use helium_sync.Profile.Restore.Kept.{ArePaths}
use helium_sync.Profile.Restore.ReadBack.{Readable, JsonReadsBack, read_bookmarks-quiet}
use helium_sync.Desktop.Machine.{Desktop, Turn, Machine, prefixed}
use helium_sync.Desktop.Extensions.{sync_extensions_with_server}
use helium_sync.Desktop.Extensions.{ExtensionSyncOutcome}
use helium_sync.Desktop.Records.{bookmark_base, key_in}
use helium_sync.Desktop.Sync.{
  SyncFeedback, Remote, read_local, find_mapping, remote_at, save_snapshot, stats_of, started,
  merged_message, start_sync, conclude, merge_with, update_remote, update_local, apply_locally,
  apply_merged, merge_and_apply, continue_sync, fetch_and_continue, find_and_continue,
  sync_bookmarks, sync_profile_with_server, remote_changed, local_changed,
}
use helium_sync.Desktop.Sync.Recorded.{SnapshotReadsBack, in_database-ok}
use helium_sync.Desktop.Sync.Parts.{
  Outcome, HoldsLocally, on_disk-ok, remote_at-held, remote_at-disk, bookmark_base-disk,
  merge_with-same,
}
use helium_sync.Desktop.Sync.Sides.{
  snapshot_eq-eq, update_local-holds, update_remote-IsHeld, save_snapshot-IsHeld,
}
use helium_sync.Desktop.Sync.Synced.{Came, IsSynced, ReadsLocally, conclude-IsSynced}

map_err-ok :
    {E E' S A : Type 0} (name : E → E') (step : Step E S A) (s t : S) (a : A)
    → map_err name step s ≡ (ok a, t)
    → step s ≡ (ok a, t)
map_err-ok name step s t a h = elim (Result-cases (step s).0) [
  | inl (e, p) ↦ absurd (ground arith)
  | inr (b, p) ↦ ground arith
]

-- the file system under a synchronisation
module _ {S F : Type 0} (desktop : Desktop S F) (turn : Turn) (profile : DiscoveredProfile)
    (content : Contents F) (files : Lawful content desktop.fs desktop.zip)
    (readable : Readable content desktop.fs) (reads : JsonReadsBack desktop.bookmarks_json)
    (backup_dir : String)
    (paths : ArePaths desktop.fs desktop.zip turn.unique profile backup_dir) where
  module _ (laws : ReadsBack desktop.codec) (unseals : Unseals desktop.core.primitives)
      (size : length turn.base_nonce ≡ 24) (json : SnapshotReadsBack desktop.snapshot_json)
      (later : Turn) (select_mapping : later.fails Statement.select_mapping ≡ false)
      (select_base : later.fails Statement.select_base ≡ false) where
    abbrev Agrees : Machine S F → SyncFeedback → Machine S F → Type 0
    Agrees =
        IsSynced desktop turn profile laws unseals size json later select_mapping select_base
          backup_dir

    abbrev CameTo : Machine S F → BookmarkSnapshotV1 → BookmarkSnapshotV1 → SyncProof → ℕ → Type 0
    CameTo =
        Came desktop turn profile laws unseals size json later select_mapping select_base backup_dir

    abbrev Reads : BookmarkSnapshotV1 → F → Type 0
    Reads =
        ReadsLocally desktop turn profile laws unseals size json later select_mapping select_base

    start_sync-IsSynced :
        (extensions : ExtensionSyncOutcome) (local_snapshot : BookmarkSnapshotV1)
        (m m' : Machine S F) (f : SyncFeedback)
        → Reads local_snapshot m.disk
        → (start : Machine S F)
        → ((proof : SyncProof) (u : Machine S F)
            → save_snapshot desktop turn profile local_snapshot none none m ≡ (ok proof, u)
            → CameTo start local_snapshot local_snapshot proof 0)
        → start_sync desktop turn profile extensions local_snapshot m ≡ (ok f, m')
        → Agrees start f m'
    start_sync-IsSynced extensions local_snapshot m m' f read start came h =
        let a =
          Step.>>=-eq-ok (save_snapshot desktop turn profile local_snapshot none none)
            (λ proof.
              conclude desktop turn profile "synced"
                (started desktop turn profile (stats_of desktop turn profile local_snapshot)
                  extensions)
                local_snapshot proof 0 none extensions)
            m m' f h in
        let held =
          save_snapshot-IsHeld desktop turn profile local_snapshot none none m a.1 a.0 a.2 in
        conclude-IsSynced desktop turn profile laws unseals size json later select_mapping
          select_base _ _ local_snapshot a.0 0 none extensions a.1 m' f a.3 held.0
          (subst (HoldsLocally desktop turn profile local_snapshot) (sym held.1) (inl read))
          backup_dir start local_snapshot (came a.0 a.1 a.2)

    apply_merged-IsSynced :
        (extensions : ExtensionSyncOutcome) (local_snapshot : BookmarkSnapshotV1) (remote : Remote)
        (merged : BookmarkMergeResult) (m m' : Machine S F) (f : SyncFeedback)
        → Reads local_snapshot m.disk
        → WasLoaded (load_bookmarks desktop.core desktop.snapshot_json) remote
        → (start : Machine S F)
        → ((proof : SyncProof) (u : Machine S F)
            → update_remote desktop turn profile
                (remote_changed desktop turn profile merged remote)
                merged.snapshot
                remote.1
                m
              ≡ (ok proof, u)
            → CameTo start local_snapshot merged.snapshot proof merged.conflicts)
        → apply_merged desktop turn profile backup_dir extensions local_snapshot remote merged m
          ≡ (ok f, m')
        → Agrees start f m'
    apply_merged-IsSynced extensions local_snapshot remote merged m m' f read loaded start came h =
        let a =
          Step.>>=-eq-ok
            (update_remote desktop turn profile (remote_changed desktop turn profile merged remote)
              merged.snapshot remote.1)
            (apply_locally desktop turn profile backup_dir extensions local_snapshot remote merged)
            m m' f h in
        let held =
          update_remote-IsHeld desktop turn profile
            (remote_changed desktop turn profile merged remote) merged.snapshot remote m a.1 a.0
            (λ same. snapshot_eq-eq merged.snapshot remote.0 (ground arith)) loaded a.2 in
        let b =
          Step.>>=-eq-ok
            (update_local desktop turn profile
              (local_changed desktop turn profile merged local_snapshot) merged.snapshot backup_dir)
            (λ backup_path.
              conclude desktop turn profile "synced"
                (merged_message desktop turn profile merged local_snapshot remote extensions)
                merged.snapshot a.0 merged.conflicts backup_path extensions)
            a.1 m' f a.3 in
        let holds =
          update_local-holds desktop turn profile content files readable reads backup_dir paths
            (local_changed desktop turn profile merged local_snapshot) local_snapshot
            merged.snapshot a.1 b.1 b.0
            (λ same. snapshot_eq-eq merged.snapshot local_snapshot (ground arith))
            (subst (Reads local_snapshot) (sym held.1) read) b.2 in
        conclude-IsSynced desktop turn profile laws unseals size json later select_mapping
          select_base _ _ merged.snapshot a.0 merged.conflicts b.0 extensions b.1 m' f b.3 held.0
          holds backup_dir start local_snapshot (came a.0 a.1 a.2)

    -- the merge of the base, and where it is kept
    merged-Outcome :
        (local_snapshot : BookmarkSnapshotV1) (found : Option ObjectMapping) (n t u : Machine S F)
        (remote : Remote) (base : Option BookmarkSnapshotV1) (merged : BookmarkMergeResult)
        → remote_at desktop turn profile found n ≡ (ok (some remote), t)
        → bookmark_base desktop turn profile t ≡ (ok base, u)
        → merge_bookmarks base local_snapshot remote.0 ≡ ok merged
        → (changed : Bool) → (changed ≡ false → merged.snapshot ≡ remote.0)
        → (proof : SyncProof) (w : Machine S F)
        → update_remote desktop turn profile changed merged.snapshot remote.1 u ≡ (ok proof, w)
        → Outcome desktop turn profile local_snapshot found n merged.snapshot proof merged.conflicts
    merged-Outcome local_snapshot found n t u remote base merged asked opened whole true same proof
          w saved =
        Outcome.uploaded asked opened whole saved
    merged-Outcome local_snapshot found n t u remote base merged asked opened whole false same proof
          w saved =
        let is_remote = same refl in
        let its_proof : remote.1 ≡ proof = ground arith in
        subst
          (λ (x : BookmarkSnapshotV1).
            Outcome desktop turn profile local_snapshot found n x proof merged.conflicts)
          (sym is_remote)
          (subst
            (λ (x : SyncProof).
              Outcome desktop turn profile local_snapshot found n remote.0 x merged.conflicts)
            its_proof
            (Outcome.kept asked opened (
              whole
              ∙ ap
                  (λ (x : BookmarkSnapshotV1).
                    ok (record { snapshot = x; conflicts = merged.conflicts }))
                  is_remote)))

    continue_sync-IsSynced :
        (remote : Option Remote) (extensions : ExtensionSyncOutcome)
        (local_snapshot : BookmarkSnapshotV1) (found : Option ObjectMapping) (n m m' : Machine S F)
        (f : SyncFeedback)
        → Reads local_snapshot m.disk
        → remote_at desktop turn profile found n ≡ (ok remote, m)
        → (start : Machine S F)
        → ((snapshot : BookmarkSnapshotV1) (proof : SyncProof) (conflicts : ℕ)
            → Outcome desktop turn profile local_snapshot found n snapshot proof conflicts
            → CameTo start local_snapshot snapshot proof conflicts)
        → continue_sync desktop turn profile backup_dir extensions local_snapshot remote m
          ≡ (ok f, m')
        → Agrees start f m'
    continue_sync-IsSynced none extensions local_snapshot found n m m' f read asked start came h =
        start_sync-IsSynced extensions local_snapshot m m' f read start
          (λ proof u saved. came local_snapshot proof 0 (Outcome.started asked saved)) h
    continue_sync-IsSynced (some remote) extensions local_snapshot found n m m' f read asked start
          came h =
        let a =
          Step.>>=-eq-ok (bookmark_base desktop turn profile)
            (merge_and_apply desktop turn profile backup_dir extensions local_snapshot remote) m m'
            f h in
        let quiet = bookmark_base-disk desktop turn profile m a.1 a.0 a.2 in
        let b =
          Step.>>=-eq-ok (merge_with desktop turn profile a.0 local_snapshot remote.0)
            (apply_merged desktop turn profile backup_dir extensions local_snapshot remote) a.1 m' f
            a.3 in
        let merged =
          merge_with-same desktop turn profile a.0 local_snapshot remote.0 a.1 b.1 b.0 b.2 in
        let changed = remote_changed desktop turn profile b.0 remote in
        apply_merged-IsSynced extensions local_snapshot remote b.0 b.1 m' f
          (subst (Reads local_snapshot) (sym (ap (λ (n : Machine S F). n.disk) merged.1 ∙ quiet))
            read)
          (remote_at-held desktop turn profile found n m remote asked) start
          (λ proof w saved. came b.0.snapshot proof b.0.conflicts (
            merged-Outcome local_snapshot found n m a.1 remote a.0 b.0 asked a.2 merged.0 changed
              (λ same. snapshot_eq-eq b.0.snapshot remote.0 (ground arith)) proof w
              (subst
                (λ (x : Machine S F).
                  update_remote desktop turn profile changed b.0.snapshot remote.1 x
                  ≡ (ok proof, w))
                merged.1 saved)))
          b.3

    -- A synchronisation of a profile that succeeds has come to one snapshot. Where the bookmark
    -- file, after the extensions, holds a local snapshot: if the server answers that it has no
    -- copy, the snapshot is the local one, and it has been saved as a new object, without a base;
    -- otherwise it is the merge of the local one with the one that the server answers against the
    -- base that is recorded then, with the conflicts that it reports, and it has been saved at the
    -- object and revision that the server answered, or is the server's own. Then the server holds
    -- it (it was loaded or saved there, with the reported revision), the recorded base and the
    -- mapping read as this snapshot and its object and revision, and the bookmark file reads as
    -- this snapshot, or as what a restore of it leaves in the file. This holds under the laws of
    -- the codec, the ciphers, JSON and the file system, where the four paths of a restore differ,
    -- the nonce of the base has 24 bytes, and the database executes the later reads.
    pub sync_profile_with_server-IsSynced :
        (m m' : Machine S F) (f : SyncFeedback)
        → sync_profile_with_server desktop turn profile backup_dir m ≡ (ok f, m')
        → Agrees m f m'
    unfolding sync_profile_with_server
    sync_profile_with_server-IsSynced m m' f h =
        let a =
          Step.>>=-eq-ok
            (prefixed "Extension sync stopped before bookmark sync: "
              (sync_extensions_with_server desktop turn profile backup_dir))
            (sync_bookmarks desktop turn profile backup_dir) m m' f h in
        let b =
          Step.>>=-eq-ok (read_local desktop turn profile)
            (find_and_continue desktop turn profile backup_dir a.0) a.1 m' f a.3 in
        let read =
          on_disk-ok desktop.profile_text
            (read_bookmarks desktop.fs desktop.bookmarks_json profile.bookmarks_path
              profile.directory_name)
            a.1 b.1 b.0 b.2 in
        let quiet =
          read_bookmarks-quiet desktop.fs content readable desktop.bookmarks_json
            profile.bookmarks_path profile.directory_name a.1.disk b.1.disk b.0 read.0 in
        let here : Reads b.0 b.1.disk =
          ap
            (read_bookmarks desktop.fs desktop.bookmarks_json profile.bookmarks_path
              profile.directory_name)
            quiet
          ∙ read.0 in
        let c =
          Step.>>=-eq-ok (find_mapping desktop turn profile)
            (fetch_and_continue desktop turn profile backup_dir a.0 b.0) b.1 m' f b.3 in
        let mapped =
          in_database-ok desktop.formats.error_text
            (mapping desktop.codec turn.fails (key_in desktop turn profile bookmark_namespace)) b.1
            c.1 c.0 c.2 in
        let d =
          Step.>>=-eq-ok (remote_at desktop turn profile c.0)
            (continue_sync desktop turn profile backup_dir a.0 b.0) c.1 m' f c.3 in
        let disk = remote_at-disk desktop turn profile c.0 c.1 d.1 d.0 d.2 in
        let there : Reads b.0 d.1.disk =
          subst (Reads b.0) (sym (disk ∙ ap (λ (n : Machine S F). n.disk) mapped.2)) here in
        continue_sync-IsSynced d.0 a.0 b.0 c.0 c.1 d.1 m' f there d.2 m
          (λ snapshot proof conflicts outcome. (
            a.0,
            a.1,
            b.1,
            c.0,
            c.1,
            map_err-ok _ (sync_extensions_with_server desktop turn profile backup_dir) m a.1 a.0
                a.2,
            subst (Reads b.0) quiet here,
            b.2,
            c.2,
            outcome,
          ))
          d.3
