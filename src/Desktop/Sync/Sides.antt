-- ===== src/Desktop/Sync/Sides.antt =====
-- main.rs: the two sides of a merge in `sync_profile_with_server`: the upload, and the restore of
-- the bookmark file.
use helium_sync.Prelude.{
  ℕ, ◌≡◌, inl, inr, refl, ap, sym, subst, Bool, true, false, arith, String, Option, some, List, [],
  ◌∷◌, ok, eq_iff,
}
use helium_sync.Prelude.Step
use helium_sync.Prelude.Step.{Step, map_err, give}
use helium_sync.Client.Sync.{SyncProof}
use helium_sync.Client.Bookmarks.{load_bookmarks, save_bookmark_snapshot}
use helium_sync.Client.Discovery.Pages.Found.{WasLoaded}
use helium_sync.Profile.Node.{BookmarkRoot, BookmarkSnapshotV1}
use helium_sync.Profile.Node.Equality.{node_eq-eq}
use helium_sync.Profile.Files.{DiscoveredProfile, read_bookmarks}
use helium_sync.Profile.Restore.{RestoreResult, restore_bookmarks}
use helium_sync.Profile.Restore.Laws.{Contents, Lawful}
use helium_sync.Profile.Restore.Kept.{ArePaths}
use helium_sync.Profile.Restore.ReadBack.{Readable, JsonReadsBack, read_bookmarks-restored}
use helium_sync.Desktop.Machine.{Desktop, Turn, Machine, told_profile, on_disk}
use helium_sync.Desktop.Sync.{
  Remote, save_snapshot, to_option, update_remote, update_local, snapshot_eq, roots_eq,
}
use helium_sync.Desktop.Sync.Parts.{IsHeld, HoldsLocally, in_session-ok, on_disk-ok}

roots_eq-eq : (xs ys : List BookmarkRoot) → roots_eq xs ys ≡ true → xs ≡ ys
unfolding roots_eq
roots_eq-eq [] [] h = refl
roots_eq-eq [] (y ∷ ys) h = absurd (ground arith)
roots_eq-eq (x ∷ xs) [] h = absurd (ground arith)
roots_eq-eq (x ∷ xs) (y ∷ ys) h =
    let key = (eq_iff x.key y.key).0 in
    let node = node_eq-eq x.node y.node in let rest = roots_eq-eq xs ys in ground arith

-- The comparison of two snapshots decides their equality.
pub snapshot_eq-eq : (a b : BookmarkSnapshotV1) → snapshot_eq a b ≡ true → a ≡ b
unfolding snapshot_eq
snapshot_eq-eq a b h = ground (
  arith,
  eq_iff a.format b.format,
  eq_iff a.source_browser b.source_browser,
  eq_iff a.profile_directory b.profile_directory,
  roots_eq-eq a.roots b.roots,
)

module _ {S F : Type 0} (desktop : Desktop S F) (turn : Turn) (profile : DiscoveredProfile) where
  pub save_snapshot-IsHeld :
      (snapshot : BookmarkSnapshotV1) (id : _) (base : Option ℕ) (m m' : Machine S F)
      (proof : SyncProof)
      → save_snapshot desktop turn profile snapshot id base m ≡ (ok proof, m')
      → IsHeld desktop turn profile snapshot proof × (m'.disk ≡ m.disk)
  save_snapshot-IsHeld snapshot id base m m' proof h =
      let a =
        in_session-ok desktop.formats.error_text
          (save_bookmark_snapshot desktop.core desktop.snapshot_json turn.bookmark_id
            turn.modified_at turn.bookmark_nonce snapshot id base)
          m m' proof h in
      (inr (id, base, m.session, m'.session, a.0), a.1)

  pub update_remote-IsHeld :
      (changed : Bool) (snapshot : BookmarkSnapshotV1) (remote : Remote) (m m' : Machine S F)
      (proof : SyncProof)
      → (changed ≡ false → snapshot ≡ remote.0)
      → WasLoaded (load_bookmarks desktop.core desktop.snapshot_json) remote
      → update_remote desktop turn profile changed snapshot remote.1 m ≡ (ok proof, m')
      → IsHeld desktop turn profile snapshot proof × (m'.disk ≡ m.disk)
  update_remote-IsHeld true snapshot remote m m' proof same loaded h =
      save_snapshot-IsHeld snapshot (some remote.1.object_id) (some remote.1.revision) m m' proof h
  update_remote-IsHeld false snapshot remote m m' proof same loaded h =
      let e : m' ≡ m = ground arith in
      let p : remote.1 ≡ proof = ground arith in
      (
        inl (
            subst
              (λ (x : BookmarkSnapshotV1).
                WasLoaded (load_bookmarks desktop.core desktop.snapshot_json) (x, proof))
              (sym (same refl))
              (subst
                (λ (x : SyncProof).
                  WasLoaded (load_bookmarks desktop.core desktop.snapshot_json) (remote.0, x))
                p loaded)),
        ap (λ (n : Machine S F). n.disk) e,
      )

-- the file system under a synchronisation
module _ {S F : Type 0} (desktop : Desktop S F) (turn : Turn) (profile : DiscoveredProfile)
    (content : Contents F) (files : Lawful content desktop.fs desktop.zip)
    (readable : Readable content desktop.fs) (reads : JsonReadsBack desktop.bookmarks_json)
    (backup_dir : String)
    (paths : ArePaths desktop.fs desktop.zip turn.unique profile backup_dir) where
  restored_locally :
      (snapshot : BookmarkSnapshotV1) (m m' : Machine S F) (path : Option String)
      → update_local desktop turn profile true snapshot backup_dir m ≡ (ok path, m')
      → HoldsLocally desktop turn profile snapshot m'.disk
  restored_locally snapshot m m' path h =
      let restore =
        restore_bookmarks desktop.fs desktop.zip turn.unique profile desktop.bookmarks_json
          (λ snapshot. to_option (desktop.snapshot_json.write snapshot)) snapshot backup_dir in
      let a =
        Step.>>=-eq-ok (told_profile desktop (on_disk restore))
          (λ (restored : RestoreResult). give (ok (some restored.backup_path))) m m' path h in
      let b = on_disk-ok desktop.profile_text restore m a.1 a.0 a.2 in
      let read =
        read_bookmarks-restored desktop.fs desktop.zip content files readable desktop.bookmarks_json
          reads (λ snapshot. to_option (desktop.snapshot_json.write snapshot)) turn.unique profile
          backup_dir paths snapshot m.disk a.1.disk a.0 b.0 in
      let e : m' ≡ a.1 = ground arith in
      subst (λ (n : Machine S F). HoldsLocally desktop turn profile snapshot n.disk) (sym e)
        (inr read)

  pub update_local-holds :
      (changed : Bool) (local_snapshot snapshot : BookmarkSnapshotV1) (m m' : Machine S F)
      (path : Option String)
      → (changed ≡ false → snapshot ≡ local_snapshot)
      → read_bookmarks desktop.fs desktop.bookmarks_json profile.bookmarks_path
          profile.directory_name m.disk
        ≡ (ok local_snapshot, m.disk)
      → update_local desktop turn profile changed snapshot backup_dir m ≡ (ok path, m')
      → HoldsLocally desktop turn profile snapshot m'.disk
  update_local-holds true local_snapshot snapshot m m' path same read h =
      restored_locally snapshot m m' path h
  update_local-holds false local_snapshot snapshot m m' path same read h =
      let e : m' ≡ m = ground arith in
      subst (λ (n : Machine S F). HoldsLocally desktop turn profile snapshot n.disk) (sym e)
        (subst (λ (b : BookmarkSnapshotV1). HoldsLocally desktop turn profile b m.disk)
          (sym (same refl)) (inl read))
