-- ===== src/Desktop/Sync/Recorded.antt =====
-- main.rs: what `sync_profile_with_server` leaves behind: the bookmark file, the object of the server
-- and the recorded base.
use helium_sync.Prelude.{
  ℕ, ◌≡◌, inl, inr, refl, ap, ◌∙◌, sym, subst, false, arith, String, some, List, Result, ok, err,
  Result-cases, length,
}
use helium_sync.Prelude.Step
use helium_sync.Prelude.Fallible
use helium_sync.Prelude.Step.{Step, map_err, give, ◌>>=◌}
use helium_sync.Common.Codec.{ReadsBack}
use helium_sync.Client.Errors.{ClientError}
use helium_sync.Client.Sync.{SyncProof}
use helium_sync.Client.State.{Database, Statement, Query}
use helium_sync.Client.State.Sync.{save_sync_state, mapping}
use helium_sync.Profile.Node.{BookmarkSnapshotV1}
use helium_sync.Profile.Files.{DiscoveredProfile}
use helium_sync.Desktop.Machine.{Desktop, Turn, Machine, in_database, or_prefixed}
use helium_sync.Client.Crypto.RoundTrip.{Unseals, decrypt_local_state-encrypt_local_state}
use helium_sync.Client.Bookmarks.{
  SnapshotJson, bookmark_namespace, purpose, protect_sync_base, open_sync_base,
}
use helium_sync.Client.State.Sync.Recorded.{save_sync_state-recorded}
use helium_sync.Desktop.Records.{
  text_of, open_base, sealed_base, protected, key_in, persist_sync_state, bookmark_base, save_state,
}

module _ {S F : Type 0} where
  -- A step on one part of the machine that has succeeded has succeeded there.
  pub in_database-ok :
      {A : Type 0} (name : ClientError → String) (query : Query A) (m m' : Machine S F) (a : A)
      → map_err name (in_database query) m ≡ (ok a, m')
      → (d : Database) × (query m.database ≡ ok (a, d)) × (m' ≡ record m { database = d })
  in_database-ok name query m m' a h = elim (Result-cases (query m.database)) [
    | inl (e, p) ↦ absurd (ground arith)
    | inr (r, p) ↦ (r.1, ground arith, ground arith)
  ]

  pub give-ok :
      {E A : Type 0} (r : Result E A) (m m' : Machine S F) (a : A)
      → give r m ≡ (ok a, m')
      → (r ≡ ok a) × (m' ≡ m)
  give-ok r m m' a h = (ground arith, ground arith)

or_prefixed-ok :
    {A : Type 0} (what : String) (r : Result String A) (a : A)
    → or_prefixed what r ≡ ok a
    → r ≡ ok a
or_prefixed-ok what (ok b) a h = h
or_prefixed-ok what (err e) a h = absurd (ground arith)

-- JSON of a snapshot is read as it was written.
abbrev pub SnapshotReadsBack : SnapshotJson → Type 0
SnapshotReadsBack json =
    (snapshot : BookmarkSnapshotV1) (bytes : List ℕ)
    → json.write snapshot ≡ ok bytes
    → json.read bytes ≡ ok snapshot

module _ {S F : Type 0} (desktop : Desktop S F) (turn : Turn) (profile : DiscoveredProfile)
    (laws : ReadsBack desktop.codec) (unseals : Unseals desktop.core.primitives)
    (size : length turn.base_nonce ≡ 24) (json : SnapshotReadsBack desktop.snapshot_json)
    (later : Turn) (select_mapping : later.fails Statement.select_mapping ≡ false)
    (select_base : later.fails Statement.select_base ≡ false) where
  -- What is read after a synchronisation has been recorded.
  pub record IsRecorded (snapshot : BookmarkSnapshotV1) (proof : SyncProof) (m : Machine S F)
      : Type 0 where
    pub mapped :
        mapping desktop.codec later.fails
          (key_in desktop turn profile bookmark_namespace)
          m.database
        ≡ ok (some (record { object_id = proof.object_id; revision = proof.revision }), m.database)
    pub based : bookmark_base desktop later profile m ≡ (ok (some snapshot), m)

  record Steps (snapshot : BookmarkSnapshotV1) (proof : SyncProof) (m m' : Machine S F)
      : Type 0 where
    pub plaintext : List ℕ
    pub written : desktop.snapshot_json.write snapshot ≡ ok plaintext
    pub encrypted : List ℕ
    pub sealed :
        protect_sync_base desktop.core turn.base_nonce profile.directory_name plaintext
        ≡ ok encrypted
    pub database : Database
    pub saved :
        save_sync_state desktop.codec turn.fails turn.now
          (key_in desktop turn profile bookmark_namespace)
          proof.object_id
          proof.revision
          encrypted
          m.database
        ≡ ok (tt, database)
    pub after : m' ≡ record m { database = database }

  text_of-ok :
      {A : Type 0} (r : Result ClientError A) (a : A)
      → text_of desktop turn profile r ≡ ok a
      → r ≡ ok a
  text_of-ok (ok b) a h = ground arith
  text_of-ok (err e) a h = absurd (ground arith)

  persist_sync_state-Steps :
      (snapshot : BookmarkSnapshotV1) (proof : SyncProof) (m m' : Machine S F)
      → persist_sync_state desktop turn profile snapshot proof m ≡ (ok tt, m')
      → Steps snapshot proof m m'
  unfolding persist_sync_state
  persist_sync_state-Steps snapshot proof m m' h =
      let a =
        Step.>>=-eq-ok (give (sealed_base desktop turn profile snapshot))
          (save_state desktop turn profile bookmark_namespace proof) m m' tt h in
      let a' = give-ok (sealed_base desktop turn profile snapshot) m a.1 a.0 a.2 in
      let b =
        Fallible.>>=-eq-ok
          (or_prefixed "Bookmark sync state: " (desktop.snapshot_json.write snapshot))
          (protected desktop turn profile) a'.0 in
      let c =
        in_database-ok desktop.formats.error_text
          (save_sync_state desktop.codec turn.fails turn.now
            (key_in desktop turn profile bookmark_namespace) proof.object_id proof.revision a.0)
          a.1 m' tt a.3 in
      record {
        plaintext = b.0;
        written = or_prefixed-ok _ (desktop.snapshot_json.write snapshot) b.0 b.1;
        encrypted = a.0;
        sealed = text_of-ok _ a.0 (or_prefixed-ok "Bookmark sync state: " _ a.0 b.2);
        database = c.0;
        saved =
            subst
              (λ (n : Machine S F).
                save_sync_state desktop.codec turn.fails turn.now
                  (key_in desktop turn profile bookmark_namespace) proof.object_id proof.revision
                  a.0 n.database
                ≡ ok (tt, c.0))
              a'.1 c.1;
        after = c.2 ∙ ap (λ (n : Machine S F). record n { database = c.0 }) a'.1;
      }

  -- What has been sealed as a base is opened again.
  open_base-sealed :
      (snapshot : BookmarkSnapshotV1) (plaintext encrypted : List ℕ)
      → desktop.snapshot_json.write snapshot ≡ ok plaintext
      → protect_sync_base desktop.core turn.base_nonce profile.directory_name plaintext
        ≡ ok encrypted
      → open_base desktop later profile encrypted ≡ ok snapshot
  unfolding protect_sync_base open_sync_base
  open_base-sealed snapshot plaintext encrypted written sealed =
      let opened =
        decrypt_local_state-encrypt_local_state desktop.core.primitives unseals
          desktop.core.master_key turn.base_nonce plaintext size
          (purpose desktop.core bookmark_namespace profile.directory_name) encrypted sealed in
      rw (opened, json snapshot plaintext written) refl

  -- After a synchronisation has been recorded, its base and its mapping are read again, and nothing
  -- but the tables has changed.
  pub persist_sync_state-IsRecorded :
      (snapshot : BookmarkSnapshotV1) (proof : SyncProof) (m m' : Machine S F)
      → persist_sync_state desktop turn profile snapshot proof m ≡ (ok tt, m')
      → IsRecorded snapshot proof m' × (m'.disk ≡ m.disk) × (m'.session ≡ m.session)
  unfolding bookmark_base
  persist_sync_state-IsRecorded snapshot proof m m' h =
      let s = persist_sync_state-Steps snapshot proof m m' h in
      let r =
        save_sync_state-recorded desktop.codec turn.fails turn.now
          (key_in desktop turn profile bookmark_namespace) proof.object_id proof.revision
          s.encrypted m.database s.database s.saved laws later.fails select_mapping select_base in
      let opened = open_base-sealed snapshot s.plaintext s.encrypted s.written s.sealed in
      let recorded : IsRecorded snapshot proof (record m { database = s.database }) = record {
        mapped = r.0;
        based = rw (r.1, opened) refl;
      } in
      (
        subst (λ n. IsRecorded snapshot proof n) (sym s.after) recorded,
        ap (λ n. n.disk) s.after,
        ap (λ n. n.session) s.after,
      )
