-- ===== src/Client/Extensions/Saved.antt =====
-- orchestration.rs: what `save_extension_bundle` has uploaded, and what it deletes when it fails.
use helium_sync.Prelude.{
  ℕ, suc, ◌≡◌, refl, subst, ap, ◌∙◌, sym, String, List, [], ◌∷◌, ◌++◌, Result, ok, err, arith, map,
  inl, inr, Result-cases, ◌≢◌,
}
use mathlib.Core.List.{append-nil, append_assoc}
use helium_sync.Client.Errors.{ClientError}
use helium_sync.Common.Types.{SyncObject}
use helium_sync.Client.Sync.{ClientCore, SyncProof, delete_objects}
use helium_sync.Client.Api
use helium_sync.Client.Api.{Action, Session}
use helium_sync.Client.Extensions.{
  timed, uploaded_objects, Formats, Draws, Uploaded, chunk_entry, extension_chunk_namespace,
}
use helium_sync.Client.Extensions.Save.{
  cleaned, clean_up, upload_new, uploaded_chunk, upload_chunks,
}
use helium_sync.Client.Extensions.Loaded.{Verified}

halves : {A B : Type 0} {r : A × B} {a : A} {b : B} → r ≡ (a, b) → (r.0 ≡ a) × (r.1 ≡ b)
halves h = (ground arith, ground arith)

with_session :
    {S A : Type 0} (r : Result ClientError A × Session S) {a : Result ClientError A}
    → r.0 ≡ a
    → (t : Session S) × (r ≡ (a, t))
with_session r h = (r.1, ground arith)

module _ {S : Type 0} (core : ClientCore S) (f : Formats) (d : Draws) where
  -- a run of uploads that all succeed: from which number and session, the chunks, what the vector
  -- gets, and the number and session after it
  pub data Uploads : ℕ → Session S → List (List ℕ) → List Uploaded → ℕ → Session S → Type 0 where
    here : {n : ℕ} {s : Session S} → Uploads n s [] [] n s
    next :
        {n m : ℕ} {s t u : Session S} {chunk : List ℕ} {proof : SyncProof} {rest : List (List ℕ)}
        {uploaded : List Uploaded}
        → upload_new core f d n extension_chunk_namespace chunk s ≡ (ok proof, t)
        → Uploads (suc n) t rest uploaded m u
        → Uploads n s (chunk ∷ rest) (uploaded_chunk core f d chunk proof ∷ uploaded) m u

  pub Uploads-Verified :
      {n m : ℕ} {s u : Session S} {cs : List (List ℕ)} {us : List Uploaded}
      → Uploads n s cs us m u
      → Verified core f (map chunk_entry us) cs
  Uploads-Verified here = tt
  Uploads-Verified (next p rest) = (refl, refl, Uploads-Verified rest)

  clean_up-err :
      {A : Type 0} (what failed : String) (e : ClientError) (us : List Uploaded) (s s' : Session S)
      (a : A)
      → clean_up core f d what failed e us s ≢ (ok a, s')
  clean_up-err what failed e us s s' a h = ground arith

  upload_chunks-next :
      (n : ℕ) (before : List Uploaded) (chunk : List ℕ) (rest : List (List ℕ)) (s t : Session S)
      (proof : SyncProof)
      → upload_new core f d n extension_chunk_namespace chunk s ≡ (ok proof, t)
      → upload_chunks core f d n before (chunk ∷ rest) s
        ≡ upload_chunks core f d (suc n) (before ++ uploaded_chunk core f d chunk proof ∷ []) rest t
  unfolding upload_chunks
  upload_chunks-next n before chunk rest s t proof h =
      let (reply, after) = halves h in rw (reply, upload_chunks, after) refl

  upload_chunks-stop :
      (n : ℕ) (before : List Uploaded) (chunk : List ℕ) (rest : List (List ℕ)) (s t : Session S)
      (e : ClientError)
      → upload_new core f d n extension_chunk_namespace chunk s ≡ (err e, t)
      → upload_chunks core f d n before (chunk ∷ rest) s
        ≡ clean_up core f d "extension chunk upload failed" "); cleanup also failed (" e before t
  unfolding upload_chunks
  upload_chunks-stop n before chunk rest s t e h =
      let (reply, after) = halves h in rw (reply, upload_chunks, after) refl

  pub upload_chunks-Uploads :
      (n : ℕ) (before us : List Uploaded) (cs : List (List ℕ)) (s s' : Session S)
      → upload_chunks core f d n before cs s ≡ (ok us, s')
      → (ws : List Uploaded) × (m : ℕ) × Uploads n s cs ws m s' × (us ≡ before ++ ws)
  unfolding upload_chunks
  upload_chunks-Uploads n before us [] s s' h =
      let e : before ≡ us = ground arith in
      let same : s ≡ s' = ground arith in
      ([], n, subst (Uploads n s [] [] n) same here, sym e ∙ sym (append-nil before))
  upload_chunks-Uploads n before us (chunk ∷ rest) s s' h =
      elim (Result-cases (upload_new core f d n extension_chunk_namespace chunk s).0) [
        | inl (e, p) ↦
            let (t, q) = with_session (upload_new core f d n extension_chunk_namespace chunk s) p in
            absurd (
              clean_up-err "extension chunk upload failed" "); cleanup also failed (" e before t s'
                us (sym (upload_chunks-stop n before chunk rest s t e q) ∙ h))
        | inr (proof, p) ↦
            let (t, q) = with_session (upload_new core f d n extension_chunk_namespace chunk s) p in
            let value = uploaded_chunk core f d chunk proof in
            let (ws, m, run, whole) =
              upload_chunks-Uploads (suc n) (before ++ value ∷ []) us rest t s'
                (sym (upload_chunks-next n before chunk rest s t proof q) ∙ h) in
            (value ∷ ws, m, next q run, whole ∙ append_assoc before (value ∷ []) ws)
      ]

  -- What a failed upload of a chunk comes to: the clean-up of what had been uploaded, in order.
  upload_chunks-clean_up :
      (n m : ℕ) (before us : List Uploaded) (uploaded : List (List ℕ)) (chunk : List ℕ)
      (rest : List (List ℕ)) (s t u : Session S) (e : ClientError)
      → Uploads n s uploaded us m t
      → upload_new core f d m extension_chunk_namespace chunk t ≡ (err e, u)
      → upload_chunks core f d n before (uploaded ++ chunk ∷ rest) s
        ≡ clean_up core f d "extension chunk upload failed" "); cleanup also failed (" e
            (before ++ us)
            u
  upload_chunks-clean_up n m before us [] chunk rest s t u e here h =
      rw (append-nil before) (upload_chunks-stop n before chunk rest s u e h)
  upload_chunks-clean_up n m before us (c ∷ cs) chunk rest s t u e
        (next {t = t'} {proof = proof} {uploaded = ws} p more) h =
      let value = uploaded_chunk core f d c proof in
      upload_chunks-next n before c (cs ++ chunk ∷ rest) s t' proof p
      ∙ upload_chunks-clean_up (suc n) m (before ++ value ∷ []) ws cs chunk rest t' t u e more h
      ∙ rw (append_assoc before (value ∷ []) ws) refl

  -- the request that deletes what has been uploaded
  abbrev pub deletion : ℕ → Uploaded → Action S SyncObject
  deletion n value = Api.delete_object core.api value.proof.object_id (record {
    base_revision = value.proof.revision;
    device_id = core.device_id;
    modified_at = d.deleted_at n;
  })

  -- one request for the deletion of each object at its revision, in order, up to the first that
  -- fails; the n-th gets the n-th time
  pub data Deletes
      : ℕ → Session S → List Uploaded → Result ClientError (Unit {0}) → Session S → Type 0 where
    finished : {n : ℕ} {s : Session S} → Deletes n s [] (ok tt) s
    deleted :
        {n : ℕ} {s t u : Session S} {value : Uploaded} {rest : List Uploaded} {object : SyncObject}
        {r : Result ClientError (Unit {0})}
        → deletion n value s ≡ (ok object, t)
        → Deletes (suc n) t rest r u
        → Deletes n s (value ∷ rest) r u
    refused :
        {n : ℕ} {s t : Session S} {value : Uploaded} {rest : List Uploaded} {e : ClientError}
        → deletion n value s ≡ (err e, t)
        → Deletes n s (value ∷ rest) (err e) t

  delete_objects-Deletes :
      (n : ℕ) (us : List Uploaded) (s : Session S)
      → Deletes n s us
          (delete_objects core (timed d.deleted_at n (uploaded_objects us)) s).0
          (delete_objects core (timed d.deleted_at n (uploaded_objects us)) s).1
  unfolding delete_objects
  delete_objects-Deletes n [] s = Deletes.finished
  delete_objects-Deletes n (value ∷ rest) s = elim (Result-cases (deletion n value s).0) [
    | inl (e, p) ↦
        let (t, q) = with_session (deletion n value s) p in
        rw (q, delete_objects) (Deletes.refused q)
    | inr (object, p) ↦
        let (t, q) = with_session (deletion n value s) p in
        rw (q, delete_objects) (Deletes.deleted q (delete_objects-Deletes (suc n) rest t))
  ]

  -- The error is passed on, or another one takes its place where the clean-up fails too.
  cleaned-err :
      {A : Type 0} (what failed : String) (e : ClientError) (r : Result ClientError (Unit {0}))
      → (x : ClientError) × (cleaned core f d {A = A} what failed e r ≡ err x) × (r ≡ ok tt → x ≡ e)
  cleaned-err what failed e (ok _) = (e, refl, λ h. refl)
  cleaned-err what failed e (err other) = (_, refl, λ h. absurd (ground arith))

  -- When the upload of a chunk fails after any number of chunks has been uploaded, the loop ends
  -- with an error and the chunks behind it are not sent: from the session after the failure it has
  -- requested the deletion of each object that had been uploaded, at its revision, in order, up to
  -- the first deletion that is refused, and nothing else; where none is refused, the error is that
  -- of the upload.
  pub upload_chunks-failed :
      (n m : ℕ) (before us : List Uploaded) (uploaded : List (List ℕ)) (chunk : List ℕ)
      (rest : List (List ℕ)) (s t u : Session S) (e : ClientError)
      → Uploads n s uploaded us m t
      → upload_new core f d m extension_chunk_namespace chunk t ≡ (err e, u)
      → (r : Result ClientError (Unit {0})) × (x : ClientError) × (w : Session S) × Deletes 0 u
          (before ++ us)
          r
          w
        × (upload_chunks core f d n before (uploaded ++ chunk ∷ rest) s ≡ (err x, w))
        × (r ≡ ok tt → x ≡ e)
  upload_chunks-failed n m before us uploaded chunk rest s t u e run failed =
      let r = delete_objects core (timed d.deleted_at 0 (uploaded_objects (before ++ us))) u in
      let stopped = upload_chunks-clean_up n m before us uploaded chunk rest s t u e run failed in
      let gone = delete_objects-Deletes 0 (before ++ us) u in
      let (x, passed, same) =
        cleaned-err "extension chunk upload failed" "); cleanup also failed (" e r.0 in
      (
        r.0,
        x,
        r.1,
        gone,
        stopped ∙ ap (λ (y : Result ClientError (List Uploaded)). (y, r.1)) passed,
        same,
      )
