-- ===== src/Client/Extensions/Loaded.antt =====
-- orchestration.rs: what `load_extension_bundle` has verified.
use helium_sync.Prelude.{
  ℕ, ◌≡◌, ap, ◌∙◌, sym, subst, List, [], Result, ◌∷◌, ◌++◌, ok, arith, length, eq_iff,
}
use mathlib.Core.List.{append-nil, append_assoc}
use helium_sync.Common.Types.{ObjectId}
use helium_sync.Client.Errors.{ClientError, crypto}
use helium_sync.Client.Sync.{ClientCore, SyncProof, download}
use helium_sync.Client.Api
use helium_sync.Client.Api.{Action, Session, lift, ◌>>◌}
use helium_sync.Client.Extensions.{
  ExtensionChunkV1, ExtensionManifestV1, Formats, check, extension_chunk_namespace,
}
use helium_sync.Client.Extensions.Load.{
  sha256_bytes, chunk_matches, archive_matches, damaged, load_extension_manifest, load_chunks,
  load_extension_bundle,
}
use helium_sync.Client.Extensions.Chunks.{concat}

abbrev unassembled : ClientError
unassembled = crypto "reassembled extension archive failed manifest verification"

paired : {A B : Type 0} (r : A × B) (a : A) (b : B) → r.0 ≡ a → r.1 ≡ b → r ≡ (a, b)
paired r a b p q = ground arith

module _ {S : Type 0} (core : ClientCore S) (f : Formats) where
  -- each piece has the length and the digest that its entry promises
  abbrev pub Verified : List ExtensionChunkV1 → List (List ℕ) → Type 0
  Verified [] [] = Unit
  Verified (chunk ∷ chunks) (piece ∷ pieces) =
      (length piece ≡ chunk.bytes)
      × (sha256_bytes core f piece ≡ chunk.sha256)
      × Verified chunks pieces
  Verified [] (_ ∷ _) = ⊥
  Verified (_ ∷ _) [] = ⊥

  matched :
      (chunk : ExtensionChunkV1) (plaintext : List ℕ) (proof : SyncProof)
      → check (chunk_matches core f chunk plaintext proof) (damaged core f chunk) ≡ ok tt
      → (length plaintext ≡ chunk.bytes) × (sha256_bytes core f plaintext ≡ chunk.sha256)
  matched chunk plaintext proof h =
      ground (arith, eq_iff (sha256_bytes core f plaintext) chunk.sha256)

  load_chunks-Verified :
      (chunks : List ExtensionChunkV1) (before archive : List ℕ) (s s' : Session S)
      → load_chunks core f chunks before s ≡ (ok archive, s')
      → (pieces : List (List ℕ)) × Verified chunks pieces × (archive ≡ before ++ concat pieces)
  unfolding load_chunks
  load_chunks-Verified [] before archive s s' h =
      let e : before ≡ archive = ground arith in ([], tt, sym e ∙ sym (append-nil before))
  load_chunks-Verified (chunk ∷ rest) before archive s s' h =
      let (r, t, p, q) =
        Api.>>=-eq-ok (download core extension_chunk_namespace chunk.object_id) _ s s' archive h in
      let (_, u, tested, last) =
        Api.>>=-eq-ok (lift (check (chunk_matches core f chunk r.0 r.1) (damaged core f chunk))) _ t
          s' archive q in
      let test : check (chunk_matches core f chunk r.0 r.1) (damaged core f chunk) ≡ ok tt =
        ap (λ (x : Result ClientError (Unit {0}) × Session S). x.0) tested in
      let (pieces, verified, whole) = load_chunks-Verified rest (before ++ r.0) archive u s' last in
      let (bytes, digest) = matched chunk r.0 r.1 test in
      (r.0 ∷ pieces, (bytes, digest, verified), whole ∙ append_assoc before r.0 (concat pieces))

  -- the end of `load_extension_bundle`
  abbrev finish :
      ExtensionManifestV1 → List ℕ → SyncProof → Action S (ExtensionManifestV1 × List ℕ × SyncProof)
  finish m found p = do
    lift (check (archive_matches core f m found) unassembled)
    lift (ok (m, found, p))

  accepted :
      (m manifest : ExtensionManifestV1) (found archive : List ℕ) (p proof : SyncProof)
      (s s' : Session S)
      → finish m found p s ≡ (ok (manifest, archive, proof), s')
      → (m ≡ manifest)
        × (found ≡ archive)
        × (p ≡ proof)
        × (length found ≡ m.archive_bytes)
        × (sha256_bytes core f found ≡ m.archive_sha256)
  accepted m manifest found archive p proof s s' h =
      ground (arith, eq_iff (sha256_bytes core f found) m.archive_sha256)

  -- An archive that is loaded comes with the manifest of its object, has the length and the digest
  -- that the manifest says, and is made of pieces, in order, each with the length and the digest
  -- of its entry.
  pub load_extension_bundle-Verified :
      (object_id : ObjectId) (manifest : ExtensionManifestV1) (archive : List ℕ) (proof : SyncProof)
      (s s' : Session S)
      → load_extension_bundle core f object_id s ≡ (ok (manifest, archive, proof), s')
      → ((t : Session S) × (load_extension_manifest core f object_id s ≡ (ok (manifest, proof), t)))
        × (length archive ≡ manifest.archive_bytes)
        × (sha256_bytes core f archive ≡ manifest.archive_sha256)
        × ((pieces : List (List ℕ)) × Verified manifest.chunks pieces × (archive ≡ concat pieces))
  unfolding load_extension_bundle
  load_extension_bundle-Verified object_id manifest archive proof s s' h =
      let (r, t, loaded, q) =
        Api.>>=-eq-ok (load_extension_manifest core f object_id) _ s s' (manifest, archive, proof)
          h in
      let (found, u, p, q') =
        Api.>>=-eq-ok (load_chunks core f r.0.chunks []) _ t s' (manifest, archive, proof) q in
      let (same, same_archive, same_proof, bytes, digest) =
        accepted r.0 manifest found archive r.1 proof u s' q' in
      let (pieces, verified, whole) = load_chunks-Verified r.0.chunks [] found t u p in
      (
        (
          t,
          subst
              (λ (x : ExtensionManifestV1 × SyncProof).
                load_extension_manifest core f object_id s ≡ (ok x, t))
              (paired r manifest proof same same_proof) loaded,
        ),
        ap length (sym same_archive)
            ∙ bytes
            ∙ ap (λ (m : ExtensionManifestV1). m.archive_bytes) same,
        ap (sha256_bytes core f) (sym same_archive)
            ∙ digest
            ∙ ap (λ (m : ExtensionManifestV1). m.archive_sha256) same,
        (
          pieces,
          subst (λ (m : ExtensionManifestV1). Verified m.chunks pieces) same verified,
          sym same_archive ∙ whole,
        ),
      )
