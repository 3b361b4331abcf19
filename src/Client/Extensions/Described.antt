-- ===== src/Client/Extensions/Described.antt =====
-- orchestration.rs: the manifest that `save_extension_bundle` leaves on the server.
use helium_sync.Prelude.{
  ℕ, ◌≡◌, ap, subst, ◌∙◌, sym, Option, List, [], ok, arith, Result, length, eq_iff, map, All,
}
use helium_sync.Common.Types.{ObjectId}
use helium_sync.Client.Errors.{ClientError}
use helium_sync.Client.Crypto.{or_serialization}
use helium_sync.Client.Sync.{ClientCore, SyncProof}
use helium_sync.Client.Api
use helium_sync.Client.Api.{Session, lift}
use helium_sync.Client.Extensions.{
  ExtensionBundleDescriptor, ExtensionManifestV1, Formats, Draws, Uploaded, chunk_entry,
  manifest_of, check, unpaired, mismatched, extension_chunk_bytes, chunks, both_or_neither,
}
use helium_sync.Client.Extensions.Load.{sha256_bytes}
use helium_sync.Client.Extensions.Save.{
  upload_chunks, describes, save_extension_bundle, load_old, upload_manifest, delete_old,
}
use helium_sync.Client.Extensions.Chunks.{concat, IsPiece, concat-chunks, chunks-IsPiece}
use helium_sync.Client.Extensions.Loaded.{Verified}
use helium_sync.Client.Extensions.Saved.{Uploads-Verified, upload_chunks-Uploads}

module _ {S : Type 0} (core : ClientCore S) (f : Formats) (d : Draws) where
  described :
      (descriptor : ExtensionBundleDescriptor) (archive : List ℕ)
      → check (describes core f d descriptor archive) mismatched ≡ ok tt
      → (length archive ≡ descriptor.archive_bytes)
        × (sha256_bytes core f archive ≡ descriptor.archive_sha256)
  described descriptor archive h =
      ground (arith, eq_iff descriptor.archive_sha256 (sha256_bytes core f archive))

  answered : {A : Type 0} (a b : A) (s s' : Session S) → lift (ok a) s ≡ (ok b, s') → a ≡ b
  answered a b s s' h = ground arith

  -- When an archive of extensions has been saved, the manifest that the call returns has its
  -- length and its digest, and its entries have, in order, the lengths and the digests of the
  -- chunks; these are the archive in one piece again, none is empty, and none is longer than the
  -- limit.
  pub save_extension_bundle-Verified :
      (descriptor : ExtensionBundleDescriptor) (archive : List ℕ) (object_id : Option ObjectId)
      (base_revision : Option ℕ) (proof : SyncProof) (manifest : ExtensionManifestV1)
      (s s' : Session S)
      → save_extension_bundle core f d descriptor archive object_id base_revision s
        ≡ (ok (proof, manifest), s')
      → (length archive ≡ manifest.archive_bytes)
        × (sha256_bytes core f archive ≡ manifest.archive_sha256)
        × Verified core f manifest.chunks (chunks extension_chunk_bytes archive)
        × (concat (chunks extension_chunk_bytes archive) ≡ archive)
        × All (IsPiece extension_chunk_bytes) (chunks extension_chunk_bytes archive)
  unfolding save_extension_bundle
  save_extension_bundle-Verified descriptor archive object_id base_revision proof manifest s s' h =
      let pieces = chunks extension_chunk_bytes archive in
      let (_, s1, p1, q1) =
        Api.>>=-eq-ok (lift (check (both_or_neither object_id base_revision) unpaired)) _ s s'
          (proof, manifest) h in
      let (_, s2, p2, q2) =
        Api.>>=-eq-ok (lift (check (describes core f d descriptor archive) mismatched)) _ s1 s'
          (proof, manifest) q1 in
      let (old, s3, p3, q3) =
        Api.>>=-eq-ok (load_old core f d object_id) _ s2 s' (proof, manifest) q2 in
      let (us, s4, p4, q4) =
        Api.>>=-eq-ok (upload_chunks core f d 0 [] pieces) _ s3 s' (proof, manifest) q3 in
      let (json, s5, p5, q5) =
        Api.>>=-eq-ok (lift (or_serialization (f.manifest_json (manifest_of descriptor us)))) _ s4
          s' (proof, manifest) q4 in
      let (new, s6, p6, q6) =
        Api.>>=-eq-ok (upload_manifest core f d json object_id base_revision us) _ s5 s'
          (proof, manifest) q5 in
      let (_, s7, p7, q7) = Api.>>=-eq-ok (delete_old core f d old) _ s6 s' (proof, manifest) q6 in
      let same : manifest_of descriptor us ≡ manifest =
        ap (λ (x : SyncProof × ExtensionManifestV1). x.1) (answered _ (proof, manifest) s7 s' q7) in
      let (ws, m, run, whole) = upload_chunks-Uploads core f d 0 [] us pieces s3 s4 p4 in
      let test : check (describes core f d descriptor archive) mismatched ≡ ok tt =
        ap (λ (x : Result ClientError (Unit {0}) × Session S). x.0) p2 in
      let (bytes, digest) = described descriptor archive test in
      (
        bytes ∙ ap (λ (x : ExtensionManifestV1). x.archive_bytes) same,
        digest ∙ ap (λ (x : ExtensionManifestV1). x.archive_sha256) same,
        subst (λ (x : ExtensionManifestV1). Verified core f x.chunks pieces) same
            (subst (λ (v : List Uploaded). Verified core f (map chunk_entry v) pieces) (sym whole)
              (Uploads-Verified core f d run)),
        concat-chunks extension_chunk_bytes (omega arith) archive,
        chunks-IsPiece extension_chunk_bytes (omega arith) archive,
      )
