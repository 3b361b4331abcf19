-- ===== src/Client/Extensions/Save.antt =====
-- orchestration.rs: `save_extension_bundle`.
use Prim.Native.String.{◌++◌ as text_append}
use helium_sync.Prelude.{
  ℕ, suc, Bool, not, ◌||◌, ◌==◌, str_eq, String, Option, none, some, List, [], ◌∷◌, ◌++◌, Result,
  ok, err, length,
}
use helium_sync.Common.Types.{ObjectId}
use helium_sync.Client.Errors.{ClientError, state}
use helium_sync.Client.Crypto.{or_serialization}
use helium_sync.Client.Api.{Action, ◌>>=◌, ◌>>◌, lift}
use helium_sync.Client.Sync.{ClientCore, SyncProof, upload, delete_objects}
use helium_sync.Client.Extensions.{
  extension_manifest_namespace, extension_chunk_namespace, extension_chunk_bytes,
  ExtensionBundleDescriptor, ExtensionManifestV1, Formats, Draws, Uploaded, both_or_neither, chunks,
  timed, uploaded_objects, chunk_objects, manifest_of, check, unpaired, mismatched,
}
use helium_sync.Client.Extensions.Load.{sha256_bytes, load_extension_manifest}

module _ {S : Type 0} (core : ClientCore S) (f : Formats) (d : Draws) where
  abbrev pub cleaned :
      {A : Type 0}
      → String
      → String
      → ClientError
      → Result ClientError (Unit {0})
      → Result ClientError A
  cleaned what failed e (ok _) = err e
  cleaned what failed e (err other) = err (
      state (
        text_append what (
          text_append " (" (
            text_append (f.error_text e)
              (text_append failed (text_append (f.error_text other) ")"))))))

  -- what has been uploaded is deleted again, and the error is passed on
  abbrev pub clean_up : {A : Type 0} → String → String → ClientError → List Uploaded → Action S A
  clean_up what failed e uploaded s =
      let r = delete_objects core (timed d.deleted_at 0 (uploaded_objects uploaded)) s in
      (cleaned what failed e r.0, r.1)

  abbrev pub upload_new : ℕ → String → List ℕ → Action S SyncProof
  upload_new n namespace plaintext =
      upload core (d.object_id n) (d.uploaded_at n) (d.nonce n) namespace plaintext none none

  abbrev pub uploaded_chunk : List ℕ → SyncProof → Uploaded
  uploaded_chunk chunk proof = record {
    proof = proof;
    sha256 = sha256_bytes core f chunk;
    bytes = length chunk;
  }

  -- the loop over the chunks, with what has been uploaded
  unfoldable pub upload_chunks : ℕ → List Uploaded → List (List ℕ) → Action S (List Uploaded)
  upload_chunks n uploaded [] s = (ok uploaded, s)
  upload_chunks n uploaded (chunk ∷ rest) s =
      let r = upload_new n extension_chunk_namespace chunk s in
      elim r.0 [
        | ok proof ↦ upload_chunks (suc n) (uploaded ++ uploaded_chunk chunk proof ∷ []) rest r.1
        | err e ↦ clean_up "extension chunk upload failed" "); cleanup also failed (" e uploaded r.1
      ]

  abbrev pub load_old : Option ObjectId → Action S (Option ExtensionManifestV1)
  load_old none = lift (ok none)
  load_old (some id) = load_extension_manifest core f id >>= λ r. lift (ok (some r.0))

  abbrev pub upload_manifest :
      List ℕ → Option ObjectId → Option ℕ → List Uploaded → Action S SyncProof
  upload_manifest plaintext object_id base_revision uploaded s =
      let n = length uploaded in
      let r =
        upload core (d.object_id n) (d.uploaded_at n) (d.nonce n) extension_manifest_namespace
          plaintext object_id base_revision s in
      elim r.0 [
        | ok proof ↦ (ok proof, r.1)
        | err e ↦
            clean_up "extension manifest upload failed" "); new chunk cleanup also failed (" e
              uploaded r.1
      ]

  abbrev replaced : Result ClientError (Unit {0}) → Result ClientError (Unit {0})
  replaced (ok _) = ok tt
  replaced (err e) = err (
      state (
        text_append "the new extension snapshot is active, but old chunk cleanup failed: "
          (f.error_text e)))

  abbrev pub delete_old : Option ExtensionManifestV1 → Action S (Unit {0})
  delete_old none s = (ok tt, s)
  delete_old (some old) s =
      let r = delete_objects core (timed d.deleted_at 0 (chunk_objects old.chunks)) s in
      (replaced r.0, r.1)

  abbrev pub describes : ExtensionBundleDescriptor → List ℕ → Bool
  describes descriptor archive = not (
      not (descriptor.archive_bytes == length archive)
      || not (str_eq descriptor.archive_sha256 (sha256_bytes core f archive)))

  unfoldable pub save_extension_bundle :
      ExtensionBundleDescriptor
      → List ℕ
      → Option ObjectId
      → Option ℕ
      → Action S (SyncProof × ExtensionManifestV1)
  save_extension_bundle descriptor archive object_id base_revision = do
    lift (check (both_or_neither object_id base_revision) unpaired)
    lift (check (describes descriptor archive) mismatched)
    old_manifest ← load_old object_id
    uploaded ← upload_chunks 0 [] (chunks extension_chunk_bytes archive)
    plaintext ← lift (or_serialization (f.manifest_json (manifest_of descriptor uploaded)))
    proof ← upload_manifest plaintext object_id base_revision uploaded
    delete_old old_manifest
    lift (ok (proof, manifest_of descriptor uploaded))
