-- ===== src/Client/Extensions/Load.antt =====
-- orchestration.rs: `load_extension_manifest` and `load_extension_bundle`.
use Prim.Native.String.{◌++◌ as text_append}
use helium_sync.Prelude.{ℕ, Bool, not, ◌||◌, ◌==◌, str_eq, String, List, [], ◌∷◌, ◌++◌, ok, length}
use helium_sync.Common.Types.{ObjectId}
use helium_sync.Client.Errors.{ClientError, crypto}
use helium_sync.Client.Crypto.{or_serialization}
use helium_sync.Client.Api.{Action, ◌>>=◌, ◌>>◌, lift}
use helium_sync.Client.Sync.{ClientCore, SyncProof, download}
use helium_sync.Client.Extensions.{
  extension_manifest_namespace, extension_chunk_namespace, ExtensionChunkV1, ExtensionManifestV1,
  Formats, check,
}

module _ {S : Type 0} (core : ClientCore S) (f : Formats) where
  abbrev pub sha256_bytes : List ℕ → String
  sha256_bytes bytes = f.hex (core.primitives.sha256 bytes)

  unfoldable pub load_extension_manifest : ObjectId → Action S (ExtensionManifestV1 × SyncProof)
  load_extension_manifest object_id = do
    r ← download core extension_manifest_namespace object_id
    manifest ← lift (or_serialization (f.parse_manifest r.0))
    lift (ok (manifest, r.1))

  abbrev pub chunk_matches : ExtensionChunkV1 → List ℕ → SyncProof → Bool
  chunk_matches chunk plaintext proof = not (
      not (proof.revision == chunk.revision)
      || not (length plaintext == chunk.bytes)
      || not (str_eq (sha256_bytes plaintext) chunk.sha256))

  abbrev pub damaged : ExtensionChunkV1 → ClientError
  damaged chunk = crypto (
      text_append "extension chunk "
        (text_append (f.object_text chunk.object_id) " failed manifest verification"))

  -- the loop over the chunks, with the archive so far
  unfoldable pub load_chunks : List ExtensionChunkV1 → List ℕ → Action S (List ℕ)
  load_chunks [] archive = lift (ok archive)
  load_chunks (chunk ∷ rest) archive = do
    r ← download core extension_chunk_namespace chunk.object_id
    lift (check (chunk_matches chunk r.0 r.1) (damaged chunk))
    load_chunks rest (archive ++ r.0)

  abbrev pub archive_matches : ExtensionManifestV1 → List ℕ → Bool
  archive_matches manifest archive = not (
      not (length archive == manifest.archive_bytes)
      || not (str_eq (sha256_bytes archive) manifest.archive_sha256))

  unfoldable pub load_extension_bundle :
      ObjectId → Action S (ExtensionManifestV1 × List ℕ × SyncProof)
  load_extension_bundle object_id = do
    r ← load_extension_manifest object_id
    archive ← load_chunks r.0.chunks []
    lift (
        check (archive_matches r.0 archive)
          (crypto "reassembled extension archive failed manifest verification"))
    lift (ok (r.0, archive, r.1))
