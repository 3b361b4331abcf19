-- ===== src/Client/Extensions.antt =====
-- crates/helium-sync-client-core/src/orchestration.rs: `save_extension_bundle`,
-- `load_extension_bundle` and `load_extension_manifest`. What a call draws, object IDs, times and
-- nonces, is an argument, numbered by the upload or the deletion that it is for.
pub mod Load
pub mod Save
pub mod Chunks
pub mod Loaded
pub mod Saved
pub mod Described
use Prim.Native.String.{◌++◌ as text_append}
use helium_sync.Prelude.{
  ℕ, zero, suc, Bool, true, false, not, ◌||◌, ◌==◌, str_eq, if◌then◌else◌, String, Option, none,
  some, List, [], ◌∷◌, ◌++◌, Result, ok, err, length, take, drop, map,
}
use helium_sync.Common.Types.{ObjectId, Timestamp}
use helium_sync.Client.Errors.{ClientError, crypto, serialization, state}
use helium_sync.Client.Crypto.{or_serialization}
use helium_sync.Client.Api.{Action, ◌>>=◌, ◌>>◌, lift}
use helium_sync.Client.Sync.{ClientCore, SyncProof, upload, download, delete_objects}

abbrev pub extension_manifest_namespace : String
extension_manifest_namespace = "helium.extensions.manifest.v1"

abbrev pub extension_chunk_namespace : String
extension_chunk_namespace = "helium.extensions.chunk.v1"

abbrev pub extension_chunk_bytes : ℕ
extension_chunk_bytes = 2900000

pub record ExtensionBundleStats : Type 0 where
  pub extensions : ℕ
  pub files : ℕ
  pub bytes : ℕ

pub record ExtensionBundleDescriptor : Type 0 where
  pub format : String
  pub profile_directory : String
  pub archive_sha256 : String
  pub archive_bytes : ℕ
  pub stats : ExtensionBundleStats

pub record ExtensionChunkV1 : Type 0 where
  pub object_id : ObjectId
  pub revision : ℕ
  pub sha256 : String
  pub bytes : ℕ

pub record ExtensionManifestV1 : Type 0 where
  pub format : String
  pub profile_directory : String
  pub archive_sha256 : String
  pub archive_bytes : ℕ
  pub stats : ExtensionBundleStats
  pub chunks : List ExtensionChunkV1

-- What other crates write: `{:x}` of a digest, the JSON of a manifest, and the texts of an object ID
-- and of an error in a message.
pub record Formats : Type 0 where
  pub hex : List ℕ → String
  pub manifest_json : ExtensionManifestV1 → Result String (List ℕ)
  pub parse_manifest : List ℕ → Result String ExtensionManifestV1
  pub object_text : ObjectId → String
  pub error_text : ClientError → String

pub record Draws : Type 0 where
  pub object_id : ℕ → ObjectId
  pub uploaded_at : ℕ → Timestamp
  pub nonce : ℕ → List ℕ
  pub deleted_at : ℕ → Timestamp

-- an entry of the vector `uploaded`
pub record Uploaded : Type 0 where
  pub proof : SyncProof
  pub sha256 : String
  pub bytes : ℕ

abbrev pub is_some : {A : Type 0} → Option A → Bool
is_some none = false
is_some (some _) = true

abbrev pub both_or_neither : {A B : Type 0} → Option A → Option B → Bool
both_or_neither a b = if is_some a then is_some b else not (is_some b)

-- `archive.chunks(size)`, with fuel for one chunk of each byte
unfoldable pub chunks_fuel : ℕ → ℕ → List ℕ → List (List ℕ)
chunks_fuel zero size archive = []
chunks_fuel (suc fuel) size [] = []
chunks_fuel (suc fuel) size (byte ∷ rest) =
    take size (byte ∷ rest) ∷ chunks_fuel fuel size (drop size (byte ∷ rest))

unfoldable pub chunks : ℕ → List ℕ → List (List ℕ)
chunks size archive = chunks_fuel (length archive) size archive

-- the objects to delete, with their times
abbrev pub timed : (ℕ → Timestamp) → ℕ → List (ObjectId × ℕ) → List (ObjectId × ℕ × Timestamp)
timed at n [] = []
timed at n ((id, revision) ∷ rest) = (id, revision, at n) ∷ timed at (suc n) rest

abbrev pub uploaded_objects : List Uploaded → List (ObjectId × ℕ)
uploaded_objects = map (λ value. (value.proof.object_id, value.proof.revision))

abbrev pub chunk_objects : List ExtensionChunkV1 → List (ObjectId × ℕ)
chunk_objects = map (λ chunk. (chunk.object_id, chunk.revision))

abbrev pub chunk_entry : Uploaded → ExtensionChunkV1
chunk_entry value = record {
  object_id = value.proof.object_id;
  revision = value.proof.revision;
  sha256 = value.sha256;
  bytes = value.bytes;
}

abbrev pub manifest_of : ExtensionBundleDescriptor → List Uploaded → ExtensionManifestV1
manifest_of descriptor uploaded = record {
  format = descriptor.format;
  profile_directory = descriptor.profile_directory;
  archive_sha256 = descriptor.archive_sha256;
  archive_bytes = descriptor.archive_bytes;
  stats = descriptor.stats;
  chunks = map chunk_entry uploaded;
}

abbrev pub check : Bool → ClientError → Result ClientError (Unit {0})
check true e = ok tt
check false e = err e

abbrev pub unpaired : ClientError
unpaired =
    state "extension manifest object ID and revision must either both exist or both be absent"

abbrev pub mismatched : ClientError
mismatched = serialization "extension archive does not match its descriptor"
