-- ===== src/Tests/Extensions.antt =====
-- An archive of extensions saved and loaded (orchestration.rs) through the server's router.
use helium_sync.Prelude.{
  ℕ, ◌≡◌, refl, true, none, List, [], ◌∷◌, Result, ok, err, replicate, length, ◌+◌, All,
}
use helium_sync.Prelude.Table.{lookup, insert}
use helium_sync.Common.Protocol.{negotiate}
use helium_sync.Server.Tables.{Tables, fetch_device, fetch_object, record_change, store_object}
use helium_sync.Server.Checks.{
  validate_put, i64_from_u64, u64_from_i64, checked_next, timestamp_string, row_to_object,
  parse_uuid, parse_timestamp,
}
use helium_sync.Server.Objects
use helium_sync.Server.Objects.{
  active_device, next_revision, ensure_active_device, put_object_tx, transact,
}
use helium_sync.Server.Auth.{
  ct_eq, strip_prefix, presented_token, require_auth, parse_digits, parse_u16, require_protocol,
}
use helium_sync.Server.Router.{serve, admit, handle, version}
use helium_sync.Client.Errors.{ClientError, api}
use helium_sync.Client.Crypto.{encrypt, decrypt, derive_key, associated_data}
use helium_sync.Client.Crypto.Bytes.{be_bytes, append_field}
use helium_sync.Client.Api
use helium_sync.Client.Api.{
  Session, json_request, parse_response, negotiate_version, ensure_negotiated,
}
use helium_sync.Client.Sync.{ClientCore, SyncProof, predicted_revision, upload_at, upload, download}
use helium_sync.Client.Sync.EndToEnd.{core_of}
use helium_sync.Client.Extensions.{
  ExtensionBundleDescriptor, ExtensionManifestV1, Formats, Draws, chunks, chunks_fuel,
  extension_chunk_bytes, extension_chunk_namespace,
}
use helium_sync.Client.Extensions.Load.{
  load_extension_bundle, load_extension_manifest, load_chunks, sha256_bytes,
}
use helium_sync.Client.Extensions.Save.{
  save_extension_bundle, upload_chunks, upload_new, uploaded_chunk,
}
use helium_sync.Client.Extensions.Chunks.{concat, IsPiece}
use helium_sync.Client.Extensions.Loaded.{Verified, load_extension_bundle-Verified}
use helium_sync.Client.Extensions.Saved.{Uploads, Deletes, upload_chunks-failed}
use helium_sync.Client.Extensions.Described.{save_extension_bundle-Verified}
use helium_sync.Tests.Codec.{unary, parse_unary, sample_text, is_sample}
use helium_sync.Tests.Server.{alice, with_device}
use helium_sync.Tests.Requests.{world}
use helium_sync.Tests.Sync.{config}
use helium_sync.Tests.Crypto.{sample_primitives, sample_key, codes}

abbrev pub core : ClientCore Tables
core = core_of world config sample_primitives sample_key alice

abbrev pub archive : List ℕ
archive = replicate 32 9

abbrev pub descriptor : ExtensionBundleDescriptor
descriptor = record {
  format = "zip";
  profile_directory = "Default";
  archive_sha256 = "digest";
  archive_bytes = 32;
  stats = record { extensions = 1; files = 1; bytes = 32 };
}

abbrev pub manifest : ExtensionManifestV1
manifest = record {
  format = "zip";
  profile_directory = "Default";
  archive_sha256 = "digest";
  archive_bytes = 32;
  stats = record { extensions = 1; files = 1; bytes = 32 };
  chunks =
      record { object_id = record { uuid = 3 }; revision = 1; sha256 = "digest"; bytes = 32 } ∷ [];
}

abbrev pub formats : Formats
formats = record {
  hex = λ digest. "digest";
  manifest_json = λ m. ok (replicate 32 9);
  parse_manifest = λ bytes. ok manifest;
  object_text = λ id. "object";
  error_text = λ e. "error";
}

abbrev pub draws : Draws
draws = record {
  object_id = λ n. record { uuid = 3 + n };
  uploaded_at = λ n. record { instant = 3 };
  nonce = λ n. replicate 24 7;
  deleted_at = λ n. record { instant = 4 };
}

abbrev pub start : Session Tables
start = record { protocol = none; world = with_device }

abbrev proof : SyncProof
proof = record {
  object_id = record { uuid = 4 };
  namespace = "helium.extensions.manifest.v1";
  revision = 1;
  cursor = 2;
  plaintext_matches = true;
}

abbrev after_save : Session Tables
after_save = (save_extension_bundle core formats draws descriptor archive none none start).1

saved :
    save_extension_bundle core formats draws descriptor archive none none start
    ≡ (ok (proof, manifest), after_save)
unfolding save_extension_bundle upload_chunks chunks chunks_fuel upload upload_at encrypt decrypt
    derive_key associated_data append_field be_bytes codes unary predicted_revision json_request
    parse_response negotiate_version ensure_negotiated Api.put_object Api.get_object negotiate serve
    admit handle version require_auth presented_token strip_prefix ct_eq require_protocol parse_u16
    parse_digits Objects.put_object Objects.get_object transact put_object_tx ensure_active_device
    fetch_device fetch_object record_change store_object timestamp_string i64_from_u64 u64_from_i64
    checked_next validate_put next_revision active_device lookup insert sample_text is_sample
    row_to_object parse_uuid parse_timestamp parse_unary
saved = refl

save_extension_bundle-Verified_example :
    (length archive ≡ 32)
    × (sha256_bytes core formats archive ≡ "digest")
    × Verified core formats manifest.chunks (chunks extension_chunk_bytes archive)
    × (concat (chunks extension_chunk_bytes archive) ≡ archive)
    × All (IsPiece extension_chunk_bytes) (chunks extension_chunk_bytes archive)
save_extension_bundle-Verified_example =
    save_extension_bundle-Verified core formats draws descriptor archive none none proof manifest
      start after_save saved

loaded :
    load_extension_bundle core formats (record { uuid = 4 }) after_save
    ≡ (ok (manifest, archive, proof), after_save)
unfolding save_extension_bundle load_extension_bundle load_extension_manifest load_chunks download
    upload_chunks chunks chunks_fuel upload upload_at encrypt decrypt derive_key associated_data
    append_field be_bytes codes unary predicted_revision json_request parse_response
    negotiate_version ensure_negotiated Api.put_object Api.get_object negotiate serve admit handle
    version require_auth presented_token strip_prefix ct_eq require_protocol parse_u16 parse_digits
    Objects.put_object Objects.get_object transact put_object_tx ensure_active_device fetch_device
    fetch_object record_change store_object timestamp_string i64_from_u64 u64_from_i64 checked_next
    validate_put next_revision active_device lookup insert sample_text is_sample row_to_object
    parse_uuid parse_timestamp parse_unary
loaded = refl

load_extension_bundle-Verified_example :
    ((t : Session Tables) × (load_extension_manifest core formats (record { uuid = 4 }) after_save
        ≡ (ok (manifest, proof), t)))
    × (length archive ≡ 32)
    × (sha256_bytes core formats archive ≡ "digest")
    × ((pieces : List (List ℕ)) × Verified core formats manifest.chunks pieces
        × (archive ≡ concat pieces))
load_extension_bundle-Verified_example =
    load_extension_bundle-Verified core formats (record { uuid = 4 }) manifest archive proof
      after_save after_save loaded

abbrev chunk_proof : SyncProof
chunk_proof = record {
  object_id = record { uuid = 3 };
  namespace = "helium.extensions.chunk.v1";
  revision = 1;
  cursor = 1;
  plaintext_matches = true;
}

abbrev after_first : Session Tables
after_first = (upload_new core formats draws 0 extension_chunk_namespace archive start).1

first_chunk :
    upload_new core formats draws 0 extension_chunk_namespace archive start
    ≡ (ok chunk_proof, after_first)
unfolding upload upload_at encrypt decrypt derive_key associated_data append_field be_bytes codes
    unary predicted_revision json_request parse_response negotiate_version ensure_negotiated
    Api.put_object Api.get_object negotiate serve admit handle version require_auth presented_token
    strip_prefix ct_eq require_protocol parse_u16 parse_digits Objects.put_object Objects.get_object
    transact put_object_tx ensure_active_device fetch_device fetch_object record_change store_object
    timestamp_string i64_from_u64 u64_from_i64 checked_next validate_put next_revision active_device
    lookup insert sample_text is_sample row_to_object parse_uuid parse_timestamp parse_unary
first_chunk = refl

-- the codec has no text for this envelope
abbrev odd : List ℕ
odd = replicate 3 1

abbrev after_second : Session Tables
after_second = (upload_new core formats draws 1 extension_chunk_namespace odd after_first).1

second_chunk :
    upload_new core formats draws 1 extension_chunk_namespace odd after_first
    ≡ (err (api 500 "stored_data_invalid" ""), after_second)
unfolding upload upload_at encrypt decrypt derive_key associated_data append_field be_bytes codes
    unary predicted_revision json_request parse_response negotiate_version ensure_negotiated
    Api.put_object Api.get_object negotiate serve admit handle version require_auth presented_token
    strip_prefix ct_eq require_protocol parse_u16 parse_digits Objects.put_object Objects.get_object
    transact put_object_tx ensure_active_device fetch_device fetch_object record_change store_object
    timestamp_string i64_from_u64 u64_from_i64 checked_next validate_put next_revision active_device
    lookup insert sample_text is_sample row_to_object parse_uuid parse_timestamp parse_unary
second_chunk = refl

upload_chunks-failed_example :
    (r : Result ClientError (Unit {0})) × (x : ClientError) × (w : Session Tables) × Deletes core
      formats draws 0 after_second
      (uploaded_chunk core formats draws archive chunk_proof ∷ [])
      r
      w
    × (upload_chunks core formats draws 0 [] (archive ∷ odd ∷ []) start ≡ (err x, w))
    × (r ≡ ok tt → x ≡ api 500 "stored_data_invalid" "")
upload_chunks-failed_example =
    upload_chunks-failed core formats draws 0 1 []
      (uploaded_chunk core formats draws archive chunk_proof ∷ []) (archive ∷ []) odd [] start
      after_first after_second (api 500 "stored_data_invalid" "")
      (Uploads.next first_chunk Uploads.here) second_chunk
