-- ===== src/Tests/Desktop.antt =====
-- A profile that is synchronised for the first time (main.rs) with the server's router and a disk.
use helium_sync.Prelude.{
  ◌≡◌, refl, Bool, true, false, Bool-cases, ◌&&◌, ◌==◌, sym, inl, inr, arith, str_eq, eq_iff,
  if◌then◌else◌, String, Option, none, some, [], ◌∷◌, Result, ok, err, replicate,
}
use helium_sync.Desktop.Sync.{sync_profile_with_server, profile_name, snapshot_eq, roots_eq}
use helium_sync.Desktop.Extensions.{
  sync_extensions_with_server, capture_extensions, remote_extension_manifest, choose,
}
use helium_sync.Desktop.Records.{
  persist_extension_sync_state, extension_base_hash, persist_sync_state, bookmark_base,
}
use helium_sync.Profile.Node.{node_eq}
use helium_sync.Client.State.Sync.{mapping, sync_base, save_sync_state}
use helium_sync.Client.State.{to_i64, to_u64}
use helium_sync.Prelude.Rows.{first, upsert}
use helium_sync.Client.State.Profiles.{profile_preferences}
use helium_sync.Client.Discovery.Pages.{
  discover_bookmarks, discover_extension_bundle, gather_pages, pick_candidate,
}
use helium_sync.Client.Discovery.{note_all, note, live, newest_first}
use helium_sync.Profile.Files.{read_bookmarks, parse_bookmarks, convert_roots}
use helium_sync.Profile.Raw.{convert_root, convert_node}
use helium_sync.Tests.Files.{is_bar}
use helium_sync.Profile.Stats.{bookmark_stats, count_roots}
use helium_sync.Client.Bookmarks.{
  load_bookmarks, save_bookmark_snapshot, protect_sync_base, open_sync_base,
  protect_extension_sync_base, open_extension_sync_base,
}
use helium_sync.Profile.Merge.{
  merge_bookmarks, merge_roots, merge_keys, merge_optional_node, find_root, unseen,
  validate_merge_pair,
}
use helium_sync.Client.Crypto.{
  encrypt_local_state, decrypt_local_state, derive_local_state_key, local_state_aad, encrypt,
  decrypt, derive_key, associated_data,
}
use helium_sync.Client.Extensions.Save.{save_extension_bundle, upload_chunks}
use helium_sync.Client.Extensions.Load.{load_extension_bundle, load_extension_manifest, load_chunks}
use helium_sync.Client.Sync.{download, upload, upload_at, predicted_revision}
use helium_sync.Client.Extensions.{chunks, chunks_fuel}
use helium_sync.Client.Crypto.Bytes.{append_field, be_bytes}
use helium_sync.Tests.Crypto.{codes}
use helium_sync.Tests.Codec.{unary, sample_text, is_sample, parse_unary}
use helium_sync.Client.Api.{json_request, parse_response, negotiate_version, ensure_negotiated}
use helium_sync.Common.Protocol.{negotiate}
use helium_sync.Server.Router.{serve, admit, handle, version}
use helium_sync.Server.Auth.{
  require_auth, presented_token, strip_prefix, ct_eq, require_protocol, parse_u16, parse_digits,
}
use helium_sync.Server.Objects.{
  transact, put_object_tx, ensure_active_device, next_revision, active_device,
}
use helium_sync.Server.Tables.{fetch_device, fetch_object, record_change, store_object}
use helium_sync.Server.Checks.{
  timestamp_string, i64_from_u64, u64_from_i64, checked_next, validate_put, row_to_object,
  parse_uuid, parse_timestamp,
}
use helium_sync.Prelude.Table.{lookup}
use helium_sync.Client.Discovery
use helium_sync.Prelude.Rows
use helium_sync.Profile.Stats
use helium_sync.Client.Api
use helium_sync.Server.Objects
use helium_sync.Prelude.Table.{insert}
use helium_sync.Server.Auth.Digest.{ct_eq-eq}
use helium_sync.Common.Types.{EncryptedEnvelopeV1}
use helium_sync.Client.Crypto.{Primitives}
use helium_sync.Client.Crypto.RoundTrip.{Unseals}
use helium_sync.Client.Sync.EndToEnd.{core_of}
use helium_sync.Tests.Requests.{world}
use helium_sync.Tests.Server.{alice}
use helium_sync.Server.Tables.{Tables}
use helium_sync.Client.Api.{Session}
use helium_sync.Client.Bookmarks.{SnapshotJson}
use helium_sync.Client.State.{new_database}
use helium_sync.Client.Extensions.{ExtensionBundleDescriptor}
use helium_sync.Profile.Errors.{ProfileError}
use helium_sync.Profile.Node.{BookmarkSnapshotV1}
use helium_sync.Desktop.Machine.{Desktop, Turn, Machine, Bundles}
use helium_sync.Desktop.Sync.{SyncFeedback}
use helium_sync.Desktop.Sync.Sides.{snapshot_eq-eq}
use helium_sync.Desktop.Sync.Recorded.{SnapshotReadsBack}
use helium_sync.Desktop.Sync.Synced.{IsSynced}
use helium_sync.Desktop.Sync.Converged.{sync_profile_with_server-IsSynced}
use helium_sync.Tests.Codec.{sample_codec, sample_codec-ReadsBack}
use helium_sync.Tests.Crypto.{sample_primitives, sample_key}
use helium_sync.Tests.Sync.{plaintext, nonce, config}
use helium_sync.Client.Sync.{SyncProof}
use helium_sync.Desktop.Extensions.{Remote}
use helium_sync.Tests.Extensions.{manifest, formats, draws, descriptor, archive, start}
use helium_sync.Tests.Disk.{
  Disk, content, disk_system, disk_system-Lawful, disk_system-Readable, zip, done,
}
use helium_sync.Tests.Files.{bar, bar_json, bar_json-ReadsBack, the_profile, the_disk, the_paths}

-- the bookmark file's snapshot has version 7
abbrev seven : BookmarkSnapshotV1
seven = record bar { chromium_version = 7 }

abbrev json : SnapshotJson
json = record {
  write = λ x. if snapshot_eq x seven then ok plaintext else err "other";
  read = λ bytes. ok seven;
}

json-ReadsBack : SnapshotReadsBack json
json-ReadsBack snapshot bytes h = elim (Bool-cases (snapshot_eq snapshot seven)) [
  | inl same ↦ let e = snapshot_eq-eq snapshot seven same in ground arith
  | inr other ↦ absurd (ground arith)
]

abbrev local_envelope : EncryptedEnvelopeV1
local_envelope = record {
  version = 1;
  algorithm = "XCHACHA20-POLY1305-LOCAL-STATE";
  key_version = 1;
  nonce = record { bytes = replicate 24 7 };
  ciphertext = record { bytes = replicate 32 9 };
}

unfoldable is_local : EncryptedEnvelopeV1 → Bool
is_local e =
    e.version == 1
    && str_eq e.algorithm "XCHACHA20-POLY1305-LOCAL-STATE"
    && e.key_version == 1
    && ct_eq e.nonce.bytes (replicate 24 7)
    && ct_eq e.ciphertext.bytes (replicate 32 9)

is_local-eq : (e : EncryptedEnvelopeV1) → is_local e ≡ true → e ≡ local_envelope
unfolding is_local
is_local-eq e h = ground (
  arith,
  eq_iff e.algorithm "XCHACHA20-POLY1305-LOCAL-STATE",
  ct_eq-eq e.nonce.bytes (replicate 24 7),
  ct_eq-eq e.ciphertext.bytes (replicate 32 9),
)

-- the sample crates, with JSON for one envelope
abbrev desk_primitives : Primitives
desk_primitives = record sample_primitives {
  envelope_json = λ e. if is_local e then ok (0 ∷ []) else err "unsupported";
  parse_envelope_json = λ bytes. ok local_envelope;
}

desk-Unseals : Unseals desk_primitives
desk-Unseals = record {
  sealed = λ key nonce aad message ciphertext h. sym h;
  json = λ e bytes h. elim (Bool-cases (is_local e)) [
    | inl own ↦ let same = is_local-eq e own in ground arith
    | inr other ↦ absurd (ground arith)
  ];
}

abbrev created : String → Disk → Result ProfileError ExtensionBundleDescriptor × Disk
created path disk = (ok descriptor, insert path archive disk)

abbrev bundles : Bundles Disk
bundles = record {
  tempdir = λ disk. (ok "tmp", disk);
  write = λ path bytes. done (insert path bytes);
  create = λ profile path. created path;
  restore = λ unique profile path dir disk.
      (ok (record { backup_path = "backup"; stats = descriptor.stats }), disk);
}

abbrev the_desktop : Desktop Tables Disk
the_desktop = record {
  core = core_of world config desk_primitives sample_key alice;
  server_id = "server";
  codec = sample_codec;
  formats = formats;
  snapshot_json = json;
  bookmarks_json = bar_json;
  fs = disk_system;
  zip = zip;
  bundles = bundles;
  profile_text = λ e. "profile";
  as_bytes = λ s. plaintext;
  from_utf8 = λ bytes. ok "digest";
  decimal = λ n. "1";
}

abbrev the_turn : Turn
the_turn = record {
  fails = λ k. false;
  now = "noon";
  unique = "1";
  draws = draws;
  extension_nonce = nonce;
  bookmark_id = record { uuid = 5 };
  modified_at = record { instant = 3 };
  bookmark_nonce = nonce;
  base_nonce = nonce;
}

abbrev the_machine : Machine Tables Disk
the_machine = record { session = start; database = new_database; disk = the_disk }

abbrev run : Result String SyncFeedback × Machine Tables Disk
run = sync_profile_with_server the_desktop the_turn the_profile "Downloads" the_machine

abbrev again : Result String SyncFeedback × Machine Tables Disk
again = sync_profile_with_server the_desktop the_turn the_profile "Downloads" run.1

abbrev second_feedback : SyncFeedback
second_feedback = record {
  action = "synced";
  profile_directory = "Default";
  profile_name = "Me";
  stats = record { bookmarks = 0; folders = 1; bytes = 32 };
  revision = 1;
  conflicts = 0;
  backup_path = none;
  message = "Bookmarks are already up to date. Extensions are already up to date.";
  extension_stats = some (record { extensions = 1; files = 1; bytes = 32 });
  extension_backup_path = none;
}

-- The second synchronisation finds everything as it was left.
synced_again :
    sync_profile_with_server the_desktop the_turn the_profile "Downloads" run.1
    ≡ (ok second_feedback, again.1)
unfolding sync_profile_with_server sync_extensions_with_server capture_extensions
    remote_extension_manifest persist_extension_sync_state extension_base_hash choose
    persist_sync_state bookmark_base profile_name snapshot_eq roots_eq node_eq mapping sync_base
    save_sync_state to_i64 to_u64 first upsert profile_preferences Rows.order_by Rows.place
    discover_bookmarks discover_extension_bundle gather_pages note_all note Discovery.insert live
    newest_first Discovery.place pick_candidate read_bookmarks parse_bookmarks convert_roots
    convert_root convert_node is_bar bookmark_stats count_roots Stats.count load_bookmarks
    save_bookmark_snapshot merge_bookmarks merge_roots merge_keys merge_optional_node find_root
    unseen protect_sync_base open_sync_base protect_extension_sync_base open_extension_sync_base
    encrypt_local_state decrypt_local_state derive_local_state_key local_state_aad is_local
    validate_merge_pair Api.changes save_extension_bundle load_extension_bundle
    load_extension_manifest load_chunks download upload_chunks chunks chunks_fuel upload upload_at
    encrypt decrypt derive_key associated_data append_field be_bytes codes unary predicted_revision
    json_request parse_response negotiate_version ensure_negotiated Api.put_object Api.get_object
    negotiate serve admit handle version require_auth presented_token strip_prefix ct_eq
    require_protocol parse_u16 parse_digits Objects.put_object Objects.get_object transact
    put_object_tx ensure_active_device fetch_device fetch_object record_change store_object
    timestamp_string i64_from_u64 u64_from_i64 checked_next validate_put next_revision active_device
    lookup insert sample_text is_sample row_to_object parse_uuid parse_timestamp parse_unary
    helium_sync.Server.Feed.changes helium_sync.Server.Devices.collect
    helium_sync.Server.Feed.rows_after helium_sync.Server.Checks.row_to_change
    helium_sync.Profile.Merge.contains helium_sync.Profile.Node.height
synced_again = refl

sync_profile_with_server-IsSynced_example :
    IsSynced the_desktop the_turn the_profile sample_codec-ReadsBack desk-Unseals refl
      json-ReadsBack the_turn refl refl "Downloads" run.1 second_feedback again.1
sync_profile_with_server-IsSynced_example =
    sync_profile_with_server-IsSynced the_desktop the_turn the_profile content disk_system-Lawful
      disk_system-Readable bar_json-ReadsBack "Downloads" the_paths sample_codec-ReadsBack
      desk-Unseals refl json-ReadsBack the_turn refl refl run.1 again.1 second_feedback synced_again

-- the machine after the capture of the second run
abbrev captured_again : Machine Tables Disk
captured_again = (capture_extensions the_desktop the_turn the_profile run.1).1

abbrev found_again : Result String (Option Remote) × Machine Tables Disk
found_again = remote_extension_manifest the_desktop the_turn the_profile captured_again

abbrev base_again : Machine Tables Disk
base_again = (extension_base_hash the_desktop the_turn the_profile found_again.1).1

abbrev the_proof : SyncProof
the_proof = record {
  object_id = record { uuid = 4 };
  namespace = "helium.extensions.manifest.v1";
  revision = 1;
  cursor = 2;
  plaintext_matches = true;
}

capture_again :
    capture_extensions the_desktop the_turn the_profile run.1
    ≡ (ok (descriptor, archive), captured_again)
unfolding sync_profile_with_server sync_extensions_with_server capture_extensions
    remote_extension_manifest persist_extension_sync_state extension_base_hash choose
    persist_sync_state bookmark_base profile_name snapshot_eq roots_eq node_eq mapping sync_base
    save_sync_state to_i64 to_u64 first upsert profile_preferences Rows.order_by Rows.place
    discover_bookmarks discover_extension_bundle gather_pages note_all note Discovery.insert live
    newest_first Discovery.place pick_candidate read_bookmarks parse_bookmarks convert_roots
    convert_root convert_node is_bar bookmark_stats count_roots Stats.count load_bookmarks
    save_bookmark_snapshot merge_bookmarks merge_roots merge_keys merge_optional_node find_root
    unseen protect_sync_base open_sync_base protect_extension_sync_base open_extension_sync_base
    encrypt_local_state decrypt_local_state derive_local_state_key local_state_aad is_local
    validate_merge_pair Api.changes save_extension_bundle load_extension_bundle
    load_extension_manifest load_chunks download upload_chunks chunks chunks_fuel upload upload_at
    encrypt decrypt derive_key associated_data append_field be_bytes codes unary predicted_revision
    json_request parse_response negotiate_version ensure_negotiated Api.put_object Api.get_object
    negotiate serve admit handle version require_auth presented_token strip_prefix ct_eq
    require_protocol parse_u16 parse_digits Objects.put_object Objects.get_object transact
    put_object_tx ensure_active_device fetch_device fetch_object record_change store_object
    timestamp_string i64_from_u64 u64_from_i64 checked_next validate_put next_revision active_device
    lookup insert sample_text is_sample row_to_object parse_uuid parse_timestamp parse_unary
    helium_sync.Server.Feed.changes helium_sync.Server.Devices.collect
    helium_sync.Server.Feed.rows_after helium_sync.Server.Checks.row_to_change
    helium_sync.Profile.Merge.contains helium_sync.Profile.Node.height
capture_again = refl

manifest_again : found_again ≡ (ok (some (manifest, the_proof)), found_again.1)
unfolding sync_profile_with_server sync_extensions_with_server capture_extensions
    remote_extension_manifest persist_extension_sync_state extension_base_hash choose
    persist_sync_state bookmark_base profile_name snapshot_eq roots_eq node_eq mapping sync_base
    save_sync_state to_i64 to_u64 first upsert profile_preferences Rows.order_by Rows.place
    discover_bookmarks discover_extension_bundle gather_pages note_all note Discovery.insert live
    newest_first Discovery.place pick_candidate read_bookmarks parse_bookmarks convert_roots
    convert_root convert_node is_bar bookmark_stats count_roots Stats.count load_bookmarks
    save_bookmark_snapshot merge_bookmarks merge_roots merge_keys merge_optional_node find_root
    unseen protect_sync_base open_sync_base protect_extension_sync_base open_extension_sync_base
    encrypt_local_state decrypt_local_state derive_local_state_key local_state_aad is_local
    validate_merge_pair Api.changes save_extension_bundle load_extension_bundle
    load_extension_manifest load_chunks download upload_chunks chunks chunks_fuel upload upload_at
    encrypt decrypt derive_key associated_data append_field be_bytes codes unary predicted_revision
    json_request parse_response negotiate_version ensure_negotiated Api.put_object Api.get_object
    negotiate serve admit handle version require_auth presented_token strip_prefix ct_eq
    require_protocol parse_u16 parse_digits Objects.put_object Objects.get_object transact
    put_object_tx ensure_active_device fetch_device fetch_object record_change store_object
    timestamp_string i64_from_u64 u64_from_i64 checked_next validate_put next_revision active_device
    lookup insert sample_text is_sample row_to_object parse_uuid parse_timestamp parse_unary
    helium_sync.Server.Feed.changes helium_sync.Server.Devices.collect
    helium_sync.Server.Feed.rows_after helium_sync.Server.Checks.row_to_change
    helium_sync.Profile.Merge.contains helium_sync.Profile.Node.height
manifest_again = refl

hash_again :
    extension_base_hash the_desktop the_turn the_profile found_again.1
    ≡ (ok (some "digest"), base_again)
unfolding sync_profile_with_server sync_extensions_with_server capture_extensions
    remote_extension_manifest persist_extension_sync_state extension_base_hash choose
    persist_sync_state bookmark_base profile_name snapshot_eq roots_eq node_eq mapping sync_base
    save_sync_state to_i64 to_u64 first upsert profile_preferences Rows.order_by Rows.place
    discover_bookmarks discover_extension_bundle gather_pages note_all note Discovery.insert live
    newest_first Discovery.place pick_candidate read_bookmarks parse_bookmarks convert_roots
    convert_root convert_node is_bar bookmark_stats count_roots Stats.count load_bookmarks
    save_bookmark_snapshot merge_bookmarks merge_roots merge_keys merge_optional_node find_root
    unseen protect_sync_base open_sync_base protect_extension_sync_base open_extension_sync_base
    encrypt_local_state decrypt_local_state derive_local_state_key local_state_aad is_local
    validate_merge_pair Api.changes save_extension_bundle load_extension_bundle
    load_extension_manifest load_chunks download upload_chunks chunks chunks_fuel upload upload_at
    encrypt decrypt derive_key associated_data append_field be_bytes codes unary predicted_revision
    json_request parse_response negotiate_version ensure_negotiated Api.put_object Api.get_object
    negotiate serve admit handle version require_auth presented_token strip_prefix ct_eq
    require_protocol parse_u16 parse_digits Objects.put_object Objects.get_object transact
    put_object_tx ensure_active_device fetch_device fetch_object record_change store_object
    timestamp_string i64_from_u64 u64_from_i64 checked_next validate_put next_revision active_device
    lookup insert sample_text is_sample row_to_object parse_uuid parse_timestamp parse_unary
    helium_sync.Server.Feed.changes helium_sync.Server.Devices.collect
    helium_sync.Server.Feed.rows_after helium_sync.Server.Checks.row_to_change
    helium_sync.Profile.Merge.contains helium_sync.Profile.Node.height
hash_again = refl
