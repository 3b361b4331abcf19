-- ===== src/Tests/Bookmarks.antt =====
-- Bookmarks saved and loaded (orchestration.rs) through the server's router, at concrete ones.
use helium_sync.Prelude.{◌≡◌, refl, true, none, [], ◌∷◌, ok, inl}
use helium_sync.Common.Types.{SyncObject, PutObjectRequest}
use helium_sync.Server.Tables.{Tables, fetch_device, fetch_object, record_change, store_object}
use helium_sync.Prelude.Table.{lookup, insert}
use helium_sync.Server.Checks.{
  validate_put, i64_from_u64, u64_from_i64, checked_next, timestamp_string,
}
use helium_sync.Server.Objects.{active_device, next_revision, ensure_active_device, put_object_tx}
use helium_sync.Server.Objects.Written.{written}
use helium_sync.Server.Objects.Put.{put_row, put_reply}
use helium_sync.Client.Crypto.{encrypt, derive_key, associated_data}
use helium_sync.Client.Crypto.Bytes.{be_bytes, append_field}
use helium_sync.Client.Api.Served.{talking}
use helium_sync.Client.Sync.{predicted_revision, upload_metadata, upload_request, SyncProof}
use helium_sync.Client.Sync.EndToEnd.{core_of}
use helium_sync.Client.Bookmarks.{
  SnapshotJson, bookmark_namespace, save_bookmark_snapshot, load_bookmarks,
}
use helium_sync.Client.Bookmarks.EndToEnd.{load-save_bookmarks}
use helium_sync.Profile.Node.{BookmarkSnapshotV1, BookmarkNode, Nodes}
use helium_sync.Tests.Codec.{
  sample_codec, sample_envelope, sample_codec-ReadsBack, unary, sample_text, is_sample,
}
use helium_sync.Server.Auth.{ct_eq}
use helium_sync.Tests.Server.{up, alice, note_id, with_device}
use helium_sync.Tests.Requests.{world}
use helium_sync.Tests.Sync.{config, config-Matches, nonce, plaintext, laptop}
use helium_sync.Tests.Crypto.{sample_primitives, sample-Unseals, sample_key, codes}

abbrev snapshot : BookmarkSnapshotV1
snapshot = record {
  format = "helium-bookmarks";
  source_browser = "helium";
  profile_directory = "Default";
  chromium_version = 1;
  roots =
      record {
        key = "bookmark_bar";
        node =
            BookmarkNode.folder "1" "Bar" none none
              (Nodes.cons (BookmarkNode.url "2" "Home" "https://example.org" none) Nodes.nil);
      }
      ∷ [];
}

abbrev json : SnapshotJson
json = record { write = λ x. ok plaintext; read = λ bytes. ok snapshot }

abbrev request : PutObjectRequest
request =
    upload_request (core_of world config sample_primitives sample_key alice) bookmark_namespace none
      (record { instant = 3 }) sample_envelope

abbrev stored : SyncObject × Tables
stored = (
  put_reply note_id request 1 1,
  written with_device "11" (put_row sample_codec request 1 1 "111" "sample"),
)

sealed :
    encrypt sample_primitives sample_key
      (upload_metadata
        (core_of world config sample_primitives sample_key alice)
        bookmark_namespace
        note_id
        none
        (record { instant = 3 }))
      nonce
      plaintext
    ≡ ok sample_envelope
unfolding encrypt derive_key associated_data append_field be_bytes codes unary predicted_revision
sealed = refl

put : put_object_tx sample_codec up note_id request with_device ≡ ok stored
unfolding put_object_tx ensure_active_device fetch_device fetch_object record_change store_object
    timestamp_string i64_from_u64 u64_from_i64 checked_next validate_put next_revision active_device
    lookup insert unary sample_text is_sample ct_eq
put = refl

abbrev proof : SyncProof
proof = record {
  object_id = note_id;
  namespace = bookmark_namespace;
  revision = 1;
  cursor = 1;
  plaintext_matches = true;
}

load-save_bookmarks_example :
    (save_bookmark_snapshot
        (core_of world config sample_primitives sample_key alice)
        json
        note_id
        (record { instant = 3 })
        nonce
        snapshot
        none
        none
        (record { protocol = none; world = with_device })
      ≡ (ok proof, talking stored.1))
    × (load_bookmarks
          (core_of world config sample_primitives sample_key laptop)
          json
          note_id
          (talking stored.1)
        ≡ (ok (snapshot, proof), talking stored.1))
load-save_bookmarks_example =
    load-save_bookmarks world config config-Matches (λ s. refl) sample_codec-ReadsBack
      sample_primitives sample-Unseals sample_key alice nonce plaintext refl note_id
      (record { instant = 3 }) sample_envelope with_device stored sealed put json snapshot refl refl
      none (inl refl) laptop
