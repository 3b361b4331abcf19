-- ===== src/Tests/Sync.antt =====
-- An upload and a download against the server, at a concrete note.
use helium_sync.Prelude.{ℕ, ◌≡◌, refl, true, none, List, ok, replicate, inl}
use helium_sync.Common.Types.{DeviceId}
use helium_sync.Client.Crypto.{encrypt, derive_key, associated_data}
use helium_sync.Client.Crypto.Bytes.{be_bytes, append_field}
use helium_sync.Client.Api.Served.{Config, Matches, talking}
use helium_sync.Client.Sync.{predicted_revision, upload_at, download, upload_metadata}
use helium_sync.Client.Sync.EndToEnd.{core_of, upload_at-served, download-uploaded}
use helium_sync.Tests.Codec.{sample_envelope, sample_codec-ReadsBack, unary}
use helium_sync.Tests.Server.{alice, note_id, with_device, with_object, first_reply, first_put}
use helium_sync.Tests.Requests.{world}
use helium_sync.Tests.Crypto.{sample_primitives, sample-Unseals, sample_key, codes}

abbrev pub config : Config
config = record { token = "t"; is_header = λ s. true; decimal = λ n. "1" }

pub config-Matches : Matches world config
config-Matches = record { digest = refl; header = refl; one = refl }

abbrev pub nonce : List ℕ
nonce = replicate 24 7

abbrev pub plaintext : List ℕ
plaintext = replicate 32 9

sealed :
    encrypt sample_primitives sample_key
      (upload_metadata
        (core_of world config sample_primitives sample_key alice)
        "bookmarks"
        note_id
        none
        (record { instant = 3 }))
      nonce
      plaintext
    ≡ ok sample_envelope
unfolding encrypt derive_key associated_data append_field be_bytes codes unary predicted_revision
sealed = refl

upload_at-served_example :
    upload_at
      (core_of world config sample_primitives sample_key alice)
      (record { instant = 3 })
      nonce
      "bookmarks"
      plaintext
      note_id
      none
      (record { protocol = none; world = with_device })
    ≡ (
      ok (record {
        object_id = note_id;
        namespace = "bookmarks";
        revision = 1;
        cursor = 1;
        plaintext_matches = true;
      }),
      talking with_object,
    )
upload_at-served_example =
    upload_at-served world config config-Matches (λ s. refl) sample_codec-ReadsBack
      sample_primitives sample-Unseals sample_key alice nonce plaintext refl note_id
      (record { instant = 3 }) "bookmarks" none sample_envelope with_device
      (first_reply, with_object) sealed first_put none (inl refl)

abbrev pub laptop : DeviceId
laptop = record { uuid = 7 }

download-uploaded_example :
    download
      (core_of world config sample_primitives sample_key laptop)
      "bookmarks"
      note_id
      (talking with_object)
    ≡ (
      ok (
        plaintext,
        record {
          object_id = note_id;
          namespace = "bookmarks";
          revision = 1;
          cursor = 1;
          plaintext_matches = true;
        },
      ),
      talking with_object,
    )
download-uploaded_example =
    download-uploaded world config config-Matches (λ s. refl) sample_codec-ReadsBack
      sample_primitives sample-Unseals sample_key alice nonce plaintext refl note_id
      (record { instant = 3 }) "bookmarks" none sample_envelope with_device
      (first_reply, with_object) sealed first_put laptop
