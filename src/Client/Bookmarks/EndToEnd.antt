-- ===== src/Client/Bookmarks/EndToEnd.antt =====
-- Bookmarks (orchestration.rs: `save_bookmark_snapshot`, `load_bookmarks`) through the API client to
-- the server's router and back.
use helium_sync.Prelude.{ℕ, ◌≡◌, refl, ◌∙◌, true, Option, none, some, List, Bool, ok, ◌⊎◌, length}
use helium_sync.Common.Types.{ObjectId, DeviceId, Timestamp, SyncObject, EncryptedEnvelopeV1}
use helium_sync.Common.Codec.{ReadsBack}
use helium_sync.Server.Tables.{Tables, Statement}
use helium_sync.Server.Objects.{put_object_tx}
use helium_sync.Server.Router.{Env}
use helium_sync.Client.Crypto.{Primitives, encrypt}
use helium_sync.Client.Crypto.RoundTrip.{Unseals}
use helium_sync.Client.Api
use helium_sync.Client.Api.{Session}
use helium_sync.Client.Api.Served.{Config, Matches, talking}
use helium_sync.Client.Sync.{SyncProof, upload, upload_metadata, upload_request}
use helium_sync.Client.Sync.EndToEnd.{
  core_of, upload_at-served, decrypt-put, fetched, same_namespace,
}
use helium_sync.Client.Bookmarks.{
  SnapshotJson, bookmark_namespace, save_bookmark_snapshot, load_bookmarks, open_bookmarks,
}
use helium_sync.Profile.Node.{BookmarkSnapshotV1}

module _ (env : Env) (config : Config) (m : Matches env config)
    (up : (s : Statement) → env.fails s ≡ Bool.false) (reads : ReadsBack env.codec) (p : Primitives)
    (unseals : Unseals p) (master_key : List ℕ) (device : DeviceId) (nonce plaintext : List ℕ)
    (size : length nonce ≡ 24) (id : ObjectId) (now : Timestamp) (envelope : EncryptedEnvelopeV1)
    (t : Tables) (r : SyncObject × Tables)
    (sealed : encrypt p master_key
        (upload_metadata (core_of env config p master_key device) bookmark_namespace id none now)
        nonce
        plaintext
      ≡ ok envelope)
    (put : put_object_tx env.codec env.fails id
        (upload_request
          (core_of env config p master_key device)
          bookmark_namespace
          none
          now
          envelope)
        t
      ≡ ok r)
    (json : SnapshotJson) (snapshot : BookmarkSnapshotV1)
    (written : json.write snapshot ≡ ok plaintext)
    (read_again : json.read plaintext ≡ ok snapshot) where
  abbrev the_proof : SyncProof
  the_proof = record {
    object_id = id;
    namespace = bookmark_namespace;
    revision = r.0.revision;
    cursor = r.0.cursor;
    plaintext_matches = true;
  }

  -- New bookmarks whose JSON is encrypted with a nonce of 24 bytes and whose put this server
  -- accepts are saved, and then loaded with the same revision and cursor by any device with the
  -- same master key and the token, under the laws of the codec and the ciphers, if the database
  -- executes every statement, the session has agreed on no version or on version 1, and the JSON
  -- is read again as the snapshot.
  pub load-save_bookmarks :
      (protocol : Option ℕ)
      → (protocol ≡ none) ⊎ (protocol ≡ some 1)
      → (other : DeviceId)
      → (save_bookmark_snapshot
            (core_of env config p master_key device)
            json
            id
            now
            nonce
            snapshot
            none
            none
            (record { protocol = protocol; world = t })
          ≡ (ok the_proof, talking r.1))
        × (load_bookmarks (core_of env config p master_key other) json id (talking r.1)
            ≡ (ok (snapshot, the_proof), talking r.1))
  unfolding save_bookmark_snapshot load_bookmarks upload
  load-save_bookmarks protocol ready other =
      let core = core_of env config p master_key other in
      (
        rw written (
            upload_at-served env config m up reads p unseals master_key device nonce plaintext size
              id now bookmark_namespace none envelope t r sealed put protocol ready),
        Api.>>=-ok (Api.get_object core.api id) (open_bookmarks core json id) (talking r.1)
              (talking r.1) r.0
              (fetched env config m up reads p unseals master_key device nonce plaintext size id now
                bookmark_namespace none envelope t r sealed put)
            ∙ rw
                (
                  decrypt-put env config m up reads p unseals master_key device nonce plaintext size
                      id now bookmark_namespace none envelope t r sealed put,
                  same_namespace env config m up reads p unseals master_key device nonce plaintext
                      size id now bookmark_namespace none envelope t r sealed put,
                  read_again,
                )
                refl,
      )
