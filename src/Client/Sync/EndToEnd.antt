-- ===== src/Client/Sync/EndToEnd.antt =====
-- An upload (orchestration.rs: `upload`) through the API client to the server's router and back.
use helium_sync.Prelude.{
  ℕ, ◌+◌, ◌≡◌, refl, ap, ◌∙◌, true, false, String, Option, none, some, List, ok, arith, ◌⊎◌, inr,
  length, eq_refl,
}
use helium_sync.Common.Types.{
  ObjectId, DeviceId, Timestamp, SyncObject, PutObjectRequest, EncryptedEnvelopeV1,
}
use helium_sync.Common.Codec.{ReadsBack}
use helium_sync.Server.Auth.Digest.{ct_eq_refl}
use helium_sync.Server.Tables.{Tables, Statement}
use helium_sync.Server.Checks.{u64_from_i64, checked_next}
use helium_sync.Server.Objects
use helium_sync.Server.Objects.{put_object_tx, next_revision, transact}
use helium_sync.Server.Objects.Put.{put_object_tx-facts, put_reply}
use helium_sync.Server.Objects.Readback.{get-put}
use helium_sync.Server.Router.{Env, Endpoint, handle}
use helium_sync.Client.Crypto.{Primitives, encrypt, decrypt}
use helium_sync.Client.Crypto.RoundTrip.{Unseals, decrypt-encrypt}
use helium_sync.Client.Api
use helium_sync.Client.Api.{
  ApiClient, Session, parse_response, ensure_negotiated, json_request, decode_object,
}
use helium_sync.Client.Api.Served.{
  Config, served, Matches, talking, json_request-handle, ensure_negotiated-served,
}
use helium_sync.Client.Sync.{
  ClientCore, predicted_revision, upload_metadata, upload_request, check_stored, read_back,
  upload_at, open_stored, download,
}

-- The client predicts the revision that the server assigns.
pub next_revision-predicted :
    (o : Option _) (base : Option ℕ) (n : ℕ)
    → next_revision o base ≡ ok n
    → n ≡ predicted_revision base
unfolding next_revision predicted_revision u64_from_i64 checked_next
next_revision-predicted o base n h = ground arith

module _ (env : Env) (config : Config) (m : Matches env config)
    (up : (s : Statement) → env.fails s ≡ false) where
  put_object-served :
      (protocol : Option ℕ) (id : ObjectId) (request : PutObjectRequest) (t : Tables)
      (r : SyncObject × Tables)
      → (protocol ≡ none) ⊎ (protocol ≡ some 1)
      → put_object_tx env.codec env.fails id request t ≡ ok r
      → Api.put_object (served env config) id request (record { protocol = protocol; world = t })
        ≡ (ok r.0, talking r.1)
  unfolding Api.put_object handle Objects.put_object transact parse_response
  put_object-served protocol id request t r ready h =
      Api.>>=-ok (ensure_negotiated (served env config))
        (λ _. json_request (served env config) decode_object (Endpoint.put_object id request) true)
        (record { protocol = protocol; world = t }) (talking t) 1
        (ensure_negotiated-served env config m protocol t ready)
      ∙ json_request-handle env config m decode_object (Endpoint.put_object id request) t
      ∙ rw (up Statement.begin, h, up Statement.commit, transact)

  get_object-served :
      (id : ObjectId) (t : Tables) (o : SyncObject)
      → Objects.get_object env.codec env.fails id t ≡ ok o
      → Api.get_object (served env config) id (talking t) ≡ (ok o, talking t)
  unfolding Api.get_object handle parse_response
  get_object-served id t o h =
      Api.>>=-ok (ensure_negotiated (served env config))
        (λ _. json_request (served env config) decode_object (Endpoint.get_object id) true)
        (talking t) (talking t) 1 (ensure_negotiated-served env config m (some 1) t (inr refl))
      ∙ json_request-handle env config m decode_object (Endpoint.get_object id) t
      ∙ rw h

abbrev pub core_of : Env → Config → Primitives → List ℕ → DeviceId → ClientCore Tables
core_of env config p master_key device = record {
  api = served env config;
  primitives = p;
  master_key = master_key;
  device_id = device;
}

module _ (env : Env) (config : Config) (m : Matches env config)
    (up : (s : Statement) → env.fails s ≡ false) (reads : ReadsBack env.codec) (p : Primitives)
    (unseals : Unseals p) (master_key : List ℕ) (device : DeviceId) (nonce plaintext : List ℕ)
    (size : length nonce ≡ 24) (id : ObjectId) (now : Timestamp) (namespace : String)
    (base : Option ℕ) (envelope : EncryptedEnvelopeV1) (t : Tables) (r : SyncObject × Tables)
    (sealed : encrypt p master_key
        (upload_metadata (core_of env config p master_key device) namespace id base now)
        nonce
        plaintext
      ≡ ok envelope)
    (put : put_object_tx env.codec env.fails id
        (upload_request (core_of env config p master_key device) namespace base now envelope)
        t
      ≡ ok r) where
  -- the object that the server has stored is decrypted
  pub decrypt-put : decrypt p master_key r.0 ≡ ok plaintext
  decrypt-put =
      let request =
        upload_request (core_of env config p master_key device) namespace base now envelope in
      let f = put_object_tx-facts env.codec env.fails id request t r put in
      let next = next_revision-predicted _ base f.revision f.revision_ok in
      let reply : r.0 ≡ put_reply id request (predicted_revision base) (t.sequence + 1) =
        f.reply ∙ ap (λ n. put_reply id request n (t.sequence + 1)) next in
      rw reply (
        decrypt-encrypt p unseals master_key nonce plaintext size
          (put_reply id request (predicted_revision base) (t.sequence + 1)) envelope sealed refl)

  pub fetched : Api.get_object (served env config) id (talking r.1) ≡ (ok r.0, talking r.1)
  fetched = get_object-served env config m up id r.1 r.0 (
      get-put env.codec reads env.fails (up Statement.select_object) env.fails id
        (upload_request (core_of env config p master_key device) namespace base now envelope) t r
        put)

  pub same_namespace : r.0.namespace ≡ namespace
  same_namespace =
      ap (λ (o : SyncObject). o.namespace)
        (put_object_tx-facts env.codec env.fails id
          (upload_request (core_of env config p master_key device) namespace base now envelope) t r
          put).reply

  -- An upload through the API client to this server, whose database executes every statement and
  -- whose token the client has, under the laws of the codec and the ciphers, from a session that
  -- has agreed on no version or on version 1, succeeds whenever encryption with a nonce of 24
  -- bytes succeeds and the server accepts the put: the object that is read back decrypts to the
  -- plaintext, and the answer is the revision and the cursor of the stored object.
  pub upload_at-served :
      (protocol : Option ℕ)
      → (protocol ≡ none) ⊎ (protocol ≡ some 1)
      → upload_at
          (core_of env config p master_key device)
          now
          nonce
          namespace
          plaintext
          id
          base
          (record { protocol = protocol; world = t })
        ≡ (
          ok (record {
            object_id = id;
            namespace = namespace;
            revision = r.0.revision;
            cursor = r.0.cursor;
            plaintext_matches = true;
          }),
          talking r.1,
        )
  unfolding upload_at
  upload_at-served protocol ready =
      let core = core_of env config p master_key device in
      rw sealed (
        Api.>>=-ok (Api.put_object core.api id (upload_request core namespace base now envelope))
          (λ _. read_back core id namespace plaintext) (record { protocol = protocol; world = t })
          (talking r.1) r.0
          (put_object-served env config m up protocol id
            (upload_request core namespace base now envelope) t r ready put)
        ∙ Api.>>=-ok (Api.get_object core.api id) (check_stored core id namespace plaintext)
            (talking r.1) (talking r.1) r.0 fetched
        ∙ rw (decrypt-put, ct_eq_refl))

  -- After a put that the server has accepted, of an object encrypted with a nonce of 24 bytes, a
  -- client with the same master key and the server's token, whatever its device, downloads the
  -- plaintext with the stored revision and cursor, under the laws of the codec and the ciphers, if
  -- the database executes every statement.
  pub download-uploaded :
      (other : DeviceId)
      → download (core_of env config p master_key other) namespace id (talking r.1) ≡ (
        ok (
          plaintext,
          record {
            object_id = id;
            namespace = namespace;
            revision = r.0.revision;
            cursor = r.0.cursor;
            plaintext_matches = true;
          },
        ),
        talking r.1,
      )
  unfolding download
  download-uploaded other =
      let core = core_of env config p master_key other in
      Api.>>=-ok (Api.get_object core.api id) (open_stored core namespace id) (talking r.1)
        (talking r.1) r.0 fetched
      ∙ rw (decrypt-put, same_namespace, eq_refl)
