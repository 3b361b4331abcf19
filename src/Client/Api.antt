-- ===== src/Client/Api.antt =====
-- crates/helium-sync-client-core/src/api.rs: `ApiClient`. The transport takes a request to an answer
-- and may change the world behind it. A request and an answer stand here as the server's router
-- has decoded and not yet encoded them; the text of a version number, and which texts can stand
-- in a header, are the standard library's and the `http` crate's.
pub mod Served
use Prim.Native.String.{◌++◌ as text_append}
use helium_sync.Prelude.{
  arith, inl, inr, Result-cases, ℕ, ◌≡◌, ap, Bool, true, false, ◌==◌, if◌then◌else◌, String, Option,
  none, some, List, Result, ok, err, ok_or,
}
use helium_sync.Common.Protocol.{
  ProtocolVersion, ProtocolRange, default_range, protocol_min, protocol_max, negotiate,
}
use helium_sync.Common.Types.{
  ObjectId, SyncObject, PutObjectRequest, DeleteObjectRequest, VersionResponse, StatusResponse,
  ChangesResponse,
}
use helium_sync.Server.Errors.{ApiError}
use helium_sync.Server.Feed.{default_changes_limit}
use helium_sync.Server.Router.{Endpoint, Body, Request}
use helium_sync.Client.Errors.{
  ClientError, configuration, api_authentication, api, protocol_incompatible, serialization,
}

-- the protocol that was negotiated, and the world behind the transport
pub record Session (S : Type 0) : Type 0 where
  pub protocol : Option ProtocolVersion
  pub world : S

abbrev pub Action : Type 0 → Type 0 → Type 0
Action S A = Session S → Result ClientError A × Session S

-- A failure keeps what was done before it.
abbrev continue :
    {S A B : Type 0}
    → (A → Action S B)
    → Result ClientError A × Session S
    → Result ClientError B × Session S
continue f (ok a, s) = f a s
continue f (err e, s) = (err e, s)

infixl 5 ◌>>=◌ ◌>>◌
abbrev pub ◌>>=◌ : {S A B : Type 0} → Action S A → (A → Action S B) → Action S B
◌>>=◌ m f s = continue f (m s)

abbrev pub ◌>>◌ : {S A B : Type 0} → Action S A → Action S B → Action S B
m >> n = m >>= λ _. n

-- what follows a step that has succeeded
pub >>=-ok :
    {S A B : Type 0} (m : Action S A) (f : A → Action S B) (s s' : Session S) (a : A)
    → m s ≡ (ok a, s')
    → (m >>= f) s ≡ f a s'
>>=-ok m f s s' a h = ap (continue f) h

-- What has succeeded has succeeded at each step.
pub >>=-eq-ok :
    {S A B : Type 0} (m : Action S A) (f : A → Action S B) (s s' : Session S) (b : B)
    → (m >>= f) s ≡ (ok b, s')
    → (a : A) × (t : Session S) × (m s ≡ (ok a, t)) × (f a t ≡ (ok b, s'))
>>=-eq-ok m f s s' b h = elim (Result-cases (m s).0) [
  | inl (e, p) ↦ absurd (ground arith)
  | inr (a, p) ↦ (a, (m s).1, ground arith, ground arith)
]

abbrev pub lift : {S A : Type 0} → Result ClientError A → Action S A
lift r s = (r, s)

-- Messages of the server are not modelled.
abbrev pub client_error : ApiError → ClientError
client_error e = if e.status == 401 then api_authentication else api e.status e.code ""

unfoldable pub parse_response :
    {R : Type 0} → (Body → Option R) → Result ApiError Body → Result ClientError R
parse_response decode (ok body) = ok_or (decode body) (serialization "")
parse_response decode (err e) = err (client_error e)

pub record ApiClient (S : Type 0) : Type 0 where
  pub token : String
  -- `HeaderValue::from_str` succeeds
  pub is_header : String → Bool
  -- `u16::to_string`
  pub decimal : ℕ → String
  pub execute : Request → S → Result ClientError (Result ApiError Body) × S

abbrev or_max : Option ProtocolVersion → ProtocolVersion
or_max (some v) = v
or_max none = protocol_max

abbrev decode_version : Body → Option VersionResponse
decode_version (Body.version_info v) = some v
decode_version _ = none

abbrev decode_status : Body → Option StatusResponse
decode_status (Body.status_info s) = some s
decode_status _ = none

abbrev pub decode_object : Body → Option SyncObject
decode_object (Body.object o) = some o
decode_object _ = none

abbrev decode_page : Body → Option ChangesResponse
decode_page (Body.page p) = some p
decode_page _ = none

module _ {S : Type 0} (client : ApiClient S) where
  abbrev pub request_of : Session S → Endpoint → Bool → Request
  request_of s endpoint include_protocol = record {
    authorization = some (text_append "Bearer " client.token);
    protocol = if include_protocol then some (client.decimal (or_max s.protocol)) else none;
    endpoint = endpoint;
  }

  abbrev receive :
      {R : Type 0}
      → (Body → Option R)
      → Session S
      → Result ClientError (Result ApiError Body) × S
      → Result ClientError R × Session S
  receive decode s (ok answer, w) = (parse_response decode answer, record s { world = w })
  receive decode s (err e, w) = (err e, record s { world = w })

  unfoldable pub json_request : {R : Type 0} → (Body → Option R) → Endpoint → Bool → Action S R
  json_request decode endpoint include_protocol s =
      if client.is_header (text_append "Bearer " client.token)
      then receive decode s (client.execute (request_of s endpoint include_protocol) s.world)
      else (err (configuration "API token contains invalid header characters"), s)

  abbrev selected : ProtocolRange → Result ClientError ProtocolVersion
  selected peer =
      ok_or (negotiate default_range peer)
        (protocol_incompatible protocol_min protocol_max peer.min_version peer.max_version)

  abbrev remember : ProtocolVersion → Action S (Unit {0})
  remember v s = (ok tt, record s { protocol = some v })

  -- `ApiClient::negotiate`
  unfoldable pub negotiate_version : Action S VersionResponse
  negotiate_version = do
    response ← json_request decode_version Endpoint.get_version false
    version ← lift (selected response.protocol)
    remember version
    lift (ok response)

  abbrev negotiated : Option ProtocolVersion → Result ClientError ProtocolVersion
  negotiated protocol = ok_or protocol (protocol_incompatible protocol_min protocol_max 0 0)

  unfoldable pub ensure_negotiated : Action S ProtocolVersion
  ensure_negotiated s = elim s.protocol [
    | some version ↦ (ok version, s)
    | none ↦ (negotiate_version >>= λ _. (λ s'. (negotiated s'.protocol, s'))) s
  ]

  unfoldable pub status : Action S StatusResponse
  status = do ensure_negotiated; json_request decode_status Endpoint.get_status true

  unfoldable pub put_object : ObjectId → PutObjectRequest → Action S SyncObject
  put_object id request = do
    ensure_negotiated
    json_request decode_object (Endpoint.put_object id request) true

  unfoldable pub get_object : ObjectId → Action S SyncObject
  get_object id = do ensure_negotiated; json_request decode_object (Endpoint.get_object id) true

  unfoldable pub delete_object : ObjectId → DeleteObjectRequest → Action S SyncObject
  delete_object id request = do
    ensure_negotiated
    json_request decode_object (Endpoint.delete_object id request) true

  -- the query names no limit
  unfoldable pub changes : ℕ → Action S ChangesResponse
  changes after = do
    ensure_negotiated
    json_request decode_page
        (Endpoint.changes (record { after = after; limit = default_changes_limit })) true
