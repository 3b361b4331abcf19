-- ===== src/Server/Router.antt =====
-- api.rs: `router`. A request passes the token check, then, except for `/v1/version`, the protocol
-- check, and then reaches its handler. Decoding bodies and paths is the framework's.
pub mod Gate
use helium_sync.Prelude.{ℕ, Bool, String, List, [], ◌∷◌, Option, Result, ok, err}
use helium_sync.Prelude.Fallible
use helium_sync.Common.Types.{
  ObjectId, DeviceId, Timestamp, SyncObject, PutObjectRequest, DeleteObjectRequest, BatchRequest,
  BatchResponse, ChangesResponse, Device, RegisterDeviceRequest, VersionResponse, StatusResponse,
}
use helium_sync.Common.Protocol.{default_range, protocol_max}
use helium_sync.Common.Codec.{Codec}
use helium_sync.Server.Errors.{ApiError}
use helium_sync.Server.Tables.{Tables, Statement, attempt}
use helium_sync.Server.Objects
use helium_sync.Server.Objects.{Reply}
use helium_sync.Server.Devices
use helium_sync.Server.Feed
use helium_sync.Server.Feed.{ChangesQuery}
use helium_sync.Server.Auth.{require_auth, require_protocol}

-- the routes, with what the framework has decoded
pub data Endpoint : Type 0 where
  get_version get_status list_devices : Endpoint
  register_device : RegisterDeviceRequest → Endpoint
  revoke_device : DeviceId → Endpoint
  changes : ChangesQuery → Endpoint
  get_object : ObjectId → Endpoint
  put_object : ObjectId → PutObjectRequest → Endpoint
  delete_object : ObjectId → DeleteObjectRequest → Endpoint
  batch : BatchRequest → Endpoint

pub data Body : Type 0 where
  version_info : VersionResponse → Body
  status_info : StatusResponse → Body
  devices : List Device → Body
  device : Bool × Device → Body
  no_content : Unit {0} → Body
  page : ChangesResponse → Body
  object : SyncObject → Body
  objects : BatchResponse → Body

pub record Request : Type 0 where
  pub authorization : Option String
  pub protocol : Option String
  pub endpoint : Endpoint

-- `AppState`, the crates that the server calls, and what the world does during one request: the
-- time, and which statements the database refuses.
pub record Env : Type 0 where
  pub codec : Codec
  pub sha256 : String → List ℕ
  pub token_digest : List ℕ
  pub server_version : String
  pub now : Timestamp
  pub fails : Statement → Bool
  pub outage : ℕ → Statement → Bool

unfoldable pub version : Env → VersionResponse
version env = record {
  server_version = env.server_version;
  protocol = default_range;
  capabilities = "objects" ∷ "changes" ∷ "devices" ∷ "batch" ∷ "encrypted-envelope-v1" ∷ [];
}

unfoldable pub status : Env → Tables → Result ApiError StatusResponse
status env t = Fallible.◌>>=◌ (attempt env.fails Statement.ping t) λ _.
    ok (record { status = "ok"; database = "ok"; server_time = env.now; protocol = protocol_max })

abbrev answer : {A : Type 0} → (A → Body) → Result ApiError A → Result ApiError Body
answer f (ok a) = ok (f a)
answer f (err e) = err e

abbrev read_only : {A : Type 0} → (A → Body) → Result ApiError A → Tables → Reply Body
read_only f r t = (answer f r, t)

abbrev reply : {A : Type 0} → (A → Body) → Reply A → Reply Body
reply f r = (answer f r.0, r.1)

unfoldable pub handle : Env → Endpoint → Tables → Reply Body
unfolding version status
handle env Endpoint.get_version t = (ok (Body.version_info (version env)), t)
handle env Endpoint.get_status t = read_only Body.status_info (status env t) t
handle env Endpoint.list_devices t =
    read_only Body.devices (Devices.list_devices env.codec env.fails t) t
handle env (Endpoint.register_device r) t =
    reply Body.device (Devices.register_device env.codec env.fails env.now r t)
handle env (Endpoint.revoke_device id) t =
    reply Body.no_content (Devices.revoke_device env.codec env.fails env.now id t)
handle env (Endpoint.changes q) t = read_only Body.page (Feed.changes env.codec env.fails q t) t
handle env (Endpoint.get_object id) t =
    read_only Body.object (Objects.get_object env.codec env.fails id t) t
handle env (Endpoint.put_object id r) t =
    reply Body.object (Objects.put_object env.codec env.fails id r t)
handle env (Endpoint.delete_object id r) t =
    reply Body.object (Objects.delete_object env.codec env.fails id r t)
handle env (Endpoint.batch r) t =
    reply Body.objects (Objects.batch env.codec env.fails env.outage r t)

-- `/v1/version` stands outside the protocol check.
unfoldable pub admit : Env → Request → Result ApiError (Unit {0})
admit env r =
    Fallible.◌>>=◌ (require_auth env.sha256 env.token_digest r.authorization)
      λ _. elim r.endpoint [ get_version ↦ ok tt | _ ↦ require_protocol r.protocol ]

unfoldable pub serve : Env → Request → Tables → Reply Body
serve env r t = elim (admit env r) [ ok _ ↦ handle env r.endpoint t | err e ↦ (err e, t) ]

-- the tables after a sequence of requests, each with its own world
unfoldable pub run : List (Env × Request) → Tables → Tables
run [] t = t
run ((env, r) ∷ rest) t = run rest (serve env r t).1
