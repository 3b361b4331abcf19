-- ===== src/Server/Router/Gate.antt =====
-- What stands in front of the handlers of api.rs, and what a failed request leaves behind.
use helium_sync.Prelude.{
  ◌≡◌, ◌≢◌, refl, Bool, String, Option, some, ok, err, arith, Result-cases, inl, inr,
}
use helium_sync.Prelude.Fallible
use helium_sync.Server.Errors.{ApiError}
use helium_sync.Server.Tables.{Tables, Statement, fetch_device}
use helium_sync.Common.Codec.{Codec}
use helium_sync.Common.Types.{Timestamp, DeviceId, RegisterDeviceRequest}
use helium_sync.Server.Objects
use helium_sync.Server.Objects.Atomic.{transact-err, batch-err}
use helium_sync.Server.Devices.{register_device, revoke_device, add_device, mark_revoked}
use helium_sync.Server.Auth.{presented_token, requested_version, require_auth, require_protocol}
use helium_sync.Server.Auth.Digest.{require_auth-token, require_protocol-version}
use helium_sync.Server.Router.{Env, Request, Endpoint, handle, admit, serve}

module _ (c : Codec) (fails : Statement → Bool) (now : Timestamp) (t : Tables) (x : ApiError) where
  register_device-err :
      (r : RegisterDeviceRequest)
      → (register_device c fails now r t).0 ≡ err x
      → (register_device c fails now r t).1 ≡ t
  unfolding register_device fetch_device add_device
  register_device-err r h = ground arith

  revoke_device-err :
      (id : DeviceId)
      → (revoke_device c fails now id t).0 ≡ err x
      → (revoke_device c fails now id t).1 ≡ t
  unfolding revoke_device mark_revoked
  revoke_device-err id h = ground arith

handle-err :
    (env : Env) (e : Endpoint) (t : Tables) (x : ApiError)
    → (handle env e t).0 ≡ err x
    → (handle env e t).1 ≡ t
unfolding handle Objects.put_object Objects.delete_object Objects.batch
handle-err env Endpoint.get_version t x h = refl
handle-err env (Endpoint.register_device r) t x h =
    register_device-err env.codec env.fails env.now t x r (ground arith)
handle-err env (Endpoint.revoke_device id) t x h =
    revoke_device-err env.codec env.fails env.now t x id (ground arith)
handle-err env (Endpoint.put_object id r) t x h =
    ground (arith, transact-err env.fails (Objects.put_object_tx env.codec env.fails id r) t x)
handle-err env (Endpoint.delete_object id r) t x h =
    ground (arith, transact-err env.fails (Objects.delete_object_tx env.codec env.fails id r) t x)
handle-err env (Endpoint.batch r) t x h =
    batch-err env.codec env.fails env.outage r t x (ground arith)
handle-err env _ t x h = refl

-- A request that is answered with an error, of whatever kind and at whatever statement, leaves
-- every table as it was: a transaction that fails is dropped, so a batch is applied whole or not
-- at all, and the handlers without a transaction write nothing before an error.
pub serve-err :
    (env : Env) (r : Request) (t : Tables) (x : ApiError)
    → (serve env r t).0 ≡ err x
    → (serve env r t).1 ≡ t
unfolding serve
serve-err env r t x h = ground (arith, handle-err env r.endpoint t x)

abbrev Admitted : Env → Option String → Option String → Type 0
Admitted env authorization protocol =
    ((token : String) × (presented_token authorization ≡ some token)
      × (env.sha256 token ≡ env.token_digest))
    × (requested_version protocol ≡ some 1)

admitted :
    (env : Env) (authorization protocol : Option String) (e : Endpoint) (t : Tables)
    → admit env (record { authorization = authorization; protocol = protocol; endpoint = e })
      ≡ ok tt
    → (handle env e t).1 ≢ t
    → Admitted env authorization protocol
unfolding admit handle
admitted env authorization protocol Endpoint.get_version t h changed = absurd (changed refl)
admitted env authorization protocol _ t h changed =
    let (a, p, q) =
      Fallible.>>=-eq-ok (require_auth env.sha256 env.token_digest authorization)
        (λ _. require_protocol protocol) h in
    (
      require_auth-token env.sha256 env.token_digest authorization p,
      require_protocol-version protocol q,
    )

-- A request that changes anything carried a bearer token with the server's digest and asked for
-- protocol version 1.
pub serve-admitted :
    (env : Env) (r : Request) (t : Tables)
    → (serve env r t).1 ≢ t
    → ((token : String) × (presented_token r.authorization ≡ some token)
        × (env.sha256 token ≡ env.token_digest))
      × (requested_version r.protocol ≡ some 1)
unfolding serve
serve-admitted env r t h = elim (Result-cases (admit env r)) [
  | inl (e, p) ↦ absurd (h (rw (p, serve)))
  | inr (a, p) ↦ admitted env r.authorization r.protocol r.endpoint t p (λ q. h (rw (p, serve) q))
]
