-- ===== src/Server/Invariant.antt =====
-- The rule for a property of the tables (api.rs: `router` and the handlers behind it): what the
-- writes of objects keep, and the device handlers do not touch, every request keeps.
use helium_sync.Prelude.{
  subst, length, ltb, ◌==◌, ◌||◌, Result-cases, ℕ, suc, ◌≡◌, Bool, List, [], ◌∷◌, ok, arith,
  Bool-cases, inl, inr,
}
use helium_sync.Common.Types.{
  BatchOperation, BatchRequest, BatchResponse, RegisterDeviceRequest, DeviceId, Timestamp,
  SyncObject,
}
use helium_sync.Common.Codec.{Codec}
use helium_sync.Server.Tables.{fetch_device, Tables, Statement, pure, ◌>>=◌, >>=-eq-ok}
use helium_sync.Server.Objects
use helium_sync.Server.Objects.Atomic.{transact-rule}
use helium_sync.Server.Devices.{add_device, mark_revoked, register_device, revoke_device}
use helium_sync.Server.Router.{Env, Request, Endpoint, handle, admit, serve, run}

-- the same objects, feed and sequence
abbrev pub SameObjects : Tables → Tables → Type 0
SameObjects t u = (u.objects ≡ t.objects) × (u.changes ≡ t.changes) × (u.sequence ≡ t.sequence)

module _ (c : Codec) (fails : Statement → Bool) (now : Timestamp) (t : Tables) where
  pub register_device-SameObjects :
      (r : RegisterDeviceRequest) → SameObjects t (register_device c fails now r t).1
  unfolding register_device fetch_device add_device
  register_device-SameObjects r = ground arith

  pub revoke_device-SameObjects : (id : DeviceId) → SameObjects t (revoke_device c fails now id t).1
  unfolding revoke_device mark_revoked
  revoke_device-SameObjects id = ground arith

module _ (P : Tables → Type 0) (same : (t u : Tables) → SameObjects t u → P t → P u)
    (keeps : (c : Codec) (fails : Statement → Bool) (t : Tables)
      → P t
      → (operation : BatchOperation) (r : SyncObject × Tables)
      → Objects.apply_operation c fails operation t ≡ ok r
      → P r.1) where
  apply_operations-rule :
      (c : Codec) (outage : ℕ → Statement → Bool) (operations : List BatchOperation) (t : Tables)
      (r : List SyncObject × Tables)
      → P t
      → Objects.apply_operations c outage operations t ≡ ok r
      → P r.1
  unfolding Objects.apply_operations
  apply_operations-rule c outage [] t r v h = let e : t ≡ r.1 = ground arith in subst P e v
  apply_operations-rule c outage (x ∷ xs) t r v h =
      let others = Objects.apply_operations c (λ n. outage (suc n)) xs in
      let (a, p, q) =
        >>=-eq-ok (Objects.apply_operation c (outage 0) x)
          (λ object. others >>= λ objects. pure (object ∷ objects)) t r h in
      let (b, p', q') = >>=-eq-ok others (λ objects. pure (a.0 ∷ objects)) a.1 r q in
      let w =
        apply_operations-rule c (λ n. outage (suc n)) xs a.1 b (keeps c (outage 0) t v x a p) p' in
      let e : b.1 ≡ r.1 = ground arith in subst P e w

  batch_body-rule :
      (c : Codec) (outage : ℕ → Statement → Bool) (xs : List BatchOperation) (t : Tables)
      → P t
      → (b : BatchResponse × Tables) → Objects.batch_body c outage xs t ≡ ok b
      → P b.1
  batch_body-rule c outage xs t v b h =
      let (a, p, q) =
        >>=-eq-ok (Objects.apply_operations c outage xs)
          (λ objects. pure (record { objects = objects })) t b h in
      let e : a.1 ≡ b.1 = ground arith in subst P e (apply_operations-rule c outage xs t a v p)

  batch-rule :
      (c : Codec) (fails : Statement → Bool) (outage : ℕ → Statement → Bool) (r : BatchRequest)
      (t : Tables)
      → P t
      → P (Objects.batch c fails outage r t).1
  unfolding Objects.batch
  batch-rule c fails outage r t v =
      elim (Bool-cases
        (length r.operations == 0 || ltb Objects.max_batch_operations (length r.operations))) [
          | inl refused ↦ rw (refused, Objects.batch) v
          | inr size ↦
              rw (size, Objects.batch)
                (transact-rule fails (Objects.batch_body c outage r.operations) t P v
                  (batch_body-rule c outage r.operations t v))
        ]

  handle-rule : (env : Env) (e : Endpoint) (t : Tables) → P t → P (handle env e t).1
  unfolding handle Objects.put_object Objects.delete_object Objects.apply_operation
  handle-rule env Endpoint.get_version t v = v
  handle-rule env (Endpoint.register_device r) t v =
      same t _ (register_device-SameObjects env.codec env.fails env.now t r) v
  handle-rule env (Endpoint.revoke_device id) t v =
      same t _ (revoke_device-SameObjects env.codec env.fails env.now t id) v
  handle-rule env (Endpoint.put_object id r) t v =
      transact-rule env.fails (Objects.put_object_tx env.codec env.fails id r) t P v
        (keeps env.codec env.fails t v (BatchOperation.put id r))
  handle-rule env (Endpoint.delete_object id r) t v =
      transact-rule env.fails (Objects.delete_object_tx env.codec env.fails id r) t P v
        (keeps env.codec env.fails t v (BatchOperation.delete id r))
  handle-rule env (Endpoint.batch r) t v = batch-rule env.codec env.fails env.outage r t v
  handle-rule env _ t v = v

  pub serve-rule : (env : Env) (r : Request) (t : Tables) → P t → P (serve env r t).1
  unfolding serve
  serve-rule env r t v = elim (Result-cases (admit env r)) [
    | inl (e, p) ↦ rw (p, serve) v
    | inr (a, p) ↦ rw (p, serve) (handle-rule env r.endpoint t v)
  ]

  pub run-rule : (requests : List (Env × Request)) (t : Tables) → P t → P (run requests t)
  unfolding run
  run-rule [] t v = v
  run-rule ((env, r) ∷ rest) t v = run-rule rest _ (serve-rule env r t v)
