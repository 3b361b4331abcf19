-- ===== src/Server/Store/Refines.antt =====
-- The server (api.rs: `router`) against the store that it promises.
use helium_sync.Prelude.{
  ℕ, suc, ◌≡◌, refl, ap, sym, subst, ◌∙◌, arith, inl, inr, List, [], ◌∷◌, ◌++◌, map, Bool,
  Bool-cases, String, Result, Result-cases, ok, err, length, ltb, ◌==◌, ◌||◌,
}
use mathlib.Core.List.{map-append, append-nil, append_assoc}
use mathlib.Core.Path.{fun_ext}
use helium_sync.Common.Types.{BatchOperation, BatchRequest, BatchResponse, SyncObject}
use helium_sync.Common.Codec.{Codec}
use helium_sync.Prelude.Table.{lookup}
use helium_sync.Server.Errors.{ApiError}
use helium_sync.Server.Tables.{Tables, Statement, Tx, no_rows, pure, ◌>>=◌, >>=-eq-ok}
use helium_sync.Server.Objects
use helium_sync.Server.Objects.{
  Reply, transact, put_object_tx, delete_object_tx, apply_operation, apply_operations, batch_body,
}
use helium_sync.Server.Objects.Atomic.{transact_cases}
use helium_sync.Server.Devices.{register_device, revoke_device}
use helium_sync.Server.Invariant.{
  SameObjects, register_device-SameObjects, revoke_device-SameObjects,
}
use helium_sync.Server.Router.{Env, Request, Endpoint, Body, handle, admit, serve, run}
use helium_sync.Server.Router.Gate.{serve-err}
use helium_sync.Server.Store.{Label, empty, Writes, Writes-append}
use helium_sync.Server.Store.View.{view, named, label_of, apply_operation-Write}

abbrev pub labels_of : Codec → Endpoint → List Label
labels_of c (Endpoint.put_object id request) = label_of c (BatchOperation.put id request) ∷ []
labels_of c (Endpoint.delete_object id request) = label_of c (BatchOperation.delete id request) ∷ []
labels_of c (Endpoint.batch request) = map (label_of c) request.operations
labels_of c _ = []

abbrev answered : List Label → Result ApiError Body → List Label
answered labels (ok _) = labels
answered labels (err _) = []

-- what the requests that are answered without an error ask for, in order
unfoldable pub accepted : List (Env × Request) → Tables → List Label
accepted [] t = []
accepted ((env, r) ∷ rest) t =
    answered (labels_of env.codec r.endpoint) (serve env r t).0 ++ accepted rest (serve env r t).1

-- The store of the one tables becomes that of the others by these writes, and the feed gets one
-- change for each, of its object.
abbrev pub IsWritten : List Label → Tables → Tables → Type 0
IsWritten labels t u =
    Writes (view t) labels (view u)
    × (named u.changes ≡ named t.changes ++ map (λ label. label.key) labels)

nothing-IsWritten : (t : Tables) → IsWritten [] t t
nothing-IsWritten t = (Writes.here, sym (append-nil (named t.changes)))

IsWritten-append :
    (labels others : List Label) (t u w : Tables)
    → IsWritten labels t u
    → IsWritten others u w
    → IsWritten (labels ++ others) t w
IsWritten-append labels others t u w (first, keys) (second, more) = (
  Writes-append labels others first second,
  more
      ∙ ap (λ (k : List String). k ++ map (λ (l : Label). l.key) others) keys
      ∙ append_assoc (named t.changes) (map (λ (l : Label). l.key) labels) _
      ∙ ap (λ (k : List String). named t.changes ++ k)
          (sym (map-append (λ (l : Label). l.key) labels others)),
)

apply_operation-IsWritten :
    (c : Codec) (fails : Statement → Bool) (operation : BatchOperation) (t : Tables)
    (r : SyncObject × Tables)
    → apply_operation c fails operation t ≡ ok r
    → IsWritten (label_of c operation ∷ []) t r.1
apply_operation-IsWritten c fails operation t r h =
    let (write, name) = apply_operation-Write c fails t operation r h in
    (Writes.next write Writes.here, name)

apply_operations-IsWritten :
    (c : Codec) (outage : ℕ → Statement → Bool) (operations : List BatchOperation) (t : Tables)
    (r : List SyncObject × Tables)
    → apply_operations c outage operations t ≡ ok r
    → IsWritten (map (label_of c) operations) t r.1
unfolding apply_operations
apply_operations-IsWritten c outage [] t r h =
    let e : t ≡ r.1 = ground arith in subst (IsWritten [] t) e (nothing-IsWritten t)
apply_operations-IsWritten c outage (x ∷ xs) t r h =
    let others = apply_operations c (λ n. outage (suc n)) xs in
    let (a, p, q) =
      >>=-eq-ok (apply_operation c (outage 0) x)
        (λ object. others >>= λ objects. pure (object ∷ objects)) t r h in
    let (b, p', q') = >>=-eq-ok others (λ objects. pure (a.0 ∷ objects)) a.1 r q in
    let e : b.1 ≡ r.1 = ground arith in
    IsWritten-append (label_of c x ∷ []) (map (label_of c) xs) t a.1 r.1
      (apply_operation-IsWritten c (outage 0) x t a p)
      (subst (IsWritten (map (label_of c) xs) a.1) e
        (apply_operations-IsWritten c (λ n. outage (suc n)) xs a.1 b p'))

SameObjects-IsWritten : (t u : Tables) → SameObjects t u → IsWritten [] t u
SameObjects-IsWritten t u (objects, changes, sequence) =
    let same : view u ≡ view t = fun_ext (λ key. rw objects) in
    (
      subst (Writes (view t) []) (sym same) Writes.here,
      ap named changes ∙ sym (append-nil (named t.changes)),
    )

transact-IsWritten :
    {A : Type 0} (fails : Statement → Bool) (body : Tx A) (t : Tables) (labels : List Label) (a : A)
    → ((r : A × Tables) → body t ≡ ok r → IsWritten labels t r.1)
    → (transact fails body t).0 ≡ ok a
    → IsWritten labels t (transact fails body t).1
transact-IsWritten fails body t labels a wrote h = elim (transact_cases fails body t) [
  | inl (e, q) ↦ absurd (ground arith)
  | inr (r, p, q) ↦ rw q (wrote r p)
]

batch-IsWritten :
    (c : Codec) (fails : Statement → Bool) (outage : ℕ → Statement → Bool) (request : BatchRequest)
    (t : Tables) (b : BatchResponse)
    → (Objects.batch c fails outage request t).0 ≡ ok b
    → IsWritten (map (label_of c) request.operations) t (Objects.batch c fails outage request t).1
unfolding Objects.batch
batch-IsWritten c fails outage request t b h =
    let n = length request.operations in
    elim (Bool-cases (n == 0 || ltb Objects.max_batch_operations n)) [
      | inl refused ↦ absurd (ground arith)
      | inr size ↦
          let body = batch_body c outage request.operations in
          let done : Objects.batch c fails outage request t ≡ transact fails body t =
            rw (size, Objects.batch) refl in
          rw done (
            transact-IsWritten fails body t (map (label_of c) request.operations) b
              (λ r p.
                let (a, q, e) =
                  >>=-eq-ok (apply_operations c outage request.operations)
                    (λ objects. pure (record { objects = objects })) t r p in
                let same : a.1 ≡ r.1 = ground arith in
                subst (IsWritten (map (label_of c) request.operations) t) same
                  (apply_operations-IsWritten c outage request.operations t a q))
              (ap (λ (x : Reply BatchResponse). x.0) (sym done) ∙ h))
    ]

handle-IsWritten :
    (env : Env) (e : Endpoint) (t : Tables) (b : Body)
    → (handle env e t).0 ≡ ok b
    → IsWritten (labels_of env.codec e) t (handle env e t).1
unfolding handle Objects.put_object Objects.delete_object apply_operation
handle-IsWritten env Endpoint.get_version t b h = nothing-IsWritten t
handle-IsWritten env (Endpoint.register_device r) t b h =
    SameObjects-IsWritten t (register_device env.codec env.fails env.now r t).1
      (register_device-SameObjects env.codec env.fails env.now t r)
handle-IsWritten env (Endpoint.revoke_device id) t b h =
    SameObjects-IsWritten t (revoke_device env.codec env.fails env.now id t).1
      (revoke_device-SameObjects env.codec env.fails env.now t id)
handle-IsWritten env (Endpoint.put_object id r) t b h =
    let body = put_object_tx env.codec env.fails id r in
    elim (Result-cases (transact env.fails body t).0) [
      | inl (x, failed) ↦ absurd (ground arith)
      | inr (a, done) ↦
          transact-IsWritten env.fails body t _ a
            (apply_operation-IsWritten env.codec env.fails (BatchOperation.put id r) t) done
    ]
handle-IsWritten env (Endpoint.delete_object id r) t b h =
    let body = delete_object_tx env.codec env.fails id r in
    elim (Result-cases (transact env.fails body t).0) [
      | inl (x, failed) ↦ absurd (ground arith)
      | inr (a, done) ↦
          transact-IsWritten env.fails body t _ a
            (apply_operation-IsWritten env.codec env.fails (BatchOperation.delete id r) t) done
    ]
handle-IsWritten env (Endpoint.batch r) t b h =
    elim (Result-cases (Objects.batch env.codec env.fails env.outage r t).0) [
      | inl (x, failed) ↦ absurd (ground arith)
      | inr (a, done) ↦ batch-IsWritten env.codec env.fails env.outage r t a done
    ]
handle-IsWritten env Endpoint.get_status t b h = nothing-IsWritten t
handle-IsWritten env Endpoint.list_devices t b h = nothing-IsWritten t
handle-IsWritten env (Endpoint.changes q) t b h = nothing-IsWritten t
handle-IsWritten env (Endpoint.get_object id) t b h = nothing-IsWritten t

served :
    (env : Env) (r : Request) (t : Tables) (b : Body)
    → (serve env r t).0 ≡ ok b
    → IsWritten (labels_of env.codec r.endpoint) t (serve env r t).1
unfolding serve
served env r t b h = elim (Result-cases (admit env r)) [
  | inl (x, refused) ↦ absurd (ground arith)
  | inr (u, admitted) ↦
      let reached : serve env r t ≡ handle env r.endpoint t = rw (admitted, serve) refl in
      rw reached
        (handle-IsWritten env r.endpoint t b (ap (λ (x : Reply Body). x.0) (sym reached) ∙ h))
]

serve-IsWritten :
    (env : Env) (r : Request) (t : Tables)
    → IsWritten (answered (labels_of env.codec r.endpoint) (serve env r t).0) t (serve env r t).1
serve-IsWritten env r t = elim (Result-cases (serve env r t).0) [
  | inl (x, failed) ↦ rw (failed, serve-err env r t x failed) (nothing-IsWritten t)
  | inr (b, done) ↦ rw done (served env r t b done)
]

run-accepted :
    (requests : List (Env × Request)) (t : Tables)
    → IsWritten (accepted requests t) t (run requests t)
unfolding run accepted
run-accepted [] t = nothing-IsWritten t
run-accepted ((env, r) ∷ rest) t =
    IsWritten-append (answered (labels_of env.codec r.endpoint) (serve env r t).0)
      (accepted rest (serve env r t).1) t (serve env r t).1 (run rest (serve env r t).1)
      (serve-IsWritten env r t) (run-accepted rest (serve env r t).1)

-- The server refines the store that it promises: after any sequence of requests, with whatever
-- statements refused, the objects in the tables are what the accepted writes lead to on the
-- abstract store from the empty store. These are, in order, the operations of the requests that
-- were answered without an error, each with the key, the namespace, the base and the content that
-- the request asked for; each needs the current revision of its object as its base and gives the
-- next one. The feed names their objects, in the same order.
pub run-no_rows-Writes :
    (requests : List (Env × Request))
    → Writes empty (accepted requests no_rows) (view (run requests no_rows))
      × (named (run requests no_rows).changes
          ≡ map (λ label. label.key) (accepted requests no_rows))
unfolding lookup
run-no_rows-Writes requests = run-accepted requests no_rows
