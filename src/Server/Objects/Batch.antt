-- ===== src/Server/Objects/Batch.antt =====
-- api.rs: `batch` against the same operations sent as single requests.
use helium_sync.Prelude.{
  ℕ, suc, ◌≡◌, refl, ap, ◌∙◌, Bool, false, ◌||◌, ltb, ◌==◌, List, [], ◌∷◌, Result, ok, err, arith,
  length, inl, inr, Result-cases,
}
use helium_sync.Common.Types.{SyncObject, BatchOperation, BatchRequest, BatchResponse}
use helium_sync.Common.Codec.{Codec}
use helium_sync.Server.Errors.{ApiError}
use helium_sync.Server.Tables.{Tables, Statement, Tx, pure, ◌>>=◌}
use helium_sync.Server.Objects.{
  Reply, transact, put_object_tx, delete_object_tx, put_object, delete_object, apply_operation,
  apply_operations, batch, max_batch_operations,
}

-- `begin` and `commit` are executed
pub record Opens (fails : Statement → Bool) : Type 0 where
  pub begins : fails Statement.begin ≡ false
  pub commits : fails Statement.commit ≡ false

-- one operation as a request of its own
abbrev pub single : Codec → (Statement → Bool) → BatchOperation → Tables → Reply SyncObject
single c fails (BatchOperation.put id request) = put_object c fails id request
single c fails (BatchOperation.delete id request) = delete_object c fails id request

abbrev prepend : SyncObject → Reply (List SyncObject) → Reply (List SyncObject)
prepend object (ok objects, u) = (ok (object ∷ objects), u)
prepend object (err e, u) = (err e, u)

abbrev follow : (Tables → Reply (List SyncObject)) → Reply SyncObject → Reply (List SyncObject)
follow rest (ok object, u) = prepend object (rest u)
follow rest (err e, u) = (err e, u)

abbrev later : (ℕ → Statement → Bool) → ℕ → Statement → Bool
later outage n = outage (suc n)

-- the operations as single requests, one after the other, up to the first that fails
unfoldable pub one_by_one :
    Codec → (ℕ → Statement → Bool) → List BatchOperation → Tables → Reply (List SyncObject)
one_by_one c outage [] t = (ok [], t)
one_by_one c outage (x ∷ xs) t = follow (one_by_one c (later outage) xs) (single c (outage 0) x t)

-- the reply of a transaction over `t` whose body answers so
abbrev pub all_or_nothing : Tables → Reply (List SyncObject) → Reply BatchResponse
all_or_nothing t (ok objects, u) = (ok (record { objects = objects }), u)
all_or_nothing t (err e, u) = (err e, t)

abbrev as_body : {A : Type 0} → Reply A → Result ApiError (A × Tables)
as_body (ok a, u) = ok (a, u)
as_body (err e, u) = err e

module _ {A : Type 0} (fails : Statement → Bool) (up : Opens fails) (body : Tx A) where
  transact-as_body : (t : Tables) → as_body (transact fails body t) ≡ body t
  unfolding transact
  transact-as_body t =
      let begins = up.begins in
      let commits = up.commits in
      elim (Result-cases (body t)) [ inl (e, p) ↦ ground arith | inr (r, p) ↦ ground arith ]

single-as_body :
    (c : Codec) (fails : Statement → Bool) (up : Opens fails) (x : BatchOperation) (t : Tables)
    → as_body (single c fails x t) ≡ apply_operation c fails x t
unfolding apply_operation put_object delete_object
single-as_body c fails up (BatchOperation.put id request) t =
    transact-as_body fails up (put_object_tx c fails id request) t
single-as_body c fails up (BatchOperation.delete id request) t =
    transact-as_body fails up (delete_object_tx c fails id request) t

abbrev prepend_body : SyncObject → Tx (List SyncObject) → Tx (List SyncObject)
prepend_body object others = others >>= λ objects. pure (object ∷ objects)

abbrev follow_body :
    Tx (List SyncObject)
    → Result ApiError (SyncObject × Tables)
    → Result ApiError (List SyncObject × Tables)
follow_body others (ok r) = prepend_body r.0 others r.1
follow_body others (err e) = err e

prepend-as_body :
    (object : SyncObject) (others : Tx (List SyncObject)) (u : Tables) (r : Reply (List SyncObject))
    → as_body r ≡ others u
    → as_body (prepend object r) ≡ prepend_body object others u
prepend-as_body object others u (ok objects, w) h = ground arith
prepend-as_body object others u (err e, w) h = ground arith

follow-as_body :
    (rest : Tables → Reply (List SyncObject)) (others : Tx (List SyncObject))
    → ((u : Tables) → as_body (rest u) ≡ others u)
    → (r : Reply SyncObject) → as_body (follow rest r) ≡ follow_body others (as_body r)
follow-as_body rest others ih (ok object, u) = prepend-as_body object others u (rest u) (ih u)
follow-as_body rest others ih (err e, u) = refl

one_by_one-as_body :
    (c : Codec) (outage : ℕ → Statement → Bool) (up : (n : ℕ) → Opens (outage n))
    (xs : List BatchOperation) (t : Tables)
    → as_body (one_by_one c outage xs t) ≡ apply_operations c outage xs t
unfolding one_by_one apply_operations
one_by_one-as_body c outage up [] t = refl
one_by_one-as_body c outage up (x ∷ xs) t =
    follow-as_body (one_by_one c (later outage) xs) (apply_operations c (later outage) xs)
      (one_by_one-as_body c (later outage) (λ n. up (suc n)) xs) (single c (outage 0) x t)
    ∙ ap (follow_body (apply_operations c (later outage) xs))
        (single-as_body c (outage 0) (up 0) x t)

abbrev respond : List SyncObject → Tx BatchResponse
respond objects = pure (record { objects = objects })

transact-all_or_nothing :
    (fails : Statement → Bool) (up : Opens fails) (body : Tx (List SyncObject)) (t : Tables)
    (r : Reply (List SyncObject))
    → as_body r ≡ body t
    → transact fails (body >>= respond) t ≡ all_or_nothing t r
unfolding transact
transact-all_or_nothing fails up body t (ok objects, u) h =
    let begins = up.begins in let commits = up.commits in ground arith
transact-all_or_nothing fails up body t (err e, u) h =
    let begins = up.begins in let commits = up.commits in ground arith

-- A batch of an admitted size answers and leaves what its operations do as single requests, one
-- after the other up to the first that fails, with the tables of before if one fails, where
-- transactions begin and commit.
pub batch-one_by_one :
    (c : Codec) (fails : Statement → Bool) (up : Opens fails) (outage : ℕ → Statement → Bool)
    (ups : (n : ℕ) → Opens (outage n)) (request : BatchRequest) (t : Tables)
    → (length request.operations == 0 || ltb max_batch_operations (length request.operations))
      ≡ false
    → batch c fails outage request t ≡ all_or_nothing t (one_by_one c outage request.operations t)
unfolding batch
batch-one_by_one c fails up outage ups request t size = rw size (
    transact-all_or_nothing fails up (apply_operations c outage request.operations) t _
      (one_by_one-as_body c outage ups request.operations t))
