-- ===== src/Server/Objects/Atomic.antt =====
-- Transactions (api.rs: `put_object`, `delete_object`, `batch`) that commit or are dropped.
use helium_sync.Prelude.{ℕ, ◌≡◌, ◌⊎◌, inl, inr, Bool, ok, err, arith, Bool-cases, Result-cases}
use helium_sync.Common.Types.{BatchRequest}
use helium_sync.Common.Codec.{Codec}
use helium_sync.Server.Errors.{ApiError, database_error}
use helium_sync.Server.Tables.{Tables, Statement, Tx}
use helium_sync.Server.Objects.{transact, batch_body, batch}

module _ {A : Type 0} (fails : Statement → Bool) (body : Tx A) (t : Tables) where
  -- Either the body succeeds and its tables are committed, or nothing has happened.
  pub transact_cases :
      ((e : ApiError) × (transact fails body t ≡ (err e, t)))
      ⊎ ((r : A × Tables) × (body t ≡ ok r) × (transact fails body t ≡ (ok r.0, r.1)))
  unfolding transact
  transact_cases = elim (Bool-cases (fails Statement.begin)) [
    | inl down ↦ inl (database_error, ground arith)
    | inr up ↦ elim (Result-cases (body t)) [
      | inl (e, p) ↦ inl (e, ground arith)
      | inr (r, p) ↦ elim (Bool-cases (fails Statement.commit)) [
        | inl lost ↦ inl (database_error, ground arith)
        | inr kept ↦ inr (r, p, ground arith)
      ]
    ]
  ]

  pub transact-err :
      (e : ApiError) → (transact fails body t).0 ≡ err e → (transact fails body t).1 ≡ t
  unfolding transact
  transact-err e h = ground arith

  -- To show `P` of the tables that a transaction leaves.
  pub transact-rule {ℓ} :
      (P : Tables → Type ℓ)
      → P t
      → ((r : A × Tables) → body t ≡ ok r → P r.1)
      → P (transact fails body t).1
  transact-rule P old new = elim transact_cases [
    | inl (e, q) ↦ rw q old
    | inr (r, p, q) ↦ rw q (new r p)
  ]

module _ (c : Codec) (fails : Statement → Bool) (outage : ℕ → Statement → Bool)
    (request : BatchRequest) (t : Tables) where
  pub batch-err :
      (e : ApiError)
      → (batch c fails outage request t).0 ≡ err e
      → (batch c fails outage request t).1 ≡ t
  unfolding batch
  batch-err e h = ground (arith, transact-err fails (batch_body c outage request.operations) t e)
