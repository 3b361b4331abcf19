-- ===== src/Client/Secrets.antt =====
-- crates/helium-sync-client-core/src/secrets.rs: `SecretStore` as an interface, and the store in
-- memory, whose lock nobody poisons here. The native store is the keyring crate's.
use helium_sync.Prelude.{◌≡◌, refl, arith, String, Option, some, ok}
use helium_sync.Prelude.Table.{Table, lookup, insert, lookup-insert_self}
use helium_sync.Prelude.Step.{Step}
use helium_sync.Client.Errors.{ClientError}

-- stores over a state of the machine
pub record SecretStore (K : Type 0) : Type 0 where
  pub set : String → String → Step ClientError K (Unit {0})
  pub get : String → Step ClientError K (Option String)

-- A secret that has been stored is found, and a look at a secret changes nothing.
pub record Keeps {K : Type 0} (store : SecretStore K) : Type 0 where
  pub stored :
      (key value : String) (k k' : K)
      → store.set key value k ≡ (ok tt, k')
      → store.get key k' ≡ (ok (some value), k')
  pub quiet : (key : String) (k : K) → (store.get key k).1 ≡ k

unfoldable pub memory_set : String → String → Step ClientError (Table String) (Unit {0})
memory_set key value values = (ok tt, insert key value values)

unfoldable pub memory_get : String → Step ClientError (Table String) (Option String)
memory_get key values = (ok (lookup key values), values)

abbrev pub memory_store : SecretStore (Table String)
memory_store = record { set = memory_set; get = memory_get }

memory_stored :
    (key value : String) (k k' : Table String)
    → memory_set key value k ≡ (ok tt, k')
    → memory_get key k' ≡ (ok (some value), k')
unfolding memory_set memory_get
memory_stored key value k k' h = let own = lookup-insert_self key value k in ground arith

memory_quiet : (key : String) (k : Table String) → (memory_get key k).1 ≡ k
unfolding memory_get
memory_quiet key k = refl

pub memory_store-Keeps : Keeps memory_store
memory_store-Keeps = record { stored = memory_stored; quiet = memory_quiet }
