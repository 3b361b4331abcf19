-- ===== src/Tests/Login.antt =====
-- A sign-in (main.rs) with the store in memory.
use helium_sync.Prelude.{◌≡◌, refl, String, [], ◌∷◌, ok, replicate}
use helium_sync.Prelude.Table.{Table, lookup, insert}
use helium_sync.Client.Errors.{ClientError}
use helium_sync.Client.Crypto.{recovery_code}
use helium_sync.Client.Secrets.{memory_set, memory_get, memory_store, memory_store-Keeps}
use helium_sync.Desktop.Login.{load_or_create_master_key, master_key_name}
use helium_sync.Desktop.Login.Keys.{load_or_create_master_key-again}
use helium_sync.Tests.Crypto.{sample_primitives, sample-Digests, sample_key}

abbrev told : ClientError → String
told e = "failed"

abbrev kept : Table String
kept = (master_key_name, recovery_code sample_primitives sample_key) ∷ []

-- the first sign-in draws the key
first_key :
    load_or_create_master_key memory_store sample_primitives told sample_key []
    ≡ (ok (sample_key, recovery_code sample_primitives sample_key), kept)
unfolding load_or_create_master_key memory_set memory_get lookup insert
first_key = refl

load_or_create_master_key-again_example :
    load_or_create_master_key memory_store sample_primitives told (replicate 32 9) kept
    ≡ (ok (sample_key, recovery_code sample_primitives sample_key), kept)
load_or_create_master_key-again_example =
    load_or_create_master_key-again memory_store memory_store-Keeps sample_primitives sample-Digests
      told sample_key (replicate 32 9) refl [] kept sample_key
      (recovery_code sample_primitives sample_key) first_key
