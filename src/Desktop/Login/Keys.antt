-- ===== src/Desktop/Login/Keys.antt =====
-- main.rs: the master key stays the same from sign-in to sign-in.
use helium_sync.Prelude.{
  ℕ, ◌≡◌, arith, inl, inr, String, none, some, List, Result-cases, ok, length,
}
use helium_sync.Client.Errors.{ClientError}
use helium_sync.Client.Crypto.{Primitives, recovery_code, from_recovery_code}
use helium_sync.Client.Crypto.Recovery.{Digests, from_recovery_code-recovery_code}
use helium_sync.Client.Secrets.{SecretStore, Keeps}
use helium_sync.Desktop.Login.{load_or_create_master_key, master_key_name}

module _ {K : Type 0} (store : SecretStore K) (keeps : Keeps store) (p : Primitives)
    (laws : Digests p) (text : ClientError → String) (generated other : List ℕ)
    (size : length generated ≡ 32) where
  -- Once a sign-in that draws a key of 32 bytes where it needs one has a master key, the next one
  -- has the same key and the same recovery code, whatever key it would draw, and the store stays
  -- as it is, under the laws of the store, of the digest and of base64url.
  pub load_or_create_master_key-again :
      (k k' : K) (key : List ℕ) (code : String)
      → load_or_create_master_key store p text generated k ≡ (ok (key, code), k')
      → load_or_create_master_key store p text other k' ≡ (ok (key, code), k')
  unfolding load_or_create_master_key
  load_or_create_master_key-again k k' key code h =
      let quiet = keeps.quiet master_key_name k in
      elim (Result-cases (store.get master_key_name k).0) [
        | inl (e, failed) ↦ absurd (ground arith)
        | inr (none, empty) ↦
            elim (Result-cases (store.set master_key_name (recovery_code p generated) k).0) [
              | inl (e, failed) ↦ absurd (ground arith)
              | inr (u, saved) ↦
                  let found =
                    keeps.stored master_key_name (recovery_code p generated) k k' (ground arith) in
                  let back = from_recovery_code-recovery_code p laws generated size in
                  rw (found, back) (ground arith)
            ]
        | inr (some stored, there) ↦ elim (Result-cases (from_recovery_code p stored)) [
          | inl (e, bad) ↦ absurd (ground arith)
          | inr (good, read) ↦ let same : k' ≡ k = ground arith in rw (same) (ground arith)
        ]
      ]
