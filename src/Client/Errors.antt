-- ===== src/Client/Errors.antt =====
-- crates/helium-sync-client-core/src/lib.rs: `ClientError`.
use helium_sync.Prelude.{ℕ, String}

pub data ClientError : Type 0 where
  configuration connect tls : String → ClientError
  timeout : ClientError
  ssh_host_key_unknown ssh_host_key_changed : String → ClientError
  ssh_authentication : ClientError
  ssh remote_socket : String → ClientError
  api_authentication : ClientError
  protocol_incompatible : ℕ → ℕ → ℕ → ℕ → ClientError
  api : ℕ → String → String → ClientError
  crypto secret_store state : String → ClientError
  profile : String → ClientError
  serialization : String → ClientError
