-- ===== src/Server/Config/Valid.antt =====
-- config.rs: what a configuration that `load` gives meets.
use helium_sync.Prelude.{
  ◌/◌, ◌≤◌, ◌<◌, ◌≡◌, ◌≢◌, true, String, none, some, ok, arith, eq_iff, subst, inl, inr,
  Option-cases, Result-cases,
}
use helium_sync.Server.Config.{
  ServerConfig, ConfigOverrides, Machine, Metadata, utf8_len, socket_mode, validate, validate_file,
  load, assemble, read_config, read_token, read_listen, mode_text, config_path,
}

module _ {Address : Type 0} (m : Machine Address) where
  -- a file of the machine
  abbrev pub IsFile : String → Type 0
  IsFile path = (found : Metadata) × (m.metadata path ≡ some found) × (found.is_file ≡ true)

  validate_file-IsFile : (path : String) → validate_file m path ≡ ok tt → IsFile path
  unfolding validate_file
  validate_file-IsFile path h = elim (Option-cases (m.metadata path)) [
    | inl missing ↦ absurd (ground arith)
    | inr (found, p) ↦ (found, p, ground arith)
  ]

  pub record Usable (config : ServerConfig Address) : Type 0 where
    pub token_bytes : 32 ≤ utf8_len config.token
    pub token_set : config.token ≢ "replace-me"
    pub mode_positive : 1 ≤ config.unix_socket_mode
    pub mode_bits : config.unix_socket_mode < 512
    pub certificate : IsFile config.tls_certificate
    pub private_key : IsFile config.tls_private_key
    pub material : m.material_is_valid config.tls_certificate config.tls_private_key ≡ true

  validate-Usable : (config : ServerConfig Address) → validate m config ≡ ok tt → Usable config
  unfolding validate
  validate-Usable config h =
      let bits : config.unix_socket_mode / 512 ≡ 0 = ground arith in
      record {
        token_bytes = ground arith;
        token_set = λ e. ground (arith, eq_iff config.token "replace-me");
        mode_positive = ground arith;
        mode_bits = omega arith;
        certificate = validate_file-IsFile config.tls_certificate (ground arith);
        private_key = validate_file-IsFile config.tls_private_key (ground arith);
        material = ground arith;
      }

  -- A configuration that the server loads, on whatever machine and from whatever arguments, has a
  -- token of at least 32 bytes that is not the placeholder, a socket mode from 1 to octal 777, and
  -- a certificate and a private key that are files and that the check of the material accepts.
  pub load-Usable :
      (overrides : ConfigOverrides Address) (config : ServerConfig Address)
      → load m overrides ≡ ok config
      → Usable config
  unfolding load
  load-Usable overrides config h = elim (Result-cases (read_config m (config_path m overrides))) [
    | inl (e, p) ↦ absurd (ground arith)
    | inr (file, p) ↦ elim (Result-cases (read_listen m overrides file)) [
      | inl (e, q) ↦ absurd (ground arith)
      | inr (listen, q) ↦ elim (Result-cases (read_token m overrides.token_file file)) [
        | inl (e, r) ↦ absurd (ground arith)
        | inr (token, r) ↦ elim (Result-cases (socket_mode (mode_text m file))) [
          | inl (e, w) ↦ absurd (ground arith)
          | inr (mode, w) ↦
              let made = assemble m overrides file listen token mode in
              let valid : validate m made ≡ ok tt = ground arith in
              let same : made ≡ config = ground arith in
              subst Usable same (validate-Usable made valid)
        ]
      ]
    ]
  ]

-- the nearest of a path and its parents that exists
pub data Nearest {Address : Type 0} (m : Machine Address) (found : Metadata) : String → Type 0 where
  here : {path : String} → m.metadata path ≡ some found → Nearest m found path
  above :
      {path up : String}
      → m.metadata path ≡ none
      → m.parent path ≡ some up
      → Nearest m found up
      → Nearest m found path
