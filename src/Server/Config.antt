-- ===== src/Server/Config.antt =====
-- crates/helium-sync-server/src/config.rs: `ServerConfig::load` and `validate`. The machine is a
-- record: the environment, its files, and what the crates make of a text (`toml`, `SocketAddr`, and
-- the certificates in tls.rs). A path is a text, and the environment holds Unicode.
pub mod Valid
use Prim.Native.Char.{code}
use Prim.Native.String.{len}
use mathlib.Core.Option
use helium_sync.Prelude.{
  ℕ, zero, suc, ◌+◌, ◌-◌, ◌*◌, ◌/◌, ◌^◌, Bool, true, false, not, ◌&&◌, ◌||◌, ltb, leb, ◌==◌, str_eq,
  if◌then◌else◌, String, Option, none, some, Result, ok, err, ◌>>=◌, ◌>>◌, guard, ok_or,
}
use helium_sync.Prelude.Trim.{trim}
use helium_sync.Server.Auth.{strip_prefix}

-- the message of an error is left out
pub data ConfigError : Type 0 where
  read parse : String → ConfigError
  invalid : ConfigError

pub record ConfigOverrides (Address : Type 0) : Type 0 where
  pub config : Option String
  pub listen : Option Address
  pub unix_socket : Option String
  pub unix_socket_group : Option String
  pub data_dir : Option String
  pub tls_certificate : Option String
  pub tls_private_key : Option String
  pub database : Option String
  pub log_level : Option String
  pub token_file : Option String

pub record ServerConfig (Address : Type 0) : Type 0 where
  pub listen : Address
  pub unix_socket : String
  pub unix_socket_mode : ℕ
  pub unix_socket_group : Option String
  pub data_dir : String
  pub tls_certificate : String
  pub tls_private_key : String
  pub token : String
  pub database : String
  pub log_level : String

-- `FileConfig` with its tables, each of which may be missing like its keys
pub record FileConfig : Type 0 where
  pub listen : Option String
  pub unix_socket : Option String
  pub unix_socket_mode : Option String
  pub unix_socket_group : Option String
  pub data_dir : Option String
  pub certificate : Option String
  pub private_key : Option String
  pub token : Option String
  pub database : Option String
  pub level : Option String

abbrev pub no_file : FileConfig
no_file = record {
  listen = none;
  unix_socket = none;
  unix_socket_mode = none;
  unix_socket_group = none;
  data_dir = none;
  certificate = none;
  private_key = none;
  token = none;
  database = none;
  level = none;
}

-- what `fs::metadata` says of a path
pub record Metadata : Type 0 where
  pub is_file : Bool
  pub is_dir : Bool
  pub readonly : Bool

pub record Machine (Address : Type 0) : Type 0 where
  -- `env::var(name).ok()`
  pub env : String → Option String
  pub read_to_string : String → Option String
  pub metadata : String → Option Metadata
  pub parse_toml : String → Option FileConfig
  pub parse_address : String → Option Address
  pub address_text : Address → String
  -- `Path::join`, `Path::parent`, `Path::extension().is_some()`
  pub join : String → String → String
  pub parent : String → Option String
  pub has_extension : String → Bool
  -- `tls::validate_material`
  pub material_is_valid : String → String → Bool

infixr 6 ◌or◌
abbrev ◌or◌ : {A : Type 0} → Option A → Option A → Option A
none or b = b
some a or b = some a

abbrev unwrap_or : {A : Type 0} → Option A → A → A
unwrap_or none a = a
unwrap_or (some b) a = b

-- `str::len`, in UTF-8
unfoldable pub utf8_len : String → ℕ
utf8_len String.[] = 0
utf8_len (String.◌∷◌ ch rest) =
    let c = code ch in
    (if ltb c 128 then 1 else if ltb c 2048 then 2 else if ltb c 65536 then 3 else 4)
    + utf8_len rest

-- the digits of `u32::from_str_radix(_, 8)`
unfoldable pub octal_digits : ℕ → String → Option ℕ
octal_digits n String.[] = some n
octal_digits n (String.◌∷◌ ch rest) =
    let c = code ch in
    let more = octal_digits (n * 8 + (c - 48)) rest in
    if leb 48 c && leb c 55 && ltb (n * 8 + (c - 48)) (2 ^ 32) then more else none

abbrev at_least_one : String → Option ℕ
at_least_one String.[] = none
at_least_one (String.◌∷◌ c s) = octal_digits 0 (String.◌∷◌ c s)

-- a plus sign may stand in front
unfoldable pub from_octal : String → Option ℕ
unfolding octal_digits
from_octal String.[] = none
from_octal (String.◌∷◌ c s) = if code c == 43 then at_least_one s else at_least_one (String.◌∷◌ c s)

-- `trim_start_matches('0')`
unfoldable pub without_zeros : String → String
without_zeros String.[] = ""
without_zeros (String.◌∷◌ c s) =
    let rest = without_zeros s in if code c == 48 then rest else String.◌∷◌ c s

abbrev or_zero : String → String
or_zero digits = if str_eq digits "" then "0" else digits

unfoldable pub socket_mode : String → Result ConfigError ℕ
unfolding strip_prefix without_zeros from_octal
socket_mode text =
    ok_or (from_octal (or_zero (unwrap_or (strip_prefix "0o" text) (without_zeros text))))
      ConfigError.invalid

module _ {Address : Type 0} (m : Machine Address) where
  abbrev not_empty : Option String → Option String
  not_empty none = none
  not_empty (some value) = if str_eq value "" then none else some value

  -- an empty variable names no path
  unfoldable pub env_path : String → Option String
  env_path name = not_empty (m.env name)

  abbrev is_regular : Metadata → Result ConfigError (Unit {0})
  is_regular found = guard found.is_file ConfigError.invalid

  unfoldable pub validate_file : String → Result ConfigError (Unit {0})
  validate_file path = do
    guard (not (str_eq path "")) ConfigError.invalid
    found ← ok_or (m.metadata path) ConfigError.invalid
    is_regular found

  abbrev pub writable : Metadata → Result ConfigError (Unit {0})
  writable found = guard (found.is_dir && not found.readonly) ConfigError.invalid

  -- The loop to the first parent that exists, on fuel.
  unfoldable pub existing : ℕ → String → Result ConfigError (Unit {0})
  existing zero path = err ConfigError.invalid
  existing (suc fuel) path = elim (m.metadata path) [
    | some found ↦ writable found
    | none ↦ elim (m.parent path) [ none ↦ err ConfigError.invalid | some up ↦ existing fuel up ]
  ]

  -- a path with an extension is taken for a file
  abbrev pub first_candidate : String → String
  first_candidate path = if m.has_extension path then unwrap_or (m.parent path) "." else path

  -- a parent is shorter than its path, so there is fuel for each character
  unfoldable pub validate_parent : String → Result ConfigError (Unit {0})
  unfolding existing
  validate_parent path = existing (len (first_candidate path) + 1) (first_candidate path)

  -- `mode & !0o777 != 0` is that a bit above the nine of the permissions is set
  unfoldable pub validate : ServerConfig Address → Result ConfigError (Unit {0})
  unfolding utf8_len
  validate config = do
    guard (not (ltb (utf8_len config.token) 32 || str_eq config.token "replace-me"))
        ConfigError.invalid
    guard (not (not (config.unix_socket_mode / 512 == 0) || config.unix_socket_mode == 0))
        ConfigError.invalid
    validate_file config.tls_certificate
    validate_file config.tls_private_key
    validate_parent config.data_dir
    validate_parent config.database
    validate_parent config.unix_socket
    guard (m.material_is_valid config.tls_certificate config.tls_private_key) ConfigError.invalid

  abbrev pub read_config : Option String → Result ConfigError FileConfig
  read_config none = ok no_file
  read_config (some path) = do
    value ← ok_or (m.read_to_string path) (ConfigError.read path)
    ok_or (m.parse_toml value) (ConfigError.parse path)

  abbrev pub read_token : Option String → FileConfig → Result ConfigError String
  read_token none file = ok (unwrap_or (m.env "HELIUM_SYNC_TOKEN" or file.token) "")
  read_token (some path) file = do
    value ← ok_or (m.read_to_string path) (ConfigError.read path)
    ok (trim value)

  abbrev pub listen_text : ConfigOverrides Address → FileConfig → String
  listen_text overrides file =
      unwrap_or
        (Option.map m.address_text overrides.listen or m.env "HELIUM_SYNC_LISTEN" or file.listen)
        "0.0.0.0:7500"

  abbrev pub read_listen : ConfigOverrides Address → FileConfig → Result ConfigError Address
  read_listen overrides file =
      ok_or (m.parse_address (listen_text overrides file)) ConfigError.invalid

  abbrev pub config_path : ConfigOverrides Address → Option String
  config_path overrides = overrides.config or env_path "HELIUM_SYNC_CONFIG"

  abbrev pub mode_text : FileConfig → String
  mode_text file = unwrap_or (m.env "HELIUM_SYNC_UNIX_SOCKET_MODE" or file.unix_socket_mode) "0660"

  abbrev data_dir_of : ConfigOverrides Address → FileConfig → String
  data_dir_of overrides file =
      unwrap_or (overrides.data_dir or env_path "HELIUM_SYNC_DATA_DIR" or file.data_dir)
        "/var/lib/helium-sync"

  abbrev pub assemble :
      ConfigOverrides Address → FileConfig → Address → String → ℕ → ServerConfig Address
  assemble overrides file listen token mode = record {
    listen = listen;
    unix_socket =
        unwrap_or (overrides.unix_socket or env_path "HELIUM_SYNC_UNIX_SOCKET" or file.unix_socket)
          "/run/helium-sync/server.sock";
    unix_socket_mode = mode;
    unix_socket_group =
        overrides.unix_socket_group
        or m.env "HELIUM_SYNC_UNIX_SOCKET_GROUP"
        or file.unix_socket_group;
    data_dir = data_dir_of overrides file;
    tls_certificate =
        unwrap_or
          (overrides.tls_certificate or env_path "HELIUM_SYNC_TLS_CERTIFICATE" or file.certificate)
          "";
    tls_private_key =
        unwrap_or
          (overrides.tls_private_key or env_path "HELIUM_SYNC_TLS_PRIVATE_KEY" or file.private_key)
          "";
    token = token;
    database =
        unwrap_or (overrides.database or env_path "HELIUM_SYNC_DATABASE" or file.database)
          (m.join (data_dir_of overrides file) "server.sqlite3");
    log_level =
        unwrap_or (overrides.log_level or m.env "HELIUM_SYNC_LOG_LEVEL" or file.level) "info";
  }

  unfoldable pub load : ConfigOverrides Address → Result ConfigError (ServerConfig Address)
  load overrides = do
    file ← read_config (config_path overrides)
    listen ← read_listen overrides file
    token ← read_token overrides.token_file file
    mode ← socket_mode (mode_text file)
    config ← ok (assemble overrides file listen token mode)
    validate config
    ok config
