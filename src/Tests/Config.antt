-- ===== src/Tests/Config.antt =====
-- The server's configuration (config.rs) on a small machine.
use helium_sync.Prelude.{
  ℕ, ◌≡◌, refl, true, false, String, Option, none, some, ok, str_eq, if◌then◌else◌,
}
use helium_sync.Prelude.Trim.{trim, trim_start, trim_end, is_whitespace}
use helium_sync.Server.Auth.{strip_prefix}
use helium_sync.Server.Config.{
  ConfigOverrides, ServerConfig, Machine, Metadata, no_file, load, validate, validate_file,
  validate_parent, existing, utf8_len, socket_mode, from_octal, octal_digits, without_zeros,
  env_path,
}
use helium_sync.Server.Config.Valid.{Usable, load-Usable}

abbrev directory : Metadata
directory = record { is_file = false; is_dir = true; readonly = false }

abbrev plain_file : Metadata
plain_file = record { is_file = true; is_dir = false; readonly = true }

abbrev parent : String → Option String
parent path = if str_eq path "/srv/data" then some "/srv" else none

abbrev machine : Machine ℕ
machine = record {
  env = λ name. if str_eq name "HELIUM_SYNC_UNIX_SOCKET_MODE" then some "0o600" else none;
  read_to_string = λ path. some " 0123456789abcdef0123456789abcdef\t";
  metadata = λ path.
      if str_eq path "/srv"
      then some directory
      else (if str_eq path "/cert" then some plain_file else none);
  parse_toml = λ text. some no_file;
  parse_address = λ text. some 7500;
  address_text = λ address. "address";
  join = λ path name. path;
  parent = parent;
  has_extension = λ path. false;
  material_is_valid = λ certificate key. true;
}

abbrev overrides : ConfigOverrides ℕ
overrides = record {
  config = none;
  listen = some 7501;
  unix_socket = some "/srv/data";
  unix_socket_group = none;
  data_dir = some "/srv/data";
  tls_certificate = some "/cert";
  tls_private_key = some "/cert";
  database = none;
  log_level = none;
  token_file = some "/token";
}

abbrev config : ServerConfig ℕ
config = record {
  listen = 7500;
  unix_socket = "/srv/data";
  unix_socket_mode = 384;
  unix_socket_group = none;
  data_dir = "/srv/data";
  tls_certificate = "/cert";
  tls_private_key = "/cert";
  token = "0123456789abcdef0123456789abcdef";
  database = "/srv/data";
  log_level = "info";
}

loaded : load machine overrides ≡ ok config
unfolding load validate validate_file validate_parent existing utf8_len socket_mode from_octal
    octal_digits without_zeros env_path strip_prefix trim trim_start trim_end is_whitespace
loaded = refl

load-Usable_example : Usable machine config
load-Usable_example = load-Usable machine overrides config loaded
