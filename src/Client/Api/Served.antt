-- ===== src/Client/Api/Served.antt =====
-- An API client whose transport reaches the server's router.
use Prim.Native.String.{◌++◌ as text_append}
use helium_sync.Prelude.{ℕ, ◌≡◌, ap, Bool, true, String, Option, none, some, ok, ◌⊎◌, inl, inr}
use helium_sync.Common.Protocol.{negotiate}
use helium_sync.Server.Auth.{
  require_auth, presented_token, parse_u16, parse_digits, require_protocol,
}
use helium_sync.Server.Auth.Digest.{ct_eq_refl}
use helium_sync.Server.Auth.Prefix.{strip_prefix-append}
use helium_sync.Server.Router.{Env, Endpoint, Body, handle, admit, serve, version}
use helium_sync.Server.Tables.{Tables}
use helium_sync.Client.Api.{
  ApiClient, Session, request_of, json_request, negotiate_version, ensure_negotiated,
  parse_response,
}

-- the client's configuration: the token, and the parameters of `ApiClient`
pub record Config : Type 0 where
  pub token : String
  pub is_header : String → Bool
  pub decimal : ℕ → String

abbrev pub served : Env → Config → ApiClient Tables
served env config = record {
  token = config.token;
  is_header = config.is_header;
  decimal = config.decimal;
  execute = λ r t. (ok (serve env r t).0, (serve env r t).1);
}

-- The client has the token of the server, which can stand in a header.
pub record Matches (env : Env) (config : Config) : Type 0 where
  pub digest : env.sha256 config.token ≡ env.token_digest
  pub header : config.is_header (text_append "Bearer " config.token) ≡ true
  pub one : config.decimal 1 ≡ "1"

abbrev pub talking : Tables → Session Tables
talking t = record { protocol = some 1; world = t }

module _ (env : Env) (config : Config) (m : Matches env config) where
  authorized :
      require_auth env.sha256 env.token_digest (some (text_append "Bearer " config.token)) ≡ ok tt
  unfolding require_auth presented_token
  authorized = rw (strip_prefix-append, m.digest, ct_eq_refl)

  admit-ok :
      (e : Endpoint) (t : Tables)
      → admit env (request_of (served env config) (talking t) e true) ≡ ok tt
  unfolding admit require_protocol parse_u16 parse_digits
  admit-ok Endpoint.get_version t = rw authorized
  admit-ok _ t = rw (authorized, m.one)

  -- A request of a client that has negotiated reaches its handler.
  pub json_request-handle :
      {R : Type 0} (decode : Body → Option R) (e : Endpoint) (t : Tables)
      → json_request (served env config) decode e true (talking t)
        ≡ (parse_response decode (handle env e t).0, talking (handle env e t).1)
  unfolding json_request serve
  json_request-handle decode e t = rw (m.header, admit-ok e t, serve)

  -- Negotiation with this server agrees on version 1, and leaves the tables as they are.
  pub ensure_negotiated-served :
      (protocol : Option ℕ) (t : Tables)
      → (protocol ≡ none) ⊎ (protocol ≡ some 1)
      → ensure_negotiated (served env config) (record { protocol = protocol; world = t })
        ≡ (ok 1, talking t)
  unfolding ensure_negotiated negotiate_version json_request serve admit handle version negotiate
      parse_response
  ensure_negotiated-served protocol t (inl fresh) =
      rw (fresh, m.header, authorized, negotiate_version, json_request, serve, admit)
  ensure_negotiated-served protocol t (inr before) =
      rw before (ap (λ (o : Option ℕ). (ok 1, record { protocol = o; world = t })) before)
