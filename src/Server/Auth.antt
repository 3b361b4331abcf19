-- ===== src/Server/Auth.antt =====
-- auth.rs, and `require_protocol` of api.rs: what a request must carry to reach a handler.
-- SHA-256 is a parameter. A header is the text that `to_str` gives of it, if there is any.
pub mod Digest
pub mod Prefix
use Prim.Native.Char.{code}
use helium_sync.Prelude.{
  ℕ, ◌+◌, ◌-◌, ◌*◌, ◌^◌, Bool, true, false, ◌&&◌, ltb, leb, ◌==◌, if◌then◌else◌, String, Option,
  none, some, List, [], ◌∷◌, Result, ◌>>=◌, guard, ok_or,
}
use helium_sync.Common.Protocol.{protocol_max}
use helium_sync.Server.Errors.{ApiError, api_error}

-- `ct_eq` of two digests
unfoldable pub ct_eq : List ℕ → List ℕ → Bool
ct_eq [] [] = true
ct_eq [] (y ∷ ys) = false
ct_eq (x ∷ xs) [] = false
ct_eq (x ∷ xs) (y ∷ ys) = (x == y) && ct_eq xs ys

-- `str::strip_prefix`
unfoldable pub strip_prefix : String → String → Option String
strip_prefix String.[] s = some s
strip_prefix (String.◌∷◌ c p) String.[] = none
strip_prefix (String.◌∷◌ c p) (String.◌∷◌ d s) =
    let rest = strip_prefix p s in if code c == code d then rest else none

-- `token_digest`
abbrev pub token_digest : (String → List ℕ) → String → List ℕ
token_digest sha256 token = sha256 token

unfoldable pub presented_token : Option String → Option String
presented_token none = none
presented_token (some header) = strip_prefix "Bearer " header

unfoldable pub require_auth :
    (String → List ℕ) → List ℕ → Option String → Result ApiError (Unit {0})
require_auth sha256 expected authorization = do
  presented ← ok_or (presented_token authorization) (api_error 401 "authentication_required")
  guard (ct_eq (sha256 presented) expected) (api_error 401 "authentication_rejected")

-- the digits of `str::parse::<u16>`
unfoldable pub parse_digits : ℕ → String → Option ℕ
parse_digits n String.[] = some n
parse_digits n (String.◌∷◌ ch rest) =
    let c = code ch in
    let more = parse_digits (n * 10 + (c - 48)) rest in
    if leb 48 c && leb c 57 && ltb (n * 10 + (c - 48)) (2 ^ 16) then more else none

abbrev at_least_one_digit : String → Option ℕ
at_least_one_digit String.[] = none
at_least_one_digit (String.◌∷◌ c s) = parse_digits 0 (String.◌∷◌ c s)

-- `str::parse::<u16>`; a plus sign may stand in front
unfoldable pub parse_u16 : String → Option ℕ
unfolding parse_digits
parse_u16 String.[] = none
parse_u16 (String.◌∷◌ c s) =
    if code c == 43 then at_least_one_digit s else at_least_one_digit (String.◌∷◌ c s)

abbrev pub requested_version : Option String → Option ℕ
requested_version none = none
requested_version (some header) = parse_u16 header

abbrev is_protocol_max : Option ℕ → Bool
is_protocol_max none = false
is_protocol_max (some v) = v == protocol_max

unfoldable pub require_protocol : Option String → Result ApiError (Unit {0})
require_protocol header =
    guard (is_protocol_max (requested_version header)) (api_error 426 "protocol_incompatible")
