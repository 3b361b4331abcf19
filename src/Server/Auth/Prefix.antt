-- ===== src/Server/Auth/Prefix.antt =====
-- `str::strip_prefix` and appending (auth.rs, crypto.rs).
use Prim.Native.String.{◌++◌ as text_append}
use text.Mathlib.TextLemmas.{nil-append, cons-append}
use text.Mathlib.TextEquality.{Char-path}
use helium_sync.Prelude.{◌≡◌, ap, ◌∙◌, String, some, arith}
use helium_sync.Server.Auth.{strip_prefix}

pub strip_prefix-append : (q s : String) → strip_prefix q (text_append q s) ≡ some s
unfolding strip_prefix
strip_prefix-append String.[] s = ap some (nil-append s)
strip_prefix-append (String.◌∷◌ c q) s = ground (arith, cons-append c q s, strip_prefix-append q s)

pub strip_prefix-some : (q t s : String) → strip_prefix q t ≡ some s → text_append q s ≡ t
unfolding strip_prefix
strip_prefix-some String.[] t s h = ground (arith, nil-append s)
strip_prefix-some (String.◌∷◌ c q) String.[] s h = absurd (ground arith)
strip_prefix-some (String.◌∷◌ c q) (String.◌∷◌ d t) s h =
    let same : c ≡ d = Char-path c d (ground arith) in
    let rest : text_append q s ≡ t = strip_prefix-some q t s (ground arith) in
    cons-append c q s ∙ cc
