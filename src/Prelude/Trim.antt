-- ===== src/Prelude/Trim.antt =====
-- Rust's `str::trim` and the byte order of texts (`ORDER BY` of SQLite, and `sort` of `String`).
use Prim.Native.Char.{Char, code}
use Prim.Native.String.{String}
use mathlib.Core.Bool.{Bool, true, false, ◌&&◌, ◌||◌}
use mathlib.Core.Path.{◌≡◌, refl}
use helium_sync.Prelude.Tests.{ltb, leb, ◌==◌, if◌then◌else◌}

-- `char::is_whitespace`: the code points with the property White_Space
unfoldable pub is_whitespace : Char → Bool
is_whitespace ch =
    let c = code ch in
    (leb 9 c && leb c 13)
    || c == 32
    || c == 133
    || c == 160
    || c == 5760
    || (leb 8192 c && leb c 8202)
    || c == 8232
    || c == 8233
    || c == 8239
    || c == 8287
    || c == 12288

unfoldable pub trim_start : String → String
unfolding is_whitespace
trim_start String.[] = ""
trim_start (String.◌∷◌ c s) =
    let rest = trim_start s in if is_whitespace c then rest else String.◌∷◌ c s

-- a blank that only blanks follow goes too
abbrev keep_unless_last : Char → String → String
keep_unless_last c String.[] = if is_whitespace c then "" else String.◌∷◌ c ""
keep_unless_last c (String.◌∷◌ d rest) = String.◌∷◌ c (String.◌∷◌ d rest)

unfoldable pub trim_end : String → String
unfolding is_whitespace
trim_end String.[] = ""
trim_end (String.◌∷◌ c s) = keep_unless_last c (trim_end s)

unfoldable pub trim : String → String
unfolding trim_start trim_end
trim s = trim_end (trim_start s)

-- Code points compare as their UTF-8 bytes do.
unfoldable pub text_leb : String → String → Bool
text_leb String.[] t = true
text_leb (String.◌∷◌ c s) String.[] = false
text_leb (String.◌∷◌ c s) (String.◌∷◌ d t) =
    let rest = text_leb s t in if ltb (code c) (code d) then true else (code c == code d) && rest

trims_both_ends : trim "  a b \t" ≡ "a b"
unfolding trim
trims_both_ends = refl
