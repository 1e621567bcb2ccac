-- ===== src/Common/Text.antt =====
-- The methods of Rust's `str` and `char` that the program calls, over the native texts.
use Prim.Native.Nat.{ℕ, zero, suc}
use Prim.Native.Char.{Char, code}
use Prim.Native.String.{String, [], ◌∷◌}
use mathlib.Core.Bool.{Bool, true, false, ◌&&◌, ◌||◌}
use mathlib.Core.Option.{Option, none, some}
use threadmark.Common.Tests.{leb, eqb, if◌then◌else◌}

-- `char::is_whitespace`: the Unicode property White_Space
unfoldable pub is_whitespace : Char → Bool
is_whitespace c =
    let n = code c in
    leb 0x9 n && leb n 0xd
    || eqb n 0x20
    || eqb n 0x85
    || eqb n 0xa0
    || eqb n 0x1680
    || leb 0x2000 n && leb n 0x200a
    || eqb n 0x2028
    || eqb n 0x2029
    || eqb n 0x202f
    || eqb n 0x205f
    || eqb n 0x3000

-- `char::is_control`: the Unicode category Cc
unfoldable pub is_control : Char → Bool
is_control c = let n = code c in leb n 0x1f || leb 0x7f n && leb n 0x9f

unfoldable pub is_ascii_alphanumeric : Char → Bool
is_ascii_alphanumeric c =
    let n = code c in
    leb b'0' n && leb n b'9' || leb b'A' n && leb n b'Z' || leb b'a' n && leb n b'z'

abbrev pub is_char : ℕ → Char → Bool
is_char n c = eqb (code c) n

abbrev pub is_empty : String → Bool
is_empty [] = true
is_empty (c ∷ s) = false

unfoldable pub trim_start : String → String
unfolding is_whitespace
trim_start [] = []
trim_start (c ∷ s) = let rest = trim_start s in if is_whitespace c then rest else c ∷ s

unfoldable pub trim_end : String → String
unfolding is_whitespace
trim_end [] = []
trim_end (c ∷ s) =
    let rest = trim_end s in if is_empty rest && is_whitespace c then [] else c ∷ rest

unfoldable pub trim : String → String
unfolding trim_start trim_end
trim s = trim_end (trim_start s)

unfoldable pub all_chars : (Char → Bool) → String → Bool
all_chars p [] = true
all_chars p (c ∷ s) = p c && all_chars p s

unfoldable pub any_chars : (Char → Bool) → String → Bool
any_chars p [] = false
any_chars p (c ∷ s) = p c || any_chars p s

-- `s.chars().filter(p).collect()`
unfoldable pub filter_chars : (Char → Bool) → String → String
filter_chars p [] = []
filter_chars p (c ∷ s) = let rest = filter_chars p s in if p c then c ∷ rest else rest

-- `s.chars().take(n).collect()`
unfoldable pub take_chars : ℕ → String → String
take_chars zero s = []
take_chars (suc n) [] = []
take_chars (suc n) (c ∷ s) = c ∷ take_chars n s

-- `s.strip_prefix(p)`
unfoldable pub strip_prefix : String → String → Option String
strip_prefix s [] = some s
strip_prefix [] (d ∷ p) = none
strip_prefix (c ∷ s) (d ∷ p) =
    let rest = strip_prefix s p in if eqb (code c) (code d) then rest else none
