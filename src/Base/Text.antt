-- ===== src/Base/Text.antt =====
-- Texts as lists of bytes, and the parts of Go's strings and strconv that the program calls.
-- Texts are ASCII: Go also trims and lowers other Unicode characters.
use Prim.Native.Nat.{ℕ, ◌+◌, ◌-◌, ◌*◌, ◌≤◌, ◌<◌}
use Prim.Native.Char.{code}
use Prim.Native.String.{String}
use mathlib.Core.Path.{◌≡◌}
use mathlib.Core.Bool.{Bool, true, false, ◌&&◌, ◌||◌}
use mathlib.Core.List.{List, [], ◌∷◌, map}
use mathlib.Core.Option.{Option, none, some}
use native.Mathlib.Omega.{arith}
use neth.Base.Tests.{leb, ◌==◌, if◌then◌else◌}

abbrev pub Text : Type 0
Text = List ℕ

-- The bytes of a literal.
abbrev pub text : String → Text
text String.[] = []
text (String.◌∷◌ c s) = code c ∷ text s

-- strings.ToLower, one byte.
abbrev pub lower : ℕ → ℕ
lower c = if leb b'A' c && leb c b'Z' then c + 32 else c

unfoldable pub to_lower : Text → Text
to_lower s = map lower s

-- The spaces that strings.TrimSpace drops: tab, newline, vertical tab, form feed, return, blank.
abbrev pub is_space : ℕ → Bool
is_space c = (leb 9 c && leb c 13) || c == 32

unfoldable pub trim_left : Text → Text
trim_left [] = []
trim_left (c ∷ s) = let rest = trim_left s in if is_space c then rest else c ∷ s

abbrev pub is_empty : Text → Bool
is_empty [] = true
is_empty (c ∷ s) = false

unfoldable pub trim_right : Text → Text
trim_right [] = []
trim_right (c ∷ s) = let rest = trim_right s in if is_space c && is_empty rest then [] else c ∷ rest

unfoldable pub trim_space : Text → Text
unfolding trim_left trim_right
trim_space s = trim_left (trim_right s)

abbrev pub is_digit : ℕ → Bool
is_digit c = leb b'0' c && leb c b'9'

-- The digits of a number up to `limit`, after those already read.
unfoldable pub read_digits : ℕ → ℕ → Text → Option ℕ
read_digits limit n [] = some n
read_digits limit n (c ∷ s) =
    let next = n * 10 + (c - b'0') in
    let rest = read_digits limit next s in
    if is_digit c then (if leb next limit then rest else none) else none

-- strconv.ParseUint(s, 10, 16)
unfoldable pub parse_uint16 : Text → Option ℕ
unfolding read_digits
parse_uint16 [] = none
parse_uint16 (c ∷ s) = read_digits 65535 0 (c ∷ s)

read_digits-le :
    (limit n : ℕ) (s : Text) {r : ℕ} → n ≤ limit → read_digits limit n s ≡ some r → r ≤ limit
unfolding read_digits
read_digits-le limit n [] h e = ground arith
read_digits-le limit n (c ∷ s) {r} h e =
    ground (arith, read_digits-le limit (n * 10 + (c - b'0')) s {r = r})

pub parse_uint16-le : (s : Text) {r : ℕ} → parse_uint16 s ≡ some r → r < 65536
unfolding parse_uint16
parse_uint16-le [] e = cc
parse_uint16-le (c ∷ s) e = omega (arith, read_digits-le 65535 0 (c ∷ s) (omega arith) e)
