-- ===== src/Text.antt =====
-- Rust's `str` as the list of its Unicode scalar values, with the methods of the standard library
-- that the server calls. `len` and `bytes` go through UTF-8, as in Rust.
pub mod Equality
pub mod Search
pub mod Split
pub mod Trim
pub mod Bytes
pub mod Decimal
pub mod Contains
pub mod Parts
use Prim.Native.Char.{code}
use Prim.Native.String.{String}
use zed_api_server_rs.Prelude.{
  ℕ, zero, suc, ◌+◌, ◌*◌, ◌/◌, ◌%◌, Bool, true, false, not, ◌&&◌, ◌||◌, Option, none, some, List,
  [], ◌∷◌, ◌++◌, map, reverse, ltb, leb, ◌==◌, if◌then◌else◌, length, take, ◌-◌,
}
use mathlib.Core.Option

abbrev pub Str : Type 0
Str = List ℕ

-- A literal.
unfoldable pub str : String → Str
str String.[] = []
str (String.◌∷◌ c s) = code c ∷ str s

-- The UTF-8 bytes of one scalar value.
unfoldable pub utf8_char : ℕ → List ℕ
utf8_char c =
    if ltb c 0x80
    then c ∷ []
    else if ltb c 0x800
    then (0xc0 + c / 64) ∷ (0x80 + c % 64) ∷ []
    else if ltb c 0x10000
    then (0xe0 + c / 4096) ∷ (0x80 + c / 64 % 64) ∷ (0x80 + c % 64) ∷ []
    else (0xf0 + c / 262144) ∷ (0x80 + c / 4096 % 64) ∷ (0x80 + c / 64 % 64) ∷ (0x80 + c % 64) ∷ []

unfoldable pub bytes : Str → List ℕ
unfolding utf8_char
bytes [] = []
bytes (c ∷ s) = utf8_char c ++ bytes s

unfoldable pub len : Str → ℕ
unfolding bytes
len s = length (bytes s)

-- `==` on texts.
unfoldable pub str_eq : Str → Str → Bool
str_eq [] [] = true
str_eq [] (y ∷ t) = false
str_eq (x ∷ s) [] = false
str_eq (x ∷ s) (y ∷ t) = x == y && str_eq s t

unfoldable pub strip_prefix : Str → Str → Option Str
strip_prefix s [] = some s
strip_prefix [] (p ∷ ps) = none
strip_prefix (c ∷ s) (p ∷ ps) = if c == p then strip_prefix s ps else none

abbrev is_some {ℓ} : {A : Type ℓ} → Option A → Bool
is_some none = false
is_some (some a) = true

unfoldable pub starts_with : Str → Str → Bool
unfolding strip_prefix
starts_with s p = is_some (strip_prefix s p)

unfoldable pub ends_with : Str → Str → Bool
unfolding starts_with
ends_with s p = starts_with (reverse s) (reverse p)

unfoldable pub contains : Str → Str → Bool
unfolding starts_with
contains [] p = starts_with [] p
contains (c ∷ s) p = starts_with (c ∷ s) p || contains s p

abbrev pub cons_head : ℕ → List Str → List Str
cons_head c [] = (c ∷ []) ∷ []
cons_head c (part ∷ parts) = (c ∷ part) ∷ parts

-- `split` at every character that passes the test.
unfoldable pub split : (ℕ → Bool) → Str → List Str
split sep [] = [] ∷ []
split sep (c ∷ s) = if sep c then [] ∷ split sep s else cons_head c (split sep s)

-- `split_once` by a text, at its first occurrence.
unfoldable pub split_once : Str → Str → Option (Str × Str)
unfolding strip_prefix
split_once [] p = Option.map (λ rest. ([], rest)) (strip_prefix [] p)
split_once (c ∷ s) p = elim (strip_prefix (c ∷ s) p) [
  | some rest ↦ some ([], rest)
  | none ↦ Option.map (λ q. (c ∷ q.0, q.1)) (split_once s p)
]

-- `map_or(s, |(head, _)| head)` on what a split answers: the part in front, or all of the text.
abbrev pub before : Str → Option (Str × Str) → Str
before s none = s
before s (some q) = q.0

-- The same with the part behind.
abbrev pub behind : Str → Option (Str × Str) → Str
behind s none = s
behind s (some q) = q.1

-- `split_once` by a character.
unfoldable pub split_once_char : Str → ℕ → Option (Str × Str)
split_once_char [] d = none
split_once_char (c ∷ s) d =
    if c == d then some ([], s) else Option.map (λ q. (c ∷ q.0, q.1)) (split_once_char s d)

-- `rsplit_once` by a character, at its last occurrence.
unfoldable pub rsplit_once_char : Str → ℕ → Option (Str × Str)
rsplit_once_char [] d = none
rsplit_once_char (c ∷ s) d = elim (rsplit_once_char s d) [
  | some q ↦ some (c ∷ q.0, q.1)
  | none ↦ if c == d then some ([], s) else none
]

unfoldable pub drop_while : (ℕ → Bool) → Str → Str
drop_while p [] = []
drop_while p (c ∷ s) = if p c then drop_while p s else c ∷ s

unfoldable pub trim_end_matches : (ℕ → Bool) → Str → Str
unfolding drop_while
trim_end_matches p s = reverse (drop_while p (reverse s))

-- `char::is_whitespace`: the property White_Space.
unfoldable pub is_whitespace : ℕ → Bool
is_whitespace c =
    leb 9 c && leb c 13
    || c == 0x20
    || c == 0x85
    || c == 0xa0
    || c == 0x1680
    || leb 0x2000 c && leb c 0x200a
    || c == 0x2028
    || c == 0x2029
    || c == 0x202f
    || c == 0x205f
    || c == 0x3000

unfoldable pub trim : Str → Str
unfolding trim_end_matches is_whitespace
trim s = trim_end_matches is_whitespace (drop_while is_whitespace s)

unfoldable pub is_ascii_digit : ℕ → Bool
is_ascii_digit c = leb b'0' c && leb c b'9'

unfoldable pub is_ascii_lowercase : ℕ → Bool
is_ascii_lowercase c = leb b'a' c && leb c b'z'

unfoldable pub is_ascii_uppercase : ℕ → Bool
is_ascii_uppercase c = leb b'A' c && leb c b'Z'

unfoldable pub is_ascii_alphanumeric : ℕ → Bool
unfolding is_ascii_digit is_ascii_lowercase is_ascii_uppercase
is_ascii_alphanumeric c = is_ascii_digit c || is_ascii_lowercase c || is_ascii_uppercase c

unfoldable pub is_ascii_control : ℕ → Bool
is_ascii_control c = ltb c 0x20 || c == 0x7f

unfoldable pub lower : ℕ → ℕ
unfolding is_ascii_uppercase
lower c = if is_ascii_uppercase c then c + 32 else c

unfoldable pub to_ascii_lowercase : Str → Str
unfolding lower
to_ascii_lowercase s = map lower s

unfoldable pub eq_ignore_ascii_case : Str → Str → Bool
unfolding to_ascii_lowercase str_eq
eq_ignore_ascii_case s t = str_eq (to_ascii_lowercase s) (to_ascii_lowercase t)

-- The digits of a number in front of a text; each division needs one unit of fuel.
unfoldable pub digits : ℕ → ℕ → Str → Str
digits zero n acc = acc
digits (suc fuel) n acc = elim (ltb n 10) [
  | true ↦ (b'0' + n) ∷ acc
  | false ↦ digits fuel (n / 10) ((b'0' + n % 10) ∷ acc)
]

-- A number as `{}` prints it.
unfoldable pub decimal : ℕ → Str
unfolding digits
decimal n = digits (suc n) n []

-- `str::lines().next().unwrap_or_default()`: up to the first line end, which is a newline with or
-- without a carriage return in front.
unfoldable pub first_line : Str → Str
unfolding split_once_char ends_with
first_line s = elim (split_once_char s 10) [
  | none ↦ s
  | some q ↦ if ends_with q.0 (13 ∷ []) then take (length q.0 - 1) q.0 else q.0
]
