-- ===== src/Common/Text.antt =====
-- What the source uses of `str`: `is_empty`, `trim`, `contains` of a character, `len` (in bytes of
-- UTF-8) and `char::is_ascii_hexdigit`.
use Prim.Native.Nat.{ℕ, zero, suc, ◌+◌, ◌-◌, ◌*◌, ◌^◌, ◌≤◌, ◌<◌}
use Prim.Native.Char.{Char, code}
use Prim.Native.String.{String}
use mathlib.Core.Path.{◌≡◌, refl}
use mathlib.Core.Bool.{Bool, true, false, ◌&&◌, ◌||◌}
use mathlib.Core.Option.{Option, none, some}
use mathlib.Core.List.{List, [], ◌∷◌}
use mathlib.Core.Logic.{◌≢◌}
use native.Mathlib.Omega.{arith}
use tauri_vpn_plugin.Common.Tests.{ltb, leb, nat_beq, if◌then◌else◌}

abbrev pub is_empty : String → Bool
is_empty String.[] = true
is_empty (String.◌∷◌ c s) = false

-- The characters with the Unicode property White_Space.
unfoldable pub is_whitespace : ℕ → Bool
is_whitespace c =
    (leb 9 c && leb c 13)
    || nat_beq c 0x20
    || nat_beq c 0x85
    || nat_beq c 0xa0
    || nat_beq c 0x1680
    || (leb 0x2000 c && leb c 0x200a)
    || nat_beq c 0x2028
    || nat_beq c 0x2029
    || nat_beq c 0x202f
    || nat_beq c 0x205f
    || nat_beq c 0x3000

unfoldable pub trim_start : String → String
unfolding is_whitespace
trim_start String.[] = ""
trim_start (String.◌∷◌ c s) =
    let rest = trim_start s in if is_whitespace (code c) then rest else String.◌∷◌ c s

unfoldable pub trim_end : String → String
unfolding is_whitespace
trim_end String.[] = ""
trim_end (String.◌∷◌ c s) =
    let rest = trim_end s in
    if is_empty rest && is_whitespace (code c) then "" else String.◌∷◌ c rest

unfoldable pub trim : String → String
unfolding trim_start trim_end
trim s = trim_end (trim_start s)

-- `s.trim().is_empty()`
abbrev pub is_blank : String → Bool
is_blank s = is_empty (trim s)

unfoldable pub contains : ℕ → String → Bool
contains c String.[] = false
contains c (String.◌∷◌ d s) = nat_beq (code d) c || contains c s

unfoldable pub is_ascii_hexdigit : ℕ → Bool
is_ascii_hexdigit c =
    (leb b'0' c && leb c b'9') || (leb b'a' c && leb c b'f') || (leb b'A' c && leb c b'F')

-- The bytes of a character in UTF-8, and `s.len()`.
abbrev pub utf8_width : ℕ → ℕ
utf8_width c = if ltb c 0x80 then 1 else if ltb c 0x800 then 2 else if ltb c 0x10000 then 3 else 4

unfoldable pub len : String → ℕ
len String.[] = 0
len (String.◌∷◌ c s) = utf8_width (code c) + len s

-- `s.chars().all(p)`
unfoldable pub all_chars : (ℕ → Bool) → String → Bool
all_chars p String.[] = true
all_chars p (String.◌∷◌ c s) = p (code c) && all_chars p s

-- The digits of a decimal number up to a limit, onto the number before them.
unfoldable pub parse_digits : ℕ → ℕ → String → Option ℕ
parse_digits most n String.[] = some n
parse_digits most n (String.◌∷◌ c s) =
    let next = n * 10 + (code c - b'0') in
    let rest = parse_digits most next s in
    if leb b'0' (code c) && leb (code c) b'9' && leb next most then rest else none

abbrev pub parse_nonempty : ℕ → String → Option ℕ
parse_nonempty most String.[] = none
parse_nonempty most (String.◌∷◌ c s) = parse_digits most 0 (String.◌∷◌ c s)

-- `s.parse::<u16>()`: decimal digits, perhaps behind a `+`, of a number below 2 ^ 16.
unfoldable pub parse_u16 : String → Option ℕ
unfolding parse_digits
parse_u16 String.[] = none
parse_u16 (String.◌∷◌ c s) =
    if nat_beq (code c) b'+'
    then parse_nonempty 0xffff s
    else parse_digits 0xffff 0 (String.◌∷◌ c s)

parse_digits-le :
    (most n : ℕ) (s : String) (m : ℕ) → n ≤ most → parse_digits most n s ≡ some m → m ≤ most
unfolding parse_digits
parse_digits-le most n String.[] m h e = ground arith
parse_digits-le most n (String.◌∷◌ c s) m h e =
    ground (arith, parse_digits-le most (n * 10 + (code c - b'0')) s m)

pub parse_u16-lt : (s : String) (m : ℕ) → parse_u16 s ≡ some m → m < 2 ^ 16
unfolding parse_u16
parse_u16-lt String.[] m e = cc
parse_u16-lt (String.◌∷◌ c String.[]) m e =
    ground (arith, parse_digits-le 0xffff 0 (String.◌∷◌ c String.[]) m)
parse_u16-lt (String.◌∷◌ c (String.◌∷◌ d s)) m e = ground (
  arith,
  parse_digits-le 0xffff 0 (String.◌∷◌ d s) m,
  parse_digits-le 0xffff 0 (String.◌∷◌ c (String.◌∷◌ d s)) m,
)

test_parse_u16 : parse_u16 "18080" ≡ some 18080
unfolding parse_u16
test_parse_u16 = refl

pub is_empty-ne : (s : String) → is_empty s ≡ false → s ≢ ""
is_empty-ne String.[] h = cc
is_empty-ne (String.◌∷◌ c s) h = cc

test_trim : trim " \t a b\n" ≡ "a b"
unfolding trim
test_trim = refl

-- `s.parse::<u32>()`, by the same rules.
unfoldable pub parse_u32 : String → Option ℕ
unfolding parse_digits
parse_u32 String.[] = none
parse_u32 (String.◌∷◌ c s) =
    if nat_beq (code c) b'+'
    then parse_nonempty 0xffffffff s
    else parse_digits 0xffffffff 0 (String.◌∷◌ c s)

-- `s.starts_with(prefix)`
unfoldable pub starts_with : String → String → Bool
starts_with String.[] s = true
starts_with (String.◌∷◌ c p) String.[] = false
starts_with (String.◌∷◌ c p) (String.◌∷◌ d s) = nat_beq (code c) (code d) && starts_with p s

-- `s.contains(part)`
unfoldable pub contains_text : String → String → Bool
unfolding starts_with
contains_text part String.[] = starts_with part ""
contains_text part (String.◌∷◌ c s) = starts_with part (String.◌∷◌ c s) || contains_text part s

-- Two texts on end.
infixr 65 ◌<>◌
unfoldable pub ◌<>◌ : String → String → String
String.[] <> t = t
String.◌∷◌ c s <> t = String.◌∷◌ c (s <> t)

-- `s.replace(c, by)`
unfoldable pub replace : ℕ → String → String → String
unfolding ◌<>◌
replace c by String.[] = ""
replace c by (String.◌∷◌ d s) =
    let rest = replace c by s in if nat_beq (code d) c then by <> rest else String.◌∷◌ d rest

-- The characters of a text.
unfoldable pub chars : String → List ℕ
chars String.[] = []
chars (String.◌∷◌ c s) = code c ∷ chars s

abbrev onto_first : Char → List String → List String
onto_first c [] = String.◌∷◌ c "" ∷ []
onto_first c (l ∷ ls) = String.◌∷◌ c l ∷ ls

abbrev starts_newline : String → Bool
starts_newline String.[] = false
starts_newline (String.◌∷◌ c s) = nat_beq (code c) b'\n'

-- `s.lines()`: a line ends at a newline, or at a carriage return and a newline.
unfoldable pub lines : String → List String
lines String.[] = []
lines (String.◌∷◌ c s) =
    let rest = lines s in
    if nat_beq (code c) b'\n'
    then "" ∷ rest
    else if nat_beq (code c) b'\r' && starts_newline s
    then rest
    else onto_first c rest

test_lines : lines "a\n\r\nbc\r\n" ≡ "a" ∷ "" ∷ "bc" ∷ []
unfolding lines
test_lines = refl

-- `s.split(c)`
unfoldable pub split : ℕ → String → List String
split c String.[] = "" ∷ []
split c (String.◌∷◌ d s) =
    let rest = split c s in if nat_beq (code d) c then "" ∷ rest else onto_first d rest

abbrev before_rest : Char → Option (String × String) → Option (String × String)
before_rest c none = none
before_rest c (some (s, t)) = some (String.◌∷◌ c s, t)

-- `s.split_once(c)`
unfoldable pub split_once : ℕ → String → Option (String × String)
split_once c String.[] = none
split_once c (String.◌∷◌ d s) =
    let rest = split_once c s in if nat_beq (code d) c then some ("", s) else before_rest d rest

-- `s.strip_prefix(p)`
unfoldable pub strip_prefix : String → String → Option String
strip_prefix String.[] s = some s
strip_prefix (String.◌∷◌ c p) String.[] = none
strip_prefix (String.◌∷◌ c p) (String.◌∷◌ d s) =
    let rest = strip_prefix p s in if nat_beq (code c) (code d) then rest else none

unfoldable pub trim_prefixes : ℕ → String → String → String
trim_prefixes zero p s = s
trim_prefixes (suc fuel) p s = elim (strip_prefix p s) [
  | none ↦ s
  | some rest ↦ trim_prefixes fuel p rest
]

-- `s.trim_start_matches(p)`, for a `p` that is not empty: it is taken off at most as often as `s` has
-- bytes.
unfoldable pub trim_start_matches : String → String → String
unfolding len strip_prefix trim_prefixes
trim_start_matches p s = trim_prefixes (len s) p s
