-- ===== src/Format.antt =====
-- web/src/lib/rss/format.ts: `decodeEntities` and `truncate`. The passes that take HTML to text,
-- Markdown or safe HTML, and the builders of bodies, are left out.
mod Tests
pub mod Escapes
pub mod Cuts
use mathlib.Core.List.{reverse}
use simple_rss_notifications.Base.{
  ℕ, zero, suc, ◌+◌, ◌-◌, ◌*◌, ◌/◌, ◌%◌, ◌^◌, Bool, true, false, not, ◌&&◌, ◌||◌, Option, none,
  some, List, [], ◌∷◌, ◌++◌, Text, ltb, leb, ◌==◌, if◌then◌else◌, length, take,
}
use simple_rss_notifications.Base.Strings.{
  codes, text_eq, is_digit, is_lower, is_upper, to_lower, decimal_from, trim_end,
}
use simple_rss_notifications.Ssrf.{digits_prefix}
use simple_rss_notifications.Payload.Values.{is_hex}
use simple_rss_notifications.Payload.Clip.{ellipsis}

-- The longest run of units that pass a test.
unfoldable pub run_of : (ℕ → Bool) → Text → Text
run_of p [] = []
run_of p (c ∷ s) = let rest = run_of p s in if p c then c ∷ rest else []

abbrev pub is_ascii_letter : ℕ → Bool
is_ascii_letter c = is_lower c || is_upper c

-- Whether a text goes on with `;` behind a run.
unfoldable pub ends_at : Text → Text → Bool
ends_at [] [] = false
ends_at [] (c ∷ s) = c == b';'
ends_at (d ∷ r) [] = false
ends_at (d ∷ r) (c ∷ s) = ends_at r s

-- The names of NAMED_ENTITIES with their units.
abbrev named_entities : List (Text × ℕ)
named_entities =
    (codes "amp", b'&')
    ∷ (codes "lt", b'<')
    ∷ (codes "gt", b'>')
    ∷ (codes "quot", b'"')
    ∷ (codes "apos", b'\'')
    ∷ (codes "nbsp", 0x20)
    ∷ (codes "hellip", 0x2026)
    ∷ (codes "mdash", 0x2014)
    ∷ (codes "ndash", 0x2013)
    ∷ (codes "lsquo", 0x2018)
    ∷ (codes "rsquo", 0x2019)
    ∷ (codes "ldquo", 0x201c)
    ∷ (codes "rdquo", 0x201d)
    ∷ (codes "trade", 0x2122)
    ∷ (codes "copy", 0xa9)
    ∷ (codes "reg", 0xae)
    ∷ (codes "deg", 0xb0)
    ∷ (codes "plusmn", 0xb1)
    ∷ (codes "middot", 0xb7)
    ∷ (codes "laquo", 0xab)
    ∷ (codes "raquo", 0xbb)
    ∷ (codes "bull", 0x2022)
    ∷ (codes "sect", 0xa7)
    ∷ (codes "para", 0xb6)
    ∷ (codes "shy", 0xad)
    ∷ []

unfoldable pub lookup_entity : Text → List (Text × ℕ) → Option ℕ
lookup_entity name [] = none
lookup_entity name ((k, c) ∷ es) =
    let rest = lookup_entity name es in if text_eq k name then some c else rest

abbrev pub digit_value : ℕ → ℕ
digit_value c = if is_digit c then c - b'0' else if is_lower c then c - b'a' + 10 else c - b'A' + 10

unfoldable pub hex_value_from : ℕ → Text → ℕ
hex_value_from n [] = n
hex_value_from n (c ∷ s) = hex_value_from (16 * n + digit_value c) s

-- `String.fromCodePoint`: one unit or two, `none` where it throws a RangeError.
unfoldable pub from_code_point : ℕ → Option Text
from_code_point n =
    if ltb 0x10ffff n
    then none
    else if ltb n 0x10000
    then some (n ∷ [])
    else some ((0xd800 + (n - 0x10000) / 0x400) ∷ (0xdc00 + (n - 0x10000) % 0x400) ∷ [])

-- Where `parseInt` gives a finite double.
abbrev pub is_finite_value : ℕ → Bool
is_finite_value n = ltb n (2 ^ 1024 - 2 ^ 970)

code_text : ℕ → Text → Option Text
unfolding from_code_point
code_text n matched = if is_finite_value n then from_code_point n else some matched

-- What replaces a reference, by its kind; `matched` is the whole match.
hex_reference : Text → Text → Option Text
unfolding code_text hex_value_from
hex_reference digits matched = code_text (hex_value_from 0 digits) matched

decimal_reference : Text → Text → Option Text
unfolding code_text decimal_from digits_prefix
decimal_reference digits matched =
    let leading = digits_prefix digits in
    if length leading == 0 then some matched else code_text (decimal_from 0 leading) matched

named_reference : Text → Text → Option Text
unfolding lookup_entity
named_reference name matched = elim (lookup_entity (to_lower name) named_entities) [
  | none ↦ some matched
  | some c ↦ some (c ∷ [])
]

-- What a unit is replaced by, and how many of the units behind it go with it.
abbrev alone : ℕ → Option Text × ℕ
alone c = (some (c ∷ []), 0)

abbrev is_match : Text → Text → Bool
unfolding ends_at
is_match run s = not (length run == 0) && ends_at run s

named_match : Text → Option Text × ℕ
unfolding run_of ends_at named_reference
named_match s =
    let name = run_of is_ascii_letter s in
    if is_match name s
    then (named_reference name (b'&' ∷ name ++ b';' ∷ []), length name + 1)
    else alone b'&'

decimal_match : Text → Option Text × ℕ
unfolding run_of ends_at decimal_reference
decimal_match s =
    let digits = run_of is_hex s in
    if is_match digits s
    then (decimal_reference digits (b'&' ∷ b'#' ∷ digits ++ b';' ∷ []), length digits + 2)
    else alone b'&'

hex_match : Text → Option Text × ℕ
unfolding run_of ends_at hex_reference
hex_match s =
    let digits = run_of is_hex s in
    if is_match digits s
    then (hex_reference digits (b'&' ∷ b'#' ∷ b'x' ∷ digits ++ b';' ∷ []), length digits + 3)
    else alone b'&'

number_match : Text → Option Text × ℕ
unfolding decimal_match hex_match
number_match [] = alone b'&'
number_match (c ∷ s) = if c == b'x' then hex_match s else decimal_match (c ∷ s)

-- The match at an ampersand, if any.
reference_match : Text → Option Text × ℕ
unfolding number_match named_match
reference_match [] = alone b'&'
reference_match (c ∷ s) = if c == b'#' then number_match s else named_match (c ∷ s)

unfoldable pub emitted : ℕ → Text → Option Text × ℕ
unfolding reference_match
emitted c s = if c == b'&' then reference_match s else alone c

abbrev pub both : Option Text → Option Text → Option Text
both none t = none
both (some s) none = none
both (some s) (some t) = some (s ++ t)

-- The replacements from left to right, `skip` counting the units that a match has used up.
unfoldable pub decode_from : ℕ → Text → Option Text
unfolding emitted
decode_from skip [] = some []
decode_from (suc skip) (c ∷ s) = decode_from skip s
decode_from zero (c ∷ s) = let (out, skip) = emitted c s in both out (decode_from skip s)

-- `none` where it throws.
unfoldable pub decode_entities : Text → Option Text
unfolding decode_from
decode_entities s = decode_from 0 s

-- `s.lastIndexOf(' ')`, `none` for -1.
unfoldable pub last_space : Text → Option ℕ
last_space [] = none
last_space (c ∷ s) = elim (last_space s) [
  | some i ↦ some (suc i)
  | none ↦ if c == 32 then some 0 else none
]

-- `lastSpace > max * 0.6 ? lastSpace : max`
pub cut_at : ℕ → Option ℕ → ℕ
cut_at max_length none = max_length
cut_at max_length (some i) = if ltb (3 * max_length) (5 * i) then i else max_length

unfoldable pub truncate : Text → ℕ → Text
unfolding last_space cut_at trim_end
truncate text max_length =
    let slice = take max_length text in
    if leb (length text) max_length
    then text
    else trim_end (take (cut_at max_length (last_space slice)) slice) ++ ellipsis ∷ []
