-- ===== src/Ssrf.antt =====
-- web/src/lib/ssrf.ts: which addresses an outgoing request may reach. Here the IPv4 part; an octet
-- that `parseInt` makes NaN or negative is `none`.
pub mod Ipv6
pub mod Octets
pub mod Resolve
pub mod Fetch
mod Tests
use mathlib.Core.List.{reverse}
use simple_rss_notifications.Base.{
  ℕ, ◌+◌, ◌-◌, ◌*◌, ◌/◌, ◌%◌, Bool, true, false, not, ◌&&◌, ◌||◌, Option, none, some, List, [], ◌∷◌,
  ◌++◌, map, Text, ltb, leb, ◌==◌, if◌then◌else◌, any, length,
}
use simple_rss_notifications.Base.Strings.{codes, is_digit, trim_start, decimal_from}

-- `s.split(c)`
split_first : ℕ → Text → List Text → List Text
split_first c s [] = s ∷ []
split_first c s (t ∷ ts) = (s ++ t) ∷ ts

unfoldable pub split : ℕ → Text → List Text
unfolding split_first
split c [] = [] ∷ []
split c (x ∷ s) = let rest = split c s in if x == c then [] ∷ rest else split_first c (x ∷ []) rest

unfoldable pub digits_prefix : Text → Text
digits_prefix [] = []
digits_prefix (c ∷ s) = let rest = digits_prefix s in if is_digit c then c ∷ rest else []

unfoldable pub digits_value : Text → Option ℕ
unfolding decimal_from
digits_value [] = none
digits_value (c ∷ s) = some (decimal_from 0 (c ∷ s))

negated : Option ℕ → Option ℕ
negated none = none
negated (some n) = if n == 0 then some 0 else none

signed : Text → Option ℕ
unfolding digits_value digits_prefix negated
signed [] = none
signed (c ∷ s) =
    if c == b'-'
    then negated (digits_value (digits_prefix s))
    else if c == b'+'
    then digits_value (digits_prefix s)
    else digits_value (digits_prefix (c ∷ s))

-- `parseInt(s, 10)`
unfoldable pub parse_int : Text → Option ℕ
unfolding signed trim_start
parse_int s = signed (trim_start s)

-- The ranges, by the first two octets.
unfoldable pub is_private_octets : ℕ → ℕ → Bool
is_private_octets a b =
    a == 10
    || a == 127
    || a == 0
    || (a == 169 && b == 254)
    || (a == 172 && leb 16 b && leb b 31)
    || (a == 192 && b == 168)
    || (a == 100 && leb 64 b && leb b 127)
    || (a == 198 && (b == 18 || b == 19))
    || leb 224 a

unfoldable pub is_private_parts : List (Option ℕ) → Bool
unfolding is_private_octets
is_private_parts (some a ∷ some b ∷ some c ∷ some d ∷ []) =
    ltb 255 a || ltb 255 b || ltb 255 c || ltb 255 d || is_private_octets a b
is_private_parts _ = true

-- `isPrivateV4`
unfoldable pub is_private_v4 : Text → Bool
unfolding is_private_parts parse_int split
is_private_v4 addr = is_private_parts (map parse_int (split b'.' addr))

-- `String(n)` for an octet.
unfoldable pub octet_text : ℕ → Text
octet_text n =
    if ltb n 10
    then (48 + n) ∷ []
    else if ltb n 100
    then (48 + n / 10) ∷ (48 + n % 10) ∷ []
    else (48 + n / 100) ∷ (48 + n / 10 % 10) ∷ (48 + n % 10) ∷ []

-- The template `${a}.${b}.${c}.${d}`.
unfoldable pub dotted : ℕ → ℕ → ℕ → ℕ → Text
unfolding octet_text
dotted a b c d =
    octet_text a ++ b'.' ∷ (octet_text b ++ b'.' ∷ (octet_text c ++ b'.' ∷ octet_text d))
