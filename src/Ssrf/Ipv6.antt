-- ===== src/Ssrf/Ipv6.antt =====
-- web/src/lib/ssrf.ts: `ipv6ToBytes` and `isPrivateV6`. `net.isIPv4` is a parameter.
use simple_rss_notifications.Base.{
  ℕ, zero, suc, ◌+◌, ◌-◌, ◌*◌, ◌/◌, ◌%◌, Bool, true, not, ◌&&◌, ◌||◌, Option, none, some, List, [],
  ◌∷◌, ◌++◌, map, Text, ltb, leb, ◌==◌, if◌then◌else◌, any, all, length, drop,
}
use simple_rss_notifications.Base.Strings.{codes, is_digit, to_lower, starts_with}
use simple_rss_notifications.Ssrf.{split, parse_int, dotted, is_private_v4}

abbrev has : ℕ → Text → Bool
has c s = any (λ x. x == c) s

-- The part before the first zone mark.
strip_zone : Text → Text
strip_zone [] = []
strip_zone (c ∷ s) = let rest = strip_zone s in if c == b'%' then [] else c ∷ rest

-- The text up to the last colon, that colon included, and the rest; `none` without a colon.
cut_last_colon : Text → Option (Text × Text)
cut_last_colon [] = none
cut_last_colon (c ∷ s) = elim (cut_last_colon s) [
  | some (before, tail) ↦ some (c ∷ before, tail)
  | none ↦ if c == b':' then some (c ∷ [], s) else none
]

hex_digit : ℕ → ℕ
hex_digit n = if ltb n 10 then 48 + n else 87 + n

-- `n.toString(16)`, for n below 2^16.
to_hex : ℕ → Text
unfolding hex_digit
to_hex n =
    if ltb n 16
    then hex_digit n ∷ []
    else if ltb n 256
    then hex_digit (n / 16) ∷ hex_digit (n % 16) ∷ []
    else if ltb n 4096
    then hex_digit (n / 256) ∷ hex_digit (n / 16 % 16) ∷ hex_digit (n % 16) ∷ []
    else hex_digit (n / 4096)
      ∷ hex_digit (n / 256 % 16)
      ∷ hex_digit (n / 16 % 16)
      ∷ hex_digit (n % 16)
      ∷ []

-- The dotted tail as two hextets.
hextets_of : Text → List (Option ℕ) → Option Text
unfolding to_hex
hextets_of before (some b0 ∷ some b1 ∷ some b2 ∷ some b3 ∷ []) =
    some (before ++ (to_hex (b0 * 256 + b1) ++ b':' ∷ to_hex (b2 * 256 + b3)))
hextets_of before _ = none

abbrev is_hex : ℕ → Bool
is_hex c = is_digit c || (leb b'a' c && leb c b'f')

hex_value : ℕ → ℕ
hex_value c = if is_digit c then c - 48 else c - 87

hex_from : ℕ → Text → ℕ
unfolding hex_value
hex_from n [] = n
hex_from n (c ∷ s) = hex_from (16 * n + hex_value c) s

-- `/^[0-9a-f]{1,4}$/` and `parseInt(h, 16)`
hextet : Text → Option ℕ
unfolding hex_from
hextet h =
    if all is_hex h && leb 1 (length h) && leb (length h) 4 then some (hex_from 0 h) else none

hextets : List Text → Option (List ℕ)
unfolding hextet
hextets [] = some []
hextets (h ∷ hs) = elim (hextet h) [
  | none ↦ none
  | some n ↦ elim (hextets hs) [ none ↦ none | some ns ↦ some (n ∷ ns) ]
]

-- `s === '' ? [] : s.split(':')`
groups_of : Text → Option (List ℕ)
unfolding hextets split
groups_of [] = some []
groups_of (c ∷ s) = hextets (split b':' (c ∷ s))

zeros : ℕ → List ℕ
zeros zero = []
zeros (suc n) = 0 ∷ zeros n

-- The parts around the first double colon; what stands behind a second one is dropped.
until_double : Text → Text
until_double [] = []
until_double (c ∷ s) =
    let rest = until_double s in if starts_with (codes "::") (c ∷ s) then [] else c ∷ rest

from_double : Text → Option Text
from_double [] = none
from_double (c ∷ s) =
    let rest = from_double s in if starts_with (codes "::") (c ∷ s) then some (drop 1 s) else rest

fill_groups : Option (List ℕ) → Option (List ℕ) → Option (List ℕ)
unfolding zeros
fill_groups (some head) (some tail) =
    if ltb 8 (length head + length tail)
    then none
    else some (head ++ (zeros (8 - length head - length tail) ++ tail))
fill_groups _ _ = none

all_groups : Text → Option Text → Option (List ℕ)
unfolding groups_of fill_groups until_double hextets
all_groups s none = groups_of s
all_groups s (some tail) = fill_groups (groups_of (until_double s)) (groups_of (until_double tail))

bytes_of : List ℕ → List ℕ
bytes_of [] = []
bytes_of (g ∷ gs) = g / 256 % 256 ∷ g % 256 ∷ bytes_of gs

of_groups : Option (List ℕ) → Option (List ℕ)
unfolding bytes_of
of_groups none = none
of_groups (some gs) = if length gs == 8 then some (bytes_of gs) else none

module _ (is_ipv4 : Text → Bool) where
  with_tail : Text → Option (Text × Text) → Option Text
  unfolding hextets_of split
  with_tail s none = some s
  with_tail s (some (before, tail)) =
      if not (has b'.' tail)
      then some s
      else if not (is_ipv4 tail)
      then none
      else hextets_of before (map parse_int (split b'.' tail))

  parse_groups : Option Text → Option (List ℕ)
  unfolding of_groups all_groups from_double
  parse_groups none = none
  parse_groups (some s) = of_groups (all_groups s (from_double s))

  -- `ipv6ToBytes`
  unfoldable pub ipv6_to_bytes : Text → Option (List ℕ)
  unfolding parse_groups with_tail cut_last_colon strip_zone
  ipv6_to_bytes addr =
      let s = strip_zone (to_lower addr) in parse_groups (with_tail s (cut_last_colon s))

abbrev is_zero : ℕ → Bool
is_zero x = x == 0

-- The ranges, by the sixteen bytes.
unfoldable pub is_private_bytes : List ℕ → Bool
unfolding dotted
is_private_bytes
      (b0 ∷ b1 ∷ b2 ∷ b3 ∷ b4 ∷ b5 ∷ b6 ∷ b7 ∷ b8 ∷ b9 ∷ b10 ∷ b11 ∷ b12 ∷ b13 ∷ b14 ∷ b15 ∷ []) =
    let ten = all is_zero (b0 ∷ b1 ∷ b2 ∷ b3 ∷ b4 ∷ b5 ∷ b6 ∷ b7 ∷ b8 ∷ b9 ∷ []) in
    let twelve = ten && is_zero b10 && is_zero b11 in
    if twelve && is_zero b12 && is_zero b13 && is_zero b14 && (b15 == 0 || b15 == 1)
    then true
    else if ten && b10 == 255 && b11 == 255
    then is_private_v4 (dotted b12 b13 b14 b15)
    else if twelve && not (is_zero b12 && is_zero b13 && is_zero b14 && is_zero b15)
    then is_private_v4 (dotted b12 b13 b14 b15)
    else if b0 == 0
        && b1 == 0x64
        && b2 == 255
        && b3 == 0x9b
        && all is_zero (b4 ∷ b5 ∷ b6 ∷ b7 ∷ b8 ∷ b9 ∷ b10 ∷ b11 ∷ [])
    then is_private_v4 (dotted b12 b13 b14 b15)
    else if b0 == 0x20 && b1 == 2
    then is_private_v4 (dotted b2 b3 b4 b5)
    else (b0 == 254 && leb 128 b1 && leb b1 191) || (leb 252 b0 && leb b0 253) || b0 == 255
is_private_bytes _ = true

private_if_parsed : Option (List ℕ) → Bool
unfolding is_private_bytes
private_if_parsed none = true
private_if_parsed (some b) = is_private_bytes b

-- `isPrivateV6`
unfoldable pub is_private_v6 : (is_ipv4 : Text → Bool) → Text → Bool
unfolding private_if_parsed ipv6_to_bytes
is_private_v6 is_ipv4 addr = private_if_parsed (ipv6_to_bytes is_ipv4 addr)
