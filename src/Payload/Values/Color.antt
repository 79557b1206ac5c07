-- ===== src/Payload/Values/Color.antt =====
-- normalize.ts: the form of the colour that `parseColor` returns.
use simple_rss_notifications.Base.{
  ℕ, zero, suc, ◌-◌, ◌*◌, ◌/◌, ◌%◌, ◌^◌, ◌≤◌, ◌<◌, ◌≡◌, refl, Bool, true, not, ◌&&◌, ◌||◌, Option,
  none, some, [], ◌∷◌, ◌++◌, Text, ltb, leb, ◌==◌, length, all, arith, if_holds, length-append,
}
use simple_rss_notifications.Base.Strings.{is_digit, to_lower, trim, lower_unit}
use simple_rss_notifications.Payload.Json.{
  Json, Number, finite, infinite, nan, null, boolean, number, string, array, object,
}
use simple_rss_notifications.Payload.Runtime.{Runtime}
use simple_rss_notifications.Payload.Fields.{is_empty}
use simple_rss_notifications.Payload.Values.{
  hex_digit, hex_digits, zero_digits, pad_start, color_of_number, color_of_text, parse_color,
  is_hex, drop_hash, doubled,
}

abbrev pub is_lower_hex : ℕ → Bool
is_lower_hex c = is_digit c || (leb b'a' c && leb c b'f')

-- `#rrggbb` in lower case.
unfoldable pub IsColor : Option Text → Type 0
IsColor none = Unit
IsColor (some []) = 1 ≤ 0
IsColor (some (c ∷ s)) = (c ≡ b'#') × length s ≡ 6 × all is_lower_hex s ≡ true

abbrev power16 : ℕ → ℕ
power16 zero = 1
power16 (suc k) = 16 * power16 k

all-append : (p : ℕ → Bool) (s t : Text) → all p s ≡ true → all p t ≡ true → all p (s ++ t) ≡ true
all-append p [] t h k = k
all-append p (c ∷ s) t h k = ground (arith, all-append p s t)

hex_digit_lower : (d : ℕ) → d < 16 → is_lower_hex (hex_digit d) ≡ true
hex_digit_lower d h = ground arith

all_lower-hex_digits : (fuel n : ℕ) → all is_lower_hex (hex_digits fuel n) ≡ true
unfolding hex_digits
all_lower-hex_digits zero n = refl
all_lower-hex_digits (suc fuel) n = ground (
  arith,
  hex_digit_lower n,
  hex_digit_lower (n % 16),
  all-append is_lower_hex (hex_digits fuel (n / 16)) (hex_digit (n % 16) ∷ []),
  all_lower-hex_digits fuel (n / 16),
)

length-hex_digits : (k fuel n : ℕ) → n < power16 (suc k) → length (hex_digits fuel n) ≤ suc k
unfolding hex_digits
length-hex_digits k zero n h = ground arith
length-hex_digits zero (suc fuel) n h = ground arith
length-hex_digits (suc k) (suc fuel) n h = ground (
  arith,
  length-append (hex_digits fuel (n / 16)) (hex_digit (n % 16) ∷ []),
  length-hex_digits k fuel (n / 16),
)

length-zero_digits : (n : ℕ) → length (zero_digits n) ≡ n
length-zero_digits zero = refl
length-zero_digits (suc n) = omega (arith, length-zero_digits n)

all_lower-zero_digits : (n : ℕ) → all is_lower_hex (zero_digits n) ≡ true
all_lower-zero_digits zero = refl
all_lower-zero_digits (suc n) = all_lower-zero_digits n

padded-IsColor : (v : ℕ) → v ≤ 0xffffff → IsColor (some (b'#' ∷ pad_start 6 (hex_digits (suc v) v)))
unfolding IsColor
padded-IsColor v h = ground (
  arith,
  length-hex_digits 5 (suc v) v,
  all_lower-hex_digits (suc v) v,
  length-zero_digits (6 - length (hex_digits (suc v) v)),
  all_lower-zero_digits (6 - length (hex_digits (suc v) v)),
  length-append (zero_digits (6 - length (hex_digits (suc v) v))) (hex_digits (suc v) v),
  all-append is_lower_hex (zero_digits (6 - length (hex_digits (suc v) v))) (hex_digits (suc v) v),
)

color_of_number-IsColor : (n : Number) → IsColor (color_of_number n)
unfolding color_of_number IsColor
color_of_number-IsColor (finite negative m k) =
    if_holds IsColor
      (not (m % 2 ^ k == 0) || (negative && not (m == 0)) || ltb 0xffffff (m / 2 ^ k)) none
      (some (b'#' ∷ pad_start 6 (hex_digits (suc (m / 2 ^ k)) (m / 2 ^ k)))) (λ h. tt)
      (λ h. padded-IsColor (m / 2 ^ k) (ground arith))
color_of_number-IsColor (infinite negative) = tt
color_of_number-IsColor nan = tt

length-to_lower : (s : Text) → length (to_lower s) ≡ length s
length-to_lower [] = refl
length-to_lower (c ∷ s) = omega (arith, length-to_lower s)

lower_hex : (c : ℕ) → is_hex c ≡ true → is_lower_hex (lower_unit c) ≡ true
lower_hex c h = ground arith

all-to_lower : (s : Text) → all is_hex s ≡ true → all is_lower_hex (to_lower s) ≡ true
all-to_lower [] h = refl
all-to_lower (c ∷ s) h = ground (arith, lower_hex c, all-to_lower s)

length-doubled : (s : Text) → length (doubled s) ≡ 2 * length s
length-doubled [] = omega arith
length-doubled (c ∷ s) = omega (arith, length-doubled s)

all-doubled : (s : Text) → all is_lower_hex s ≡ true → all is_lower_hex (doubled s) ≡ true
all-doubled [] h = refl
all-doubled (c ∷ s) h = ground (arith, all-doubled s)

six_digits-IsColor :
    (d : Text) → (length d == 6 && all is_hex d) ≡ true → IsColor (some (b'#' ∷ to_lower d))
unfolding IsColor
six_digits-IsColor d h = ground (arith, length-to_lower d, all-to_lower d)

three_digits-IsColor :
    (d : Text)
    → (length d == 3 && all is_hex d) ≡ true
    → IsColor (some (b'#' ∷ doubled (to_lower d)))
unfolding IsColor
three_digits-IsColor d h = ground (
  arith,
  length-to_lower d,
  all-to_lower d,
  length-doubled (to_lower d),
  all-doubled (to_lower d),
)

color_of_text-IsColor : (rt : Runtime) (s : Text) → IsColor (color_of_text rt s)
unfolding color_of_text IsColor
color_of_text-IsColor rt s = if_holds IsColor _ _ _ (six_digits-IsColor (drop_hash (trim s))) (λ h.
    if_holds IsColor _ _ _ (three_digits-IsColor (drop_hash (trim s))) (λ h'.
      if_holds IsColor (not (is_empty (trim s)) && all is_digit (trim s))
        (color_of_number (rt.read_number (trim s))) none
        (λ k. color_of_number-IsColor (rt.read_number (trim s))) (λ k. tt)))

pub parse_color-IsColor : (rt : Runtime) (v : Option Json) → IsColor (parse_color rt v)
unfolding parse_color IsColor
parse_color-IsColor rt none = tt
parse_color-IsColor rt (some null) = tt
parse_color-IsColor rt (some (boolean b)) = tt
parse_color-IsColor rt (some (number n)) = color_of_number-IsColor n
parse_color-IsColor rt (some (string s)) = color_of_text-IsColor rt s
parse_color-IsColor rt (some (array vs)) = tt
parse_color-IsColor rt (some (object fs)) = tt
