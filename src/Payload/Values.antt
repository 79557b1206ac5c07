-- ===== src/Payload/Values.antt =====
-- normalize.ts: `parseColor`, `parseTags`, `parseDate` and `textToHtml`.
pub mod Color
pub mod Html
pub mod Date
use simple_rss_notifications.Base.{
  ℕ, zero, suc, ◌+◌, ◌-◌, ◌*◌, ◌/◌, ◌%◌, ◌^◌, Bool, true, false, not, ◌&&◌, ◌||◌, Option, none,
  some, List, [], ◌∷◌, ◌++◌, map, Text, ltb, leb, ◌==◌, if◌then◌else◌, all, length, take, drop,
  select,
}
use simple_rss_notifications.Base.Strings.{codes, is_digit, trim, to_lower}
use simple_rss_notifications.Base.Integers.{ℤ, pos, negsuc}
use simple_rss_notifications.Ssrf.{split}
use simple_rss_notifications.Payload.Json.{
  Json, Number, finite, infinite, nan, number, string, array, elements,
}
use simple_rss_notifications.Payload.Runtime.{Runtime}
use simple_rss_notifications.Payload.Clip.{clip}
use simple_rss_notifications.Payload.Fields.{is_empty, str}

abbrev pub hex_digit : ℕ → ℕ
hex_digit d = if ltb d 10 then b'0' + d else b'a' + (d - 10)

-- `v.toString(16)`, the digits below `fuel` steps.
unfoldable pub hex_digits : ℕ → ℕ → Text
hex_digits zero n = []
hex_digits (suc fuel) n =
    let higher = hex_digits fuel (n / 16) in
    if ltb n 16 then hex_digit n ∷ [] else higher ++ hex_digit (n % 16) ∷ []

abbrev pub zero_digits : ℕ → Text
zero_digits zero = []
zero_digits (suc n) = b'0' ∷ zero_digits n

-- `s.padStart(n, '0')`
abbrev pub pad_start : ℕ → Text → Text
pad_start n s = zero_digits (n - length s) ++ s

unfoldable pub color_of_number : Number → Option Text
unfolding hex_digits
color_of_number (finite negative m k) =
    let v = m / 2 ^ k in
    if not (m % 2 ^ k == 0) || (negative && not (m == 0)) || ltb 0xffffff v
    then none
    else some (b'#' ∷ pad_start 6 (hex_digits (suc v) v))
color_of_number _ = none

-- `[0-9a-f]` under the `i` flag.
abbrev pub is_hex : ℕ → Bool
is_hex c = is_digit c || (leb b'a' c && leb c b'f') || (leb b'A' c && leb c b'F')

abbrev pub drop_hash : Text → Text
drop_hash [] = []
drop_hash (c ∷ s) = if c == b'#' then s else c ∷ s

abbrev pub doubled : Text → Text
doubled [] = []
doubled (c ∷ s) = c ∷ c ∷ doubled s

unfoldable pub color_of_text : Runtime → Text → Option Text
unfolding color_of_number trim
color_of_text rt v =
    let s = trim v in
    let digits = drop_hash s in
    if length digits == 6 && all is_hex digits
    then some (b'#' ∷ to_lower digits)
    else if length digits == 3 && all is_hex digits
    then some (b'#' ∷ doubled (to_lower digits))
    else if not (is_empty s) && all is_digit s
    then color_of_number (rt.read_number s)
    else none

unfoldable pub parse_color : Runtime → Option Json → Option Text
unfolding color_of_number color_of_text
parse_color rt (some (number n)) = color_of_number n
parse_color rt (some (string s)) = color_of_text rt s
parse_color rt _ = none

abbrev str_of : Runtime → Json → Text
unfolding str
str_of rt v = str rt (some v)

tag_list : Runtime → Option Json → List Text
unfolding str elements split
tag_list rt (some (array vs)) = map (str_of rt) (elements vs)
tag_list rt (some (string s)) = split b',' s
tag_list rt _ = []

unfoldable pub parse_tags : Runtime → Option Json → List Text
unfolding tag_list trim clip
parse_tags rt v =
    map (λ (t : Text). clip t 50)
      (take 20 (select (λ (t : Text). not (is_empty t)) (map trim (tag_list rt v))))

abbrev pub future_tolerance_ms : ℕ
future_tolerance_ms = 5 * 60000

abbrev is_known_year : ℤ → Bool
is_known_year (pos y) = leb 1 y && leb y 9999
is_known_year (negsuc y) = false

-- An instant that is more than the tolerance after the clock becomes the clock.
abbrev not_later : ℕ → ℤ → ℤ
not_later now (pos t) = if ltb (now + future_tolerance_ms) t then pos now else pos t
not_later now (negsuc t) = negsuc t

unfoldable checked_time : Runtime → ℕ → Option ℤ → Option ℤ
checked_time rt now none = none
checked_time rt now (some t) =
    if not (is_known_year (rt.utc_year t)) then none else some (not_later now t)

unfoldable pub parse_date : Runtime → ℕ → Option Json → Option ℤ
unfolding checked_time
parse_date rt now (some (string s)) =
    if is_empty s then none else checked_time rt now (rt.parse_time s)
parse_date rt now _ = none

-- `s.replace(/c/g, t)`
unfoldable pub replace_unit : ℕ → Text → Text → Text
replace_unit c t [] = []
replace_unit c t (x ∷ s) = (if x == c then t else x ∷ []) ++ replace_unit c t s

-- `s.replace(/\r\n?/g, '\n')`, `after_cr` telling that the unit before was a carriage return.
unfoldable pub unix_lines : Bool → Text → Text
unix_lines after_cr [] = []
unix_lines after_cr (x ∷ s) =
    let rest = unix_lines (x == 13) s in
    if x == 13 then 10 ∷ rest else if x == 10 && after_cr then rest else x ∷ rest

-- `escapeText` of format.ts is the first three steps.
unfoldable pub escape_text : Text → Text
unfolding replace_unit
escape_text s =
    replace_unit b'>' (codes "&gt;")
      (replace_unit b'<' (codes "&lt;") (replace_unit b'&' (codes "&amp;") s))

unfoldable pub text_to_html : Text → Text
unfolding escape_text unix_lines
text_to_html s = replace_unit 10 (codes "<br>") (unix_lines false (escape_text s))
