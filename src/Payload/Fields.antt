-- ===== src/Payload/Fields.antt =====
-- normalize.ts: the readers of one field of a payload. An argument of type `Option Json` is `none`
-- for undefined.
pub mod Bounds
use simple_rss_notifications.Base.{
  ℕ, zero, suc, ◌+◌, ◌-◌, ◌*◌, ◌/◌, ◌%◌, ◌^◌, min, max, ◌≡◌, Bool, true, false, not, ◌&&◌, ◌||◌,
  Option, none, some, List, [], ◌∷◌, ◌++◌, map, Text, ltb, leb, ◌==◌, if◌then◌else◌, all, any,
  length, take, select,
}
use simple_rss_notifications.Base.Strings.{codes, text_eq, is_digit, is_space, trim, to_lower}
use simple_rss_notifications.Base.Integers.{ℤ, pos, negsuc}
use simple_rss_notifications.Ssrf.{split}
use simple_rss_notifications.Payload.Json.{
  Json, Number, finite, infinite, nan, null, boolean, number, string, array, object, Fields, member,
  elements,
}
use simple_rss_notifications.Payload.Runtime.{Runtime, ParsedUrl}
use simple_rss_notifications.Payload.Clip.{clip}

abbrev pub is_empty : Text → Bool
is_empty [] = true
is_empty (c ∷ s) = false

-- `s || t`
abbrev pub or_else : Text → Text → Text
or_else [] t = t
or_else (c ∷ s) t = c ∷ s

unfoldable pub str : Runtime → Option Json → Text
unfolding trim
str rt (some (string s)) = trim s
str rt (some (number n)) = rt.show_number n
str rt (some (boolean b)) = if b then codes "true" else codes "false"
str rt _ = []

unfoldable pub first_str : Runtime → Fields → List Text → Text
unfolding str member
first_str rt o [] = []
first_str rt o (k ∷ ks) = or_else (str rt (member k o)) (first_str rt o ks)

-- A unit of `[\u0000-\u001f\u007f-\u009f\s]`.
abbrev is_control_or_space : ℕ → Bool
is_control_or_space c = leb c 0x1f || (leb 0x7f c && leb c 0x9f) || is_space c

abbrev pub max_url_chars : ℕ
max_url_chars = 2048

unfoldable check_url : Option ParsedUrl → Option Text
check_url none = none
check_url (some u) =
    if not (text_eq u.protocol (codes "http:")) && not (text_eq u.protocol (codes "https:"))
    then none
    else if is_empty u.hostname || ltb max_url_chars (length u.href)
    then none
    else some u.href

unfoldable pub safe_url : Runtime → Text → Option Text
unfolding check_url trim is_space
safe_url rt v =
    let s = trim v in
    if is_empty s || ltb max_url_chars (length s)
    then none
    else if any is_control_or_space s
    then none
    else check_url (rt.parse_url s)

-- `inherited` is a property that every object has by its prototype.
pub data Priority : Type 0 where
  level : ℕ → Priority
  inherited : Priority

-- `NAMED_PRIORITY[s]` for a lower-case `s`.
unfoldable pub named_priority : Text → Option Priority
named_priority s =
    if text_eq s (codes "min")
    then some (level 1)
    else if text_eq s (codes "low")
    then some (level 2)
    else if text_eq s (codes "default") || text_eq s (codes "normal")
    then some (level 3)
    else if text_eq s (codes "high")
    then some (level 4)
    else if text_eq s (codes "urgent") || text_eq s (codes "max")
    then some (level 5)
    else if text_eq s (codes "constructor") || text_eq s (codes "__proto__")
    then some inherited
    else none

-- `Math.round` of a number that is not negative; one that is rounds to 0 or below.
unfoldable pub round : ℕ → ℕ → ℕ
round mantissa shift = (2 * mantissa + 2 ^ shift) / (2 * 2 ^ shift)

unfoldable pub priority_of_number : Number → Option Priority
unfolding round
priority_of_number (finite negative m k) =
    some (level (min 5 (max 1 (if negative then 0 else round m k))))
priority_of_number (infinite negative) = none
priority_of_number nan = none

-- `/^\d+(\.\d+)?$/`
unfoldable pub is_decimal : Text → Bool
is_decimal s = fraction (split b'.' s)
  where
    fraction : List Text → Bool
    fraction [] = false
    fraction (w ∷ []) = not (is_empty w) && all is_digit w
    fraction (w ∷ f ∷ []) = not (is_empty w) && all is_digit w && not (is_empty f) && all is_digit f
    fraction _ = false

-- `/^-?\d+(\.\d+)?$/`
abbrev pub is_signed_decimal : Text → Bool
is_signed_decimal [] = false
is_signed_decimal (c ∷ s) = if c == b'-' then is_decimal s else is_decimal (c ∷ s)

unfoldable pub priority_of_text : Runtime → Text → Option Priority
unfolding is_decimal named_priority priority_of_number trim split
priority_of_text rt v =
    let s = to_lower (trim v) in
    if is_empty s
    then none
    else if is_signed_decimal s
    then priority_of_number (rt.read_number s)
    else named_priority s

unfoldable pub parse_priority : Runtime → Option Json → Option Priority
unfolding priority_of_number priority_of_text
parse_priority rt (some (number n)) = priority_of_number n
parse_priority rt (some (string s)) = priority_of_text rt s
parse_priority rt _ = none
