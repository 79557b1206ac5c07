-- ===== src/Payload/Fields/Bounds.antt =====
-- normalize.ts: the range of what `safeUrl` and `parsePriority` return.
use simple_rss_notifications.Base.{
  ◌≤◌, ◌≡◌, refl, Bool, true, false, not, ◌&&◌, ◌||◌, Option, none, some, any, Text, ltb, length,
  arith, if_holds, if◌then◌else◌,
}
use simple_rss_notifications.Base.Strings.{codes, text_eq, trim, to_lower}
use simple_rss_notifications.Payload.Json.{
  Json, Number, finite, infinite, nan, null, boolean, number, string, array, object,
}
use simple_rss_notifications.Payload.Runtime.{Runtime, ParsedUrl}
use simple_rss_notifications.Payload.Fields.{
  Priority, level, inherited, named_priority, priority_of_number, priority_of_text, parse_priority,
  safe_url, max_url_chars, is_empty, check_url, is_control_or_space,
}

-- A priority that the column holds: 1 to 5.
unfoldable pub IsLevel : Option Priority → Type 0
IsLevel none = Unit
IsLevel (some (level n)) = (1 ≤ n) × n ≤ 5
IsLevel (some inherited) = 1 ≤ 0

-- The names that every object has by its prototype and that lower-casing leaves alone.
abbrev pub is_inherited_name : Text → Bool
is_inherited_name s = text_eq s (codes "constructor") || text_eq s (codes "__proto__")

-- Whether a field names such a property.
unfoldable pub names_inherited : Option Json → Bool
unfolding trim
names_inherited (some (string s)) = is_inherited_name (to_lower (trim s))
names_inherited _ = false

named_priority-IsLevel : (s : Text) → is_inherited_name s ≡ false → IsLevel (named_priority s)
unfolding named_priority IsLevel
named_priority-IsLevel s h = ground arith

priority_of_number-IsLevel : (n : Number) → IsLevel (priority_of_number n)
unfolding priority_of_number IsLevel
priority_of_number-IsLevel (finite negative m k) = ground arith
priority_of_number-IsLevel (infinite negative) = ground arith
priority_of_number-IsLevel nan = ground arith

priority_of_text-IsLevel :
    (rt : Runtime) (s : Text)
    → is_inherited_name (to_lower (trim s)) ≡ false
    → IsLevel (priority_of_text rt s)
unfolding priority_of_text IsLevel
priority_of_text-IsLevel rt s h = ground (
  arith,
  named_priority-IsLevel (to_lower (trim s)),
  priority_of_number-IsLevel (rt.read_number (to_lower (trim s))),
)

pub parse_priority-IsLevel :
    (rt : Runtime) (v : Option Json) → names_inherited v ≡ false → IsLevel (parse_priority rt v)
unfolding parse_priority IsLevel names_inherited
parse_priority-IsLevel rt none h = ground arith
parse_priority-IsLevel rt (some null) h = ground arith
parse_priority-IsLevel rt (some (boolean b)) h = ground arith
parse_priority-IsLevel rt (some (number n)) h = priority_of_number-IsLevel n
parse_priority-IsLevel rt (some (string s)) h = priority_of_text-IsLevel rt s h
parse_priority-IsLevel rt (some (array vs)) h = ground arith
parse_priority-IsLevel rt (some (object fs)) h = ground arith

abbrev pub is_web : ParsedUrl → Bool
is_web u =
    (text_eq u.protocol (codes "http:") || text_eq u.protocol (codes "https:"))
    && not (is_empty u.hostname)

-- A link that the URL parser makes of some text, over HTTP or HTTPS, with a host, at most 2048 long.
pub IsWebUrl : Runtime → Option Text → Type 0
IsWebUrl rt none = Unit
IsWebUrl rt (some h) =
    (v : Text) × (u : ParsedUrl) × rt.parse_url v ≡ some u
    × u.href ≡ h
    × is_web u ≡ true
    × length h ≤ max_url_chars

check_url-IsWebUrl :
    (rt : Runtime) (v : Text) (p : Option ParsedUrl)
    → rt.parse_url v ≡ p
    → IsWebUrl rt (check_url p)
unfolding check_url IsWebUrl
check_url-IsWebUrl rt v none h = tt
check_url-IsWebUrl rt v (some u) h =
    if_holds (IsWebUrl rt)
      (not (text_eq u.protocol (codes "http:")) && not (text_eq u.protocol (codes "https:"))) none
      (if is_empty u.hostname || ltb max_url_chars (length u.href) then none else some u.href)
      (λ e. tt)
      (λ e.
        if_holds (IsWebUrl rt) (is_empty u.hostname || ltb max_url_chars (length u.href)) none
          (some u.href) (λ k. tt) (λ k. (v, u, h, refl, ground arith, ground arith)))

pub safe_url-IsWebUrl : (rt : Runtime) (v : Text) → IsWebUrl rt (safe_url rt v)
unfolding safe_url IsWebUrl
safe_url-IsWebUrl rt v =
    if_holds (IsWebUrl rt) (is_empty (trim v) || ltb max_url_chars (length (trim v))) none
      (if any is_control_or_space (trim v) then none else check_url (rt.parse_url (trim v)))
      (λ h. tt)
      (λ h.
        if_holds (IsWebUrl rt) (any is_control_or_space (trim v)) none
          (check_url (rt.parse_url (trim v))) (λ k. tt)
          (λ k. check_url-IsWebUrl rt (trim v) (rt.parse_url (trim v)) refl))
