-- ===== src/Payload/Raw.antt =====
-- normalize.ts: `sanitizeJson`, `buildRaw` and `tryParseJson`, which make what the item keeps of the
-- payload.
pub mod Safe
use simple_rss_notifications.Base.{
  ℕ, Bool, true, false, not, ◌&&◌, ◌||◌, Option, none, some, List, [], ◌∷◌, Text, ltb, leb,
  if◌then◌else◌, length, take,
}
use simple_rss_notifications.Base.Strings.{codes, text_eq, to_lower, trim, starts_with}
use simple_rss_notifications.Payload.Json.{
  Json, Number, Items, Fields, null, boolean, number, string, array, object, nil, cons, end, field,
}
use simple_rss_notifications.Payload.Json.Depth.{exceeds_depth}
use simple_rss_notifications.Payload.Runtime.{Runtime}
use simple_rss_notifications.Payload.Clip.{well_formed, clip}
use simple_rss_notifications.Payload.Fields.{is_empty}

-- `Object.defineProperty(out, k, { value: v })`: a key that is there keeps its place.
unfoldable pub define : Text → Json → Fields → Fields
define k v end = field k v end
define k v (field j w fs) =
    let rest = define k v fs in if text_eq j k then field j v fs else field j w rest

-- `out` goes along with the members that are left.
unfoldable mutual
  unfolding well_formed define

  pub sanitize_json : Json → Json
  sanitize_json null = null
  sanitize_json (boolean b) = boolean b
  sanitize_json (number n) = number n
  sanitize_json (string s) = string (well_formed s)
  sanitize_json (array vs) = array (sanitize_items vs)
  sanitize_json (object fs) = object (sanitize_fields fs end)

  pub sanitize_items : Items → Items
  sanitize_items nil = nil
  sanitize_items (cons v vs) = cons (sanitize_json v) (sanitize_items vs)

  pub sanitize_fields : Fields → Fields → Fields
  sanitize_fields end out = out
  sanitize_fields (field k v fs) out =
      sanitize_fields fs (define (well_formed k) (sanitize_json v) out)

abbrev pub max_json_depth : ℕ
max_json_depth = 32

abbrev pub max_raw_chars : ℕ
max_raw_chars = 32000

abbrev text_raw : Text → Fields → Json
text_raw text more =
    object (field (codes "text") (string (well_formed (clip text max_raw_chars))) more)

abbrev kept_raw : Json → Text → Json
kept_raw clean s =
    if leb (length s) max_raw_chars
    then clean
    else object (
        field (codes "truncated") (boolean true)
          (field (codes "preview") (string (well_formed (take max_raw_chars s))) end))

unfoldable pub build_raw : Runtime → Option Json → Text → Json
unfolding sanitize_json exceeds_depth clip well_formed
build_raw rt none text = text_raw text end
build_raw rt (some v) text =
    if exceeds_depth max_json_depth v
    then text_raw text (field (codes "truncated") (string (codes "depth")) end)
    else kept_raw (sanitize_json v) (rt.stringify (sanitize_json v))

-- `/s/.test(t)` for a pattern without special characters.
unfoldable pub contains : Text → Text → Bool
contains s [] = is_empty s
contains s (c ∷ t) = starts_with s (c ∷ t) || contains s t

-- `none` for undefined; the content type is the empty text where the header is missing.
unfoldable pub try_parse_json : Runtime → Text → Text → Option Json
unfolding trim contains
try_parse_json rt body content_type =
    let t = trim body in
    let looks_json =
      contains (codes "json") (to_lower content_type)
      || starts_with (codes "{") t
      || starts_with (codes "[") t in
    if not looks_json || is_empty t then none else rt.parse_json t
