-- ===== src/Payload/Raw/Safe.antt =====
-- normalize.ts, `buildRaw`: what the `jsonb` column is given.
use simple_rss_notifications.Base.{
  max, ◌≤◌, ◌≡◌, ◌⊎◌, inl, inr, leb, length, length-take, true, false, Option, none, some, Text,
  take, arith, if_holds,
}
use simple_rss_notifications.Base.Strings.{codes}
use simple_rss_notifications.Payload.Json.{
  Json, Items, Fields, null, boolean, number, string, array, object, nil, cons, end, field, depth,
  items_depth, fields_depth,
}
use simple_rss_notifications.Payload.Json.Depth.{exceeds_depth, exceeds_depth-depth}
use simple_rss_notifications.Payload.Runtime.{Runtime}
use simple_rss_notifications.Payload.Clip.{well_formed, clip, IsWellFormedAfter}
use simple_rss_notifications.Payload.Clip.Laws.{
  well_formed-IsWellFormed, length-well_formed, clip-IsClipped,
}
use simple_rss_notifications.Payload.Raw.{
  define, sanitize_json, sanitize_items, sanitize_fields, max_json_depth, max_raw_chars, build_raw,
  text_raw, kept_raw,
}

-- Every string and every key is well formed, as `jsonb` asks.
unfoldable mutual
  pub IsStorable : Json → Type 0
  IsStorable null = Unit
  IsStorable (boolean b) = Unit
  IsStorable (number n) = Unit
  IsStorable (string s) = IsWellFormedAfter false s
  IsStorable (array vs) = ItemsAreStorable vs
  IsStorable (object fs) = FieldsAreStorable fs

  pub ItemsAreStorable : Items → Type 0
  ItemsAreStorable nil = Unit
  ItemsAreStorable (cons v vs) = IsStorable v × ItemsAreStorable vs

  pub FieldsAreStorable : Fields → Type 0
  FieldsAreStorable end = Unit
  FieldsAreStorable (field k v fs) = IsWellFormedAfter false k × IsStorable v × FieldsAreStorable fs

define-FieldsAreStorable :
    (k : Text) (v : Json) (fs : Fields)
    → IsWellFormedAfter false k
    → IsStorable v
    → FieldsAreStorable fs
    → FieldsAreStorable (define k v fs)
unfolding define IsStorable
define-FieldsAreStorable k v end hk hv h = (hk, hv, tt)
define-FieldsAreStorable k v (field j w fs) hk hv h =
    ground (arith, define-FieldsAreStorable k v fs hk hv h.2)

mutual
  unfolding sanitize_json IsStorable

  sanitize_json-IsStorable : (v : Json) → IsStorable (sanitize_json v)
  sanitize_json-IsStorable null = tt
  sanitize_json-IsStorable (boolean b) = tt
  sanitize_json-IsStorable (number n) = tt
  sanitize_json-IsStorable (string s) = well_formed-IsWellFormed s
  sanitize_json-IsStorable (array vs) = sanitize_items-ItemsAreStorable vs
  sanitize_json-IsStorable (object fs) = sanitize_fields-FieldsAreStorable fs end tt

  sanitize_items-ItemsAreStorable : (vs : Items) → ItemsAreStorable (sanitize_items vs)
  sanitize_items-ItemsAreStorable nil = tt
  sanitize_items-ItemsAreStorable (cons v vs) =
      (sanitize_json-IsStorable v, sanitize_items-ItemsAreStorable vs)

  sanitize_fields-FieldsAreStorable :
      (fs out : Fields) → FieldsAreStorable out → FieldsAreStorable (sanitize_fields fs out)
  sanitize_fields-FieldsAreStorable end out h = h
  sanitize_fields-FieldsAreStorable (field k v fs) out h =
      sanitize_fields-FieldsAreStorable fs (define (well_formed k) (sanitize_json v) out) (
        define-FieldsAreStorable (well_formed k) (sanitize_json v) out (well_formed-IsWellFormed k)
          (sanitize_json-IsStorable v) h)

fields_depth-define :
    (k : Text) (v : Json) (fs : Fields)
    → fields_depth (define k v fs) ≤ max (depth v) (fields_depth fs)
unfolding define depth
fields_depth-define k v end = ground arith
fields_depth-define k v (field j w fs) = ground (arith, fields_depth-define k v fs)

mutual
  unfolding sanitize_json depth

  depth-sanitize_json : (v : Json) → depth (sanitize_json v) ≤ depth v
  depth-sanitize_json null = ground arith
  depth-sanitize_json (boolean b) = ground arith
  depth-sanitize_json (number n) = ground arith
  depth-sanitize_json (string s) = ground arith
  depth-sanitize_json (array vs) = omega (arith, items_depth-sanitize_items vs)
  depth-sanitize_json (object fs) = omega (arith, fields_depth-sanitize_fields fs end)

  items_depth-sanitize_items : (vs : Items) → items_depth (sanitize_items vs) ≤ items_depth vs
  items_depth-sanitize_items nil = ground arith
  items_depth-sanitize_items (cons v vs) =
      omega (arith, depth-sanitize_json v, items_depth-sanitize_items vs)

  fields_depth-sanitize_fields :
      (fs out : Fields)
      → fields_depth (sanitize_fields fs out) ≤ max (fields_depth fs) (fields_depth out)
  fields_depth-sanitize_fields end out = ground arith
  fields_depth-sanitize_fields (field k v fs) out = omega (
    arith,
    depth-sanitize_json v,
    fields_depth-define (well_formed k) (sanitize_json v) out,
    fields_depth-sanitize_fields fs (define (well_formed k) (sanitize_json v) out),
  )

-- A constant object, but for one text of at most 32,000 units.
pub data IsExcerpt : Json → Type 0 where
  whole_text :
      (t : Text)
      → length t ≤ max_raw_chars
      → IsExcerpt (object (field (codes "text") (string t) end))
  too_deep :
      (t : Text)
      → length t ≤ max_raw_chars
      → IsExcerpt (
          object (
            field
              (codes "text")
              (string t)
              (field (codes "truncated") (string (codes "depth")) end)))
  too_long :
      (t : Text)
      → length t ≤ max_raw_chars
      → IsExcerpt (
          object
            (field (codes "truncated") (boolean true) (field (codes "preview") (string t) end)))

-- What `JSON.stringify` prints is at most 32,000 units long, or the value is such an excerpt.
abbrev pub IsShort : Runtime → Json → Type 0
IsShort rt v = (length (rt.stringify v) ≤ max_raw_chars) ⊎ IsExcerpt v

excerpt_length : (text : Text) → length (well_formed (clip text max_raw_chars)) ≤ max_raw_chars
excerpt_length text = omega (
  arith,
  length-well_formed (clip text max_raw_chars),
  (clip-IsClipped text max_raw_chars (ground arith)).0,
)

preview_length : (s : Text) → length (well_formed (take max_raw_chars s)) ≤ max_raw_chars
preview_length s =
    omega (arith, length-well_formed (take max_raw_chars s), length-take max_raw_chars s)

kept_raw-IsShort : (rt : Runtime) (v : Json) → IsShort rt (kept_raw v (rt.stringify v))
kept_raw-IsShort rt v =
    let s = rt.stringify v in
    if_holds (IsShort rt) (leb (length s) max_raw_chars) v
      (object (
        field (codes "truncated") (boolean true)
          (field (codes "preview") (string (well_formed (take max_raw_chars s))) end)))
      (λ h. inl (ground arith))
      (λ h. inr (too_long (well_formed (take max_raw_chars s)) (preview_length s)))

pub build_raw-IsShort :
    (rt : Runtime) (parsed : Option Json) (text : Text) → IsShort rt (build_raw rt parsed text)
unfolding build_raw
build_raw-IsShort rt none text =
    inr (whole_text (well_formed (clip text max_raw_chars)) (excerpt_length text))
build_raw-IsShort rt (some v) text =
    let deep = field (codes "truncated") (string (codes "depth")) end in
    let clean = sanitize_json v in
    if_holds (IsShort rt) (exceeds_depth max_json_depth v) (text_raw text deep)
      (kept_raw clean (rt.stringify clean))
      (λ h. inr (too_deep (well_formed (clip text max_raw_chars)) (excerpt_length text)))
      (λ h. kept_raw-IsShort rt clean)

abbrev IsSafe : Json → Type 0
IsSafe v = IsStorable v × depth v ≤ max_json_depth

text_raw-IsSafe : (text : Text) (more : Fields) → IsSafe (object more) → IsSafe (text_raw text more)
unfolding IsStorable depth IsWellFormedAfter
text_raw-IsSafe text more h = ground (arith, well_formed-IsWellFormed (clip text max_raw_chars))

kept_raw-IsSafe : (v : Json) (s : Text) → IsSafe v → IsSafe (kept_raw v s)
unfolding IsStorable depth IsWellFormedAfter
kept_raw-IsSafe v s h = ground (arith, well_formed-IsWellFormed (take max_raw_chars s))

deep_mark-IsSafe : IsSafe (object (field (codes "truncated") (string (codes "depth")) end))
unfolding IsStorable depth IsWellFormedAfter
deep_mark-IsSafe = ground arith

sanitized-IsSafe : (v : Json) → exceeds_depth max_json_depth v ≡ false → IsSafe (sanitize_json v)
sanitized-IsSafe v h = (
  sanitize_json-IsStorable v,
  ground (arith, depth-sanitize_json v, exceeds_depth-depth max_json_depth v),
)

-- What `buildRaw` keeps of any payload nests at most 32 deep, and each of its strings and keys has
-- no NUL and no lone half of a surrogate pair.
pub build_raw-IsStorable :
    (rt : Runtime) (parsed : Option Json) (text : Text)
    → IsStorable (build_raw rt parsed text) × depth (build_raw rt parsed text) ≤ max_json_depth
unfolding build_raw IsStorable depth
build_raw-IsStorable rt none text = text_raw-IsSafe text end (tt, ground arith)
build_raw-IsStorable rt (some v) text =
    if_holds IsSafe (exceeds_depth max_json_depth v)
      (text_raw text (field (codes "truncated") (string (codes "depth")) end))
      (kept_raw (sanitize_json v) (rt.stringify (sanitize_json v)))
      (λ h.
        text_raw-IsSafe text (field (codes "truncated") (string (codes "depth")) end)
          deep_mark-IsSafe)
      (λ h.
        kept_raw-IsSafe (sanitize_json v) (rt.stringify (sanitize_json v)) (sanitized-IsSafe v h))
