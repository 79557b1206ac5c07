-- ===== src/Payload/Normalize.antt =====
-- normalize.ts: `readMeta`, `isDiscord`, `fromDiscord` and `normalizeHook`. Headers and query
-- parameters are look-ups by name.
pub mod Discord
pub mod Cases
pub mod Bounds
pub mod Emptiness
pub mod Priorities
use simple_rss_notifications.Base.{
  ℕ, Bool, true, false, not, ◌&&◌, ◌||◌, Option, none, some, List, [], ◌∷◌, ◌++◌, map, Text,
  if◌then◌else◌, any, get_or,
}
use simple_rss_notifications.Base.Strings.{codes, trim}
use simple_rss_notifications.Base.Integers.{ℤ}
use simple_rss_notifications.Payload.Json.{Json, Fields, null, string, object, array, member}
use simple_rss_notifications.Payload.Json.Depth.{exceeds_depth}
use simple_rss_notifications.Payload.Runtime.{Runtime}
use simple_rss_notifications.Payload.Clip.{clip}
use simple_rss_notifications.Payload.Fields.{
  Priority, level, is_empty, or_else, first_str, safe_url, priority_of_text, parse_priority,
}
use simple_rss_notifications.Payload.Values.{parse_color, parse_tags}
use simple_rss_notifications.Payload.Raw.{build_raw, max_json_depth, try_parse_json}
use simple_rss_notifications.Payload.Normalize.Discord.{
  HookSource, discord, json, text, ntfy, NormalizedHook, Meta, max_title_chars, max_body_chars,
  join, is_discord, from_discord, or_priority,
}

pub record HookInput : Type 0 where
  pub body : Text
  pub content_type : Option Text
  pub header : Text → Option Text
  pub query : Text → Option Text
  pub feed_name : Text
  pub now : ℕ

-- One loop of `pick`: the first name with a value that is not blank.
unfoldable pub pick : (Text → Option Text) → List Text → Text
unfolding trim
pick get [] = []
pick get (n ∷ ns) = or_else (trim (get_or (get n) [])) (pick get ns)

unfoldable pub prio_of : HookInput → Text
unfolding pick
prio_of input =
    or_else (pick input.header (codes "priority" ∷ codes "x-priority" ∷ []))
      (pick input.query (codes "priority" ∷ codes "p" ∷ []))

unfoldable pub read_meta : Runtime → HookInput → Meta
unfolding pick prio_of parse_priority parse_tags
read_meta rt input =
    let title =
      or_else (pick input.header (codes "title" ∷ codes "x-title" ∷ []))
        (pick input.query (codes "title" ∷ [])) in
    let prio = prio_of input in
    let tags =
      or_else (pick input.header (codes "tags" ∷ codes "x-tags" ∷ []))
        (pick input.query (codes "tags" ∷ [])) in
    let click =
      or_else (pick input.header (codes "click" ∷ codes "x-click" ∷ []))
        (pick input.query (codes "click" ∷ [])) in
    record {
      title = title;
      priority = parse_priority rt (some (string prio));
      tags = parse_tags rt (some (string tags));
      click = click;
      present =
          not (is_empty title)
          || not (is_empty prio)
          || not (is_empty tags)
          || not (is_empty click);
    }

abbrev pub generic_keys : List Text
generic_keys =
    codes "title"
    ∷ codes "subject"
    ∷ codes "message"
    ∷ codes "body"
    ∷ codes "text"
    ∷ codes "description"
    ∷ codes "url"
    ∷ codes "link"
    ∷ codes "click"
    ∷ codes "priority"
    ∷ codes "tags"
    ∷ codes "color"
    ∷ []

-- `k in o`
unfoldable pub has_member : Fields → Text → Bool
unfolding member
has_member o k = elim (member k o) [ none ↦ false | some v ↦ true ]

-- The body with the line of tags behind it.
abbrev pub with_tags : Text → List Text → Text
with_tags body [] = body
with_tags body (t ∷ ts) =
    (if is_empty body then body else body ++ codes "\n\n")
    ++ codes "Tags: "
    ++ join (codes ", ") (t ∷ ts)

abbrev tags_of : Runtime → Fields → Meta → List Text
unfolding parse_tags member
tags_of rt o meta = elim (member (codes "tags") o) [
  | none ↦ meta.tags
  | some v ↦ parse_tags rt (some v)
]

unfoldable pub from_generic : Runtime → HookInput → Meta → Fields → NormalizedHook
unfolding first_str parse_tags clip safe_url parse_priority or_priority parse_color build_raw member
    join
from_generic rt input meta o =
    let title = or_else (first_str rt o (codes "title" ∷ codes "subject" ∷ [])) meta.title in
    let body =
      with_tags
        (first_str rt o (codes "message" ∷ codes "body" ∷ codes "text" ∷ codes "description" ∷ []))
        (tags_of rt o meta) in
    record {
      title = clip (or_else title input.feed_name) max_title_chars;
      body = clip body max_body_chars;
      url =
          safe_url rt
            (or_else (first_str rt o (codes "url" ∷ codes "link" ∷ codes "click" ∷ [])) meta.click);
      priority =
          get_or (or_priority (parse_priority rt (member (codes "priority") o)) meta.priority)
            (level 3);
      color = parse_color rt (member (codes "color") o);
      source = json;
      published_at = none;
      raw = build_raw rt (some (object o)) input.body;
      empty = is_empty title && is_empty body;
    }

-- Valid JSON of another shape.
unfoldable pub from_other_json : Runtime → HookInput → Meta → Json → NormalizedHook
unfolding clip safe_url build_raw trim exceeds_depth
from_other_json rt input meta v =
    let pretty =
      if exceeds_depth max_json_depth v then trim input.body else rt.stringify_pretty v in
    record {
      title = clip (or_else meta.title input.feed_name) max_title_chars;
      body = clip pretty max_body_chars;
      url = safe_url rt meta.click;
      priority = get_or meta.priority (level 3);
      color = none;
      source = json;
      published_at = none;
      raw = build_raw rt (some v) input.body;
      empty = false;
    }

unfoldable pub from_text : Runtime → HookInput → Meta → NormalizedHook
unfolding clip safe_url build_raw trim join
from_text rt input meta =
    let body = with_tags (trim input.body) meta.tags in
    record {
      title = clip (or_else meta.title input.feed_name) max_title_chars;
      body = clip body max_body_chars;
      url = safe_url rt meta.click;
      priority = get_or meta.priority (level 3);
      color = none;
      source = if meta.present then ntfy else text;
      published_at = none;
      raw = build_raw rt none input.body;
      empty = is_empty body && is_empty meta.title;
    }

unfoldable pub normalize_parsed : Runtime → HookInput → Meta → Option Json → NormalizedHook
unfolding from_discord is_discord from_generic from_other_json from_text has_member
normalize_parsed rt input meta none = from_text rt input meta
normalize_parsed rt input meta (some (object o)) =
    if is_discord o
    then from_discord rt o meta input.feed_name input.body input.now
    else if any (has_member o) generic_keys
    then from_generic rt input meta o
    else from_other_json rt input meta (object o)
normalize_parsed rt input meta (some v) = from_other_json rt input meta v

unfoldable pub normalize_hook : Runtime → HookInput → NormalizedHook
unfolding normalize_parsed read_meta try_parse_json
normalize_hook rt input =
    normalize_parsed rt input (read_meta rt input)
      (try_parse_json rt input.body (get_or input.content_type []))
