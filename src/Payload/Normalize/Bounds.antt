-- ===== src/Payload/Normalize/Bounds.antt =====
-- normalize.ts, `normalizeHook`: the ranges of every field of the result.
use simple_rss_notifications.Base.{ℕ, ◌≤◌, false, none, some, [], Text, length, arith, get_or}
use simple_rss_notifications.Payload.Json.{Json, Fields, object, depth}
use simple_rss_notifications.Payload.Runtime.{Runtime}
use simple_rss_notifications.Payload.Clip.{clip, IsWellFormedAfter}
use simple_rss_notifications.Payload.Clip.Laws.{clip-IsClipped}
use simple_rss_notifications.Payload.Fields.Bounds.{IsWebUrl, safe_url-IsWebUrl}
use simple_rss_notifications.Payload.Values.Date.{IsNotFuture, parse_date-IsNotFuture}
use simple_rss_notifications.Payload.Values.Color.{IsColor, parse_color-IsColor}
use simple_rss_notifications.Payload.Raw.{max_json_depth, try_parse_json}
use simple_rss_notifications.Payload.Raw.Safe.{
  IsStorable, build_raw-IsStorable, IsShort, build_raw-IsShort,
}
use simple_rss_notifications.Payload.Normalize.Discord.{
  NormalizedHook, Meta, max_title_chars, max_body_chars, from_discord,
}
use simple_rss_notifications.Payload.Normalize.Cases.{normalize_parsed_holds}
use simple_rss_notifications.Payload.Normalize.{
  HookInput, read_meta, from_generic, from_other_json, from_text, normalize_hook,
}

-- At most so long, and well formed.
abbrev IsClipped : ℕ → Text → Type 0
IsClipped n s = (length s ≤ n) × IsWellFormedAfter false s

pub IsBounded : Runtime → ℕ → NormalizedHook → Type 0
IsBounded rt now n =
    IsClipped max_title_chars n.title
    × IsClipped max_body_chars n.body
    × IsWebUrl rt n.url
    × IsColor n.color
    × IsNotFuture now n.published_at
    × (IsStorable n.raw × depth n.raw ≤ max_json_depth)
    × IsShort rt n.raw

title-IsClipped : (s : Text) → IsClipped max_title_chars (clip s max_title_chars)
title-IsClipped s = clip-IsClipped s max_title_chars (ground arith)

body-IsClipped : (s : Text) → IsClipped max_body_chars (clip s max_body_chars)
body-IsClipped s = clip-IsClipped s max_body_chars (ground arith)

from_discord-IsBounded :
    (rt : Runtime) (o : Fields) (meta : Meta) (feed_name raw_body : Text) (now : ℕ)
    → IsBounded rt now (from_discord rt o meta feed_name raw_body now)
unfolding from_discord IsBounded
from_discord-IsBounded rt o meta feed_name raw_body now = (
  search title-IsClipped,
  search body-IsClipped,
  search safe_url-IsWebUrl,
  search parse_color-IsColor,
  search parse_date-IsNotFuture,
  build_raw-IsStorable rt (some (object o)) raw_body,
  build_raw-IsShort rt (some (object o)) raw_body,
)

from_generic-IsBounded :
    (rt : Runtime) (input : HookInput) (meta : Meta) (o : Fields)
    → IsBounded rt input.now (from_generic rt input meta o)
unfolding from_generic IsBounded IsNotFuture
from_generic-IsBounded rt input meta o = (
  search title-IsClipped,
  search body-IsClipped,
  search safe_url-IsWebUrl,
  search parse_color-IsColor,
  tt,
  build_raw-IsStorable rt (some (object o)) input.body,
  build_raw-IsShort rt (some (object o)) input.body,
)

from_other_json-IsBounded :
    (rt : Runtime) (input : HookInput) (meta : Meta) (v : Json)
    → IsBounded rt input.now (from_other_json rt input meta v)
unfolding from_other_json IsBounded IsNotFuture IsColor
from_other_json-IsBounded rt input meta v = (
  search title-IsClipped,
  search body-IsClipped,
  search safe_url-IsWebUrl,
  tt,
  tt,
  build_raw-IsStorable rt (some v) input.body,
  build_raw-IsShort rt (some v) input.body,
)

from_text-IsBounded :
    (rt : Runtime) (input : HookInput) (meta : Meta)
    → IsBounded rt input.now (from_text rt input meta)
unfolding from_text IsBounded IsNotFuture IsColor
from_text-IsBounded rt input meta = (
  search title-IsClipped,
  search body-IsClipped,
  search safe_url-IsWebUrl,
  tt,
  tt,
  build_raw-IsStorable rt none input.body,
  build_raw-IsShort rt none input.body,
)

-- Whatever a sender posts, the item it becomes has a title of at most 250 units and a body of at most
-- 20,000, both well formed, a link that is absent or an HTTP(S) URL of at most 2048 units, a colour
-- that is absent or `#rrggbb`, a date that is absent or at most five minutes ahead of the clock, and
-- a raw payload that nests at most 32 deep with only well-formed strings and keys, and that prints in
-- at most 32,000 units or is a constant object but for one text of at most 32,000.
pub normalize_hook-IsBounded :
    (rt : Runtime) (input : HookInput) → IsBounded rt input.now (normalize_hook rt input)
unfolding normalize_hook
normalize_hook-IsBounded rt input =
    normalize_parsed_holds (IsBounded rt input.now) rt input (read_meta rt input)
      (try_parse_json rt input.body (get_or input.content_type []))
      (from_text-IsBounded rt input (read_meta rt input))
      (λ o e. from_discord-IsBounded rt o (read_meta rt input) input.feed_name input.body input.now)
      (λ o e. from_generic-IsBounded rt input (read_meta rt input) o)
      (λ w e. from_other_json-IsBounded rt input (read_meta rt input) w)
