-- ===== src/Payload/Tests.antt =====
-- Webhook payloads at concrete inputs: a Discord message with an embed.
use simple_rss_notifications.Base.{
  ℕ, ◌≡◌, refl, true, false, Option, delete, select, none, some, [], ◌∷◌, Text, ltb, length, arith,
  if◌then◌else◌,
}
use simple_rss_notifications.Base.Strings.{codes}
use simple_rss_notifications.Base.Integers.{pos}
use simple_rss_notifications.Payload.Json.{
  Json, finite, string, number, array, object, nil, cons, end, field, depth, size,
}
use simple_rss_notifications.Payload.Json.Depth.{depth_loop, depth_loop_total}
use simple_rss_notifications.Payload.Runtime.{Runtime}
use simple_rss_notifications.Payload.Fields.Bounds.{IsLevel}
use simple_rss_notifications.Payload.Values.{text_to_html}
use simple_rss_notifications.Payload.Values.Html.{html_pass, text_to_html-html_pass}
use simple_rss_notifications.Payload.Normalize.{HookInput, normalize_hook}
use simple_rss_notifications.Payload.Normalize.Bounds.{IsBounded, normalize_hook-IsBounded}
use simple_rss_notifications.Payload.Normalize.Emptiness.{normalize_hook_empty}
use simple_rss_notifications.Payload.Normalize.Priorities.{asks_inherited, normalize_hook-IsLevel}
use simple_rss_notifications.Payload.Body.{
  body_text, body_too_large, concat, declares_over, read_body_limited, read_body_limited_result,
}
use simple_rss_notifications.Db.{Database, Feed, webhook, backfill_done}
use simple_rss_notifications.Hooks.Limiter.{Limiter, hit}
use simple_rss_notifications.Hooks.Handler.{Limiters, Response}
use simple_rss_notifications.Hooks.Handler.Stored.{is_stored}
use simple_rss_notifications.Payload.Ingest.{Stamps, find_webhook_feed}
use simple_rss_notifications.Payload.Serve.{Upload, IsStoredAs, serve_hook, serve_hook-IsStoredAs}

abbrev message : Json
message = object (
    field (codes "content") (string (codes "hello")) (
      field (codes "embeds")
        (array (
          cons
            (object (
              field (codes "title") (string (codes "news"))
                (field (codes "color") (number (finite false 255 0)) end)))
            nil))
        end))

-- A runtime that reads one payload.
abbrev runtime : Runtime
runtime = record {
  read_number = λ s. finite false 4 0;
  show_number = λ n. codes "4";
  parse_json = λ s. some message;
  stringify = λ v. codes "{}";
  stringify_pretty = λ v. codes "{}";
  parse_url = λ s. none;
  parse_time = λ s. some (pos 1000);
  utc_year = λ t. pos 1970;
  decode_utf8 = λ bytes. bytes;
}

abbrev no_value : Text → Option Text
no_value name = none

abbrev request : HookInput
request = record {
  body = codes "{}";
  content_type = some (codes "application/json");
  header = no_value;
  query = no_value;
  feed_name = codes "builds";
  now = 5000;
}

abbrev blank_request : HookInput
blank_request = record request { body = codes " "; content_type = none }

depth_loop_total_example : depth_loop 10 32 ((message, 1) ∷ []) ≡ some (ltb 32 (depth message))
unfolding size
depth_loop_total_example = depth_loop_total 10 32 message (omega arith)

text_to_html-html_pass_example : text_to_html (codes "a<b\n") ≡ html_pass false (codes "a<b\n")
text_to_html-html_pass_example = text_to_html-html_pass (codes "a<b\n")

normalize_hook-IsBounded_example : IsBounded runtime 5000 (normalize_hook runtime request)
normalize_hook-IsBounded_example = normalize_hook-IsBounded runtime request

asks_nothing : asks_inherited runtime request ≡ false
unfolding asks_inherited
asks_nothing = refl

normalize_hook-IsLevel_example : IsLevel (some (normalize_hook runtime request).priority)
normalize_hook-IsLevel_example = normalize_hook-IsLevel runtime request asks_nothing

is_blank : (normalize_hook runtime blank_request).empty ≡ true
unfolding normalize_hook select
is_blank = refl

normalize_hook_empty_example : (normalize_hook runtime blank_request).body ≡ []
normalize_hook_empty_example = (normalize_hook_empty runtime blank_request is_blank).1

declares_little : declares_over (finite false 2 0) 3 ≡ false
unfolding declares_over
declares_little = refl

read_body_limited_result_example :
    read_body_limited runtime 3 (finite false 2 0) (some (codes "ab" ∷ codes "cd" ∷ [])) ≡ (
      if ltb 3 (length (concat (codes "ab" ∷ codes "cd" ∷ [])))
      then body_too_large
      else body_text (concat (codes "ab" ∷ codes "cd" ∷ [])))
read_body_limited_result_example =
    read_body_limited_result runtime 3 (finite false 2 0) (codes "ab" ∷ codes "cd" ∷ [])
      declares_little

abbrev feed : Feed
feed = record {
  id = 1;
  user_id = 1;
  label = codes "builds";
  kind = webhook;
  url = none;
  token_hash = some (codes "hash");
  enabled = true;
  poll_interval_s = 900;
  etag = none;
  last_modified = none;
  last_polled_at = none;
  last_success_at = none;
  last_error = none;
  last_error_at = none;
  consecutive_failures = 0;
  backfill_mode = backfill_done;
  backfill_value = 0;
  backfill_pace_seconds = 0;
}

abbrev database : Database
database = record {
  users = [];
  web_sessions = [];
  feeds = feed ∷ [];
  feed_items = [];
  routes = [];
  route_destinations = [];
  dispatches = [];
  sinks = record {
    sinks_smtp = [];
    sinks_resend = [];
    sinks_ntfy = [];
    sinks_discord_webhook = [];
  };
}

abbrev upload : Upload
upload = record {
  declared = finite false 5 0;
  chunks = some (codes "hello" ∷ []);
  content_type = none;
  header = no_value;
  query = no_value;
  arrived = 4990;
  normalised_at = 5001;
}

abbrev roomy : Limiter
roomy = record { max_keys = 10; buckets = [] }

abbrev limiters : Limiters
limiters = record { untrusted = roomy; trusted = roomy; lookups = roomy }

abbrev stamps : Stamps
stamps = record {
  now = 5000;
  draw = record { item_id = λ g. 1; dispatch_id = λ d i. 1 };
  guid = codes "guid";
  timestamptz = λ t. 0;
}

abbrev hash_token : Text → Text
hash_token t = codes "hash"

abbrev uuid_text : ℕ → Text
uuid_text i = codes "1"

served : Response × Limiters × Database
served =
    serve_hook runtime hash_token uuid_text stamps 5001 (codes "10.0.0.1")
      (codes "0123456789abcdef0123456789abcdef") upload limiters database

served_stored : is_stored served.0 ≡ true
unfolding served serve_hook hit delete
served_stored = refl

serve_hook-IsStoredAs_example :
    IsStoredAs runtime stamps upload database
      (find_webhook_feed hash_token (codes "0123456789abcdef0123456789abcdef") database)
      served.2
unfolding served
serve_hook-IsStoredAs_example =
    serve_hook-IsStoredAs runtime hash_token uuid_text stamps 5001 (codes "10.0.0.1")
      (codes "0123456789abcdef0123456789abcdef") upload limiters database served_stored
