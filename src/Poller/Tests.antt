-- ===== src/Poller/Tests.antt =====
-- The poller at concrete inputs: a first poll that sends the freshest item only.
use simple_rss_notifications.Base.{
  ℕ, ◌+◌, ◌*◌, ◌≤◌, ◌≡◌, refl, true, false, none, some, List, [], ◌∷◌, Text, All, map, length,
  select, update, order_by,
}
use simple_rss_notifications.Base.Strings.{codes}
use simple_rss_notifications.Db.{Database, Feed, rss, backfill_count, RouteDestination, Dispatch}
use simple_rss_notifications.Poller.{Env, FetchOutcome, fetch_threw, is_due, has_feed_id, poll_one}
use simple_rss_notifications.Poller.Persist.{ParsedItem, Draw, persist}
use simple_rss_notifications.Poller.Dedupe.{persist-again}
use simple_rss_notifications.Poller.Progress.{poll_one-not_due}

abbrev feed : Feed
feed = record {
  id = 1;
  user_id = 1;
  label = codes "news";
  kind = rss;
  url = some (codes "https://example.com/feed");
  token_hash = none;
  enabled = true;
  poll_interval_s = 300;
  etag = none;
  last_modified = none;
  last_polled_at = none;
  last_success_at = none;
  last_error = none;
  last_error_at = none;
  consecutive_failures = 0;
  backfill_mode = backfill_count;
  backfill_value = 1;
  backfill_pace_seconds = 5;
}

abbrev destination : RouteDestination
destination = record {
  id = 1;
  route_id = 1;
  sink_type = codes "ntfy";
  sink_id = 1;
  destination = none;
  enabled = true;
}

abbrev database : Database
database = record {
  users = [];
  web_sessions = [];
  feeds = feed ∷ [];
  feed_items = [];
  routes = record { id = 1; user_id = 1; feed_id = 1; enabled = true } ∷ [];
  route_destinations = destination ∷ [];
  dispatches = [];
  sinks = record {
    sinks_smtp = [];
    sinks_resend = [];
    sinks_ntfy = [];
    sinks_discord_webhook = [];
  };
}

abbrev item : Text → ℕ → ParsedItem
item guid at = record {
  guid = guid;
  link = none;
  title = none;
  summary = none;
  published_at = some at;
}

abbrev items : List ParsedItem
items = item (codes "a") 100 ∷ item (codes "b") 200 ∷ item (codes "a") 100 ∷ []

abbrev draw : Draw
draw = record { item_id = λ guid. length guid + 10; dispatch_id = λ rd i. rd + i }

abbrev env : FetchOutcome → Env
env o = record {
  now = 5000;
  outcome = o;
  parsed = λ _. items;
  parse_error = λ _. none;
  draw = draw;
  persist_error = none;
  write_error = none;
  rescue_ok = true;
}

persist-again_example :
    ((persist 9000 draw feed items none none
        (persist 5000 draw feed items none none database)).feed_items
      ≡ (persist 5000 draw feed items none none database).feed_items)
    × ((persist 9000 draw feed items none none
          (persist 5000 draw feed items none none database)).dispatches
        ≡ (persist 5000 draw feed items none none database).dispatches)
persist-again_example =
    persist-again 5000 9000 draw draw feed feed items none none none none database refl

poll_one-not_due_example :
    All
      (λ (f : Feed).
        has_feed_id 1 f ≡ true → (t : ℕ) → t ≤ 5000 + f.poll_interval_s * 1000 → is_due t f ≡ false)
      (poll_one (λ _. env (fetch_threw [])) feed database).feeds
poll_one-not_due_example = poll_one-not_due (λ _. env (fetch_threw [])) feed database refl

-- Two of the three items are new, and the fresher one is dispatched.
first_poll_runs :
    (length (persist 5000 draw feed items none none database).feed_items ≡ 2)
    × (map
          (λ (d : Dispatch). d.scheduled_at)
          (persist 5000 draw feed items none none database).dispatches
        ≡ 5000 ∷ [])
unfolding persist order_by select update
first_poll_runs = (refl, refl)
