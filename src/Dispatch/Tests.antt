-- ===== src/Dispatch/Tests.antt =====
-- The dispatcher at concrete inputs: two destinations, one of which answers with an error.
use simple_rss_notifications.Base.{
  ◌==◌, not, ℕ, ◌≡◌, ◌↔◌, ◌&&◌, map, any, refl, true, false, none, some, [], ◌∷◌, All, List, min,
  length, select, update, arith,
}
use simple_rss_notifications.Base.Strings.{codes}
use simple_rss_notifications.Db.{
  Database, is_failed, Dispatch, pending, sent, failed, Feed, rss, backfill_done, FeedItem,
  RouteDestination, SinkNtfy,
}
use simple_rss_notifications.Dispatch.{is_due, ClaimedJob, dispatch_batch_size, picked}
use simple_rss_notifications.Dispatch.Again.{
  is_sent as is_sent_row, is_queued, retried, retry_dispatch, retry_dispatch_lem,
}
use simple_rss_notifications.Dispatch.Rows.{SendResult}
use simple_rss_notifications.Dispatch.Deliver.{
  Env, returned, AnySink, ntfy_sink, deliver_one, send_job,
}
use simple_rss_notifications.Dispatch.Claims.{picked_oldest}
use simple_rss_notifications.Dispatch.Groups.{
  all_jobs, by_destination, by_destination-order, is_for, IsUniform, HasDistinctKeys,
}
use simple_rss_notifications.Dispatch.Effects.{
  IsSettled, effect, effect-sent, effect-IsSettled, deliver_one_comm,
}

abbrev feed : Feed
feed = record {
  id = 1;
  user_id = 1;
  label = codes "news";
  kind = rss;
  url = some (codes "https://example.com/feed");
  token_hash = none;
  enabled = true;
  poll_interval_s = 300;
  etag = none;
  last_modified = none;
  last_polled_at = none;
  last_success_at = none;
  last_error = none;
  last_error_at = none;
  consecutive_failures = 0;
  backfill_mode = backfill_done;
  backfill_value = 0;
  backfill_pace_seconds = 5;
}

abbrev item : FeedItem
item = record {
  id = 1;
  feed_id = 1;
  guid = codes "a";
  link = none;
  title = some (codes "hello");
  summary = none;
  published_at = none;
}

abbrev destination : ℕ → RouteDestination
destination i = record {
  id = i;
  route_id = 1;
  sink_type = codes "ntfy";
  sink_id = 1;
  destination = none;
  enabled = true;
}

abbrev dispatch : ℕ → ℕ → Dispatch
dispatch i dest = record {
  id = i;
  route_destination_id = dest;
  route_id = 1;
  feed_item_id = 1;
  user_id = 1;
  status = pending;
  attempts = 0;
  scheduled_at = 1000;
  dispatched_at = none;
  error = none;
  provider_message_id = none;
  created_at = 900;
}

abbrev ntfy : SinkNtfy
ntfy = record { id = 1; user_id = 1; include_link = true }

abbrev database : Database
database = record {
  users = [];
  web_sessions = [];
  feeds = feed ∷ [];
  feed_items = item ∷ [];
  routes = [];
  route_destinations = destination 1 ∷ destination 2 ∷ [];
  dispatches = dispatch 1 1 ∷ dispatch 2 2 ∷ dispatch 3 1 ∷ [];
  sinks = record {
    sinks_smtp = [];
    sinks_resend = [];
    sinks_ntfy = ntfy ∷ [];
    sinks_discord_webhook = [];
  };
}

abbrev accepted : SendResult
accepted = record {
  ok = true;
  provider_message_id = none;
  error = none;
  code = none;
  retry_after_sec = none;
}

abbrev limited : SendResult
limited = record {
  ok = false;
  provider_message_id = none;
  error = some (codes "too many");
  code = some (codes "ntfy-http-429");
  retry_after_sec = some 90;
}

abbrev env : SendResult → Env
env r = record {
  now = 5000;
  feed_item_body = λ _. returned ([], []);
  ntfy_body = λ _. returned [];
  send = λ _. returned r;
  write_ok = true;
  write_error = [];
  rescue_ok = true;
}

abbrev job : ℕ → ℕ → ClaimedJob
job i dest = record {
  dispatch_id = i;
  route_destination_id = dest;
  feed_item_id = 1;
  sink_type = codes "ntfy";
  sink_id = 1;
  destination = none;
  item_title = some (codes "hello");
  item_link = none;
  item_summary = none;
  item_published_at = none;
  feed_label = codes "news";
  attempts = 1;
}

picked_oldest_example :
    length (picked 4000 database.dispatches)
    ≡ min dispatch_batch_size (length (select (is_due 4000) database.dispatches))
picked_oldest_example = (picked_oldest 4000 database.dispatches).0

abbrev three_jobs : List ClaimedJob
three_jobs = job 1 1 ∷ job 2 2 ∷ job 3 1 ∷ []

by_destination-order_example :
    All IsUniform (by_destination three_jobs)
    × HasDistinctKeys (by_destination three_jobs)
    × ((k : ℕ)
        → select (is_for k) (all_jobs (by_destination three_jobs)) ≡ select (is_for k) three_jobs)
by_destination-order_example = by_destination-order three_jobs

effect-IsSettled_example :
    IsSettled 5000 (effect (env limited) (job 1 1) (some (ntfy_sink ntfy)) (dispatch 1 1))
effect-IsSettled_example =
    effect-IsSettled (env limited) (job 1 1) (some (ntfy_sink ntfy)) (dispatch 1 1) refl refl

is_sent : (effect (env accepted) (job 1 1) (some (ntfy_sink ntfy)) (dispatch 1 1)).status ≡ sent
unfolding effect deliver_one update
is_sent = refl

effect-sent_example :
    (s : AnySink) × (r : SendResult) × (some (ntfy_sink ntfy) ≡ some s)
    × (send_job (env accepted) (job 1 1) s ≡ some (returned r))
    × (r.ok ≡ true)
effect-sent_example =
    effect-sent (env accepted) (job 1 1) (some (ntfy_sink ntfy)) (dispatch 1 1) refl is_sent

deliver_one_comm_example :
    deliver_one
      (env accepted)
      (job 1 1)
      none
      (deliver_one (env limited) (job 2 2) (some (ntfy_sink ntfy)) database.dispatches)
    ≡ deliver_one
        (env limited)
        (job 2 2)
        (some (ntfy_sink ntfy))
        (deliver_one (env accepted) (job 1 1) none database.dispatches)
deliver_one_comm_example =
    deliver_one_comm (env accepted) (env limited) (job 1 1) (job 2 2) none (some (ntfy_sink ntfy))
      database.dispatches (λ h. omega (arith, h))

abbrev given_up : Dispatch
given_up = record (dispatch 4 1) { status = failed; attempts = 5 }

abbrev with_given_up : List Dispatch
with_given_up = given_up ∷ database.dispatches

retry_dispatch_lem_example :
    (map (λ d. d.id) (retry_dispatch 9000 1 4 with_given_up).1 ≡ map (λ d. d.id) with_given_up)
    × (select is_sent_row (retry_dispatch 9000 1 4 with_given_up).1
        ≡ select is_sent_row with_given_up)
    × (select (λ d. not (d.user_id == 1)) (retry_dispatch 9000 1 4 with_given_up).1
        ≡ select (λ d. not (d.user_id == 1)) with_given_up)
    × (((retry_dispatch 9000 1 4 with_given_up).0 ≡ retried)
        ↔ (any (λ d. d.user_id == 1 && d.id == 4 && is_failed d.status) with_given_up ≡ true))
    × ((retry_dispatch 9000 1 4 with_given_up).0 ≡ retried
        → All
            (λ d. (d.user_id == 1 && d.id == 4 && is_failed d.status) ≡ false)
            (retry_dispatch 9000 1 4 with_given_up).1
          × (any (is_queued 9000 1 4) (retry_dispatch 9000 1 4 with_given_up).1 ≡ true))
retry_dispatch_lem_example = retry_dispatch_lem 9000 1 4 with_given_up

is_retried : (retry_dispatch 9000 1 4 with_given_up).0 ≡ retried
unfolding retry_dispatch
is_retried = refl
