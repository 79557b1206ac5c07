-- ===== src/System/Tests.antt =====
-- The steps of the system at concrete inputs: a webhook feed with one route, and an item for it.
use simple_rss_notifications.Base.{
  ℕ, ◌≡◌, refl, true, false, none, some, [], ◌∷◌, All, arith, length, select,
}
use simple_rss_notifications.Base.Strings.{codes}
use simple_rss_notifications.Db.{
  User, WebSession, Database, Feed, webhook, backfill_none, backfill_done, SinkNtfy, Sinks,
}
use simple_rss_notifications.Db.Consistent.{IsConsistent}
use simple_rss_notifications.Auth.{Session, live, check_session_live}
use simple_rss_notifications.Dispatch.{ClaimedJob, is_picked, picked}
use simple_rss_notifications.Dispatch.Rows.{SendResult}
use simple_rss_notifications.Dispatch.Effects.{IsQuiet}
use simple_rss_notifications.Dispatch.Deliver.{Env, returned}
use simple_rss_notifications.Dispatch.Batch.{dispatch_pending}
use simple_rss_notifications.Payload.Json.{null}
use simple_rss_notifications.Payload.Fields.{level}
use simple_rss_notifications.Payload.Normalize.Discord.{NormalizedHook, text}
use simple_rss_notifications.Payload.Ingest.{Stamps, webhook_item, with_item, ingest_item}
use simple_rss_notifications.Feeds.{FeedEnv}
use simple_rss_notifications.Feeds.Routes.{ntfy}
use simple_rss_notifications.System.Requests.{UserRequest, feed_post, route_post, perform}
use simple_rss_notifications.System.Reach.{
  Reach, start, then_step, requested, ingested, no_feeds, Reach-IsConsistent, Reach-IsQuiet,
}

abbrev phone : SinkNtfy
phone = record { id = 1; user_id = 1; include_link = true }

abbrev sinks : Sinks
sinks = record {
  sinks_smtp = [];
  sinks_resend = [];
  sinks_ntfy = phone ∷ [];
  sinks_discord_webhook = [];
}

abbrev feed_env : FeedEnv
feed_env = record {
  feed_id = 1;
  token_hash = codes "hash";
  is_url = λ u. true;
  is_unsafe = λ u. false;
}

abbrev hook_feed : UserRequest
hook_feed = feed_post feed_env (
    some (record {
      kind = webhook;
      label = codes "builds";
      url = none;
      poll_interval_s = 900;
      enabled = true;
      backfill_mode = backfill_none;
      backfill_value = 0;
      backfill_pace_seconds = 0;
    }))

abbrev position : ℕ → ℕ
position i = i

abbrev hook_route : UserRequest
hook_route = route_post 1 position (
    some (record {
      feed_id = 1;
      enabled = true;
      destinations =
          record { sink_type = ntfy; sink_id = 1; destination = none; enabled = true } ∷ [];
    }))

abbrev ann : User
ann = record {
  id = 1;
  username = codes "ann";
  password_hash = codes "h";
  is_admin = false;
  must_change_password = false;
  password_changed_at = 1000;
}

abbrev signed_in : WebSession
signed_in = record { jti = 9; user_id = 1; revoked_at = none; expires_at = 900_000 }

abbrev session : Session
session = record { jti = 9; uid = 1; username = codes "ann"; iat = 5; elevated_until = none }

abbrev empty_tables : Database
empty_tables = no_feeds (ann ∷ []) (signed_in ∷ []) sinks

hooked : Database
hooked = perform 1 hook_feed empty_tables

routed : Database
unfolding hooked
routed = perform 1 hook_route hooked

is_live : check_session_live 6000 empty_tables session ≡ live
unfolding check_session_live no_feeds
is_live = refl

is_live_still : check_session_live 6000 hooked session ≡ live
unfolding hooked check_session_live no_feeds perform
is_live_still = refl

routed-Reach : Reach routed
unfolding routed hooked
routed-Reach =
    then_step hooked routed
      (then_step empty_tables hooked (start (ann ∷ []) (signed_in ∷ []) sinks)
        (requested 6000 session hook_feed empty_tables is_live))
      (requested 6000 session hook_route hooked is_live_still)

Reach-IsConsistent_example : IsConsistent routed
Reach-IsConsistent_example = Reach-IsConsistent routed routed-Reach

abbrev stamps : Stamps
stamps = record {
  now = 5000;
  draw = record { item_id = λ g. 1; dispatch_id = λ d i. 1 };
  guid = codes "guid";
  timestamptz = λ t. 0;
}

abbrev hello : NormalizedHook
hello = record {
  title = codes "builds";
  body = codes "hello";
  url = none;
  priority = level 3;
  color = none;
  source = text;
  published_at = none;
  raw = null;
  empty = false;
}

abbrev feed : Feed
feed = record {
  id = 1;
  user_id = 1;
  label = codes "builds";
  kind = webhook;
  url = none;
  token_hash = some (codes "hash");
  enabled = true;
  poll_interval_s = 900;
  etag = none;
  last_modified = none;
  last_polled_at = none;
  last_success_at = none;
  last_error = none;
  last_error_at = none;
  consecutive_failures = 0;
  backfill_mode = backfill_done;
  backfill_value = 0;
  backfill_pace_seconds = 0;
}

delivered : Database
delivered = with_item stamps feed (webhook_item stamps feed hello) routed

delivered-Reach : Reach delivered
unfolding routed hooked delivered ingest_item perform no_feeds
delivered-Reach =
    then_step routed delivered routed-Reach (ingested stamps feed hello routed delivered refl refl)

one_dispatch : length delivered.dispatches ≡ 1
unfolding routed hooked delivered ingest_item perform no_feeds select
one_dispatch = refl

abbrev accepted : SendResult
accepted = record {
  ok = true;
  provider_message_id = none;
  error = none;
  code = none;
  retry_after_sec = none;
}

abbrev env : ClaimedJob → Env
env job = record {
  now = 6000;
  feed_item_body = λ _. returned ([], []);
  ntfy_body = λ _. returned [];
  send = λ _. returned accepted;
  write_ok = true;
  write_error = [];
  rescue_ok = true;
}

Reach-IsQuiet_example :
    All
      (λ d. is_picked (picked 6000 delivered.dispatches) d ≡ true → IsQuiet 6000 d)
      (dispatch_pending env 6000 delivered).1.dispatches
Reach-IsQuiet_example =
    Reach-IsQuiet env 6000 delivered delivered-Reach (λ _. omega arith) (λ _. refl)
