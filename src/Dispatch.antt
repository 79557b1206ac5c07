-- ===== src/Dispatch.antt =====
-- web/src/worker/dispatcher.ts: claiming due dispatches, sending them and recording what came of
-- it. The state is the database; what a provider answers, the clock, and whether a write reaches
-- the database are an environment, one for each job.
pub mod Rows
pub mod Deliver
pub mod Claims
pub mod Groups
pub mod Effects
pub mod Batch
pub mod Again
mod Tests
use simple_rss_notifications.Base.{
  ℕ, ◌+◌, ◌*◌, Bool, true, false, not, ◌&&◌, ◌||◌, Option, none, some, List, [], ◌∷◌, ◌++◌, map,
  Text, ltb, leb, ◌==◌, if◌then◌else◌, any, find, take, get_or, select, update, order_by, min, max,
  ◌^◌, ◌-◌,
}
use simple_rss_notifications.Base.Strings.{codes, text_eq}
use simple_rss_notifications.Retry.{backoff_sec, retry_delay_sec, is_permanent_failure}
use simple_rss_notifications.Db.{
  Database, Dispatch, Status, pending, sent, failed, skipped, is_pending, RouteDestination,
  FeedItem, Feed, Sinks, SinkSmtp, SinkResend, SinkNtfy, SinkDiscordWebhook,
}

abbrev pub max_attempts : ℕ
max_attempts = 5

abbrev pub dispatch_batch_size : ℕ
dispatch_batch_size = 5

-- A dispatch as `UPDATE … RETURNING` joined to its destination, item and feed gives it.
pub record ClaimedJob : Type 0 where
  pub dispatch_id : ℕ
  pub route_destination_id : ℕ
  pub feed_item_id : ℕ
  pub sink_type : Text
  pub sink_id : ℕ
  pub destination : Option Text
  pub item_title : Option Text
  pub item_link : Option Text
  pub item_summary : Option Text
  pub item_published_at : Option ℕ
  pub feed_label : Text
  pub attempts : ℕ

abbrev pub is_due : ℕ → Dispatch → Bool
is_due now d = is_pending d.status && leb d.scheduled_at now

-- The ids that the picker's `SELECT … ORDER BY scheduled_at LIMIT 5` returns.
unfoldable pub picked : ℕ → List Dispatch → List Dispatch
picked now ds = take dispatch_batch_size (order_by (λ d. d.scheduled_at) (select (is_due now) ds))

abbrev pub is_picked : List Dispatch → Dispatch → Bool
is_picked chosen d = any (λ (p : Dispatch). p.id == d.id) chosen

abbrev pub bump : ℕ → Dispatch → Dispatch
bump now d = record d { attempts = d.attempts + 1; dispatched_at = some now }

-- The three inner joins: a row that lacks a partner is dropped.
join_feed : Dispatch → RouteDestination → FeedItem → Option Feed → List ClaimedJob
join_feed b rd fi none = []
join_feed b rd fi (some f) =
    record {
      dispatch_id = b.id;
      route_destination_id = b.route_destination_id;
      feed_item_id = b.feed_item_id;
      sink_type = rd.sink_type;
      sink_id = rd.sink_id;
      destination = rd.destination;
      item_title = fi.title;
      item_link = fi.link;
      item_summary = fi.summary;
      item_published_at = fi.published_at;
      feed_label = f.label;
      attempts = b.attempts;
    }
    ∷ []

join_item : Database → Dispatch → RouteDestination → Option FeedItem → List ClaimedJob
unfolding join_feed
join_item db b rd none = []
join_item db b rd (some fi) = join_feed b rd fi (find (λ f. f.id == fi.feed_id) db.feeds)

join_destination : Database → Dispatch → Option RouteDestination → List ClaimedJob
unfolding join_item
join_destination db b none = []
join_destination db b (some rd) =
    join_item db b rd (find (λ fi. fi.id == b.feed_item_id) db.feed_items)

unfoldable pub joined : Database → Dispatch → List ClaimedJob
unfolding join_destination
joined db b =
    join_destination db b (find (λ rd. rd.id == b.route_destination_id) db.route_destinations)

unfoldable pub joined_all : Database → List Dispatch → List ClaimedJob
unfolding joined
joined_all db [] = []
joined_all db (b ∷ bs) = joined db b ++ joined_all db bs

-- The rows that the statement updates, as it returns them.
unfoldable pub bumped : ℕ → List Dispatch → List Dispatch
unfolding picked
bumped now ds = map (bump now) (select (is_picked (picked now ds)) ds)

-- The whole claim statement: the jobs in delivery order, and the database with the rows bumped.
unfoldable pub claim : ℕ → Database → List ClaimedJob × Database
unfolding bumped joined_all
claim now db = (
  joined_all db
      (order_by (λ b. b.scheduled_at) (order_by (λ b. b.created_at) (bumped now db.dispatches))),
  record db { dispatches = update (is_picked (picked now db.dispatches)) (bump now) db.dispatches },
)
