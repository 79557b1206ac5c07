-- ===== src/Poller/Persist.antt =====
-- web/src/worker/rssPoller.ts: the transaction of `pollFeed`, and `selectBackfillItems`. The
-- notification of listeners is left out.
use mathlib.Core.List.{reverse}
use simple_rss_notifications.Base.{
  ℕ, ◌+◌, ◌*◌, Bool, true, false, ◌&&◌, Option, none, some, List, [], ◌∷◌, ◌++◌, Text, leb, ◌==◌,
  if◌then◌else◌, any, take, get_or, select, update, order_by,
}
use simple_rss_notifications.Base.Strings.{text_eq}
use simple_rss_notifications.Db.{
  Database, Feed, FeedItem, Route, RouteDestination, Dispatch, pending, backfill_none,
  backfill_count, backfill_days, backfill_done,
}

pub record ParsedItem : Type 0 where
  pub guid : Text
  pub link : Option Text
  pub title : Option Text
  pub summary : Option Text
  pub published_at : Option ℕ

-- The uuids that the database draws: for the item of a guid, and for the dispatch of a destination
-- and an item.
pub record Draw : Type 0 where
  pub item_id : Text → ℕ
  pub dispatch_id : ℕ → ℕ → ℕ

abbrev pub is_item : ℕ → Text → FeedItem → Bool
is_item feed_id guid i = i.feed_id == feed_id && text_eq i.guid guid

-- The row that is inserted for an item.
abbrev pub item_row : Draw → ℕ → ParsedItem → FeedItem
item_row draw feed_id it = record {
  id = draw.item_id it.guid;
  feed_id = feed_id;
  guid = it.guid;
  link = it.link;
  title = it.title;
  summary = elim it.summary [ none ↦ none | some s ↦ some (take 200_000 s) ];
  published_at = it.published_at;
}

-- `INSERT … ON CONFLICT (feed_id, guid) DO NOTHING RETURNING`: the new rows, and the table.
unfoldable pub insert_items :
    Draw → ℕ → List ParsedItem → List FeedItem → List FeedItem × List FeedItem
insert_items draw feed_id [] table = ([], table)
insert_items draw feed_id (it ∷ its) table =
    let row = item_row draw feed_id it in
    let skipped = insert_items draw feed_id its table in
    let kept = insert_items draw feed_id its (table ++ row ∷ []) in
    if any (is_item feed_id it.guid) table then skipped else (row ∷ kept.0, kept.1)

-- An item without a date counts as the oldest.
abbrev pub published_key : FeedItem → ℕ
published_key i = get_or i.published_at 0

-- `published_at >= now - days`
abbrev pub is_recent : ℕ → ℕ → FeedItem → Bool
is_recent now days i = elim i.published_at [
  | none ↦ false
  | some t ↦ leb now (t + days * 24 * 60 * 60 * 1000)
]

-- `selectBackfillItems`; sorting newest first is a stable descending sort.
unfoldable pub select_backfill_items : ℕ → Feed → List FeedItem → List FeedItem
select_backfill_items now feed new_items = elim feed.backfill_mode [
  | backfill_none ↦ []
  | backfill_count ↦ take feed.backfill_value (reverse (order_by published_key (reverse new_items)))
  | backfill_days ↦ select (is_recent now feed.backfill_value) new_items
  | backfill_done ↦ new_items
]

abbrev pub is_first_poll : Feed → Bool
is_first_poll f = elim f.backfill_mode [
  | backfill_none ↦ true
  | backfill_count ↦ true
  | backfill_days ↦ true
  | backfill_done ↦ false
]

abbrev pub is_open_destination : ℕ → RouteDestination → Bool
is_open_destination route_id rd = rd.route_id == route_id && rd.enabled

-- The join of the feed's enabled routes with their enabled destinations.
unfoldable pub open_destinations : ℕ → List RouteDestination → List Route → List RouteDestination
open_destinations feed_id rds [] = []
open_destinations feed_id rds (r ∷ rs) =
    let rest = open_destinations feed_id rds rs in
    if r.feed_id == feed_id && r.enabled
    then select (is_open_destination r.id) rds ++ rest
    else rest

abbrev pub is_dispatch : ℕ → ℕ → Dispatch → Bool
is_dispatch rd_id item_id d = d.route_destination_id == rd_id && d.feed_item_id == item_id

abbrev pub new_dispatch : ℕ → Draw → ℕ → ℕ → RouteDestination → FeedItem → Dispatch
new_dispatch now draw user_id offset_sec rd item = record {
  id = draw.dispatch_id rd.id item.id;
  route_destination_id = rd.id;
  route_id = rd.route_id;
  feed_item_id = item.id;
  user_id = user_id;
  status = pending;
  attempts = 0;
  scheduled_at = now + offset_sec * 1000;
  dispatched_at = none;
  error = none;
  provider_message_id = none;
  created_at = now;
}

-- `ON CONFLICT (route_destination_id, feed_item_id) DO NOTHING`
unfoldable pub add_dispatch : Dispatch → List Dispatch → List Dispatch
add_dispatch d ds =
    if any (is_dispatch d.route_destination_id d.feed_item_id) ds then ds else ds ++ d ∷ []

unfoldable pub fan_item :
    ℕ → Draw → ℕ → ℕ → FeedItem → List RouteDestination → List Dispatch → List Dispatch
unfolding add_dispatch
fan_item now draw user_id offset_sec item [] ds = ds
fan_item now draw user_id offset_sec item (rd ∷ rds) ds =
    fan_item now draw user_id offset_sec item rds
      (add_dispatch (new_dispatch now draw user_id offset_sec rd item) ds)

-- The items from the `idx`-th on, each `pace` seconds behind the one before it.
unfoldable pub fan_out :
    ℕ
    → Draw
    → ℕ
    → (pace idx : ℕ) → List FeedItem
    → List RouteDestination
    → List Dispatch
    → List Dispatch
unfolding fan_item
fan_out now draw user_id pace idx [] rds ds = ds
fan_out now draw user_id pace idx (i ∷ is) rds ds =
    fan_out now draw user_id pace (idx + 1) is rds (fan_item now draw user_id (pace * idx) i rds ds)

abbrev pub polled_feed : ℕ → (etag last_modified : Option Text) → Feed → Feed
polled_feed now etag last_modified f = record f {
  last_polled_at = some now;
  last_success_at = some now;
  last_error = none;
  last_error_at = none;
  consecutive_failures = 0;
  etag = etag;
  last_modified = last_modified;
  backfill_mode = backfill_done;
}

-- The transaction.
unfoldable pub persist :
    ℕ → Draw → Feed → List ParsedItem → (etag last_modified : Option Text) → Database → Database
unfolding insert_items select_backfill_items open_destinations fan_out
persist now draw feed items etag last_modified db =
    let (new_items, table) = insert_items draw feed.id items db.feed_items in
    let chosen =
      if is_first_poll feed then select_backfill_items now feed new_items else new_items in
    let pace : ℕ = if is_first_poll feed then feed.backfill_pace_seconds else 0 in
    record db {
      feed_items = table;
      dispatches =
          fan_out now draw feed.user_id pace 0 (order_by published_key chosen)
            (open_destinations feed.id db.route_destinations db.routes) db.dispatches;
      feeds = update (λ (f : Feed). f.id == feed.id) (polled_feed now etag last_modified) db.feeds;
    }
