-- ===== src/System/Polls.antt =====
-- web/src/worker/rssPoller.ts: the foreign keys after a poll.
use simple_rss_notifications.Base.{
  ℕ, ◌≡◌, refl, Bool, true, Option, List, [], ◌∷◌, ◌++◌, Text, ◌==◌, ==_refl, All, All-imp,
  All-update, All-append, All-order_by, any, any-append, update, arith, if◌then◌else◌, if_holds,
  order_by, ◌∙◌,
}
use simple_rss_notifications.Db.{Database, Feed, FeedItem, Route, Dispatch}
use simple_rss_notifications.Db.Consistent.{
  DispatchIsKeyed, ItemIsKeyed, IsConsistent, FeedIsKeyed, RouteIsKeyed, has_row, has_row-has_feed,
  has_row-has_user, has_feed, has_item, any-update, any-left,
}
use simple_rss_notifications.Poller.Persist.{
  ParsedItem, Draw, is_item, item_row, insert_items, select_backfill_items, open_destinations,
  is_first_poll, polled_feed, published_key, fan_out, persist,
}
use simple_rss_notifications.System.Fanned.{
  open_destinations-IsOpen, fan_out-Keyed, All-select_backfill_items,
}

-- A table with more items.
abbrev Covers : List FeedItem → List FeedItem → Type 0
Covers table table' = (i : ℕ) → has_item i table ≡ true → has_item i table' ≡ true

insert_items-Covers :
    (draw : Draw) (feed_id : ℕ) (its : List ParsedItem) (table : List FeedItem)
    → Covers table (insert_items draw feed_id its table).1
unfolding insert_items
insert_items-Covers draw feed_id [] table i h = h
insert_items-Covers draw feed_id (it ∷ its) table i h =
    let row = item_row draw feed_id it in
    let skipped = insert_items draw feed_id its table in
    let kept = insert_items draw feed_id its (table ++ row ∷ []) in
    if_holds (λ (r : List FeedItem × List FeedItem). has_item i r.1 ≡ true)
      (any (is_item feed_id it.guid) table) skipped (row ∷ kept.0, kept.1)
      (λ e. insert_items-Covers draw feed_id its table i h)
      (λ e.
        insert_items-Covers draw feed_id its (table ++ row ∷ []) i
          (any-left (λ (fi : FeedItem). fi.id == i) table (row ∷ []) h))

-- The new items are in the table.
insert_items-new :
    (draw : Draw) (feed_id : ℕ) (its : List ParsedItem) (table : List FeedItem)
    → All
        (λ (fi : FeedItem). has_item fi.id (insert_items draw feed_id its table).1 ≡ true)
        (insert_items draw feed_id its table).0
unfolding insert_items
insert_items-new draw feed_id [] table = tt
insert_items-new draw feed_id (it ∷ its) table =
    let row = item_row draw feed_id it in
    let skipped = insert_items draw feed_id its table in
    let kept = insert_items draw feed_id its (table ++ row ∷ []) in
    if_holds
      (λ (r : List FeedItem × List FeedItem).
        All (λ (fi : FeedItem). has_item fi.id r.1 ≡ true) r.0)
      (any (is_item feed_id it.guid) table) skipped (row ∷ kept.0, kept.1)
      (λ e. insert_items-new draw feed_id its table)
      (λ e. (
        insert_items-Covers draw feed_id its (table ++ row ∷ []) row.id (
            ground (
              arith,
              any-append (λ (fi : FeedItem). fi.id == row.id) table (row ∷ []),
              ==_refl row.id,
            )),
        insert_items-new draw feed_id its (table ++ row ∷ []),
      ))

-- Each item is of a feed that is there.
insert_items-ItemIsKeyed :
    (draw : Draw) (feed_id : ℕ) (fs : List Feed) (its : List ParsedItem) (table : List FeedItem)
    → has_feed feed_id fs ≡ true
    → All (ItemIsKeyed fs) table
    → All (ItemIsKeyed fs) (insert_items draw feed_id its table).1
unfolding insert_items
insert_items-ItemIsKeyed draw feed_id fs [] table h k = k
insert_items-ItemIsKeyed draw feed_id fs (it ∷ its) table h k =
    let row = item_row draw feed_id it in
    let skipped = insert_items draw feed_id its table in
    let kept = insert_items draw feed_id its (table ++ row ∷ []) in
    if_holds (λ (r : List FeedItem × List FeedItem). All (ItemIsKeyed fs) r.1)
      (any (is_item feed_id it.guid) table) skipped (row ∷ kept.0, kept.1)
      (λ e. insert_items-ItemIsKeyed draw feed_id fs its table h k)
      (λ e.
        insert_items-ItemIsKeyed draw feed_id fs its (table ++ row ∷ []) h
          (All-append (ItemIsKeyed fs) table (row ∷ []) k (h, tt)))

-- An UPDATE of feeds that leaves their ids and users alone.
pub with_feeds-IsConsistent :
    (db : Database) (p : Feed → Bool) (g : Feed → Feed)
    → ((f : Feed) → (g f).id ≡ f.id)
    → ((f : Feed) → (g f).user_id ≡ f.user_id)
    → IsConsistent db
    → IsConsistent (record db { feeds = update p g db.feeds })
with_feeds-IsConsistent db p g same same' h = record {
  feeds = All-update (FeedIsKeyed db.users) p g db.feeds (λ f e k. rw (same' f) k) h.feeds;
  items = All-imp (λ fi k. there fi.feed_id k) db.feed_items h.items;
  routes =
      All-imp (λ (r : Route) (k : RouteIsKeyed db.users db.feeds r). (there r.feed_id k.0, k.1))
        db.routes h.routes;
  destinations = h.destinations;
  dispatches = h.dispatches;
}
  where
    there : (i : ℕ) → has_feed i db.feeds ≡ true → has_feed i (update p g db.feeds) ≡ true
    there i k = any-update (λ (f : Feed). f.id == i) p g db.feeds (λ f. rw (same f) refl) ∙ k

pub persist-IsConsistent :
    (now : ℕ) (draw : Draw) (feed : Feed) (items : List ParsedItem)
    (etag last_modified : Option Text) (db : Database)
    → has_row feed db.feeds ≡ true
    → IsConsistent db
    → IsConsistent (persist now draw feed items etag last_modified db)
unfolding persist
persist-IsConsistent now draw feed items etag last_modified db here h =
    let (new_items, table) = insert_items draw feed.id items db.feed_items in
    let chosen =
      if is_first_poll feed then select_backfill_items now feed new_items else new_items in
    let pace : ℕ = if is_first_poll feed then feed.backfill_pace_seconds else 0 in
    let dests = open_destinations feed.id db.route_destinations db.routes in
    with_feeds-IsConsistent
      (record db {
        feed_items = table;
        dispatches =
            fan_out now draw feed.user_id pace 0 (order_by published_key chosen) dests
              db.dispatches;
      })
      (λ (f : Feed). f.id == feed.id) (polled_feed now etag last_modified) (λ f. refl) (λ f. refl)
      (record {
        feeds = h.feeds;
        items =
            insert_items-ItemIsKeyed draw feed.id db.feeds items db.feed_items
              (has_row-has_feed feed db.feeds here) h.items;
        routes = h.routes;
        destinations = h.destinations;
        dispatches =
            fan_out-Keyed db.route_destinations db.routes db.users table now draw feed.user_id pace
              0 (order_by published_key chosen) dests db.dispatches
              (has_row-has_user db.users feed db.feeds h.feeds here)
              (All-order_by (λ (i : FeedItem). has_item i.id table ≡ true) published_key chosen
                (if_holds (All (λ (i : FeedItem). has_item i.id table ≡ true)) (is_first_poll feed)
                  (select_backfill_items now feed new_items) new_items
                  (λ e.
                    All-select_backfill_items (λ (i : FeedItem). has_item i.id table ≡ true) now
                      feed new_items (insert_items-new draw feed.id items db.feed_items))
                  (λ e. insert_items-new draw feed.id items db.feed_items)))
              (open_destinations-IsOpen db.route_destinations db.routes feed.id db.routes
                h.destinations)
              (All-imp
                (λ (d : Dispatch)
                    (k : DispatchIsKeyed db.users db.route_destinations db.routes db.feed_items d).
                  (
                    k.0,
                    k.1,
                    insert_items-Covers draw feed.id items db.feed_items d.feed_item_id k.2,
                    k.3,
                  ))
                db.dispatches h.dispatches);
      })
