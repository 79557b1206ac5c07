-- ===== src/System/Batches.antt =====
-- web/src/worker/rssPoller.ts and web/src/lib/hooks/ingest.ts: the foreign keys after a batch of
-- polls, and after an ingested item.
use simple_rss_notifications.Base.{
  ◌&&◌, ℕ, ◌≡◌, refl, ◌∙◌, Bool, true, Option, none, some, List, [], ◌∷◌, ◌++◌, Text, ◌==◌, ==_refl,
  All, All-imp, All-append, All-take, All-order_by, All-select, any-append, update, arith, if_holds,
  subst, order_by, select,
}
use simple_rss_notifications.Base.Strings.{codes}
use simple_rss_notifications.Db.{Database, Feed, FeedItem, Dispatch}
use simple_rss_notifications.Db.Consistent.{
  DispatchIsKeyed, ItemIsKeyed, IsConsistent, has_feed, has_user, has_row, has_row-has_feed,
  has_row-has_user, any-update, any-left, All-any_self,
}
use simple_rss_notifications.Poller.Persist.{
  ParsedItem, Draw, open_destinations, persist, polled_feed,
}
use simple_rss_notifications.Poller.{
  FetchOutcome, fetch_failed, not_modified, fetched, fetch_threw, Env, has_feed_id, failed_feed,
  unchanged_feed, poll_feed, record_rejection, poll_one, poll_all, poll_due_feeds, due_feeds,
  try_write, try_persist, after_parse, write_feed, is_due, polled_key, poll_batch_size,
}
use simple_rss_notifications.Payload.Fields.{Priority, level, inherited}
use simple_rss_notifications.Payload.Normalize.Discord.{NormalizedHook}
use simple_rss_notifications.Payload.Ingest.{
  Stamps, webhook_item, with_item, insert_cast, ingest_item,
}
use simple_rss_notifications.System.Fanned.{open_destinations-IsOpen, fan_item-Keyed}
use simple_rss_notifications.System.Polls.{with_feeds-IsConsistent, persist-IsConsistent}

-- Consistent, and with the same feeds as before.
abbrev Follows : Database → Database → Type 0
Follows db db' = IsConsistent db' × ((f : Feed) → has_row f db'.feeds ≡ has_row f db.feeds)

same_feeds :
    (p : Feed → Bool) (g : Feed → Feed) (fs : List Feed)
    → ((f : Feed) → (g f).id ≡ f.id)
    → ((f : Feed) → (g f).user_id ≡ f.user_id)
    → (f : Feed) → has_row f (update p g fs) ≡ has_row f fs
same_feeds p g fs same same' f =
    any-update (λ (h : Feed). h.id == f.id && h.user_id == f.user_id) p g fs
      (λ h. rw (same h, same' h) refl)

write_feed-Follows :
    (i : ℕ) (g : Feed → Feed) (db : Database)
    → ((f : Feed) → (g f).id ≡ f.id)
    → ((f : Feed) → (g f).user_id ≡ f.user_id)
    → IsConsistent db
    → Follows db (write_feed i g db)
write_feed-Follows i g db same same' h = (
  with_feeds-IsConsistent db (has_feed_id i) g same same' h,
  same_feeds (has_feed_id i) g db.feeds same same',
)

try_write-Follows :
    (o : Option Text) (i : ℕ) (g : Feed → Feed) (db : Database)
    → ((f : Feed) → (g f).id ≡ f.id)
    → ((f : Feed) → (g f).user_id ≡ f.user_id)
    → IsConsistent db
    → Follows db (try_write o i g db).1
unfolding try_write
try_write-Follows none i g db same same' h = write_feed-Follows i g db same same' h
try_write-Follows (some err) i g db same same' h = (h, λ i. refl)

try_persist-Follows :
    (o : Option Text) (now : ℕ) (draw : Draw) (feed : Feed) (items : List ParsedItem)
    (etag last_modified : Option Text) (db : Database)
    → has_row feed db.feeds ≡ true
    → IsConsistent db
    → Follows db (try_persist o now draw feed items etag last_modified db).1
unfolding try_persist persist
try_persist-Follows none now draw feed items etag last_modified db here h = (
  persist-IsConsistent now draw feed items etag last_modified db here h,
  same_feeds (λ (f : Feed). f.id == feed.id) (polled_feed now etag last_modified) db.feeds
      (λ f. refl) (λ f. refl),
)
try_persist-Follows (some err) now draw feed items etag last_modified db here h = (h, λ i. refl)

after_parse-Follows :
    (env : Env) (feed : Feed) (o : Option Text) (items : List ParsedItem)
    (etag last_modified : Option Text) (db : Database)
    → has_row feed db.feeds ≡ true
    → IsConsistent db
    → Follows db (after_parse env feed o items etag last_modified db).1
unfolding after_parse
after_parse-Follows env feed (some err) items etag last_modified db here h = (h, λ i. refl)
after_parse-Follows env feed none items etag last_modified db here h =
    try_persist-Follows env.persist_error env.now env.draw feed items etag last_modified db here h

poll_feed-Follows :
    (env : Env) (feed : Feed) (o : FetchOutcome) (db : Database)
    → has_row feed db.feeds ≡ true
    → IsConsistent db
    → Follows db (poll_feed env feed o db).1
unfolding poll_feed
poll_feed-Follows env feed (fetch_failed err) db here h =
    try_write-Follows env.write_error feed.id (failed_feed env.now err) db (λ f. refl) (λ f. refl) h
poll_feed-Follows env feed not_modified db here h =
    try_write-Follows env.write_error feed.id (unchanged_feed env.now) db (λ f. refl) (λ f. refl) h
poll_feed-Follows env feed (fetched body etag last_modified) db here h =
    after_parse-Follows env feed (env.parse_error body) (env.parsed body) etag last_modified db here
      h
poll_feed-Follows env feed (fetch_threw err) db here h = (h, λ i. refl)

record_rejection-Follows :
    (env : Env) (feed : Feed) (rejected : Option Text) (db : Database)
    → IsConsistent db
    → Follows db (record_rejection env feed rejected db)
unfolding record_rejection
record_rejection-Follows env feed none db h = (h, λ i. refl)
record_rejection-Follows env feed (some err) db h =
    if_holds (Follows db) env.rescue_ok
      (write_feed feed.id (failed_feed env.now (codes "internal error: " ++ err)) db) db
      (λ e.
        write_feed-Follows feed.id (failed_feed env.now (codes "internal error: " ++ err)) db
          (λ f. refl) (λ f. refl) h)
      (λ e. (h, λ i. refl))

poll_one-Follows :
    (env : Feed → Env) (feed : Feed) (db : Database)
    → has_row feed db.feeds ≡ true
    → IsConsistent db
    → Follows db (poll_one env feed db)
unfolding poll_one
poll_one-Follows env feed db here h =
    let (rejected, db') = poll_feed (env feed) feed (env feed).outcome db in
    let (h', same) = poll_feed-Follows (env feed) feed (env feed).outcome db here h in
    let (h'', same') = record_rejection-Follows (env feed) feed rejected db' h' in
    (h'', λ i. same' i ∙ same i)

poll_all-IsConsistent :
    (env : Feed → Env) (fs : List Feed) (db : Database)
    → All (λ (f : Feed). has_row f db.feeds ≡ true) fs
    → IsConsistent db
    → IsConsistent (poll_all env fs db)
unfolding poll_all
poll_all-IsConsistent env [] db here h = h
poll_all-IsConsistent env (f ∷ fs) db here h =
    let (h', same) = poll_one-Follows env f db here.0 h in
    poll_all-IsConsistent env fs (poll_one env f db)
      (All-imp (λ (g : Feed) k. same g ∙ k) fs here.1) h'

due_feeds-there :
    (now : ℕ) (fs : List Feed) → All (λ (f : Feed). has_row f fs ≡ true) (due_feeds now fs)
unfolding due_feeds
due_feeds-there now fs =
    All-take There poll_batch_size (order_by polled_key (select (is_due now) fs)) (
      All-order_by There polled_key (select (is_due now) fs) (
        All-select There (is_due now) fs (
          All-any_self (λ (x y : Feed). y.id == x.id && y.user_id == x.user_id) fs
            (λ x. ground (arith, ==_refl x.id, ==_refl x.user_id)))))
  where
    There : Feed → Type 0
    There f = has_row f fs ≡ true

-- After a batch of polls every foreign key still leads to a row, whatever the fetches, the parser
-- and the writes do.
pub poll_due_feeds-IsConsistent :
    (env : Feed → Env) (now : ℕ) (db : Database)
    → IsConsistent db
    → IsConsistent (poll_due_feeds env now db).1
unfolding poll_due_feeds
poll_due_feeds-IsConsistent env now db h =
    poll_all-IsConsistent env (due_feeds now db.feeds) db (due_feeds-there now db.feeds) h

with_item-IsConsistent :
    (stamps : Stamps) (feed : Feed) (item : FeedItem) (db : Database)
    → has_feed item.feed_id db.feeds ≡ true
    → has_user feed.user_id db.users ≡ true
    → IsConsistent db
    → IsConsistent (with_item stamps feed item db)
unfolding with_item
with_item-IsConsistent stamps feed item db here owned h =
    let dests = open_destinations feed.id db.route_destinations db.routes in
    let table : List FeedItem = db.feed_items ++ item ∷ [] in
    record {
      feeds = h.feeds;
      items = All-append (ItemIsKeyed db.feeds) db.feed_items (item ∷ []) h.items (here, tt);
      routes = h.routes;
      destinations = h.destinations;
      dispatches =
          fan_item-Keyed db.route_destinations db.routes db.users table stamps.now stamps.draw
            feed.user_id 0 item dests db.dispatches owned
            (ground (
              arith,
              any-append (λ (fi : FeedItem). fi.id == item.id) db.feed_items (item ∷ []),
              ==_refl item.id,
            ))
            (open_destinations-IsOpen db.route_destinations db.routes feed.id db.routes
              h.destinations)
            (All-imp
              (λ (d : Dispatch)
                  (k : DispatchIsKeyed db.users db.route_destinations db.routes db.feed_items d).
                (
                  k.0,
                  k.1,
                  any-left (λ (fi : FeedItem). fi.id == d.feed_item_id) db.feed_items (item ∷ [])
                      k.2,
                  k.3,
                ))
              db.dispatches h.dispatches);
    }

insert_cast-IsConsistent :
    (stamps : Stamps) (feed : Feed) (item : FeedItem) (p : Priority) (db db' : Database)
    → has_feed item.feed_id db.feeds ≡ true
    → has_user feed.user_id db.users ≡ true
    → IsConsistent db
    → insert_cast stamps feed item p db ≡ some db'
    → IsConsistent db'
unfolding insert_cast
insert_cast-IsConsistent stamps feed item inherited db db' here owned h e = absurd (ground arith)
insert_cast-IsConsistent stamps feed item (level p) db db' here owned h e =
    subst IsConsistent (cc e) (with_item-IsConsistent stamps feed item db here owned h)

-- After an ingested item every foreign key still leads to a row, if the feed is there.
pub ingest_item-IsConsistent :
    (stamps : Stamps) (feed : Feed) (n : NormalizedHook) (db db' : Database)
    → has_row feed db.feeds ≡ true
    → IsConsistent db
    → ingest_item stamps feed n db ≡ some db'
    → IsConsistent db'
ingest_item-IsConsistent stamps feed n db db' here h e =
    unfold ingest_item webhook_item in
    insert_cast-IsConsistent stamps feed (webhook_item stamps feed n) n.priority db db'
      (has_row-has_feed feed db.feeds here) (has_row-has_user db.users feed db.feeds h.feeds here) h
      e
