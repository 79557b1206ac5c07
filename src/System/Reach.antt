-- ===== src/System/Reach.antt =====
-- The worker (web/src/worker), the webhook endpoint and the routes under web/src/app/api as steps on
-- one database, and what they reach from tables without feeds.
use simple_rss_notifications.Base.{
  ℕ, ◌≤◌, ◌≡◌, true, some, List, [], All, All-imp, All-find, ◌==◌, All-update, update,
}
use simple_rss_notifications.Db.{
  Database, Feed, User, WebSession, Sinks, Dispatch, RouteDestination, FeedItem,
}
use simple_rss_notifications.Db.Access.{web_role}
use simple_rss_notifications.Db.Cascade.{delete_user}
use simple_rss_notifications.Db.Consistent.{
  IsConsistent, DispatchIsKeyed, ItemIsKeyed, has_user, has_row, any-of_find, find-any,
}
use simple_rss_notifications.Auth.{Session, live, check_session_live}
use simple_rss_notifications.Auth.Gates.{get_current_user_of_live}
use simple_rss_notifications.Dispatch.{ClaimedJob, is_picked, picked}
use simple_rss_notifications.Dispatch.Again.{retry_dispatch, is_target, reset}
use simple_rss_notifications.Dispatch.Effects.{IsQuiet}
use simple_rss_notifications.Dispatch.Deliver
use simple_rss_notifications.Dispatch.Batch.{dispatch_pending}
use simple_rss_notifications.Dispatch.Batch.Progress.{HasPartners, dispatch_pending-IsQuiet}
use simple_rss_notifications.Poller
use simple_rss_notifications.Poller.{poll_due_feeds}
use simple_rss_notifications.Payload.Normalize.Discord.{NormalizedHook}
use simple_rss_notifications.Payload.Ingest.{Stamps, ingest_item}
use simple_rss_notifications.System.Deliveries.{
  dispatch_pending-IsConsistent, with_dispatches-IsConsistent,
}
use simple_rss_notifications.System.Batches.{poll_due_feeds-IsConsistent, ingest_item-IsConsistent}
use simple_rss_notifications.System.Deletions.{delete_user-IsConsistent}
use simple_rss_notifications.System.Requests.{UserRequest, perform, perform-IsConsistent}

-- One step: a tick of the dispatcher, a batch of polls, an ingested item, a request with a live
-- session, the retry of a dispatch, or the deletion of an account.
pub data Step : Database → Database → Type 0 where
  ticked :
      (env : ClaimedJob → Deliver.Env) (now : ℕ) (db : Database)
      → Step db (dispatch_pending env now db).1
  polled :
      (env : Feed → Poller.Env) (now : ℕ) (db : Database) → Step db (poll_due_feeds env now db).1
  ingested :
      (stamps : Stamps) (feed : Feed) (n : NormalizedHook) (db db' : Database)
      → has_row feed db.feeds ≡ true
      → ingest_item stamps feed n db ≡ some db'
      → Step db db'
  requested :
      (now : ℕ) (s : Session) (r : UserRequest) (db : Database)
      → check_session_live now db s ≡ live
      → Step db (perform s.uid r db)
  retried :
      (now uid id : ℕ) (db : Database)
      → Step db (record db { dispatches = (retry_dispatch now uid id db.dispatches).1 })
  user_deleted : (uid : ℕ) (db : Database) → Step db (delete_user uid db)

-- Accounts, sessions and sinks, and nothing else.
unfoldable pub no_feeds : List User → List WebSession → Sinks → Database
no_feeds us ws sinks = record {
  users = us;
  web_sessions = ws;
  feeds = [];
  feed_items = [];
  routes = [];
  route_destinations = [];
  dispatches = [];
  sinks = sinks;
}

pub data Reach : Database → Type 0 where
  start : (us : List User) (ws : List WebSession) (sinks : Sinks) → Reach (no_feeds us ws sinks)
  then_step : (db db' : Database) → Reach db → Step db db' → Reach db'

retry-IsConsistent :
    (now uid id : ℕ) (db : Database)
    → IsConsistent db
    → IsConsistent (record db { dispatches = (retry_dispatch now uid id db.dispatches).1 })
unfolding retry_dispatch
retry-IsConsistent now uid id db h =
    with_dispatches-IsConsistent db (update (is_target (web_role uid) id) (reset now) db.dispatches)
      h
      (All-update (DispatchIsKeyed db.users db.route_destinations db.routes db.feed_items)
        (is_target (web_role uid) id) (reset now) db.dispatches (λ d e k. k) h.dispatches)

-- The user of a live session is there.
live-has_user :
    (now : ℕ) (db : Database) (s : Session)
    → check_session_live now db s ≡ live
    → has_user s.uid db.users ≡ true
live-has_user now db s h =
    let (u, _, found) = get_current_user_of_live now db s h in
    any-of_find (λ (x : User). x.id == s.uid) db.users u found

step-IsConsistent : {db db' : Database} → Step db db' → IsConsistent db → IsConsistent db'
step-IsConsistent (ticked env now db) h = dispatch_pending-IsConsistent env now db h
step-IsConsistent (polled env now db) h = poll_due_feeds-IsConsistent env now db h
step-IsConsistent (ingested stamps feed n db db' here e) h =
    ingest_item-IsConsistent stamps feed n db db' here h e
step-IsConsistent (requested now s r db alive) h =
    perform-IsConsistent s.uid r db (live-has_user now db s alive) h
step-IsConsistent (retried now uid id db) h = retry-IsConsistent now uid id db h
step-IsConsistent (user_deleted uid db) h = delete_user-IsConsistent uid db h

-- Whatever steps are taken, in whatever order, every foreign key of feeds, items, routes,
-- destinations and dispatches leads to a row: to their users, feeds, routes, destinations and items.
pub Reach-IsConsistent : (db : Database) → Reach db → IsConsistent db
unfolding no_feeds
Reach-IsConsistent _ (start us ws sinks) = record {
  feeds = tt;
  items = tt;
  routes = tt;
  destinations = tt;
  dispatches = tt;
}
Reach-IsConsistent _ (then_step db db' r s) = step-IsConsistent s (Reach-IsConsistent db r)

-- The partners of a dispatch whose keys hold.
keyed-HasPartners :
    (db : Database) (d : Dispatch)
    → IsConsistent db
    → DispatchIsKeyed db.users db.route_destinations db.routes db.feed_items d
    → HasPartners db d
keyed-HasPartners db d h k =
    let (rd, rd_found) =
      find-any (λ (x : RouteDestination). x.id == d.route_destination_id) db.route_destinations
        k.0 in
    let (fi, fi_found) = find-any (λ (x : FeedItem). x.id == d.feed_item_id) db.feed_items k.2 in
    let of_feed =
      All-find (ItemIsKeyed db.feeds) (λ (x : FeedItem). x.id == d.feed_item_id) db.feed_items
        {x = fi} fi_found h.items in
    let (f, f_found) = find-any (λ (x : Feed). x.id == fi.feed_id) db.feeds of_feed.0 in
    record {
      destination = rd;
      item = fi;
      feed = f;
      destination_found = rd_found;
      item_found = fi_found;
      feed_found = f_found;
    }

partners : (db : Database) → IsConsistent db → All (HasPartners db) db.dispatches
partners db h = All-imp (λ d k. keyed-HasPartners db d h k) db.dispatches h.dispatches

-- In every database that is reached, a tick leaves none of the dispatches that it picked due within a
-- minute of its start, if each delivery runs after the start and the write of its `catch` block works.
pub Reach-IsQuiet :
    (env : ClaimedJob → Deliver.Env) (now : ℕ) (db : Database)
    → Reach db
    → ((job : ClaimedJob) → now ≤ (env job).now)
    → ((job : ClaimedJob) → (env job).rescue_ok ≡ true)
    → All
        (λ d. is_picked (picked now db.dispatches) d ≡ true → IsQuiet now d)
        (dispatch_pending env now db).1.dispatches
Reach-IsQuiet env now db r later writable =
    dispatch_pending-IsQuiet env now db (partners db (Reach-IsConsistent db r)) later writable
