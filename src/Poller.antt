-- ===== src/Poller.antt =====
-- web/src/worker/rssPoller.ts: polling feeds and fanning new items out. What a fetch and the parser
-- give, and the uuids that the database draws, are fields of an environment.
pub mod Persist
pub mod Progress
pub mod Dedupe
mod Tests
use simple_rss_notifications.Base.{
  ℕ, ◌+◌, ◌*◌, Bool, true, false, not, ◌&&◌, ◌||◌, Option, none, some, List, [], ◌∷◌, ◌++◌, Text,
  ltb, leb, ◌==◌, if◌then◌else◌, take, select, update, order_by,
}
use simple_rss_notifications.Base.Strings.{codes}
use simple_rss_notifications.Db.{Database, Feed, FeedKind, rss, webhook}
use simple_rss_notifications.Poller.Persist.{ParsedItem, Draw, persist}

-- What `fetchFeed` answers.
pub data FetchOutcome : Type 0 where
  fetch_failed : (error : Text) → FetchOutcome
  not_modified : FetchOutcome
  fetched : (body : Text) → (etag last_modified : Option Text) → FetchOutcome
  fetch_threw : (message : Text) → FetchOutcome

pub record Env : Type 0 where
  pub now : ℕ
  pub outcome : FetchOutcome
  -- The parsed items of a body, or the message of what the parser throws.
  pub parsed : Text → List ParsedItem
  pub parse_error : Text → Option Text
  pub draw : Draw
  -- The transaction fails with this message, if any, and leaves nothing.
  pub persist_error : Option Text
  -- Whether the writes outside of the transaction reach the database.
  pub write_error : Option Text
  pub rescue_ok : Bool

abbrev is_rss : Feed → Bool
is_rss f = elim f.kind [ rss ↦ true | webhook ↦ false ]

abbrev pub is_due : ℕ → Feed → Bool
is_due now f =
    f.enabled
    && is_rss f
    && (elim f.last_polled_at [ none ↦ true | some t ↦ ltb (t + f.poll_interval_s * 1000) now ])

-- `ORDER BY last_polled_at ASC NULLS FIRST`
abbrev pub polled_key : Feed → ℕ
polled_key f = elim f.last_polled_at [ none ↦ 0 | some t ↦ t + 1 ]

abbrev pub poll_batch_size : ℕ
poll_batch_size = 4

unfoldable pub due_feeds : ℕ → List Feed → List Feed
due_feeds now feeds = take poll_batch_size (order_by polled_key (select (is_due now) feeds))

abbrev pub failed_feed : ℕ → Text → Feed → Feed
failed_feed now err f = record f {
  last_polled_at = some now;
  last_error = some (take 500 err);
  last_error_at = some now;
  consecutive_failures = f.consecutive_failures + 1;
}

abbrev pub unchanged_feed : ℕ → Feed → Feed
unchanged_feed now f = record f {
  last_polled_at = some now;
  last_success_at = some now;
  last_error = none;
  last_error_at = none;
  consecutive_failures = 0;
}

abbrev pub has_feed_id : ℕ → Feed → Bool
has_feed_id i f = f.id == i

abbrev pub write_feed : ℕ → (Feed → Feed) → Database → Database
write_feed i g db = record db { feeds = update (has_feed_id i) g db.feeds }

-- A write that may throw: the message of the throw, and the database.
unfoldable pub try_write : Option Text → ℕ → (Feed → Feed) → Database → Option Text × Database
try_write none i g db = (none, write_feed i g db)
try_write (some err) i g db = (some err, db)

unfoldable pub try_persist :
    Option Text
    → ℕ
    → Draw
    → Feed
    → List ParsedItem
    → (etag last_modified : Option Text) → Database
    → Option Text × Database
try_persist none now draw feed items etag last_modified db =
    (none, persist now draw feed items etag last_modified db)
try_persist (some err) now draw feed items etag last_modified db = (some err, db)

unfoldable pub after_parse :
    Env
    → Feed
    → Option Text
    → List ParsedItem
    → (etag last_modified : Option Text) → Database
    → Option Text × Database
unfolding try_persist
after_parse env feed (some err) items etag last_modified db = (some err, db)
after_parse env feed none items etag last_modified db =
    try_persist env.persist_error env.now env.draw feed items etag last_modified db

-- `pollFeed`: the message of the rejection, if it rejects, and the database.
unfoldable pub poll_feed : Env → Feed → FetchOutcome → Database → Option Text × Database
unfolding try_write after_parse
poll_feed env feed (fetch_failed err) db =
    try_write env.write_error feed.id (failed_feed env.now err) db
poll_feed env feed not_modified db = try_write env.write_error feed.id (unchanged_feed env.now) db
poll_feed env feed (fetched body etag last_modified) db =
    after_parse env feed (env.parse_error body) (env.parsed body) etag last_modified db
poll_feed env feed (fetch_threw err) db = (some err, db)

-- What the loop over the settled results does with a rejection.
unfoldable pub record_rejection : Env → Feed → Option Text → Database → Database
record_rejection env feed none db = db
record_rejection env feed (some err) db =
    if env.rescue_ok
    then write_feed feed.id (failed_feed env.now (codes "internal error: " ++ err)) db
    else db

-- One feed of the batch, from the fetch to the record of its rejection.
unfoldable pub poll_one : (Feed → Env) → Feed → Database → Database
unfolding poll_feed record_rejection
poll_one env feed db =
    let (rejected, db') = poll_feed (env feed) feed (env feed).outcome db in
    record_rejection (env feed) feed rejected db'

unfoldable pub poll_all : (Feed → Env) → List Feed → Database → Database
unfolding poll_one
poll_all env [] db = db
poll_all env (f ∷ fs) db = poll_all env fs (poll_one env f db)

abbrev is_nil : List Feed → Bool
is_nil [] = true
is_nil (f ∷ fs) = false

-- `pollDueFeeds`: whether there was work, and the database. Feeds are polled one after the other.
unfoldable pub poll_due_feeds : (Feed → Env) → ℕ → Database → Bool × Database
unfolding poll_all due_feeds
poll_due_feeds env now db =
    let due = due_feeds now db.feeds in (not (is_nil due), poll_all env due db)
