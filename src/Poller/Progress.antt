-- ===== src/Poller/Progress.antt =====
-- web/src/worker/rssPoller.ts: the row of a feed after its poll.
use simple_rss_notifications.Base.{
  ℕ, ◌+◌, ◌*◌, ◌≤◌, ◌≡◌, refl, true, false, Option, none, some, List, [], ◌∷◌, ◌++◌, Text, update,
  All, All-imp, arith, Bool-cases, inl, inr,
}
use simple_rss_notifications.Base.Strings.{codes}
use simple_rss_notifications.Db.{Database, Feed}
use simple_rss_notifications.Poller.Persist.{ParsedItem, Draw, persist, polled_feed}
use simple_rss_notifications.Poller.{
  FetchOutcome, fetch_failed, not_modified, fetched, fetch_threw, Env, is_due, has_feed_id,
  failed_feed, unchanged_feed, try_write, try_persist, after_parse, poll_feed, record_rejection,
  poll_one,
}

-- The feed's row was polled at an instant.
abbrev IsPolled : ℕ → ℕ → Feed → Type 0
IsPolled i now f = has_feed_id i f ≡ true → f.last_polled_at ≡ some now

update-IsPolled :
    (i now : ℕ) (g : Feed → Feed) (fs : List Feed)
    → ((f : Feed) → (g f).last_polled_at ≡ some now)
    → All (IsPolled i now) (update (has_feed_id i) g fs)
unfolding update
update-IsPolled i now g [] h = tt
update-IsPolled i now g (f ∷ fs) h = elim (Bool-cases (has_feed_id i f)) [
  | inl mine ↦ rw mine (λ _. h f, update-IsPolled i now g fs h)
  | inr other ↦ rw other ((λ e. absurd (ground arith)), update-IsPolled i now g fs h)
]

-- A poll that does not reject has marked the row.
abbrev Marks : ℕ → ℕ → Option Text × Database → Type 0
Marks i now r = r.0 ≡ none → All (IsPolled i now) r.1.feeds

try_write-Marks :
    (o : Option Text) (i now : ℕ) (g : Feed → Feed) (db : Database)
    → ((f : Feed) → (g f).last_polled_at ≡ some now)
    → Marks i now (try_write o i g db)
unfolding try_write
try_write-Marks none i now g db h = λ _. update-IsPolled i now g db.feeds h
try_write-Marks (some err) i now g db h = λ e. absurd (ground arith)

persist-Marks :
    (o : Option Text) (now : ℕ) (draw : Draw) (feed : Feed) (items : List ParsedItem)
    (etag last_modified : Option Text) (db : Database)
    → Marks feed.id now (try_persist o now draw feed items etag last_modified db)
unfolding try_persist persist
persist-Marks none now draw feed items etag last_modified db =
    λ _. update-IsPolled feed.id now (polled_feed now etag last_modified) db.feeds (λ f. refl)
persist-Marks (some err) now draw feed items etag last_modified db = λ e. absurd (ground arith)

poll_feed-Marks :
    (env : Env) (feed : Feed) (o : FetchOutcome) (db : Database)
    → Marks feed.id env.now (poll_feed env feed o db)
unfolding poll_feed
poll_feed-Marks env feed (fetch_failed err) db =
    try_write-Marks env.write_error feed.id env.now (failed_feed env.now err) db (λ f. refl)
poll_feed-Marks env feed not_modified db =
    try_write-Marks env.write_error feed.id env.now (unchanged_feed env.now) db (λ f. refl)
poll_feed-Marks env feed (fetched body etag last_modified) db = parse (env.parse_error body)
  where
    parse :
        (e : Option Text)
        → Marks feed.id env.now (after_parse env feed e (env.parsed body) etag last_modified db)
    parse (some err) = λ e. absurd (ground arith)
    parse none =
        persist-Marks env.persist_error env.now env.draw feed (env.parsed body) etag last_modified
          db
poll_feed-Marks env feed (fetch_threw err) db = λ e. absurd (ground arith)

record_rejection-IsPolled :
    (env : Env) (feed : Feed) (rejected : Option Text) (db : Database)
    → env.rescue_ok ≡ true
    → (rejected ≡ none → All (IsPolled feed.id env.now) db.feeds)
    → All (IsPolled feed.id env.now) (record_rejection env feed rejected db).feeds
unfolding record_rejection
record_rejection-IsPolled env feed none db ok h = h refl
record_rejection-IsPolled env feed (some err) db ok h = rw ok (
    update-IsPolled feed.id env.now (failed_feed env.now (codes "internal error: " ++ err)) db.feeds
      (λ f. refl))

-- After a poll, with whatever outcome, the feed is not due until more than its interval has passed,
-- if the write that records an unexpected failure works.
pub poll_one-not_due :
    (env : Feed → Env) (feed : Feed) (db : Database)
    → (env feed).rescue_ok ≡ true
    → All
        (λ (f : Feed).
          has_feed_id feed.id f ≡ true
          → (t : ℕ) → t ≤ (env feed).now + f.poll_interval_s * 1000
          → is_due t f ≡ false)
        (poll_one env feed db).feeds
unfolding poll_one
poll_one-not_due env feed db ok =
    let r = poll_feed (env feed) feed (env feed).outcome db in
    All-imp (λ f polled mine t within. waits f (polled mine) t within)
      (record_rejection (env feed) feed r.0 r.1).feeds
      (record_rejection-IsPolled (env feed) feed r.0 r.1 ok
        (poll_feed-Marks (env feed) feed (env feed).outcome db))
  where
    waits :
        (f : Feed)
        → f.last_polled_at ≡ some (env feed).now
        → (t : ℕ) → t ≤ (env feed).now + f.poll_interval_s * 1000
        → is_due t f ≡ false
    waits f e t within = rw (e, is_due) (ground arith)
