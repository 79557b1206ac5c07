-- ===== src/Lib.antt =====
-- simple-rss-notifications polls feeds, takes webhooks, and sends each new item to the destinations
-- that its owner has routed the feed to. A web process serves the pages and the API; a worker
-- process polls and dispatches; both share one Postgres database. This library models the parts
-- that decide what is sent, when, and who may ask for what.
--
-- Base: lists, tables (`select`, `update`, `delete`, `order_by` stand for the SQL of that name) and
--   JavaScript strings as lists of UTF-16 code units. Numbers are natural numbers; an instant is in
--   milliseconds unless a comment says seconds; a uuid is a number.
-- Retry (web/src/lib/retry.ts): `backoff_sec`, `retry_delay_sec`, `parse_retry_after_sec`,
--   `is_permanent_failure`. Bounds and Failures hold the theorems.
-- Db (web/src/lib/db/schema): the rows of the tables; Db.Cascade is `ON DELETE CASCADE`, Db.Access
--   `withUser` (web/src/lib/db/withUser.ts) and the policies of row-level security
--   (web/src/lib/db/migrations): a transaction has a role, and its statements reach what that sees.
-- Dispatch (web/src/worker/dispatcher.ts): `claim` is the claim statement, Rows the row that each
--   outcome writes, Deliver `deliverOne`, Groups the split by destination, Batch `dispatchPending`.
--   Each delivery has an environment: what builders and providers answer or throw, the clock, and
--   whether its writes reach the database. Groups run one after the other in the model.
--   Again is the route that queues a failed dispatch again (web/src/app/api/dispatches).
-- Maintenance (web/src/worker/maintenance.ts): the hourly sweep.
-- RateLimit (web/src/lib/ratelimit.ts): the upsert on `rate_limit_buckets` and its result.
-- Auth (web/src/lib/auth): `check_session_live`, `with_auth`, `require_admin`, `get_current_user`,
--   `is_same_origin`. A session is what the signed cookie decodes to.
-- Users (web/src/app/api/users, web/src/app/api/auth): the routes that change accounts, guard by
--   guard; Accounts has those that create, log in and out and change passwords. Hashing and its
--   check are parameters.
-- Hooks (web/src/lib/hooks): Limiter is `FixedWindowLimiter`, Handler is `handleHook` with its three
--   limiters as state; Limiter.Refined is the limiter as a function from keys to buckets.
-- Poller (web/src/worker/rssPoller.ts): `pollDueFeeds`; Persist is the transaction that stores the
--   new items and fans them out. Feeds of a batch are polled one after the other.
-- Ssrf (web/src/lib/ssrf.ts): the classes of addresses (IPv4 in Ssrf, IPv6 in Ipv6), Resolve
--   `resolveAndValidate`, Fetch `safeFetch`: the loop recurses on the redirects left, so it needs no
--   other bound. The world may answer each look-up of the DNS differently.
-- Payload (web/src/lib/hooks/normalize.ts, ingest.ts): Json is what `JSON.parse` returns, with
--   `exceedsDepth` in Json.Depth (its fuel is the size of the value); Clip, Fields, Values and Raw
--   are the readers of the fields, Normalize `normalizeHook`, Body `readBodyLimited`, Ingest
--   `ingestItem` and Serve a whole request through `handleHook`. Runtime holds what they call of the JavaScript runtime.
-- Format (web/src/lib/rss/format.ts): `decodeEntities`, in Escapes against `escapeText`, and `truncate`.
-- Feeds (web/src/app/api/feeds, web/src/app/api/routes): the requests that change feeds, routes and
--   destinations; their statements run in `withUser`.
-- Live (web/src/lib/itemsListener.ts): `createItemsHub` as a machine that events drive.
-- System: the worker, the webhooks and the requests as steps on one database. Db.Consistent states
--   its foreign keys; Reach is the step relation and what it reaches, Isolation is about the rows of
--   other users, and the other modules hold the lemmas for each kind of step.
-- The database, the limiters and the buckets go in and come out of each operation. Loops are
-- recursions on lists; none needs fuel unless its comment says so. Not modelled: pages and
-- components, the HTTP framework, the cryptography and the drivers, audit rows, logging, and the
-- parts that the components of the manifest list as not modelled.
pub mod Base
pub mod Retry
pub mod Db
pub mod Dispatch
pub mod RateLimit
pub mod Auth
pub mod Users
pub mod Hooks
pub mod Ssrf
pub mod Poller
pub mod Maintenance
pub mod Payload
pub mod System
pub mod Feeds
pub mod Format
pub mod Live
