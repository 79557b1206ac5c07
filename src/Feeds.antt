-- ===== src/Feeds.antt =====
-- web/src/app/api/feeds: creating, changing and deleting feeds, and new webhook tokens, behind the
-- wrapper `withAuth`; their statements run in `withUser`. A path's id is a uuid; the
-- cast of any other text throws before a statement runs. Audit rows and notifications are left out.
pub mod Routes
pub mod Own
use simple_rss_notifications.Base.{
  ℕ, ◌*◌, Bool, true, false, not, ◌&&◌, ◌||◌, Option, none, some, List, [], ◌∷◌, ◌++◌, Text, leb,
  ◌==◌, if◌then◌else◌, any, length, get_or, update,
}
use simple_rss_notifications.Db.{
  Database, Feed, FeedKind, rss, webhook, BackfillMode, backfill_none, backfill_count,
  backfill_days, backfill_done,
}
use simple_rss_notifications.Db.Access.{Role, sees_feed, with_user}
use simple_rss_notifications.Db.Cascade.{delete_feeds}

-- A decoded body, with the defaults filled in.
pub record FeedBody : Type 0 where
  pub kind : FeedKind
  pub label : Text
  pub url : Option Text
  pub poll_interval_s : ℕ
  pub enabled : Bool
  pub backfill_mode : BackfillMode
  pub backfill_value : ℕ
  pub backfill_pace_seconds : ℕ

pub record FeedPatch : Type 0 where
  pub label : Option Text
  pub url : Option Text
  pub enabled : Option Bool
  pub poll_interval_s : Option ℕ

pub record FeedEnv : Type 0 where
  -- The uuid of the new row, and the hash of the token that is drawn.
  pub feed_id : ℕ
  pub token_hash : Text
  -- zod's `url()`, and whether `checkSafeOutboundUrl` refuses a URL.
  pub is_url : Text → Bool
  pub is_unsafe : Text → Bool

pub data FeedReply : Type 0 where
  -- `threw` is a policy's refusal.
  bad_request ssrf_blocked not_found threw : FeedReply
  feed_created : ℕ → FeedReply
  feed_done : FeedReply

abbrev pub day_sec : ℕ
day_sec = 24 * 60 * 60

abbrev between : ℕ → ℕ → ℕ → Bool
between lo hi n = leb lo n && leb n hi

abbrev is_label : Text → Bool
is_label t = between 1 100 (length t)

abbrev is_feed_url : FeedEnv → Text → Bool
is_feed_url env u = env.is_url u && leb (length u) 2048

-- `z.enum(['none', 'count', 'days'])`
abbrev is_mode_input : BackfillMode → Bool
is_mode_input backfill_done = false
is_mode_input _ = true

abbrev pub is_webhook_kind : FeedKind → Bool
is_webhook_kind webhook = true
is_webhook_kind rss = false

abbrev is_some : Option Text → Bool
is_some none = false
is_some (some t) = true

abbrev is_url_input : FeedEnv → Option Text → Bool
is_url_input env none = true
is_url_input env (some u) = is_feed_url env u

-- The schema `Body`.
unfoldable pub accepts_body : FeedEnv → FeedBody → Bool
accepts_body env b =
    is_label b.label
    && is_url_input env b.url
    && between 60 day_sec b.poll_interval_s
    && is_mode_input b.backfill_mode
    && leb b.backfill_value 10000
    && leb b.backfill_pace_seconds day_sec
    && (is_webhook_kind b.kind || is_some b.url)

-- The schema `Patch`.
unfoldable pub accepts_patch : FeedEnv → FeedPatch → Bool
accepts_patch env p =
    (elim p.label [ none ↦ true | some l ↦ is_label l ])
    && is_url_input env p.url
    && (elim p.poll_interval_s [ none ↦ true | some n ↦ between 60 day_sec n ])

-- A new row; the columns that the INSERT does not name have the table's defaults.
abbrev pub new_webhook : FeedEnv → ℕ → FeedBody → Feed
new_webhook env uid b = record {
  id = env.feed_id;
  user_id = uid;
  label = b.label;
  kind = webhook;
  url = none;
  token_hash = some env.token_hash;
  enabled = b.enabled;
  poll_interval_s = 900;
  etag = none;
  last_modified = none;
  last_polled_at = none;
  last_success_at = none;
  last_error = none;
  last_error_at = none;
  consecutive_failures = 0;
  backfill_mode = backfill_done;
  backfill_value = 0;
  backfill_pace_seconds = 0;
}

abbrev pub new_rss : FeedEnv → ℕ → Text → FeedBody → Feed
new_rss env uid url b = record {
  id = env.feed_id;
  user_id = uid;
  label = b.label;
  kind = rss;
  url = some url;
  token_hash = none;
  enabled = b.enabled;
  poll_interval_s = b.poll_interval_s;
  etag = none;
  last_modified = none;
  last_polled_at = none;
  last_success_at = none;
  last_error = none;
  last_error_at = none;
  consecutive_failures = 0;
  backfill_mode = b.backfill_mode;
  backfill_value = b.backfill_value;
  backfill_pace_seconds = b.backfill_pace_seconds;
}

abbrev pub add_feed : Feed → Database → Database
add_feed f db = record db { feeds = db.feeds ++ f ∷ [] }

-- The INSERT, under the policy's WITH CHECK.
abbrev pub insert_feed : Role → Feed → Database → FeedReply × Database
insert_feed tx f db = if sees_feed tx f then (feed_created f.id, add_feed f db) else (threw, db)

unfoldable pub create_accepted : FeedEnv → ℕ → FeedBody → Database → FeedReply × Database
create_accepted env uid b db =
    let url = get_or b.url [] in
    if is_webhook_kind b.kind
    then with_user uid (λ tx. insert_feed tx (new_webhook env uid b) db)
    else if env.is_unsafe url
    then (ssrf_blocked, db)
    else with_user uid (λ tx. insert_feed tx (new_rss env uid url b) db)

-- `POST /api/feeds`; `none` for a body that does not decode.
unfoldable pub create_feed : FeedEnv → ℕ → Option FeedBody → Database → FeedReply × Database
unfolding create_accepted accepts_body
create_feed env uid none db = (bad_request, db)
create_feed env uid (some b) db =
    if accepts_body env b then create_accepted env uid b db else (bad_request, db)

-- `WHERE id = …` in a transaction.
abbrev pub is_visible_feed : Role → ℕ → Feed → Bool
is_visible_feed tx id f = sees_feed tx f && f.id == id

abbrev or_keep : Option Text → Option Text → Option Text
or_keep none old = old
or_keep (some t) old = some t

abbrev or_cleared : Option Text → Option Text → Option Text
or_cleared none old = old
or_cleared (some t) old = none

abbrev pub patched_feed : FeedPatch → Feed → Feed
patched_feed p f = record f {
  label = get_or p.label f.label;
  url = if is_webhook_kind f.kind then f.url else or_keep p.url f.url;
  enabled = get_or p.enabled f.enabled;
  poll_interval_s = get_or p.poll_interval_s f.poll_interval_s;
  etag = or_cleared p.url f.etag;
  last_modified = or_cleared p.url f.last_modified;
}

unfoldable pub patch_blocked : FeedEnv → Option Text → Bool
patch_blocked env none = false
patch_blocked env (some u) = not (length u == 0) && env.is_unsafe u

-- `UPDATE … RETURNING id`, and the reply.
abbrev pub update_feed : (Feed → Bool) → (Feed → Feed) → Database → FeedReply × Database
update_feed matches patched db =
    if any matches db.feeds
    then (feed_done, record db { feeds = update matches patched db.feeds })
    else (not_found, db)

-- `PATCH /api/feeds/[id]`
unfoldable pub patch_feed : FeedEnv → ℕ → ℕ → Option FeedPatch → Database → FeedReply × Database
unfolding patch_blocked accepts_patch
patch_feed env uid id none db = (bad_request, db)
patch_feed env uid id (some p) db =
    if not (accepts_patch env p)
    then (bad_request, db)
    else if patch_blocked env p.url
    then (ssrf_blocked, db)
    else with_user uid (λ tx. update_feed (is_visible_feed tx id) (patched_feed p) db)

-- `DELETE /api/feeds/[id]`
unfoldable pub remove_feed : ℕ → ℕ → Database → FeedReply × Database
unfolding delete_feeds
remove_feed uid id db = with_user uid (λ tx.
    if any (is_visible_feed tx id) db.feeds
    then (feed_done, delete_feeds (is_visible_feed tx id) db)
    else (not_found, db))

abbrev pub is_visible_webhook : Role → ℕ → Feed → Bool
is_visible_webhook tx id f = is_visible_feed tx id f && is_webhook_kind f.kind

-- `POST /api/feeds/[id]/regenerate-token`
unfoldable pub regenerate_token : FeedEnv → ℕ → ℕ → Database → FeedReply × Database
regenerate_token env uid id db =
    let rekeyed = λ (f : Feed). record f { token_hash = some env.token_hash } in
    with_user uid (λ tx. update_feed (is_visible_webhook tx id) rekeyed db)
