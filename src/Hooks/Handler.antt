-- ===== src/Hooks/Handler.antt =====
-- web/src/lib/hooks/handler.ts: `handleHook`, with the limiters as state. The look-up of the token,
-- the reading and normalising of the body and the insert are fields of an environment.
pub mod Slots
pub mod Stored
use simple_rss_notifications.Base.{
  ℕ, Bool, true, false, not, ◌&&◌, ◌||◌, Option, none, some, List, [], ◌∷◌, ◌++◌, Text, leb, ◌==◌,
  if◌then◌else◌, all, length,
}
use simple_rss_notifications.Base.Strings.{codes, is_digit, is_lower, is_upper}
use simple_rss_notifications.Hooks.Limiter.{Limiter, LimitResult, hit, refund}

pub record WebhookFeed : Type 0 where
  pub id : Text
  pub user_id : Text
  pub label : Text
  pub enabled : Bool

abbrev is_token_char : ℕ → Bool
is_token_char c = is_upper c || is_lower c || is_digit c || c == b'_' || c == b'-'

-- web/src/lib/hooks/token.ts: `/^[A-Za-z0-9_-]{32,128}$/`
unfoldable pub looks_like_token : Text → Bool
looks_like_token t = all is_token_char t && leb 32 (length t) && leb (length t) 128

pub data Response : Type 0 where
  limited : (retry_after_sec : ℕ) → Response
  not_found payload_too_large bad_payload empty_payload internal_error : Response
  no_content saved_item : Response

-- What becomes of the body of an admitted request.
pub data Ingested : Type 0 where
  too_large normalize_threw was_empty ingest_threw : Ingested
  saved : (wait : Bool) → Ingested

abbrev pub answer : Ingested → Response
answer too_large = payload_too_large
answer normalize_threw = bad_payload
answer was_empty = empty_payload
answer ingest_threw = internal_error
answer (saved wait) = if wait then saved_item else no_content

pub record Limiters : Type 0 where
  pub untrusted : Limiter
  pub trusted : Limiter
  pub lookups : Limiter

pub record Env : Type 0 where
  pub find_feed : Text → Option WebhookFeed
  pub ingest : WebhookFeed → Ingested
  -- The clock before the look-up of the token, and after it.
  pub now : ℕ
  pub later : ℕ

abbrev pub window_ms : ℕ
window_ms = 60000

abbrev pub bad_key : Text → Text
bad_key ip = codes "bad:" ++ ip

abbrev pub lookup_key : Text
lookup_key = codes "lookups"

-- The part before the look-up: an answer, or the limiters with both slots taken.
pub data Reserved : Type 0 where
  answered : Response → Limiters → Reserved
  looking_up : Limiters → Reserved

take_lookup : ℕ → Text → Limiters → LimitResult × Limiter → Reserved
take_lookup now ip ls (budget, lookups') =
    if not budget.ok
    then answered (limited budget.retry_after_sec) (record ls {
      untrusted = refund (bad_key ip) window_ms now ls.untrusted;
      lookups = lookups';
    })
    else looking_up (record ls { lookups = lookups' })

take_slot : ℕ → Text → Text → Limiters → LimitResult × Limiter → Reserved
unfolding take_lookup looks_like_token
take_slot now ip token ls (pre, untrusted') =
    let ls' = record ls { untrusted = untrusted' } in
    if not pre.ok
    then answered (limited pre.retry_after_sec) ls'
    else if not (looks_like_token token)
    then answered not_found ls'
    else take_lookup now ip ls' (hit lookup_key 600 window_ms now ls.lookups)

unfoldable pub reserve : ℕ → Text → Text → Limiters → Reserved
unfolding take_slot
reserve now ip token ls = take_slot now ip token ls (hit (bad_key ip) 30 window_ms now ls.untrusted)

-- The part after the look-up.
give_back : ℕ → Text → Limiters → Limiters
give_back later ip ls = record ls {
  untrusted = refund (bad_key ip) window_ms later ls.untrusted;
  lookups = refund lookup_key window_ms later ls.lookups;
}

per_user : Env → WebhookFeed → Limiters → LimitResult × Limiter → Response × Limiters
per_user env feed ls (r, trusted') =
    let ls' = record ls { trusted = trusted' } in
    if not r.ok then (limited r.retry_after_sec, ls') else (answer (env.ingest feed), ls')

per_feed : Env → WebhookFeed → Limiters → LimitResult × Limiter → Response × Limiters
unfolding per_user
per_feed env feed ls (r, trusted') =
    let ls' = record ls { trusted = trusted' } in
    if not r.ok
    then (limited r.retry_after_sec, ls')
    else per_user env feed ls'
        (hit (codes "user:" ++ feed.user_id) 120 window_ms env.later trusted')

unfoldable pub resume : Env → Text → Option WebhookFeed → Limiters → Response × Limiters
unfolding give_back per_feed
resume env ip none ls = (not_found, ls)
resume env ip (some feed) ls =
    let ls' = give_back env.later ip ls in
    if not feed.enabled
    then (not_found, ls)
    else per_feed env feed ls' (hit (codes "feed:" ++ feed.id) 60 window_ms env.later ls'.trusted)

resumed : Env → Text → Text → Reserved → Response × Limiters
unfolding resume
resumed env ip token (answered r ls) = (r, ls)
resumed env ip token (looking_up ls) = resume env ip (env.find_feed token) ls

unfoldable pub handle_hook : Env → Text → Text → Limiters → Response × Limiters
unfolding resumed reserve
handle_hook env ip token ls = resumed env ip token (reserve env.now ip token ls)
