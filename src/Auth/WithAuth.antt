-- ===== src/Auth/WithAuth.antt =====
-- web/src/lib/auth/withAuth.ts: the wrapper of the authenticated routes. The write of
-- `last_seen_at` is best-effort and left out.
use simple_rss_notifications.Base.{
  ℕ, ◌/◌, ◌≡◌, ◌≢◌, refl, Bool, true, false, not, ◌&&◌, ◌||◌, Option, none, some, List, Text, ltb,
  if◌then◌else◌, get_or, arith,
}
use simple_rss_notifications.Base.Strings.{codes, text_eq, text_eq_iff}
use simple_rss_notifications.Db.{Database}
use simple_rss_notifications.Auth.{
  Session, Denial, no_session, SessionCheck, live, dead, check_session_live, Request,
  is_same_origin,
}
use simple_rss_notifications.Auth.Gates.{IsFromUs, is_same_origin-IsFromUs}
use simple_rss_notifications.RateLimit.{
  Bucket, user_key, text_key, RateLimitOptions, RateLimitResult, rate_limit,
}

pub record WithAuthOptions : Type 0 where
  pub require_elevated : Bool
  pub rate_limit_per_user : Option RateLimitOptions
  pub rate_limit_per_ip : Option RateLimitOptions

pub data Verdict : Type 0 where
  -- The handler is called.
  proceed : Session → Verdict
  unauthorized : Denial → Verdict
  csrf : Verdict
  rate_limited : (retry_after_sec : ℕ) → Verdict
  reauth_required : Verdict

abbrev default_user_limit : RateLimitOptions
default_user_limit = record { limit = 120; window_ms = 60000 }

abbrev default_ip_limit : RateLimitOptions
default_ip_limit = record { limit = 600; window_ms = 60000 }

-- `!elevatedUntil || elevatedUntil < now`, in seconds.
abbrev pub is_elevated : ℕ → Option ℕ → Bool
is_elevated now_sec none = false
is_elevated now_sec (some until) = ltb 0 until && not (ltb until now_sec)

abbrev pub user_hit :
    ℕ → ℕ → WithAuthOptions → Session → List Bucket → RateLimitResult × List Bucket
user_hit now js_now opts s bs =
    rate_limit now js_now (user_key (codes "api:user") s.uid)
      (get_or opts.rate_limit_per_user default_user_limit) bs

abbrev pub ip_hit : ℕ → ℕ → WithAuthOptions → Text → List Bucket → RateLimitResult × List Bucket
ip_hit now js_now opts ip bs =
    rate_limit now js_now (text_key (codes "api:ip") ip)
      (get_or opts.rate_limit_per_ip default_ip_limit) bs

decide : ℕ → WithAuthOptions → Session → RateLimitResult → RateLimitResult → Verdict
decide js_now opts s per_user per_ip =
    if not per_user.ok || not per_ip.ok
    then rate_limited (if not per_user.ok then per_user.retry_after_sec else per_ip.retry_after_sec)
    else if opts.require_elevated && not (is_elevated (js_now / 1000) s.elevated_until)
    then reauth_required
    else proceed s

limited : ℕ → ℕ → WithAuthOptions → Session → Text → List Bucket → Verdict × List Bucket
unfolding decide
limited now js_now opts s ip bs =
    let (per_user, bs') = user_hit now js_now opts s bs in
    let (per_ip, bs'') = ip_hit now js_now opts ip bs' in
    (decide js_now opts s per_user per_ip, bs'')

checked :
    ℕ
    → ℕ
    → WithAuthOptions
    → Bool
    → Session
    → Text
    → SessionCheck
    → List Bucket
    → Verdict × List Bucket
unfolding limited
checked now js_now opts safe s ip (dead code) bs = (unauthorized code, bs)
checked now js_now opts safe s ip live bs =
    if safe then limited now js_now opts s ip bs else (csrf, bs)

-- Not `req.method !== 'GET' && req.method !== 'HEAD' && !isSameOrigin(req)`.
unfoldable pub is_safe : (Text → Option Text) → Text → Request → Bool
unfolding is_same_origin
is_safe url_origin base req =
    text_eq req.method (codes "GET")
    || text_eq req.method (codes "HEAD")
    || is_same_origin url_origin base req

-- `url_origin` is `new URL(…)`'s protocol and host, `base` is PUBLIC_BASE_URL.
unfoldable pub with_auth :
    (url_origin : Text → Option Text) (base : Text)
    → ℕ
    → ℕ
    → Database
    → WithAuthOptions
    → Request
    → (ip : Text) → Option Session
    → List Bucket
    → Verdict × List Bucket
unfolding checked is_safe
with_auth url_origin base now js_now db opts req ip none bs = (unauthorized no_session, bs)
with_auth url_origin base now js_now db opts req ip (some s) bs =
    checked now js_now opts (is_safe url_origin base req) s ip (check_session_live now db s) bs

decide-proceed :
    (js_now : ℕ) (opts : WithAuthOptions) (s s' : Session) (a b : RateLimitResult)
    → decide js_now opts s a b ≡ proceed s'
    → (s ≡ s')
      × (a.ok ≡ true)
      × (b.ok ≡ true)
      × (opts.require_elevated ≡ true → is_elevated (js_now / 1000) s.elevated_until ≡ true)
unfolding decide
decide-proceed js_now opts s s' a b h = (ground arith, ground arith, ground arith, ground arith)

checked-proceed :
    (now js_now : ℕ) (opts : WithAuthOptions) (safe : Bool) (t s : Session) (ip : Text)
    (c : SessionCheck) (bs : List Bucket)
    → (checked now js_now opts safe t ip c bs).0 ≡ proceed s
    → (t ≡ s)
      × (c ≡ live)
      × (safe ≡ true)
      × ((user_hit now js_now opts t bs).0.ok ≡ true)
      × ((ip_hit now js_now opts ip (user_hit now js_now opts t bs).1).0.ok ≡ true)
      × (opts.require_elevated ≡ true → is_elevated (js_now / 1000) t.elevated_until ≡ true)
unfolding checked
checked-proceed now js_now opts safe t s ip (dead code) bs h = cc
checked-proceed now js_now opts false t s ip live bs h = cc
checked-proceed now js_now opts true t s ip live bs h =
    let (same, user_ok, ip_ok, elevated) =
      decide-proceed js_now opts t s (user_hit now js_now opts t bs).0
        (ip_hit now js_now opts ip (user_hit now js_now opts t bs).1).0 h in
    (same, refl, refl, user_ok, ip_ok, elevated)

safe-IsFromUs :
    (url_origin : Text → Option Text) (base : Text) (req : Request)
    → is_safe url_origin base req ≡ true
    → req.method ≢ codes "GET"
    → req.method ≢ codes "HEAD"
    → IsFromUs url_origin base req
unfolding is_safe
safe-IsFromUs url_origin base req h get head =
    is_same_origin-IsFromUs url_origin base req
      (ground (arith, text_eq_iff req.method (codes "GET"), text_eq_iff req.method (codes "HEAD")))

-- A handler runs only for a live session, with both limits kept, and if the route asks for it within
-- the time of a re-authentication. Unless the method is GET or HEAD, the request also comes from us:
-- its `Origin` is that of PUBLIC_BASE_URL; or it has none and its `Referer` is on that origin; or it
-- has neither. An empty header counts as none.
pub with_auth-proceed :
    (url_origin : Text → Option Text) (base : Text) (now js_now : ℕ) (db : Database)
    (opts : WithAuthOptions) (req : Request) (ip : Text) (session : Option Session)
    (bs : List Bucket) (s : Session)
    → (with_auth url_origin base now js_now db opts req ip session bs).0 ≡ proceed s
    → (session ≡ some s)
      × (check_session_live now db s ≡ live)
      × (req.method ≢ codes "GET" → req.method ≢ codes "HEAD" → IsFromUs url_origin base req)
      × ((user_hit now js_now opts s bs).0.ok ≡ true)
      × ((ip_hit now js_now opts ip (user_hit now js_now opts s bs).1).0.ok ≡ true)
      × (opts.require_elevated ≡ true → is_elevated (js_now / 1000) s.elevated_until ≡ true)
unfolding with_auth
with_auth-proceed url_origin base now js_now db opts req ip none bs s h = cc
with_auth-proceed url_origin base now js_now db opts req ip (some t) bs s h =
    let (same, alive, safe, user_ok, ip_ok, elevated) =
      checked-proceed now js_now opts (is_safe url_origin base req) t s ip
        (check_session_live now db t) bs h in
    rw (← same) (refl, alive, safe-IsFromUs url_origin base req safe, user_ok, ip_ok, elevated)
