-- ===== src/Hooks/Handler/Stored.antt =====
-- web/src/lib/hooks/handler.ts: which requests are answered as stored.
use simple_rss_notifications.Base.{
  ℕ, ◌≡◌, refl, Bool, true, false, not, Option, none, some, ◌++◌, Text, arith, if◌then◌else◌,
  if_holds,
}
use simple_rss_notifications.Base.Strings.{codes}
use simple_rss_notifications.Hooks.Limiter.{Limiter, LimitResult, hit, refund}
use simple_rss_notifications.Hooks.Handler.{
  WebhookFeed, Response, limited, not_found, no_content, saved_item, answer, Limiters, Env,
  Reserved, answered, looking_up, take_lookup, take_slot, reserve, per_user, per_feed, resume,
  resumed, handle_hook, looks_like_token, lookup_key, window_ms, bad_key, give_back,
}

abbrev pub is_stored : Response → Bool
is_stored no_content = true
is_stored saved_item = true
is_stored _ = false

-- An answer before the look-up says that nothing is stored.
abbrev IsRefusal : Reserved → Type 0
IsRefusal (answered r ls) = is_stored r ≡ false
IsRefusal (looking_up ls) = Unit

take_lookup-IsRefusal :
    (now : ℕ) (ip : Text) (ls : Limiters) (p : LimitResult × Limiter)
    → IsRefusal (take_lookup now ip ls p)
unfolding take_lookup
take_lookup-IsRefusal now ip ls (budget, l) =
    if_holds IsRefusal (not budget.ok)
      (answered (limited budget.retry_after_sec)
        (record ls { untrusted = refund (bad_key ip) window_ms now ls.untrusted; lookups = l }))
      (looking_up (record ls { lookups = l })) (λ e. refl) (λ e. tt)

take_slot-IsRefusal :
    (now : ℕ) (ip token : Text) (ls : Limiters) (p : LimitResult × Limiter)
    → IsRefusal (take_slot now ip token ls p)
unfolding take_slot
take_slot-IsRefusal now ip token ls (pre, l) =
    let ls' = record ls { untrusted = l } in
    let looked = take_lookup now ip ls' (hit lookup_key 600 window_ms now ls.lookups) in
    if_holds IsRefusal (not pre.ok) (answered (limited pre.retry_after_sec) ls')
      (if not (looks_like_token token) then answered not_found ls' else looked) (λ e. refl)
      (λ e.
        if_holds IsRefusal (not (looks_like_token token)) (answered not_found ls') looked
          (λ k. refl)
          (λ k. take_lookup-IsRefusal now ip ls' (hit lookup_key 600 window_ms now ls.lookups)))

-- The feed of a stored request is there and enabled, and the insert was reached and worked.
unfoldable pub IsFrom : Env → Option WebhookFeed → Type 0
IsFrom env none = true ≡ false
IsFrom env (some feed) = (feed.enabled ≡ true) × (is_stored (answer (env.ingest feed)) ≡ true)

module _ (env : Env) (feed : WebhookFeed) (enabled : feed.enabled ≡ true) where
  abbrev AreFrom : Response × Limiters → Type 0
  AreFrom r = is_stored r.0 ≡ true → IsFrom env (some feed)

  per_user-AreFrom : (ls : Limiters) (p : LimitResult × Limiter) → AreFrom (per_user env feed ls p)
  unfolding per_user IsFrom
  per_user-AreFrom ls (r, l) =
      let ls' = record ls { trusted = l } in
      if_holds AreFrom (not r.ok) (limited r.retry_after_sec, ls') (answer (env.ingest feed), ls')
        (λ e h. absurd (ground arith)) (λ e h. (enabled, h))

  per_feed-AreFrom : (ls : Limiters) (p : LimitResult × Limiter) → AreFrom (per_feed env feed ls p)
  unfolding per_feed
  per_feed-AreFrom ls (r, l) =
      let ls' = record ls { trusted = l } in
      let slot = hit (codes "user:" ++ feed.user_id) 120 window_ms env.later l in
      if_holds AreFrom (not r.ok) (limited r.retry_after_sec, ls') (per_user env feed ls' slot)
        (λ e h. absurd (ground arith)) (λ e. per_user-AreFrom ls' slot)

resume-IsFrom :
    (env : Env) (ip : Text) (o : Option WebhookFeed) (ls : Limiters)
    → is_stored (resume env ip o ls).0 ≡ true
    → IsFrom env o
unfolding resume IsFrom
resume-IsFrom env ip none ls = λ h. absurd (ground arith)
resume-IsFrom env ip (some feed) ls =
    let ls' = give_back env.later ip ls in
    let slot = hit (codes "feed:" ++ feed.id) 60 window_ms env.later ls'.trusted in
    if_holds (λ (r : Response × Limiters). is_stored r.0 ≡ true → IsFrom env (some feed))
      (not feed.enabled) (not_found, ls) (per_feed env feed ls' slot) (λ e h. absurd (ground arith))
      (λ e. per_feed-AreFrom env feed (ground arith) ls' slot)

resumed-IsFrom :
    (env : Env) (ip token : Text) (r : Reserved)
    → IsRefusal r
    → is_stored (resumed env ip token r).0 ≡ true
    → IsFrom env (env.find_feed token)
unfolding resumed
resumed-IsFrom env ip token (answered r ls) k h = absurd (ground arith)
resumed-IsFrom env ip token (looking_up ls) k h = resume-IsFrom env ip (env.find_feed token) ls h

-- A request is answered as stored only where its token finds an enabled feed and the insert for that
-- feed was reached and worked.
pub handle_hook-IsFrom :
    (env : Env) (ip token : Text) (ls : Limiters)
    → is_stored (handle_hook env ip token ls).0 ≡ true
    → IsFrom env (env.find_feed token)
unfolding handle_hook reserve
handle_hook-IsFrom env ip token ls h =
    resumed-IsFrom env ip token (reserve env.now ip token ls)
      (take_slot-IsRefusal env.now ip token ls (hit (bad_key ip) 30 window_ms env.now ls.untrusted))
      h
