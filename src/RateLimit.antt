-- ===== src/RateLimit.antt =====
-- web/src/lib/ratelimit.ts: the limiter that keeps its buckets in Postgres. A key such as
-- `api:user:<uid>` is its prefix and its subject. `now` is the database's clock, `js_now` the
-- process's, both in milliseconds; the upsert always returns a row, so the branch for an empty
-- answer is left out.
pub mod Window
mod Tests
use simple_rss_notifications.Base.{
  ℕ, ◌+◌, ◌-◌, ◌/◌, max, Bool, true, false, not, ◌&&◌, Option, none, some, List, [], ◌∷◌, Text, ltb,
  leb, ◌==◌, ◌≡◌, ◌↔◌, refl, arith, if◌then◌else◌,
}
use simple_rss_notifications.Base.Strings.{text_eq, text_eq_iff}

pub data BucketKey : Type 0 where
  user_key : (prefix : Text) → ℕ → BucketKey
  text_key : (prefix : Text) → Text → BucketKey

abbrev pub key_eq : BucketKey → BucketKey → Bool
key_eq (user_key p i) (user_key q j) = text_eq p q && i == j
key_eq (text_key p s) (text_key q t) = text_eq p q && text_eq s t
key_eq (user_key p i) (text_key q t) = false
key_eq (text_key p s) (user_key q j) = false

pub key_eq_iff : (j k : BucketKey) → (key_eq j k ≡ true) ↔ (j ≡ k)
key_eq_iff (user_key p i) (user_key q j) = ground (arith, text_eq_iff p q)
key_eq_iff (text_key p s) (text_key q t) = ground (arith, text_eq_iff p q, text_eq_iff s t)
key_eq_iff (user_key p i) (text_key q t) = ground arith
key_eq_iff (text_key p s) (user_key q j) = ground arith

pub key_eq_refl : (k : BucketKey) → key_eq k k ≡ true
key_eq_refl k = (key_eq_iff k k).1 refl

-- A row of rate_limit_buckets.
pub record Bucket : Type 0 where
  pub key : BucketKey
  pub count : ℕ
  pub window_start : ℕ

pub record RateLimitOptions : Type 0 where
  pub limit : ℕ
  pub window_ms : ℕ

pub record RateLimitResult : Type 0 where
  pub ok : Bool
  pub count : ℕ
  pub limit : ℕ
  pub retry_after_sec : ℕ
  pub window_remaining_ms : ℕ

-- `ON CONFLICT (key) DO UPDATE`: a stale window starts anew.
abbrev pub bump_bucket : ℕ → ℕ → Bucket → Bucket
bump_bucket window_ms now b =
    if ltb window_ms (now - b.window_start)
    then record b { count = 1; window_start = now }
    else record b { count = b.count + 1 }

-- The upsert, and the row that it returns.
unfoldable pub upsert : BucketKey → ℕ → ℕ → List Bucket → Bucket × List Bucket
upsert key window_ms now [] =
    let fresh : Bucket = record { key = key; count = 1; window_start = now } in (fresh, fresh ∷ [])
upsert key window_ms now (b ∷ bs) =
    let rest = upsert key window_ms now bs in
    if key_eq b.key key
    then (bump_bucket window_ms now b, bump_bucket window_ms now b ∷ bs)
    else (rest.0, b ∷ rest.1)

unfoldable pub result_of : RateLimitOptions → ℕ → Bucket → RateLimitResult
result_of opts js_now row =
    let remaining = opts.window_ms + row.window_start - js_now in
    record {
      ok = leb row.count opts.limit;
      count = row.count;
      limit = opts.limit;
      retry_after_sec = max 1 ((remaining + 999) / 1000);
      window_remaining_ms = remaining;
    }

unfoldable pub rate_limit :
    ℕ → ℕ → BucketKey → RateLimitOptions → List Bucket → RateLimitResult × List Bucket
unfolding upsert result_of
rate_limit now js_now key opts buckets =
    let (row, buckets') = upsert key opts.window_ms now buckets in
    (result_of opts js_now row, buckets')

pub record Check : Type 0 where
  pub key : BucketKey
  pub opts : RateLimitOptions

-- Every check counts its hit; the first that is exceeded is returned, else the last. The callers
-- pass at least one check.
unfoldable pub rate_limit_all :
    ℕ → ℕ → Check → List Check → List Bucket → RateLimitResult × List Bucket
unfolding rate_limit
rate_limit_all now js_now c [] buckets = rate_limit now js_now c.key c.opts buckets
rate_limit_all now js_now c (d ∷ cs) buckets =
    let (first, buckets') = rate_limit now js_now c.key c.opts buckets in
    let (rest, buckets'') = rate_limit_all now js_now d cs buckets' in
    (if first.ok then rest else first, buckets'')
