-- ===== src/RateLimit/Window.antt =====
-- web/src/lib/ratelimit.ts: series of hits, and the buckets of other keys.
use simple_rss_notifications.Base.{
  ℕ, ◌+◌, ◌-◌, ◌≤◌, min, ◌≡◌, ◌≢◌, refl, ◌∙◌, ap, Option, none, some, List, [], ◌∷◌, if◌then◌else◌,
  find, length, All, arith,
}
use simple_rss_notifications.RateLimit.{
  BucketKey, key_eq, key_eq_iff, key_eq_refl, Bucket, RateLimitOptions, bump_bucket, upsert,
  rate_limit, result_of,
}

abbrev pub bucket_of : BucketKey → List Bucket → Option Bucket
bucket_of key bs = find (λ (b : Bucket). key_eq b.key key) bs

-- The row that a hit leaves: a new bucket, or the old one bumped.
abbrev pub hit_row : BucketKey → ℕ → ℕ → Option Bucket → Bucket
hit_row key window_ms now none = record { key = key; count = 1; window_start = now }
hit_row key window_ms now (some b) = bump_bucket window_ms now b

upsert-row :
    (key : BucketKey) (window_ms now : ℕ) (bs : List Bucket)
    → (upsert key window_ms now bs).0 ≡ hit_row key window_ms now (bucket_of key bs)
unfolding upsert
upsert-row key window_ms now [] = refl
upsert-row key window_ms now (b ∷ bs) = ground (arith, upsert-row key window_ms now bs)

-- A hit writes its own bucket and no other.
pub bucket_of-upsert :
    (key other : BucketKey) (window_ms now : ℕ) (bs : List Bucket)
    → bucket_of other (upsert key window_ms now bs).1 ≡ (
        if key_eq key other
        then some (hit_row key window_ms now (bucket_of key bs))
        else bucket_of other bs)
unfolding upsert
bucket_of-upsert key other window_ms now [] = ground arith
bucket_of-upsert key other window_ms now (b ∷ bs) = ground (
  arith,
  bucket_of-upsert key other window_ms now bs,
  key_eq_iff b.key key,
  key_eq_iff b.key other,
  key_eq_iff key other,
)

-- How many of a series of hits on one key are let through.
pub allowed : BucketKey → RateLimitOptions → List ℕ → List Bucket → ℕ
allowed key opts [] bs = 0
allowed key opts (t ∷ ts) bs =
    let (r, bs') = rate_limit t t key opts bs in (if r.ok then 1 else 0) + allowed key opts ts bs'

allowed_in_window :
    (key : BucketKey) (opts : RateLimitOptions) (ts : List ℕ) (bs : List Bucket) (b : Bucket)
    → bucket_of key bs ≡ some b
    → All (λ t. t ≤ b.window_start + opts.window_ms) ts
    → allowed key opts ts bs ≡ min (opts.limit - b.count) (length ts)
unfolding allowed rate_limit result_of
allowed_in_window key opts [] bs b e h = omega arith
allowed_in_window key opts (t ∷ ts) bs b e h =
    let row = upsert-row key opts.window_ms t bs in
    let b' : Bucket = record b { count = b.count + 1 } in
    let kept : bump_bucket opts.window_ms t b ≡ b' = ground arith in
    let next : bucket_of key (upsert key opts.window_ms t bs).1 ≡ some b' =
      bucket_of-upsert key key opts.window_ms t bs ∙ rw (key_eq_refl key, e) (ap some kept) in
    let rest = allowed_in_window key opts ts (upsert key opts.window_ms t bs).1 b' next h.1 in
    let same : (upsert key opts.window_ms t bs).0 ≡ b' = row ∙ rw e kept in
    rw (same, rest) (ground arith)

-- Of any hits on a key within one window of the first, exactly the first `limit` are let through.
pub allowed_lem :
    (key : BucketKey) (opts : RateLimitOptions) (first : ℕ) (ts : List ℕ) (bs : List Bucket)
    → bucket_of key bs ≡ none
    → All (λ t. t ≤ first + opts.window_ms) ts
    → allowed key opts (first ∷ ts) bs ≡ min opts.limit (length (first ∷ ts))
unfolding allowed rate_limit result_of
allowed_lem key opts first ts bs e h =
    let fresh : Bucket = record { key = key; count = 1; window_start = first } in
    let next : bucket_of key (upsert key opts.window_ms first bs).1 ≡ some fresh =
      bucket_of-upsert key key opts.window_ms first bs ∙ rw (key_eq_refl key, e) refl in
    let same : (upsert key opts.window_ms first bs).0 ≡ fresh =
      upsert-row key opts.window_ms first bs ∙ rw e refl in
    rw (same, allowed_in_window key opts ts (upsert key opts.window_ms first bs).1 fresh next h)
      (ground arith)

-- A hit on one key changes the bucket of no other key.
pub rate_limit-other :
    (now js_now : ℕ) (key other : BucketKey) (opts : RateLimitOptions) (bs : List Bucket)
    → key ≢ other
    → bucket_of other (rate_limit now js_now key opts bs).1 ≡ bucket_of other bs
unfolding rate_limit
rate_limit-other now js_now key other opts bs apart =
    ground (arith, bucket_of-upsert key other opts.window_ms now bs, key_eq_iff key other)
