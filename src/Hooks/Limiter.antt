-- ===== src/Hooks/Limiter.antt =====
-- web/src/lib/hooks/rateLimit.ts: `FixedWindowLimiter`. The map is a list of its entries in
-- insertion order; instants and windows are in milliseconds.
pub mod Laws
pub mod Bounded
pub mod Refined
use simple_rss_notifications.Base.{
  ℕ, zero, suc, ◌+◌, ◌-◌, ◌/◌, max, Bool, true, false, not, ◌&&◌, ◌||◌, Option, none, some, List,
  [], ◌∷◌, ◌++◌, Text, ltb, leb, ◌==◌, if◌then◌else◌, find, length, delete, update,
}
use simple_rss_notifications.Base.Strings.{text_eq}

pub record Bucket : Type 0 where
  pub key : Text
  pub count : ℕ
  pub start : ℕ

pub record LimitResult : Type 0 where
  pub ok : Bool
  pub retry_after_sec : ℕ

pub record Limiter : Type 0 where
  pub max_keys : ℕ
  pub buckets : List Bucket

abbrev pub is_key : Text → Bucket → Bool
is_key k b = text_eq b.key k

abbrev pub get : Text → List Bucket → Option Bucket
get k bs = find (is_key k) bs

-- `Math.max(1, Math.ceil((b.start + windowMs - now) / 1000))`
abbrev pub retry_after : Bucket → ℕ → ℕ → ℕ
retry_after b window_ms now = max 1 ((b.start + window_ms - now + 999) / 1000)

-- `now - b.start >= windowMs`, also where the clock went back.
abbrev pub is_over : Bucket → ℕ → ℕ → Bool
is_over b window_ms now = leb (b.start + window_ms) now

-- The loop of `evictFor`: entries go oldest first.
unfoldable pub evict_for : ℕ → ℕ → List Bucket → List Bucket
evict_for max_keys n [] = []
evict_for max_keys n (b ∷ bs) =
    let rest = evict_for max_keys n bs in
    if ltb max_keys (length (b ∷ bs) + n) then rest else b ∷ bs

-- A bucket whose window starts now, with one hit, behind all others.
unfoldable pub restart : Text → ℕ → Limiter → Limiter
unfolding evict_for
restart key now l = record l {
  buckets =
      evict_for l.max_keys 1 (delete (is_key key) l.buckets)
      ++ record { key = key; count = 1; start = now } ∷ [];
}

unfoldable pub count_hit : Text → Limiter → Limiter
count_hit key l = record l {
  buckets = update (is_key key) (λ (b : Bucket). record b { count = b.count + 1 }) l.buckets;
}

abbrev fresh_result : ℕ → ℕ → LimitResult
fresh_result limit window_ms = record {
  ok = leb 1 limit;
  retry_after_sec = max 1 ((window_ms + 999) / 1000);
}

hit_bucket : Text → ℕ → ℕ → ℕ → Limiter → Option Bucket → LimitResult × Limiter
unfolding restart count_hit
hit_bucket key limit window_ms now l none = (fresh_result limit window_ms, restart key now l)
hit_bucket key limit window_ms now l (some b) =
    if is_over b window_ms now then (fresh_result limit window_ms, restart key now l) else (
      record { ok = leb (b.count + 1) limit; retry_after_sec = retry_after b window_ms now },
      count_hit key l,
    )

unfoldable pub hit : Text → ℕ → ℕ → ℕ → Limiter → LimitResult × Limiter
unfolding hit_bucket
hit key limit window_ms now l = hit_bucket key limit window_ms now l (get key l.buckets)

peek_bucket : ℕ → ℕ → ℕ → Option Bucket → LimitResult
peek_bucket limit window_ms now none = record { ok = true; retry_after_sec = 0 }
peek_bucket limit window_ms now (some b) =
    if is_over b window_ms now
    then record { ok = true; retry_after_sec = 0 }
    else record { ok = ltb b.count limit; retry_after_sec = retry_after b window_ms now }

unfoldable pub peek : Text → ℕ → ℕ → ℕ → Limiter → LimitResult
unfolding peek_bucket
peek key limit window_ms now l = peek_bucket limit window_ms now (get key l.buckets)

refund_bucket : Text → ℕ → ℕ → Limiter → Option Bucket → Limiter
refund_bucket key window_ms now l none = l
refund_bucket key window_ms now l (some b) =
    if is_over b window_ms now || b.count == 0 then l else record l {
      buckets = update (is_key key) (λ (c : Bucket). record c { count = c.count - 1 }) l.buckets;
    }

unfoldable pub refund : Text → ℕ → ℕ → Limiter → Limiter
unfolding refund_bucket
refund key window_ms now l = refund_bucket key window_ms now l (get key l.buckets)
