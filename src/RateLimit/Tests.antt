-- ===== src/RateLimit/Tests.antt =====
-- The limiter in Postgres at concrete inputs.
use simple_rss_notifications.Base.{◌≡◌, ◌≢◌, refl, min, [], ◌∷◌, arith}
use simple_rss_notifications.Base.Strings.{codes}
use simple_rss_notifications.RateLimit.{BucketKey, user_key, text_key, RateLimitOptions}
use simple_rss_notifications.RateLimit.Window.{allowed, allowed_lem}

abbrev key : BucketKey
key = user_key (codes "api:user") 7

abbrev other : BucketKey
other = text_key (codes "api:ip") (codes "10.0.0.1")

abbrev two_a_minute : RateLimitOptions
two_a_minute = record { limit = 2; window_ms = 60000 }

allowed_lem_example : allowed key two_a_minute (1000 ∷ 2000 ∷ 50000 ∷ []) [] ≡ min 2 3
allowed_lem_example =
    allowed_lem key two_a_minute 1000 (2000 ∷ 50000 ∷ []) [] refl (omega arith, (omega arith, tt))

apart : key ≢ other
apart h = cc
