-- ===== src/Hooks/Tests.antt =====
-- The webhook limiters at concrete inputs.
use simple_rss_notifications.Base.{ℕ, ◌≤◌, ◌≡◌, none, [], ◌∷◌, length, arith}
use simple_rss_notifications.Base.Strings.{codes}
use simple_rss_notifications.Hooks.Limiter.{Limiter, hit}
use simple_rss_notifications.Hooks.Handler.{Limiters, was_empty}
use simple_rss_notifications.Hooks.Handler.Slots.{Knock}
use simple_rss_notifications.Hooks.Limiter.Laws.{hit-retry_after}
use simple_rss_notifications.Hooks.Limiter.Bounded.{hit-bounded}
use simple_rss_notifications.Hooks.Limiter.Refined.{view, spec_hit, hit-refines}

abbrev limiter : Limiter
limiter = record {
  max_keys = 2;
  buckets = record { key = codes "a"; count = 3; start = 1000 } ∷ [];
}

hit-retry_after_example : 1 ≤ (hit (codes "a") 3 60000 5000 limiter).0.retry_after_sec
hit-retry_after_example = (hit-retry_after (codes "a") 3 60000 5000 70000 limiter (omega arith)).0

hit-bounded_example : length (hit (codes "b") 3 60000 5000 limiter).1.buckets ≤ limiter.max_keys
hit-bounded_example = (hit-bounded (codes "b") 3 60000 5000 limiter (omega arith) (omega arith)).0

abbrev limiters : Limiters
limiters = record {
  untrusted = record { max_keys = 10; buckets = [] };
  trusted = record { max_keys = 10; buckets = [] };
  lookups = record { max_keys = 1; buckets = [] };
}

-- An instant at which no token is known.
abbrev knock : ℕ → Knock
knock t = record {
  env = record { find_feed = λ _. none; ingest = λ _. was_empty; now = t; later = t };
  token = codes "0123456789abcdef0123456789abcdef";
}

hit-refines_example :
    view (hit (codes "b") 3 60000 5000 limiter).1
    ≡ (spec_hit (codes "b") 3 60000 5000 (view limiter)).1
hit-refines_example = (hit-refines (codes "b") 3 60000 5000 limiter (omega arith)).1
