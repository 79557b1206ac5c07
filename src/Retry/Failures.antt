-- ===== src/Retry/Failures.antt =====
-- Which provider codes are final.
use mathlib.Core.List.{reverse, reverse-append}
use simple_rss_notifications.Base.{ℕ, ◌≡◌, true, not, ◌&&◌, some, [], ◌∷◌, ◌++◌, Text, arith, ◌==◌}
use simple_rss_notifications.Base.Strings.{codes, is_digit}
use simple_rss_notifications.Retry.{is_permanent_failure}

-- The code that a provider's client gives to a 4xx answer whose last two digits are `d` and `e`.
abbrev pub http_4xx : Text → ℕ → ℕ → Text
http_4xx provider d e = provider ++ (codes "-http-4" ++ d ∷ e ∷ [])

reverse-http_4xx :
    (provider : Text) (d e : ℕ)
    → reverse (http_4xx provider d e) ≡ e ∷ d ∷ (reverse (codes "-http-4") ++ reverse provider)
reverse-http_4xx provider d e = reverse-append provider (codes "-http-4" ++ d ∷ e ∷ [])

-- Whatever the provider, a 4xx answer is final, except for 429, which is retried.
pub is_permanent_failure-http_4xx :
    (provider : Text) (d e : ℕ)
    → is_digit d ≡ true
    → is_digit e ≡ true
    → is_permanent_failure (some (http_4xx provider d e)) ≡ not (d == b'2' && e == b'9')
unfolding is_permanent_failure
is_permanent_failure-http_4xx [] d e hd he = ground arith
is_permanent_failure-http_4xx (c ∷ provider) d e hd he =
    rw (reverse-http_4xx (c ∷ provider) d e) (ground arith)
