-- ===== src/Retry/Tests.antt =====
-- The retry policy at concrete inputs.
use simple_rss_notifications.Base.{◌≤◌, ◌≡◌, refl, true, false, some, none}
use simple_rss_notifications.Base.Strings.{codes}
use simple_rss_notifications.Retry.{
  backoff_sec, retry_delay_sec, parse_retry_after_sec, is_permanent_failure,
}
use simple_rss_notifications.Retry.Bounds.{retry_delay_sec_bounds}
use simple_rss_notifications.Retry.Failures.{is_permanent_failure-http_4xx}

retry_delay_sec_bounds_example : backoff_sec 2 ≤ retry_delay_sec 2 (some 700)
retry_delay_sec_bounds_example = (retry_delay_sec_bounds 2 (some 700)).0

is_permanent_failure-http_4xx_example : is_permanent_failure (some (codes "ntfy-http-403")) ≡ true
is_permanent_failure-http_4xx_example =
    is_permanent_failure-http_4xx (codes "ntfy") b'0' b'3' refl refl

retry_runs :
    (is_permanent_failure (some (codes "resend-http-429")) ≡ false)
    × (is_permanent_failure (some (codes "EAUTH")) ≡ true)
    × (is_permanent_failure (some (codes "ntfy-http-503")) ≡ false)
    × (parse_retry_after_sec (λ _. none) (some (codes " 120 ")) 0 ≡ some 120)
    × (parse_retry_after_sec (λ _. some 5000) (some (codes "12.5.3")) 0 ≡ none)
unfolding is_permanent_failure parse_retry_after_sec
retry_runs = (refl, refl, refl, refl, refl)
