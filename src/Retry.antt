-- ===== src/Retry.antt =====
-- web/src/lib/retry.ts: how long the dispatcher waits, and which failures are final.
-- `Date.parse` and `Number` on a header are parameters; numbers stay below 2^53.
pub mod Bounds
pub mod Failures
mod Tests
use mathlib.Core.List.{reverse}
use simple_rss_notifications.Base.{
  ℕ, ◌+◌, ◌-◌, ◌*◌, ◌/◌, ◌^◌, min, max, String, Bool, true, false, not, ◌&&◌, ◌||◌, Option, none,
  some, List, [], ◌∷◌, ◌++◌, Text, all, any, ltb, ◌==◌, if◌then◌else◌, get_or,
}
use simple_rss_notifications.Base.Strings.{
  codes, text_eq, ends_with, starts_with, is_digit, is_upper, is_lower, trim, decimal_from,
}

abbrev pub max_retry_delay_sec : ℕ
max_retry_delay_sec = 3600

-- `attempts - 1` stops at 0, as `Math.max(0, attempts - 1)` does.
unfoldable pub backoff_sec : ℕ → ℕ
backoff_sec attempts = min max_retry_delay_sec (60 * 5 ^ (attempts - 1))

-- `none` is `undefined` or `null`.
unfoldable pub retry_delay_sec : ℕ → Option ℕ → ℕ
retry_delay_sec attempts none = backoff_sec attempts
retry_delay_sec attempts (some hint) =
    if hint == 0
    then backoff_sec attempts
    else min max_retry_delay_sec (max (backoff_sec attempts) hint)

abbrev is_letter : ℕ → Bool
is_letter c = is_upper c || is_lower c

abbrev is_empty : Text → Bool
is_empty [] = true
is_empty (c ∷ s) = false

-- A date before 1970 is read as 0: the delay is 0 either way.
module _ (date_parse : Text → Option ℕ) where
  delay_until : Option ℕ → ℕ → Option ℕ
  delay_until none now_ms = none
  delay_until (some date_ms) now_ms = some ((date_ms - now_ms + 999) / 1000)

  parse_trimmed : Text → ℕ → Option ℕ
  unfolding delay_until decimal_from
  parse_trimmed trimmed now_ms =
      if not (is_empty trimmed) && all is_digit trimmed
      then some (decimal_from 0 trimmed)
      else if any is_letter trimmed
      then delay_until (date_parse trimmed) now_ms
      else none

  pub parse_retry_after_sec : Option Text → ℕ → Option ℕ
  unfolding parse_trimmed trim
  parse_retry_after_sec none now_ms = none
  parse_retry_after_sec (some []) now_ms = none
  parse_retry_after_sec (some (c ∷ s)) now_ms = parse_trimmed (trim (c ∷ s)) now_ms

  -- `positive_ceil h` is `Math.ceil(Number(h))` where that number is finite and above 0.
  pub retry_after_hint_sec : (Text → Option ℕ) → (String → Option Text) → ℕ → ℕ → Option ℕ
  unfolding parse_retry_after_sec
  retry_after_hint_sec positive_ceil header status now_ms =
      let ra = parse_retry_after_sec (header "retry-after") now_ms in
      let reset_sec : ℕ = elim (header "x-ratelimit-reset-after") [
        | none ↦ 0
        | some h ↦ get_or (positive_ceil h) 0
      ] in
      let longest : ℕ = max (get_or ra 0) reset_sec in
      if not (status == 429) then none else if ltb 0 longest then some longest else none

-- `/-http-4\d\d$/`, read from the end.
abbrev ends_in_http_4xx : Text → Bool
ends_in_http_4xx (d ∷ e ∷ s) = is_digit d && is_digit e && starts_with (reverse (codes "-http-4")) s
ends_in_http_4xx (d ∷ []) = false
ends_in_http_4xx [] = false

unfoldable pub is_permanent_failure : Option Text → Bool
unfolding ends_with
is_permanent_failure none = false
is_permanent_failure (some code) =
    if is_empty code
    then false
    else if ends_with (codes "-http-429") code
    then false
    else text_eq code (codes "sink-incomplete")
      || text_eq code (codes "decrypt-failed")
      || text_eq code (codes "ssrf-blocked")
      || text_eq code (codes "EAUTH")
      || text_eq code (codes "EENVELOPE")
      || ends_in_http_4xx (reverse code)
