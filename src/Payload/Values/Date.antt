-- ===== src/Payload/Values/Date.antt =====
-- normalize.ts: the range of what `parseDate` returns.
use simple_rss_notifications.Base.{ℕ, ◌+◌, ◌≤◌, Option, none, some, arith, if_holds}
use simple_rss_notifications.Base.Integers.{ℤ, pos, negsuc}
use simple_rss_notifications.Payload.Json.{Json, null, boolean, number, string, array, object}
use simple_rss_notifications.Payload.Runtime.{Runtime}
use simple_rss_notifications.Payload.Fields.{is_empty}
use simple_rss_notifications.Payload.Values.{parse_date, checked_time, future_tolerance_ms}

-- Not more than the tolerance after the clock.
unfoldable pub IsNotFuture : ℕ → Option ℤ → Type 0
IsNotFuture now none = Unit
IsNotFuture now (some (pos t)) = t ≤ now + future_tolerance_ms
IsNotFuture now (some (negsuc t)) = Unit

checked_time-IsNotFuture :
    (rt : Runtime) (now : ℕ) (t : Option ℤ) → IsNotFuture now (checked_time rt now t)
unfolding checked_time IsNotFuture
checked_time-IsNotFuture rt now none = tt
checked_time-IsNotFuture rt now (some (pos t)) = ground arith
checked_time-IsNotFuture rt now (some (negsuc t)) = ground arith

pub parse_date-IsNotFuture :
    (rt : Runtime) (now : ℕ) (v : Option Json) → IsNotFuture now (parse_date rt now v)
unfolding parse_date IsNotFuture
parse_date-IsNotFuture rt now none = tt
parse_date-IsNotFuture rt now (some null) = tt
parse_date-IsNotFuture rt now (some (boolean b)) = tt
parse_date-IsNotFuture rt now (some (number n)) = tt
parse_date-IsNotFuture rt now (some (array vs)) = tt
parse_date-IsNotFuture rt now (some (object fs)) = tt
parse_date-IsNotFuture rt now (some (string s)) =
    if_holds (IsNotFuture now) (is_empty s) none (checked_time rt now (rt.parse_time s)) (λ h. tt)
      (λ h. checked_time-IsNotFuture rt now (rt.parse_time s))
