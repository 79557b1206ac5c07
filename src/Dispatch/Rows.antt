-- ===== src/Dispatch/Rows.antt =====
-- web/src/worker/dispatcher.ts: what each outcome of a delivery writes into the dispatch's row.
use simple_rss_notifications.Base.{
  ℕ, ◌+◌, ◌*◌, Bool, ◌||◌, Option, none, some, ◌++◌, Text, leb, if◌then◌else◌, take, get_or,
}
use simple_rss_notifications.Base.Strings.{codes}
use simple_rss_notifications.Retry.{backoff_sec, retry_delay_sec, is_permanent_failure}
use simple_rss_notifications.Db.{Dispatch, pending, sent, failed, skipped}
use simple_rss_notifications.Dispatch.{ClaimedJob, max_attempts}

-- What a provider's client returns.
pub record SendResult : Type 0 where
  pub ok : Bool
  pub provider_message_id : Option Text
  pub error : Option Text
  pub code : Option Text
  pub retry_after_sec : Option ℕ

abbrev pub skipped_row : Dispatch → Dispatch
skipped_row d = record d { status = skipped; error = some (codes "sink deleted") }

abbrev pub no_destination_row : ℕ → Dispatch → Dispatch
no_destination_row now d = record d {
  status = failed;
  error = some (codes "route has no destination");
  dispatched_at = some now;
}

abbrev pub sent_row : ℕ → SendResult → Dispatch → Dispatch
sent_row now r d = record d {
  status = sent;
  dispatched_at = some now;
  provider_message_id = r.provider_message_id;
  error = none;
}

-- `(result.error ?? 'unknown').slice(0, 500)`
abbrev pub error_text : SendResult → Text
error_text r = take 500 (get_or r.error (codes "unknown"))

abbrev pub failed_row : ℕ → Text → Dispatch → Dispatch
failed_row now err d = record d { status = failed; dispatched_at = some now; error = some err }

abbrev pub retry_row : ℕ → ℕ → Text → Dispatch → Dispatch
retry_row now delay_sec err d = record d {
  status = pending;
  scheduled_at = now + delay_sec * 1000;
  error = some err;
  dispatched_at = none;
}

-- The row after an answer: sent, failed for good, or rescheduled.
unfoldable pub answered_row : ℕ → ClaimedJob → SendResult → Dispatch → Dispatch
answered_row now job r d =
    if r.ok
    then sent_row now r d
    else if is_permanent_failure r.code || leb max_attempts job.attempts
    then failed_row now (error_text r) d
    else retry_row now (retry_delay_sec job.attempts r.retry_after_sec) (error_text r) d

abbrev pub internal_error : Text → Text
internal_error err = take 500 (codes "internal error: " ++ err)

-- The row after an unexpected throw.
unfoldable pub rescued_row : ℕ → ClaimedJob → Text → Dispatch → Dispatch
rescued_row now job err d =
    if leb max_attempts job.attempts
    then failed_row now (internal_error err) d
    else retry_row now (backoff_sec job.attempts) (internal_error err) d
