-- ===== src/Maintenance.antt =====
-- web/src/worker/maintenance.ts: the hourly sweep.
pub mod Harmless
mod Tests
use simple_rss_notifications.Base.{ℕ, ◌+◌, Bool, true, false, List, ltb, delete, if◌then◌else◌}
use simple_rss_notifications.Db.{Database, WebSession}
use simple_rss_notifications.RateLimit.{Bucket}

abbrev pub is_expired : ℕ → WebSession → Bool
is_expired now w = ltb w.expires_at now

-- `window_start < now() - interval '1 day'`
abbrev pub is_old : ℕ → Bucket → Bool
is_old now b = ltb (b.window_start + 86_400_000) now

abbrev pub sweep_sessions : ℕ → Database → Database
sweep_sessions now db = record db { web_sessions = delete (is_expired now) db.web_sessions }

-- Either delete may throw, and then what follows is left out; a throw is logged and dropped.
unfoldable pub run_maintenance :
    ℕ → (sessions_ok buckets_ok : Bool) → Database → List Bucket → Database × List Bucket
run_maintenance now sessions_ok buckets_ok db buckets =
    if sessions_ok
    then (sweep_sessions now db, if buckets_ok then delete (is_old now) buckets else buckets)
    else (db, buckets)
