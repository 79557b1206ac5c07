-- ===== src/Dispatch/Batch.antt =====
-- web/src/worker/dispatcher.ts: `dispatchPending`, one tick of the dispatcher.
pub mod Progress
use simple_rss_notifications.Base.{
  ℕ, Bool, true, false, ◌&&◌, Option, none, some, List, [], ◌∷◌, Text, ◌==◌, if◌then◌else◌, find,
}
use simple_rss_notifications.Base.Strings.{codes, text_eq}
use mathlib.Core.Option
use simple_rss_notifications.Db.{Database, Dispatch, Sinks}
use simple_rss_notifications.Dispatch.{ClaimedJob, claim}
use simple_rss_notifications.Dispatch.Deliver.{
  Env, AnySink, smtp_sink, resend_sink, ntfy_sink, discord_sink, deliver_one,
}
use simple_rss_notifications.Dispatch.Groups.{Group, by_destination}

-- `loadSinksForBatch` and the look-up of `type:id` in what it returns: one table for each known
-- sink type, and nothing for any other type.
unfoldable pub sink_of : Sinks → ClaimedJob → Option AnySink
sink_of sinks job =
    if text_eq job.sink_type (codes "smtp")
    then Option.map smtp_sink (find (λ s. s.id == job.sink_id) sinks.sinks_smtp)
    else if text_eq job.sink_type (codes "resend")
    then Option.map resend_sink (find (λ s. s.id == job.sink_id) sinks.sinks_resend)
    else if text_eq job.sink_type (codes "ntfy")
    then Option.map ntfy_sink (find (λ s. s.id == job.sink_id) sinks.sinks_ntfy)
    else if text_eq job.sink_type (codes "discord_webhook")
    then Option.map discord_sink (find (λ s. s.id == job.sink_id) sinks.sinks_discord_webhook)
    else none

module _ (env : ClaimedJob → Env) (sinks : Sinks) where
  -- The loop over one group.
  unfoldable pub run_jobs : List ClaimedJob → List Dispatch → List Dispatch
  run_jobs [] ds = ds
  run_jobs (job ∷ jobs) ds = run_jobs jobs (deliver_one (env job) job (sink_of sinks job) ds)

  -- The groups, here one after the other; in the code they run side by side.
  unfoldable pub run_groups : List Group → List Dispatch → List Dispatch
  unfolding run_jobs
  run_groups [] ds = ds
  run_groups (g ∷ gs) ds = run_groups gs (run_jobs g.jobs ds)

abbrev pub is_nil : List ClaimedJob → Bool
is_nil [] = true
is_nil (j ∷ js) = false

-- The result says whether there was work to do.
unfoldable pub dispatch_pending : (ClaimedJob → Env) → ℕ → Database → Bool × Database
unfolding run_groups
dispatch_pending env now db =
    let (claimed, db') = claim now db in
    if is_nil claimed then (false, db') else (
      true,
      record db' { dispatches = run_groups env db.sinks (by_destination claimed) db'.dispatches },
    )
