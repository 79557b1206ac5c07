-- ===== src/System/Deliveries.antt =====
-- web/src/worker/dispatcher.ts: what a tick of the dispatcher leaves of the keys of the dispatches.
use simple_rss_notifications.Base.{
  ℕ, Bool, true, false, Option, none, some, List, [], ◌∷◌, All, All-update, arith, if_holds, update,
  ◌&&◌,
}
use simple_rss_notifications.Db.{
  User, Database, Dispatch, Sinks, RouteDestination, Route, FeedItem, is_pending,
}
use simple_rss_notifications.Db.Consistent.{DispatchIsKeyed, IsConsistent}
use simple_rss_notifications.Dispatch.{ClaimedJob, claim, picked, is_picked, bump}
use simple_rss_notifications.Dispatch.Rows.{
  SendResult, answered_row, rescued_row, no_destination_row, skipped_row,
}
use simple_rss_notifications.Dispatch.Deliver.{
  Env, AnySink, Outcome, returned, threw, is_row, rescue, write, deliver_outcome, deliver_one,
  send_job,
}
use simple_rss_notifications.Dispatch.Groups.{Group, by_destination}
use simple_rss_notifications.Dispatch.Batch.{
  sink_of, run_jobs, run_groups, is_nil, dispatch_pending,
}

module _ (us : List User) (rds : List RouteDestination) (rs : List Route) (is : List FeedItem) where
  abbrev Keyed : Dispatch → Type 0
  Keyed d = DispatchIsKeyed us rds rs is d

  module _ (env : Env) (job : ClaimedJob) where
    rescued-Keyed : (err : _) (d : Dispatch) → Keyed d → Keyed (rescued_row env.now job err d)
    unfolding rescued_row
    rescued-Keyed err d h = ground arith

    answered-Keyed :
        (r : SendResult) (d : Dispatch) → Keyed d → Keyed (answered_row env.now job r d)
    unfolding answered_row
    answered-Keyed r d h = ground arith

    rescue-Keyed : (err : _) (ds : List Dispatch) → All Keyed ds → All Keyed (rescue env job err ds)
    unfolding rescue
    rescue-Keyed err ds h =
        if_holds (All Keyed) env.rescue_ok
          (update (λ d. is_row job d && is_pending d.status) (rescued_row env.now job err) ds) ds
          (λ e.
            All-update Keyed (λ d. is_row job d && is_pending d.status)
              (rescued_row env.now job err) ds (λ d e'. rescued-Keyed err d) h)
          (λ e. h)

    write-Keyed :
        (row : Dispatch → Dispatch) (ds : List Dispatch)
        → ((d : Dispatch) → Keyed d → Keyed (row d))
        → All Keyed ds
        → All Keyed (write env job row ds)
    unfolding write
    write-Keyed row ds kept h =
        if_holds (All Keyed) env.write_ok (update (is_row job) row ds)
          (rescue env job env.write_error ds)
          (λ e. All-update Keyed (is_row job) row ds (λ d e'. kept d) h)
          (λ e. rescue-Keyed env.write_error ds h)

    outcome-Keyed :
        (o : Option (Outcome SendResult)) (ds : List Dispatch)
        → All Keyed ds
        → All Keyed (deliver_outcome env job o ds)
    unfolding deliver_outcome
    outcome-Keyed none ds h = write-Keyed (no_destination_row env.now) ds (λ d k. k) h
    outcome-Keyed (some (threw err)) ds h = rescue-Keyed err ds h
    outcome-Keyed (some (returned r)) ds h =
        write-Keyed (answered_row env.now job r) ds (answered-Keyed r) h

    deliver-Keyed :
        (sink : Option AnySink) (ds : List Dispatch)
        → All Keyed ds
        → All Keyed (deliver_one env job sink ds)
    unfolding deliver_one
    deliver-Keyed none ds h = write-Keyed skipped_row ds (λ d k. k) h
    deliver-Keyed (some sink) ds h = outcome-Keyed (send_job env job sink) ds h

  module _ (env : ClaimedJob → Env) (sinks : Sinks) where
    jobs-Keyed :
        (jobs : List ClaimedJob) (ds : List Dispatch)
        → All Keyed ds
        → All Keyed (run_jobs env sinks jobs ds)
    unfolding run_jobs
    jobs-Keyed [] ds h = h
    jobs-Keyed (job ∷ jobs) ds h =
        jobs-Keyed jobs (deliver_one (env job) job (sink_of sinks job) ds)
          (deliver-Keyed (env job) job (sink_of sinks job) ds h)

    pub groups-Keyed :
        (gs : List Group) (ds : List Dispatch)
        → All Keyed ds
        → All Keyed (run_groups env sinks gs ds)
    unfolding run_groups
    groups-Keyed [] ds h = h
    groups-Keyed (g ∷ gs) ds h =
        groups-Keyed gs (run_jobs env sinks g.jobs ds) (jobs-Keyed g.jobs ds h)

claimed-IsConsistent : (now : ℕ) (db : Database) → IsConsistent db → IsConsistent (claim now db).1
unfolding claim
claimed-IsConsistent now db h = record {
  feeds = h.feeds;
  items = h.items;
  routes = h.routes;
  destinations = h.destinations;
  dispatches =
      All-update (DispatchIsKeyed db.users db.route_destinations db.routes db.feed_items)
        (is_picked (picked now db.dispatches)) (bump now) db.dispatches (λ d e k. k) h.dispatches;
}

pub with_dispatches-IsConsistent :
    (db : Database) (ds : List Dispatch)
    → IsConsistent db
    → All (DispatchIsKeyed db.users db.route_destinations db.routes db.feed_items) ds
    → IsConsistent (record db { dispatches = ds })
with_dispatches-IsConsistent db ds h k = record {
  feeds = h.feeds;
  items = h.items;
  routes = h.routes;
  destinations = h.destinations;
  dispatches = k;
}

pub dispatch_pending-IsConsistent :
    (env : ClaimedJob → Env) (now : ℕ) (db : Database)
    → IsConsistent db
    → IsConsistent (dispatch_pending env now db).1
unfolding dispatch_pending
dispatch_pending-IsConsistent env now db h =
    let (claimed, db') = claim now db in
    let h' = claimed-IsConsistent now db h in
    if_holds (λ (r : Bool × Database). IsConsistent r.1) (is_nil claimed) (false, db')
      (
        true,
        record db' { dispatches = run_groups env db.sinks (by_destination claimed) db'.dispatches },
      )
      (λ e. h')
      (λ e.
        with_dispatches-IsConsistent db'
          (run_groups env db.sinks (by_destination claimed) db'.dispatches) h'
          (groups-Keyed db'.users db'.route_destinations db'.routes db'.feed_items env db.sinks
            (by_destination claimed) db'.dispatches h'.dispatches))
