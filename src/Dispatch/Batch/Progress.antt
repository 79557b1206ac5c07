-- ===== src/Dispatch/Batch/Progress.antt =====
-- web/src/worker/dispatcher.ts: the rows that a tick has picked, after it.
use simple_rss_notifications.Base.{
  ℕ, ◌≤◌, ◌≡◌, ◌⊎◌, refl, sym, ap, ◌∙◌, Bool, true, ◌||◌, some, List, [], ◌∷◌, ◌++◌, map, ◌==◌,
  ==_refl, any, any-append, find, select, any-order_by, All, All-imp, All-map, All-update_each,
  arith, Bool-cases, inl, inr,
}
use simple_rss_notifications.Db.{Database, Dispatch, Sinks, RouteDestination, FeedItem, Feed}
use simple_rss_notifications.Dispatch.{
  ClaimedJob, picked, is_picked, bump, bumped, joined, joined_all, claim,
}
use simple_rss_notifications.Dispatch.Deliver.{Env, is_row}
use simple_rss_notifications.Dispatch.Groups.{Group, all_jobs, by_destination, any-by_destination}
use simple_rss_notifications.Dispatch.Effects.{
  effect, effect-id, effect-IsSettled, effect-IsQuiet, IsQuiet, IsSettled, deliver_one-map,
}
use simple_rss_notifications.Dispatch.Batch.{sink_of, run_jobs, run_groups, dispatch_pending}

-- The foreign keys of a dispatch lead to a destination, an item and that item's feed.
pub record HasPartners (db : Database) (d : Dispatch) : Type 0 where
  pub destination : RouteDestination
  pub item : FeedItem
  pub feed : Feed
  pub destination_found :
      find (λ rd. rd.id == d.route_destination_id) db.route_destinations ≡ some destination
  pub item_found : find (λ fi. fi.id == d.feed_item_id) db.feed_items ≡ some item
  pub feed_found : find (λ f. f.id == item.feed_id) db.feeds ≡ some feed

abbrev has_job : ℕ → List ClaimedJob → Bool
has_job i jobs = any (λ (j : ClaimedJob). j.dispatch_id == i) jobs

joined-bump :
    (db : Database) (now : ℕ) (d : Dispatch)
    → HasPartners db d
    → has_job d.id (joined db (bump now d)) ≡ true
unfolding joined
joined-bump db now d h =
    rw (h.destination_found, h.item_found, h.feed_found) (rw (==_refl d.id) refl)

abbrev gives_job : Database → ℕ → Dispatch → Bool
gives_job db i b = has_job i (joined db b)

has_job-joined_all :
    (db : Database) (i : ℕ) (bs : List Dispatch)
    → has_job i (joined_all db bs) ≡ any (gives_job db i) bs
unfolding joined_all
has_job-joined_all db i [] = refl
has_job-joined_all db i (b ∷ bs) =
    any-append (λ (j : ClaimedJob). j.dispatch_id == i) (joined db b) (joined_all db bs)
    ∙ ap (◌||◌ (gives_job db i b)) (has_job-joined_all db i bs)

-- Every picked row gives a job.
module _ (db : Database) (now : ℕ) (p : Dispatch → Bool) where
  abbrev returned_rows : List Dispatch → List Dispatch
  returned_rows ds = map (bump now) (select p ds)

  any-returned_rows :
      (q : Dispatch → Bool) (d : Dispatch) (ds : List Dispatch)
      → any q (returned_rows ds) ≡ true
      → any q (returned_rows (d ∷ ds)) ≡ true
  unfolding select
  any-returned_rows q d ds h = ground arith

  gives_job-returned :
      (ds : List Dispatch)
      → All (HasPartners db) ds
      → All (λ d. p d ≡ true → any (gives_job db d.id) (returned_rows ds) ≡ true) ds
  unfolding select
  gives_job-returned [] h = tt
  gives_job-returned (d ∷ ds) h = (
    λ e. rw (e, joined-bump db now d h.0) refl,
    All-imp (λ x found e. any-returned_rows (gives_job db x.id) d ds (found e)) ds
        (gives_job-returned ds h.1),
  )

claim_complete :
    (db : Database) (now : ℕ)
    → All (HasPartners db) db.dispatches
    → All
        (λ d. is_picked (picked now db.dispatches) d ≡ true → has_job d.id (claim now db).0 ≡ true)
        db.dispatches
unfolding claim bumped
claim_complete db now h =
    All-imp
      (λ d given e.
        has_job-joined_all db d.id _
        ∙ any-order_by (gives_job db d.id) _ _
        ∙ any-order_by (gives_job db d.id) _ _
        ∙ given e)
      db.dispatches
      (gives_job-returned db now (is_picked (picked now db.dispatches)) db.dispatches h)

settled-IsQuiet : (start now : ℕ) (d : Dispatch) → start ≤ now → IsSettled now d → IsQuiet start d
settled-IsQuiet start now d h s = ground arith

-- A row, after all the deliveries of a batch.
module _ (env : ClaimedJob → Env) (sinks : Sinks) where
  through : List ClaimedJob → Dispatch → Dispatch
  through [] d = d
  through (job ∷ jobs) d = through jobs (effect (env job) job (sink_of sinks job) d)

  map-through :
      (job : ClaimedJob) (jobs : List ClaimedJob) (ds : List Dispatch)
      → map (through jobs) (map (effect (env job) job (sink_of sinks job)) ds)
        ≡ map (through (job ∷ jobs)) ds
  unfolding through
  map-through job jobs [] = refl
  map-through job jobs (d ∷ ds) = ap (◌∷◌ (through (job ∷ jobs) d)) (map-through job jobs ds)

  map-through_nil : (ds : List Dispatch) → ds ≡ map (through []) ds
  unfolding through
  map-through_nil [] = refl
  map-through_nil (d ∷ ds) = ap (◌∷◌ d) (map-through_nil ds)

  run_jobs-map :
      (jobs : List ClaimedJob) (ds : List Dispatch)
      → run_jobs env sinks jobs ds ≡ map (through jobs) ds
  unfolding run_jobs
  run_jobs-map [] ds = map-through_nil ds
  run_jobs-map (job ∷ jobs) ds =
      run_jobs-map jobs _
      ∙ ap (map (through jobs)) (deliver_one-map (env job) job (sink_of sinks job) ds)
      ∙ map-through job jobs ds

  run_jobs-append :
      (js ks : List ClaimedJob) (ds : List Dispatch)
      → run_jobs env sinks (js ++ ks) ds ≡ run_jobs env sinks ks (run_jobs env sinks js ds)
  unfolding run_jobs
  run_jobs-append [] ks ds = refl
  run_jobs-append (j ∷ js) ks ds = run_jobs-append js ks _

  run_groups-run_jobs :
      (gs : List Group) (ds : List Dispatch)
      → run_groups env sinks gs ds ≡ run_jobs env sinks (all_jobs gs) ds
  unfolding run_groups all_jobs
  run_groups-run_jobs [] ds = refl
  run_groups-run_jobs (g ∷ gs) ds =
      run_groups-run_jobs gs _ ∙ sym (run_jobs-append g.jobs (all_jobs gs) ds)

  through-id : (jobs : List ClaimedJob) (d : Dispatch) → (through jobs d).id ≡ d.id
  unfolding through
  through-id [] d = refl
  through-id (job ∷ jobs) d = through-id jobs _ ∙ effect-id (env job) job (sink_of sinks job) d

  module _ (start : ℕ) (later : (job : ClaimedJob) → start ≤ (env job).now) where
    through-IsQuiet :
        (jobs : List ClaimedJob) (d : Dispatch) → IsQuiet start d → IsQuiet start (through jobs d)
    unfolding through
    through-IsQuiet [] d q = q
    through-IsQuiet (job ∷ jobs) d q =
        through-IsQuiet jobs _
          (effect-IsQuiet (env job) job start (sink_of sinks job) d (later job) q)

    module _ (writable : (job : ClaimedJob) → (env job).rescue_ok ≡ true) where
      through-settles :
          (jobs : List ClaimedJob) (d : Dispatch)
          → has_job d.id jobs ≡ true
          → IsQuiet start (through jobs d)
      unfolding through
      through-settles [] d h = ground arith
      through-settles (job ∷ jobs) d h = elim (Bool-cases (is_row job d)) [
        | inl mine ↦ through-IsQuiet jobs (effect (env job) job (sink_of sinks job) d) (
            settled-IsQuiet start (env job).now (effect (env job) job (sink_of sinks job) d)
              (later job)
              (effect-IsSettled (env job) job (sink_of sinks job) d (writable job) mine))
        | inr other ↦
            through-settles jobs (effect (env job) job (sink_of sinks job) d)
              (rw (effect-id (env job) job (sink_of sinks job) d) (ground arith))
      ]

list_cases :
    (l : List ClaimedJob)
    → (l ≡ []) ⊎ ((job : ClaimedJob) × (jobs : List ClaimedJob) × (l ≡ job ∷ jobs))
list_cases [] = inl refl
list_cases (job ∷ jobs) = inr (job, jobs, refl)

bumped_rows :
    (env : ClaimedJob → Env) (sinks : Sinks) (now : ℕ) (db : Database) (jobs : List ClaimedJob)
    → ((job : ClaimedJob) → now ≤ (env job).now)
    → ((job : ClaimedJob) → (env job).rescue_ok ≡ true)
    → All
        (λ d. is_picked (picked now db.dispatches) d ≡ true → has_job d.id jobs ≡ true)
        db.dispatches
    → All
        (λ d.
          is_picked (picked now db.dispatches) (through env sinks jobs d) ≡ true
          → IsQuiet now (through env sinks jobs d))
        (claim now db).1.dispatches
unfolding claim
bumped_rows env sinks now db jobs later writable h =
    All-update_each
      (λ d.
        is_picked (picked now db.dispatches) (through env sinks jobs d) ≡ true
        → IsQuiet now (through env sinks jobs d))
      (is_picked (picked now db.dispatches)) (bump now) db.dispatches
      (All-imp
        (λ d given. elim (Bool-cases (is_picked (picked now db.dispatches) d)) [
          | inl mine ↦
              rw mine
                (λ _. through-settles env sinks now later writable jobs (bump now d) (given mine))
          | inr other ↦
              rw other (λ e. absurd (ground (arith, rw (through-id env sinks jobs d) at e)))
        ])
        db.dispatches h)

tick-run_groups :
    (env : ClaimedJob → Env) (now : ℕ) (db : Database)
    → (dispatch_pending env now db).1.dispatches
      ≡ run_groups env db.sinks (by_destination (claim now db).0) (claim now db).1.dispatches
unfolding dispatch_pending
tick-run_groups env now db = elim (list_cases (claim now db).0) [
  | inl e ↦ rw e (unfold by_destination run_groups in refl)
  | inr (job, jobs, e) ↦ rw e refl
]

-- After a tick no dispatch that it picked is due within a minute of its start: each is final or
-- rescheduled. This holds whatever the providers answer or throw, if the foreign keys of the
-- dispatches hold, each delivery runs after the start, and the write of its `catch` block works.
pub dispatch_pending-IsQuiet :
    (env : ClaimedJob → Env) (now : ℕ) (db : Database)
    → All (HasPartners db) db.dispatches
    → ((job : ClaimedJob) → now ≤ (env job).now)
    → ((job : ClaimedJob) → (env job).rescue_ok ≡ true)
    → All
        (λ d. is_picked (picked now db.dispatches) d ≡ true → IsQuiet now d)
        (dispatch_pending env now db).1.dispatches
dispatch_pending-IsQuiet env now db partners later writable =
    let jobs = all_jobs (by_destination (claim now db).0) in
    let chosen = picked now db.dispatches in
    let f = through env db.sinks jobs in
    rw
      (
        tick-run_groups env now db,
        run_groups-run_jobs env db.sinks (by_destination (claim now db).0),
        run_jobs-map env db.sinks jobs,
      )
      (All-map (λ d. is_picked chosen d ≡ true → IsQuiet now d) f (claim now db).1.dispatches
        (bumped_rows env db.sinks now db jobs later writable (
          All-imp
            (λ d given e.
              any-by_destination (λ (j : ClaimedJob). j.dispatch_id == d.id) _ ∙ given e)
            db.dispatches (claim_complete db now partners))))
