-- ===== src/Dispatch/Effects.antt =====
-- web/src/worker/dispatcher.ts: what one delivery does to each row.
use simple_rss_notifications.Base.{
  ℕ, ◌+◌, ◌*◌, ◌≤◌, ◌<◌, ◌≡◌, ◌≢◌, ◌⊎◌, refl, sym, ap, ◌∙◌, Bool, true, false, ◌&&◌, ◌||◌, not,
  List, [], ◌∷◌, map, ◌==◌, ==_iff, if◌then◌else◌, Option, none, some, arith, head?, get_or, All,
  inl, inr, Bool-cases,
}
use simple_rss_notifications.Base
use simple_rss_notifications.Db.{Dispatch, pending, sent, is_pending}
use simple_rss_notifications.Retry.{max_retry_delay_sec}
use simple_rss_notifications.Retry.Bounds.{backoff_sec_bounds, retry_delay_sec_bounds}
use simple_rss_notifications.Dispatch.{ClaimedJob}
use simple_rss_notifications.Dispatch.Rows.{SendResult, answered_row, rescued_row}
use simple_rss_notifications.Dispatch.Deliver.{
  Env, AnySink, Outcome, returned, threw, send_job, is_row, rescue, write, deliver_outcome,
  deliver_one,
}

-- A settled row will not be picked within a minute: it is final, or rescheduled by a delay of one
-- minute to one hour with an attempt left.
abbrev pub IsSettled : ℕ → Dispatch → Type 0
IsSettled now d =
    (is_pending d.status ≡ false)
    ⊎ ((now + 60000 ≤ d.scheduled_at) × (d.scheduled_at ≤ now + max_retry_delay_sec * 1000))

answered_row-IsSettled :
    (now : ℕ) (job : ClaimedJob) (r : SendResult) (d : Dispatch)
    → IsSettled now (answered_row now job r d)
unfolding answered_row
answered_row-IsSettled now job r d =
    ground (arith, retry_delay_sec_bounds job.attempts r.retry_after_sec)

rescued_row-IsSettled :
    (now : ℕ) (job : ClaimedJob) (err : Base.Text) (d : Dispatch)
    → IsSettled now (rescued_row now job err d)
unfolding rescued_row
rescued_row-IsSettled now job err d = ground (arith, backoff_sec_bounds job.attempts)

-- A row that is final, or is not due within a minute of an instant.
abbrev pub IsQuiet : ℕ → Dispatch → Type 0
IsQuiet start d = (is_pending d.status ≡ false) ⊎ (start + 60000 ≤ d.scheduled_at)

module _ (env : Env) (job : ClaimedJob) where
  rescue-cons :
      (err : Base.Text) (d : Dispatch) (ds : List Dispatch)
      → rescue env job err (d ∷ ds)
        ≡ get_or (head? (rescue env job err (d ∷ []))) d ∷ rescue env job err ds
  unfolding rescue Base.update
  rescue-cons err d ds = ground arith

  write-cons :
      (row : Dispatch → Dispatch) (d : Dispatch) (ds : List Dispatch)
      → write env job row (d ∷ ds)
        ≡ get_or (head? (write env job row (d ∷ []))) d ∷ write env job row ds
  unfolding write Base.update
  write-cons row d ds = ground (arith, rescue-cons env.write_error d ds)

  outcome-cons :
      (o : Option (Outcome SendResult)) (d : Dispatch) (ds : List Dispatch)
      → deliver_outcome env job o (d ∷ ds)
        ≡ get_or (head? (deliver_outcome env job o (d ∷ []))) d ∷ deliver_outcome env job o ds
  unfolding deliver_outcome
  outcome-cons none d ds = write-cons _ d ds
  outcome-cons (some (threw err)) d ds = rescue-cons err d ds
  outcome-cons (some (returned r)) d ds = write-cons _ d ds

  write-nil : (row : Dispatch → Dispatch) → write env job row [] ≡ []
  unfolding write rescue Base.update
  write-nil row = ground arith

  outcome-nil : (o : Option (Outcome SendResult)) → deliver_outcome env job o [] ≡ []
  unfolding deliver_outcome
  outcome-nil none = write-nil _
  outcome-nil (some (threw err)) = unfold rescue Base.update in ground arith
  outcome-nil (some (returned r)) = write-nil _

  -- What a delivery does to one row.
  unfoldable pub effect : Option AnySink → Dispatch → Dispatch
  effect sink d = get_or (head? (deliver_one env job sink (d ∷ []))) d

  pub deliver_one-map :
      (sink : Option AnySink) (ds : List Dispatch)
      → deliver_one env job sink ds ≡ map (effect sink) ds
  unfolding deliver_one effect
  deliver_one-map none [] = write-nil _
  deliver_one-map (some s) [] = outcome-nil (send_job env job s)
  deliver_one-map none (d ∷ ds) =
      write-cons _ d ds ∙ ap (◌∷◌ (effect none d)) (deliver_one-map none ds)
  deliver_one-map (some s) (d ∷ ds) =
      outcome-cons (send_job env job s) d ds
      ∙ ap (◌∷◌ (effect (some s) d)) (deliver_one-map (some s) ds)

  -- A row that belongs to another dispatch is left as it is.
  pub effect-other :
      (sink : Option AnySink) (d : Dispatch) → is_row job d ≡ false → effect sink d ≡ d
  unfolding effect deliver_one deliver_outcome write rescue Base.update
  effect-other none d h = ground arith
  effect-other (some s) d h = ground arith

  pub effect-id : (sink : Option AnySink) (d : Dispatch) → (effect sink d).id ≡ d.id
  unfolding effect deliver_one deliver_outcome write rescue answered_row rescued_row Base.update
  effect-id none d = ground arith
  effect-id (some s) d = ground arith

  -- The same for each stage, on the row alone.
  abbrev only : List Dispatch → Dispatch → Dispatch
  only ds d = get_or (head? ds) d

  rescue-IsSettled :
      (err : Base.Text) (d : Dispatch)
      → env.rescue_ok ≡ true
      → is_row job d ≡ true
      → IsSettled env.now (only (rescue env job err (d ∷ [])) d)
  unfolding rescue Base.update
  rescue-IsSettled err d w h = ground (arith, rescued_row-IsSettled env.now job err d)

  write-IsSettled :
      (row : Dispatch → Dispatch) (d : Dispatch)
      → env.rescue_ok ≡ true
      → is_row job d ≡ true
      → IsSettled env.now (row d)
      → IsSettled env.now (only (write env job row (d ∷ [])) d)
  unfolding write Base.update
  write-IsSettled row d w h s = ground (arith, rescue-IsSettled env.write_error d w h)

  outcome-IsSettled :
      (o : Option (Outcome SendResult)) (d : Dispatch)
      → env.rescue_ok ≡ true
      → is_row job d ≡ true
      → IsSettled env.now (only (deliver_outcome env job o (d ∷ [])) d)
  unfolding deliver_outcome
  outcome-IsSettled none d w h = write-IsSettled _ d w h (inl refl)
  outcome-IsSettled (some (threw err)) d w h = rescue-IsSettled err d w h
  outcome-IsSettled (some (returned r)) d w h =
      write-IsSettled _ d w h (answered_row-IsSettled env.now job r d)

  -- A delivery settles its own row, whatever happened, if the write of the `catch` block works: the
  -- row is final, or it waits for one minute to one hour.
  pub effect-IsSettled :
      (sink : Option AnySink) (d : Dispatch)
      → env.rescue_ok ≡ true
      → is_row job d ≡ true
      → IsSettled env.now (effect sink d)
  unfolding effect deliver_one
  effect-IsSettled none d w h = write-IsSettled _ d w h (inl refl)
  effect-IsSettled (some s) d w h = outcome-IsSettled (send_job env job s) d w h

  rescue-IsQuiet :
      (start : ℕ) (err : Base.Text) (d : Dispatch)
      → start ≤ env.now
      → IsQuiet start d
      → IsQuiet start (only (rescue env job err (d ∷ [])) d)
  unfolding rescue Base.update
  rescue-IsQuiet start err d h q = ground (arith, rescued_row-IsSettled env.now job err d)

  write-IsQuiet :
      (start : ℕ) (row : Dispatch → Dispatch) (d : Dispatch)
      → start ≤ env.now
      → IsSettled env.now (row d)
      → IsQuiet start d
      → IsQuiet start (only (write env job row (d ∷ [])) d)
  unfolding write Base.update
  write-IsQuiet start row d h s q = ground (arith, rescue-IsQuiet start env.write_error d h q)

  outcome-IsQuiet :
      (start : ℕ) (o : Option (Outcome SendResult)) (d : Dispatch)
      → start ≤ env.now
      → IsQuiet start d
      → IsQuiet start (only (deliver_outcome env job o (d ∷ [])) d)
  unfolding deliver_outcome
  outcome-IsQuiet start none d h q = write-IsQuiet start _ d h (inl refl) q
  outcome-IsQuiet start (some (threw err)) d h q = rescue-IsQuiet start err d h q
  outcome-IsQuiet start (some (returned r)) d h q =
      write-IsQuiet start _ d h (answered_row-IsSettled env.now job r d) q

  -- A quiet row stays quiet under any delivery.
  pub effect-IsQuiet :
      (start : ℕ) (sink : Option AnySink) (d : Dispatch)
      → start ≤ env.now
      → IsQuiet start d
      → IsQuiet start (effect sink d)
  unfolding effect deliver_one
  effect-IsQuiet start none d h q = write-IsQuiet start _ d h (inl refl) q
  effect-IsQuiet start (some s) d h q = outcome-IsQuiet start (send_job env job s) d h q

  outcome-sent :
      (o : Option (Outcome SendResult)) (d : Dispatch)
      → d.status ≡ pending
      → (only (deliver_outcome env job o (d ∷ [])) d).status ≡ sent
      → (r : SendResult) × (o ≡ some (returned r)) × (r.ok ≡ true)
  unfolding deliver_outcome write rescue answered_row rescued_row Base.update
  outcome-sent none d p h = ground arith
  outcome-sent (some (threw err)) d p h = ground arith
  outcome-sent (some (returned r)) d p h = (r, refl, ground arith)

-- A pending dispatch becomes sent only where its sink exists and the provider accepted the message.
pub effect-sent :
    (env : Env) (job : ClaimedJob) (sink : Option AnySink) (d : Dispatch)
    → d.status ≡ pending
    → (effect env job sink d).status ≡ sent
    → (s : AnySink) × (r : SendResult) × (sink ≡ some s)
      × (send_job env job s ≡ some (returned r))
      × (r.ok ≡ true)
unfolding effect deliver_one
effect-sent env job none d p h = unfold write rescue rescued_row Base.update in ground arith
effect-sent env job (some s) d p h =
    let (r, e, ok) = outcome-sent env job (send_job env job s) d p h in (s, r, refl, e, ok)

-- Two deliveries of different dispatches.
module _ (env env' : Env) (job job' : ClaimedJob) (sink sink' : Option AnySink) where
  effect-effect :
      (d : Dispatch)
      → job.dispatch_id ≢ job'.dispatch_id
      → effect env job sink (effect env' job' sink' d)
        ≡ effect env' job' sink' (effect env job sink d)
  effect-effect d apart = elim (Bool-cases (is_row job d)) [
    | inl mine ↦
        ap (effect env job sink) (effect-other env' job' sink' d (ground arith))
        ∙ sym (
            effect-other env' job' sink' (effect env job sink d)
              (ground (arith, effect-id env job sink d)))
    | inr other ↦
        effect-other env job sink (effect env' job' sink' d)
          (rw (effect-id env' job' sink' d) other)
        ∙ ap (effect env' job' sink') (sym (effect-other env job sink d other))
  ]

  map-effect_comm :
      (ds : List Dispatch)
      → job.dispatch_id ≢ job'.dispatch_id
      → map (effect env job sink) (map (effect env' job' sink') ds)
        ≡ map (effect env' job' sink') (map (effect env job sink) ds)
  map-effect_comm [] apart = refl
  map-effect_comm (d ∷ ds) apart = cc (effect-effect d apart, map-effect_comm ds apart)

  -- Deliveries of different dispatches can run in either order: the rows end up the same.
  pub deliver_one_comm :
      (ds : List Dispatch)
      → job.dispatch_id ≢ job'.dispatch_id
      → deliver_one env job sink (deliver_one env' job' sink' ds)
        ≡ deliver_one env' job' sink' (deliver_one env job sink ds)
  deliver_one_comm ds apart =
      simp (deliver_one-map env job sink, deliver_one-map env' job' sink')
        (map-effect_comm ds apart)
