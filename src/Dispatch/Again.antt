-- ===== src/Dispatch/Again.antt =====
-- web/src/app/api/dispatches/[id]/retry/route.ts: the owner of a failed dispatch queues it again.
use simple_rss_notifications.Base.{
  ℕ, ◌≡◌, ◌≢◌, ◌↔◌, refl, map, Bool, true, false, not, ◌&&◌, Option, none, some, List, [], ◌∷◌,
  ◌==◌, if◌then◌else◌, any, find, select, update, All, arith, Bool-cases, inl, inr,
}
use simple_rss_notifications.Db.{Dispatch, Status, pending, sent, failed, skipped, is_failed}
use simple_rss_notifications.Db.Access.{Role, web_role, sees_dispatch, with_user}
use simple_rss_notifications.Dispatch.{is_due}

pub data RetryReply : Type 0 where
  retried not_found : RetryReply
  not_retryable : Status → RetryReply

-- `WHERE id = …` in a transaction.
abbrev is_visible : Role → ℕ → Dispatch → Bool
is_visible tx id d = sees_dispatch tx d && d.id == id

abbrev pub is_target : Role → ℕ → Dispatch → Bool
is_target tx id d = is_visible tx id d && is_failed d.status

abbrev pub reset : ℕ → Dispatch → Dispatch
reset now d = record d {
  status = pending;
  scheduled_at = now;
  attempts = 0;
  error = none;
  dispatched_at = none;
}

missed : Option Dispatch → RetryReply
missed none = not_found
missed (some d) = not_retryable d.status

-- `POST /api/dispatches/[id]/retry`, behind its wrapper.
unfoldable pub retry_dispatch : ℕ → ℕ → ℕ → List Dispatch → RetryReply × List Dispatch
unfolding missed
retry_dispatch now uid id ds = with_user uid (λ tx. (
  if any (is_target tx id) ds then retried else missed (find (is_visible tx id) ds),
  update (is_target tx id) (reset now) ds,
))

abbrev pub is_sent : Dispatch → Bool
is_sent d = elim d.status [ pending ↦ false | sent ↦ true | failed ↦ false | skipped ↦ false ]

select-update_target :
    (now : ℕ) (tx : Role) (id : ℕ) (q : Dispatch → Bool) (ds : List Dispatch)
    → ((d : Dispatch) → is_target tx id d ≡ true → (q d ≡ false) × (q (reset now d) ≡ false))
    → select q (update (is_target tx id) (reset now) ds) ≡ select q ds
unfolding select update
select-update_target now tx id q [] h = refl
select-update_target now tx id q (d ∷ ds) h = elim (Bool-cases (is_target tx id d)) [
  | inl mine ↦
      let (before, after) = h d mine in
      rw (mine, before, after) (select-update_target now tx id q ds h)
  | inr other ↦ ground (arith, other, select-update_target now tx id q ds h)
]

target-not_sent :
    (now : ℕ) (tx : Role) (id : ℕ) (d : Dispatch)
    → is_target tx id d ≡ true
    → (is_sent d ≡ false) × (is_sent (reset now d) ≡ false)
target-not_sent now tx id d h = by_status d.status refl
  where
    by_status : (s : Status) → d.status ≡ s → (is_sent d ≡ false) × (is_sent (reset now d) ≡ false)
    by_status pending e = (rw e refl, refl)
    by_status failed e = (rw e refl, refl)
    by_status skipped e = (rw e refl, refl)
    by_status sent e = absurd (ground (arith, e, h))

update_target-gone :
    (now : ℕ) (tx : Role) (id : ℕ) (ds : List Dispatch)
    → All (λ d. is_target tx id d ≡ false) (update (is_target tx id) (reset now) ds)
unfolding update
update_target-gone now tx id [] = tt
update_target-gone now tx id (d ∷ ds) = (ground arith, update_target-gone now tx id ds)

-- Pending and due, a row of the user with the id, and no attempts made.
abbrev pub is_queued : ℕ → ℕ → ℕ → Dispatch → Bool
is_queued now uid id d = d.user_id == uid && d.id == id && is_due now d && d.attempts == 0

missed-not_retried : (o : Option Dispatch) → missed o ≢ retried
unfolding missed
missed-not_retried none h = cc
missed-not_retried (some d) h = cc

retried-target :
    (now uid id : ℕ) (ds : List Dispatch)
    → (retry_dispatch now uid id ds).0 ≡ retried
    → any (is_target (web_role uid) id) ds ≡ true
unfolding retry_dispatch
retried-target now uid id ds h = elim (Bool-cases (any (is_target (web_role uid) id) ds)) [
  | inl e ↦ e
  | inr e ↦ absurd (missed-not_retried (find (is_visible (web_role uid) id) ds) (rw e at h))
]

target_queued :
    (now uid id : ℕ) (ds : List Dispatch)
    → any (is_target (web_role uid) id) ds ≡ true
    → any (is_queued now uid id) (update (is_target (web_role uid) id) (reset now) ds) ≡ true
unfolding update
target_queued now uid id [] h = h
target_queued now uid id (d ∷ ds) h = ground (arith, target_queued now uid id ds)

map-update_target :
    (now : ℕ) (tx : Role) (id : ℕ) (ds : List Dispatch)
    → map (λ d. d.id) (update (is_target tx id) (reset now) ds) ≡ map (λ d. d.id) ds
unfolding update
map-update_target now tx id [] = refl
map-update_target now tx id (d ∷ ds) = ground (arith, map-update_target now tx id ds)

-- Queueing a dispatch again loses no row, and touches none that was sent and none of another user. It
-- answers `retried` exactly where the user has a failed dispatch with the id; then no row with the id
-- of the user is failed any more, and one is pending and due at once, with no attempts made.
pub retry_dispatch_lem :
    (now uid id : ℕ) (ds : List Dispatch)
    → (map (λ d. d.id) (retry_dispatch now uid id ds).1 ≡ map (λ d. d.id) ds)
      × (select is_sent (retry_dispatch now uid id ds).1 ≡ select is_sent ds)
      × (select (λ d. not (d.user_id == uid)) (retry_dispatch now uid id ds).1
          ≡ select (λ d. not (d.user_id == uid)) ds)
      × (((retry_dispatch now uid id ds).0 ≡ retried)
          ↔ (any (λ d. d.user_id == uid && d.id == id && is_failed d.status) ds ≡ true))
      × ((retry_dispatch now uid id ds).0 ≡ retried
          → All
              (λ d. (d.user_id == uid && d.id == id && is_failed d.status) ≡ false)
              (retry_dispatch now uid id ds).1
            × (any (is_queued now uid id) (retry_dispatch now uid id ds).1 ≡ true))
unfolding retry_dispatch
retry_dispatch_lem now uid id ds = (
  map-update_target now (web_role uid) id ds,
  select-update_target now (web_role uid) id is_sent ds (target-not_sent now (web_role uid) id),
  select-update_target now (web_role uid) id (λ d. not (d.user_id == uid)) ds
      (λ d h. (ground arith, ground arith)),
  (retried-target now uid id ds, λ h. rw h refl),
  λ h. (
    update_target-gone now (web_role uid) id ds,
    target_queued now uid id ds (retried-target now uid id ds h),
  ),
)
