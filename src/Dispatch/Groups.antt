-- ===== src/Dispatch/Groups.antt =====
-- web/src/worker/dispatcher.ts: the batch is split by destination. Jobs for one destination go out
-- one after the other, in the order of the claim; groups run side by side.
use simple_rss_notifications.Base.{
  ℕ, ◌≡◌, refl, sym, ◌∙◌, ap, Bool, false, List, [], ◌∷◌, ◌++◌, ◌==◌, if◌then◌else◌, select,
  select-append, All, All-append, arith, Bool-cases, inl, inr, any, ◌||◌, any-append,
}
use mathlib.Core.List.{append-nil, append_assoc}
use simple_rss_notifications.Dispatch.{ClaimedJob}

pub record Group : Type 0 where
  pub key : ℕ
  pub jobs : List ClaimedJob

-- `group.push(job)` on the group of the job's destination, which is made if it is not there.
unfoldable pub add_job : ClaimedJob → List Group → List Group
add_job job [] = record { key = job.route_destination_id; jobs = job ∷ [] } ∷ []
add_job job (g ∷ gs) =
    if g.key == job.route_destination_id
    then record g { jobs = g.jobs ++ job ∷ [] } ∷ gs
    else g ∷ add_job job gs

group_from : List Group → List ClaimedJob → List Group
unfolding add_job
group_from gs [] = gs
group_from gs (job ∷ jobs) = group_from (add_job job gs) jobs

-- The `Map` that the loop over the claimed jobs fills, in insertion order.
unfoldable pub by_destination : List ClaimedJob → List Group
unfolding group_from
by_destination jobs = group_from [] jobs

-- The jobs of all groups, group after group.
unfoldable pub all_jobs : List Group → List ClaimedJob
all_jobs [] = []
all_jobs (g ∷ gs) = g.jobs ++ all_jobs gs

abbrev pub is_for : ℕ → ClaimedJob → Bool
is_for k job = job.route_destination_id == k

abbrev pub IsUniform : Group → Type 0
IsUniform g = All (λ (job : ClaimedJob). job.route_destination_id ≡ g.key) g.jobs

add_job-IsUniform :
    (job : ClaimedJob) (gs : List Group) → All IsUniform gs → All IsUniform (add_job job gs)
unfolding add_job
add_job-IsUniform job [] h = ((refl, tt), tt)
add_job-IsUniform job (g ∷ gs) h = elim (Bool-cases (g.key == job.route_destination_id)) [
  | inl same ↦ rw same (
    All-append (λ (j : ClaimedJob). j.route_destination_id ≡ g.key) g.jobs (job ∷ []) h.0
        (ground arith, tt),
    h.1,
  )
  | inr other ↦ rw other (h.0, add_job-IsUniform job gs h.1)
]

select-none :
    (k m : ℕ) (jobs : List ClaimedJob)
    → All (λ (job : ClaimedJob). job.route_destination_id ≡ m) jobs
    → (m == k) ≡ false
    → select (is_for k) jobs ≡ []
unfolding select
select-none k m [] h e = refl
select-none k m (job ∷ jobs) h e = ground (arith, select-none k m jobs h.1 e)

abbrev pub HasDistinctKeys : List Group → Type 0
HasDistinctKeys [] = Unit
HasDistinctKeys (g ∷ gs) = (any (λ (h : Group). h.key == g.key) gs ≡ false) × HasDistinctKeys gs

any-add_job :
    (k : ℕ) (job : ClaimedJob) (gs : List Group)
    → (job.route_destination_id == k) ≡ false
    → any (λ (h : Group). h.key == k) gs ≡ false
    → any (λ (h : Group). h.key == k) (add_job job gs) ≡ false
unfolding add_job
any-add_job k job [] e h = rw e
any-add_job k job (g ∷ gs) e h = ground (arith, any-add_job k job gs e)

add_job-HasDistinctKeys :
    (job : ClaimedJob) (gs : List Group) → HasDistinctKeys gs → HasDistinctKeys (add_job job gs)
unfolding add_job
add_job-HasDistinctKeys job [] h = (refl, tt)
add_job-HasDistinctKeys job (g ∷ gs) h = elim (Bool-cases (g.key == job.route_destination_id)) [
  | inl same ↦ rw same h
  | inr other ↦
      rw other (any-add_job g.key job gs (ground arith) h.0, add_job-HasDistinctKeys job gs h.1)
]

select-absent :
    (k : ℕ) (gs : List Group)
    → All IsUniform gs
    → any (λ (h : Group). h.key == k) gs ≡ false
    → select (is_for k) (all_jobs gs) ≡ []
unfolding all_jobs
select-absent k [] u e = unfold select in refl
select-absent k (g ∷ gs) u e =
    rw
      (select-append (is_for k) g.jobs (all_jobs gs), select-none k g.key g.jobs u.0 (ground arith))
      (select-absent k gs u.1 (ground arith))

-- Adding a job puts it behind all others of its destination.
select-all_jobs-add_job :
    (k : ℕ) (job : ClaimedJob) (gs : List Group)
    → All IsUniform gs
    → HasDistinctKeys gs
    → select (is_for k) (all_jobs (add_job job gs))
      ≡ select (is_for k) (all_jobs gs) ++ select (is_for k) (job ∷ [])
unfolding all_jobs add_job
select-all_jobs-add_job k job [] u d = rw (append-nil (job ∷ [])) (unfold select in refl)
select-all_jobs-add_job k job (g ∷ gs) u d = elim (Bool-cases (g.key == job.route_destination_id)) [
  | inl same ↦ rw same (
      simp (select-append (is_for k), append_assoc)
        (elim (Bool-cases (job.route_destination_id == k)) [
          | inl mine ↦
              let none_left = select-absent k gs u.1 (ground (arith, d.0)) in
              rw (none_left, append-nil _) refl
          | inr not_mine ↦
              let skipped = select-none k job.route_destination_id (job ∷ []) (refl, tt) not_mine in
              rw (skipped, append-nil _) refl
        ]))
  | inr other ↦
      rw other
        (simp (select-append (is_for k), select-all_jobs-add_job k job gs u.1 d.1, append_assoc))
]

group_from-order :
    (k : ℕ) (gs : List Group) (jobs : List ClaimedJob)
    → All IsUniform gs
    → HasDistinctKeys gs
    → select (is_for k) (all_jobs (group_from gs jobs))
      ≡ select (is_for k) (all_jobs gs) ++ select (is_for k) jobs
unfolding group_from
group_from-order k gs [] u d = unfold select in sym (append-nil _)
group_from-order k gs (job ∷ jobs) u d =
    group_from-order k (add_job job gs) jobs (add_job-IsUniform job gs u)
      (add_job-HasDistinctKeys job gs d)
    ∙ rw (select-all_jobs-add_job k job gs u d) (
        append_assoc (select (is_for k) (all_jobs gs)) _ _
        ∙ ap (◌++◌ (select (is_for k) (all_jobs gs)))
            (sym (select-append (is_for k) (job ∷ []) jobs)))

group_from-HasDistinctKeys :
    (gs : List Group) (jobs : List ClaimedJob)
    → All IsUniform gs
    → HasDistinctKeys gs
    → All IsUniform (group_from gs jobs) × HasDistinctKeys (group_from gs jobs)
unfolding group_from
group_from-HasDistinctKeys gs [] u d = (u, d)
group_from-HasDistinctKeys gs (job ∷ jobs) u d =
    group_from-HasDistinctKeys (add_job job gs) jobs (add_job-IsUniform job gs u)
      (add_job-HasDistinctKeys job gs d)

-- Each group holds jobs of one destination, and no destination has two groups; grouping loses no job,
-- invents none and repeats none, and within each destination the jobs keep the order of the claim.
pub by_destination-order :
    (jobs : List ClaimedJob)
    → All IsUniform (by_destination jobs)
      × HasDistinctKeys (by_destination jobs)
      × ((k : ℕ) → select (is_for k) (all_jobs (by_destination jobs)) ≡ select (is_for k) jobs)
unfolding by_destination
by_destination-order jobs =
    let (uniform, distinct) = group_from-HasDistinctKeys [] jobs tt tt in
    (uniform, distinct, λ k. group_from-order k [] jobs tt tt ∙ unfold select all_jobs in refl)

any-add_job_jobs :
    (p : ClaimedJob → Bool) (job : ClaimedJob) (gs : List Group)
    → any p (all_jobs (add_job job gs)) ≡ (any p (all_jobs gs) || p job)
unfolding add_job all_jobs
any-add_job_jobs p job [] = ground arith
any-add_job_jobs p job (g ∷ gs) = ground (
  arith,
  any-append p g.jobs (all_jobs gs),
  any-append p g.jobs (all_jobs (add_job job gs)),
  any-append p (g.jobs ++ job ∷ []) (all_jobs gs),
  any-append p g.jobs (job ∷ []),
  any-add_job_jobs p job gs,
)

any-group_from :
    (p : ClaimedJob → Bool) (gs : List Group) (jobs : List ClaimedJob)
    → any p (all_jobs (group_from gs jobs)) ≡ (any p (all_jobs gs) || any p jobs)
unfolding group_from
any-group_from p gs [] = ground arith
any-group_from p gs (job ∷ jobs) =
    ground (arith, any-group_from p (add_job job gs) jobs, any-add_job_jobs p job gs)

pub any-by_destination :
    (p : ClaimedJob → Bool) (jobs : List ClaimedJob)
    → any p (all_jobs (by_destination jobs)) ≡ any p jobs
unfolding by_destination
any-by_destination p jobs = any-group_from p [] jobs ∙ unfold all_jobs in refl
