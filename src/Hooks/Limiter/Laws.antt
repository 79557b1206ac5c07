-- ===== src/Hooks/Limiter/Laws.antt =====
-- web/src/lib/hooks/rateLimit.ts: `hit`, `peek` and `refund` on one key.
use simple_rss_notifications.Base.{
  ℕ, ◌+◌, ◌-◌, ◌*◌, ◌≤◌, ◌<◌, ◌≡◌, ◌≢◌, inl, inr, refl, ◌∙◌, true, false, Option, none, some, List,
  [], ◌∷◌, ◌++◌, Text, ltb, leb, ◌==◌, if◌then◌else◌, delete, select, update, arith, Option-cases,
  Bool-cases,
}
use simple_rss_notifications.Base.Strings.{text_eq_iff, text_eq_refl}
use simple_rss_notifications.Hooks.Limiter.{
  Bucket, Limiter, is_key, get, is_over, retry_after, evict_for, restart, count_hit, hit, peek,
  refund,
}

get-update_self :
    (k : Text) (f : Bucket → Bucket) (b : Bucket) (bs : List Bucket)
    → ((b : Bucket) → (f b).key ≡ b.key)
    → get k bs ≡ some b
    → get k (update (is_key k) f bs) ≡ some (f b)
unfolding update
get-update_self k f b [] same e = cc
get-update_self k f b (c ∷ bs) same e = ground (arith, same c, get-update_self k f b bs same)

pub get-update_other :
    (k j : Text) (f : Bucket → Bucket) (bs : List Bucket)
    → ((b : Bucket) → (f b).key ≡ b.key)
    → k ≢ j
    → get j (update (is_key k) f bs) ≡ get j bs
unfolding update
get-update_other k j f [] same apart = refl
get-update_other k j f (b ∷ bs) same apart =
    ground (
      arith,
      same b,
      text_eq_iff b.key k,
      text_eq_iff b.key j,
      get-update_other k j f bs same apart,
    )

get-delete : (k : Text) (bs : List Bucket) → get k (delete (is_key k) bs) ≡ none
unfolding delete select
get-delete k [] = refl
get-delete k (b ∷ bs) = ground (arith, get-delete k bs)

get-evict_none :
    (k : Text) (m n : ℕ) (bs : List Bucket) → get k bs ≡ none → get k (evict_for m n bs) ≡ none
unfolding evict_for
get-evict_none k m n [] e = refl
get-evict_none k m n (b ∷ bs) e = ground (arith, get-evict_none k m n bs)

get-append_none : (k : Text) (bs cs : List Bucket) → get k bs ≡ none → get k (bs ++ cs) ≡ get k cs
get-append_none k [] cs e = refl
get-append_none k (b ∷ bs) cs e = ground (arith, get-append_none k bs cs)

get-restart :
    (k : Text) (now : ℕ) (l : Limiter)
    → get k (restart k now l).buckets ≡ some (record { key = k; count = 1; start = now })
unfolding restart
get-restart k now l =
    get-append_none k (evict_for l.max_keys 1 (delete (is_key k) l.buckets)) _
      (get-evict_none k l.max_keys 1 _ (get-delete k l.buckets))
    ∙ ground (arith, text_eq_refl k)

-- The bucket of a key after a hit: a new one, or the old one with one hit more.
abbrev pub after_hit : Text → ℕ → ℕ → Option Bucket → Bucket
after_hit k window_ms now none = record { key = k; count = 1; start = now }
after_hit k window_ms now (some b) =
    if is_over b window_ms now
    then record { key = k; count = 1; start = now }
    else record b { count = b.count + 1 }

pub get-hit :
    (k : Text) (limit window_ms now : ℕ) (l : Limiter)
    → get k (hit k limit window_ms now l).1.buckets
      ≡ some (after_hit k window_ms now (get k l.buckets))
unfolding hit count_hit
get-hit k limit window_ms now l = elim (Option-cases (get k l.buckets)) [
  | inl e ↦ rw (e, hit) (get-restart k now l)
  | inr (b, e) ↦ elim (Bool-cases (is_over b window_ms now)) [
    | inl over ↦ rw (e, hit) (rw over (get-restart k now l))
    | inr running ↦
        rw (e, hit)
          (rw running
            (get-update_self k (λ b. record b { count = b.count + 1 }) b l.buckets (λ b. refl) e))
  ]
]

-- The verdict of a hit is that its bucket then holds at most `limit` hits.
pub hit-ok :
    (k : Text) (limit window_ms now : ℕ) (l : Limiter)
    → (hit k limit window_ms now l).0.ok
      ≡ leb (after_hit k window_ms now (get k l.buckets)).count limit
unfolding hit
hit-ok k limit window_ms now l = elim (Option-cases (get k l.buckets)) [
  | inl e ↦ rw (e, hit) refl
  | inr (b, e) ↦ rw (e, hit) (ground arith)
]

-- `peek` foretells the verdict of the next hit.
pub peek-hit :
    (k : Text) (limit window_ms now : ℕ) (l : Limiter)
    → 1 ≤ limit
    → (peek k limit window_ms now l).ok ≡ (hit k limit window_ms now l).0.ok
unfolding hit peek
peek-hit k limit window_ms now l h = elim (Option-cases (get k l.buckets)) [
  | inl e ↦ rw (e, hit, peek) (ground arith)
  | inr (b, e) ↦ rw (e, hit, peek) (ground arith)
]

pub get-refund :
    (k : Text) (window_ms now : ℕ) (l : Limiter) (b : Bucket)
    → get k l.buckets ≡ some b
    → is_over b window_ms now ≡ false
    → 1 ≤ b.count
    → get k (refund k window_ms now l).buckets ≡ some (record b { count = b.count - 1 })
unfolding refund
get-refund k window_ms now l b e running pos =
    let positive : (b.count == 0) ≡ false = ground arith in
    rw (e, refund)
      (rw (running, positive)
        (get-update_self k (λ c. record c { count = c.count - 1 }) b l.buckets (λ c. refl) e))

after_hit-running :
    (k : Text) (window_ms now : ℕ) (o : Option Bucket)
    → 0 < window_ms
    → (is_over (after_hit k window_ms now o) window_ms now ≡ false)
      × (1 ≤ (after_hit k window_ms now o).count)
after_hit-running k window_ms now none h = ground arith
after_hit-running k window_ms now (some b) h = (ground arith, ground arith)

peek-none-or :
    (k : Text) (limit window_ms now : ℕ) (l : Limiter) (b : Bucket)
    → get k l.buckets ≡ some b
    → (peek k limit window_ms now l).ok
      ≡ (if is_over b window_ms now then true else ltb b.count limit)
unfolding peek
peek-none-or k limit window_ms now l b e = rw (e, peek) (ground arith)

-- A refund at the instant of the hit gives the slot back: what is let through next is as before.
pub peek-refund-hit :
    (k : Text) (limit window_ms now : ℕ) (l : Limiter)
    → 0 < window_ms
    → 1 ≤ limit
    → (peek k limit window_ms now (refund k window_ms now (hit k limit window_ms now l).1)).ok
      ≡ (peek k limit window_ms now l).ok
unfolding peek
peek-refund-hit k limit window_ms now l w h =
    let b = after_hit k window_ms now (get k l.buckets) in
    let l' = (hit k limit window_ms now l).1 in
    let (running, pos) = after_hit-running k window_ms now (get k l.buckets) w in
    let refunded = get-refund k window_ms now l' b (get-hit k limit window_ms now l) running pos in
    peek-none-or k limit window_ms now (refund k window_ms now l') _ refunded
    ∙ before (get k l.buckets) refl
  where
    before :
        (o : Option Bucket)
        → get k l.buckets ≡ o
        → (if is_over (after_hit k window_ms now o) window_ms now
            then true
            else ltb ((after_hit k window_ms now o).count - 1) limit)
          ≡ (peek k limit window_ms now l).ok
    before none e = rw (e, peek) (ground arith)
    before (some c) e = rw (peek-none-or k limit window_ms now l c e) (ground arith)

hit-wait :
    (k : Text) (limit window_ms now : ℕ) (l : Limiter)
    → (hit k limit window_ms now l).0.retry_after_sec
      ≡ retry_after (after_hit k window_ms now (get k l.buckets)) window_ms now
unfolding hit
hit-wait k limit window_ms now l = elim (Option-cases (get k l.buckets)) [
  | inl e ↦ rw (e, hit) (omega arith)
  | inr (b, e) ↦ rw (e, hit) (ground arith)
]

-- The wait that a refusal names is at least a second, and enough: after it the key is let through
-- again, if no other hit came between.
pub hit-retry_after :
    (k : Text) (limit window_ms now later : ℕ) (l : Limiter)
    → 1 ≤ limit
    → (1 ≤ (hit k limit window_ms now l).0.retry_after_sec)
      × (now + 1000 * (hit k limit window_ms now l).0.retry_after_sec ≤ later
          → (hit k limit window_ms later (hit k limit window_ms now l).1).0.ok ≡ true)
hit-retry_after k limit window_ms now later l h =
    let b = after_hit k window_ms now (get k l.buckets) in
    let l' = (hit k limit window_ms now l).1 in
    rw (hit-wait k limit window_ms now l) (
      omega arith,
      λ waited.
          hit-ok k limit window_ms later l'
          ∙ rw (get-hit k limit window_ms now l) (again b (ground arith)),
    )
  where
    again :
        (b : Bucket)
        → b.start + window_ms ≤ later
        → leb (after_hit k window_ms later (some b)).count limit ≡ true
    again b over = ground arith
