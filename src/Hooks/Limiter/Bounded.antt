-- ===== src/Hooks/Limiter/Bounded.antt =====
-- web/src/lib/hooks/rateLimit.ts: the size of the store, and the keys beside the one that is hit.
use simple_rss_notifications.Base.{
  ℕ, ◌+◌, ◌≤◌, ◌<◌, ◌≡◌, ◌≢◌, refl, ◌∙◌, inl, inr, not, List, [], ◌∷◌, ◌++◌, Text, length,
  length-append, length-update, length-select-le, delete, select, arith, Option-cases, Bool-cases,
}
use simple_rss_notifications.Base.Strings.{text_eq_iff}
use simple_rss_notifications.Hooks.Limiter.{
  Bucket, Limiter, is_key, get, is_over, evict_for, restart, count_hit, hit,
}
use simple_rss_notifications.Hooks.Limiter.Laws.{get-update_other}

length-delete-le : (k : Text) (bs : List Bucket) → length (delete (is_key k) bs) ≤ length bs
unfolding delete
length-delete-le k bs = length-select-le (λ b. not (is_key k b)) bs

length-evict : (m : ℕ) (bs : List Bucket) → 1 ≤ m → length (evict_for m 1 bs) + 1 ≤ m
unfolding evict_for
length-evict m [] h = omega arith
length-evict m (b ∷ bs) h = ground (arith, length-evict m bs h)

length-restart :
    (k : Text) (now : ℕ) (l : Limiter)
    → 1 ≤ l.max_keys
    → length (restart k now l).buckets ≤ l.max_keys
unfolding restart
length-restart k now l h = omega (
  arith,
  length-append (evict_for l.max_keys 1 (delete (is_key k) l.buckets))
      (record { key = k; count = 1; start = now } ∷ []),
  length-evict l.max_keys (delete (is_key k) l.buckets) h,
)

-- However many different keys hit it, a limiter holds `max_keys` buckets at most.
pub hit-bounded :
    (k : Text) (limit window_ms now : ℕ) (l : Limiter)
    → 1 ≤ l.max_keys
    → length l.buckets ≤ l.max_keys
    → (length (hit k limit window_ms now l).1.buckets ≤ l.max_keys)
      × ((hit k limit window_ms now l).1.max_keys ≡ l.max_keys)
unfolding hit count_hit
hit-bounded k limit window_ms now l h b = elim (Option-cases (get k l.buckets)) [
  | inl e ↦ rw (e, hit) (length-restart k now l h, unfold restart in refl)
  | inr (c, e) ↦ elim (Bool-cases (is_over c window_ms now)) [
    | inl over ↦ rw (e, hit) (rw over (length-restart k now l h, unfold restart in refl))
    | inr running ↦
        rw (e, hit)
          (rw running (
            omega (
              arith,
              length-update (is_key k) (λ (x : Bucket). record x { count = x.count + 1 }) l.buckets,
            ),
            refl,
          ))
  ]
]

evict-roomy : (m : ℕ) (bs : List Bucket) → length bs < m → evict_for m 1 bs ≡ bs
unfolding evict_for
evict-roomy m [] h = refl
evict-roomy m (b ∷ bs) h = ground arith

get-delete_other : (k j : Text) (bs : List Bucket) → k ≢ j → get j (delete (is_key k) bs) ≡ get j bs
unfolding delete select
get-delete_other k j [] apart = refl
get-delete_other k j (b ∷ bs) apart =
    ground (arith, text_eq_iff b.key k, text_eq_iff b.key j, get-delete_other k j bs apart)

get-append_one :
    (k j : Text) (now : ℕ) (bs : List Bucket)
    → k ≢ j
    → get j (bs ++ record { key = k; count = 1; start = now } ∷ []) ≡ get j bs
get-append_one k j now [] apart = ground (arith, text_eq_iff k j)
get-append_one k j now (b ∷ bs) apart = ground (arith, get-append_one k j now bs apart)

get-restart_other :
    (k j : Text) (now : ℕ) (l : Limiter)
    → k ≢ j
    → length l.buckets < l.max_keys
    → get j (restart k now l).buckets ≡ get j l.buckets
unfolding restart
get-restart_other k j now l apart room =
    get-append_one k j now (evict_for l.max_keys 1 (delete (is_key k) l.buckets)) apart
    ∙ rw
        (evict-roomy l.max_keys (delete (is_key k) l.buckets)
          (omega (arith, length-delete-le k l.buckets)))
        (get-delete_other k j l.buckets apart)

-- While there is room, a hit on one key leaves the bucket of every other key as it is.
pub hit-other :
    (k j : Text) (limit window_ms now : ℕ) (l : Limiter)
    → k ≢ j
    → length l.buckets < l.max_keys
    → get j (hit k limit window_ms now l).1.buckets ≡ get j l.buckets
unfolding hit count_hit
hit-other k j limit window_ms now l apart room = elim (Option-cases (get k l.buckets)) [
  | inl e ↦ rw (e, hit) (get-restart_other k j now l apart room)
  | inr (c, e) ↦ elim (Bool-cases (is_over c window_ms now)) [
    | inl over ↦ rw (e, hit) (rw over (get-restart_other k j now l apart room))
    | inr running ↦
        rw (e, hit)
          (rw running (
            get-update_other k j (λ b. record b { count = b.count + 1 }) l.buckets (λ b. refl)
              apart))
  ]
]
