-- ===== src/Hooks/Limiter/Refined.antt =====
-- web/src/lib/hooks/rateLimit.ts: the limiter as a function from keys to buckets.
use mathlib.Core.Path.{fun_ext}
use simple_rss_notifications.Base.{
  ℕ, ◌<◌, ◌≡◌, Bool, Option, some, Text, leb, length, if◌then◌else◌, arith, Bool-cases, inl, inr,
  subst,
}
use simple_rss_notifications.Base.Strings.{text_eq, text_eq_iff}
use simple_rss_notifications.Hooks.Limiter.{Bucket, Limiter, get, hit}
use simple_rss_notifications.Hooks.Limiter.Laws.{after_hit, get-hit, hit-ok}
use simple_rss_notifications.Hooks.Limiter.Bounded.{hit-other}

-- What a limiter stores, without the order of its entries.
unfoldable pub view : Limiter → Text → Option Bucket
view l j = get j l.buckets

abbrev pub assign : Text → Bucket → (Text → Option Bucket) → Text → Option Bucket
assign k b m j = if text_eq k j then some b else m j

-- A hit on a function: the bucket of the key counts it or starts again, and the verdict is whether it
-- is within the limit.
unfoldable pub spec_hit : Text → ℕ → ℕ → ℕ → (Text → Option Bucket) → Bool × (Text → Option Bucket)
spec_hit k limit window_ms now m =
    let b = after_hit k window_ms now (m k) in (leb b.count limit, assign k b m)

-- While there is room, `hit` does to the stored buckets what a function update does, and gives the
-- verdict of the updated bucket: the order of the entries and the eviction are not seen.
pub hit-refines :
    (k : Text) (limit window_ms now : ℕ) (l : Limiter)
    → length l.buckets < l.max_keys
    → ((hit k limit window_ms now l).0.ok ≡ (spec_hit k limit window_ms now (view l)).0)
      × (view (hit k limit window_ms now l).1 ≡ (spec_hit k limit window_ms now (view l)).1)
unfolding view spec_hit
hit-refines k limit window_ms now l room = (
  hit-ok k limit window_ms now l,
  fun_ext (λ j. elim (Bool-cases (text_eq k j)) [
    | inl e ↦ rw e (
        subst
          (λ i.
            get i (hit k limit window_ms now l).1.buckets
            ≡ some (after_hit k window_ms now (get k l.buckets)))
          ((text_eq_iff k j).0 e) (get-hit k limit window_ms now l))
    | inr e ↦ rw e (
        hit-other k j limit window_ms now l
          (λ same. absurd (ground (arith, (text_eq_iff k j).1 same))) room)
  ]),
)
