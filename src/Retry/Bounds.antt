-- ===== src/Retry/Bounds.antt =====
-- The backoff ladder and its bounds.
use native.Mathlib.Nat.{pow-suc}
use simple_rss_notifications.Base.{
  ℕ, zero, suc, ◌-◌, ◌^◌, ◌≤◌, ◌≡◌, refl, Option, none, some, arith,
}
use simple_rss_notifications.Retry.{max_retry_delay_sec, backoff_sec, retry_delay_sec}

pow_five_pos : (n : ℕ) → 1 ≤ 5 ^ n
pow_five_pos zero = omega arith
pow_five_pos (suc n) = omega (arith, pow-suc 5 n, pow_five_pos n)

pow_five_mono : (m n : ℕ) → m ≤ n → 5 ^ m ≤ 5 ^ n
pow_five_mono zero n h = pow_five_pos n
pow_five_mono (suc m) zero h = absurd (omega arith)
pow_five_mono (suc m) (suc n) h =
    omega (arith, pow-suc 5 m, pow-suc 5 n, pow_five_mono m n (omega arith))

-- The delays are 60 s, 300 s and 1500 s after the first three attempts, and one hour from the
-- fourth on.
pub backoff_sec_ladder :
    (n : ℕ)
    → (backoff_sec 1 ≡ 60)
      × (backoff_sec 2 ≡ 300)
      × (backoff_sec 3 ≡ 1500)
      × (4 ≤ n → backoff_sec n ≡ max_retry_delay_sec)
unfolding backoff_sec
backoff_sec_ladder n = (refl, refl, refl, λ h. omega (arith, pow_five_mono 3 (n - 1) (omega arith)))

pub backoff_sec_mono : (m n : ℕ) → m ≤ n → backoff_sec m ≤ backoff_sec n
unfolding backoff_sec
backoff_sec_mono m n h = omega (arith, pow_five_mono (m - 1) (n - 1) (omega arith))

pub backoff_sec_bounds : (n : ℕ) → (60 ≤ backoff_sec n) × (backoff_sec n ≤ max_retry_delay_sec)
unfolding backoff_sec
backoff_sec_bounds n = omega (arith, pow_five_pos (n - 1))

-- Whatever hint a provider sends, the delay is at least the backoff, at least a minute and at most
-- an hour; a hint of at most an hour is honoured in full.
pub retry_delay_sec_bounds :
    (attempts : ℕ) (hint : Option ℕ)
    → (backoff_sec attempts ≤ retry_delay_sec attempts hint)
      × (60 ≤ retry_delay_sec attempts hint)
      × (retry_delay_sec attempts hint ≤ max_retry_delay_sec)
      × ((h : ℕ) → hint ≡ some h → h ≤ max_retry_delay_sec → h ≤ retry_delay_sec attempts hint)
unfolding retry_delay_sec
retry_delay_sec_bounds attempts none = ground (arith, backoff_sec_bounds attempts)
retry_delay_sec_bounds attempts (some h) = ground (arith, backoff_sec_bounds attempts)
