-- ===== src/Delivery/Due/Delay.antt =====
-- How long a message waits before it is sent again.
use send_flow_backend.Prelude.{
  ℕ, zero, suc, if◌then◌else◌, ◌*◌, ◌/◌, ◌^◌, ◌≤◌, ◌<◌, ◌≡◌, arith, ltb,
}
use native.Mathlib.Nat.{mul-le-mul_right}
use send_flow_backend.Delivery.Due.Data.{
  capped_delay, compute_retry_delay, base_retry_delay, max_retry_delay,
}

power_positive : (n : ℕ) → 1 ≤ 2 ^ n
power_positive zero = omega arith
power_positive (suc n) = omega (arith, power_positive n)

jitter_bound : (d r : ℕ) → r < 2 ^ 53 → 10 * ((r * d) / (10 * 2 ^ 53)) ≤ d
jitter_bound d r h =
    let below : r * d ≤ 9007199254740991 * d = mul-le-mul_right d (omega (arith, h)) in
    omega (arith, below)

capped_delay_min : (n : ℕ) → base_retry_delay ≤ capped_delay n
unfolding capped_delay
capped_delay_min n = let one = power_positive n in ground (arith, one)

capped_delay_step : (n : ℕ) → capped_delay n ≤ capped_delay (suc n)
unfolding capped_delay
capped_delay_step n = go (2 ^ n) (2 ^ suc n) (omega arith)
  where
    go :
        (x y : ℕ)
        → y ≡ 2 * x
        → (if ltb max_retry_delay (base_retry_delay * x)
            then max_retry_delay
            else base_retry_delay * x)
          ≤ (if ltb max_retry_delay (base_retry_delay * y)
              then max_retry_delay
              else base_retry_delay * y)
    go x y h = ground arith

capped_delay_max : (n : ℕ) → capped_delay n ≤ max_retry_delay
unfolding capped_delay
capped_delay_max n = ground arith

-- The delay before a retry, for any random number: at least a minute, at most the hour's cap and a
-- tenth, within a tenth above the capped power of two, and capped delays do not fall as the retries
-- grow.
pub compute_retry_delay-bounds :
    (n r : ℕ)
    → r < 2 ^ 53
    → (base_retry_delay ≤ compute_retry_delay n r)
      × (capped_delay n ≤ compute_retry_delay n r)
      × (10 * compute_retry_delay n r ≤ 11 * capped_delay n)
      × (10 * compute_retry_delay n r ≤ 11 * max_retry_delay)
      × (capped_delay n ≤ capped_delay (suc n))
unfolding compute_retry_delay
compute_retry_delay-bounds n r h =
    let jitter = jitter_bound (capped_delay n) r h in
    (
      omega (arith, capped_delay_min n),
      omega arith,
      omega (arith, jitter),
      omega (arith, jitter, capped_delay_max n),
      capped_delay_step n,
    )
