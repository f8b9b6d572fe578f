-- ===== src/Core/Retry/Delays.antt =====
-- The delays of the retries (internal/core/reconciler.go).
use Prim.Native.Nat.{min}
use ramify.Prelude.{ℕ, zero, suc, ◌+◌, ◌-◌, ◌*◌, ◌/◌, ◌^◌, ◌≤◌, ◌≡◌, refl, arith}
use native.Mathlib.Nat.{mod-lt}
use ramify.Core.Retry.{retry_delay, apply_backoff, full_jitter, second}

-- 2 ^ m for the exponents that occur
pow_bounds : (m : ℕ) → m ≤ 8 → (1 ≤ 2 ^ m) × (2 ^ m ≤ 256)
pow_bounds zero h = omega arith
pow_bounds (suc zero) h = omega arith
pow_bounds (suc (suc zero)) h = omega arith
pow_bounds (suc (suc (suc zero))) h = omega arith
pow_bounds (suc (suc (suc (suc zero)))) h = omega arith
pow_bounds (suc (suc (suc (suc (suc zero))))) h = omega arith
pow_bounds (suc (suc (suc (suc (suc (suc zero)))))) h = omega arith
pow_bounds (suc (suc (suc (suc (suc (suc (suc zero))))))) h = omega arith
pow_bounds (suc (suc (suc (suc (suc (suc (suc (suc zero)))))))) h = omega arith
pow_bounds (suc (suc (suc (suc (suc (suc (suc (suc (suc m))))))))) h = absurd (omega arith)

-- The backoff of an event is 2 ^ (attempt - 1) seconds up to the ninth attempt and 256 seconds from
-- then on (an attempt number below 1 counts as 1). The cap of 300 seconds never applies.
pub retry_delay_exact : (n : ℕ) → retry_delay n ≡ 2 ^ min (n - 1) 8 * second
unfolding retry_delay
retry_delay_exact zero = refl
retry_delay_exact (suc n) = ground (arith, pow_bounds (min n 8) (omega arith))

-- The delay before a retry of the deployment is between 1 and 8 seconds for each of the attempts
-- that the loop makes.
apply_backoff_bounds :
    (n : ℕ) → 2 ≤ n → n ≤ 5 → (second ≤ apply_backoff n) × (apply_backoff n ≤ 8 * second)
unfolding apply_backoff
apply_backoff_bounds (suc (suc zero)) h k = omega arith
apply_backoff_bounds (suc (suc (suc zero))) h k = omega arith
apply_backoff_bounds (suc (suc (suc (suc zero)))) h k = omega arith
apply_backoff_bounds (suc (suc (suc (suc (suc zero))))) h k = omega arith
apply_backoff_bounds (suc (suc (suc (suc (suc (suc n)))))) h k = absurd (omega arith)
apply_backoff_bounds (suc zero) h k = absurd (omega arith)
apply_backoff_bounds zero h k = absurd (omega arith)

-- Whatever the random draw, the jittered delay lies between half of the delay and the delay.
full_jitter_bounds : (draw d : ℕ) → (d / 2 ≤ full_jitter draw d) × (full_jitter draw d ≤ d)
unfolding full_jitter
full_jitter_bounds draw d =
    (ground (arith), ground (arith, mod-lt draw {m = d - d / 2 + 1} (omega arith)))
