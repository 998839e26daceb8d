-- ===== src/Backoff/ExactKotlin.antt =====
-- The arithmetic of RetryPolicyEvaluator.kt over exact numbers.
use react_native_sync_provid.Common.{
  ℕ, zero, suc, ◌+◌, ◌-◌, ◌*◌, ◌/◌, ◌^◌, min, leb, ltb, if◌then◌else◌, ◌&&◌,
}
use react_native_sync_provid.Common.Int.{ℤ, pos, pos_part, max_ℤ, ltb_ℤ}
use react_native_sync_provid.Types.Enums.{BackoffStrategy, linear, exponential, fibonacci}
use react_native_sync_provid.Types.Sync.{RetryPolicy}
use react_native_sync_provid.Backoff.Exact.{Fraction, whole, min_fraction, exact_jittered}

-- The turns of the `for` loop from 3 to n.
unfoldable pub exact_sum_loop : ℕ → ℕ → ℕ → ℕ
exact_sum_loop zero a b = b
exact_sum_loop (suc turns) a b = let sum = a + b in exact_sum_loop turns b sum

unfoldable pub exact_fibonacci_kotlin : ℕ → ℕ
unfolding exact_sum_loop
exact_fibonacci_kotlin n = if leb n 1 then n else exact_sum_loop (n - 2) 1 1

-- The `when` on the strategy.
unfoldable pub exact_raw_kotlin : BackoffStrategy → ℕ → ℕ → ℕ
unfolding exact_fibonacci_kotlin
exact_raw_kotlin linear base attempt = base * attempt
exact_raw_kotlin exponential base attempt = base * 2 ^ (attempt - 1)
exact_raw_kotlin fibonacci base attempt = base * exact_fibonacci_kotlin attempt

-- `Double.toLong()` of a number that is not negative: the fraction is dropped, and what is above the
-- largest `Long` becomes it.
abbrev pub max_long : ℕ
max_long = 9223372036854775807

unfoldable pub exact_to_long : Fraction → ℕ
exact_to_long a = min (a.numerator / a.denominator) max_long

-- The delay of RetryPolicyEvaluator.kt, over exact numbers.
unfoldable pub exact_kotlin_ms : Fraction → ℤ → RetryPolicy → ℕ
unfolding exact_raw_kotlin exact_jittered exact_to_long
exact_kotlin_ms random attempt policy =
    if ltb_ℤ attempt (pos 1)
    then 0
    else let base = max_ℤ policy.base_delay_ms (pos 0) in
      let cap = max_ℤ policy.max_delay_ms base in
      let raw = exact_raw_kotlin policy.backoff (pos_part base) (pos_part attempt) in
      let spread = if policy.jitter && ltb 0 raw then exact_jittered random raw else whole raw in
      exact_to_long (min_fraction spread (whole (pos_part cap)))
