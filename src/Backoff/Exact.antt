-- ===== src/Backoff/Exact.antt =====
-- The arithmetic of the backoff over exact numbers, which none is too large for: what the doubles of
-- retryBackoff.ts and RetryPolicyEvaluator.kt come to where nothing overflows.
use react_native_sync_provid.Common.{ℕ, zero, suc, ◌+◌, ◌-◌, ◌*◌, ◌/◌, ◌^◌, leb, if◌then◌else◌}
use react_native_sync_provid.Common.Int.{ℤ, pos, pos_part, max_ℤ, ltb_ℤ}
use react_native_sync_provid.Types.Enums.{BackoffStrategy, linear, exponential, fibonacci}
use react_native_sync_provid.Types.Sync.{RetryPolicy}

-- A number that is not negative: `denominator` is positive in every one below.
pub record Fraction : Type 0 where
  pub numerator : ℕ
  pub denominator : ℕ

abbrev pub whole : ℕ → Fraction
whole n = record { numerator = n; denominator = 1 }

-- `Math.min` and `Math.round`, which rounds a half up.
abbrev pub min_fraction : Fraction → Fraction → Fraction
min_fraction a b = if leb (a.numerator * b.denominator) (b.numerator * a.denominator) then a else b

unfoldable pub round : Fraction → ℕ
round a = (2 * a.numerator + a.denominator) / (2 * a.denominator)

-- The `for` loop from i = 3 to n, by the number of turns.
unfoldable pub fibonacci_loop : ℕ → ℕ → ℕ → ℕ
fibonacci_loop zero prev curr = curr
fibonacci_loop (suc turns) prev curr = fibonacci_loop turns curr (prev + curr)

-- `fibonacci`.
unfoldable pub fibonacci_number : ℕ → ℕ
unfolding fibonacci_loop
fibonacci_number n = if leb n 0 then 0 else if leb n 2 then 1 else fibonacci_loop (n - 2) 1 1

-- `raw`, before jitter: the `switch` on the strategy.
unfoldable pub exact_raw : BackoffStrategy → ℕ → ℕ → ℕ
unfolding fibonacci_number
exact_raw linear base safe_attempt = base * safe_attempt
exact_raw exponential base safe_attempt = base * 2 ^ (safe_attempt - 1)
exact_raw fibonacci base safe_attempt = base * fibonacci_number safe_attempt

-- `raw * (0.75 + random * 0.5)`: for random = k / n the factor is (3 n + 2 k) / (4 n).
unfoldable pub exact_jittered : Fraction → ℕ → Fraction
exact_jittered random raw = record {
  numerator = raw * (3 * random.denominator + 2 * random.numerator);
  denominator = 4 * random.denominator;
}

-- The clamp to `policy.maxDelayMs`, where that is positive. `raw` is never negative.
unfoldable pub exact_clamped : ℤ → Fraction → Fraction
exact_clamped max_delay_ms raw =
    let cap = if ltb_ℤ (pos 0) max_delay_ms then whole (pos_part max_delay_ms) else raw in
    min_fraction raw cap

-- `computeNextDelayMs({ attempt, policy })`. `Math.floor` of an integer is that integer.
unfoldable pub exact_delay_ms : Fraction → ℤ → RetryPolicy → ℕ
unfolding exact_raw exact_jittered exact_clamped round
exact_delay_ms random attempt policy =
    let safe_attempt = pos_part (max_ℤ (pos 1) attempt) in
    let base = pos_part (max_ℤ (pos 0) policy.base_delay_ms) in
    let raw = exact_raw policy.backoff base safe_attempt in
    let spread = if policy.jitter then exact_jittered random raw else whole raw in
    round (exact_clamped policy.max_delay_ms spread)
