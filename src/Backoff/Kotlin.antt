-- ===== src/Backoff/Kotlin.antt =====
-- android/.../retry/RetryPolicyEvaluator.kt: the delay and the budget of the Android engine. Doubles
-- are those of Delay; an `Int` does not wrap.
use react_native_sync_provid.Common.{
  ℕ, zero, suc, ◌-◌, ◌/◌, ◌^◌, min, leb, ltb, ◌==◌, if◌then◌else◌, Bool, true, false, ◌&&◌, Option,
  none, some, List, [], ◌∷◌,
}
use react_native_sync_provid.Common.Int.{ℤ, pos, pos_part, max_ℤ, ltb_ℤ}
use react_native_sync_provid.Types.Enums.{BackoffStrategy, linear, exponential, fibonacci}
use react_native_sync_provid.Types.Sync.{RetryPolicy}
use react_native_sync_provid.Backoff.Exact.{Fraction, whole}
use react_native_sync_provid.Backoff.ExactKotlin.{max_long}
use react_native_sync_provid.Backoff.Delay.{
  Double, exact, infinite, not_a_number, in_range, times, plus, min_double, jittered,
}

abbrev pub is_infinite : Double → Bool
is_infinite infinite = true
is_infinite _ = false

-- The turns of the `for` loop from 3 to n, which an infinite `b` ends.
unfoldable pub sum_loop : ℕ → Double → Double → Double
sum_loop zero a b = b
sum_loop (suc turns) a b =
    let rest = sum_loop turns b (plus a b) in if is_infinite b then b else rest

unfoldable pub fibonacci_kotlin : ℕ → Double
unfolding sum_loop
fibonacci_kotlin n =
    if leb n 1 then exact (whole n) else sum_loop (n - 2) (exact (whole 1)) (exact (whole 1))

-- The `when` on the strategy.
unfoldable pub raw_kotlin : BackoffStrategy → ℕ → ℕ → Double
unfolding fibonacci_kotlin
raw_kotlin linear base attempt = times base (in_range (whole attempt))
raw_kotlin exponential base attempt = times base (in_range (whole (2 ^ (attempt - 1))))
raw_kotlin fibonacci base attempt = times base (fibonacci_kotlin attempt)

-- `Double.toLong()` of a number that is not negative: the fraction is dropped, what is above the
-- largest `Long` becomes it, and what is not a number 0.
unfoldable pub to_long : Double → ℕ
to_long (exact a) = min (a.numerator / a.denominator) max_long
to_long infinite = max_long
to_long not_a_number = 0

abbrev pub is_positive : Double → Bool
is_positive (exact a) = ltb 0 a.numerator
is_positive infinite = true
is_positive not_a_number = false

-- `computeDelayMs`.
unfoldable pub compute_delay_ms : Fraction → ℤ → RetryPolicy → ℕ
unfolding raw_kotlin jittered to_long
compute_delay_ms random attempt policy =
    if ltb_ℤ attempt (pos 1)
    then 0
    else let base = max_ℤ policy.base_delay_ms (pos 0) in
      let cap = max_ℤ policy.max_delay_ms base in
      let raw = raw_kotlin policy.backoff (pos_part base) (pos_part attempt) in
      let spread = if policy.jitter && is_positive raw then jittered random raw else raw in
      to_long (min_double spread (exact (whole (pos_part cap))))

abbrev pub listed_code : ℕ → List ℕ → Bool
listed_code code [] = false
listed_code code (c ∷ codes) = if c == code then true else listed_code code codes

-- `shouldRetryStatus`.
abbrev pub should_retry_status : Option ℕ → RetryPolicy → Bool
should_retry_status none policy = false
should_retry_status (some status_code) policy = listed_code status_code policy.retry_on_status_codes

-- `hasBudget`, for a number of attempts that is not negative.
abbrev pub has_budget : ℕ → RetryPolicy → Bool
has_budget attempt policy = ltb_ℤ (pos attempt) (max_ℤ policy.max_attempts (pos 1))
