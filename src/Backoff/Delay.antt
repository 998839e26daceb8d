-- ===== src/Backoff/Delay.antt =====
-- src/utils/retryBackoff.ts: `computeNextDelayMs` and `fibonacci`. The delays and the attempt of a
-- policy are integers; `Math.random()` is a parameter, a fraction numerator / denominator. A double
-- is exact, but for what is too large for one, which is infinite; infinity times 0 is not a number.
use react_native_sync_provid.Common.{
  ℕ, zero, suc, ◌+◌, ◌-◌, ◌*◌, ◌^◌, ◌==◌, leb, ltb, if◌then◌else◌,
}
use react_native_sync_provid.Common.Int.{ℤ, pos, pos_part, max_ℤ, ltb_ℤ}
use react_native_sync_provid.Types.Number.{Number, nan, infinity, finite}
use react_native_sync_provid.Types.Enums.{BackoffStrategy, linear, exponential, fibonacci}
use react_native_sync_provid.Types.Sync.{RetryPolicy}
use react_native_sync_provid.Backoff.Exact.{Fraction, whole, min_fraction, round}

-- A double that is not negative.
pub data Double : Type 0 where
  exact : Fraction → Double
  infinite not_a_number : Double

-- The least power of two that no double holds.
unfoldable pub overflow : ℕ
overflow = 2 ^ 1024

abbrev pub in_range : Fraction → Double
in_range a = if ltb a.numerator (overflow * a.denominator) then exact a else infinite

-- The product with an integer, the sum, and `Math.min`.
abbrev pub times : ℕ → Double → Double
times base (exact a) =
    in_range (record { numerator = base * a.numerator; denominator = a.denominator })
times base infinite = if base == 0 then not_a_number else infinite
times base not_a_number = not_a_number

abbrev pub plus : Double → Double → Double
plus (exact a) (exact b) = in_range (record {
  numerator = a.numerator * b.denominator + b.numerator * a.denominator;
  denominator = a.denominator * b.denominator;
})
plus not_a_number b = not_a_number
plus a not_a_number = not_a_number
plus _ _ = infinite

abbrev pub min_double : Double → Double → Double
min_double (exact a) (exact b) = exact (min_fraction a b)
min_double (exact a) infinite = exact a
min_double infinite (exact b) = exact b
min_double infinite infinite = infinite
min_double _ _ = not_a_number

-- The `for` loop from i = 3 to n, by the number of turns.
unfoldable pub sum_turns : ℕ → Double → Double → Double
sum_turns zero prev curr = curr
sum_turns (suc turns) prev curr = sum_turns turns curr (plus prev curr)

-- `fibonacci`.
unfoldable pub fibonacci_of : ℕ → Double
unfolding sum_turns
fibonacci_of n =
    let one = exact (whole 1) in
    if leb n 0 then exact (whole 0) else if leb n 2 then one else sum_turns (n - 2) one one

-- `raw`, before jitter: the `switch` on the strategy.
unfoldable pub raw_delay : BackoffStrategy → ℕ → ℕ → Double
unfolding fibonacci_of
raw_delay linear base safe_attempt = times base (in_range (whole safe_attempt))
raw_delay exponential base safe_attempt = times base (in_range (whole (2 ^ (safe_attempt - 1))))
raw_delay fibonacci base safe_attempt = times base (fibonacci_of safe_attempt)

-- `raw * (0.75 + random * 0.5)`: for random = k / n the factor is (3 n + 2 k) / (4 n).
unfoldable pub jittered : Fraction → Double → Double
jittered random (exact raw) = in_range (record {
  numerator = raw.numerator * (3 * random.denominator + 2 * random.numerator);
  denominator = raw.denominator * (4 * random.denominator);
})
jittered random raw = raw

-- The clamp to `policy.maxDelayMs`, where that is positive. `raw` is never negative.
unfoldable pub clamped : ℤ → Double → Double
clamped max_delay_ms raw =
    min_double raw
      (if ltb_ℤ (pos 0) max_delay_ms then exact (whole (pos_part max_delay_ms)) else raw)

-- `Math.round`, which leaves what is not finite.
abbrev pub rounded : Double → Number
rounded (exact a) = finite (pos (round a))
rounded infinite = infinity
rounded not_a_number = nan

-- `computeNextDelayMs({ attempt, policy })`. `Math.floor` of an integer is that integer.
unfoldable pub compute_next_delay_ms : Fraction → ℤ → RetryPolicy → Number
unfolding raw_delay jittered clamped
compute_next_delay_ms random attempt policy =
    let safe_attempt = pos_part (max_ℤ (pos 1) attempt) in
    let base = pos_part (max_ℤ (pos 0) policy.base_delay_ms) in
    let raw = raw_delay policy.backoff base safe_attempt in
    let spread = if policy.jitter then jittered random raw else raw in
    rounded (clamped policy.max_delay_ms spread)
