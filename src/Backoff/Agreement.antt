-- ===== src/Backoff/Agreement.antt =====
-- The delays of the three implementations (retryBackoff.ts, RetryPolicyEvaluator.swift and
-- RetryPolicyEvaluator.kt) against each other, over exact numbers.
use native.Mathlib.Nat.{le_of_mul-le-mul_left, lt-mul-div-succ, mul-div-le}
use react_native_sync_provid.Common.{
  ℕ, zero, suc, ◌+◌, ◌-◌, ◌*◌, ◌/◌, ◌≤◌, ◌<◌, min, ◌≡◌, refl, ap, Bool, true, false, arith, inl,
  inr, leb, Bool-cases, if◌then◌else◌,
}
use react_native_sync_provid.Common.Int.{ℤ, pos, pos_part, max_ℤ}
use react_native_sync_provid.Types.Enums.{BackoffStrategy, linear, exponential, fibonacci}
use react_native_sync_provid.Types.Sync.{RetryPolicy}
use react_native_sync_provid.Backoff.Exact.{
  Fraction, whole, min_fraction, round, fibonacci_loop, fibonacci_number, exact_raw, exact_jittered,
  exact_clamped, exact_delay_ms,
}
use react_native_sync_provid.Backoff.Laws.{round-whole, round_below, round_above}
use react_native_sync_provid.Backoff.ExactKotlin.{
  exact_sum_loop, exact_fibonacci_kotlin, exact_raw_kotlin, exact_to_long, max_long,
}
use react_native_sync_provid.Backoff.Swift.{
  turn, fibonacci_double, raw_double, max_representable_delay_ms, next_delay_ms,
}

turn-loop : (turns a b : ℕ) → turn turns a b ≡ fibonacci_loop turns a b
unfolding turn fibonacci_loop
turn-loop zero a b = refl
turn-loop (suc turns) a b = turn-loop turns b (a + b)

exact_sum_loop-loop : (turns a b : ℕ) → exact_sum_loop turns a b ≡ fibonacci_loop turns a b
unfolding exact_sum_loop fibonacci_loop
exact_sum_loop-loop zero a b = refl
exact_sum_loop-loop (suc turns) a b = exact_sum_loop-loop turns b (a + b)

raw_double-raw : (s : BackoffStrategy) (base n : ℕ) → raw_double s base n ≡ exact_raw s base n
unfolding raw_double exact_raw fibonacci_double fibonacci_number
raw_double-raw linear base n = refl
raw_double-raw exponential base n = refl
raw_double-raw fibonacci base n = rw (turn-loop (n - 2) 1 1) refl

pub exact_fibonacci_kotlin-number : (n : ℕ) → exact_fibonacci_kotlin n ≡ fibonacci_number n
unfolding exact_fibonacci_kotlin fibonacci_number exact_sum_loop fibonacci_loop
exact_fibonacci_kotlin-number zero = refl
exact_fibonacci_kotlin-number (suc zero) = refl
exact_fibonacci_kotlin-number (suc (suc zero)) = refl
exact_fibonacci_kotlin-number (suc (suc (suc n))) =
    let many : leb (suc (suc (suc n))) 0 ≡ false = ground arith in
    let more : leb (suc (suc (suc n))) 1 ≡ false = ground arith in
    let most : leb (suc (suc (suc n))) 2 ≡ false = ground arith in
    rw (many, more, most, exact_sum_loop-loop (suc (suc (suc n)) - 2) 1 1) refl

pub exact_raw_kotlin-raw :
    (s : BackoffStrategy) (base n : ℕ) → exact_raw_kotlin s base n ≡ exact_raw s base n
unfolding exact_raw_kotlin exact_raw
exact_raw_kotlin-raw linear base n = refl
exact_raw_kotlin-raw exponential base n = refl
exact_raw_kotlin-raw fibonacci base n = ap (λ t. base * t) (exact_fibonacci_kotlin-number n)

-- Rounding commutes with the minimum of a whole number.
pub round-min :
    (a : Fraction) (c : ℕ) → 0 < a.denominator → round (min_fraction a (whole c)) ≡ min (round a) c
round-min a c h = elim (Bool-cases (leb (a.numerator * 1) (c * a.denominator))) [
  | inl below ↦
      let least : 2 * round a ≤ 2 * c + 1 =
        le_of_mul-le-mul_left {k = a.denominator} (omega (arith, round_below a, leb_le _ _ below))
          h in
      rw below (omega (arith, least))
  | inr above ↦
      let most : 2 * c ≤ 2 * round a + 1 =
        le_of_mul-le-mul_left {k = a.denominator} (omega (arith, round_above a h, leb_gt _ _ above))
          h in
      rw (above, round-whole c) (omega (arith, most))
]
  where
    leb_le : (a b : ℕ) → leb a b ≡ true → a ≤ b
    leb_le a b h = ground arith

    leb_gt : (a b : ℕ) → leb a b ≡ false → b < a
    leb_gt a b h = ground arith

-- `raw` with jitter, where the policy asks for it.
abbrev pub spread_of : Bool → Fraction → ℕ → Fraction
spread_of jitter random raw = if jitter then exact_jittered random raw else whole raw

pub spread_of-denominator :
    (jitter : Bool) (random : Fraction) (raw : ℕ)
    → 0 < random.denominator
    → 0 < (spread_of jitter random raw).denominator
unfolding exact_jittered
spread_of-denominator true random raw h = omega (arith, h)
spread_of-denominator false random raw h = omega arith

exact_clamped-denominator :
    (cap : ℤ) (a : Fraction) → 0 < a.denominator → 0 < (exact_clamped cap a).denominator
unfolding exact_clamped
exact_clamped-denominator cap a h = ground arith

-- Over exact numbers the delay on iOS is that of retryBackoff.ts up to 2^53 - 1 ms and this number above it, for
-- every attempt, policy and random number.
pub next_delay_ms-exact_delay_ms :
    (random : Fraction) (attempt : ℤ) (policy : RetryPolicy)
    → 0 < random.denominator
    → next_delay_ms random attempt policy
      ≡ min (exact_delay_ms random attempt policy) max_representable_delay_ms
unfolding next_delay_ms exact_delay_ms exact_clamped
next_delay_ms-exact_delay_ms random attempt policy h =
    let base = pos_part (max_ℤ (pos 0) policy.base_delay_ms) in
    let n = pos_part (max_ℤ (pos 1) attempt) in
    let spread = spread_of policy.jitter random (exact_raw policy.backoff base n) in
    let positive : 0 < spread.denominator =
      spread_of-denominator policy.jitter random (exact_raw policy.backoff base n) h in
    rw (raw_double-raw policy.backoff base n) (
      round-min (exact_clamped policy.max_delay_ms spread) max_representable_delay_ms
        (exact_clamped-denominator policy.max_delay_ms spread positive))

-- Truncation against rounding, for a number that a `Long` can hold.
pub exact_to_long-round :
    (a : Fraction)
    → 0 < a.denominator
    → a.numerator ≤ max_long * a.denominator
    → (exact_to_long a ≤ round a) × (round a ≤ exact_to_long a + 1)
unfolding exact_to_long
exact_to_long-round a h small =
    let d = a.denominator in
    let q = a.numerator / d in
    let low : d * q ≤ a.numerator = mul-div-le a.numerator d in
    let high : a.numerator < d * (q + 1) = lt-mul-div-succ a.numerator h in
    let fits : q ≤ max_long = le_of_mul-le-mul_left {k = d} (omega (arith, low, small)) h in
    let least : 2 * q ≤ 2 * round a + 1 =
      le_of_mul-le-mul_left {k = d} (omega (arith, low, round_above a h)) h in
    let most : 2 * round a ≤ 2 * q + 3 =
      le_of_mul-le-mul_left {k = d} (omega (arith, high, round_below a)) h in
    (omega (arith, fits, least), omega (arith, fits, most))
