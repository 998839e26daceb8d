-- ===== src/Backoff/Laws.antt =====
-- The delay against its documented formulas: the value without jitter, its bounds and its growth.
use native.Mathlib.Nat.{mul-le-mul_left, le_of_mul-le-mul_left, lt-mul-div-succ, mul-div-le}
use react_native_sync_provid.Common.{
  ℕ, zero, suc, ◌+◌, ◌-◌, ◌*◌, ◌^◌, ◌≤◌, ◌<◌, max, ◌≡◌, refl, ap, false, arith, leb,
}
use react_native_sync_provid.Common.Int.{ℤ, pos_part}
use react_native_sync_provid.Types.Enums.{BackoffStrategy, linear, exponential, fibonacci}
use react_native_sync_provid.Types.Sync.{RetryPolicy}
use react_native_sync_provid.Backoff.Exact.{
  Fraction, whole, round, fibonacci_loop, fibonacci_number, exact_raw, exact_jittered,
}

-- The sequence 0, 1, 1, 2, 3, 5, ….
unfoldable pub fib : ℕ → ℕ
fib zero = 0
fib (suc zero) = 1
fib (suc (suc n)) = fib n + fib (suc n)

fibonacci_loop-fib :
    (turns i n : ℕ) → n ≡ turns + suc i → fibonacci_loop turns (fib i) (fib (suc i)) ≡ fib n
unfolding fibonacci_loop fib
fibonacci_loop-fib zero i n e = let same : suc i ≡ n = omega (arith, e) in ap fib same
fibonacci_loop-fib (suc turns) i n e = fibonacci_loop-fib turns (suc i) n (omega (arith, e))

-- The iterative `fibonacci` computes the recursively defined sequence, for every number.
pub fibonacci_number-fib : (n : ℕ) → fibonacci_number n ≡ fib n
unfolding fibonacci_number fib
fibonacci_number-fib zero = refl
fibonacci_number-fib (suc zero) = refl
fibonacci_number-fib (suc (suc zero)) = refl
fibonacci_number-fib (suc (suc (suc n))) =
    let many : leb (suc (suc (suc n))) 0 ≡ false = ground arith in
    let turns : suc (suc (suc n)) - 2 ≡ suc n = omega arith in
    let more : leb (suc (suc (suc n))) 2 ≡ false = ground arith in
    rw (many, more, turns) (fibonacci_loop-fib (suc n) 1 (suc (suc (suc n))) (omega arith))

pub round-whole : (n : ℕ) → round (whole n) ≡ n
unfolding round
round-whole n = omega arith

pub fib_mono : (d n m : ℕ) → m ≡ d + n → fib n ≤ fib m
unfolding fib
fib_mono zero n m e = let same : m ≡ n = omega (arith, e) in rw same (omega arith)
fib_mono (suc d) n zero e = absurd (omega (arith, e))
fib_mono (suc d) n (suc m) e = omega (arith, fib_mono d n m (omega (arith, e)), fib-suc m)
  where
    fib-suc : (n : ℕ) → fib n ≤ fib (suc n)
    fib-suc zero = omega arith
    fib-suc (suc n) = omega arith

-- What `BackoffStrategy` documents for each strategy.
abbrev pub growth : BackoffStrategy → ℕ → ℕ
growth linear attempt = attempt
growth exponential attempt = 2 ^ (attempt - 1)
growth fibonacci attempt = fib attempt

-- `base * growth`, for the attempt exact_clamped to 1 and the base exact_clamped to 0.
abbrev pub nominal_delay : ℤ → RetryPolicy → ℕ
nominal_delay attempt policy =
    pos_part policy.base_delay_ms * growth policy.backoff (max 1 (pos_part attempt))

pub exact_raw-growth : (s : BackoffStrategy) (base n : ℕ) → exact_raw s base n ≡ base * growth s n
unfolding exact_raw
exact_raw-growth linear base n = refl
exact_raw-growth exponential base n = refl
exact_raw-growth fibonacci base n = ap (λ t. base * t) (fibonacci_number-fib n)

-- 2 d r ≤ 2 n + d < 2 d (r + 1), for the rounded value r of n / d.
pub round_below : (a : Fraction) → 2 * a.denominator * round a ≤ 2 * a.numerator + a.denominator
unfolding round
round_below a = mul-div-le _ (2 * a.denominator)

pub round_above :
    (a : Fraction)
    → 0 < a.denominator
    → 2 * a.numerator + a.denominator < 2 * a.denominator * (round a + 1)
unfolding round
round_above a h = lt-mul-div-succ _ (omega (arith, h))

module _ (random : Fraction) (is_unit : random.numerator < random.denominator) where
  abbrev pub n : ℕ
  n = random.denominator

  abbrev pub k : ℕ
  k = random.numerator

  pub exact_jittered-least : (raw : ℕ) → n * (3 * raw) ≤ (exact_jittered random raw).numerator
  unfolding exact_jittered
  exact_jittered-least raw =
      let low : 3 * n ≤ 3 * n + 2 * k = omega arith in omega (arith, mul-le-mul_left raw low)

  pub exact_jittered-most : (raw : ℕ) → (exact_jittered random raw).numerator ≤ n * (5 * raw)
  unfolding exact_jittered
  exact_jittered-most raw =
      let high : 3 * n + 2 * k ≤ 5 * n = omega (arith, is_unit) in
      omega (arith, mul-le-mul_left raw high)

  pub round-exact_jittered-most : (raw : ℕ) → 4 * round (exact_jittered random raw) ≤ 5 * raw + 2
  unfolding exact_jittered
  round-exact_jittered-most raw =
      le_of_mul-le-mul_left {k = 2 * n}
        (omega (arith, round_below (exact_jittered random raw), exact_jittered-most raw))
        (omega (arith, is_unit))

  pub round-exact_jittered-least : (raw : ℕ) → 3 * raw ≤ 4 * round (exact_jittered random raw) + 2
  unfolding exact_jittered
  round-exact_jittered-least raw =
      le_of_mul-le-mul_left {k = 2 * n}
        (omega (
          arith,
          round_above (exact_jittered random raw) (omega (arith, is_unit)),
          exact_jittered-least raw,
        ))
        (omega (arith, is_unit))
