-- ===== src/Backoff/Range.antt =====
-- The delays of retryBackoff.ts and RetryPolicyEvaluator.kt over doubles: what they are where
-- nothing overflows, and where something does.
use native.Mathlib.Nat.{mul-le-mul_left, mul-le-mul_right}
use react_native_sync_provid.Common.{
  ℕ, zero, suc, ◌+◌, ◌-◌, ◌*◌, ◌≤◌, ◌<◌, ◌≡◌, ◌∙◌, refl, sym, ap, arith, ◌⊎◌, inl, inr, ltb, leb,
  max, Bool-cases, if◌then◌else◌,
}
use react_native_sync_provid.Common.Int.{ℤ, pos, pos_part, ltb_ℤ}
use react_native_sync_provid.Types.Number.{Number, nan, infinity, finite}
use react_native_sync_provid.Types.Enums.{BackoffStrategy, linear, exponential, fibonacci}
use react_native_sync_provid.Types.Sync.{RetryPolicy}
use react_native_sync_provid.Backoff.Exact.{
  Fraction, whole, fibonacci_loop, fibonacci_number, exact_jittered, exact_clamped, exact_delay_ms,
}
use react_native_sync_provid.Backoff.Laws.{
  fibonacci_number-fib, growth, nominal_delay, exact_raw-growth,
}
use react_native_sync_provid.Backoff.Spread.{capped, base_part, attempt_part}
use react_native_sync_provid.Backoff.Delay.{
  exact, infinite, overflow, in_range, times, plus, sum_turns, fibonacci_of, raw_delay, jittered,
  clamped, rounded, compute_next_delay_ms,
}

overflow_positive : 1 < overflow
unfolding overflow
overflow_positive = omega arith

pub in_range-exact : (a : Fraction) → a.numerator < overflow * a.denominator → in_range a ≡ exact a
in_range-exact a h = ground arith

in_range-infinite : (n : ℕ) → overflow ≤ n → in_range (whole n) ≡ infinite
in_range-infinite n h = ground arith

pub in_range-whole : (n : ℕ) → n < overflow → in_range (whole n) ≡ exact (whole n)
in_range-whole n h = in_range-exact (whole n) (omega (arith, h))

plus-exact : (a b : ℕ) → plus (exact (whole a)) (exact (whole b)) ≡ in_range (whole (a + b))
plus-exact a b = ap (λ n. in_range (whole n)) (omega arith)

pub plus-whole :
    (a b : ℕ) → plus (in_range (whole a)) (in_range (whole b)) ≡ in_range (whole (a + b))
plus-whole a b = elim (Bool-cases (ltb a overflow)) [
  | inl small ↦ elim (Bool-cases (ltb b overflow)) [
    | inl little ↦
        rw (in_range-whole a (ground arith), in_range-whole b (ground arith)) (plus-exact a b)
    | inr big ↦
        let above : overflow ≤ b = ground arith in
        rw (in_range-whole a (ground arith), in_range-infinite b above)
          (sym (in_range-infinite (a + b) (omega (arith, above))))
  ]
  | inr large ↦ elim (Bool-cases (ltb b overflow)) [
    | inl little ↦
        let above : overflow ≤ a = ground arith in
        rw (in_range-infinite a above, in_range-whole b (ground arith))
          (sym (in_range-infinite (a + b) (omega (arith, above))))
    | inr big ↦
        let above : overflow ≤ a = ground arith in
        rw (in_range-infinite a above, in_range-infinite b (ground arith))
          (sym (in_range-infinite (a + b) (omega (arith, above))))
  ]
]

sum_turns-loop :
    (turns a b : ℕ)
    → sum_turns turns (in_range (whole a)) (in_range (whole b))
      ≡ in_range (whole (fibonacci_loop turns a b))
unfolding sum_turns fibonacci_loop
sum_turns-loop zero a b = refl
sum_turns-loop (suc turns) a b =
    ap (λ d. sum_turns turns (in_range (whole b)) d) (plus-whole a b)
    ∙ sum_turns-loop turns b (a + b)

pub one-in_range : in_range (whole 1) ≡ exact (whole 1)
one-in_range = in_range-whole 1 overflow_positive

pub fibonacci_of-number : (n : ℕ) → fibonacci_of n ≡ in_range (whole (fibonacci_number n))
unfolding fibonacci_of fibonacci_number
fibonacci_of-number n = elim (Bool-cases (leb n 0)) [
  | inl none_yet ↦ rw none_yet (sym (in_range-whole 0 (omega (arith, overflow_positive))))
  | inr some_turn ↦ elim (Bool-cases (leb n 2)) [
    | inl early ↦ rw (some_turn, early) (sym one-in_range)
    | inr late ↦
        rw (some_turn, late)
          (ap (λ d. sum_turns (n - 2) d d) (sym one-in_range) ∙ sum_turns-loop (n - 2) 1 1)
  ]
]

-- The growth that is documented, times the base.
pub raw_delay-times :
    (s : BackoffStrategy) (base n : ℕ)
    → raw_delay s base n ≡ times base (in_range (whole (growth s n)))
unfolding raw_delay
raw_delay-times linear base n = refl
raw_delay-times exponential base n = refl
raw_delay-times fibonacci base n =
    ap (times base) (fibonacci_of-number n ∙ ap (λ m. in_range (whole m)) (fibonacci_number-fib n))

pub raw_delay-exact :
    (s : BackoffStrategy) (base n : ℕ)
    → growth s n < overflow
    → base * growth s n < overflow
    → raw_delay s base n ≡ exact (whole (base * growth s n))
raw_delay-exact s base n fits small =
    raw_delay-times s base n
    ∙ ap (times base) (in_range-whole (growth s n) fits)
    ∙ in_range-whole (base * growth s n) small

clamped-exact : (cap : ℤ) (a : Fraction) → clamped cap (exact a) ≡ exact (exact_clamped cap a)
unfolding clamped exact_clamped
clamped-exact cap a = ground arith

-- What the cap makes of an infinite delay.
abbrev pub saturated : ℤ → Number
saturated cap = if ltb_ℤ (pos 0) cap then finite (pos (pos_part cap)) else infinity

-- The delay without jitter for a base and a growth: base * growth under the cap where both are
-- below 2^1024, else the cap, or `Infinity` without one; and `NaN` where the base is 0 and the
-- growth is not below 2^1024.
abbrev pub IsDelay : ℕ → ℕ → ℤ → Number → Type 0
IsDelay base growth cap delay =
    ((growth < overflow)
      × (base * growth < overflow)
      × (delay ≡ finite (pos (capped cap (base * growth)))))
    ⊎ (((0 < base) × (overflow ≤ base * growth) × (delay ≡ saturated cap))
        ⊎ ((base ≡ 0) × (overflow ≤ growth) × (delay ≡ nan)))

-- No double overflows, neither before the jitter nor, when it adds a quarter, after it.
pub record IsInRange (attempt : ℤ) (policy : RetryPolicy) : Type 0 where
  pub factor : growth policy.backoff (max 1 (pos_part attempt)) < overflow
  pub product : 5 * nominal_delay attempt policy < 4 * overflow

pub jittered-exact :
    (random : Fraction) (raw : ℕ)
    → random.numerator < random.denominator
    → 5 * raw < 4 * overflow
    → jittered random (exact (whole raw)) ≡ exact (exact_jittered random raw)
unfolding jittered exact_jittered
jittered-exact random raw is_unit small =
    let d = random.denominator in
    let most : raw * (3 * d + 2 * random.numerator) ≤ raw * (5 * d) =
      mul-le-mul_left raw (omega (arith, is_unit)) in
    let below : (5 * raw + 1) * d ≤ 4 * overflow * d = mul-le-mul_right d (omega (arith, small)) in
    let same : 1 * (4 * d) ≡ 4 * d = omega arith in
    rw same (
      in_range-exact
        (record { numerator = raw * (3 * d + 2 * random.numerator); denominator = 4 * d })
        (omega (arith, most, below, is_unit)))

-- With jitter, where no double overflows, the delay is the one over exact numbers.
pub compute_next_delay_ms-exact :
    (random : Fraction) (attempt : ℤ) (policy : RetryPolicy)
    → random.numerator < random.denominator
    → IsInRange attempt policy
    → compute_next_delay_ms random attempt policy
      ≡ finite (pos (exact_delay_ms random attempt policy))
unfolding compute_next_delay_ms exact_delay_ms
compute_next_delay_ms-exact random attempt policy is_unit fits =
    let base = pos_part policy.base_delay_ms in
    let n = max 1 (pos_part attempt) in
    rw
      (
        base_part policy.base_delay_ms,
        attempt_part attempt,
        raw_delay-exact policy.backoff base n fits.factor (omega (arith, fits.product)),
        exact_raw-growth policy.backoff base n,
      )
      (elim (Bool-cases policy.jitter) [
        | inl jitter ↦
            rw (jitter, jittered-exact random (base * growth policy.backoff n) is_unit fits.product)
              (ap rounded (clamped-exact policy.max_delay_ms _))
        | inr steady ↦ rw steady (ap rounded (clamped-exact policy.max_delay_ms _))
      ])
