-- ===== src/Backoff/RangeKotlin.antt =====
-- RetryPolicyEvaluator.kt against retryBackoff.ts over doubles, where nothing overflows.
use react_native_sync_provid.Common.{
  ℕ, zero, suc, ◌+◌, ◌-◌, ◌*◌, ◌≤◌, ◌<◌, ◌≡◌, ◌∙◌, refl, sym, ap, true, false, arith, inl, inr, ltb,
  leb, max, Bool-cases, ◌&&◌,
}
use react_native_sync_provid.Common.Int.{ℤ, pos, negsuc, pos_part, max_ℤ, ◌≤ℤ◌}
use react_native_sync_provid.Types.Number.{finite}
use react_native_sync_provid.Types.Enums.{BackoffStrategy, linear, exponential, fibonacci}
use react_native_sync_provid.Types.Sync.{RetryPolicy}
use react_native_sync_provid.Backoff.Exact.{Fraction, whole, exact_delay_ms}
use react_native_sync_provid.Backoff.ExactKotlin.{
  exact_sum_loop, exact_fibonacci_kotlin, max_long, exact_to_long, exact_kotlin_ms,
}
use react_native_sync_provid.Backoff.Laws.{growth, exact_raw-growth}
use react_native_sync_provid.Backoff.Agreement.{exact_fibonacci_kotlin-number, exact_raw_kotlin-raw}
use react_native_sync_provid.Backoff.Truncated.{RoundsTo, exact_kotlin_ms-RoundsTo}
use react_native_sync_provid.Backoff.Delay.{
  overflow, in_range, times, compute_next_delay_ms, raw_delay,
}
use react_native_sync_provid.Backoff.Kotlin.{
  is_infinite, sum_loop, fibonacci_kotlin, raw_kotlin, to_long, compute_delay_ms,
}
use react_native_sync_provid.Backoff.Range.{
  in_range-whole, plus-whole, one-in_range, fibonacci_of-number, raw_delay-exact, IsInRange,
  jittered-exact, compute_next_delay_ms-exact,
}

loop-least : (turns a b : ℕ) → b ≤ exact_sum_loop turns a b
unfolding exact_sum_loop
loop-least zero a b = omega arith
loop-least (suc turns) a b = omega (arith, loop-least turns b (a + b))

in_range-large : (m n : ℕ) → overflow ≤ m → m ≤ n → in_range (whole m) ≡ in_range (whole n)
in_range-large m n h k = ground arith

small-infinite : (b : ℕ) → ltb b overflow ≡ true → is_infinite (in_range (whole b)) ≡ false
small-infinite b h = ground arith

large-infinite : (b : ℕ) → ltb b overflow ≡ false → is_infinite (in_range (whole b)) ≡ true
large-infinite b h = ground arith

-- Leaving the loop where `b` is infinite changes nothing.
sum_loop-exact :
    (turns a b : ℕ)
    → sum_loop turns (in_range (whole a)) (in_range (whole b))
      ≡ in_range (whole (exact_sum_loop turns a b))
unfolding sum_loop exact_sum_loop
sum_loop-exact zero a b = refl
sum_loop-exact (suc turns) a b = elim (Bool-cases (ltb b overflow)) [
  | inl small ↦ rw (small-infinite b small) (
      ap (λ d. sum_loop turns (in_range (whole b)) d) (plus-whole a b)
      ∙ sum_loop-exact turns b (a + b))
  | inr large ↦ rw (large-infinite b large) (
      in_range-large b (exact_sum_loop turns b (a + b)) (ground arith)
        (omega (arith, loop-least turns b (a + b))))
]

fibonacci_kotlin-exact : (n : ℕ) → fibonacci_kotlin n ≡ in_range (whole (exact_fibonacci_kotlin n))
unfolding fibonacci_kotlin exact_fibonacci_kotlin overflow
fibonacci_kotlin-exact n = elim (Bool-cases (leb n 1)) [
  | inl early ↦ rw early (sym (in_range-whole n (ground arith)))
  | inr late ↦
      rw late (ap (λ d. sum_loop (n - 2) d d) (sym one-in_range) ∙ sum_loop-exact (n - 2) 1 1)
]

raw_kotlin-raw_delay : (s : BackoffStrategy) (base n : ℕ) → raw_kotlin s base n ≡ raw_delay s base n
unfolding raw_kotlin raw_delay
raw_kotlin-raw_delay linear base n = refl
raw_kotlin-raw_delay exponential base n = refl
raw_kotlin-raw_delay fibonacci base n = ap (times base) (
    fibonacci_kotlin-exact n
    ∙ ap (λ m. in_range (whole m)) (exact_fibonacci_kotlin-number n)
    ∙ sym (fibonacci_of-number n))

-- On Android too the delay is the one over exact numbers, where no double overflows.
compute_delay_ms-exact :
    (random : Fraction) (n : ℕ) (policy : RetryPolicy)
    → 1 ≤ n
    → random.numerator < random.denominator
    → IsInRange (pos n) policy
    → compute_delay_ms random (pos n) policy ≡ exact_kotlin_ms random (pos n) policy
unfolding compute_delay_ms exact_kotlin_ms to_long exact_to_long
compute_delay_ms-exact random n policy first is_unit fits =
    let base = pos_part policy.base_delay_ms in
    let raw = base * growth policy.backoff n in
    let counted : max 1 n ≡ n = omega (arith, first) in
    let factor : growth policy.backoff n < overflow = rw counted at fits.factor in
    let product : 5 * raw < 4 * overflow = rw counted at fits.product in
    rw
      (
        base_part policy.base_delay_ms,
        raw_kotlin-raw_delay policy.backoff base n,
        raw_delay-exact policy.backoff base n factor (omega (arith, product)),
        exact_raw_kotlin-raw policy.backoff base n,
        exact_raw-growth policy.backoff base n,
      )
      (elim (Bool-cases (policy.jitter && ltb 0 raw)) [
        | inl jitter ↦ rw (jitter, jittered-exact random raw is_unit product) refl
        | inr steady ↦ rw steady refl
      ])
  where
    base_part : (b : ℤ) → pos_part (max_ℤ b (pos 0)) ≡ pos_part b
    base_part (pos b) = ground arith
    base_part (negsuc b) = ground arith

-- For a policy whose cap `maxDelayMs` is positive, fits into a `Long` and is at least the base, and
-- an attempt from 1 on, where no double overflows, the delay on Android is that of
-- `computeNextDelayMs` for the same random number below 1, or 1 ms less, since it is truncated where
-- the other is rounded.
pub compute_delay_ms-RoundsTo :
    (random : Fraction) (n c : ℕ) (policy : RetryPolicy)
    → 1 ≤ n
    → policy.max_delay_ms ≡ pos c
    → 0 < c
    → c ≤ max_long
    → policy.base_delay_ms ≤ℤ pos c
    → random.numerator < random.denominator
    → IsInRange (pos n) policy
    → (delay : ℕ) × (compute_next_delay_ms random (pos n) policy ≡ finite (pos delay))
      × RoundsTo (compute_delay_ms random (pos n) policy) delay
compute_delay_ms-RoundsTo random n c policy first cap some_cap fits base_fits is_unit range = (
  exact_delay_ms random (pos n) policy,
  compute_next_delay_ms-exact random (pos n) policy is_unit range,
  rw (compute_delay_ms-exact random n policy first is_unit range)
      (exact_kotlin_ms-RoundsTo random n c policy first cap some_cap fits base_fits is_unit),
)
