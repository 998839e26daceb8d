-- ===== src/Backoff/Truncated.antt =====
-- android/.../retry/RetryPolicyEvaluator.kt against retryBackoff.ts over exact numbers: the delays
-- where the policy's cap is at least its base, and where it is not.
use native.Mathlib.Nat.{mul-le-mul_right, mul-le-mul_left, pow-le-pow_right, le_of_mul-le-mul_left}
use react_native_sync_provid.Common.{
  ℕ, zero, suc, ◌+◌, ◌-◌, ◌*◌, ◌≤◌, ◌<◌, min, ◌≡◌, refl, Bool, true, false, arith, inl, inr, leb,
  ltb, leb→le, Bool-cases, if◌then◌else◌, ◌&&◌,
}
use react_native_sync_provid.Common.Int.{ℤ, pos, negsuc, pos_part, max_ℤ, ltb_ℤ, ◌≤ℤ◌}
use react_native_sync_provid.Types.Enums.{BackoffStrategy, linear, exponential, fibonacci}
use react_native_sync_provid.Types.Sync.{RetryPolicy}
use react_native_sync_provid.Backoff.Exact.{
  Fraction, whole, min_fraction, round, exact_raw, exact_jittered, exact_clamped, exact_delay_ms,
}
use react_native_sync_provid.Backoff.Laws.{
  round-whole, round_below, fib, fib_mono, growth, exact_raw-growth,
}
use react_native_sync_provid.Backoff.ExactKotlin.{exact_to_long, max_long, exact_kotlin_ms}
use react_native_sync_provid.Backoff.Agreement.{
  spread_of, spread_of-denominator, exact_raw_kotlin-raw, exact_to_long-round, round-min,
}

-- Two whole delays that differ by the rounding only: `delay` is truncated, `other` is rounded.
abbrev pub RoundsTo : ℕ → ℕ → Type 0
RoundsTo delay other = (delay ≤ other) × (other ≤ delay + 1)

-- The Kotlin code leaves a raw delay of 0 without jitter.
abbrev spread_kotlin : Bool → Fraction → ℕ → Fraction
spread_kotlin jitter random raw =
    if jitter && ltb 0 raw then exact_jittered random raw else whole raw

exact_to_long-min :
    (raw c : ℕ) → c ≤ max_long → exact_to_long (min_fraction (whole raw) (whole c)) ≡ min raw c
unfolding exact_to_long
exact_to_long-min raw c h = ground arith

round-min_whole : (raw c : ℕ) → round (min_fraction (whole raw) (whole c)) ≡ min raw c
round-min_whole raw c = ground (arith, round-whole raw, round-whole c)

no_delay :
    (random : Fraction) (c : ℕ)
    → 0 < random.denominator
    → round (min_fraction (exact_jittered random 0) (whole c)) ≡ 0
unfolding exact_jittered
no_delay random c h =
    let none : 2 * round (exact_jittered random 0) ≤ 1 =
      le_of_mul-le-mul_left {k = 4 * random.denominator}
        (omega (arith, round_below (exact_jittered random 0))) (omega (arith, h)) in
    omega (arith, none, round-min (exact_jittered random 0) c (omega (arith, h)))

exact_to_long-RoundsTo :
    (a : Fraction) (c : ℕ)
    → 0 < a.denominator
    → c ≤ max_long
    → RoundsTo (exact_to_long (min_fraction a (whole c))) (round (min_fraction a (whole c)))
exact_to_long-RoundsTo a c positive h =
    elim (Bool-cases (leb (a.numerator * 1) (c * a.denominator))) [
      | inl below ↦ rw below (
          exact_to_long-round a positive
            (omega (arith, leb→le _ _ below, mul-le-mul_right a.denominator h)))
      | inr above ↦ rw above (exact_to_long-round (whole c) (omega arith) (omega (arith, h)))
    ]

capped-RoundsTo :
    (jitter : Bool) (random : Fraction) (raw c : ℕ)
    → 0 < random.denominator
    → c ≤ max_long
    → RoundsTo
        (exact_to_long (min_fraction (spread_kotlin jitter random raw) (whole c)))
        (round (min_fraction (spread_of jitter random raw) (whole c)))
capped-RoundsTo false random raw c h fits = exact_to_long-RoundsTo (whole raw) c (omega arith) fits
capped-RoundsTo true random zero c h fits =
    rw (exact_to_long-min 0 c fits, no_delay random c h) (omega arith, omega arith)
capped-RoundsTo true random (suc raw) c h fits =
    let some_delay : ltb 0 (suc raw) ≡ true = ground arith in
    rw some_delay (
      exact_to_long-RoundsTo (exact_jittered random (suc raw)) c
        (spread_of-denominator true random (suc raw) h) fits)

module _ (random : Fraction) (n c : ℕ) (policy : RetryPolicy) (first : 1 ≤ n)
    (cap : policy.max_delay_ms ≡ pos c) (some_cap : 0 < c)
    (base_fits : policy.base_delay_ms ≤ℤ pos c) where
  abbrev raw_n : ℕ
  raw_n = exact_raw policy.backoff (pos_part policy.base_delay_ms) n

  exact_kotlin_ms-capped :
      exact_kotlin_ms random (pos n) policy
      ≡ exact_to_long (min_fraction (spread_kotlin policy.jitter random raw_n) (whole c))
  unfolding exact_kotlin_ms
  exact_kotlin_ms-capped =
      rw
        (
          cap,
          started,
          cap_part policy.base_delay_ms base_fits,
          base_part policy.base_delay_ms,
          exact_raw_kotlin-raw policy.backoff (pos_part policy.base_delay_ms) n,
        )
        refl
    where
      started : ltb_ℤ (pos n) (pos 1) ≡ false
      started = ground arith

      base_part : (b : ℤ) → pos_part (max_ℤ b (pos 0)) ≡ pos_part b
      base_part (pos b) = ground arith
      base_part (negsuc b) = ground arith

      cap_part : (b : ℤ) → b ≤ℤ pos c → pos_part (max_ℤ (pos c) (max_ℤ b (pos 0))) ≡ c
      cap_part (pos b) h = ground arith
      cap_part (negsuc b) h = ground arith

  exact_delay_ms-capped :
      exact_delay_ms random (pos n) policy
      ≡ round (min_fraction (spread_of policy.jitter random raw_n) (whole c))
  unfolding exact_delay_ms exact_clamped
  exact_delay_ms-capped = rw (cap, cap_set, base_part policy.base_delay_ms, started) refl
    where
      cap_set : ltb_ℤ (pos 0) (pos c) ≡ true
      cap_set = ground arith

      started : pos_part (max_ℤ (pos 1) (pos n)) ≡ n
      started = ground arith

      base_part : (b : ℤ) → pos_part (max_ℤ (pos 0) b) ≡ pos_part b
      base_part (pos b) = ground arith
      base_part (negsuc b) = ground arith

-- For a policy whose cap `maxDelayMs` is positive, fits into a `Long` and is at least the base, and
-- an attempt from 1 on, the delay on Android over exact numbers is that of retryBackoff.ts for the
-- same random number below 1, or 1 ms less, since it is truncated where the other is rounded.
pub exact_kotlin_ms-RoundsTo :
    (random : Fraction) (n c : ℕ) (policy : RetryPolicy)
    → 1 ≤ n
    → policy.max_delay_ms ≡ pos c
    → 0 < c
    → c ≤ max_long
    → policy.base_delay_ms ≤ℤ pos c
    → random.numerator < random.denominator
    → RoundsTo (exact_kotlin_ms random (pos n) policy) (exact_delay_ms random (pos n) policy)
exact_kotlin_ms-RoundsTo random n c policy first cap some_cap fits base_fits is_unit =
    rw
      (
        exact_kotlin_ms-capped random n c policy first cap some_cap base_fits,
        exact_delay_ms-capped random n c policy first cap some_cap base_fits,
      )
      (capped-RoundsTo policy.jitter random
        (exact_raw policy.backoff (pos_part policy.base_delay_ms) n) c (omega (arith, is_unit))
        fits)

growth_positive : (s : BackoffStrategy) (n : ℕ) → 1 ≤ n → 1 ≤ growth s n
unfolding fib
growth_positive linear n h = h
growth_positive exponential n h = pow-le-pow_right {n = 2} (omega arith) (zero-le (n - 1))
  where
    zero-le : (m : ℕ) → 0 ≤ m
    zero-le m = omega arith
growth_positive fibonacci n h = fib_mono (n - 1) 1 n (omega (arith, h))

exact_raw-least : (s : BackoffStrategy) (base n : ℕ) → 1 ≤ n → base ≤ exact_raw s base n
exact_raw-least s base n h =
    rw (exact_raw-growth s base n) (omega (arith, mul-le-mul_left base (growth_positive s n h)))

-- Where `maxDelayMs` is not above the base (0, which caps nothing in the other implementations, is
-- not), the policy has no jitter and the base fits into a `Long`, the delay on Android over exact
-- numbers is the base at every attempt from 1 on, whatever the strategy.
pub exact_kotlin_ms-flat :
    (random : Fraction) (n : ℕ) (policy : RetryPolicy)
    → 1 ≤ n
    → policy.jitter ≡ false
    → policy.max_delay_ms ≤ℤ pos (pos_part policy.base_delay_ms)
    → pos_part policy.base_delay_ms ≤ max_long
    → exact_kotlin_ms random (pos n) policy ≡ pos_part policy.base_delay_ms
unfolding exact_kotlin_ms
exact_kotlin_ms-flat random n policy first steady under fits =
    rw
      (
        started,
        steady,
        cap_part policy.base_delay_ms policy.max_delay_ms under,
        base_part policy.base_delay_ms,
        exact_raw_kotlin-raw policy.backoff (pos_part policy.base_delay_ms) n,
        exact_to_long-min (exact_raw policy.backoff (pos_part policy.base_delay_ms) n)
            (pos_part policy.base_delay_ms) fits,
      )
      (omega (arith, exact_raw-least policy.backoff (pos_part policy.base_delay_ms) n first))
  where
    started : ltb_ℤ (pos n) (pos 1) ≡ false
    started = ground arith

    base_part : (b : ℤ) → pos_part (max_ℤ b (pos 0)) ≡ pos_part b
    base_part (pos b) = ground arith
    base_part (negsuc b) = ground arith

    cap_part : (b m : ℤ) → m ≤ℤ pos (pos_part b) → pos_part (max_ℤ m (max_ℤ b (pos 0))) ≡ pos_part b
    cap_part (pos b) (pos m) h = ground arith
    cap_part (pos b) (negsuc m) h = ground arith
    cap_part (negsuc b) (pos m) h = ground arith
    cap_part (negsuc b) (negsuc m) h = ground arith
