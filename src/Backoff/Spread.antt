-- ===== src/Backoff/Spread.antt =====
-- The delay of retryBackoff.ts over exact numbers: the cap, and the bounds of the jitter.
use native.Mathlib.Nat.{le_of_mul-le-mul_left}
use react_native_sync_provid.Common.{
  ℕ, zero, suc, ◌+◌, ◌*◌, ◌≤◌, ◌<◌, min, max, ◌≡◌, refl, true, false, arith, ◌⊎◌, inl, inr, leb,
  Bool-cases, if◌then◌else◌,
}
use react_native_sync_provid.Common.Int.{ℤ, pos, negsuc, pos_part, max_ℤ, ltb_ℤ, ◌≤ℤ◌}
use react_native_sync_provid.Types.Sync.{RetryPolicy}
use react_native_sync_provid.Backoff.Exact.{
  Fraction, whole, min_fraction, round, exact_raw, exact_jittered, exact_clamped, exact_delay_ms,
}
use react_native_sync_provid.Backoff.Laws.{
  nominal_delay, exact_raw-growth, round-whole, exact_jittered-most, round_below,
  round-exact_jittered-most, round-exact_jittered-least,
}

-- A delay under a cap; a cap that is not positive is none.
abbrev pub capped : ℤ → ℕ → ℕ
capped cap delay = if ltb_ℤ (pos 0) cap then min delay (pos_part cap) else delay

pub round-exact_clamped-whole :
    (cap : ℤ) (raw : ℕ) → round (exact_clamped cap (whole raw)) ≡ capped cap raw
unfolding exact_clamped
round-exact_clamped-whole (pos zero) raw = ground (arith, round-whole raw)
round-exact_clamped-whole (pos (suc c)) raw = ground (arith, round-whole raw, round-whole (suc c))
round-exact_clamped-whole (negsuc c) raw = ground (arith, round-whole raw)

pub base_part : (z : ℤ) → pos_part (max_ℤ (pos 0) z) ≡ pos_part z
base_part (pos n) = ground arith
base_part (negsuc n) = ground arith

pub attempt_part : (z : ℤ) → pos_part (max_ℤ (pos 1) z) ≡ max 1 (pos_part z)
attempt_part (pos n) = ground arith
attempt_part (negsuc n) = ground arith

raw_of :
    (attempt : ℤ) (policy : RetryPolicy)
    → exact_raw policy.backoff
        (pos_part (max_ℤ (pos 0) policy.base_delay_ms))
        (pos_part (max_ℤ (pos 1) attempt))
      ≡ nominal_delay attempt policy
raw_of attempt policy =
    rw (base_part policy.base_delay_ms, attempt_part attempt)
      (exact_raw-growth policy.backoff (pos_part policy.base_delay_ms) (max 1 (pos_part attempt)))

-- A delay within a quarter of `raw`, rounded, unless the cap is what it is.
pub record InSpread (cap : ℤ) (raw delay : ℕ) : Type 0 where
  pub most : 4 * delay ≤ 5 * raw + 2
  pub least : (3 * raw ≤ 4 * delay + 2) ⊎ (cap ≡ pos delay)
  pub below_cap : (cap ≤ℤ pos 0) ⊎ (pos delay ≤ℤ cap)

module _ (random : Fraction) (is_unit : random.numerator < random.denominator) where
  under_cap :
      (raw c : ℕ)
      → (exact_jittered random raw).numerator * 1 ≤ c * (exact_jittered random raw).denominator
      → round (exact_jittered random raw) ≤ c
  unfolding exact_jittered
  under_cap raw c h =
      let twice : 2 * round (exact_jittered random raw) ≤ 2 * c + 1 =
        le_of_mul-le-mul_left {k = random.denominator}
          (omega (arith, h, round_below (exact_jittered random raw))) (omega (arith, is_unit)) in
      omega (arith, twice)

  over_cap :
      (raw c : ℕ)
      → c * (exact_jittered random raw).denominator ≤ (exact_jittered random raw).numerator * 1
      → 4 * c ≤ 5 * raw
  unfolding exact_jittered
  over_cap raw c h =
      le_of_mul-le-mul_left {k = random.denominator}
        (omega (arith, h, exact_jittered-most random is_unit raw)) (omega (arith, is_unit))

  same_fraction : (a : Fraction) → min_fraction a a ≡ a
  same_fraction a = ground arith

  uncapped :
      (cap : ℤ) (raw : ℕ) → cap ≤ℤ pos 0 → InSpread cap raw (round (exact_jittered random raw))
  uncapped cap raw low = record {
    most = round-exact_jittered-most random is_unit raw;
    least = inl (round-exact_jittered-least random is_unit raw);
    below_cap = inl low;
  }

  round-exact_clamped-exact_jittered :
      (cap : ℤ) (raw : ℕ) → InSpread cap raw (round (exact_clamped cap (exact_jittered random raw)))
  unfolding exact_clamped
  round-exact_clamped-exact_jittered (pos zero) raw =
      rw (same_fraction (exact_jittered random raw)) (uncapped (pos 0) raw (omega arith))
  round-exact_clamped-exact_jittered (negsuc c) raw =
      let none_set : ltb_ℤ (pos 0) (negsuc c) ≡ false = ground arith in
      rw (none_set, same_fraction (exact_jittered random raw))
        (uncapped (negsuc c) raw (omega arith))
  round-exact_clamped-exact_jittered (pos (suc c)) raw =
      let cap_set : ltb_ℤ (pos 0) (pos (suc c)) ≡ true = ground arith in
      let j = exact_jittered random raw in
      rw cap_set (elim (Bool-cases (leb (j.numerator * 1) (suc c * j.denominator))) [
        | inl below ↦ rw below (record {
          most = round-exact_jittered-most random is_unit raw;
          least = inl (round-exact_jittered-least random is_unit raw);
          below_cap = inr (omega (arith, under_cap raw (suc c) (ground arith)));
        })
        | inr above ↦
            rw (above, round-whole (suc c))
              (record {
                most = omega (arith, over_cap raw (suc c) (ground arith));
                least = inr refl;
                below_cap = inr (omega arith);
              })
      ])

-- Over exact numbers, with jitter and for a random number below 1, the delay is at most 5/4 and at least 3/4
-- of the documented one, up to the rounding, unless the delay is the cap `maxDelayMs`; and it is
-- never above the cap where that is positive.
pub exact_delay_ms-InSpread :
    (random : Fraction) (attempt : ℤ) (policy : RetryPolicy)
    → random.numerator < random.denominator
    → policy.jitter ≡ true
    → InSpread policy.max_delay_ms
        (nominal_delay attempt policy)
        (exact_delay_ms random attempt policy)
unfolding exact_delay_ms
exact_delay_ms-InSpread random attempt policy is_unit jitter =
    rw (jitter, raw_of attempt policy)
      (round-exact_clamped-exact_jittered random is_unit policy.max_delay_ms
        (nominal_delay attempt policy))
