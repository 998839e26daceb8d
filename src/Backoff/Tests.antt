-- ===== src/Backoff/Tests.antt =====
-- The delays of concrete policies.
use react_native_sync_provid.Common.{ℕ, ◌≡◌, refl, arith, true, false, []}
use react_native_sync_provid.Common.Int.{pos}
use react_native_sync_provid.Types.Enums.{BackoffStrategy, exponential}
use react_native_sync_provid.Types.Sync.{RetryPolicy}
use react_native_sync_provid.Types.Number.{nan, finite}
use react_native_sync_provid.Backoff.Exact.{Fraction, round}
use react_native_sync_provid.Backoff.Delay.{compute_next_delay_ms, raw_delay, clamped, overflow}
use react_native_sync_provid.Backoff.Laws.{fib}
use react_native_sync_provid.Backoff.Kotlin.{compute_delay_ms, raw_kotlin, to_long}
use react_native_sync_provid.Backoff.Truncated.{RoundsTo}
use react_native_sync_provid.Backoff.Range.{IsInRange}
use react_native_sync_provid.Backoff.RangeKotlin.{compute_delay_ms-RoundsTo}

-- The policy of the documentation, and one with jitter.
abbrev steady : RetryPolicy
steady = record {
  max_attempts = pos 5;
  backoff = BackoffStrategy.exponential;
  base_delay_ms = pos 1000;
  max_delay_ms = pos 60000;
  jitter = false;
  retry_on_status_codes = [];
}

abbrev jittery : RetryPolicy
jittery = record steady { backoff = BackoffStrategy.fibonacci; jitter = true }

abbrev a_third : Fraction
a_third = record { numerator = 1; denominator = 3 }

documented_test : compute_next_delay_ms a_third (pos 3) steady ≡ finite (pos 4000)
unfolding compute_next_delay_ms raw_delay clamped round overflow
documented_test = refl

jittery-IsInRange : IsInRange (pos 6) jittery
unfolding overflow fib
jittery-IsInRange = record { factor = omega arith; product = omega arith }

compute_delay_ms-RoundsTo_example :
    (delay : ℕ) × (compute_next_delay_ms a_third (pos 6) jittery ≡ finite (pos delay))
    × RoundsTo (compute_delay_ms a_third (pos 6) jittery) delay
compute_delay_ms-RoundsTo_example =
    compute_delay_ms-RoundsTo a_third 6 60000 jittery (omega arith) refl (omega arith) (omega arith)
      (omega arith) (omega arith) jittery-IsInRange

-- A policy that caps nothing.
abbrev no_cap : RetryPolicy
no_cap = record steady { max_delay_ms = pos 0 }

not_flat_test : compute_next_delay_ms a_third (pos 5) no_cap ≡ finite (pos 16000)
unfolding compute_next_delay_ms raw_delay clamped round overflow
not_flat_test = refl

flat_test : compute_delay_ms a_third (pos 5) no_cap ≡ 1000
unfolding compute_delay_ms raw_kotlin to_long overflow
flat_test = refl

-- A base of 0 at an attempt whose power of two no double holds, with a cap.
abbrev no_base : RetryPolicy
no_base = record steady { base_delay_ms = pos 0 }

nan_test : compute_next_delay_ms a_third (pos 1025) no_base ≡ nan
unfolding compute_next_delay_ms raw_delay clamped round overflow
nan_test = refl

zero_test : compute_delay_ms a_third (pos 1025) no_base ≡ 0
unfolding compute_delay_ms raw_kotlin to_long overflow
zero_test = refl
