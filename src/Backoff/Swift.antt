-- ===== src/Backoff/Swift.antt =====
-- ios/Retry/RetryPolicyEvaluator.swift: the delay that the iOS engine waits for, over exact numbers. An
-- infinite product, and one that is not a number and is set to 0, come to the same under the cap.
use react_native_sync_provid.Common.{ℕ, zero, suc, ◌+◌, ◌-◌, ◌*◌, ◌^◌, leb, if◌then◌else◌}
use react_native_sync_provid.Common.Int.{ℤ, pos, pos_part, max_ℤ, ltb_ℤ}
use react_native_sync_provid.Types.Enums.{BackoffStrategy, linear, exponential, fibonacci}
use react_native_sync_provid.Types.Sync.{RetryPolicy}
use react_native_sync_provid.Backoff.Exact.{Fraction, whole, min_fraction, round, exact_jittered}

-- `maxRepresentableDelayMs`.
abbrev pub max_representable_delay_ms : ℕ
max_representable_delay_ms = 9007199254740991

-- The turns of the `for` loop.
unfoldable pub turn : ℕ → ℕ → ℕ → ℕ
turn zero prev curr = curr
turn (suc turns) prev curr = let next = prev + curr in turn turns curr next

unfoldable pub fibonacci_double : ℕ → ℕ
unfolding turn
fibonacci_double n = if leb n 0 then 0 else if leb n 2 then 1 else turn (n - 2) 1 1

-- The `switch` on the strategy.
unfoldable pub raw_double : BackoffStrategy → ℕ → ℕ → ℕ
unfolding fibonacci_double
raw_double linear base safe_attempt = base * safe_attempt
raw_double exponential base safe_attempt = base * 2 ^ (safe_attempt - 1)
raw_double fibonacci base safe_attempt = base * fibonacci_double safe_attempt

-- `nextDelayMs`.
unfoldable pub next_delay_ms : Fraction → ℤ → RetryPolicy → ℕ
unfolding raw_double exact_jittered round
next_delay_ms random attempt policy =
    let safe_attempt = pos_part (max_ℤ (pos 1) attempt) in
    let base = pos_part (max_ℤ (pos 0) policy.base_delay_ms) in
    let raw = raw_double policy.backoff base safe_attempt in
    let spread = if policy.jitter then exact_jittered random raw else whole raw in
    let cap =
      if ltb_ℤ (pos 0) policy.max_delay_ms then whole (pos_part policy.max_delay_ms) else spread in
    round (min_fraction (min_fraction spread cap) (whole max_representable_delay_ms))
