-- ===== src/Android/Wake.antt =====
-- android/.../retry/RetryWake.kt: when the queue is woken next.
use react_native_sync_provid.Common.{
  ℕ, ◌+◌, ◌-◌, ◌≤◌, ◌<◌, max, ◌≡◌, ◌⊎◌, Bool, true, ◌&&◌, Option, none, some, length, ltb, leb,
  if◌then◌else◌, All,
}
use react_native_sync_provid.Android.Rows.{
  SyncItemEntity, is_pending, Table, select, claimable, next_retry_deadline, next_pending_deadline,
}

-- What is asked of the timer, and the delay of the WorkManager kick, if one is scheduled.
pub data TimerCall : Type 0 where
  keeps cancels : TimerCall
  arms : (delay_ms : ℕ) → TimerCall

pub record Wake : Type 0 where
  pub timer : TimerCall
  pub kick : Option ℕ

module _ (halted live : Bool) (clock : ℕ) where
  -- `delayUntil`: the difference, at least 0.
  abbrev pub delay_until : ℕ → ℕ
  delay_until deadline = deadline - clock

  abbrev pub no_wake : Wake
  no_wake = record { timer = cancels; kick = none }

  -- `arm`, with `notBefore`.
  unfoldable pub arm : Option ℕ → Table → Wake
  arm not_before items = if halted then no_wake else elim (next_retry_deadline items) [
    | none ↦ no_wake
    | some deadline ↦
        let delay_ms = delay_until (max deadline (elim not_before [ none ↦ 0 | some at ↦ at ])) in
        record { timer = if live then arms delay_ms else keeps; kick = some delay_ms }
  ]

  -- `armForResume`.
  unfoldable pub arm_for_resume : Table → Wake
  arm_for_resume items = if halted then no_wake else elim (next_pending_deadline items) [
    | none ↦ no_wake
    | some pending_deadline ↦ record {
      timer = arms (delay_until pending_deadline);
      kick = elim (next_retry_deadline items) [
        | none ↦ none
        | some deadline ↦ some (delay_until deadline)
      ];
    }
  ]

-- The rows that a wake is for: pending, and attempted before.
abbrev pub is_cooling : SyncItemEntity → Bool
is_cooling r = is_pending r.status && ltb 0 r.next_retry_at

-- What a wake after `delay_ms` finds: a row that may be claimed, and, where the wake is put off, none
-- that could have been claimed earlier, unless `not_before` put it off.
pub record IsTimely (clock : ℕ) (not_before : Option ℕ) (items : Table) (delay_ms : ℕ)
    : Type 0 where
  pub finds : 1 ≤ length (select (claimable (clock + delay_ms)) items)
  pub soonest :
      not_before ≡ none
      → 0 < delay_ms
      → All (λ r. is_cooling r ≡ true → clock + delay_ms ≤ r.next_retry_at) items

-- A kick that is scheduled is timely; none is where wakes are halted or no row cools down.
abbrev pub IsKick : Bool → ℕ → Option ℕ → Table → Option ℕ → Type 0
IsKick halted clock not_before items none = (halted ≡ true) ⊎ (length (select is_cooling items) ≡ 0)
IsKick halted clock not_before items (some delay_ms) = IsTimely clock not_before items delay_ms

-- The minimum is at most every entry, and is one of them.
abbrev Least : Table → Option ℕ → Type 0
Least rows none = length rows ≡ 0
Least rows (some least) =
    All (λ r. least ≤ r.next_retry_at) rows
    × (1 ≤ length (select (λ r. leb r.next_retry_at least) rows))
