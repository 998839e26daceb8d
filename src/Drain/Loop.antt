-- ===== src/Drain/Loop.antt =====
-- src/utils/drainController.ts: `runDrain` and what it is made of.
use react_native_sync_provid.Common.{
  ℕ, zero, suc, ◌+◌, ◌-◌, Bool, true, false, ◌&&◌, List, [], ◌∷◌, Option, none, some, ltb, ◌==◌,
  if◌then◌else◌,
}
use react_native_sync_provid.Common.Int.{ℤ, pos, pos_part, ◌+ℤ◌, leb_ℤ, ltb_ℤ, max_ℤ}
use react_native_sync_provid.Types.Number.{Number, finite}
use react_native_sync_provid.Types.Enums.{ConnectionStatus}
use react_native_sync_provid.Types.Errors.{
  Thrown, drain_already_active, new_sync_error, no_cause, Outcome, fulfilled, rejected,
}
use react_native_sync_provid.Types.Sync.{
  SyncItem, ConnectionState, DrainStoppedReason, DrainOptions, DrainResult,
}
use react_native_sync_provid.Drain.Frame.{
  Reply, DrainNativeOps, Process, Frame, Ended, done, stopped, failed, M, ◌>>=◌, ◌>>◌, pure,
}
use react_native_sync_provid.Drain.Race.{race_with_stop, sleep_with_stop}

abbrev pub drain_default_max_iterations : ℕ
drain_default_max_iterations = 32

abbrev pub drain_default_timeout_ms : ℕ
drain_default_timeout_ms = 60_000

abbrev pub drain_idle_wait_ms : ℕ
drain_idle_wait_ms = 250

-- `Number.isFinite(value) ? value : fallback`, where an absent value is not finite.
unfoldable pub finite_or : Option Number → ℤ → ℤ
finite_or (some (finite n)) fallback = n
finite_or _ fallback = fallback

-- The loop of `soonestCooldownEnd`, with `soonest` as its accumulator.
unfoldable pub soonest_from : Option ℕ → List SyncItem → ℕ → Option ℕ
soonest_from soonest [] now = soonest
soonest_from soonest (item ∷ items) now =
    soonest_from
      (if ltb now item.next_retry_at
          && (elim soonest [ none ↦ true | some t ↦ ltb item.next_retry_at t ])
        then some item.next_retry_at
        else soonest)
      items now

unfoldable pub soonest_cooldown_end : List SyncItem → ℕ → Option ℕ
unfolding soonest_from
soonest_cooldown_end items now = soonest_from none items now

-- What `runDrain` computes from its options before the loop.
pub record Bounds : Type 0 where
  pub max_iterations : ℤ
  pub deadline_at : ℤ
  pub delay_between_cycles_ms : ℤ

abbrev pub option_of : {A : Type 0} → Option DrainOptions → (DrainOptions → Option A) → Option A
option_of none field = none
option_of (some options) field = field options

unfoldable pub bounds : Option DrainOptions → ℕ → Bounds
unfolding finite_or
bounds options now = record {
  max_iterations =
      finite_or (option_of options (λ o. o.max_iterations)) (pos drain_default_max_iterations);
  deadline_at =
      pos now +ℤ finite_or (option_of options (λ o. o.timeout_ms)) (pos drain_default_timeout_ms);
  delay_between_cycles_ms = finite_or (option_of options (λ o. o.delay_between_cycles_ms)) (pos 0);
}

abbrev pub idle_wait_ms : Bounds → ℤ
idle_wait_ms b = max_ℤ b.delay_between_cycles_ms (pos drain_idle_wait_ms)

-- How one pass of the loop ends: `continue` (or the end of the body), or `return result(reason)`.
pub data Verdict : Type 0 where
  again : Verdict
  finish : DrainStoppedReason → Verdict

-- `lastSize === undefined ? 0 : lastSize - size`.
unfoldable pub removed_since : Option ℕ → ℕ → ℕ
removed_since none size = 0
removed_since (some last) size = last - size

-- `if (removed > 0) itemsDispatched += removed; lastSize = size`. The difference is truncated at 0:
-- the code asks only whether it is positive.
unfoldable pub count_removed : {S : Type 0} → ℕ → Frame S → Frame S
unfolding removed_since
count_removed size f = record f {
  items_dispatched = f.items_dispatched + removed_since f.last_size size;
  last_size = some size;
}

-- `guarded(native.op)`.
unfoldable pub guarded : {S A : Type 0} → Bounds → (ℕ → S → Reply A × S) → M S A
guarded b op =
    race_with_stop (λ f. let (reply, env') = op f.clock f.env in (reply, record f { env = env' }))
      b.deadline_at

module _ {S : Type 0} (native : DrainNativeOps S) (b : Bounds) where
  -- `wait(ms)`, always followed by `continue`.
  unfoldable pub wait : ℤ → M S Verdict
  wait ms = do sleep_with_stop native.sleep (pos_part ms) b.deadline_at; pure again

  -- `waitAfterNoProgress()`, from the answer of `getPendingItems` on.
  unfoldable pub cooldown_wait : List SyncItem → M S ℤ
  cooldown_wait pending f = elim (soonest_cooldown_end pending f.clock) [
    | none ↦ done (idle_wait_ms b) f
    | some cooldown_end ↦
        if leb_ℤ b.deadline_at (pos cooldown_end)
        then stopped DrainStoppedReason.timeout f
        else done (max_ℤ b.delay_between_cycles_ms (pos (cooldown_end - f.clock))) f
  ]

  unfoldable pub wait_after_no_progress : M S ℤ
  wait_after_no_progress = do pending ← guarded b native.get_pending_items; cooldown_wait pending

  -- The end of the body: one cycle is counted, and started.
  unfoldable pub start_cycle : M S Verdict
  start_cycle f =
      (do guarded b native.flush; pure again)
        (record f { iterations = f.iterations + 1; cycle_just_ran = true })

  -- Flushing offline would burn the retry budget.
  unfoldable pub when_online : ConnectionState → M S Verdict
  when_online connection = elim connection.status [
    | ConnectionStatus.disconnected ↦ wait (idle_wait_ms b)
    | _ ↦ start_cycle
  ]

  unfoldable pub check_connection : M S Verdict
  check_connection = do connection ← guarded b native.get_connection_status; when_online connection

  unfoldable pub pause : ℤ → M S Verdict
  pause wait_ms = if ltb_ℤ (pos 0) wait_ms then wait wait_ms else check_connection

  -- The pause after a cycle: `removed > 0` decides how long it is.
  unfoldable pub after_cycle : Bool → M S Verdict
  after_cycle progress = do
    wait_ms ← if progress then pure b.delay_between_cycles_ms else wait_after_no_progress
    pause wait_ms

  -- The queue is not empty.
  unfoldable pub dispatch : Bool → M S Verdict
  dispatch progress f =
      if leb_ℤ b.max_iterations (pos f.iterations)
      then done (finish DrainStoppedReason.max_iterations) f
      else if f.cycle_just_ran
      then after_cycle progress (record f { cycle_just_ran = false })
      else check_connection f

  -- `size === 0`: a cycle that started in between has claimed items the count no longer shows.
  unfoldable pub empty_unless : Bool → M S Verdict
  empty_unless syncing =
      if syncing then wait (pos drain_idle_wait_ms) else pure (finish DrainStoppedReason.empty)

  unfoldable pub confirm_empty : M S Verdict
  confirm_empty = do syncing ← guarded b native.is_syncing; empty_unless syncing

  -- From the size of the queue on.
  unfoldable pub measured : ℕ → M S Verdict
  measured size f =
      let progress = ltb 0 (removed_since f.last_size size) in
      if size == 0
      then confirm_empty (count_removed size f)
      else dispatch progress (count_removed size f)

  unfoldable pub measure_unless : Bool → M S Verdict
  measure_unless syncing =
      if syncing
      then wait (pos drain_idle_wait_ms)
      else (do size ← guarded b native.get_queue_size; measured size)

  -- One pass of the body.
  unfoldable pub pass : M S Verdict
  pass = do syncing ← guarded b native.is_syncing; measure_unless syncing

  -- What the loop does with a verdict; `next` is the rest of the loop.
  unfoldable pub proceed :
      M S (Option DrainStoppedReason) → Verdict → M S (Option DrainStoppedReason)
  proceed next again = next
  proceed next (finish reason) = pure (some reason)

  -- `for (;;)` on fuel; `none` means that the fuel ran out.
  unfoldable pub loop : ℕ → M S (Option DrainStoppedReason)
  loop zero = pure none
  loop (suc fuel) = do verdict ← pass; proceed (loop fuel) verdict

-- Entering and leaving the call: its local variables come and go, the rest stays.
abbrev pub enter : {S : Type 0} → Process S → Frame S
enter p = record {
  state = record p.state { active = true; cancelled = false };
  clock = p.clock;
  next_id = p.next_id;
  timers = p.timers;
  env = p.env;
  sleep_timer = none;
  iterations = 0;
  items_dispatched = 0;
  last_size = none;
  cycle_just_ran = false;
}

-- The `finally` block.
abbrev pub leave : {S : Type 0} → Frame S → Process S
leave f = record {
  state = record f.state { active = false; cancelled = false };
  clock = f.clock;
  next_id = f.next_id;
  timers = f.timers;
  env = f.env;
}

-- `result(reason)`.
abbrev pub result : {S : Type 0} → DrainStoppedReason → Frame S → DrainResult
result reason f = record {
  iterations = f.iterations;
  items_dispatched = f.items_dispatched;
  queue_remaining = elim f.last_size [ none ↦ 0 | some size ↦ size ];
  stopped_reason = reason;
}

-- The `catch` block: a `DrainStop` becomes a result, any other exception is thrown again.
abbrev pub settled :
    {S : Type 0} → Ended S (Option DrainStoppedReason) → Option (Outcome DrainResult) × Process S
settled (done none f) = (none, leave f)
settled (done (some reason) f) = (some (fulfilled (result reason f)), leave f)
settled (stopped reason f) = (some (fulfilled (result reason f)), leave f)
settled (failed e f) = (some (rejected e), leave f)

-- A pass that does not end the loop waits for 1 ms at least, or flushes.
abbrev pub fuel_of : Bounds → ℕ → ℕ
fuel_of b now = suc (pos_part b.max_iterations + (pos_part b.deadline_at - now))

abbrev pub already_running : Thrown
already_running =
    new_sync_error drain_already_active
      "A drainUntilEmpty() loop is already running. Await it before starting another. After cancelDrain() it still has to settle first."
      no_cause none

-- `runDrain(native, options)`: how the promise settles, `none` if the fuel ran out.
unfoldable pub run_drain :
    {S : Type 0}
    → DrainNativeOps S
    → Option DrainOptions
    → Process S
    → Option (Outcome DrainResult) × Process S
unfolding bounds
run_drain native options p =
    let b = bounds options p.clock in
    if p.state.active
    then (some (rejected already_running), p)
    else settled (loop native b (fuel_of b p.clock) (enter p))
