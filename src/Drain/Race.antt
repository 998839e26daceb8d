-- ===== src/Drain/Race.antt =====
-- src/utils/drainController.ts: `raceWithStop` and `sleepWithStop`, the two waits of the loop.
use react_native_sync_provid.Common.{
  ℕ, suc, ◌+◌, Bool, true, false, ◌∷◌, Option, none, some, leb, if◌then◌else◌, min,
}
use react_native_sync_provid.Common.Int.{ℤ, pos, pos_part, ◌-ℤ◌, leb_ℤ}
use react_native_sync_provid.Types.Sync.{DrainStoppedReason}
use react_native_sync_provid.Drain.Frame.{
  Reply, resolves, rejects, never, cancel_called, Frame, Ended, done, stopped, failed, M, remove,
  has, cancel_active_drain,
}

-- MAX_TIMER_DELAY_MS, the longest delay that `setTimeout` honors.
abbrev pub max_timer_delay_ms : ℕ
max_timer_delay_ms = 2_147_483_647

module _ {S : Type 0} where
  -- `stopWaiting`: clear the deadline timer and drop the waiter. Both go by one number.
  unfoldable pub stop_waiting : ℕ → Frame S → Frame S
  unfolding remove
  stop_waiting id f = record f {
    state = record f.state { cancel_waiters = remove id f.state.cancel_waiters };
    timers = remove id f.timers;
  }

  -- `cancelDrain()` is called after the wait and before the loop goes on.
  unfoldable pub cancel_between : Bool → Frame S → Frame S
  unfolding cancel_active_drain
  cancel_between false f = f
  cancel_between true f = record f { state = (cancel_active_drain f.state).0 }

module _ {S A : Type 0} where
  -- The deadline timer fires: `ms` have gone by since it was set.
  unfoldable pub on_deadline : ℕ → ℕ → Frame S → Ended S A
  unfolding stop_waiting
  on_deadline ms id f =
      stopped DrainStoppedReason.timeout (stop_waiting id (record f { clock = f.clock + ms }))

  -- `cancelDrain()` is called while the wait stands, and wakes it.
  unfoldable pub on_cancel : ℕ → ℕ → ℕ → Frame S → Ended S A
  unfolding stop_waiting cancel_active_drain has on_deadline
  on_cancel after ms id f =
      let (state', woken) = cancel_active_drain f.state in
      let f' = record f { state = state'; clock = f.clock + after } in
      if has id woken
      then stopped DrainStoppedReason.cancelled (stop_waiting id f')
      else on_deadline ms id f

  -- Which of the settling promise, the deadline timer (set to `ms`) and the cancel comes first.
  unfoldable pub settle : ℕ → ℕ → Reply A → Frame S → Ended S A
  unfolding stop_waiting on_deadline on_cancel cancel_between
  settle ms id (resolves after a cancel) f =
      if leb after ms
      then done a (cancel_between cancel (stop_waiting id (record f { clock = f.clock + after })))
      else on_deadline ms id f
  settle ms id (rejects after e) f =
      if leb after ms
      then failed e (stop_waiting id (record f { clock = f.clock + after }))
      else on_deadline ms id f
  settle ms id never f = on_deadline ms id f
  settle ms id (cancel_called after) f =
      if leb after ms then on_cancel after ms id f else on_deadline ms id f

  -- The executor of the promise: the two early rejections, then the timer, the waiter and `work()`.
  unfoldable pub race_with_stop : (Frame S → Reply A × Frame S) → ℤ → M S A
  unfolding settle
  race_with_stop work deadline_at f =
      let remaining_ms = deadline_at -ℤ pos f.clock in
      if f.state.cancelled
      then stopped DrainStoppedReason.cancelled f
      else if leb_ℤ remaining_ms (pos 0)
      then stopped DrainStoppedReason.timeout f
      else let id = f.next_id in
        let waiting = record f {
          state = record f.state { cancel_waiters = id ∷ f.state.cancel_waiters };
          next_id = suc id;
          timers = id ∷ f.timers;
        } in
        let (reply, f') = work waiting in
        settle (min (pos_part remaining_ms) max_timer_delay_ms) id reply f'

-- The work of a sleep: set the sleep timer, which fires after `ms` unless a cancel comes first.
unfoldable pub set_sleep_timer :
    {S : Type 0} → (ℕ → S → Option ℕ × S) → ℕ → Frame S → Reply (Unit {0}) × Frame S
set_sleep_timer sleep ms f =
    let (disturbed, env') = sleep f.clock f.env in
    let id = f.next_id in
    let f' = record f {
      env = env';
      next_id = suc id;
      timers = id ∷ f.timers;
      sleep_timer = some id;
    } in
    (
      elim disturbed [
        | none ↦ resolves (min ms max_timer_delay_ms) tt false
        | some after ↦ cancel_called after
      ],
      f',
    )

-- `clearTimeout(sleepTimer)`, where an unset variable clears nothing.
unfoldable pub clear_sleep_timer : {S : Type 0} → Frame S → Frame S
unfolding remove
clear_sleep_timer f = elim f.sleep_timer [
  | none ↦ f
  | some id ↦ record f { timers = remove id f.timers }
]

abbrev pub finally : {S A : Type 0} → (Frame S → Frame S) → Ended S A → Ended S A
finally last (done a f) = done a (last f)
finally last (stopped r f) = stopped r (last f)
finally last (failed e f) = failed e (last f)

unfoldable pub sleep_with_stop : {S : Type 0} → (ℕ → S → Option ℕ × S) → ℕ → ℤ → M S (Unit {0})
unfolding race_with_stop set_sleep_timer clear_sleep_timer
sleep_with_stop sleep ms deadline_at f =
    finally clear_sleep_timer
      (race_with_stop (set_sleep_timer sleep ms) deadline_at (record f { sleep_timer = none }))
