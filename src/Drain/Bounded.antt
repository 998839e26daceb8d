-- ===== src/Drain/Bounded.antt =====
-- What holds of a drain between two steps, and that every wait keeps it.
use react_native_sync_provid.Common.{ℕ, ◌≤◌, ◌<◌, ◌≡◌, true, [], max, arith}
use react_native_sync_provid.Common.Int.{pos, pos_part, -ℤ_parts}
use react_native_sync_provid.Types.Errors.{Thrown}
use react_native_sync_provid.Types.Sync.{DrainStoppedReason}
use react_native_sync_provid.Drain.Frame.{
  Reply, DrainNativeOps, Frame, remove, has, cancel_active_drain,
}
use react_native_sync_provid.Drain.Race.{race_with_stop, sleep_with_stop}
use react_native_sync_provid.Drain.Loop.{Bounds, guarded}
use react_native_sync_provid.Drain.Ends.{Ends}

module _ {S : Type 0} (b : Bounds) (start : ℕ) where
  -- The lock is held, no waiter and no timer is left over, the iterations are within their bound,
  -- and the clock has not run past the deadline.
  pub record IsBounded (f : Frame S) : Type 0 where
    pub locked : f.state.active ≡ true
    pub no_waiter : f.state.cancel_waiters ≡ []
    pub no_timer : f.timers ≡ []
    pub capped : f.iterations ≤ pos_part b.max_iterations
    pub begun : start ≤ f.clock
    pub in_time : f.clock ≤ max start (pos_part b.deadline_at)

  -- The `let` variables of `runDrain` are as they were, and time has not gone back.
  pub record Waited (f f' : Frame S) : Type 0 where
    pub iterations : f'.iterations ≡ f.iterations
    pub items_dispatched : f'.items_dispatched ≡ f.items_dispatched
    pub last_size : f'.last_size ≡ f.last_size
    pub cycle_just_ran : f'.cycle_just_ran ≡ f.cycle_just_ran
    pub later : f.clock ≤ f'.clock

  abbrev pub StopFits : DrainStoppedReason → Frame S → Type 0
  StopFits DrainStoppedReason.cancelled f = f.state.cancelled ≡ true
  StopFits DrainStoppedReason.timeout f = Unit
  StopFits _ f = ⊥

  abbrev pub OnStop : DrainStoppedReason → Frame S → Type 0
  OnStop r f = IsBounded f × StopFits r f

  abbrev pub OnError : Thrown → Frame S → Type 0
  OnError e f = IsBounded f

  abbrev pub AfterWait : {A : Type 0} → Frame S → A → Frame S → Type 0
  AfterWait f a f' = IsBounded f' × Waited f f'

  pub guarded-Ends :
      {A : Type 0} (op : ℕ → S → Reply A × S) (f : Frame S)
      → IsBounded f
      → Ends OnStop OnError (AfterWait f) (guarded b op f)
  unfolding guarded race_with_stop cancel_active_drain remove has
  guarded-Ends op f h = ground (arith, -ℤ_parts b.deadline_at (pos f.clock))

  abbrev pub AfterSleep : {A : Type 0} → Frame S → A → Frame S → Type 0
  AfterSleep f a f' =
      IsBounded f' × Waited f f' × (f.clock < f'.clock) × (f'.clock ≤ pos_part b.deadline_at)

  pub sleep-Ends :
      (native : DrainNativeOps S) (ms : ℕ) (f : Frame S)
      → 0 < ms
      → IsBounded f
      → Ends OnStop OnError (AfterSleep f) (sleep_with_stop native.sleep ms b.deadline_at f)
  unfolding sleep_with_stop cancel_active_drain remove has
  sleep-Ends native ms f p h = ground (arith, -ℤ_parts b.deadline_at (pos f.clock))
