-- ===== src/Drain/Results.antt =====
-- What `runDrain` promises, whatever the native calls answer: it returns, it gives the lock back,
-- it keeps its bounds, and its result means what it says.
use react_native_sync_provid.Common.{
  ℕ, ◌≤◌, ◌<◌, ◌≡◌, refl, false, [], Option, none, some, max, arith,
}
use react_native_sync_provid.Common.Int.{pos_part}
use react_native_sync_provid.Types.Errors.{Outcome, fulfilled, rejected}
use react_native_sync_provid.Types.Sync.{DrainStoppedReason, DrainOptions, DrainResult}
use react_native_sync_provid.Drain.Frame.{DrainNativeOps, Process, Ended, done, stopped, failed}
use react_native_sync_provid.Drain.Loop.{Bounds, bounds, enter, settled, loop, fuel_of, run_drain}
use react_native_sync_provid.Drain.Bounded.{IsBounded, OnStop, OnError}
use react_native_sync_provid.Drain.Passes.{AfterLoop, loop-Ends}
use react_native_sync_provid.Drain.Ends.{Ends}

-- No drain runs, and none has left a waiter or a timer behind.
pub record IsIdle {S : Type 0} (p : Process S) : Type 0 where
  pub unlocked : p.state.active ≡ false
  pub no_waiter : p.state.cancel_waiters ≡ []
  pub no_timer : p.timers ≡ []

-- What a stop reason says of the counters. `most` is the bound on the iterations.
abbrev pub Explains : ℕ → DrainResult → Type 0
Explains most r = elim r.stopped_reason as (λ reason. Type 0) [
  | DrainStoppedReason.empty ↦ r.queue_remaining ≡ 0
  | DrainStoppedReason.max_iterations ↦ (r.iterations ≡ most) × (0 < r.queue_remaining)
  | _ ↦ Unit
]

abbrev pub MeansWell : ℕ → Option (Outcome DrainResult) → Type 0
MeansWell most none = ⊥
MeansWell most (some (rejected e)) = Unit
MeansWell most (some (fulfilled r)) = (r.iterations ≤ most) × Explains most r

module _ {S : Type 0} (native : DrainNativeOps S) (options : Option DrainOptions)
    (p : Process S) where
  abbrev limits : Bounds
  limits = bounds options p.clock

  pub record IsReleased (q : Process S) : Type 0 where
    pub idle : IsIdle q
    pub reset : q.state.cancelled ≡ false
    pub later : p.clock ≤ q.clock
    pub in_time : q.clock ≤ max p.clock (pos_part limits.deadline_at)

  settled-IsReleased :
      (e : Ended S (Option DrainStoppedReason))
      → Ends (OnStop limits p.clock) (OnError limits p.clock) (AfterLoop limits p.clock native) e
      → IsReleased (settled e).1
  settled-IsReleased (done none f) h = absurd h
  settled-IsReleased (done (some r) f) h = ground arith
  settled-IsReleased (stopped r f) h = ground arith
  settled-IsReleased (failed e f) h = ground arith

  settled-MeansWell :
      (e : Ended S (Option DrainStoppedReason))
      → Ends (OnStop limits p.clock) (OnError limits p.clock) (AfterLoop limits p.clock native) e
      → MeansWell (pos_part limits.max_iterations) (settled e).0
  settled-MeansWell (done none f) h = absurd h
  settled-MeansWell (done (some r) f) h = ground arith
  settled-MeansWell (stopped r f) h = ground arith
  settled-MeansWell (failed e f) h = tt

  enter-IsBounded : IsIdle p → IsBounded limits p.clock (enter p)
  enter-IsBounded h = ground arith

  loop-enter-Ends :
      IsIdle p
      → Ends
          (OnStop limits p.clock)
          (OnError limits p.clock)
          (AfterLoop limits p.clock native)
          (loop native limits (fuel_of limits p.clock) (enter p))
  loop-enter-Ends h =
      loop-Ends limits p.clock native (fuel_of limits p.clock) (enter p) (enter-IsBounded h)
        (omega arith)

  some_of_MeansWell :
      (most : ℕ) (o : Option (Outcome DrainResult))
      → MeansWell most o
      → (x : Outcome DrainResult) × (o ≡ some x)
  some_of_MeansWell most none h = absurd h
  some_of_MeansWell most (some x) h = (x, refl)

  run_drain-MeansWell :
      IsIdle p → MeansWell (pos_part limits.max_iterations) (run_drain native options p).0
  unfolding run_drain
  run_drain-MeansWell h = ground (
    arith,
    settled-MeansWell (loop native limits (fuel_of limits p.clock) (enter p)) (loop-enter-Ends h),
  )

  -- A drain that starts while none is running, nor has left a waiter or a timer, ends, whatever the
  -- native calls answer and however long they take: the fuel that the loop is given is enough.
  pub run_drain-returns :
      IsIdle p → (o : Outcome DrainResult) × ((run_drain native options p).0 ≡ some o)
  run_drain-returns h = some_of_MeansWell _ _ (run_drain-MeansWell h)

  -- However a drain that starts while none is running, nor has left a waiter or a timer, ends: it
  -- gives the lock back, forgets a cancel, leaves no waiter and no timer, and is over by the
  -- deadline (or at once, where the deadline is past).
  pub run_drain-IsReleased : IsIdle p → IsReleased (run_drain native options p).1
  unfolding run_drain
  run_drain-IsReleased h = ground (
    arith,
    settled-IsReleased (loop native limits (fuel_of limits p.clock) (enter p)) (loop-enter-Ends h),
  )

  -- The result of a drain that starts while none is running, nor has left a waiter or a timer,
  -- counts at most `maxIterations` cycles. With `EMPTY` no item is left; with
  -- `MAX_ITERATIONS` all the iterations are used and items are left.
  pub run_drain-Explains :
      (r : DrainResult)
      → IsIdle p
      → (run_drain native options p).0 ≡ some (fulfilled r)
      → (r.iterations ≤ pos_part limits.max_iterations)
        × Explains (pos_part limits.max_iterations) r
  run_drain-Explains r h e = rw e at (run_drain-MeansWell h)
