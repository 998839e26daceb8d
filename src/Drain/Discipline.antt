-- ===== src/Drain/Discipline.antt =====
-- The order of the native calls of a whole drain, and what the counters of its result count.
use react_native_sync_provid.Common.{
  ℕ, suc, ◌≤◌, ◌≡◌, ◌⊎◌, List, [], Option, none, some, All, arith,
}
use react_native_sync_provid.Common.Int.{ℤ}
use react_native_sync_provid.Types.Errors.{Outcome, fulfilled}
use react_native_sync_provid.Types.Sync.{DrainStoppedReason, DrainOptions, DrainResult}
use react_native_sync_provid.Drain.Frame.{DrainNativeOps, Process, Ended, done, stopped, failed}
use react_native_sync_provid.Drain.Loop.{Bounds, bounds, enter, settled, loop, fuel_of, run_drain}
use react_native_sync_provid.Drain.Log.{
  Call, logged, Disciplined, Waiting, Confirmed, flushes, sizes, decreases, newest, IsCalmCall,
  IsTimely, before,
}
use react_native_sync_provid.Drain.Protocol.{OnStop, OnError}
use react_native_sync_provid.Drain.Order.{AfterLoop, loop-Ends}
use react_native_sync_provid.Drain.Ends.{Ends}

-- What the log shows where the loop has returned for a reason of its own.
abbrev pub Justifies : List Call → DrainStoppedReason → Type 0
Justifies log DrainStoppedReason.empty = Confirmed log
Justifies log DrainStoppedReason.max_iterations = Waiting log
Justifies log _ = Unit

-- `items_dispatched` and `queue_remaining` are what the answered sizes of the log say.
abbrev pub Tallies : List ℕ → DrainResult → Type 0
Tallies ns r =
    (r.items_dispatched ≡ decreases ns)
    × (r.queue_remaining ≡ (elim (newest ns) [ none ↦ 0 | some n ↦ n ]))

-- All calls were made before the deadline; and of all but the newest, the native ones were answered by
-- then, and none was cancelled.
pub record IsOrderly (deadline : ℤ) (log : List Call) : Type 0 where
  pub disciplined : Disciplined log
  pub timely : All (IsTimely deadline) log
  pub calm : All (IsCalmCall deadline) (before log)

pub record Counts (log : List Call) (r : DrainResult) : Type 0 where
  pub started : flushes log ≤ r.iterations
  pub counted : r.iterations ≤ suc (flushes log)
  pub tallied : Tallies (sizes log) r ⊎ Tallies (sizes (before log)) r

abbrev CountsIf : List Call → Option (Outcome DrainResult) → Type 0
CountsIf log (some (fulfilled r)) = Counts log r × Justifies log r.stopped_reason
CountsIf log _ = Unit

module _ {S : Type 0} (native : DrainNativeOps S) (options : Option DrainOptions)
    (p : Process (S × List Call)) where
  abbrev limits : Bounds
  limits = bounds options p.clock

  abbrev LoopEnds : Ended (S × List Call) (Option DrainStoppedReason) → Type 0
  LoopEnds e = Ends (OnStop limits) (OnError limits) (AfterLoop native limits) e

  settled-IsOrderly :
      (e : Ended (S × List Call) (Option DrainStoppedReason))
      → LoopEnds e
      → IsOrderly limits.deadline_at (settled e).1.env.1
  settled-IsOrderly (done none f) h = ground arith
  settled-IsOrderly (done (some DrainStoppedReason.empty) f) h = ground arith
  settled-IsOrderly (done (some DrainStoppedReason.max_iterations) f) h = ground arith
  settled-IsOrderly (done (some _) f) h = absurd h
  settled-IsOrderly (stopped r f) h = ground arith
  settled-IsOrderly (failed e f) h = ground arith

  settled-CountsIf :
      (e : Ended (S × List Call) (Option DrainStoppedReason))
      → LoopEnds e
      → CountsIf (settled e).1.env.1 (settled e).0
  settled-CountsIf (done none f) h = tt
  settled-CountsIf (done (some DrainStoppedReason.empty) f) h = ground arith
  settled-CountsIf (done (some DrainStoppedReason.max_iterations) f) h = ground arith
  settled-CountsIf (done (some _) f) h = absurd h
  settled-CountsIf (stopped DrainStoppedReason.timeout f) h = ground arith
  settled-CountsIf (stopped DrainStoppedReason.cancelled f) h = ground arith
  settled-CountsIf (stopped _ f) h = absurd h.1
  settled-CountsIf (failed e f) h = tt

  loop-enter-Ends :
      p.env.1 ≡ [] → LoopEnds (loop (logged native) limits (fuel_of limits p.clock) (enter p))
  loop-enter-Ends e = loop-Ends native limits (fuel_of limits p.clock) (enter p) (ground arith)

  run_drain-CountsIf :
      p.env.1 ≡ []
      → CountsIf
          (run_drain (logged native) options p).1.env.1
          (run_drain (logged native) options p).0
  unfolding run_drain
  run_drain-CountsIf e = ground (
    arith,
    settled-CountsIf (loop (logged native) limits (fuel_of limits p.clock) (enter p))
        (loop-enter-Ends e),
  )

  -- In the calls of a drain, logged from an empty log on, newest first, every `flush` comes directly
  -- after an answer that the device is not offline, that after an answer that the queue is not empty
  -- (or a read of its items in between), and that after an answer that no cycle runs. Every call is
  -- made before the deadline; and before the newest, every native call is answered by the deadline and
  -- no call or sleep meets a cancel, so that no call follows a cancel or a rejection.
  pub run_drain-IsOrderly :
      p.env.1 ≡ []
      → IsOrderly (bounds options p.clock).deadline_at (run_drain (logged native) options p).1.env.1
  unfolding run_drain
  run_drain-IsOrderly e = ground (
    arith,
    settled-IsOrderly (loop (logged native) limits (fuel_of limits p.clock) (enter p))
        (loop-enter-Ends e),
  )

  -- In a log that is empty at the start, `EMPTY` is reported only after an answer that no cycle runs, an answer that the queue is empty,
  -- and again an answer that no cycle runs; `MAX_ITERATIONS` only after an answer that the queue is
  -- not empty.
  pub run_drain-Justifies :
      (r : DrainResult)
      → p.env.1 ≡ []
      → (run_drain (logged native) options p).0 ≡ some (fulfilled r)
      → Justifies (run_drain (logged native) options p).1.env.1 r.stopped_reason
  run_drain-Justifies r e h = (rw h at (run_drain-CountsIf e)).1

  -- The counters of the result, against a log that is empty at the start: `iterations` is the number of `flush` calls, or one more;
  -- `itemsDispatched` is the sum of the decreases between the sizes that were answered, and
  -- `queueRemaining` the last of these sizes (0 if there is none), where the answer to the newest
  -- call may have come too late to count.
  pub run_drain-Counts :
      (r : DrainResult)
      → p.env.1 ≡ []
      → (run_drain (logged native) options p).0 ≡ some (fulfilled r)
      → Counts (run_drain (logged native) options p).1.env.1 r
  run_drain-Counts r e h = (rw h at (run_drain-CountsIf e)).0
