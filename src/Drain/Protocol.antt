-- ===== src/Drain/Protocol.antt =====
-- In which order the loop calls native, and what its counters count.
use react_native_sync_provid.Common.{
  ℕ, suc, ◌+◌, ◌≤◌, ◌≡◌, ◌⊎◌, Bool, true, false, List, ◌∷◌, Option, none, All, arith,
}
use react_native_sync_provid.Common.Int.{ℤ, pos, ◌≤ℤ◌, ◌<ℤ◌, -ℤ_parts}
use react_native_sync_provid.Types.Errors.{Thrown}
use react_native_sync_provid.Types.Sync.{SyncItem, SyncResult, ConnectionState, DrainStoppedReason}
use react_native_sync_provid.Drain.Frame.{Reply, resolves, Frame, Ended, cancel_active_drain}
use react_native_sync_provid.Drain.Race.{race_with_stop, sleep_with_stop}
use react_native_sync_provid.Drain.Loop.{Bounds, guarded, count_removed}
use react_native_sync_provid.Drain.Log.{
  Call, slept, note, made_at, IsTimely, Disciplined, Online, flushes, sizes, decreases, newest,
  IsCalmCall, before, flushed, asked_syncing, asked_size, asked_items, asked_connection, Answered,
}
use react_native_sync_provid.Drain.Ends.{Ends}

-- The answer `a` is what the reply to a call of that time says, it comes by the deadline, and a cancel
-- after it is noticed.
abbrev pub Gives : {A : Type 0} → ℤ → ℕ → Reply A → A → Bool → Type 0
Gives deadline time (resolves after a' cancel) a cancelled =
    (a ≡ a') × (pos (time + after) ≤ℤ deadline) × ((cancel ≡ false) ⊎ (cancelled ≡ true))
Gives deadline time _ a cancelled = ⊥

-- The two reasons that a `DrainStop` carries.
abbrev pub Interrupts : DrainStoppedReason → Type 0
Interrupts DrainStoppedReason.timeout = Unit
Interrupts DrainStoppedReason.cancelled = Unit
Interrupts _ = ⊥

module _ {S : Type 0} where
  abbrev pub log_of : Frame (S × List Call) → List Call
  log_of f = f.env.1

  abbrev pub IsAccounted : List Call → Frame (S × List Call) → Type 0
  IsAccounted log f =
      (f.items_dispatched ≡ decreases (sizes log)) × (f.last_size ≡ newest (sizes log))

  abbrev pub IsCounted : Frame (S × List Call) → List Call → Type 0
  IsCounted f log = (flushes log ≤ f.iterations) × (f.iterations ≤ suc (flushes log))

  -- The call was made and answered by `a`.
  abbrev pub Asked :
      {A : Type 0}
      → (ℕ → Reply A → Call)
      → Frame (S × List Call)
      → A
      → Frame (S × List Call)
      → Type 0
  Asked {A} call f a f' =
      (time : ℕ) × (r : Reply A) × (log_of f' ≡ call time r ∷ log_of f) × Answered (λ x. x ≡ a) r

module _ {S : Type 0} (b : Bounds) where
  -- Between two calls the counters agree with the log, every call was made before the deadline, and
  -- unless a cancel has come, all were answered in time and none was cancelled.
  pub record IsKept (f : Frame (S × List Call)) : Type 0 where
    pub locked : f.state.active ≡ true
    pub disciplined : Disciplined (log_of f)
    pub dispatched : f.items_dispatched ≡ decreases (sizes (log_of f))
    pub remaining : f.last_size ≡ newest (sizes (log_of f))
    pub calm : (f.state.cancelled ≡ true) ⊎ All (IsCalmCall b.deadline_at) (log_of f)
    pub calm_before : All (IsCalmCall b.deadline_at) (before (log_of f))
    pub timely : All (IsTimely b.deadline_at) (log_of f)

  -- Where the loop is stopped, the newest call may be one that it saw no answer to, and the last
  -- cycle that it counted may not have been started.
  pub record IsStopped (f : Frame (S × List Call)) : Type 0 where
    pub disciplined : Disciplined (log_of f)
    pub counted : IsCounted f (log_of f)
    pub accounted : IsAccounted (log_of f) f ⊎ IsAccounted (before (log_of f)) f
    pub calm_before : All (IsCalmCall b.deadline_at) (before (log_of f))
    pub timely : All (IsTimely b.deadline_at) (log_of f)

  abbrev pub OnStop : DrainStoppedReason → Frame (S × List Call) → Type 0
  OnStop r f = IsStopped f × Interrupts r

  abbrev pub OnError : Thrown → Frame (S × List Call) → Type 0
  OnError e f = IsStopped f

  abbrev pub Meets :
      {A : Type 0} → (A → Frame (S × List Call) → Type 0) → Ended (S × List Call) A → Type 0
  Meets D e = Ends OnStop OnError D e

  -- The locals are as they were, and the log has one call more, made while nothing was cancelled.
  pub record Called (f f' : Frame (S × List Call)) (call : Call) : Type 0 where
    pub locked : f'.state.active ≡ true
    pub iterations : f'.iterations ≡ f.iterations
    pub items_dispatched : f'.items_dispatched ≡ f.items_dispatched
    pub last_size : f'.last_size ≡ f.last_size
    pub log : log_of f' ≡ call ∷ log_of f
    pub calm : All (IsCalmCall b.deadline_at) (log_of f)
    pub timely : pos (made_at call) <ℤ b.deadline_at

  pub guarded-Called :
      {A : Type 0} (call : ℕ → Reply A → Call) (op : ℕ → S → Reply A × S)
      (f : Frame (S × List Call))
      → made_at (call f.clock (op f.clock f.env.0).0) ≡ f.clock
      → IsKept f
      → Disciplined (call f.clock (op f.clock f.env.0).0 ∷ log_of f)
      → IsCounted f (log_of f)
      → IsCounted f (call f.clock (op f.clock f.env.0).0 ∷ log_of f)
      → Meets
          (λ a f'.
            Called f f' (call f.clock (op f.clock f.env.0).0)
            × Gives b.deadline_at f.clock (op f.clock f.env.0).0 a f'.state.cancelled)
          (guarded b (note call op) f)
  unfolding guarded race_with_stop cancel_active_drain
  guarded-Called call op f t h d c c' = ground (arith, -ℤ_parts b.deadline_at (pos f.clock))

  pub sleep-Called :
      (op : ℕ → S → Option ℕ × S) (ms : ℕ) (f : Frame (S × List Call))
      → IsKept f
      → IsCounted f (log_of f)
      → Meets
          (λ a f'.
            Called f f' (slept f.clock (op f.clock f.env.0).0) × ((op f.clock f.env.0).0 ≡ none))
          (sleep_with_stop (note slept op) ms b.deadline_at f)
  unfolding sleep_with_stop cancel_active_drain
  sleep-Called op ms f h c = ground (arith, -ℤ_parts b.deadline_at (pos f.clock))

  abbrev pub IsSteady : Frame (S × List Call) → Type 0
  IsSteady f = IsKept f × (f.iterations ≡ flushes (log_of f))

  pub syncing-Asked :
      (time : ℕ) (r : Reply Bool) (a : Bool) (f f' : Frame (S × List Call))
      → IsSteady f
      → Called f f' (asked_syncing time r)
      → Gives b.deadline_at time r a f'.state.cancelled
      → IsSteady f' × Asked asked_syncing f a f'
  syncing-Asked time (resolves d x c) a f f' h k g =
      (ground arith, (time, resolves d x c, ground arith, ground arith))
  syncing-Asked time _ a f f' h k g = absurd g

  pub items-Asked :
      (time : ℕ) (r : Reply (List SyncItem)) (a : List SyncItem) (f f' : Frame (S × List Call))
      → IsSteady f
      → Called f f' (asked_items time r)
      → Gives b.deadline_at time r a f'.state.cancelled
      → IsSteady f' × Asked asked_items f a f'
  items-Asked time (resolves d x c) a f f' h k g =
      (ground arith, (time, resolves d x c, ground arith, ground arith))
  items-Asked time _ a f f' h k g = absurd g

  pub connection-Asked :
      (time : ℕ) (r : Reply ConnectionState) (a : ConnectionState) (f f' : Frame (S × List Call))
      → IsSteady f
      → Called f f' (asked_connection time r)
      → Gives b.deadline_at time r a f'.state.cancelled
      → IsSteady f' × Asked asked_connection f a f'
  connection-Asked time (resolves d x c) a f f' h k g =
      (ground arith, (time, resolves d x c, ground arith, ground arith))
  connection-Asked time _ a f f' h k g = absurd g

  -- The counters catch up with an answered size.
  pub size-Asked :
      (time : ℕ) (r : Reply ℕ) (a : ℕ) (f f' : Frame (S × List Call))
      → IsSteady f
      → Called f f' (asked_size time r)
      → Gives b.deadline_at time r a f'.state.cancelled
      → IsSteady (count_removed a f') × Asked asked_size f a f'
  unfolding count_removed
  size-Asked time (resolves d x c) a f f' h k g =
      (ground arith, (time, resolves d x c, ground arith, ground arith))
  size-Asked time _ a f f' h k g = absurd g

  pub flush-Steady :
      (time : ℕ) (r : Reply SyncResult) (a : SyncResult) (f f' : Frame (S × List Call))
      → IsKept f
      → f.iterations ≡ suc (flushes (log_of f))
      → Online (log_of f)
      → Called f f' (flushed time r)
      → Gives b.deadline_at time r a f'.state.cancelled
      → IsSteady f'
  flush-Steady time (resolves d x c) a f f' h e o k g = ground arith
  flush-Steady time _ a f f' h e o k g = absurd g
