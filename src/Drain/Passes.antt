-- ===== src/Drain/Passes.antt =====
-- One pass of the loop ends the drain within its bounds, or uses some of them up.
use react_native_sync_provid.Common.{
  zero, refl, ltb, ◌∙◌, Option, none, ℕ, ◌+◌, ◌-◌, ◌≤◌, ◌<◌, ◌≡◌, true, false, List, some, suc,
  Bool, arith,
}
use react_native_sync_provid.Common.Int.{ℤ, pos, pos_part, ◌<ℤ◌}
use react_native_sync_provid.Types.Sync.{SyncItem, DrainStoppedReason, ConnectionState}
use react_native_sync_provid.Drain.Frame.{DrainNativeOps, Frame, Ended, M, ◌>>=◌, pure}
use react_native_sync_provid.Drain.Race.{sleep_with_stop}
use react_native_sync_provid.Drain.Loop.{
  Bounds, Verdict, again, finish, idle_wait_ms, guarded, wait, wait_after_no_progress,
  cooldown_wait, start_cycle, when_online, check_connection, pause, after_cycle, dispatch,
  empty_unless, confirm_empty, measured, measure_unless, pass, proceed, loop, drain_idle_wait_ms,
  count_removed, removed_since,
}
use react_native_sync_provid.Drain.Bounded.{
  IsBounded, Waited, StopFits, OnStop, OnError, AfterWait, AfterSleep, guarded-Ends, sleep-Ends,
}
use react_native_sync_provid.Drain.Ends.{Ends, Ends-bind, Ends-mono}

module _ {S : Type 0} (b : Bounds) (start : ℕ) (native : DrainNativeOps S) where
  abbrev Meets : {A : Type 0} → (A → Frame S → Type 0) → Ended S A → Type 0
  Meets D e = Ends (OnStop b start) (OnError b start) D e

  -- What is left of the two bounds: iterations, and ms to the deadline.
  abbrev pub budget : Frame S → ℕ
  budget f = pos_part b.max_iterations - f.iterations + (pos_part b.deadline_at - f.clock)

  abbrev pub Fits : DrainStoppedReason → Frame S → Type 0
  Fits DrainStoppedReason.empty f = f.last_size ≡ some 0
  Fits DrainStoppedReason.max_iterations f =
      (pos_part b.max_iterations ≤ f.iterations) × ((n : ℕ) × (f.last_size ≡ some (suc n)))
  Fits r f = StopFits b start r f

  abbrev pub AfterPass : Frame S → Verdict → Frame S → Type 0
  AfterPass f again f' = IsBounded b start f' × (budget f' < budget f)
  AfterPass f (finish r) f' = IsBounded b start f' × Fits r f'

  pub wait-Ends :
      (ms : ℤ) (f : Frame S)
      → pos 0 <ℤ ms
      → IsBounded b start f
      → Meets (AfterPass f) (wait native b ms f)
  unfolding wait
  wait-Ends ms f p h =
      Ends-bind (OnStop b start) (OnError b start) (AfterSleep b start f) (AfterPass f)
        (sleep_with_stop native.sleep (pos_part ms) b.deadline_at) (λ _. pure again) f
        (sleep-Ends b start native (pos_part ms) f (omega arith) h)
        λ _ f' (h', w, gone, left). (h', omega arith)

  abbrev counted : Frame S → Frame S
  counted f = record f { iterations = f.iterations + 1; cycle_just_ran = true }

  abbrev Fresh : Frame S → Type 0
  Fresh f = IsBounded b start f × (pos f.iterations <ℤ b.max_iterations)

  abbrev Passes : Frame S → M S Verdict → Type 0
  Passes f m = Meets (AfterPass f) (m f)

  start_cycle-Ends : (f : Frame S) → Fresh f → Passes f (start_cycle native b)
  unfolding start_cycle
  start_cycle-Ends f (h, left) =
      Ends-bind (OnStop b start) (OnError b start) (AfterWait b start (counted f)) (AfterPass f)
        (guarded b native.flush) (λ _. pure again) (counted f)
        (guarded-Ends b start native.flush (counted f) (ground arith))
        λ _ f' (h', w). (h', omega arith)

  when_online-Ends :
      (connection : ConnectionState) (f : Frame S)
      → Fresh f
      → Passes f (when_online native b connection)
  unfolding when_online
  when_online-Ends connection f h =
      ground (arith, start_cycle-Ends f h, wait-Ends (idle_wait_ms b) f)

  AfterPass-mono :
      (f f' : Frame S)
      → budget f' ≤ budget f
      → (v : Verdict) (g : Frame S) → AfterPass f' v g
      → AfterPass f v g
  AfterPass-mono f f' h again g (bounded, less) = (bounded, omega arith)
  AfterPass-mono f f' h (finish r) g p = p

  -- A wait, and then code that makes a pass.
  after-Ends :
      {A : Type 0} (f : Frame S) (m : M S A) (k : A → M S Verdict)
      → Meets (AfterWait b start f) (m f)
      → ((a : A) (f' : Frame S) → IsBounded b start f' → Waited b start f f' → Passes f' (k a))
      → Passes f (m >>= k)
  after-Ends f m k first next =
      Ends-bind (OnStop b start) (OnError b start) (AfterWait b start f) (AfterPass f) m k f first
        λ a f' (h', w).
          Ends-mono (OnStop b start) (OnError b start) (AfterPass f') (AfterPass f) (k a f')
            (next a f' h' w) (AfterPass-mono f f' (omega arith))

  then-Ends :
      {A : Type 0} (f : Frame S) (m : M S A) (k : A → M S Verdict)
      → Fresh f
      → Meets (AfterWait b start f) (m f)
      → ((a : A) (f' : Frame S) → Fresh f' → Passes f' (k a))
      → Passes f (m >>= k)
  then-Ends f m k (h, left) first next =
      after-Ends f m k first λ a f' h' w. next a f' (h', omega arith)

  check_connection-Ends : (f : Frame S) → Fresh f → Passes f (check_connection native b)
  unfolding check_connection
  check_connection-Ends f h =
      then-Ends f (guarded b native.get_connection_status) (when_online native b) h
        (guarded-Ends b start native.get_connection_status f h.0) when_online-Ends

  pause-Ends : (ms : ℤ) (f : Frame S) → Fresh f → Passes f (pause native b ms)
  unfolding pause
  pause-Ends ms f h = ground (arith, check_connection-Ends f h, wait-Ends ms f)

  cooldown_wait-Ends :
      (items : List SyncItem) (f : Frame S)
      → IsBounded b start f
      → Meets (AfterWait b start f) (cooldown_wait native b items f)
  unfolding cooldown_wait
  cooldown_wait-Ends items f h = ground arith

  wait_after_no_progress-Ends :
      (f : Frame S)
      → IsBounded b start f
      → Meets (AfterWait b start f) (wait_after_no_progress native b f)
  unfolding wait_after_no_progress
  wait_after_no_progress-Ends f h =
      Ends-bind (OnStop b start) (OnError b start) (AfterWait b start f) (AfterWait b start f)
        (guarded b native.get_pending_items) (cooldown_wait native b) f
        (guarded-Ends b start native.get_pending_items f h)
        λ items f' (h', w).
          Ends-mono (OnStop b start) (OnError b start) (AfterWait b start f') (AfterWait b start f)
            (cooldown_wait native b items f') (cooldown_wait-Ends items f' h')
            λ _ g (h'', w'). (h'', ground arith)

  after_cycle-Ends :
      (progress : Bool) (f : Frame S) → Fresh f → Passes f (after_cycle native b progress)
  unfolding after_cycle
  after_cycle-Ends true f h = pause-Ends b.delay_between_cycles_ms f h
  after_cycle-Ends false f h =
      then-Ends f (wait_after_no_progress native b) (pause native b) h
        (wait_after_no_progress-Ends f h.0) pause-Ends

  dispatch-Ends :
      (progress : Bool) (f : Frame S) (n : ℕ)
      → IsBounded b start f
      → f.last_size ≡ some (suc n)
      → Passes f (dispatch native b progress)
  unfolding dispatch
  dispatch-Ends progress f n h e = ground (
    arith,
    check_connection-Ends f,
    after_cycle-Ends progress (record f { cycle_just_ran = false }),
  )

  empty_unless-Ends :
      (syncing : Bool) (f : Frame S)
      → IsBounded b start f
      → f.last_size ≡ some 0
      → Passes f (empty_unless native b syncing)
  unfolding empty_unless
  empty_unless-Ends true f h e = wait-Ends (pos drain_idle_wait_ms) f (omega arith) h
  empty_unless-Ends false f h e = (h, e)

  confirm_empty-Ends :
      (f : Frame S) → IsBounded b start f → f.last_size ≡ some 0 → Passes f (confirm_empty native b)
  unfolding confirm_empty
  confirm_empty-Ends f h e =
      after-Ends f (guarded b native.is_syncing) (empty_unless native b)
        (guarded-Ends b start native.is_syncing f h)
        λ syncing f' h' w. empty_unless-Ends syncing f' h' (w.last_size ∙ e)

  measured-Ends : (size : ℕ) (f : Frame S) → IsBounded b start f → Passes f (measured native b size)
  unfolding measured count_removed
  measured-Ends zero f h = confirm_empty-Ends (count_removed 0 f) (ground arith) refl
  measured-Ends (suc n) f h =
      ground (
        arith,
        dispatch-Ends (ltb 0 (removed_since f.last_size (suc n))) (count_removed (suc n) f) n,
      )

  measure_unless-Ends :
      (syncing : Bool) (f : Frame S)
      → IsBounded b start f
      → Passes f (measure_unless native b syncing)
  unfolding measure_unless
  measure_unless-Ends true f h = wait-Ends (pos drain_idle_wait_ms) f (omega arith) h
  measure_unless-Ends false f h =
      after-Ends f (guarded b native.get_queue_size) (measured native b)
        (guarded-Ends b start native.get_queue_size f h) λ size f' h' w. measured-Ends size f' h'

  pub pass-Ends : (f : Frame S) → IsBounded b start f → Passes f (pass native b)
  unfolding pass
  pass-Ends f h =
      after-Ends f (guarded b native.is_syncing) (measure_unless native b)
        (guarded-Ends b start native.is_syncing f h)
        λ syncing f' h' w. measure_unless-Ends syncing f' h'

  abbrev pub AfterLoop : Option DrainStoppedReason → Frame S → Type 0
  AfterLoop none f = ⊥
  AfterLoop (some r) f = IsBounded b start f × Fits r f

  proceed-Ends :
      (fuel : ℕ) (f : Frame S)
      → budget f < suc fuel
      → ((g : Frame S)
          → IsBounded b start g
          → budget g < fuel
          → Meets AfterLoop (loop native b fuel g))
      → (v : Verdict) (f' : Frame S) → AfterPass f v f'
      → Meets AfterLoop (proceed native b (loop native b fuel) v f')
  unfolding proceed
  proceed-Ends fuel f e rest again f' (h, less) = rest f' h (omega arith)
  proceed-Ends fuel f e rest (finish r) f' p = p

  -- With the budget below the fuel the loop ends, for a reason that fits the state it ends in.
  pub loop-Ends :
      (fuel : ℕ) (f : Frame S)
      → IsBounded b start f
      → budget f < fuel
      → Meets AfterLoop (loop native b fuel f)
  unfolding loop
  loop-Ends zero f h e = elim e [ ]
  loop-Ends (suc fuel) f h e =
      Ends-bind (OnStop b start) (OnError b start) (AfterPass f) AfterLoop (pass native b)
        (proceed native b (loop native b fuel)) f (pass-Ends f h)
        (proceed-Ends fuel f e (loop-Ends fuel))
