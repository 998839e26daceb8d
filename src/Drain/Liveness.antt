-- ===== src/Drain/Liveness.antt =====
-- A drain on an engine that works: it empties the queue.
use react_native_sync_provid.Common.{
  ℕ, zero, suc, ◌+◌, ◌*◌, ◌-◌, ◌≤◌, ◌<◌, ◌≡◌, ◌⊎◌, ◌≢◌, refl, inl, inr, Bool, true, false, Option,
  none, some, ltb, arith,
}
use react_native_sync_provid.Common.Int.{pos, pos_part, leb_ℤ}
use react_native_sync_provid.Types.Enums.{ConnectionStatus}
use react_native_sync_provid.Types.Errors.{Outcome, fulfilled}
use react_native_sync_provid.Types.Sync.{
  ConnectionState, DrainStoppedReason, DrainOptions, DrainResult,
}
use react_native_sync_provid.Drain.Frame.{
  Reply, DrainNativeOps, Process, Frame, Ended, done, stopped, failed, M, ◌>>=◌, pure,
}
use react_native_sync_provid.Drain.Race.{max_timer_delay_ms}
use react_native_sync_provid.Drain.Loop.{
  Bounds, bounds, Verdict, again, finish, guarded, start_cycle, when_online, check_connection,
  pause, after_cycle, dispatch, empty_unless, confirm_empty, measured, measure_unless, pass,
  proceed, loop, count_removed, removed_since, result, enter, settled, fuel_of, run_drain,
}
use react_native_sync_provid.Drain.Ends.{Ends, Ends-bind}
use react_native_sync_provid.Drain.Prompt.{
  Answers, IsPrompt, needed, Succeeds, Went, guarded-Succeeds,
}

module _ {S : Type 0} (b : Bounds) (d : ℕ) (short : d ≤ max_timer_delay_ms)
    (native : DrainNativeOps S) (size : S → ℕ) (prompt : IsPrompt native size d)
    (undelayed : leb_ℤ b.delay_between_cycles_ms (pos 0) ≡ true) where
  -- Before a pass over `n` items, with time for `calls` more calls and for `rest`.
  record IsReady (n calls rest : ℕ) (f : Frame S) : Type 0 where
    uncancelled : f.state.cancelled ≡ false
    left : size f.env ≡ n
    capped : f.iterations + n ≤ pos_part b.max_iterations
    room : f.clock + (calls * d + rest) < pos_part b.deadline_at

  abbrev Advanced : ℕ → ℕ → Frame S → Type 0
  Advanced m rest f =
      (size f.env ≤ m) × IsReady (size f.env) 0 rest f × (f.last_size ≡ some (suc m))

  -- A cycle that ran made the queue smaller.
  abbrev Progressing : Frame S → Type 0
  Progressing f = (f.cycle_just_ran ≡ false) ⊎ ((m : ℕ) × (f.last_size ≡ some m) × (size f.env < m))

  abbrev AfterPass : ℕ → ℕ → Verdict → Frame S → Type 0
  AfterPass zero rest again f = ⊥
  AfterPass (suc m) rest again f = Advanced m rest f
  AfterPass n rest (finish r) f =
      (r ≡ DrainStoppedReason.empty) × (f.last_size ≡ some 0) × (size f.env ≡ 0)

  abbrev Passes : ℕ → ℕ → Frame S → M S Verdict → Type 0
  Passes n rest f m = Succeeds (AfterPass n rest) (m f)

  -- A call that answers, and then the rest of the pass.
  call-Passes :
      {A : Type 0} (P : A → S → Type 0) (op : ℕ → S → Reply A × S) (k : A → M S Verdict)
      (n rest : ℕ) (f : Frame S)
      → f.state.cancelled ≡ false
      → f.clock + d < pos_part b.deadline_at
      → Answers d P (op f.clock f.env)
      → ((a : A) (f' : Frame S) → Went d f f' → P a f'.env → Passes n rest f' (k a))
      → Passes n rest f (guarded b op >>= k)
  call-Passes P op k n rest f h room answers next =
      Ends-bind (λ _ _. ⊥) (λ _ _. ⊥) (λ a f'. Went d f f' × P a f'.env) (AfterPass n rest)
        (guarded b op) k f (guarded-Succeeds b d P op f short h room answers)
        λ a f' (w, p). next a f' w p

  start_cycle-Passes :
      (m rest : ℕ) (f : Frame S)
      → IsReady (suc m) 1 rest f
      → f.last_size ≡ some (suc m)
      → Passes (suc m) rest f (start_cycle native b)
  unfolding start_cycle
  start_cycle-Passes m rest f h e =
      let f' : Frame S = record f { iterations = f.iterations + 1; cycle_just_ran = true } in
      call-Passes (λ r s'. size s' ≤ size f.env - 1) native.flush (λ _. pure again) (suc m) rest f'
        h.uncancelled (omega (arith, h.room)) (prompt.flush f.clock f.env)
        λ r g w p. ground (arith, w, p, h)

  when_online-Passes :
      (m rest : ℕ) (connection : ConnectionState) (f : Frame S)
      → connection.status ≢ ConnectionStatus.disconnected
      → IsReady (suc m) 1 rest f
      → f.last_size ≡ some (suc m)
      → Passes (suc m) rest f (when_online native b connection)
  unfolding when_online
  when_online-Passes m rest connection f online h e =
      ground (arith, start_cycle-Passes m rest f h e)

  check_connection-Passes :
      (m rest : ℕ) (f : Frame S)
      → IsReady (suc m) 2 rest f
      → f.last_size ≡ some (suc m)
      → Passes (suc m) rest f (check_connection native b)
  unfolding check_connection
  check_connection-Passes m rest f h e =
      call-Passes (λ c s'. (c.status ≢ ConnectionStatus.disconnected) × (size s' ≡ size f.env))
        native.get_connection_status (when_online native b) (suc m) rest f h.uncancelled
        (omega (arith, h.room)) (prompt.get_connection_status f.clock f.env)
        λ c g w (online, same).
          when_online-Passes m rest c g online (ground (arith, w, same, h)) (ground (arith, w, e))

  after_cycle-Passes :
      (m rest : ℕ) (f : Frame S)
      → IsReady (suc m) 2 rest f
      → f.last_size ≡ some (suc m)
      → Passes (suc m) rest f (after_cycle native b true)
  unfolding after_cycle pause
  after_cycle-Passes m rest f h e = ground (arith, undelayed, check_connection-Passes m rest f h e)

  dispatch-Passes :
      (progress : Bool) (m rest : ℕ) (f : Frame S)
      → (f.cycle_just_ran ≡ false) ⊎ (progress ≡ true)
      → IsReady (suc m) 2 rest f
      → f.last_size ≡ some (suc m)
      → Passes (suc m) rest f (dispatch native b progress)
  unfolding dispatch
  dispatch-Passes progress m rest f goes h e = ground (
    arith,
    check_connection-Passes m rest f h e,
    after_cycle-Passes m rest (record f { cycle_just_ran = false }),
  )

  confirm_empty-Passes :
      (rest : ℕ) (f : Frame S)
      → IsReady 0 2 rest f
      → f.last_size ≡ some 0
      → Passes 0 rest f (confirm_empty native b)
  unfolding confirm_empty empty_unless
  confirm_empty-Passes rest f h e =
      call-Passes (λ syncing s'. (syncing ≡ false) × (size s' ≡ size f.env)) native.is_syncing
        (empty_unless native b) 0 rest f h.uncancelled (omega (arith, h.room))
        (prompt.is_syncing f.clock f.env) λ syncing g w p. ground (arith, w, p, h)

  measured-Passes :
      (n rest : ℕ) (f : Frame S)
      → IsReady n 2 rest f
      → Progressing f
      → Passes n rest f (measured native b n)
  unfolding measured count_removed removed_since
  measured-Passes zero rest f h p =
      confirm_empty-Passes rest (count_removed 0 f) (ground arith) refl
  measured-Passes (suc m) rest f h p = ground (
    arith,
    dispatch-Passes (ltb 0 (removed_since f.last_size (suc m))) m rest (count_removed (suc m) f),
  )

  measure_unless-Passes :
      (n rest : ℕ) (f : Frame S)
      → IsReady n 3 rest f
      → Progressing f
      → Passes n rest f (measure_unless native b false)
  unfolding measure_unless
  measure_unless-Passes n rest f h p =
      call-Passes (λ k s'. (k ≡ size f.env) × (size s' ≡ size f.env)) native.get_queue_size
        (measured native b) n rest f h.uncancelled (omega (arith, h.room))
        (prompt.get_queue_size f.clock f.env)
        λ k g w (e, same).
          rw (e, h.left)
            (measured-Passes n rest g (ground (arith, w, same, h)) (ground (arith, w, same, p)))

  pass-Passes :
      (n rest : ℕ) (f : Frame S)
      → IsReady n 4 rest f
      → Progressing f
      → Passes n rest f (pass native b)
  unfolding pass
  pass-Passes n rest f h p =
      call-Passes (λ syncing s'. (syncing ≡ false) × (size s' ≡ size f.env)) native.is_syncing
        (measure_unless native b) n rest f h.uncancelled (omega (arith, h.room))
        (prompt.is_syncing f.clock f.env)
        λ syncing g w (e, same).
          rw e (
            measure_unless-Passes n rest g (ground (arith, w, same, h))
              (ground (arith, w, same, p)))

  abbrev IsDrained : Option DrainStoppedReason → Frame S → Type 0
  IsDrained o f = (o ≡ some DrainStoppedReason.empty) × (f.last_size ≡ some 0) × (size f.env ≡ 0)

  proceed-IsDrained :
      (n rest : ℕ) (next : M S (Option DrainStoppedReason))
      → ((m : ℕ) (g : Frame S) → n ≡ suc m → Advanced m rest g → Succeeds IsDrained (next g))
      → (v : Verdict) (g : Frame S) → AfterPass n rest v g
      → Succeeds IsDrained (proceed native b next v g)
  unfolding proceed
  proceed-IsDrained zero rest next goes again g end = absurd end
  proceed-IsDrained (suc m) rest next goes again g end = goes m g refl end
  proceed-IsDrained n rest next goes (finish r) g end = ground (arith, end)

  -- The queue holds `n` items at most, for which there are time and fuel.
  loop-IsDrained :
      (fuel n : ℕ) (f : Frame S)
      → n < fuel
      → size f.env ≤ n
      → IsReady (size f.env) 0 (needed d n) f
      → Progressing f
      → Succeeds IsDrained (loop native b fuel f)
  unfolding loop
  loop-IsDrained zero n f more few h p = absurd (omega (arith, more))
  loop-IsDrained (suc fuel) zero f more few h p =
      Ends-bind (λ _ _. ⊥) (λ _ _. ⊥) (AfterPass (size f.env) 0) IsDrained (pass native b)
        (proceed native b (loop native b fuel)) f
        (pass-Passes (size f.env) 0 f (ground (arith, h)) p)
        (proceed-IsDrained (size f.env) 0 (loop native b fuel)
          λ m g e end. absurd (omega (arith, few, e)))
  loop-IsDrained (suc fuel) (suc n) f more few h p =
      Ends-bind (λ _ _. ⊥) (λ _ _. ⊥) (AfterPass (size f.env) (needed d n)) IsDrained
        (pass native b) (proceed native b (loop native b fuel)) f
        (pass-Passes (size f.env) (needed d n) f (ground (arith, h)) p)
        (proceed-IsDrained (size f.env) (needed d n) (loop native b fuel)
          λ m g e (less, ready, shown).
            loop-IsDrained fuel n g (omega (arith, more)) (omega (arith, less, few, e)) ready
              (inr (suc m, shown, omega (arith, less))))

module _ {S : Type 0} (native : DrainNativeOps S) (size : S → ℕ) (d : ℕ)
    (options : Option DrainOptions) (p : Process S) where
  abbrev limits : Bounds
  limits = bounds options p.clock

  -- The promise is fulfilled with `EMPTY`, and the engine's queue is empty.
  abbrev pub Empties : Option (Outcome DrainResult) × Process S → Type 0
  Empties ended =
      (size ended.1.env ≡ 0)
      × ((r : DrainResult) × (ended.0 ≡ some (fulfilled r))
          × (r.stopped_reason ≡ DrainStoppedReason.empty)
          × (r.queue_remaining ≡ 0))

  settled-Empties :
      (short : d ≤ max_timer_delay_ms) (prompt : IsPrompt native size d)
      (undelayed : leb_ℤ limits.delay_between_cycles_ms (pos 0) ≡ true)
      (e : Ended S (Option DrainStoppedReason))
      → Ends (λ _ _. ⊥) (λ _ _. ⊥) (IsDrained limits d short native size prompt undelayed) e
      → Empties (settled e)
  settled-Empties short prompt undelayed (done none f) h = absurd (ground (arith, h))
  settled-Empties short prompt undelayed (done (some r) f) h =
      let (e, shown, gone) = h in (gone, (result r f, refl, ground (arith, e), rw shown refl))
  settled-Empties short prompt undelayed (stopped r f) h = absurd h
  settled-Empties short prompt undelayed (failed e f) h = absurd h

  -- On an engine that works, a drain ends with `EMPTY` and leaves the queue empty: where none runs,
  -- each native call answers within `d` ms (at most 2^31-1), the device is not offline, no other
  -- cycle runs and nobody cancels, each cycle takes an item at least out of a queue that is not
  -- empty, there is no delay between cycles, `maxIterations` is at least the number of items, and
  -- the deadline leaves time for four calls for each item and four more.
  pub run_drain-Empties :
      p.state.active ≡ false
      → IsPrompt native size d
      → d ≤ max_timer_delay_ms
      → leb_ℤ limits.delay_between_cycles_ms (pos 0) ≡ true
      → size p.env ≤ pos_part limits.max_iterations
      → p.clock + needed d (size p.env) < pos_part limits.deadline_at
      → Empties (run_drain native options p)
  unfolding run_drain
  run_drain-Empties unlocked prompt short undelayed enough time = rw unlocked (
      settled-Empties short prompt undelayed (loop native limits (fuel_of limits p.clock) (enter p))
        (loop-IsDrained limits d short native size prompt undelayed (fuel_of limits p.clock)
          (size p.env) (enter p) (omega (arith, enough)) (omega arith)
          (ground (arith, enough, time)) (inl refl)))
