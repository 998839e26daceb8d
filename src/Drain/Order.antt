-- ===== src/Drain/Order.antt =====
-- One pass of the loop over a logged environment: which calls it makes, in which order.
use react_native_sync_provid.Common.{
  refl, ℕ, zero, suc, ◌+◌, Bool, true, false, List, Option, none, some, arith, ltb,
}
use react_native_sync_provid.Common.Int.{ℤ, pos, pos_part}
use react_native_sync_provid.Types.Sync.{SyncItem, ConnectionState, DrainStoppedReason}
use react_native_sync_provid.Drain.Frame.{resolves, DrainNativeOps, Frame, M, pure}
use react_native_sync_provid.Drain.Race.{sleep_with_stop}
use react_native_sync_provid.Drain.Loop.{
  Bounds, Verdict, again, finish, idle_wait_ms, guarded, wait, cooldown_wait,
  wait_after_no_progress, start_cycle, when_online, check_connection, pause, after_cycle, dispatch,
  empty_unless, confirm_empty, removed_since, count_removed, measured, measure_unless, pass,
  proceed, loop, drain_idle_wait_ms,
}
use react_native_sync_provid.Drain.Log.{
  Call, logged, Polled, Waiting, Online, Confirmed, Emptied, flushed, asked_syncing, asked_size,
  asked_items, asked_connection,
}
use react_native_sync_provid.Drain.Protocol.{
  log_of, IsSteady, OnStop, OnError, Meets, Asked, guarded-Called, sleep-Called, syncing-Asked,
  items-Asked, connection-Asked, size-Asked, flush-Steady,
}
use react_native_sync_provid.Drain.Ends.{Ends-bind, Ends-mono}

module _ {S : Type 0} (native : DrainNativeOps S) (b : Bounds) where
  abbrev pub AfterPass : Verdict → Frame (S × List Call) → Type 0
  AfterPass again f = IsSteady b f
  AfterPass (finish DrainStoppedReason.empty) f = IsSteady b f × Confirmed (log_of f)
  AfterPass (finish DrainStoppedReason.max_iterations) f = IsSteady b f × Waiting (log_of f)
  AfterPass (finish _) f = ⊥

  abbrev Passes : Frame (S × List Call) → M (S × List Call) Verdict → Type 0
  Passes f m = Meets b AfterPass (m f)

  wait-Ends :
      (ms : ℤ) (f : Frame (S × List Call)) → IsSteady b f → Passes f (wait (logged native) b ms)
  unfolding wait
  wait-Ends ms f h =
      Ends-bind (OnStop b) (OnError b) _ AfterPass
        (sleep_with_stop (logged native).sleep (pos_part ms) b.deadline_at) (λ _. pure again) f
        (sleep-Called b native.sleep (pos_part ms) f h.0 (ground arith)) λ _ f' k. ground arith

  syncing-Ends :
      (f : Frame (S × List Call))
      → IsSteady b f
      → Meets b
          (λ a f'. IsSteady b f' × Asked asked_syncing f a f')
          (guarded b (logged native).is_syncing f)
  syncing-Ends f h =
      Ends-mono (OnStop b) (OnError b) _ _ (guarded b (logged native).is_syncing f)
        (guarded-Called b asked_syncing native.is_syncing f refl h.0 (ground arith) (ground arith)
          (ground arith))
        λ a f' (k, g). syncing-Asked b _ _ a f f' h k g

  items-Ends :
      (f : Frame (S × List Call))
      → IsSteady b f
      → Meets b
          (λ a f'. IsSteady b f' × Asked asked_items f a f')
          (guarded b (logged native).get_pending_items f)
  items-Ends f h =
      Ends-mono (OnStop b) (OnError b) _ _ (guarded b (logged native).get_pending_items f)
        (guarded-Called b asked_items native.get_pending_items f refl h.0 (ground arith)
          (ground arith) (ground arith))
        λ a f' (k, g). items-Asked b _ _ a f f' h k g

  connection-Ends :
      (f : Frame (S × List Call))
      → IsSteady b f
      → Meets b
          (λ a f'. IsSteady b f' × Asked asked_connection f a f')
          (guarded b (logged native).get_connection_status f)
  connection-Ends f h =
      Ends-mono (OnStop b) (OnError b) _ _ (guarded b (logged native).get_connection_status f)
        (guarded-Called b asked_connection native.get_connection_status f refl h.0 (ground arith)
          (ground arith) (ground arith))
        λ a f' (k, g). connection-Asked b _ _ a f f' h k g

  size-Ends :
      (f : Frame (S × List Call))
      → IsSteady b f
      → Meets b
          (λ a f'. IsSteady b (count_removed a f') × Asked asked_size f a f')
          (guarded b (logged native).get_queue_size f)
  size-Ends f h =
      Ends-mono (OnStop b) (OnError b) _ _ (guarded b (logged native).get_queue_size f)
        (guarded-Called b asked_size native.get_queue_size f refl h.0 (ground arith) (ground arith)
          (ground arith))
        λ a f' (k, g). size-Asked b _ _ a f f' h k g

  abbrev counted : Frame (S × List Call) → Frame (S × List Call)
  counted f = record f { iterations = f.iterations + 1; cycle_just_ran = true }

  start_cycle-Ends :
      (f : Frame (S × List Call))
      → IsSteady b f
      → Online (log_of f)
      → Passes f (start_cycle (logged native) b)
  unfolding start_cycle
  start_cycle-Ends f h o =
      Ends-bind (OnStop b) (OnError b) _ AfterPass (guarded b (logged native).flush)
        (λ _. pure again) (counted f)
        (guarded-Called b flushed native.flush (counted f) refl (ground arith) (ground arith)
          (ground arith) (ground arith))
        λ a f' (k, g). flush-Steady b _ _ a (counted f) f' (ground arith) (ground arith) o k g

  when_online-Ends :
      (connection : ConnectionState) (f f' : Frame (S × List Call))
      → IsSteady b f'
      → Waiting (log_of f)
      → Asked asked_connection f connection f'
      → Passes f' (when_online (logged native) b connection)
  unfolding when_online
  when_online-Ends connection f f' h w (time, resolves d x c, e, same) =
      ground (arith, wait-Ends (idle_wait_ms b) f' h, start_cycle-Ends f' h)
  when_online-Ends connection f f' h w (_, _, e, same) = absurd same

  -- Ready to go on to the connection check: items wait.
  abbrev IsReady : Frame (S × List Call) → Type 0
  IsReady f = IsSteady b f × Waiting (log_of f)

  check_connection-Ends :
      (f : Frame (S × List Call)) → IsReady f → Passes f (check_connection (logged native) b)
  unfolding check_connection
  check_connection-Ends f (h, w) =
      Ends-bind (OnStop b) (OnError b) _ AfterPass (guarded b (logged native).get_connection_status)
        (when_online (logged native) b) f (connection-Ends f h)
        λ c f' (h', asked). when_online-Ends c f f' h' w asked

  pause-Ends :
      (ms : ℤ) (f : Frame (S × List Call)) → IsReady f → Passes f (pause (logged native) b ms)
  unfolding pause
  pause-Ends ms f h = ground (arith, wait-Ends ms f h.0, check_connection-Ends f h)

  cooldown_wait-Ends :
      (items : List SyncItem) (f : Frame (S × List Call))
      → IsReady f
      → Meets b (λ _ f'. IsReady f') (cooldown_wait (logged native) b items f)
  unfolding cooldown_wait
  cooldown_wait-Ends items f h = ground arith

  asked_items-IsReady :
      (items : List SyncItem) (f f' : Frame (S × List Call))
      → Waiting (log_of f)
      → IsSteady b f'
      → Asked asked_items f items f'
      → IsReady f'
  asked_items-IsReady items f f' w h (time, r, e, same) = (h, ground arith)

  wait_after_no_progress-Ends :
      (f : Frame (S × List Call))
      → IsReady f
      → Meets b (λ _ f'. IsReady f') (wait_after_no_progress (logged native) b f)
  unfolding wait_after_no_progress
  wait_after_no_progress-Ends f (h, w) =
      Ends-bind (OnStop b) (OnError b) _ (λ _ f'. IsReady f')
        (guarded b (logged native).get_pending_items) (cooldown_wait (logged native) b) f
        (items-Ends f h)
        λ items f' (h', asked).
          cooldown_wait-Ends items f' (asked_items-IsReady items f f' w h' asked)

  after_cycle-Ends :
      (progress : Bool) (f : Frame (S × List Call))
      → IsReady f
      → Passes f (after_cycle (logged native) b progress)
  unfolding after_cycle
  after_cycle-Ends true f h = pause-Ends b.delay_between_cycles_ms f h
  after_cycle-Ends false f h =
      Ends-bind (OnStop b) (OnError b) _ AfterPass (wait_after_no_progress (logged native) b)
        (pause (logged native) b) f (wait_after_no_progress-Ends f h) pause-Ends

  dispatch-Ends :
      (progress : Bool) (f : Frame (S × List Call))
      → IsReady f
      → Passes f (dispatch (logged native) b progress)
  unfolding dispatch
  dispatch-Ends progress f h = ground (
    arith,
    check_connection-Ends f h,
    after_cycle-Ends progress (record f { cycle_just_ran = false }),
  )

  size-Emptied :
      (f f' : Frame (S × List Call))
      → Polled (log_of f)
      → Asked asked_size f 0 f'
      → Emptied (log_of f')
  size-Emptied f f' p (time, r, e, same) = rw e (same, p)

  size-Waiting :
      (n : ℕ) (f f' : Frame (S × List Call))
      → Polled (log_of f)
      → Asked asked_size f (suc n) f'
      → Waiting (log_of f')
  size-Waiting n f f' p (time, resolves d x c, e, same) = rw e (ground arith, p)
  size-Waiting n f f' p (_, _, e, same) = absurd same

  empty_unless-Ends :
      (syncing : Bool) (f f' : Frame (S × List Call))
      → IsSteady b f'
      → Emptied (log_of f)
      → Asked asked_syncing f syncing f'
      → Passes f' (empty_unless (logged native) b syncing)
  unfolding empty_unless
  empty_unless-Ends true f f' h z asked = wait-Ends (pos drain_idle_wait_ms) f' h
  empty_unless-Ends false f f' h z (time, r, e, same) = (h, rw e (same, z))

  confirm_empty-Ends :
      (f : Frame (S × List Call))
      → IsSteady b f
      → Emptied (log_of f)
      → Passes f (confirm_empty (logged native) b)
  unfolding confirm_empty
  confirm_empty-Ends f h z =
      Ends-bind (OnStop b) (OnError b) _ AfterPass (guarded b (logged native).is_syncing)
        (empty_unless (logged native) b) f (syncing-Ends f h)
        λ syncing f' (h', asked). empty_unless-Ends syncing f f' h' z asked

  measured-Ends :
      (size : ℕ) (f f' : Frame (S × List Call))
      → IsSteady b (count_removed size f')
      → Polled (log_of f)
      → Asked asked_size f size f'
      → Passes f' (measured (logged native) b size)
  unfolding measured count_removed
  measured-Ends zero f f' h p asked =
      confirm_empty-Ends (count_removed 0 f') h (size-Emptied f f' p asked)
  measured-Ends (suc n) f f' h p asked = ground (
    arith,
    dispatch-Ends (ltb 0 (removed_since f'.last_size (suc n))) (count_removed (suc n) f')
        (h, size-Waiting n f f' p asked),
  )

  measure_unless-Ends :
      (syncing : Bool) (f f' : Frame (S × List Call))
      → IsSteady b f'
      → Asked asked_syncing f syncing f'
      → Passes f' (measure_unless (logged native) b syncing)
  unfolding measure_unless
  measure_unless-Ends true f f' h asked = wait-Ends (pos drain_idle_wait_ms) f' h
  measure_unless-Ends false f f' h (time, r, e, same) =
      Ends-bind (OnStop b) (OnError b) _ AfterPass (guarded b (logged native).get_queue_size)
        (measured (logged native) b) f' (size-Ends f' h)
        λ size f'' (h'', asked). measured-Ends size f' f'' h'' (rw e same) asked

  pass-Ends : (f : Frame (S × List Call)) → IsSteady b f → Passes f (pass (logged native) b)
  unfolding pass
  pass-Ends f h =
      Ends-bind (OnStop b) (OnError b) _ AfterPass (guarded b (logged native).is_syncing)
        (measure_unless (logged native) b) f (syncing-Ends f h)
        λ syncing f' (h', asked). measure_unless-Ends syncing f f' h' asked

  abbrev pub AfterLoop : Option DrainStoppedReason → Frame (S × List Call) → Type 0
  AfterLoop none f = IsSteady b f
  AfterLoop (some r) f = AfterPass (finish r) f

  proceed-Ends :
      (fuel : ℕ) (v : Verdict) (f : Frame (S × List Call))
      → ((g : Frame (S × List Call))
          → IsSteady b g
          → Meets b AfterLoop (loop (logged native) b fuel g))
      → AfterPass v f
      → Meets b AfterLoop (proceed (logged native) b (loop (logged native) b fuel) v f)
  unfolding proceed
  proceed-Ends fuel again f rest h = rest f h
  proceed-Ends fuel (finish r) f rest h = h

  pub loop-Ends :
      (fuel : ℕ) (f : Frame (S × List Call))
      → IsSteady b f
      → Meets b AfterLoop (loop (logged native) b fuel f)
  unfolding loop
  loop-Ends zero f h = h
  loop-Ends (suc fuel) f h =
      Ends-bind (OnStop b) (OnError b) AfterPass AfterLoop (pass (logged native) b)
        (proceed (logged native) b (loop (logged native) b fuel)) f (pass-Ends f h)
        λ v f' h'. proceed-Ends fuel v f' (loop-Ends fuel) h'
