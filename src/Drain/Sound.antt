-- ===== src/Drain/Sound.antt =====
-- What holds of the environment before and after every native call holds after the drain, and what
-- holds of every rejection holds of the drain's.
use react_native_sync_provid.Common.{
  ℕ, zero, suc, ◌+◌, ◌≡◌, Bool, true, false, List, Option, none, some, ltb, arith,
}
use react_native_sync_provid.Common.Int.{ℤ, pos}
use react_native_sync_provid.Types.Errors.{Thrown, Outcome, fulfilled, rejected}
use react_native_sync_provid.Types.Sync.{
  SyncItem, ConnectionState, DrainStoppedReason, DrainOptions, DrainResult,
}
use react_native_sync_provid.Drain.Frame.{
  Reply, rejects, DrainNativeOps, Process, Frame, Ended, done, stopped, failed, M, ◌>>=◌, pure, has,
  remove, cancel_active_drain,
}
use react_native_sync_provid.Drain.Race.{race_with_stop, sleep_with_stop}
use react_native_sync_provid.Drain.Loop.{
  Bounds, bounds, Verdict, again, finish, guarded, wait, wait_after_no_progress, cooldown_wait,
  start_cycle, when_online, check_connection, pause, after_cycle, dispatch, empty_unless,
  confirm_empty, measured, measure_unless, pass, proceed, loop, count_removed, removed_since, enter,
  settled, fuel_of, run_drain, idle_wait_ms, drain_idle_wait_ms,
}
use react_native_sync_provid.Drain.Ends.{Ends, Ends-bind}

abbrev pub RejectsWith : {A : Type 0} → (Thrown → Type 0) → Reply A → Type 0
RejectsWith E (rejects t e) = E e
RejectsWith E _ = Unit

abbrev pub Keeps : {S A : Type 0} → (S → Type 0) → (Thrown → Type 0) → Reply A × S → Type 0
Keeps I E (reply, s) = I s × RejectsWith E reply

-- The native calls keep `I`, and reject with what `E` holds of.
pub record IsSound {S : Type 0} (native : DrainNativeOps S) (I : S → Type 0) (E : Thrown → Type 0)
    : Type 0 where
  pub flush : (now : ℕ) (s : S) → I s → Keeps I E (native.flush now s)
  pub get_connection_status :
      (now : ℕ) (s : S) → I s → Keeps I E (native.get_connection_status now s)
  pub get_pending_items : (now : ℕ) (s : S) → I s → Keeps I E (native.get_pending_items now s)
  pub get_queue_size : (now : ℕ) (s : S) → I s → Keeps I E (native.get_queue_size now s)
  pub is_syncing : (now : ℕ) (s : S) → I s → Keeps I E (native.is_syncing now s)
  pub sleep : (now : ℕ) (s : S) → I s → I (native.sleep now s).1

module _ {S : Type 0} (b : Bounds) (native : DrainNativeOps S) (I : S → Type 0)
    (E : Thrown → Type 0) (sound : IsSound native I E) where
  abbrev Sound : {A : Type 0} → Ended S A → Type 0
  Sound e = Ends (λ r f. I f.env) (λ err f. E err × I f.env) (λ a f. I f.env) e

  -- From every frame whose environment `I` holds of.
  abbrev Always : {A : Type 0} → M S A → Type 0
  Always m = (f : Frame S) → I f.env → Sound (m f)

  then-Always :
      {A B : Type 0} (m : M S A) (k : A → M S B)
      → Always m
      → ((a : A) → Always (k a))
      → Always (m >>= k)
  then-Always m k first next f h =
      Ends-bind (λ r g. I g.env) (λ err g. E err × I g.env) (λ a g. I g.env) (λ a g. I g.env) m k f
        (first f h) λ a g h'. next a g h'

  guarded-Always :
      {A : Type 0} (op : ℕ → S → Reply A × S)
      → ((now : ℕ) (s : S) → I s → Keeps I E (op now s))
      → Always (guarded b op)
  unfolding guarded race_with_stop cancel_active_drain remove has
  guarded-Always op keeps f h = ground (arith, keeps f.clock f.env h)

  wait-Always : (ms : ℤ) → Always (wait native b ms)
  unfolding wait sleep_with_stop cancel_active_drain remove has
  wait-Always ms f h = ground (arith, sound.sleep f.clock f.env h)

  cooldown_wait-Always : (items : List SyncItem) → Always (cooldown_wait native b items)
  unfolding cooldown_wait
  cooldown_wait-Always items f h = ground arith

  wait_after_no_progress-Always : Always (wait_after_no_progress native b)
  unfolding wait_after_no_progress
  wait_after_no_progress-Always =
      then-Always (guarded b native.get_pending_items) (cooldown_wait native b)
        (guarded-Always native.get_pending_items sound.get_pending_items) cooldown_wait-Always

  start_cycle-Always : Always (start_cycle native b)
  unfolding start_cycle
  start_cycle-Always f h =
      then-Always (guarded b native.flush) (λ _. pure again)
        (guarded-Always native.flush sound.flush) (λ _ g h'. h')
        (record f { iterations = f.iterations + 1; cycle_just_ran = true }) h

  when_online-Always : (connection : ConnectionState) → Always (when_online native b connection)
  unfolding when_online
  when_online-Always connection f h =
      ground (arith, start_cycle-Always f h, wait-Always (idle_wait_ms b) f h)

  check_connection-Always : Always (check_connection native b)
  unfolding check_connection
  check_connection-Always =
      then-Always (guarded b native.get_connection_status) (when_online native b)
        (guarded-Always native.get_connection_status sound.get_connection_status) when_online-Always

  pause-Always : (ms : ℤ) → Always (pause native b ms)
  unfolding pause
  pause-Always ms f h = ground (arith, check_connection-Always f h, wait-Always ms f h)

  after_cycle-Always : (progress : Bool) → Always (after_cycle native b progress)
  unfolding after_cycle
  after_cycle-Always true = pause-Always b.delay_between_cycles_ms
  after_cycle-Always false =
      then-Always (wait_after_no_progress native b) (pause native b) wait_after_no_progress-Always
        pause-Always

  dispatch-Always : (progress : Bool) → Always (dispatch native b progress)
  unfolding dispatch
  dispatch-Always progress f h = ground (
    arith,
    check_connection-Always f h,
    after_cycle-Always progress (record f { cycle_just_ran = false }) h,
  )

  empty_unless-Always : (syncing : Bool) → Always (empty_unless native b syncing)
  unfolding empty_unless
  empty_unless-Always true = wait-Always (pos drain_idle_wait_ms)
  empty_unless-Always false = λ f h. h

  confirm_empty-Always : Always (confirm_empty native b)
  unfolding confirm_empty
  confirm_empty-Always =
      then-Always (guarded b native.is_syncing) (empty_unless native b)
        (guarded-Always native.is_syncing sound.is_syncing) empty_unless-Always

  measured-Always : (size : ℕ) → Always (measured native b size)
  unfolding measured count_removed
  measured-Always size f h = ground (
    arith,
    confirm_empty-Always (count_removed size f) h,
    dispatch-Always (ltb 0 (removed_since f.last_size size)) (count_removed size f) h,
  )

  measure_unless-Always : (syncing : Bool) → Always (measure_unless native b syncing)
  unfolding measure_unless
  measure_unless-Always true = wait-Always (pos drain_idle_wait_ms)
  measure_unless-Always false =
      then-Always (guarded b native.get_queue_size) (measured native b)
        (guarded-Always native.get_queue_size sound.get_queue_size) measured-Always

  pass-Always : Always (pass native b)
  unfolding pass
  pass-Always =
      then-Always (guarded b native.is_syncing) (measure_unless native b)
        (guarded-Always native.is_syncing sound.is_syncing) measure_unless-Always

  proceed-Always :
      (next : M S (Option DrainStoppedReason))
      → Always next
      → (v : Verdict) → Always (proceed native b next v)
  unfolding proceed
  proceed-Always next keeps again = keeps
  proceed-Always next keeps (finish r) = λ f h. h

  loop-Always : (fuel : ℕ) → Always (loop native b fuel)
  unfolding loop
  loop-Always zero = λ f h. h
  loop-Always (suc fuel) =
      then-Always (pass native b) (proceed native b (loop native b fuel)) pass-Always
        (proceed-Always (loop native b fuel) (loop-Always fuel))

module _ {S : Type 0} (native : DrainNativeOps S) (options : Option DrainOptions) (I : S → Type 0)
    (E : Thrown → Type 0) (sound : IsSound native I E) where
  -- How the drain ends, apart from its result.
  abbrev pub EndsSoundly : Option (Outcome DrainResult) → S → Type 0
  EndsSoundly none s = I s
  EndsSoundly (some (fulfilled r)) s = I s
  EndsSoundly (some (rejected e)) s = E e × I s

  settled-EndsSoundly :
      (limits : Bounds) (e : Ended S (Option DrainStoppedReason))
      → Ends (λ r f. I f.env) (λ err f. E err × I f.env) (λ a f. I f.env) e
      → EndsSoundly (settled e).0 (settled e).1.env
  settled-EndsSoundly limits (done none f) h = h
  settled-EndsSoundly limits (done (some r) f) h = h
  settled-EndsSoundly limits (stopped r f) h = h
  settled-EndsSoundly limits (failed e f) h = h

  pub run_drain-EndsSoundly :
      (p : Process S)
      → p.state.active ≡ false
      → I p.env
      → EndsSoundly (run_drain native options p).0 (run_drain native options p).1.env
  unfolding run_drain
  run_drain-EndsSoundly p unlocked h =
      let limits = bounds options p.clock in
      rw unlocked (
        settled-EndsSoundly limits (loop native limits (fuel_of limits p.clock) (enter p))
          (loop-Always limits native I E sound (fuel_of limits p.clock) (enter p) h))
