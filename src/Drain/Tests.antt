-- ===== src/Drain/Tests.antt =====
-- A drain on a small engine: a queue of so many items, of which a cycle sends two.
use react_native_sync_provid.Common.{
  ℕ, ◌-◌, ◌≤◌, ◌≡◌, arith, refl, false, List, [], Option, none, some,
}
use react_native_sync_provid.Common.Int.{pos, ◌+ℤ◌, ◌-ℤ◌}
use react_native_sync_provid.Types.Number.{finite}
use react_native_sync_provid.Types.Enums.{ConnectionStatus, ConnectionType}
use react_native_sync_provid.Types.Sync.{
  SyncResult, ConnectionState, DrainOptions, DrainResult, DrainStoppedReason,
}
use react_native_sync_provid.Types.Errors.{Outcome, fulfilled}
use react_native_sync_provid.Drain.Frame.{
  DrainNativeOps, DrainControllerState, Process, resolves, cancel_active_drain, has, remove,
}
use react_native_sync_provid.Drain.Loop.{
  bounds, run_drain, soonest_cooldown_end, loop, pass, guarded, measure_unless, measured, dispatch,
  count_removed, check_connection, when_online, start_cycle, proceed, after_cycle, pause,
  confirm_empty, cooldown_wait, empty_unless, finite_or, removed_since, soonest_from, wait,
  wait_after_no_progress,
}
use react_native_sync_provid.Drain.Race.{
  race_with_stop, cancel_between, clear_sleep_timer, on_cancel, on_deadline, set_sleep_timer,
  settle, sleep_with_stop, stop_waiting,
}
use react_native_sync_provid.Drain.Results.{
  IsIdle, IsReleased, Explains, run_drain-returns, run_drain-IsReleased, run_drain-Explains,
}
use react_native_sync_provid.Drain.Prompt.{IsPrompt}
use react_native_sync_provid.Drain.Liveness.{Empties, run_drain-Empties}
use react_native_sync_provid.Drain.Log.{Call, logged}
use react_native_sync_provid.Drain.Discipline.{
  IsOrderly, Justifies, Counts, run_drain-IsOrderly, run_drain-Justifies, run_drain-Counts,
}

abbrev a_result : SyncResult
a_result = record {
  started_at = 1;
  finished_at = 2;
  success_count = 2;
  failure_count = 0;
  succeeded_ids = [];
  failed_ids = [];
  errors = [];
}

abbrev on_wifi : ConnectionState
on_wifi = record {
  status = ConnectionStatus.connected;
  type = ConnectionType.wifi;
  is_internet_reachable = none;
  is_expensive = none;
}

abbrev engine : DrainNativeOps ℕ
engine = record {
  flush = λ now n. (resolves 5 a_result false, n - 2);
  get_connection_status = λ now n. (resolves 1 on_wifi false, n);
  get_pending_items = λ now n. (resolves 1 [] false, n);
  get_queue_size = λ now n. (resolves 1 n false, n);
  is_syncing = λ now n. (resolves 1 false false, n);
  sleep = λ now n. (none, n);
}

abbrev short : Option DrainOptions
short = some (record {
  max_iterations = some (finite (pos 5));
  timeout_ms = some (finite (pos 60));
  delay_between_cycles_ms = none;
})

abbrev idle_state : DrainControllerState
idle_state = record { active = false; cancelled = false; cancel_waiters = [] }

abbrev three_items : Process ℕ
three_items = record { state = idle_state; clock = 100; next_id = 0; timers = []; env = 3 }

abbrev three_items_logged : Process (ℕ × List Call)
three_items_logged = record {
  state = idle_state;
  clock = 100;
  next_id = 0;
  timers = [];
  env = (3, []);
}

abbrev drained : DrainResult
drained = record {
  iterations = 2;
  items_dispatched = 3;
  queue_remaining = 0;
  stopped_reason = DrainStoppedReason.empty;
}

drain_test : (run_drain engine short three_items).0 ≡ some (fulfilled drained)
unfolding run_drain bounds soonest_cooldown_end ◌+ℤ◌ ◌-ℤ◌ has remove cancel_active_drain loop pass
    guarded measure_unless measured dispatch count_removed check_connection when_online start_cycle
    proceed after_cycle pause confirm_empty cooldown_wait empty_unless finite_or removed_since
    soonest_from wait wait_after_no_progress race_with_stop cancel_between clear_sleep_timer
    on_cancel on_deadline set_sleep_timer settle sleep_with_stop stop_waiting
drain_test = refl

idle : IsIdle three_items
idle = record { unlocked = refl; no_waiter = refl; no_timer = refl }

run_drain-returns_example :
    (o : Outcome DrainResult) × ((run_drain engine short three_items).0 ≡ some o)
run_drain-returns_example = run_drain-returns engine short three_items idle

run_drain-IsReleased_example :
    IsReleased engine short three_items (run_drain engine short three_items).1
run_drain-IsReleased_example = run_drain-IsReleased engine short three_items idle

run_drain-Explains_example : (drained.iterations ≤ 5) × Explains 5 drained
unfolding bounds finite_or ◌+ℤ◌
run_drain-Explains_example = run_drain-Explains engine short three_items drained idle drain_test

run_drain-IsOrderly_example :
    IsOrderly
      (bounds short 100).deadline_at
      (run_drain (logged engine) short three_items_logged).1.env.1
run_drain-IsOrderly_example = run_drain-IsOrderly engine short three_items_logged refl

logged_test : (run_drain (logged engine) short three_items_logged).0 ≡ some (fulfilled drained)
unfolding run_drain bounds soonest_cooldown_end ◌+ℤ◌ ◌-ℤ◌ has remove cancel_active_drain loop pass
    guarded measure_unless measured dispatch count_removed check_connection when_online start_cycle
    proceed after_cycle pause confirm_empty cooldown_wait empty_unless finite_or removed_since
    soonest_from wait wait_after_no_progress race_with_stop cancel_between clear_sleep_timer
    on_cancel on_deadline set_sleep_timer settle sleep_with_stop stop_waiting
logged_test = refl

run_drain-Justifies_example :
    Justifies (run_drain (logged engine) short three_items_logged).1.env.1 DrainStoppedReason.empty
run_drain-Justifies_example =
    run_drain-Justifies engine short three_items_logged drained refl logged_test

run_drain-Counts_example :
    Counts (run_drain (logged engine) short three_items_logged).1.env.1 drained
run_drain-Counts_example = run_drain-Counts engine short three_items_logged drained refl logged_test

abbrev roomy : Option DrainOptions
roomy = some (record {
  max_iterations = some (finite (pos 5));
  timeout_ms = some (finite (pos 200));
  delay_between_cycles_ms = none;
})

engine-IsPrompt : IsPrompt engine (λ n. n) 5
engine-IsPrompt = record {
  is_syncing = λ now n. (omega arith, (refl, refl));
  get_queue_size = λ now n. (omega arith, (refl, refl));
  get_connection_status = λ now n. (omega arith, (ground arith, refl));
  flush = λ now n. (omega arith, omega arith);
}

run_drain-Empties_example :
    Empties engine (λ n. n) 5 roomy three_items (run_drain engine roomy three_items)
unfolding bounds finite_or ◌+ℤ◌
run_drain-Empties_example =
    run_drain-Empties engine (λ n. n) 5 roomy three_items refl engine-IsPrompt (omega arith) refl
      (omega arith) (omega arith)
