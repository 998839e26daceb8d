-- ===== src/Facade/Tests.antt =====
-- The facade over a small native module, whose state is the number of items in its queue.
use react_native_sync_provid.Common.{
  ℕ, suc, ◌+◌, ◌≡◌, ◌⊎◌, refl, inl, [], ◌∷◌, All, length, none, some, true, false,
}
use react_native_sync_provid.Common.Int.{pos}
use react_native_sync_provid.Types.Number.{finite}
use react_native_sync_provid.Types.Enums.{
  ConnectionStatus, ConnectionType, SyncStrategy, BackoffStrategy,
}
use react_native_sync_provid.Types.Value.{
  Value, string, object, field, end, array, Elements, element, hole, nil, elements,
}
use react_native_sync_provid.Types.Sync.{
  SyncOptions, SyncResult, BackgroundSyncOptions, ConnectionState,
}
use react_native_sync_provid.Types.Errors.{invalid_payload, Thrown, error, fulfilled, rejected}
use react_native_sync_provid.Validation.Issues.{validate_sync_item}
use react_native_sync_provid.Validation.Laws.{IsValidInput}
use react_native_sync_provid.Native.Provider.{SyncProvider}
use react_native_sync_provid.Native.Probe.{
  World, CreateHybridObject, initial_probe, get_native_sync_provider,
}
use react_native_sync_provid.Native.Laws.{IsConsistent}
use react_native_sync_provid.Facade.Ops
use react_native_sync_provid.Facade.Ops.{native_call}
use react_native_sync_provid.Facade.Laws.{answer, IsAnswer, native_call-IsAnswer}
use react_native_sync_provid.Facade.Errors.{AllEndWell, enqueue-IsValidInput, facade-EndsWell}
use react_native_sync_provid.Types.Errors.{Outcome}
use react_native_sync_provid.Types.Sync.{DrainResult}
use react_native_sync_provid.Drain.Frame.{Process}
use react_native_sync_provid.Facade.Errors.{OnlySyncError}
use react_native_sync_provid.Facade.Drain.{
  Timing, settles_after, drain_until_empty, drain_until_empty-OnlySyncError,
}
use react_native_sync_provid.Facade.Batch.{enqueue_batch}
use react_native_sync_provid.Facade.Batches.{IsBatchError, enqueue_batch-IsValidInput}

abbrev a_result : SyncResult
a_result = record {
  started_at = 0;
  finished_at = 0;
  success_count = 0;
  failure_count = 0;
  succeeded_ids = [];
  failed_ids = [];
  errors = [];
}

abbrev offline : ConnectionState
offline = record {
  status = ConnectionStatus.disconnected;
  type = ConnectionType.none;
  is_internet_reachable = none;
  is_expensive = none;
}

abbrev options : SyncOptions
options = record {
  strategy = SyncStrategy.manual;
  retry_policy = record {
    max_attempts = pos 5;
    backoff = BackoffStrategy.linear;
    base_delay_ms = pos 1000;
    max_delay_ms = pos 0;
    jitter = false;
    retry_on_status_codes = [];
  };
  batch_size = none;
  request_timeout_ms = none;
  max_queue_size = none;
  persist_queue = none;
  default_headers = none;
}

abbrev background : BackgroundSyncOptions
background = record {
  minimum_interval_ms = finite (pos 900000);
  requires_charging = none;
  requires_unmetered_network = none;
  requires_device_idle = none;
  foreground_only = none;
  task_identifier = none;
}

abbrev small_module : SyncProvider ℕ
small_module = record {
  enqueue = λ item n. (fulfilled "01", suc n);
  enqueue_batch = λ items n. (fulfilled ("01" ∷ []), n + length items);
  remove_item = λ id n. (fulfilled false, n);
  clear_queue = λ n. (fulfilled tt, 0);
  get_queue_size = λ n. (fulfilled n, n);
  get_pending_items = λ n. (fulfilled [], n);
  flush = λ n. (rejected (error (string "no network")), n);
  pause_sync = λ n. (fulfilled tt, n);
  resume_sync = λ n. (fulfilled tt, n);
  is_syncing = λ n. (fulfilled false, n);
  configure_sync = λ o n. (fulfilled tt, n);
  get_sync_config = λ n. (fulfilled options, n);
  get_last_sync_result = λ n. (fulfilled a_result, n);
  get_sync_history = λ limit n. (fulfilled [], n);
  clear_sync_history = λ n. (fulfilled tt, n);
  get_connection_status = λ n. (fulfilled offline, n);
  enable_background_sync = λ o n. (fulfilled tt, n);
  disable_background_sync = λ n. (fulfilled tt, n);
  is_background_sync_enabled = λ n. (fulfilled true, n);
  add_listener = λ event callback n. (fulfilled "sub", n);
  remove_listener = λ event id n. (fulfilled tt, n);
}

abbrev create : CreateHybridObject ℕ
create n = (fulfilled (some small_module), n)

abbrev fresh : World ℕ
fresh = record { probe = initial_probe; native = 0 }

fresh-IsConsistent : IsConsistent fresh
fresh-IsConsistent = record { agrees = inl refl }

abbrev posted : Value
posted = object (field "method" (string "POST") (field "url" (string "https://a.b/c") end))

abbrev batch : Elements
batch = element posted (hole (element (string "x") nil))

native_call-IsAnswer_example :
    IsAnswer invalid_payload
      (λ native. native.flush)
      (get_native_sync_provider create fresh)
      (native_call create invalid_payload (λ native. native.flush) fresh)
native_call-IsAnswer_example =
    native_call-IsAnswer create invalid_payload (λ native. native.flush) fresh fresh-IsConsistent

enqueue-IsValidInput_example :
    (IsValidInput posted
      × (Ops.enqueue create posted fresh
          ≡ answer create invalid_payload
              (λ native. native.enqueue posted)
              (get_native_sync_provider create fresh)))
    ⊎ (¬ (IsValidInput posted)
        × ((e : Thrown) × (validate_sync_item posted ≡ rejected e)
            × (Ops.enqueue create posted fresh ≡ (rejected e, fresh))))
enqueue-IsValidInput_example = enqueue-IsValidInput create posted fresh fresh-IsConsistent

facade-EndsWell_example : AllEndWell create fresh posted "01" options none background 7
facade-EndsWell_example =
    facade-EndsWell create fresh fresh-IsConsistent posted "01" options none background 7

enqueue_batch-IsValidInput_example :
    (All IsValidInput (elements batch)
      × IsAnswer invalid_payload
          (λ native. native.enqueue_batch (elements batch))
          (get_native_sync_provider create fresh)
          (enqueue_batch create (array batch) fresh))
    ⊎ (¬ (All IsValidInput (elements batch))
        × ((e : Thrown) × (enqueue_batch create (array batch) fresh ≡ (rejected e, fresh))
            × IsBatchError (elements batch) e))
enqueue_batch-IsValidInput_example =
    enqueue_batch-IsValidInput create batch fresh fresh-IsConsistent

abbrev prompt : Timing ℕ
prompt = record { pace = λ now w. settles_after 1 false; disturbed = λ now w. none }

abbrev idle_process : Process (World ℕ)
idle_process = record {
  state = record { active = false; cancelled = false; cancel_waiters = [] };
  clock = 7;
  next_id = 0;
  timers = [];
  env = fresh;
}

drain_until_empty-OnlySyncError_example :
    (o : Outcome DrainResult) × ((drain_until_empty create prompt none idle_process).0 ≡ some o)
    × OnlySyncError o
    × IsConsistent (drain_until_empty create prompt none idle_process).1.env
drain_until_empty-OnlySyncError_example =
    drain_until_empty-OnlySyncError create prompt none idle_process
      (record { unlocked = refl; no_waiter = refl; no_timer = refl }) fresh-IsConsistent
