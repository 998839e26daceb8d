-- ===== src/Android/Tests.antt =====
-- The Android engine on concrete queues.
use Prim.Native.String.{String}
use text.Mathlib.Text.{◌==◌ as str_eq}
use react_native_sync_provid.Common.{
  ◌≡◌, refl, true, false, List, [], ◌∷◌, map, none, some, arith, if◌then◌else◌, All, inl, inr, ◌⊎◌,
}
use react_native_sync_provid.Common.Int.{pos}
use react_native_sync_provid.Types.Enums.{SyncStrategy, BackoffStrategy, HttpMethod, SyncPriority}
use react_native_sync_provid.Types.Sync.{RetryPolicy, SyncOptions, SyncResult}
use react_native_sync_provid.Types.Errors.{SyncErrorCode}
use react_native_sync_provid.Backoff.Kotlin.{compute_delay_ms}
use react_native_sync_provid.Backoff.Delay.{overflow}
use react_native_sync_provid.Android.Rows.{
  SyncItemEntity, pending, failed, is_pending, Table, select, each, claim_pending,
}
use react_native_sync_provid.Android.Storage.{
  SyncItemInput, SyncQueueStorage, Platform, to_sync_item, enqueue, get_pending,
}
use react_native_sync_provid.Android.Attempt.{Reply, responded, run_once, response_result}
use react_native_sync_provid.Android.Dispatch.{Exchange, persisted, trusted, dispatch_item}
use react_native_sync_provid.Android.Cycle.{Conditions, undisturbed, cancelled, run_cycle}
use react_native_sync_provid.Android.Tables.{Arranges, Arranges-same, Distinct}
use react_native_sync_provid.Android.Refinement.{row_after, claimed_by, run_cycle-row_after}
use react_native_sync_provid.Android.Budget.{WithinBudget, run_cycle-WithinBudget}
use react_native_sync_provid.Android.Reports.{Reports, run_cycle-Reports}
use react_native_sync_provid.Android.Events.{IsCycleLog, run_cycle-IsCycleLog}
use react_native_sync_provid.Android.Insertion.{insert_batch-Inserted}
use react_native_sync_provid.Android.Engine.{
  IsSound, Fair, Operation, enqueues, removes, flushes, run_all, run_all-IsSound,
}
use react_native_sync_provid.Android.Urgent.{IsClaim, claim_pending-IsClaim}
use react_native_sync_provid.Android.Wake.{arm}
use react_native_sync_provid.Android.Timer.{
  Timer, idle, Reach, start, later, arms, fires, flags, connects, looks_again, calls_back,
}
use react_native_sync_provid.Android.RoundTrip.{queued, get_pending-enqueue}

abbrev row_a : SyncItemEntity
row_a = record {
  id = "a";
  method = HttpMethod.post;
  url = "https://api.example.com/a";
  headers = none;
  body = some "{}";
  content_type = none;
  priority = SyncPriority.high;
  priority_weight = 0;
  created_at = 10;
  attempts = 0;
  last_attempt_at = none;
  last_error_code = none;
  status = pending;
  metadata = none;
  next_retry_at = 0;
}

-- Attempted before, and one that still cools down.
abbrev row_b : SyncItemEntity
row_b = record row_a { id = "b"; priority_weight = 1; attempts = 2; next_retry_at = 90 }

abbrev row_c : SyncItemEntity
row_c = record row_b { id = "c"; next_retry_at = 700 }

abbrev rows : Table
rows = row_a ∷ row_b ∷ row_c ∷ []

abbrev queue : SyncQueueStorage
queue = record { items = rows; results = []; max_queue_size = 10 }

abbrev policy : RetryPolicy
policy = record {
  max_attempts = pos 3;
  backoff = BackoffStrategy.exponential;
  base_delay_ms = pos 1000;
  max_delay_ms = pos 60000;
  jitter = false;
  retry_on_status_codes = 500 ∷ 503 ∷ [];
}

abbrev options : SyncOptions
options = record {
  strategy = SyncStrategy.automatic;
  retry_policy = policy;
  batch_size = none;
  request_timeout_ms = none;
  max_queue_size = none;
  persist_queue = none;
  default_headers = none;
}

abbrev as_stored : Table → Table
as_stored items = items

abbrev reply_to : String → Reply
reply_to id = if str_eq id "a" then responded 200 else responded 503

abbrev answers : (String → Reply) → SyncItemEntity → Exchange
answers reply r = record {
  reply = reply r.id;
  started_at = 100;
  finished_at = 150;
  random = record { numerator = 1; denominator = 2 };
  current_policy = policy;
  write_throws = none;
}

-- `a` is accepted; `b` meets a server error.
abbrev calm : Conditions
calm = record {
  exchange = answers reply_to;
  finishing = as_stored;
  course = undisturbed;
  reset_works = true;
  started_at = 100;
  finished_at = 160;
}

-- Each is rejected as unauthorized, and the cycle is cancelled when the first is out.
abbrev broken_off : Conditions
broken_off = record {
  exchange = answers (λ id. responded 401);
  finishing = as_stored;
  course = cancelled (λ r. str_eq r.id "a");
  reset_works = true;
  started_at = 100;
  finished_at = 160;
}

rows-Distinct : Distinct queue.items
rows-Distinct =
    (insert_batch-Inserted (row_c ∷ row_b ∷ row_a ∷ []) [] (refl, (refl, (refl, tt)))
      (λ id. omega arith) tt).0

orders : (items : Table) → Arranges (as_stored items) items
orders items = Arranges-same items

run_cycle-row_after_example :
    (run_cycle as_stored options trusted calm queue).storage.items
    ≡ each
        (row_after as_stored options trusted calm undisturbed
          (claimed_by as_stored options trusted calm queue))
        rows
run_cycle-row_after_example =
    run_cycle-row_after as_stored options trusted calm orders orders queue rows-Distinct

-- `a` is gone, `b` waits no more: its third attempt was its last.
abbrev after_calm : Table
after_calm =
    record row_b {
      status = failed;
      attempts = 3;
      last_attempt_at = some 100;
      last_error_code = some SyncErrorCode.max_attempts_exceeded;
      next_retry_at = 0;
    }
    ∷ row_c
    ∷ []

calm_test : (run_cycle as_stored options trusted calm queue).storage.items ≡ after_calm
unfolding run_cycle dispatch_item run_once response_result compute_delay_ms overflow
calm_test = refl

run_cycle-WithinBudget_example :
    All
      (WithinBudget as_stored options trusted calm)
      (run_cycle as_stored options trusted calm queue).storage.items
run_cycle-WithinBudget_example =
    run_cycle-WithinBudget as_stored options trusted calm orders orders queue rows-Distinct
      (omega arith, (omega arith, (omega arith, tt)))

run_cycle-Reports_example :
    (result : SyncResult) × ((run_cycle as_stored options trusted calm queue).result ≡ some result)
    × Reports result (run_cycle as_stored options trusted calm queue).storage.items
run_cycle-Reports_example =
    run_cycle-Reports as_stored options trusted calm orders orders (λ c. refl) refl refl queue
      rows-Distinct

run_cycle-IsCycleLog_example :
    IsCycleLog (run_cycle as_stored options persisted broken_off queue).events
run_cycle-IsCycleLog_example =
    run_cycle-IsCycleLog as_stored options persisted broken_off orders orders queue rows-Distinct

-- The rejected `a` waits for a new token with its attempts as they were; `b` was not sent.
held_test :
    (run_cycle as_stored options persisted broken_off queue).storage.items
    ≡ record row_a {
      last_attempt_at = some 100;
      last_error_code = some SyncErrorCode.unauthorized;
      next_retry_at = 60150;
    }
      ∷ row_b
      ∷ row_c
      ∷ []
unfolding run_cycle dispatch_item run_once response_result compute_delay_ms overflow
held_test = refl

abbrev request : SyncItemInput
request = record {
  method = HttpMethod.put;
  url = "https://api.example.com/d";
  headers = some (("X-Trace", "1") ∷ []);
  body = none;
  content_type = none;
  priority = none;
  metadata = none;
}

abbrev platform : Platform
platform = record {
  encode = λ m. "X-Trace=1";
  decode = λ raw. some (("X-Trace", "1") ∷ []);
  is_valid_url = λ url. true;
  generate = λ n. "d";
}

get_pending-enqueue_example :
    Arranges (get_pending platform as_stored 0 (enqueue platform 500 request queue).1) (
      queued platform 500 "d" request
      ∷ map (to_sync_item platform) (select (λ r. is_pending r.status) queue.items))
get_pending-enqueue_example =
    get_pending-enqueue platform as_stored orders 500 request queue "d" reads_back refl
  where
    reads_back :
        (m : List (String × String))
        → (request.headers ≡ some m) ⊎ (request.metadata ≡ some m)
        → some (("X-Trace", "1") ∷ []) ≡ some m
    reads_back m (inl e) = e
    reads_back m (inr e) = absurd (ground (arith, e))

calm-Fair : Fair calm
calm-Fair = record { finishes = orders; works = λ c. refl; resets = refl }

broken_off-Fair : Fair broken_off
broken_off-Fair = record { finishes = orders; works = λ c. refl; resets = refl }

abbrev operations : List Operation
operations =
    enqueues platform 500 request
    ∷ enqueues platform 501 request
    ∷ flushes options persisted broken_off false broken_off-Fair
    ∷ flushes options trusted calm false calm-Fair
    ∷ removes "d"
    ∷ []

abbrev empty_queue : SyncQueueStorage
empty_queue = record { items = []; results = []; max_queue_size = 2 }

run_all-IsSound_example : IsSound (run_all as_stored operations empty_queue)
run_all-IsSound_example =
    run_all-IsSound as_stored orders operations empty_queue
      (record { distinct = λ id. omega arith; capped = omega arith; idle = tt })

claim_pending-IsClaim_example : IsClaim 100 1 rows (claim_pending as_stored 100 1 rows).1
claim_pending-IsClaim_example =
    claim_pending-IsClaim as_stored 100 1 rows (orders (row_a ∷ row_b ∷ []))

-- The soonest cooldown ends 40 ms later.
kick_test : (arm false true 50 none rows).kick ≡ some 40
unfolding arm
kick_test = refl

-- A timer fires offline, and the network returns before the flag is set.
abbrev returned : Timer
returned = record (idle true) { callbacks = 1; fired = 1; found_offline = 1 }

race : Reach (idle false) returned
race = later (later (later start arms) (fires refl)) connects

-- Flag, callback: one flush, and the second look finds nothing owed.
abbrev settled : Timer
settled = record (idle true) { fired = 1; flushes = 1 }

race_test : Reach (idle false) settled
race_test = later (later (later race (flags 0 refl)) (calls_back 0 refl)) (looks_again 0 refl)
