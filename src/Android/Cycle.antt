-- ===== src/Android/Cycle.antt =====
-- android/.../http/SyncDispatcher.kt: a flush cycle, from the claim to its terminal event.
use Prim.Native.String.{String}
use react_native_sync_provid.Common.{
  ℕ, max, min, Bool, true, false, List, [], ◌∷◌, ◌++◌, map, Option, none, some, length,
  if◌then◌else◌,
}
use react_native_sync_provid.Common.Int.{pos_part}
use react_native_sync_provid.Common.Text.{◌⧺◌}
use react_native_sync_provid.Types.Number.{Number, nan, infinity, minus_infinity, finite}
use react_native_sync_provid.Types.Enums.{SyncEventType, sync_started, sync_succeeded, sync_failed}
use react_native_sync_provid.Types.Sync.{SyncOptions, SyncResult}
use react_native_sync_provid.Types.Errors.{SyncErrorCode, network_error, code_value}
use react_native_sync_provid.Android.Rows.{
  SyncItemEntity, Table, select, claim_pending, reset_in_flight,
}
use react_native_sync_provid.Android.Storage.{SyncQueueStorage, record_result}
use react_native_sync_provid.Android.Dispatch.{
  CredentialPolicy, trusted, persisted, unavailable, Emitted, ItemOutcome, succeeded,
  credential_rejected, failed_outcome, Exchange, Dispatched, is_persisted, dispatch_item,
}

-- What happens to the cycle as a whole: nothing, the claim throws (with the code of a
-- `SyncException`, if it is one), a cancellation when the dispatches that `starts` names have
-- started (with persisted headers the first of the rows starts before any other), or the write of
-- the result throws.
pub data Course : Type 0 where
  undisturbed : Course
  claim_throws record_throws : Option SyncErrorCode → Course
  cancelled : (starts : SyncItemEntity → Bool) → Course

-- What a cycle meets: what each attempt does, the order in which concurrent dispatches write,
-- whether `storage.resetInFlight()` throws, and the clock at its start and its end.
pub record Conditions : Type 0 where
  pub exchange : SyncItemEntity → Exchange
  pub finishing : Table → Table
  pub course : Course
  pub reset_works : Bool
  pub started_at : ℕ
  pub finished_at : ℕ

-- `completes`: `dispatchClaimed` does not throw.
pub record Batch : Type 0 where
  pub items : Table
  pub events : List Emitted
  pub outcomes : List ItemOutcome
  pub completes : Bool

-- A cycle that ran: `result` is absent where it throws, and `not_before` is what `onCycleFinished`
-- is given.
pub record Cycle : Type 0 where
  pub storage : SyncQueueStorage
  pub events : List Emitted
  pub result : Option SyncResult
  pub not_before : Option ℕ

abbrev pub cycle_event : SyncEventType → Option SyncErrorCode → Emitted
cycle_event type error_code = record {
  type = type;
  item_id = none;
  error_code = error_code;
  status_code = none;
  attempt = none;
}

-- `(options.batchSize?.toInt() ?: DEFAULT_BATCH_SIZE).coerceAtLeast(1)`.
abbrev pub max_int : ℕ
max_int = 2147483647

abbrev pub int_of : Number → ℕ
int_of nan = 0
int_of infinity = max_int
int_of minus_infinity = 0
int_of (finite z) = min (pos_part z) max_int

abbrev pub batch_size_of : SyncOptions → ℕ
batch_size_of options = max (elim options.batch_size [ none ↦ 25 | some n ↦ int_of n ]) 1

-- The parts of `buildResult`.
abbrev pub succeeded_ids_of : List ItemOutcome → List String
succeeded_ids_of [] = []
succeeded_ids_of (succeeded id status_code ∷ os) = id ∷ succeeded_ids_of os
succeeded_ids_of (_ ∷ os) = succeeded_ids_of os

abbrev pub failures_of : List ItemOutcome → List (String × String)
failures_of [] = []
failures_of (failed_outcome id code message ∷ os) =
    (id, code_value code ⧺ ": " ⧺ message) ∷ failures_of os
failures_of (_ ∷ os) = failures_of os

abbrev pub build_result : ℕ → ℕ → List ItemOutcome → SyncResult
build_result started_at finished_at outcomes = record {
  started_at = started_at;
  finished_at = finished_at;
  success_count = length (succeeded_ids_of outcomes);
  failure_count = length (failures_of outcomes);
  succeeded_ids = succeeded_ids_of outcomes;
  failed_ids = map (λ f. f.0) (failures_of outcomes);
  errors = failures_of outcomes;
}

abbrev pub empty_result : SyncResult
empty_result = build_result 0 0 []

-- The latest `nextRetryAt` of the rejected credentials.
abbrev pub latest_hold : List ItemOutcome → Option ℕ
latest_hold [] = none
latest_hold (credential_rejected id at ∷ os) = elim (latest_hold os) [
  | none ↦ some at
  | some other ↦ some (max at other)
]
latest_hold (_ ∷ os) = latest_hold os

abbrev pub is_rejected : ItemOutcome → Bool
is_rejected (credential_rejected id at) = true
is_rejected _ = false

module _ (scan : Table → Table) (options : SyncOptions) (credentials : CredentialPolicy)
    (conditions : Conditions) where
  abbrev pub dispatch : SyncItemEntity → Table → Dispatched
  dispatch r items = dispatch_item options credentials (conditions.exchange r) r items

  -- The writes and events of concurrent dispatches, in the order in which they end.
  abbrev pub dispatch_each : Table → Table → Table × List Emitted
  dispatch_each [] items = (items, [])
  dispatch_each (r ∷ rs) items =
      let d = dispatch r items in
      let rest = dispatch_each rs d.items in (rest.0, d.events ++ rest.1)

  -- `dispatchConcurrently`: `awaitAll` gives the outcomes in the order of the rows. An outcome does
  -- not depend on the table.
  abbrev pub dispatch_concurrently : Table → Table → Batch
  dispatch_concurrently entities items =
      let ended = dispatch_each (conditions.finishing entities) items in
      record {
        items = ended.0;
        events = ended.1;
        outcomes = map (λ r. (dispatch r items).outcome) entities;
        completes = true;
      }

  -- `resetInFlight`, which leaves the rows where it throws.
  abbrev pub give_back : Table → Table
  give_back items = if conditions.reset_works then reset_in_flight items else items

  -- `dispatchClaimed`, of rows that all start. Where `resetInFlight` throws, so does it.
  abbrev pub dispatch_claimed : Table → Table → Batch
  dispatch_claimed [] items = record { items = items; events = []; outcomes = []; completes = true }
  dispatch_claimed (r ∷ rs) items =
      if is_persisted credentials
      then (let first = dispatch r items in
          if is_rejected first.outcome
          then record {
            items = give_back first.items;
            events = first.events;
            outcomes = first.outcome ∷ [];
            completes = conditions.reset_works;
          }
          else (let rest = dispatch_concurrently rs first.items in
              record {
                items = rest.items;
                events = first.events ++ rest.events;
                outcomes = first.outcome ∷ rest.outcomes;
                completes = rest.completes;
              }))
      else dispatch_concurrently (r ∷ rs) items

  -- The terminal event of a cycle that throws.
  abbrev pub aborted : Option SyncErrorCode → Emitted
  aborted code = cycle_event sync_failed (some (elim code [ none ↦ network_error | some c ↦ c ]))

  abbrev pub terminal : SyncResult → Emitted
  terminal result =
      cycle_event (elim result.failed_ids [ [] ↦ sync_succeeded | id ∷ ids ↦ sync_failed ]) none

  -- The rest of `runCycle`, after the claim.
  abbrev pub after_claim : SyncQueueStorage → Course → Table × Table → Cycle
  after_claim s undisturbed claim =
      let batch = dispatch_claimed claim.1 claim.0 in
      let result = build_result conditions.started_at conditions.finished_at batch.outcomes in
      record {
        storage =
            if batch.completes
            then record_result result (record s { items = batch.items })
            else record s { items = batch.items };
        events =
            cycle_event sync_started none ∷ batch.events
            ++ (if batch.completes then terminal result else aborted none) ∷ [];
        result = if batch.completes then some result else none;
        not_before = if batch.completes then latest_hold batch.outcomes else none;
      }
  after_claim s (record_throws code) claim =
      let batch = dispatch_claimed claim.1 claim.0 in
      record {
        storage = record s { items = batch.items };
        events =
            cycle_event sync_started none ∷ batch.events
            ++ aborted (if batch.completes then code else none) ∷ [];
        result = none;
        not_before = if batch.completes then latest_hold batch.outcomes else none;
      }
  after_claim s (cancelled starts) claim =
      let batch = dispatch_claimed (select starts claim.1) claim.0 in
      record {
        storage = record s { items = give_back batch.items };
        events = cycle_event sync_started none ∷ batch.events ++ aborted none ∷ [];
        result = none;
        not_before = none;
      }
  after_claim s (claim_throws code) claim = record {
    storage = s;
    events = cycle_event sync_started none ∷ aborted code ∷ [];
    result = none;
    not_before = none;
  }

  -- `runCycle`, with `abortCycle`.
  unfoldable pub run_cycle : SyncQueueStorage → Cycle
  run_cycle s =
      after_claim s conditions.course
        (claim_pending scan conditions.started_at (batch_size_of options) s.items)

-- `flush`: where nothing may be dispatched no cycle starts.
unfoldable pub flush :
    (Table → Table) → SyncOptions → CredentialPolicy → Conditions → Bool → SyncQueueStorage → Cycle
unfolding run_cycle
flush scan options credentials conditions paused s =
    let nothing : Cycle = record {
      storage = s;
      events = [];
      result = some empty_result;
      not_before = none;
    } in
    if paused then nothing else elim credentials [
      | unavailable ↦ nothing
      | trusted ↦ run_cycle scan options trusted conditions s
      | persisted ↦ run_cycle scan options persisted conditions s
    ]
