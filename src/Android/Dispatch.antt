-- ===== src/Android/Dispatch.antt =====
-- android/.../http/SyncDispatcher.kt: the dispatch of one claimed row, its write and its event.
use Prim.Native.String.{String}
use react_native_sync_provid.Common.{
  ℕ, ◌+◌, max, Bool, true, false, ◌&&◌, leb, List, [], ◌∷◌, Option, none, some, if◌then◌else◌,
}
use react_native_sync_provid.Common.Int.{pos, max_ℤ, leb_ℤ}
use react_native_sync_provid.Types.Enums.{SyncEventType, item_succeeded, item_failed, item_retrying}
use react_native_sync_provid.Types.Sync.{SyncOptions, RetryPolicy}
use react_native_sync_provid.Types.Errors.{
  SyncErrorCode, network_error, unauthorized, max_attempts_exceeded,
}
use react_native_sync_provid.Backoff.Exact.{Fraction}
use react_native_sync_provid.Backoff.ExactKotlin.{max_long}
use react_native_sync_provid.Backoff.Kotlin.{compute_delay_ms, has_budget}
use react_native_sync_provid.Android.Rows.{SyncItemEntity, Table}
use react_native_sync_provid.Android.Storage.{mark_succeeded, mark_retry, mark_failed}
use react_native_sync_provid.Android.Attempt.{
  Reply, AttemptResult, success, failure, timeout_ms, run_once,
}

pub data CredentialPolicy : Type 0 where
  trusted persisted unavailable : CredentialPolicy

-- What `SyncEventEmitter.event` is given; it adds the time.
pub record Emitted : Type 0 where
  pub type : SyncEventType
  pub item_id : Option String
  pub error_code : Option SyncErrorCode
  pub status_code : Option ℕ
  pub attempt : Option ℕ

pub data ItemOutcome : Type 0 where
  succeeded : String → ℕ → ItemOutcome
  rescheduled : String → ItemOutcome
  credential_rejected : String → ℕ → ItemOutcome
  failed_outcome : String → SyncErrorCode → String → ItemOutcome

-- What one attempt meets: how the request ends, the clock before and after it, the random number
-- of the backoff, the retry policy in force when the response is there, and what the write that
-- follows throws, if it does.
pub record Exchange : Type 0 where
  pub reply : Reply
  pub started_at : ℕ
  pub finished_at : ℕ
  pub random : Fraction
  pub current_policy : RetryPolicy
  pub write_throws : Option String

-- What a dispatch leaves: the table, the events it sent, and what it returns.
pub record Dispatched : Type 0 where
  pub items : Table
  pub events : List Emitted
  pub outcome : ItemOutcome

abbrev pub min_credential_hold_ms : ℕ
min_credential_hold_ms = 60000

abbrev pub item_event :
    SyncEventType → SyncItemEntity → Option SyncErrorCode → Option ℕ → ℕ → Emitted
item_event type entity error_code status_code attempt = record {
  type = type;
  item_id = some entity.id;
  error_code = error_code;
  status_code = status_code;
  attempt = some attempt;
}

-- The sum of two times, as a `Long`. One that does not fit wraps round to a negative number, which
-- is 0 here: both are `<=` any clock and not `> 0`, so that the row is due at once.
abbrev pub plus_long : ℕ → ℕ → ℕ
plus_long a b = if leb (a + b) max_long then a + b else 0

abbrev pub is_persisted : CredentialPolicy → Bool
is_persisted persisted = true
is_persisted _ = false

abbrev pub is_unauthorized : SyncErrorCode → Bool
is_unauthorized unauthorized = true
is_unauthorized _ = false

module _ (options : SyncOptions) (credentials : CredentialPolicy) (exchange : Exchange)
    (entity : SyncItemEntity) (items : Table) where
  -- A write that throws ends the dispatch in the `getOrElse` of `dispatchRecordingOutcome`.
  abbrev pub after_write : Table → List Emitted → ItemOutcome → Dispatched
  after_write written events outcome = elim exchange.write_throws [
    | some message ↦ record {
      items = items;
      events = [];
      outcome = failed_outcome entity.id network_error message;
    }
    | none ↦ record { items = written; events = events; outcome = outcome }
  ]

  abbrev pub policy : RetryPolicy
  policy = options.retry_policy

  -- This attempt is one past those that were persisted.
  abbrev pub attempt : ℕ
  attempt = entity.attempts + 1

  abbrev pub backoff_ms : ℕ
  backoff_ms = compute_delay_ms exchange.random (pos attempt) policy

  abbrev pub reschedule : SyncErrorCode → Option ℕ → Dispatched
  reschedule code status_code =
      let next_retry_at = plus_long exchange.finished_at backoff_ms in
      after_write (mark_retry entity.id attempt exchange.started_at code next_retry_at items)
        (item_event item_retrying entity (some code) status_code attempt ∷ [])
        (rescheduled entity.id)

  abbrev pub hold_for_credential_renewal : SyncErrorCode → Option ℕ → Dispatched
  hold_for_credential_renewal code status_code =
      let next_retry_at = plus_long exchange.finished_at (max backoff_ms min_credential_hold_ms) in
      after_write
        (mark_retry entity.id entity.attempts exchange.started_at code next_retry_at items)
        (item_event item_retrying entity (some code) status_code attempt ∷ [])
        (credential_rejected entity.id next_retry_at)

  abbrev pub fail_terminally : SyncErrorCode → String → Option ℕ → Bool → Dispatched
  fail_terminally code message status_code retryable =
      let terminal_code = if retryable then max_attempts_exceeded else code in
      after_write (mark_failed entity.id attempt exchange.started_at terminal_code items)
        (item_event item_failed entity (some terminal_code) status_code attempt ∷ [])
        (failed_outcome entity.id terminal_code message)

  abbrev pub after_attempt : AttemptResult → Dispatched
  after_attempt (success status_code) =
      after_write (mark_succeeded entity.id items)
        (item_event item_succeeded entity none (some status_code) attempt ∷ [])
        (succeeded entity.id status_code)
  after_attempt (failure code message status_code retryable) =
      if is_persisted credentials && is_unauthorized code
      then hold_for_credential_renewal code status_code
      else if retryable && has_budget attempt policy
      then reschedule code status_code
      else fail_terminally code message status_code retryable

  -- `dispatchItem` within `dispatchRecordingOutcome`.
  unfoldable pub dispatch_item : Dispatched
  dispatch_item =
      if leb_ℤ (max_ℤ policy.max_attempts (pos 1)) (pos entity.attempts)
      then after_write
          (mark_failed entity.id entity.attempts exchange.started_at max_attempts_exceeded items)
          (item_event item_failed entity (some max_attempts_exceeded) none entity.attempts ∷ [])
          (failed_outcome entity.id max_attempts_exceeded "Retry budget exhausted")
      else after_attempt
          (run_once (timeout_ms options) entity.id exchange.current_policy exchange.reply)
