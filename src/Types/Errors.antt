-- ===== src/Types/Errors.antt =====
-- src/errors: error codes, validation issues and `SyncError`, and the values that can be thrown.
use Prim.Native.String.{String}
use react_native_sync_provid.Common.{ℕ, List, Option}
use react_native_sync_provid.Types.Value.{Value, undefined}

pub data SyncErrorCode : Type 0 where
  network_error server_error invalid_payload queue_full native_module_unavailable : SyncErrorCode
  background_task_registration_failed invalid_url unauthorized timeout : SyncErrorCode
  max_attempts_exceeded duplicate_item drain_already_active : SyncErrorCode

abbrev pub code_value : SyncErrorCode → String
code_value network_error = "NETWORK_ERROR"
code_value server_error = "SERVER_ERROR"
code_value invalid_payload = "INVALID_PAYLOAD"
code_value queue_full = "QUEUE_FULL"
code_value native_module_unavailable = "NATIVE_MODULE_UNAVAILABLE"
code_value background_task_registration_failed = "BACKGROUND_TASK_REGISTRATION_FAILED"
code_value invalid_url = "INVALID_URL"
code_value unauthorized = "UNAUTHORIZED"
code_value timeout = "TIMEOUT"
code_value max_attempts_exceeded = "MAX_ATTEMPTS_EXCEEDED"
code_value duplicate_item = "DUPLICATE_ITEM"
code_value drain_already_active = "DRAIN_ALREADY_ACTIVE"

-- An absent `value` is `undefined`.
pub record ValidationIssue : Type 0 where
  pub field : String
  pub reason : String
  pub value : Value
  pub item_index : Option ℕ

-- What a `throw` can carry: a `SyncError` (code, message, cause, validation errors), another
-- `Error` with its `message`, or any other value. An absent cause is `thrown undefined`.
pub data Thrown : Type 0 where
  sync_error : SyncErrorCode → String → Thrown → Option (List ValidationIssue) → Thrown
  error : Value → Thrown
  thrown : Value → Thrown

-- `new SyncError(code, message, cause?, validationErrors?)`. The prototype is set, so that
-- `instanceof SyncError` holds of exactly the first constructor.
abbrev pub new_sync_error : SyncErrorCode → String → Thrown → Option (List ValidationIssue) → Thrown
new_sync_error code message cause validation_errors =
    sync_error code message cause validation_errors

abbrev pub no_cause : Thrown
no_cause = thrown undefined

-- How a promise, or a call that may throw, ends.
pub data Outcome {ℓ} (A : Type ℓ) : Type ℓ where
  fulfilled : A → Outcome A
  rejected : Thrown → Outcome A

infixl 5 ◌>>=◌ ◌>>◌
abbrev pub ◌>>=◌ {ℓ κ} : {A : Type ℓ} {B : Type κ} → Outcome A → (A → Outcome B) → Outcome B
fulfilled a >>= f = f a
rejected e >>= f = rejected e

abbrev pub ◌>>◌ {ℓ} : {B : Type ℓ} → Outcome (Unit {0}) → Outcome B → Outcome B
m >> k = m >>= λ _. k
