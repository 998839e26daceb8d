-- ===== src/Types/Sync.antt =====
-- src/types/sync.ts, drain.ts and connection.ts: the records that cross the bridge. What native
-- reports (timestamps, counts) is a natural number; what a caller supplies is a `Number`.
use Prim.Native.String.{String}
use react_native_sync_provid.Common.{ℕ, Bool, List, Option}
use react_native_sync_provid.Common.Int.{ℤ}
use react_native_sync_provid.Types.Number.{Number}
use react_native_sync_provid.Types.Enums.{
  ConnectionStatus, ConnectionType, SyncStrategy, SyncPriority, BackoffStrategy, HttpMethod,
  SyncEventType,
}
use react_native_sync_provid.Types.Errors.{SyncErrorCode}

pub record SyncItem : Type 0 where
  pub id : String
  pub method : HttpMethod
  pub url : String
  pub headers : Option (List (String × String))
  pub body : Option String
  pub content_type : Option String
  pub priority : Option SyncPriority
  pub created_at : ℕ
  pub attempts : ℕ
  pub next_retry_at : ℕ
  pub metadata : Option (List (String × String))

-- The delays are integers, and may be negative.
pub record RetryPolicy : Type 0 where
  pub max_attempts : ℤ
  pub backoff : BackoffStrategy
  pub base_delay_ms : ℤ
  pub max_delay_ms : ℤ
  pub jitter : Bool
  pub retry_on_status_codes : List ℕ

pub record SyncOptions : Type 0 where
  pub strategy : SyncStrategy
  pub retry_policy : RetryPolicy
  pub batch_size : Option Number
  pub request_timeout_ms : Option Number
  pub max_queue_size : Option Number
  pub persist_queue : Option Bool
  pub default_headers : Option (List (String × String))

pub record SyncResult : Type 0 where
  pub started_at : ℕ
  pub finished_at : ℕ
  pub success_count : ℕ
  pub failure_count : ℕ
  pub succeeded_ids : List String
  pub failed_ids : List String
  pub errors : List (String × String)

pub record SyncEvent : Type 0 where
  pub type : SyncEventType
  pub timestamp : ℕ
  pub item_id : Option String
  pub progress : Option Number
  pub error_code : Option SyncErrorCode
  pub status_code : Option ℕ
  pub attempt : Option ℕ
  pub connection_status : Option ConnectionStatus
  pub metadata : Option (List (String × String))

pub record BackgroundSyncOptions : Type 0 where
  pub minimum_interval_ms : Number
  pub requires_charging : Option Bool
  pub requires_unmetered_network : Option Bool
  pub requires_device_idle : Option Bool
  pub foreground_only : Option Bool
  pub task_identifier : Option String

pub record ConnectionState : Type 0 where
  pub status : ConnectionStatus
  pub type : ConnectionType
  pub is_internet_reachable : Option Bool
  pub is_expensive : Option Bool

pub data DrainStoppedReason : Type 0 where
  empty max_iterations timeout cancelled : DrainStoppedReason

pub record DrainOptions : Type 0 where
  pub max_iterations : Option Number
  pub timeout_ms : Option Number
  pub delay_between_cycles_ms : Option Number

pub record DrainResult : Type 0 where
  pub iterations : ℕ
  pub items_dispatched : ℕ
  pub queue_remaining : ℕ
  pub stopped_reason : DrainStoppedReason
