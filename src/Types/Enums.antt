-- ===== src/Types/Enums.antt =====
-- src/types/enums.ts: each `as const` object is a data type; where the code uses the string
-- values themselves, a function gives them.
use Prim.Native.String.{String}
use mathlib.Core.List.{List, [], ◌∷◌}

pub data ConnectionStatus : Type 0 where
  connected disconnected metered unknown : ConnectionStatus

pub data ConnectionType : Type 0 where
  wifi cellular ethernet bluetooth vpn other none unknown : ConnectionType

pub data SyncStrategy : Type 0 where
  automatic manual opportunistic : SyncStrategy

pub data SyncPriority : Type 0 where
  high normal low : SyncPriority

abbrev pub priority_value : SyncPriority → String
priority_value high = "HIGH"
priority_value normal = "NORMAL"
priority_value low = "LOW"

pub data BackoffStrategy : Type 0 where
  linear exponential fibonacci : BackoffStrategy

pub data NetworkQuality : Type 0 where
  offline poor moderate good excellent : NetworkQuality

pub data HttpMethod : Type 0 where
  get post put patch delete : HttpMethod

abbrev pub method_value : HttpMethod → String
method_value get = "GET"
method_value post = "POST"
method_value put = "PUT"
method_value patch = "PATCH"
method_value delete = "DELETE"

pub data SyncEventType : Type 0 where
  item_enqueued item_removed sync_started sync_progress sync_succeeded sync_failed : SyncEventType
  item_succeeded item_failed item_retrying queue_cleared connection_changed : SyncEventType
  paused resumed background_sync_started background_sync_completed : SyncEventType

-- `Object.values(HttpMethod)` and `Object.values(SyncPriority)`.
abbrev pub http_methods : List HttpMethod
http_methods = get ∷ post ∷ put ∷ patch ∷ delete ∷ []

abbrev pub sync_priorities : List SyncPriority
sync_priorities = high ∷ normal ∷ low ∷ []

abbrev pub event_value : SyncEventType → String
event_value item_enqueued = "ITEM_ENQUEUED"
event_value item_removed = "ITEM_REMOVED"
event_value sync_started = "SYNC_STARTED"
event_value sync_progress = "SYNC_PROGRESS"
event_value sync_succeeded = "SYNC_SUCCEEDED"
event_value sync_failed = "SYNC_FAILED"
event_value item_succeeded = "ITEM_SUCCEEDED"
event_value item_failed = "ITEM_FAILED"
event_value item_retrying = "ITEM_RETRYING"
event_value queue_cleared = "QUEUE_CLEARED"
event_value connection_changed = "CONNECTION_CHANGED"
event_value paused = "PAUSED"
event_value resumed = "RESUMED"
event_value background_sync_started = "BACKGROUND_SYNC_STARTED"
event_value background_sync_completed = "BACKGROUND_SYNC_COMPLETED"
