-- ===== src/Web/Ops.antt =====
-- src/index.web.tsx: the functions of the web bundle, which has no native module.
use Prim.Native.String.{String}
use react_native_sync_provid.Common.{ℕ, Bool, false, List, Option, none}
use react_native_sync_provid.Common.Text.{◌⧺◌}
use react_native_sync_provid.Types.Value.{Value}
use react_native_sync_provid.Types.Sync.{
  SyncItem, SyncOptions, SyncResult, BackgroundSyncOptions, ConnectionState, DrainOptions,
  DrainResult,
}
use react_native_sync_provid.Types.Errors.{
  native_module_unavailable, Thrown, new_sync_error, no_cause, Outcome, fulfilled, rejected,
}

-- `unavailable(method)`.
unfoldable pub unavailable : String → Thrown
unavailable method =
    new_sync_error native_module_unavailable
      ("react-native-sync-provider." ⧺ method ⧺ " is not available on web.") no_cause none

unfoldable pub is_native_module_available : Bool
is_native_module_available = false

unfoldable pub enqueue : Value → Outcome String
enqueue _ = rejected (unavailable "enqueue")

unfoldable pub enqueue_batch : Value → Outcome (List String)
enqueue_batch _ = rejected (unavailable "enqueueBatch")

unfoldable pub remove_item : String → Outcome Bool
remove_item _ = rejected (unavailable "removeItem")

unfoldable pub clear_queue : Outcome (Unit {0})
clear_queue = rejected (unavailable "clearQueue")

unfoldable pub get_queue_size : Outcome ℕ
get_queue_size = rejected (unavailable "getQueueSize")

unfoldable pub get_pending_items : Outcome (List SyncItem)
get_pending_items = rejected (unavailable "getPendingItems")

unfoldable pub flush : Outcome SyncResult
flush = rejected (unavailable "flush")

unfoldable pub drain_until_empty : Option DrainOptions → Outcome DrainResult
drain_until_empty _ = rejected (unavailable "drainUntilEmpty")

unfoldable pub pause_sync : Outcome (Unit {0})
pause_sync = rejected (unavailable "pauseSync")

unfoldable pub resume_sync : Outcome (Unit {0})
resume_sync = rejected (unavailable "resumeSync")

unfoldable pub is_syncing : Outcome Bool
is_syncing = rejected (unavailable "isSyncing")

unfoldable pub configure_sync : SyncOptions → Outcome (Unit {0})
configure_sync _ = rejected (unavailable "configureSync")

unfoldable pub get_sync_config : Outcome SyncOptions
get_sync_config = rejected (unavailable "getSyncConfig")

unfoldable pub get_last_sync_result : Outcome (Option SyncResult)
get_last_sync_result = rejected (unavailable "getLastSyncResult")

unfoldable pub get_sync_history : Option ℕ → Outcome (List SyncResult)
get_sync_history _ = rejected (unavailable "getSyncHistory")

unfoldable pub clear_sync_history : Outcome (Unit {0})
clear_sync_history = rejected (unavailable "clearSyncHistory")

unfoldable pub get_connection_status : Outcome ConnectionState
get_connection_status = rejected (unavailable "getConnectionStatus")

unfoldable pub enable_background_sync : BackgroundSyncOptions → Outcome (Unit {0})
enable_background_sync _ = rejected (unavailable "enableBackgroundSync")

unfoldable pub disable_background_sync : Outcome (Unit {0})
disable_background_sync = rejected (unavailable "disableBackgroundSync")

unfoldable pub is_background_sync_enabled : Outcome Bool
is_background_sync_enabled = rejected (unavailable "isBackgroundSyncEnabled")

unfoldable pub cancel_drain : Outcome (Unit {0})
cancel_drain = fulfilled tt

-- The listener is known by a number.
unfoldable pub add_sync_event_listener : ℕ → Outcome String
add_sync_event_listener _ = fulfilled ""

unfoldable pub remove_sync_event_listener : String → Outcome (Unit {0})
remove_sync_event_listener _ = fulfilled tt
