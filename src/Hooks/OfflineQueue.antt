-- ===== src/Hooks/OfflineQueue.antt =====
-- src/hooks/useOfflineQueue.ts. Its `enqueue` and `flush` are calls of the facade. While the native
-- module is available, as it is after the mount, the two refreshes do not return early.
pub mod Listener
use Prim.Native.String.{String}
use react_native_sync_provid.Common.{
  ℕ, ltb, Bool, true, false, not, ◌&&◌, ◌||◌, List, [], ◌∷◌, ◌++◌, Option, none, some,
  if◌then◌else◌,
}
use react_native_sync_provid.Types.Enums.{ConnectionStatus, ConnectionType, SyncEventType}
use react_native_sync_provid.Types.Sync.{SyncEvent, SyncItem, ConnectionState}
use react_native_sync_provid.Types.Errors.{Thrown, Outcome, fulfilled, rejected}
use react_native_sync_provid.Hooks.Results.{
  UseConnectionResult, UseOfflineQueueResult, as_sync_error, is_connected, is_metered_status,
}
use react_native_sync_provid.Hooks.Runtime.{Program}

-- `QUEUE_REFRESH_EVENTS.has(type)`.
unfoldable pub queue_refresh_events : SyncEventType → Bool
queue_refresh_events SyncEventType.item_enqueued = true
queue_refresh_events SyncEventType.item_removed = true
queue_refresh_events SyncEventType.queue_cleared = true
queue_refresh_events SyncEventType.sync_succeeded = true
queue_refresh_events SyncEventType.sync_failed = true
queue_refresh_events SyncEventType.item_succeeded = true
queue_refresh_events SyncEventType.item_failed = true
queue_refresh_events _ = false

pub record State : Type 0 where
  pub size : ℕ
  pub items : List SyncItem
  pub is_syncing : Bool
  pub connection_status : ConnectionStatus
  pub connection_type : ConnectionType
  pub error : Option Thrown
  pub cancelled : Bool
  pub subscription_id : Option String

pub data Wait : Type 0 where
  reading_queue reading_connection reading_syncing subscribing : Wait
  unsubscribing : String → Wait

pub data Settled : Type 0 where
  queue_read : Outcome (ℕ × List SyncItem) → Settled
  connection_read : Outcome ConnectionState → Settled
  syncing_read : Outcome Bool → Settled
  subscribed : Outcome String → Settled
  unsubscribed : String → Outcome (Unit {0}) → Settled

abbrev pub initial_state : State
initial_state = record {
  size = 0;
  items = [];
  is_syncing = false;
  connection_status = ConnectionStatus.unknown;
  connection_type = ConnectionType.unknown;
  error = none;
  cancelled = false;
  subscription_id = none;
}

unfoldable pub mount : Bool → State × List Wait
mount available =
    if not available
    then (initial_state, [])
    else (initial_state, reading_queue ∷ reading_connection ∷ reading_syncing ∷ subscribing ∷ [])

-- `refreshQueue` and `refreshConnection` after their `await`.
abbrev pub queue_refreshed : Outcome (ℕ × List SyncItem) → State → State
queue_refreshed (fulfilled (size, items)) s =
    if s.cancelled then s else record s { size = size; items = items }
queue_refreshed (rejected err) s =
    if s.cancelled
    then s
    else record s { error = some (as_sync_error "Failed to refresh offline queue." err) }

abbrev pub connection_refreshed : Outcome ConnectionState → State → State
connection_refreshed (fulfilled snap) s =
    if s.cancelled
    then s
    else record s { connection_status = snap.status; connection_type = snap.type }
connection_refreshed (rejected err) s = s

abbrev pub syncing_refreshed : Outcome Bool → State → State
syncing_refreshed (fulfilled b) s = if not s.cancelled then record s { is_syncing = b } else s
syncing_refreshed (rejected err) s = s

unfoldable pub settle : Settled → State → State × List Wait
settle (queue_read outcome) s = (queue_refreshed outcome s, [])
settle (connection_read outcome) s = (connection_refreshed outcome s, [])
settle (syncing_read outcome) s = (syncing_refreshed outcome s, [])
settle (subscribed (fulfilled id)) s = (record s { subscription_id = some id }, [])
settle (subscribed (rejected err)) s = (s, [])
settle (unsubscribed id outcome) s = (s, [])

-- The other statements of the listener.
unfoldable pub on_event : SyncEventType → State → State × List Wait
on_event SyncEventType.sync_started s = (record s { is_syncing = true }, [])
on_event SyncEventType.sync_succeeded s = (record s { is_syncing = false }, [])
on_event SyncEventType.sync_failed s = (record s { is_syncing = false }, [])
on_event SyncEventType.connection_changed s = (s, reading_connection ∷ [])
on_event _ s = (s, [])

unfoldable pub input : SyncEvent → State → State × List Wait
unfolding on_event queue_refresh_events
input event s =
    let (s', waits) = on_event event.type s in
    if queue_refresh_events event.type then (s', reading_queue ∷ waits) else (s', waits)

abbrev pub unsubscribe : Option String → List Wait
unsubscribe none = []
unsubscribe (some id) = unsubscribing id ∷ []

unfoldable pub cleanup : State → State × List Wait
cleanup s = (record s { cancelled = true }, unsubscribe s.subscription_id)

abbrev pub is_online : State → Bool
is_online s = is_connected s.connection_status || is_metered_status s.connection_status

abbrev pub result : State → UseOfflineQueueResult
result s = record {
  connection = record {
    status = s.connection_status;
    type = s.connection_type;
    is_online = is_online s;
    is_metered = is_metered_status s.connection_status;
  };
  size = s.size;
  items = s.items;
  is_syncing = s.is_syncing;
  is_waiting_for_connection = ltb 0 s.size && not (is_online s);
  error = s.error;
}

abbrev pub settles : Settled → Wait
settles (queue_read outcome) = reading_queue
settles (connection_read outcome) = reading_connection
settles (syncing_read outcome) = reading_syncing
settles (subscribed outcome) = subscribing
settles (unsubscribed id outcome) = unsubscribing id

abbrev pub removal : Wait → Option String
removal (unsubscribing id) = some id
removal _ = none

abbrev pub subscription : Settled → Option String
subscription (subscribed (fulfilled id)) = some id
subscription _ = none

abbrev pub use_offline_queue : Program State Wait Settled SyncEvent
use_offline_queue = record {
  settles = settles;
  settle = settle;
  input = input;
  cleanup = cleanup;
  removal = removal;
  subscription = subscription;
}
