-- ===== src/Hooks/Queue.antt =====
-- src/hooks/useSyncQueue.ts. Its `enqueue`, `enqueueBatch`, `removeItem` and `clearQueue` are calls
-- of the facade.
pub mod Listener
pub mod Loading
use Prim.Native.String.{String}
use react_native_sync_provid.Common.{
  ℕ, Bool, true, false, not, List, [], ◌∷◌, Option, none, some, if◌then◌else◌,
}
use react_native_sync_provid.Types.Enums.{SyncEventType}
use react_native_sync_provid.Types.Sync.{SyncEvent, SyncItem}
use react_native_sync_provid.Types.Errors.{Thrown, Outcome, fulfilled, rejected}
use react_native_sync_provid.Hooks.Results.{UseSyncQueueResult, as_sync_error}
use react_native_sync_provid.Hooks.Runtime.{Program}

-- `REFRESH_EVENTS.has(type)`.
unfoldable pub refresh_events : SyncEventType → Bool
refresh_events SyncEventType.item_enqueued = true
refresh_events SyncEventType.item_removed = true
refresh_events SyncEventType.queue_cleared = true
refresh_events SyncEventType.sync_succeeded = true
refresh_events SyncEventType.sync_failed = true
refresh_events SyncEventType.item_succeeded = true
refresh_events SyncEventType.item_failed = true
refresh_events _ = false

pub record State : Type 0 where
  pub size : ℕ
  pub items : List SyncItem
  pub is_loading : Bool
  pub error : Option Thrown
  pub cancelled : Bool
  pub subscription_id : Option String

-- `reading_queue` waits for both reads, `Promise.all`.
pub data Wait : Type 0 where
  reading_queue subscribing : Wait
  unsubscribing : String → Wait

pub data Settled : Type 0 where
  queue_read : Outcome (ℕ × List SyncItem) → Settled
  subscribed : Outcome String → Settled
  unsubscribed : String → Outcome (Unit {0}) → Settled

-- What comes from outside: an event, or the component's call of `refresh`.
pub data Input : Type 0 where
  event : SyncEvent → Input
  refresh_called : Input

abbrev pub initial_state : State
initial_state = record {
  size = 0;
  items = [];
  is_loading = false;
  error = none;
  cancelled = false;
  subscription_id = none;
}

-- `refresh`, up to its first `await`.
unfoldable pub refresh : Bool → State → State × List Wait
refresh available s =
    if not available then (s, []) else (record s { is_loading = true }, reading_queue ∷ [])

unfoldable pub mount : Bool → State × List Wait
mount available =
    if not available
    then (initial_state, [])
    else (record initial_state { is_loading = true }, reading_queue ∷ subscribing ∷ [])

-- The `finally` of `refresh`.
abbrev pub loaded : State → State
loaded s = if not s.cancelled then record s { is_loading = false } else s

-- `refresh` after its `await`.
abbrev pub refreshed : Outcome (ℕ × List SyncItem) → State → State
refreshed (fulfilled (size, items)) s =
    if s.cancelled then s else record s { size = size; items = items; error = none }
refreshed (rejected err) s =
    if s.cancelled
    then s
    else record s { error = some (as_sync_error "Failed to refresh sync queue." err) }

unfoldable pub settle : Settled → State → State × List Wait
settle (queue_read outcome) s = (loaded (refreshed outcome s), [])
settle (subscribed (fulfilled id)) s = (record s { subscription_id = some id }, [])
settle (subscribed (rejected err)) s = (s, [])
settle (unsubscribed id outcome) s = (s, [])

unfoldable pub input : Bool → Input → State → State × List Wait
unfolding refresh refresh_events
input available (event e) s = if refresh_events e.type then refresh available s else (s, [])
input available refresh_called s = refresh available s

abbrev pub unsubscribe : Option String → List Wait
unsubscribe none = []
unsubscribe (some id) = unsubscribing id ∷ []

unfoldable pub cleanup : State → State × List Wait
cleanup s = (record s { cancelled = true }, unsubscribe s.subscription_id)

abbrev pub result : State → UseSyncQueueResult
result s = record { size = s.size; items = s.items; is_loading = s.is_loading; error = s.error }

abbrev pub settles : Settled → Wait
settles (queue_read outcome) = reading_queue
settles (subscribed outcome) = subscribing
settles (unsubscribed id outcome) = unsubscribing id

abbrev pub removal : Wait → Option String
removal (unsubscribing id) = some id
removal _ = none

abbrev pub subscription : Settled → Option String
subscription (subscribed (fulfilled id)) = some id
subscription _ = none

abbrev pub use_sync_queue : Bool → Program State Wait Settled Input
use_sync_queue available = record {
  settles = settles;
  settle = settle;
  input = input available;
  cleanup = cleanup;
  removal = removal;
  subscription = subscription;
}
