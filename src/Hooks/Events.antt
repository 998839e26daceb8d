-- ===== src/Hooks/Events.antt =====
-- src/hooks/useSyncEvents.ts: one run of its effect, from a mount (or `enabled` turning true) to the
-- cleanup.
pub mod Lifecycle
use Prim.Native.String.{String}
use text.Mathlib.Text.{◌==◌ as str_eq}
use react_native_sync_provid.Common.{
  Bool, true, false, not, ◌&&◌, ◌||◌, List, [], ◌∷◌, Option, none, some, if◌then◌else◌,
}
use react_native_sync_provid.Types.Enums.{SyncEventType, event_value}
use react_native_sync_provid.Types.Sync.{SyncEvent}
use react_native_sync_provid.Types.Errors.{Outcome, fulfilled, rejected}
use react_native_sync_provid.Hooks.Runtime.{Program}

-- `types_ref`, and the variables of the effect. What `onEvent` does is the caller's: `handed` is
-- what it was called with, newest first.
pub record State : Type 0 where
  pub types_ref : Option (List SyncEventType)
  pub handed : List SyncEvent
  pub cancelled : Bool
  pub subscription_id : Option String

pub data Wait : Type 0 where
  subscribing : Wait
  unsubscribing : String → Wait

pub data Settled : Type 0 where
  subscribed : Outcome String → Settled
  unsubscribed : String → Outcome (Unit {0}) → Settled

-- An event, or a render with other `types`.
pub data Input : Type 0 where
  event : SyncEvent → Input
  rendered : Option (List SyncEventType) → Input

-- `types.includes(type)`.
unfoldable pub includes : List SyncEventType → SyncEventType → Bool
includes [] type = false
includes (t ∷ ts) type = str_eq (event_value t) (event_value type) || includes ts type

unfoldable pub mount : Bool → Bool → Option (List SyncEventType) → State × List Wait
mount enabled available types =
    let initial : State = record {
      types_ref = types;
      handed = [];
      cancelled = false;
      subscription_id = none;
    } in
    if not enabled
    then (initial, [])
    else if not available
    then (initial, [])
    else (initial, subscribing ∷ [])

-- The test of the listener: `filter === undefined || filter.includes(event.type)`.
abbrev pub wants : Option (List SyncEventType) → SyncEvent → Bool
wants none e = true
wants (some types) e = includes types e.type

-- After the subscription: a component that is gone by then cleans up.
unfoldable pub settle : Settled → State → State × List Wait
settle (subscribed (fulfilled id)) s =
    if s.cancelled
    then (record s { subscription_id = none }, unsubscribing id ∷ [])
    else (record s { subscription_id = some id }, [])
settle (subscribed (rejected err)) s = (s, [])
settle (unsubscribed id outcome) s = (s, [])

unfoldable pub input : Input → State → State × List Wait
unfolding includes
input (event e) s =
    if wants s.types_ref e then (record s { handed = e ∷ s.handed }, []) else (s, [])
input (rendered types) s = (record s { types_ref = types }, [])

abbrev pub unsubscribe : Option String → List Wait
unsubscribe none = []
unsubscribe (some id) = unsubscribing id ∷ []

unfoldable pub cleanup : State → State × List Wait
cleanup s = (record s { cancelled = true; subscription_id = none }, unsubscribe s.subscription_id)

abbrev pub settles : Settled → Wait
settles (subscribed outcome) = subscribing
settles (unsubscribed id outcome) = unsubscribing id

abbrev pub removal : Wait → Option String
removal (unsubscribing id) = some id
removal _ = none

abbrev pub subscription : Settled → Option String
subscription (subscribed (fulfilled id)) = some id
subscription _ = none

abbrev pub use_sync_events : Program State Wait Settled Input
use_sync_events = record {
  settles = settles;
  settle = settle;
  input = input;
  cleanup = cleanup;
  removal = removal;
  subscription = subscription;
}
