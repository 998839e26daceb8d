-- ===== src/Hooks/Status.antt =====
-- src/hooks/useSyncStatus.ts. Its `flush`, `pause` and `resume` are calls of the facade.
pub mod Listener
use Prim.Native.String.{String}
use react_native_sync_provid.Common.{
  Bool, true, false, not, List, [], ◌∷◌, Option, none, some, if◌then◌else◌,
}
use react_native_sync_provid.Common.Int.{pos}
use react_native_sync_provid.Types.Number.{Number, finite}
use react_native_sync_provid.Types.Enums.{SyncEventType}
use react_native_sync_provid.Types.Sync.{SyncEvent, SyncResult}
use react_native_sync_provid.Types.Errors.{Thrown, Outcome, fulfilled, rejected}
use react_native_sync_provid.Hooks.Results.{UseSyncStatusResult, as_sync_error}
use react_native_sync_provid.Hooks.Runtime.{Program}

-- The state cells, the ref, and the variable of the effect.
pub record State : Type 0 where
  pub is_syncing : Bool
  pub is_paused : Bool
  pub progress : Option Number
  pub last_result : Option SyncResult
  pub error : Option Thrown
  pub cancelled : Bool
  pub subscription_id : Option String

pub data Wait : Type 0 where
  reading_initial subscribing rereading : Wait
  unsubscribing : String → Wait

pub data Settled : Type 0 where
  initial_read : Outcome (Option SyncResult) → Settled
  subscribed : Outcome String → Settled
  reread : Outcome (Option SyncResult) → Settled
  unsubscribed : String → Outcome (Unit {0}) → Settled

abbrev pub initial_state : State
initial_state = record {
  is_syncing = false;
  is_paused = false;
  progress = none;
  last_result = none;
  error = none;
  cancelled = false;
  subscription_id = none;
}

unfoldable pub mount : Bool → State × List Wait
mount available =
    if not available then (initial_state, []) else (initial_state, reading_initial ∷ [])

-- A `setLastResult` behind `!cancelledRef.current && res !== undefined`.
abbrev pub set_last_result : Option SyncResult → State → State
set_last_result none s = s
set_last_result (some r) s = if not s.cancelled then record s { last_result = some r } else s

abbrev pub set_error : Thrown → State → State
set_error err s =
    if not s.cancelled
    then record s { error = some (as_sync_error "Failed to read last sync result." err) }
    else s

abbrev pub after_initial : State → State × List Wait
after_initial s = if s.cancelled then (s, []) else (s, subscribing ∷ [])

unfoldable pub settle : Settled → State → State × List Wait
settle (initial_read (fulfilled initial)) s = after_initial (set_last_result initial s)
settle (initial_read (rejected err)) s = after_initial (set_error err s)
settle (subscribed (fulfilled id)) s = (record s { subscription_id = some id }, [])
settle (subscribed (rejected err)) s = (s, [])
settle (reread (fulfilled res)) s = (set_last_result res s, [])
settle (reread (rejected err)) s = (s, [])
settle (unsubscribed id outcome) s = (s, [])

abbrev pub set_progress : Option Number → State → State
set_progress none s = s
set_progress (some n) s = record s { progress = some n }

-- The `switch` of the listener.
unfoldable pub on_event : SyncEventType → Option Number → State → State × List Wait
on_event SyncEventType.sync_started progress s =
    (record s { is_syncing = true; progress = some (finite (pos 0)) }, [])
on_event SyncEventType.sync_progress progress s = (set_progress progress s, [])
on_event SyncEventType.sync_succeeded progress s =
    (record s { is_syncing = false; progress = none }, rereading ∷ [])
on_event SyncEventType.sync_failed progress s =
    (record s { is_syncing = false; progress = none }, rereading ∷ [])
on_event SyncEventType.paused progress s = (record s { is_paused = true }, [])
on_event SyncEventType.resumed progress s = (record s { is_paused = false }, [])
on_event _ progress s = (s, [])

unfoldable pub input : SyncEvent → State → State × List Wait
unfolding on_event
input event s = on_event event.type event.progress s

abbrev pub unsubscribe : Option String → List Wait
unsubscribe none = []
unsubscribe (some id) = unsubscribing id ∷ []

unfoldable pub cleanup : State → State × List Wait
cleanup s = (record s { cancelled = true }, unsubscribe s.subscription_id)

-- What the component is given.
abbrev pub result : State → UseSyncStatusResult
result s = record {
  is_syncing = s.is_syncing;
  is_paused = s.is_paused;
  progress = s.progress;
  last_result = s.last_result;
  error = s.error;
}

abbrev pub settles : Settled → Wait
settles (initial_read outcome) = reading_initial
settles (subscribed outcome) = subscribing
settles (reread outcome) = rereading
settles (unsubscribed id outcome) = unsubscribing id

abbrev pub removal : Wait → Option String
removal (unsubscribing id) = some id
removal _ = none

abbrev pub subscription : Settled → Option String
subscription (subscribed (fulfilled id)) = some id
subscription _ = none

abbrev pub use_sync_status : Program State Wait Settled SyncEvent
use_sync_status = record {
  settles = settles;
  settle = settle;
  input = input;
  cleanup = cleanup;
  removal = removal;
  subscription = subscription;
}
