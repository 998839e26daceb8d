-- ===== src/Hooks/Connection.antt =====
-- src/hooks/useConnection.ts.
pub mod Listener
use Prim.Native.String.{String}
use react_native_sync_provid.Common.{
  Bool, true, false, not, ◌||◌, List, [], ◌∷◌, Option, none, some, if◌then◌else◌,
}
use react_native_sync_provid.Types.Enums.{ConnectionStatus, ConnectionType}
use react_native_sync_provid.Types.Sync.{SyncEvent, ConnectionState}
use react_native_sync_provid.Types.Errors.{Outcome, fulfilled, rejected}
use react_native_sync_provid.Hooks.Results.{
  UseConnectionResult, is_connected, is_metered_status, is_connection_changed,
}
use react_native_sync_provid.Hooks.Runtime.{Program}

-- `INITIAL`.
abbrev pub initial_result : UseConnectionResult
initial_result = record {
  status = ConnectionStatus.unknown;
  type = ConnectionType.unknown;
  is_online = false;
  is_metered = false;
}

unfoldable pub derive_result : ConnectionStatus → ConnectionType → UseConnectionResult
derive_result status type = record {
  status = status;
  type = type;
  is_online = is_connected status || is_metered_status status;
  is_metered = is_metered_status status;
}

-- The state cell, and the variables of the effect.
pub record State : Type 0 where
  pub result : UseConnectionResult
  pub cancelled : Bool
  pub subscription_id : Option String

-- What the hook waits for. `refetching` remembers the status of the event.
pub data Wait : Type 0 where
  probing subscribing : Wait
  refetching : ConnectionStatus → Wait
  unsubscribing : String → Wait

pub data Settled : Type 0 where
  probed : Outcome ConnectionState → Settled
  subscribed : Outcome String → Settled
  refetched : ConnectionStatus → Outcome ConnectionState → Settled
  unsubscribed : String → Outcome (Unit {0}) → Settled

-- The effect, by whether the native module is available.
unfoldable pub mount : Bool → State × List Wait
mount available =
    let initial : State = record {
      result = initial_result;
      cancelled = false;
      subscription_id = none;
    } in
    if not available then (initial, []) else (initial, probing ∷ [])

abbrev pub set_result : ConnectionStatus → ConnectionType → State → State
set_result status type s =
    if not s.cancelled then record s { result = derive_result status type } else s

abbrev pub after_probe : State → State × List Wait
after_probe s = if s.cancelled then (s, []) else (s, subscribing ∷ [])

unfoldable pub settle : Settled → State → State × List Wait
unfolding derive_result
settle (probed (fulfilled snapshot)) s = after_probe (set_result snapshot.status snapshot.type s)
settle (probed (rejected e)) s = after_probe s
settle (subscribed (fulfilled id)) s = (record s { subscription_id = some id }, [])
settle (subscribed (rejected e)) s = (s, [])
settle (refetched status (fulfilled snap)) s = (set_result snap.status snap.type s, [])
settle (refetched status (rejected e)) s = (set_result status s.result.type s, [])
settle (unsubscribed id outcome) s = (s, [])

abbrev pub refetch : Option ConnectionStatus → List Wait
refetch none = []
refetch (some status) = refetching status ∷ []

-- The listener.
unfoldable pub input : SyncEvent → State → State × List Wait
input event s =
    if not (is_connection_changed event.type) then (s, []) else (s, refetch event.connection_status)

abbrev pub unsubscribe : Option String → List Wait
unsubscribe none = []
unsubscribe (some id) = unsubscribing id ∷ []

unfoldable pub cleanup : State → State × List Wait
cleanup s = (record s { cancelled = true }, unsubscribe s.subscription_id)

abbrev pub settles : Settled → Wait
settles (probed outcome) = probing
settles (subscribed outcome) = subscribing
settles (refetched status outcome) = refetching status
settles (unsubscribed id outcome) = unsubscribing id

abbrev pub removal : Wait → Option String
removal (unsubscribing id) = some id
removal _ = none

abbrev pub subscription : Settled → Option String
subscription (subscribed (fulfilled id)) = some id
subscription _ = none

abbrev pub use_connection : Program State Wait Settled SyncEvent
use_connection = record {
  settles = settles;
  settle = settle;
  input = input;
  cleanup = cleanup;
  removal = removal;
  subscription = subscription;
}
