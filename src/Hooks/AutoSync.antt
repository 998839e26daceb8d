-- ===== src/Hooks/AutoSync.antt =====
-- src/hooks/useAutoSync.ts: one run of its effect, from a mount to the cleanup.
pub mod Listener
pub mod Triggers
pub mod Reconnects
pub mod Stopped
use Prim.Native.String.{String}
use react_native_sync_provid.Common.{
  Bool, true, false, not, ◌&&◌, ◌||◌, List, [], ◌∷◌, Option, none, some, if◌then◌else◌,
}
use react_native_sync_provid.Common.Int.{ℤ, pos, negsuc, ltb_ℤ}
use react_native_sync_provid.Types.Number.{Number, nan, infinity, minus_infinity, finite}
use react_native_sync_provid.Types.Enums.{ConnectionStatus}
use react_native_sync_provid.Types.Sync.{SyncEvent, SyncResult, ConnectionState}
use react_native_sync_provid.Types.Errors.{Outcome, fulfilled, rejected}
use react_native_sync_provid.Hooks.Results.{
  is_connected, is_metered_status, is_disconnected, is_connection_changed,
}
use react_native_sync_provid.Hooks.Runtime.{Program}

abbrev pub default_interval_ms : Number
default_interval_ms = finite (pos 60000)

-- `UseAutoSyncExtraOptions`, as far as the hook reads it.
pub record Options : Type 0 where
  pub enabled : Option Bool
  pub flush_on_reconnect : Option Bool
  pub flush_on_metered : Option Bool
  pub flush_on_app_foreground : Option Bool
  pub interval_ms : Option Number

-- The same after the defaults of the destructuring.
pub record Settings : Type 0 where
  pub enabled : Bool
  pub flush_on_reconnect : Bool
  pub flush_on_metered : Bool
  pub flush_on_app_foreground : Bool
  pub interval_ms : Option Number

abbrev pub or_default : Bool → Option Bool → Bool
or_default b none = b
or_default b (some c) = c

unfoldable pub settings : Options → Settings
settings options = record {
  enabled = or_default false options.enabled;
  flush_on_reconnect = or_default true options.flush_on_reconnect;
  flush_on_metered = or_default false options.flush_on_metered;
  flush_on_app_foreground = or_default false options.flush_on_app_foreground;
  interval_ms = options.interval_ms;
}

-- `typeof intervalMs === 'number' && intervalMs > 0 ? intervalMs : DEFAULT_INTERVAL_MS`.
unfoldable pub period_of : Option Number → Number
period_of (some (finite n)) = if ltb_ℤ (pos 0) n then finite n else default_interval_ms
period_of (some infinity) = infinity
period_of _ = default_interval_ms

-- The ref and the variables of the effect: `timer` is the interval's period while it is set,
-- `app_state_subscription` whether the listener of `AppState` is there.
pub record State : Type 0 where
  pub last_connection : Option ConnectionStatus
  pub cancelled : Bool
  pub subscription_id : Option String
  pub timer : Option Number
  pub app_state_subscription : Bool

-- `checking_connection` is the `await` of `flushUnlessOffline`; `checking_syncing` and `flushing`
-- are those of `safeFlush`.
pub data Wait : Type 0 where
  checking_connection checking_syncing flushing subscribing : Wait
  unsubscribing : String → Wait

pub data Settled : Type 0 where
  connection_checked : Outcome ConnectionState → Settled
  syncing_checked : Outcome Bool → Settled
  flushed : Outcome SyncResult → Settled
  subscribed : Outcome String → Settled
  unsubscribed : String → Outcome (Unit {0}) → Settled

-- The interval's tick, an event, and a change of the app's state (whether to `active`).
pub data Input : Type 0 where
  tick : Input
  event : SyncEvent → Input
  app_state_changed : Bool → Input

unfoldable pub mount : Bool → Settings → State × List Wait
unfolding period_of
mount available options =
    let idle : State = record {
      last_connection = none;
      cancelled = false;
      subscription_id = none;
      timer = none;
      app_state_subscription = false;
    } in
    if not options.enabled then (idle, []) else if not available then (idle, []) else (
      record idle {
        timer = some (period_of options.interval_ms);
        app_state_subscription = options.flush_on_app_foreground;
      },
      subscribing ∷ [],
    )

-- `flushUnlessOffline` and `safeFlush` begin with an `await` each.
abbrev pub flush_unless_offline : State → State × List Wait
flush_unless_offline s = (s, checking_connection ∷ [])

abbrev pub safe_flush : State → State × List Wait
safe_flush s = (s, checking_syncing ∷ [])

unfoldable pub settle : Settled → State → State × List Wait
settle (connection_checked (fulfilled connection)) s =
    if is_disconnected connection.status then (s, []) else safe_flush s
settle (connection_checked (rejected err)) s = (s, [])
settle (syncing_checked (fulfilled in_flight)) s =
    if in_flight || s.cancelled then (s, []) else (s, flushing ∷ [])
settle (syncing_checked (rejected err)) s = (s, [])
settle (flushed outcome) s = (s, [])
settle (subscribed (fulfilled id)) s = (record s { subscription_id = some id }, [])
settle (subscribed (rejected err)) s = (s, [])
settle (unsubscribed id outcome) s = (s, [])

abbrev pub was : (ConnectionStatus → Bool) → Option ConnectionStatus → Bool
was test none = false
was test (some status) = test status

-- `becameConnected || becameMetered`.
unfoldable pub reconnects : Bool → Option ConnectionStatus → ConnectionStatus → Bool
reconnects flush_on_metered prev next =
    not (was is_connected prev) && is_connected next
    || flush_on_metered && not (was is_metered_status prev) && is_metered_status next

-- The listener, from the status of the event on.
unfoldable pub on_connection : Bool → Option ConnectionStatus → State → State × List Wait
unfolding reconnects
on_connection flush_on_metered none s = (s, [])
on_connection flush_on_metered (some next) s =
    let s' : State = record s { last_connection = some next } in
    if reconnects flush_on_metered s.last_connection next then safe_flush s' else (s', [])

-- A tick comes while the interval is set, a change of the app's state while there is a listener.
unfoldable pub input : Settings → Input → State → State × List Wait
unfolding on_connection
input options tick s = elim s.timer [ none ↦ (s, []) | some period ↦ flush_unless_offline s ]
input options (event e) s =
    if not options.flush_on_reconnect
    then (s, [])
    else if not (is_connection_changed e.type)
    then (s, [])
    else on_connection options.flush_on_metered e.connection_status s
input options (app_state_changed active) s =
    if s.app_state_subscription && active then flush_unless_offline s else (s, [])

abbrev pub unsubscribe : Option String → List Wait
unsubscribe none = []
unsubscribe (some id) = unsubscribing id ∷ []

unfoldable pub cleanup : State → State × List Wait
cleanup s = (
  record s { cancelled = true; timer = none; app_state_subscription = false },
  unsubscribe s.subscription_id,
)

abbrev pub settles : Settled → Wait
settles (connection_checked outcome) = checking_connection
settles (syncing_checked outcome) = checking_syncing
settles (flushed outcome) = flushing
settles (subscribed outcome) = subscribing
settles (unsubscribed id outcome) = unsubscribing id

abbrev pub removal : Wait → Option String
removal (unsubscribing id) = some id
removal _ = none

abbrev pub subscription : Settled → Option String
subscription (subscribed (fulfilled id)) = some id
subscription _ = none

abbrev pub use_auto_sync : Settings → Program State Wait Settled Input
use_auto_sync options = record {
  settles = settles;
  settle = settle;
  input = input options;
  cleanup = cleanup;
  removal = removal;
  subscription = subscription;
}
