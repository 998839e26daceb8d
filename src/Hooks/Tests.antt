-- ===== src/Hooks/Tests.antt =====
-- Mounts and unmounts of the hooks.
use react_native_sync_provid.Common.{◌≤◌, ◌≡◌, ◌⊎◌, refl, true, [], ◌∷◌, none, length}
use react_native_sync_provid.Types.Enums.{ConnectionStatus, ConnectionType}
use react_native_sync_provid.Types.Sync.{ConnectionState}
use react_native_sync_provid.Types.Errors.{fulfilled}
use react_native_sync_provid.Hooks.Runtime.{
  Running, Picks, here, settles, unmounts, Reach, start, later, begun, settled_by, unmounted_by,
  obtained, removed, listed,
}
use react_native_sync_provid.Hooks.Connection
use react_native_sync_provid.Hooks.Events
use react_native_sync_provid.Hooks.Events.Lifecycle.{use_sync_events-removed}
use react_native_sync_provid.Hooks.Catalogue.{connection, unmount-removed, late_listener-removed}

abbrev on_wifi : ConnectionState
on_wifi = record {
  status = ConnectionStatus.connected;
  type = ConnectionType.wifi;
  is_internet_reachable = none;
  is_expensive = none;
}

-- useConnection, once it has probed.
abbrev probed : Running Connection.State Connection.Wait Connection.Settled
probed =
    settled_by Connection.use_connection (begun Connection.use_connection (Connection.mount true))
      (Connection.probed (fulfilled on_wifi)) []

abbrev listening : Running Connection.State Connection.Wait Connection.Settled
listening = settled_by Connection.use_connection probed (Connection.subscribed (fulfilled "L1")) []

listening-Reach :
    Reach Connection.use_connection
      (begun Connection.use_connection (Connection.mount true))
      listening
unfolding Connection.mount Connection.settle
listening-Reach =
    later (later start (settles (Connection.probed (fulfilled on_wifi)) here))
      (settles (Connection.subscribed (fulfilled "L1")) here)

unmount-removed_example :
    (length (obtained Connection.use_connection listening) ≤ 1)
    × (removed Connection.use_connection (unmounted_by Connection.use_connection listening)
        ≡ obtained Connection.use_connection listening)
unmount-removed_example = unmount-removed true connection listening listening-Reach refl

abbrev gone : Running Connection.State Connection.Wait Connection.Settled
gone = unmounted_by Connection.use_connection probed

abbrev late : Running Connection.State Connection.Wait Connection.Settled
late = settled_by Connection.use_connection gone (Connection.subscribed (fulfilled "L1")) []

late_pick : Picks Connection.subscribing gone.pending []
unfolding Connection.mount Connection.settle Connection.cleanup
late_pick = here

late_listener-removed_example :
    (obtained Connection.use_connection late ≡ "L1" ∷ obtained Connection.use_connection gone)
    × (removed Connection.use_connection late ≡ removed Connection.use_connection gone)
late_listener-removed_example =
    late_listener-removed true connection gone late (Connection.subscribed (fulfilled "L1")) "L1" []
      refl refl late_pick start

-- useSyncEvents, unmounted while it subscribes.
abbrev unmounted_early : Running Events.State Events.Wait Events.Settled
unmounted_early =
    settled_by Events.use_sync_events
      (unmounted_by Events.use_sync_events
        (begun Events.use_sync_events (Events.mount true true none)))
      (Events.subscribed (fulfilled "L2")) []

unmounted_early-Reach :
    Reach Events.use_sync_events
      (begun Events.use_sync_events (Events.mount true true none))
      unmounted_early
unfolding Events.mount Events.cleanup
unmounted_early-Reach =
    later (later start (unmounts refl)) (settles (Events.subscribed (fulfilled "L2")) here)

use_sync_events-removed_example :
    (length (obtained Events.use_sync_events unmounted_early) ≤ 1)
    × (obtained Events.use_sync_events unmounted_early
        ≡ listed unmounted_early.state.subscription_id
            (removed Events.use_sync_events unmounted_early))
    × ((unmounted_early.mounted ≡ true)
        ⊎ (removed Events.use_sync_events unmounted_early
            ≡ obtained Events.use_sync_events unmounted_early))
use_sync_events-removed_example =
    use_sync_events-removed true true none unmounted_early unmounted_early-Reach
