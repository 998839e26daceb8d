-- ===== src/Hooks/Examples.antt =====
-- Small runs of the hooks and of the provider component.
use react_native_sync_provid.Common.{◌≤◌, ◌≡◌, refl, true, false, List, [], ◌∷◌, Option, none, some}
use react_native_sync_provid.Common.Int.{pos}
use react_native_sync_provid.Types.Number.{finite}
use react_native_sync_provid.Types.Value.{undefined}
use react_native_sync_provid.Types.Enums.{
  ConnectionStatus, ConnectionType, SyncEventType, SyncStrategy, BackoffStrategy,
}
use react_native_sync_provid.Types.Sync.{
  SyncEvent, SyncOptions, ConnectionState, BackgroundSyncOptions,
}
use react_native_sync_provid.Types.Errors.{fulfilled, rejected, thrown}
use react_native_sync_provid.Hooks.Runtime.{
  Running, here, there, settles, receives, unmounts, Reach, start, later, begun, settled_by,
  received_by, unmounted_by, tally,
}
use react_native_sync_provid.Hooks.Queue
use react_native_sync_provid.Hooks.Queue.Loading.{use_sync_queue-loading}
use react_native_sync_provid.Hooks.AutoSync
use react_native_sync_provid.Hooks.AutoSync.Triggers.{
  flushes, online_answers, idle_answers, use_auto_sync-IsGuarded,
}
use react_native_sync_provid.Hooks.AutoSync.Stopped.{unmounted_by-flushes}
use react_native_sync_provid.Hooks.AutoSync.Reconnects.{turns, checks_begun, checks_begun-turns}
use react_native_sync_provid.Hooks.Provider
use react_native_sync_provid.Hooks.Provider.Ownership.{IsOwned, sync_provider-IsOwned}

abbrev an_event : SyncEventType → Option ConnectionStatus → SyncEvent
an_event type connection_status = record {
  type = type;
  timestamp = 1;
  item_id = none;
  progress = none;
  error_code = none;
  status_code = none;
  attempt = none;
  connection_status = connection_status;
  metadata = none;
}

abbrev half_way : SyncEvent
half_way = record (an_event SyncEventType.sync_progress none) { progress = some (finite (pos 50)) }

-- useSyncQueue after a read of the queue that fails.
abbrev read_failed : Running Queue.State Queue.Wait Queue.Settled
read_failed =
    settled_by (Queue.use_sync_queue true) (begun (Queue.use_sync_queue true) (Queue.mount true))
      (Queue.queue_read (rejected (thrown undefined))) (Queue.subscribing ∷ [])

read_failed-Reach :
    Reach
      (Queue.use_sync_queue true)
      (begun (Queue.use_sync_queue true) (Queue.mount true))
      read_failed
unfolding Queue.mount
read_failed-Reach = later start (settles (Queue.queue_read (rejected (thrown undefined))) here)

use_sync_queue-loading_example : read_failed.state.is_loading ≡ false
use_sync_queue-loading_example =
    use_sync_queue-loading true read_failed read_failed-Reach refl
      (unfold Queue.mount Queue.settle in refl)

-- useAutoSync with its timer only.
abbrev by_timer : AutoSync.Settings
by_timer = AutoSync.settings (record {
  enabled = some true;
  flush_on_reconnect = some false;
  flush_on_metered = none;
  flush_on_app_foreground = none;
  interval_ms = none;
})

abbrev on_wifi : ConnectionState
on_wifi = record {
  status = ConnectionStatus.connected;
  type = ConnectionType.wifi;
  is_internet_reachable = none;
  is_expensive = none;
}

abbrev AutoSyncRun : Type 0
AutoSyncRun = Running AutoSync.State AutoSync.Wait AutoSync.Settled

abbrev started : AutoSyncRun
started = begun (AutoSync.use_auto_sync by_timer) (AutoSync.mount true by_timer)

abbrev ticked : AutoSyncRun
ticked = received_by (AutoSync.use_auto_sync by_timer) started AutoSync.tick

abbrev is_online : AutoSyncRun
is_online =
    settled_by (AutoSync.use_auto_sync by_timer) ticked
      (AutoSync.connection_checked (fulfilled on_wifi)) (AutoSync.subscribing ∷ [])

abbrev flushing : AutoSyncRun
flushing =
    settled_by (AutoSync.use_auto_sync by_timer) is_online
      (AutoSync.syncing_checked (fulfilled false)) (AutoSync.subscribing ∷ [])

flushing-Reach : Reach (AutoSync.use_auto_sync by_timer) started flushing
unfolding AutoSync.mount AutoSync.settle AutoSync.input AutoSync.settings
flushing-Reach =
    later
      (later (later start (receives AutoSync.tick))
        (settles (AutoSync.connection_checked (fulfilled on_wifi)) (there here)))
      (settles (AutoSync.syncing_checked (fulfilled false)) (there here))

use_auto_sync-IsGuarded_example :
    (tally flushes flushing.calls ≤ tally idle_answers flushing.answers)
    × (tally flushes flushing.calls ≤ tally online_answers flushing.answers)
unfolding AutoSync.settings
use_auto_sync-IsGuarded_example = use_auto_sync-IsGuarded by_timer refl true flushing flushing-Reach

-- The same, unmounted while it asks whether a cycle runs, of which it learns later.
abbrev stopped : AutoSyncRun
stopped = unmounted_by (AutoSync.use_auto_sync by_timer) is_online

abbrev answered_late : AutoSyncRun
answered_late =
    settled_by (AutoSync.use_auto_sync by_timer) stopped
      (AutoSync.syncing_checked (fulfilled false)) (AutoSync.subscribing ∷ [])

unmounted_by-flushes_example :
    (tally flushes answered_late.calls ≡ tally flushes is_online.calls)
    × (answered_late.state.timer ≡ none)
unfolding AutoSync.mount AutoSync.settle AutoSync.input AutoSync.settings AutoSync.cleanup
unmounted_by-flushes_example =
    unmounted_by-flushes by_timer is_online answered_late
      (later start (settles (AutoSync.syncing_checked (fulfilled false)) (there here)))

abbrev on_reconnect : AutoSync.Settings
on_reconnect = record by_timer { flush_on_reconnect = true }

abbrev connection_changes : List SyncEvent
connection_changes =
    an_event SyncEventType.connection_changed (some ConnectionStatus.connected)
    ∷ an_event SyncEventType.connection_changed (some ConnectionStatus.disconnected)
    ∷ an_event SyncEventType.connection_changed (some ConnectionStatus.connected)
    ∷ []

checks_begun-turns_example :
    checks_begun on_reconnect connection_changes started.state
    ≡ turns on_reconnect.flush_on_metered started.state.last_connection connection_changes
checks_begun-turns_example = checks_begun-turns on_reconnect connection_changes started.state refl

-- The provider, unmounted once it owns background sync.
abbrev an_option : SyncOptions
an_option = record {
  strategy = SyncStrategy.automatic;
  retry_policy = record {
    max_attempts = pos 3;
    backoff = BackoffStrategy.linear;
    base_delay_ms = pos 10;
    max_delay_ms = pos 100;
    jitter = false;
    retry_on_status_codes = [];
  };
  batch_size = none;
  request_timeout_ms = none;
  max_queue_size = none;
  persist_queue = none;
  default_headers = none;
}

abbrev hourly : BackgroundSyncOptions
hourly = record {
  minimum_interval_ms = finite (pos 3600000);
  requires_charging = none;
  requires_unmetered_network = none;
  requires_device_idle = none;
  foreground_only = none;
  task_identifier = none;
}

abbrev ProviderRun : Type 0
ProviderRun = Running Provider.State Provider.Wait Provider.Settled

abbrev provider_started : ProviderRun
provider_started = begun (Provider.sync_provider true) (Provider.mount true an_option (some hourly))

abbrev configured : ProviderRun
configured =
    settled_by (Provider.sync_provider true) provider_started
      (Provider.configured 1 an_option (some hourly) (fulfilled tt)) []

abbrev has_read : ProviderRun
has_read =
    settled_by (Provider.sync_provider true) configured
      (Provider.first_read 1 true (some hourly) (fulfilled an_option)) []

abbrev owning : ProviderRun
owning =
    settled_by (Provider.sync_provider true) has_read (Provider.enabled 1 hourly (fulfilled tt)) []

abbrev given_back : ProviderRun
given_back = unmounted_by (Provider.sync_provider true) owning

given_back-Reach : Reach (Provider.sync_provider true) provider_started given_back
unfolding Provider.mount Provider.effect Provider.settle
given_back-Reach =
    later
      (later
        (later
          (later start
            (settles (Provider.configured 1 an_option (some hourly) (fulfilled tt)) here))
          (settles (Provider.first_read 1 true (some hourly) (fulfilled an_option)) here))
        (settles (Provider.enabled 1 hourly (fulfilled tt)) here))
      (unmounts refl)

sync_provider-IsOwned_example : IsOwned given_back
sync_provider-IsOwned_example =
    sync_provider-IsOwned true an_option (some hourly) given_back given_back-Reach
