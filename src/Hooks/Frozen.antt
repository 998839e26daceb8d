-- ===== src/Hooks/Frozen.antt =====
-- What an answer that comes after the unmount does to what a hook shows: nothing.
use react_native_sync_provid.Common.{◌≡◌, refl, Bool, true, Option, arith}
use react_native_sync_provid.Types.Sync.{SyncOptions}
use react_native_sync_provid.Types.Errors.{Thrown}
use react_native_sync_provid.Hooks.Results.{
  UseConnectionResult, UseSyncStatusResult, UseSyncQueueResult, UseOfflineQueueResult,
  UseSyncSnapshotResult,
}
use react_native_sync_provid.Hooks.Connection
use react_native_sync_provid.Hooks.Status
use react_native_sync_provid.Hooks.Queue
use react_native_sync_provid.Hooks.OfflineQueue
use react_native_sync_provid.Hooks.Snapshot
use react_native_sync_provid.Hooks.Config
use react_native_sync_provid.Hooks.Catalogue.{
  HookName, connection, status, offline_queue, snapshot, queue, config, auto_sync, StateOf,
  SettledOf, program,
}

-- What the component sees of a state; of useSyncConfig the config and the error, since `setConfig`
-- also sets its loading flag after an unmount; useAutoSync shows nothing.
abbrev pub ShownOf : HookName → Type 0
ShownOf connection = UseConnectionResult
ShownOf status = UseSyncStatusResult
ShownOf offline_queue = UseOfflineQueueResult
ShownOf snapshot = UseSyncSnapshotResult
ShownOf queue = UseSyncQueueResult
ShownOf (config ctx) = Option SyncOptions × Option Thrown
ShownOf (auto_sync options) = Unit {0}

abbrev pub shown : (n : HookName) → StateOf n → ShownOf n
shown connection s = s.result
shown status s = Status.result s
shown offline_queue s = OfflineQueue.result s
shown snapshot s = Snapshot.result s
shown queue s = Queue.result s
shown (config ctx) s = (s.config, s.error)
shown (auto_sync options) s = tt

abbrev pub is_cancelled : (n : HookName) → StateOf n → Bool
is_cancelled connection s = s.cancelled
is_cancelled status s = s.cancelled
is_cancelled offline_queue s = s.cancelled
is_cancelled snapshot s = s.cancelled
is_cancelled queue s = s.cancelled
is_cancelled (config ctx) s = s.cancelled
is_cancelled (auto_sync options) s = s.cancelled

connection_frozen :
    (r : Connection.Settled) (s : Connection.State)
    → s.cancelled ≡ true
    → (Connection.settle r s).0.result ≡ s.result
unfolding Connection.settle
connection_frozen answer s h = ground arith

status_frozen :
    (r : Status.Settled) (s : Status.State)
    → s.cancelled ≡ true
    → Status.result (Status.settle r s).0 ≡ Status.result s
unfolding Status.settle
status_frozen answer s h = ground arith

queue_frozen :
    (r : Queue.Settled) (s : Queue.State)
    → s.cancelled ≡ true
    → Queue.result (Queue.settle r s).0 ≡ Queue.result s
unfolding Queue.settle
queue_frozen answer s h = ground arith

offline_queue_frozen :
    (r : OfflineQueue.Settled) (s : OfflineQueue.State)
    → s.cancelled ≡ true
    → OfflineQueue.result (OfflineQueue.settle r s).0 ≡ OfflineQueue.result s
unfolding OfflineQueue.settle
offline_queue_frozen answer s h = ground arith

snapshot_frozen :
    (r : Snapshot.Settled) (s : Snapshot.State)
    → s.cancelled ≡ true
    → Snapshot.result (Snapshot.settle r s).0 ≡ Snapshot.result s
unfolding Snapshot.settle
snapshot_frozen answer s h = ground arith

config_frozen :
    (available : Bool) (r : Config.Settled) (s : Config.State)
    → s.cancelled ≡ true
    → ((Config.settle available r s).0.config ≡ s.config)
      × ((Config.settle available r s).0.error ≡ s.error)
unfolding Config.settle Config.refresh
config_frozen available answer s h = ground arith

-- Once its cleanup has run, no answer that a hook still waited for changes what it shows: the
-- results of useConnection, useSyncStatus, useOfflineQueue, useSyncSnapshot and useSyncQueue, and
-- the config and the error of useSyncConfig.
pub settle-shown :
    (available : Bool) (n : HookName) (answer : SettledOf n) (s : StateOf n)
    → is_cancelled n s ≡ true
    → shown n ((program available n).settle answer s).0 ≡ shown n s
settle-shown available connection answer s h = connection_frozen answer s h
settle-shown available status answer s h = status_frozen answer s h
settle-shown available offline_queue answer s h = offline_queue_frozen answer s h
settle-shown available snapshot answer s h = snapshot_frozen answer s h
settle-shown available queue answer s h = queue_frozen answer s h
settle-shown available (config ctx) answer s h =
    let (c, e) = config_frozen available answer s h in λ i. (c i, e i)
settle-shown available (auto_sync options) answer s h = refl
