-- ===== src/Hooks/Catalogue.antt =====
-- The hooks that hold one listener, each with what its program depends on.
use Prim.Native.String.{String}
use react_native_sync_provid.Common.{
  ◌≡◌, ◌≤◌, refl, length, Bool, true, false, List, ◌∷◌, some, arith,
}
use react_native_sync_provid.Types.Sync.{SyncEvent}
use react_native_sync_provid.Hooks.Runtime.{
  Program, Running, Picks, settles, Reach, start, later, Reach-trans, begun, settled_by,
  unmounted_by, obtained, removed,
}
use react_native_sync_provid.Hooks.Listeners.{
  HoldsListener, IsTidy, unmounted_by-removed, Reach-removed, Reach-IsTidy,
}
use react_native_sync_provid.Hooks.Connection
use react_native_sync_provid.Hooks.Connection.Listener as ConnectionListener
use react_native_sync_provid.Hooks.Status
use react_native_sync_provid.Hooks.Status.Listener as StatusListener
use react_native_sync_provid.Hooks.Queue
use react_native_sync_provid.Hooks.Queue.Listener as QueueListener
use react_native_sync_provid.Hooks.OfflineQueue
use react_native_sync_provid.Hooks.OfflineQueue.Listener as OfflineQueueListener
use react_native_sync_provid.Hooks.Snapshot
use react_native_sync_provid.Hooks.Snapshot.Listener as SnapshotListener
use react_native_sync_provid.Hooks.Config
use react_native_sync_provid.Hooks.Config.Listener as ConfigListener
use react_native_sync_provid.Hooks.AutoSync
use react_native_sync_provid.Hooks.AutoSync.Listener as AutoSyncListener

pub data HookName : Type 0 where
  connection status offline_queue snapshot queue : HookName
  config : Config.SyncProviderContextValue → HookName
  auto_sync : AutoSync.Settings → HookName

abbrev pub StateOf : HookName → Type 0
StateOf connection = Connection.State
StateOf status = Status.State
StateOf offline_queue = OfflineQueue.State
StateOf snapshot = Snapshot.State
StateOf queue = Queue.State
StateOf (config ctx) = Config.State
StateOf (auto_sync options) = AutoSync.State

abbrev pub WaitOf : HookName → Type 0
WaitOf connection = Connection.Wait
WaitOf status = Status.Wait
WaitOf offline_queue = OfflineQueue.Wait
WaitOf snapshot = Snapshot.Wait
WaitOf queue = Queue.Wait
WaitOf (config ctx) = Config.Wait
WaitOf (auto_sync options) = AutoSync.Wait

abbrev pub SettledOf : HookName → Type 0
SettledOf connection = Connection.Settled
SettledOf status = Status.Settled
SettledOf offline_queue = OfflineQueue.Settled
SettledOf snapshot = Snapshot.Settled
SettledOf queue = Queue.Settled
SettledOf (config ctx) = Config.Settled
SettledOf (auto_sync options) = AutoSync.Settled

abbrev pub InputOf : HookName → Type 0
InputOf connection = SyncEvent
InputOf status = SyncEvent
InputOf offline_queue = SyncEvent
InputOf snapshot = SyncEvent
InputOf queue = Queue.Input
InputOf (config ctx) = Config.Input
InputOf (auto_sync options) = AutoSync.Input

abbrev pub program :
    (available : Bool) (n : HookName) → Program (StateOf n) (WaitOf n) (SettledOf n) (InputOf n)
program available connection = Connection.use_connection
program available status = Status.use_sync_status
program available offline_queue = OfflineQueue.use_offline_queue
program available snapshot = Snapshot.use_sync_snapshot
program available queue = Queue.use_sync_queue available
program available (config ctx) = Config.use_sync_config available ctx
program available (auto_sync options) = AutoSync.use_auto_sync options

abbrev pub mount : (available : Bool) (n : HookName) → StateOf n × List (WaitOf n)
mount available connection = Connection.mount available
mount available status = Status.mount available
mount available offline_queue = OfflineQueue.mount available
mount available snapshot = Snapshot.mount available
mount available queue = Queue.mount available
mount available (config ctx) = Config.mount available ctx
mount available (auto_sync options) = AutoSync.mount available options

holds_listener : (available : Bool) (n : HookName) → HoldsListener (program available n)
holds_listener available connection = ConnectionListener.holds_listener
holds_listener available status = StatusListener.holds_listener
holds_listener available offline_queue = OfflineQueueListener.holds_listener
holds_listener available snapshot = SnapshotListener.holds_listener
holds_listener available queue = QueueListener.holds_listener available
holds_listener available (config ctx) = ConfigListener.holds_listener available ctx
holds_listener available (auto_sync options) = AutoSyncListener.holds_listener options

mount-IsTidy :
    (available : Bool) (n : HookName)
    → IsTidy
        (program available n)
        (holds_listener available n)
        (begun (program available n) (mount available n))
unfolding holds_listener
mount-IsTidy available connection = ConnectionListener.mount-IsTidy available
mount-IsTidy available status = StatusListener.mount-IsTidy available
mount-IsTidy available offline_queue = OfflineQueueListener.mount-IsTidy available
mount-IsTidy available snapshot = SnapshotListener.mount-IsTidy available
mount-IsTidy available queue = QueueListener.mount-IsTidy available
mount-IsTidy available (config ctx) = ConfigListener.mount-IsTidy available ctx
mount-IsTidy available (auto_sync options) = AutoSyncListener.mount-IsTidy available options

-- The lifecycle of useConnection, useSyncStatus, useOfflineQueue, useSyncSnapshot, useSyncQueue,
-- useSyncConfig and useAutoSync, in whatever order promises settle and events come: a mounted hook
-- has obtained one listener at most, and its unmount asks for the removal of exactly the listeners
-- obtained by then.
pub unmount-removed :
    (available : Bool) (n : HookName) (h : Running (StateOf n) (WaitOf n) (SettledOf n))
    → Reach (program available n) (begun (program available n) (mount available n)) h
    → h.mounted ≡ true
    → (length (obtained (program available n) h) ≤ 1)
      × (removed (program available n) (unmounted_by (program available n) h)
          ≡ obtained (program available n) h)
unmount-removed available n h r m =
    let p = program available n in
    let l = holds_listener available n in
    let tidy = Reach-IsTidy p l (mount-IsTidy available n) r in
    (omega (arith, tidy.once), unmounted_by-removed p l h m tidy)

-- A listener that native gives out to one of these hooks after its unmount is never removed: the
-- hook obtains it, and whatever happens then asks for no removal any more.
pub late_listener-removed :
    (available : Bool) (n : HookName) (h k : Running (StateOf n) (WaitOf n) (SettledOf n))
    (answer : SettledOf n) (id : String) (rest : List (WaitOf n))
    → h.mounted ≡ false
    → (program available n).subscription answer ≡ some id
    → Picks ((program available n).settles answer) h.pending rest
    → Reach (program available n) (settled_by (program available n) h answer rest) k
    → (obtained (program available n) (settled_by (program available n) h answer rest)
        ≡ id ∷ obtained (program available n) h)
      × (removed (program available n) k ≡ removed (program available n) h)
late_listener-removed available n h k answer id rest gone subscribed pick r =
    let p = program available n in
    let l = holds_listener available n in
    let first = later start (settles answer pick) in
    (rw subscribed refl, Reach-removed p l gone (Reach-trans p first r))
