-- ===== src/Hooks/Agreement.antt =====
-- What useSyncStatus, useSyncSnapshot and useOfflineQueue make of the same events.
use react_native_sync_provid.Common.{
  ◌≡◌, ◌⊎◌, Bool, true, false, List, [], ◌∷◌, Option, none, some, All, arith,
}
use react_native_sync_provid.Common.Int.{ℤ}
use react_native_sync_provid.Types.Number.{Number, finite}
use react_native_sync_provid.Types.Enums.{
  SyncEventType, sync_started, sync_progress, sync_succeeded, sync_failed,
}
use react_native_sync_provid.Types.Sync.{SyncEvent}
use react_native_sync_provid.Hooks.Status
use react_native_sync_provid.Hooks.Snapshot
use react_native_sync_provid.Hooks.OfflineQueue

-- The states after a sequence of events.
unfoldable pub status_after : List SyncEvent → Status.State → Status.State
status_after [] s = s
status_after (e ∷ es) s = status_after es (Status.input e s).0

unfoldable pub snapshot_after : List SyncEvent → Snapshot.State → Snapshot.State
snapshot_after [] s = s
snapshot_after (e ∷ es) s = snapshot_after es (Snapshot.input e s).0

unfoldable pub offline_queue_after : List SyncEvent → OfflineQueue.State → OfflineQueue.State
offline_queue_after [] s = s
offline_queue_after (e ∷ es) s = offline_queue_after es (OfflineQueue.input e s).0

-- A progress that is a finite number, or none.
abbrev pub IsFinite : SyncEvent → Type 0
IsFinite e = (e.progress ≡ none) ⊎ ((n : ℤ) × (e.progress ≡ some (finite n)))

pub record Agrees (s : Status.State) (t : Snapshot.State) (o : OfflineQueue.State) : Type 0 where
  pub syncing : s.is_syncing ≡ t.is_syncing
  pub syncing_offline : s.is_syncing ≡ o.is_syncing
  pub paused : s.is_paused ≡ t.is_paused
  pub progress : s.progress ≡ t.progress

on_event-Agrees :
    (type : SyncEventType) (p : Option Number) (s : Status.State) (t : Snapshot.State)
    (o : OfflineQueue.State)
    → (p ≡ none) ⊎ ((n : ℤ) × (p ≡ some (finite n)))
    → Agrees s t o
    → Agrees
        (Status.on_event type p s).0
        (Snapshot.on_event type p t).0
        (OfflineQueue.on_event type o).0
unfolding Status.on_event Snapshot.on_event OfflineQueue.on_event
on_event-Agrees answer other s t o f a = ground arith

input-Agrees :
    (e : SyncEvent) (s : Status.State) (t : Snapshot.State) (o : OfflineQueue.State)
    → IsFinite e
    → Agrees s t o
    → Agrees (Status.input e s).0 (Snapshot.input e t).0 (OfflineQueue.input e o).0
unfolding Status.input Snapshot.input OfflineQueue.input
input-Agrees e s t o f a = ground (arith, on_event-Agrees e.type e.progress s t o f a)

-- For the same sequence of events, none of which reports a progress that is not finite, the three
-- hooks agree on whether a cycle runs, and useSyncStatus and useSyncSnapshot on whether sync is
-- paused and on the progress, when they agree before it.
pub after-Agrees :
    (es : List SyncEvent) (s : Status.State) (t : Snapshot.State) (o : OfflineQueue.State)
    → All IsFinite es
    → Agrees s t o
    → Agrees (status_after es s) (snapshot_after es t) (offline_queue_after es o)
unfolding status_after snapshot_after offline_queue_after
after-Agrees [] s t o f a = a
after-Agrees (e ∷ es) s t o f a =
    after-Agrees es (Status.input e s).0 (Snapshot.input e t).0 (OfflineQueue.input e o).0 f.1
      (input-Agrees e s t o f.0 a)

-- The events of cycles: progress is reported only between a start and the end.
abbrev pub running_after : SyncEventType → Bool → Bool
running_after sync_started running = true
running_after sync_succeeded running = false
running_after sync_failed running = false
running_after _ running = running

abbrev pub IsAllowed : SyncEventType → Bool → Type 0
IsAllowed sync_progress running = running ≡ true
IsAllowed _ running = Unit

abbrev pub InCycles : Bool → List SyncEvent → Type 0
InCycles running [] = Unit
InCycles running (e ∷ es) = IsAllowed e.type running × InCycles (running_after e.type running) es

abbrev pub has_progress : Option Number → Bool
has_progress none = false
has_progress (some n) = true

on_event-has_progress :
    (type : SyncEventType) (p : Option Number) (s : Status.State)
    → IsAllowed type s.is_syncing
    → has_progress s.progress ≡ s.is_syncing
    → (has_progress (Status.on_event type p s).0.progress ≡ (Status.on_event type p s).0.is_syncing)
      × ((Status.on_event type p s).0.is_syncing ≡ running_after type s.is_syncing)
unfolding Status.on_event
on_event-has_progress answer other s a h = ground arith

-- Where progress is reported only within a cycle, useSyncStatus shows a progress exactly while it
-- shows that a cycle runs.
pub status_after-has_progress :
    (es : List SyncEvent) (s : Status.State)
    → InCycles s.is_syncing es
    → has_progress s.progress ≡ s.is_syncing
    → has_progress (status_after es s).progress ≡ (status_after es s).is_syncing
unfolding status_after
status_after-has_progress [] s a h = h
status_after-has_progress (e ∷ es) s a h =
    let (shows, runs) = on_event-has_progress e.type e.progress s a.0 h in
    status_after-has_progress es (Status.input e s).0 (unfold Status.input in rw runs (a.1))
      (unfold Status.input in shows)
