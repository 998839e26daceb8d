-- ===== src/Facade/Drain.antt =====
-- src/index.tsx: drainUntilEmpty and cancelDrain, the facade's own functions under the drain
-- controller.
use react_native_sync_provid.Common.{ℕ, ◌≡◌, Bool, List, Option, some}
use react_native_sync_provid.Types.Errors.{Outcome, fulfilled, rejected}
use react_native_sync_provid.Types.Sync.{DrainOptions, DrainResult}
use react_native_sync_provid.Native.Probe.{World, CreateHybridObject}
use react_native_sync_provid.Native.Laws.{IsConsistent}
use react_native_sync_provid.Drain.Frame.{
  Reply, resolves, rejects, never, cancel_called, DrainNativeOps, DrainControllerState, Process,
  cancel_active_drain,
}
use react_native_sync_provid.Drain.Loop.{run_drain}
use react_native_sync_provid.Drain.Results.{IsIdle, run_drain-returns}
use react_native_sync_provid.Drain.Sound.{
  Keeps, RejectsWith, IsSound, EndsSoundly, run_drain-EndsSoundly,
}
use react_native_sync_provid.Facade.Ops
use react_native_sync_provid.Facade.Ops.{Call}
use react_native_sync_provid.Facade.Laws.{IsSyncError}
use react_native_sync_provid.Facade.Errors.{OnlySyncError, EndsWell, native_call-EndsWell}

-- `cancelDrain()`.
abbrev pub cancel_drain : DrainControllerState → DrainControllerState × List ℕ
cancel_drain = cancel_active_drain

-- How the wait for a promise goes: it settles after so many ms (and whether `cancelDrain()` comes
-- before the loop goes on), outlasts every wait, or `cancelDrain()` comes first.
pub data Pace : Type 0 where
  settles_after : ℕ → Bool → Pace
  outlasts : Pace
  cancelled_after : ℕ → Pace

abbrev pub paced : {A : Type 0} → Pace → Outcome A → Reply A
paced (settles_after ms cancel) (fulfilled a) = resolves ms a cancel
paced (settles_after ms cancel) (rejected e) = rejects ms e
paced outlasts outcome = never
paced (cancelled_after ms) outcome = cancel_called ms

-- The pace of the calls, and what disturbs a sleep: the environment's choice.
pub record Timing (S : Type 0) : Type 0 where
  pub pace : ℕ → World S → Pace
  pub disturbed : ℕ → World S → Option ℕ

abbrev pub timed : {S A : Type 0} → Timing S → Call S A → ℕ → World S → Reply A × World S
timed timing call now w = (paced (timing.pace now w) (call w).0, (call w).1)

module _ {S : Type 0} (create : CreateHybridObject S) (timing : Timing S) where
  -- `{ flush, getConnectionStatus, getPendingItems, getQueueSize, isSyncing }`.
  unfoldable pub drain_ops : DrainNativeOps (World S)
  drain_ops = record {
    flush = timed timing (Ops.flush create);
    get_connection_status = timed timing (Ops.get_connection_status create);
    get_pending_items = timed timing (Ops.get_pending_items create);
    get_queue_size = timed timing (Ops.get_queue_size create);
    is_syncing = timed timing (Ops.is_syncing create);
    sleep = λ now w. (timing.disturbed now w, w);
  }

  unfoldable pub drain_until_empty :
      Option DrainOptions → Process (World S) → Option (Outcome DrainResult) × Process (World S)
  drain_until_empty options p = run_drain drain_ops options p

  timed-Keeps :
      {A : Type 0} (call : Call S A)
      → ((w : World S) → IsConsistent w → EndsWell (call w))
      → (now : ℕ) (w : World S) → IsConsistent w
      → Keeps IsConsistent IsSyncError (timed timing call now w)
  timed-Keeps call ends now w c =
      (ends_consistent (call w) (ends w c), ends_well (timing.pace now w) (call w) (ends w c))
    where
      ends_consistent : {A : Type 0} (o : Outcome A × World S) → EndsWell o → IsConsistent o.1
      ends_consistent (outcome, w') e = e.1

      ends_well :
          {A : Type 0} (pace : Pace) (o : Outcome A × World S)
          → EndsWell o
          → RejectsWith IsSyncError (paced pace o.0)
      ends_well (settles_after ms cancel) (fulfilled a, w') e = tt
      ends_well (settles_after ms cancel) (rejected err, w') e = e.0
      ends_well outlasts (outcome, w') e = tt
      ends_well (cancelled_after ms) (outcome, w') e = tt

  drain_ops-IsSound : IsSound drain_ops IsConsistent IsSyncError
  unfolding drain_ops Ops.flush Ops.get_connection_status Ops.get_pending_items Ops.get_queue_size
      Ops.is_syncing
  drain_ops-IsSound = record {
    flush = timed-Keeps (Ops.flush create) (native_call-EndsWell create _ _);
    get_connection_status =
        timed-Keeps (Ops.get_connection_status create) (native_call-EndsWell create _ _);
    get_pending_items =
        timed-Keeps (Ops.get_pending_items create) (native_call-EndsWell create _ _);
    get_queue_size = timed-Keeps (Ops.get_queue_size create) (native_call-EndsWell create _ _);
    is_syncing = timed-Keeps (Ops.is_syncing create) (native_call-EndsWell create _ _);
    sleep = λ now w c. c;
  }

  read_off :
      (options : Option DrainOptions) (o : Outcome DrainResult) (w : World S)
      → EndsSoundly drain_ops options IsConsistent IsSyncError drain_ops-IsSound (some o) w
      → OnlySyncError o × IsConsistent w
  read_off options (fulfilled r) w c = (tt, c)
  read_off options (rejected e) w (only, c) = (only, c)

  -- `drainUntilEmpty` over the functions of the facade, where no drain is running or has left a
  -- waiter or a timer, and the probe is consistent: however long the native module takes and
  -- whatever it answers, it ends, and rejects with nothing but a `SyncError`; the probe stays
  -- consistent.
  pub drain_until_empty-OnlySyncError :
      (options : Option DrainOptions) (p : Process (World S))
      → IsIdle p
      → IsConsistent p.env
      → (o : Outcome DrainResult) × ((drain_until_empty options p).0 ≡ some o)
        × OnlySyncError o
        × IsConsistent (drain_until_empty options p).1.env
  unfolding drain_until_empty
  drain_until_empty-OnlySyncError options p idle c =
      let (o, returns) = run_drain-returns drain_ops options p idle in
      let (only, kept) = read_off options o (run_drain drain_ops options p).1.env (
        rw returns at (
          run_drain-EndsSoundly drain_ops options IsConsistent IsSyncError drain_ops-IsSound p
            idle.unlocked c)) in
      (o, returns, only, kept)
