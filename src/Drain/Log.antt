-- ===== src/Drain/Log.antt =====
-- The environment of a drain with a log of the calls that the loop makes, newest first, each with
-- the reply that the environment has in store for it; and what can be read off such a log.
use react_native_sync_provid.Common.{
  ℕ, suc, ◌+◌, ◌-◌, ◌<◌, ◌≡◌, ◌≢◌, Bool, false, List, [], ◌∷◌, Option, none, some,
}
use react_native_sync_provid.Common.Int.{ℤ, pos, ◌≤ℤ◌, ◌<ℤ◌}
use react_native_sync_provid.Types.Enums.{disconnected}
use react_native_sync_provid.Types.Sync.{SyncItem, SyncResult, ConnectionState}
use react_native_sync_provid.Drain.Frame.{Reply, resolves, DrainNativeOps}

-- A call has the time at which it was made.
pub data Call : Type 0 where
  flushed : ℕ → Reply SyncResult → Call
  asked_connection : ℕ → Reply ConnectionState → Call
  asked_items : ℕ → Reply (List SyncItem) → Call
  asked_size : ℕ → Reply ℕ → Call
  asked_syncing : ℕ → Reply Bool → Call
  slept : ℕ → Option ℕ → Call

abbrev pub made_at : Call → ℕ
made_at (flushed time r) = time
made_at (asked_connection time r) = time
made_at (asked_items time r) = time
made_at (asked_size time r) = time
made_at (asked_syncing time r) = time
made_at (slept time r) = time

abbrev pub note :
    {S R : Type 0} → (ℕ → R → Call) → (ℕ → S → R × S) → ℕ → S × List Call → R × (S × List Call)
note call op now env = let (reply, s) = op now env.0 in (reply, (s, call now reply ∷ env.1))

abbrev pub logged : {S : Type 0} → DrainNativeOps S → DrainNativeOps (S × List Call)
logged native = record {
  flush = note flushed native.flush;
  get_connection_status = note asked_connection native.get_connection_status;
  get_pending_items = note asked_items native.get_pending_items;
  get_queue_size = note asked_size native.get_queue_size;
  is_syncing = note asked_syncing native.is_syncing;
  sleep = note slept native.sleep;
}

-- The reply is an answer of which `P` holds.
abbrev pub Answered : {A : Type 0} → (A → Type 0) → Reply A → Type 0
Answered P (resolves after a cancel) = P a
Answered P _ = ⊥

-- The newest call asked whether a cycle runs, and the answer was no.
abbrev pub Polled : List Call → Type 0
Polled (asked_syncing time r ∷ log) = Answered (λ syncing. syncing ≡ false) r
Polled _ = ⊥

-- The newest call, but for reading the items, found items in the queue, and no cycle ran before.
abbrev pub Waiting : List Call → Type 0
Waiting (asked_size time r ∷ log) = Answered (λ size. 0 < size) r × Polled log
Waiting (asked_items time r ∷ log) = Waiting log
Waiting _ = ⊥

-- Then the device was found not to be offline.
abbrev pub Online : List Call → Type 0
Online (asked_connection time r ∷ log) = Answered (λ c. c.status ≢ disconnected) r × Waiting log
Online _ = ⊥

-- Every flush came directly after that.
abbrev pub Disciplined : List Call → Type 0
Disciplined [] = Unit
Disciplined (flushed time r ∷ log) = Online log × Disciplined log
Disciplined (call ∷ log) = Disciplined log

-- The newest call found the queue empty, and no cycle ran before.
abbrev pub Emptied : List Call → Type 0
Emptied (asked_size time r ∷ log) = Answered (λ size. size ≡ 0) r × Polled log
Emptied _ = ⊥

-- The queue was found empty between two answers that no cycle runs.
abbrev pub Confirmed : List Call → Type 0
Confirmed (asked_syncing time r ∷ log) = Answered (λ syncing. syncing ≡ false) r × Emptied log
Confirmed _ = ⊥

abbrev pub flushes : List Call → ℕ
flushes [] = 0
flushes (flushed time r ∷ log) = suc (flushes log)
flushes (call ∷ log) = flushes log

-- The sizes that were answered, newest first.
abbrev pub sizes : List Call → List ℕ
sizes [] = []
sizes (asked_size time (resolves after n cancel) ∷ log) = n ∷ sizes log
sizes (call ∷ log) = sizes log

-- By how much the sizes went down from each to the next, in all.
abbrev pub decreases : List ℕ → ℕ
decreases [] = 0
decreases (n ∷ []) = 0
decreases (n ∷ m ∷ ns) = m - n + decreases (m ∷ ns)

abbrev pub newest : List ℕ → Option ℕ
newest [] = none
newest (n ∷ ns) = some n

-- An answer to a call of that time that comes by the deadline, with no cancel before or after it.
abbrev pub IsCalm : {A : Type 0} → ℤ → ℕ → Reply A → Type 0
IsCalm deadline time (resolves after a false) = pos (time + after) ≤ℤ deadline
IsCalm deadline time _ = ⊥

abbrev pub IsCalmCall : ℤ → Call → Type 0
IsCalmCall deadline (flushed time r) = IsCalm deadline time r
IsCalmCall deadline (asked_connection time r) = IsCalm deadline time r
IsCalmCall deadline (asked_items time r) = IsCalm deadline time r
IsCalmCall deadline (asked_size time r) = IsCalm deadline time r
IsCalmCall deadline (asked_syncing time r) = IsCalm deadline time r
IsCalmCall deadline (slept time none) = Unit
IsCalmCall deadline (slept time (some after)) = ⊥

-- The call was made before the deadline.
abbrev pub IsTimely : ℤ → Call → Type 0
IsTimely deadline call = pos (made_at call) <ℤ deadline

abbrev pub before : List Call → List Call
before [] = []
before (call ∷ log) = log
