-- ===== src/Drain/Frame.antt =====
-- src/utils/drainController.ts: the state that the controller keeps, the local variables of one
-- `runDrain` call, and the awaiting code as a monad over both.
use Prim.Native.Nat.{ℕ}
use react_native_sync_provid.Common.{Bool, true, false, List, [], ◌∷◌, Option, ◌==◌, if◌then◌else◌}
use react_native_sync_provid.Types.Sync.{SyncItem, ConnectionState, SyncResult, DrainStoppedReason}
use react_native_sync_provid.Types.Errors.{Thrown}

-- How the wait for a promise goes on, as far as the loop can tell. `resolves d a c`: it settles
-- after `d` ms, and `c` says whether `cancelDrain()` is called between that moment and the resumption
-- of the loop. `never`: it outlasts every wait. `cancel_called d`: `cancelDrain()` comes first.
pub data Reply {ℓ} (A : Type ℓ) : Type ℓ where
  resolves : ℕ → A → Bool → Reply A
  rejects : ℕ → Thrown → Reply A
  never : Reply A
  cancel_called : ℕ → Reply A

-- `DrainNativeOps`, over an environment of states `S` (the native engine, the network, the
-- user). A call reads the clock and moves the environment on. `sleep` is not an operation of the
-- interface: it says whether a sleep is undisturbed or a `cancelDrain()` comes after some ms.
pub record DrainNativeOps (S : Type 0) : Type 0 where
  pub flush : ℕ → S → Reply SyncResult × S
  pub get_connection_status : ℕ → S → Reply ConnectionState × S
  pub get_pending_items : ℕ → S → Reply (List SyncItem) × S
  pub get_queue_size : ℕ → S → Reply ℕ × S
  pub is_syncing : ℕ → S → Reply Bool × S
  pub sleep : ℕ → S → Option ℕ × S

-- A waiter is known by a number of its own.
pub record DrainControllerState : Type 0 where
  pub active : Bool
  pub cancelled : Bool
  pub cancel_waiters : List ℕ

-- The module's state, the clock that `Date.now()` reads, the timers that are set, and the
-- environment.
pub record Process (S : Type 0) : Type 0 where
  pub state : DrainControllerState
  pub clock : ℕ
  pub next_id : ℕ
  pub timers : List ℕ
  pub env : S

-- The same inside `runDrain`, with its `let` variables and the `sleepTimer` of `sleepWithStop`.
pub record Frame (S : Type 0) : Type 0 where
  pub state : DrainControllerState
  pub clock : ℕ
  pub next_id : ℕ
  pub timers : List ℕ
  pub env : S
  pub sleep_timer : Option ℕ
  pub iterations : ℕ
  pub items_dispatched : ℕ
  pub last_size : Option ℕ
  pub cycle_just_ran : Bool

-- How awaiting code ends: with a value, by a thrown `DrainStop`, or by another exception.
pub data Ended (S A : Type 0) : Type 0 where
  done : A → Frame S → Ended S A
  stopped : DrainStoppedReason → Frame S → Ended S A
  failed : Thrown → Frame S → Ended S A

abbrev pub M : Type 0 → Type 0 → Type 0
M S A = Frame S → Ended S A

infixl 5 ◌>>=◌ ◌>>◌
abbrev pub ◌>>=◌ : {S A B : Type 0} → M S A → (A → M S B) → M S B
◌>>=◌ m k f = elim (m f) [
  | done a f' ↦ k a f'
  | stopped r f' ↦ stopped r f'
  | failed e f' ↦ failed e f'
]

abbrev pub ◌>>◌ : {S A B : Type 0} → M S A → M S B → M S B
m >> k = m >>= λ _. k

abbrev pub pure : {S A : Type 0} → A → M S A
pure a f = done a f

-- `set.delete(id)` and `clearTimeout(id)`.
unfoldable pub remove : ℕ → List ℕ → List ℕ
remove id [] = []
remove id (j ∷ ids) = let rest = remove id ids in if j == id then rest else j ∷ rest

unfoldable pub has : ℕ → List ℕ → Bool
has id [] = false
has id (j ∷ ids) = let rest = has id ids in if j == id then true else rest

-- `cancelActiveDrain()`: the new state, and the waiters that it wakes.
unfoldable pub cancel_active_drain : DrainControllerState → DrainControllerState × List ℕ
cancel_active_drain s =
    if s.active then (record s { cancelled = true }, s.cancel_waiters) else (s, [])
