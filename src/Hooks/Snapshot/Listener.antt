-- ===== src/Hooks/Snapshot/Listener.antt =====
-- The one listener of the hook.
use Prim.Native.String.{String}
use react_native_sync_provid.Common.{
  ℕ, ◌+◌, ◌≤◌, ◌≡◌, refl, inr, Bool, true, false, List, [], Option, none, some, arith, length,
}
use react_native_sync_provid.Types.Sync.{SyncEvent}
use react_native_sync_provid.Hooks.Runtime.{begun, listed, collect, tally}
use react_native_sync_provid.Hooks.Listeners.{HoldsListener, newer, IsTidy}
use react_native_sync_provid.Hooks.Snapshot.{
  State, Wait, subscribing, Settled, mount, settle, input, cleanup, unsubscribe, settles, removal,
  subscription, use_sync_snapshot, on_event,
}

-- The number of subscriptions that a wait can still lead to.
abbrev pub weight : Wait → ℕ
weight subscribing = 1
weight _ = 0

settle_held :
    (r : Settled) (s : State)
    → (settle r s).0.subscription_id ≡ newer (subscription r) s.subscription_id
unfolding settle
settle_held answer s = ground arith

settle_weight :
    (r : Settled) (s : State)
    → tally weight (settle r s).1 + length (listed (subscription r) []) ≤ weight (settles r)
unfolding settle
settle_weight answer s = ground arith

settle_quiet :
    (r : Settled) (s : State) (ids : List String) → collect removal (settle r s).1 ids ≡ ids
unfolding settle
settle_quiet answer s ids = ground arith

input_held : (i : SyncEvent) (s : State) → (input i s).0.subscription_id ≡ s.subscription_id
unfolding input on_event
input_held i s = ground arith

input_weight : (i : SyncEvent) (s : State) → tally weight (input i s).1 ≡ 0
unfolding input on_event
input_weight i s = ground arith

input_quiet :
    (i : SyncEvent) (s : State) (ids : List String) → collect removal (input i s).1 ids ≡ ids
unfolding input on_event
input_quiet i s ids = ground arith

cleanup_removes :
    (o : Option String) (ids : List String) → collect removal (unsubscribe o) ids ≡ listed o ids
cleanup_removes none ids = refl
cleanup_removes (some id) ids = refl

cleanup_weight : (o : Option String) → tally weight (unsubscribe o) ≡ 0
cleanup_weight none = refl
cleanup_weight (some id) = refl

pub holds_listener : HoldsListener use_sync_snapshot
unfolding cleanup
holds_listener = record {
  held = λ s. s.subscription_id;
  weight = weight;
  settle_held = settle_held;
  settle_weight = settle_weight;
  settle_quiet = settle_quiet;
  input_held = input_held;
  input_weight = input_weight;
  input_quiet = input_quiet;
  cleanup_held = λ s. refl;
  cleanup_weight = λ s. cleanup_weight s.subscription_id;
  cleanup_removes = λ s ids. cleanup_removes s.subscription_id ids;
}

pub mount-IsTidy :
    (available : Bool)
    → IsTidy use_sync_snapshot holds_listener (begun use_sync_snapshot (mount available))
unfolding holds_listener mount
mount-IsTidy true = record { once = ground arith; held = ground arith; kept = inr (ground arith) }
mount-IsTidy false = record { once = ground arith; held = ground arith; kept = inr (ground arith) }
