-- ===== src/Hooks/AutoSync/Listener.antt =====
-- The one listener of the hook.
use Prim.Native.String.{String}
use react_native_sync_provid.Common.{
  ℕ, ◌+◌, ◌≤◌, ◌≡◌, refl, inr, Bool, true, false, List, [], Option, none, some, arith, length,
}
use react_native_sync_provid.Hooks.Runtime.{begun, listed, collect, tally}
use react_native_sync_provid.Hooks.Listeners.{HoldsListener, newer, IsTidy}
use react_native_sync_provid.Hooks.AutoSync.{
  State, Wait, subscribing, Settled, mount, settle, input, cleanup, unsubscribe, settles, removal,
  subscription, use_auto_sync, Input, on_connection, Settings,
}

-- The number of subscriptions that a wait can still lead to.
abbrev pub weight : Wait → ℕ
weight subscribing = 1
weight _ = 0

settle_held :
    (r : Settled) (s : State)
    → (settle r s).0.subscription_id ≡ newer (subscription r) s.subscription_id
unfolding settle
settle_held answer s = ground arith

settle_weight :
    (r : Settled) (s : State)
    → tally weight (settle r s).1 + length (listed (subscription r) []) ≤ weight (settles r)
unfolding settle
settle_weight answer s = ground arith

settle_quiet :
    (r : Settled) (s : State) (ids : List String) → collect removal (settle r s).1 ids ≡ ids
unfolding settle
settle_quiet answer s ids = ground arith

input_held :
    (options : Settings) (i : Input) (s : State)
    → (input options i s).0.subscription_id ≡ s.subscription_id
unfolding input on_connection
input_held options answer s = ground arith

input_weight : (options : Settings) (i : Input) (s : State) → tally weight (input options i s).1 ≡ 0
unfolding input on_connection
input_weight options answer s = ground arith

input_quiet :
    (options : Settings) (i : Input) (s : State) (ids : List String)
    → collect removal (input options i s).1 ids ≡ ids
unfolding input on_connection
input_quiet options answer s ids = ground arith

cleanup_removes :
    (o : Option String) (ids : List String) → collect removal (unsubscribe o) ids ≡ listed o ids
cleanup_removes none ids = refl
cleanup_removes (some id) ids = refl

cleanup_weight : (o : Option String) → tally weight (unsubscribe o) ≡ 0
cleanup_weight none = refl
cleanup_weight (some id) = refl

pub holds_listener : (options : Settings) → HoldsListener (use_auto_sync options)
unfolding cleanup
holds_listener options = record {
  held = λ s. s.subscription_id;
  weight = weight;
  settle_held = settle_held;
  settle_weight = settle_weight;
  settle_quiet = settle_quiet;
  input_held = input_held options;
  input_weight = input_weight options;
  input_quiet = input_quiet options;
  cleanup_held = λ s. refl;
  cleanup_weight = λ s. cleanup_weight s.subscription_id;
  cleanup_removes = λ s ids. cleanup_removes s.subscription_id ids;
}

pub mount-IsTidy :
    (available : Bool) (options : Settings)
    → IsTidy
        (use_auto_sync options)
        (holds_listener options)
        (begun (use_auto_sync options) (mount available options))
unfolding holds_listener mount
mount-IsTidy true options = record {
  once = ground arith;
  held = ground arith;
  kept = inr (ground arith);
}
mount-IsTidy false options = record {
  once = ground arith;
  held = ground arith;
  kept = inr (ground arith);
}
