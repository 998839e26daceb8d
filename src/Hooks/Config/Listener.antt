-- ===== src/Hooks/Config/Listener.antt =====
-- The one listener of the hook.
use Prim.Native.String.{String}
use react_native_sync_provid.Common.{
  ℕ, ◌+◌, ◌≤◌, ◌≡◌, refl, inr, Bool, true, false, List, [], Option, none, some, arith, length,
}
use react_native_sync_provid.Hooks.Runtime.{begun, listed, collect, tally}
use react_native_sync_provid.Hooks.Listeners.{HoldsListener, newer, IsTidy}
use react_native_sync_provid.Hooks.Config.{
  State, Wait, effect, has_provider, SyncProviderContextValue, subscribing, Settled, mount, settle,
  input, cleanup, unsubscribe, settles, removal, subscription, use_sync_config, Input, refresh,
}

-- The number of subscriptions that a wait can still lead to.
abbrev pub weight : Wait → ℕ
weight subscribing = 1
weight _ = 0

settle_held :
    (available : Bool) (r : Settled) (s : State)
    → (settle available r s).0.subscription_id ≡ newer (subscription r) s.subscription_id
unfolding settle refresh
settle_held available answer s = ground arith

settle_weight :
    (available : Bool) (r : Settled) (s : State)
    → tally weight (settle available r s).1 + length (listed (subscription r) [])
      ≤ weight (settles r)
unfolding settle refresh
settle_weight available answer s = ground arith

settle_quiet :
    (available : Bool) (r : Settled) (s : State) (ids : List String)
    → collect removal (settle available r s).1 ids ≡ ids
unfolding settle refresh
settle_quiet available answer s ids = ground arith

input_held :
    (available : Bool) (i : Input) (s : State)
    → (input available i s).0.subscription_id ≡ s.subscription_id
unfolding input refresh
input_held available answer s = ground arith

input_weight : (available : Bool) (i : Input) (s : State) → tally weight (input available i s).1 ≡ 0
unfolding input refresh
input_weight available answer s = ground arith

input_quiet :
    (available : Bool) (i : Input) (s : State) (ids : List String)
    → collect removal (input available i s).1 ids ≡ ids
unfolding input refresh
input_quiet available answer s ids = ground arith

cleanup_removes :
    (o : Option String) (ids : List String) → collect removal (unsubscribe o) ids ≡ listed o ids
cleanup_removes none ids = refl
cleanup_removes (some id) ids = refl

cleanup_weight : (o : Option String) → tally weight (unsubscribe o) ≡ 0
cleanup_weight none = refl
cleanup_weight (some id) = refl

cleanup_held :
    (available : Bool) (ctx : SyncProviderContextValue) (s : State)
    → (cleanup available ctx s).0.subscription_id ≡ s.subscription_id
unfolding cleanup
cleanup_held available ctx s = ground arith

pub holds_listener :
    (available : Bool) (ctx : SyncProviderContextValue)
    → HoldsListener (use_sync_config available ctx)
unfolding cleanup
holds_listener available ctx = record {
  held = λ s. s.subscription_id;
  weight = weight;
  settle_held = settle_held available;
  settle_weight = settle_weight available;
  settle_quiet = settle_quiet available;
  input_held = input_held available;
  input_weight = input_weight available;
  input_quiet = input_quiet available;
  cleanup_held = cleanup_held available ctx;
  cleanup_weight = λ s. cleanup_weight s.subscription_id;
  cleanup_removes = λ s ids. cleanup_removes s.subscription_id ids;
}

pub mount-IsTidy :
    (available : Bool) (ctx : SyncProviderContextValue)
    → IsTidy
        (use_sync_config available ctx)
        (holds_listener available ctx)
        (begun (use_sync_config available ctx) (mount available ctx))
unfolding holds_listener mount effect has_provider
mount-IsTidy true ctx = record {
  once = ground arith;
  held = ground arith;
  kept = inr (ground arith);
}
mount-IsTidy false ctx = record {
  once = ground arith;
  held = ground arith;
  kept = inr (ground arith);
}
