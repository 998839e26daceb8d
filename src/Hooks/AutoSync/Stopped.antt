-- ===== src/Hooks/AutoSync/Stopped.antt =====
-- useAutoSync after its cleanup.
use Prim.Native.String.{String}
use react_native_sync_provid.Common.{ℕ, ◌≡◌, refl, true, Option, none, some, arith}
use react_native_sync_provid.Hooks.Runtime.{
  Running, Step, settles, receives, unmounts, Reach, Reach-inv, unmounted_by, tally, tally-append,
}
use react_native_sync_provid.Hooks.AutoSync.{
  Settings, State, Wait, Settled, Input, settle, input, on_connection, cleanup, unsubscribe,
  use_auto_sync,
}
use react_native_sync_provid.Hooks.AutoSync.Triggers.{flushes}

abbrev H : Type 0
H = Running State Wait Settled

-- The timer is cleared, the hook is marked as gone, and so many flushes were begun.
record IsStopped (n : ℕ) (h : H) : Type 0 where
  cancelled : h.state.cancelled ≡ true
  no_timer : h.state.timer ≡ none
  begun : tally flushes h.calls ≡ n

unsubscribe-flushes : (o : Option String) → tally flushes (unsubscribe o) ≡ 0
unsubscribe-flushes none = refl
unsubscribe-flushes (some id) = refl

module _ (options : Settings) where
  settle_keeps :
      (r : Settled) (s : State)
      → s.cancelled ≡ true
      → ((settle r s).0.cancelled ≡ true)
        × ((settle r s).0.timer ≡ s.timer)
        × (tally flushes (settle r s).1 ≡ 0)
  unfolding settle
  settle_keeps answer s h = ground arith

  input_keeps :
      (i : Input) (s : State)
      → s.cancelled ≡ true
      → ((input options i s).0.cancelled ≡ true)
        × ((input options i s).0.timer ≡ s.timer)
        × (tally flushes (input options i s).1 ≡ 0)
  unfolding input on_connection
  input_keeps answer s h = ground arith

  Step-IsStopped :
      (n : ℕ) (g k : H) → Step (use_auto_sync options) g k → IsStopped n g → IsStopped n k
  Step-IsStopped n g k (settles r pick) h =
      ground (
        arith,
        settle_keeps r g.state h.cancelled,
        tally-append flushes (settle r g.state).1 g.calls,
      )
  Step-IsStopped n g k (receives i) h = ground (
    arith,
    input_keeps i g.state h.cancelled,
    tally-append flushes (input options i g.state).1 g.calls,
  )
  Step-IsStopped n g k (unmounts m) h =
      unfold cleanup in
      ground (
        arith,
        unsubscribe-flushes g.state.subscription_id,
        tally-append flushes (unsubscribe g.state.subscription_id) g.calls,
      )

  unmounted-IsStopped :
      (h : H) → IsStopped (tally flushes h.calls) (unmounted_by (use_auto_sync options) h)
  unfolding cleanup
  unmounted-IsStopped h = ground (
    arith,
    unsubscribe-flushes h.state.subscription_id,
    tally-append flushes (unsubscribe h.state.subscription_id) h.calls,
  )

  -- After the cleanup of useAutoSync, whatever it was waiting for and whatever comes then, its timer
  -- stays cleared and no flush is begun any more.
  pub unmounted_by-flushes :
      (h k : H)
      → Reach (use_auto_sync options) (unmounted_by (use_auto_sync options) h) k
      → (tally flushes k.calls ≡ tally flushes h.calls) × (k.state.timer ≡ none)
  unmounted_by-flushes h k r =
      let s =
        Reach-inv (use_auto_sync options) (IsStopped (tally flushes h.calls))
          (Step-IsStopped (tally flushes h.calls)) (unmounted-IsStopped h) r in
      (s.begun, s.no_timer)
