-- ===== src/Hooks/Provider/Ownership.antt =====
-- Background sync under the provider: it is given back only where this provider turned it on.
use Prim.Native.String.{String}
use react_native_sync_provid.Common.{
  ℕ, ◌+◌, ◌≤◌, ◌≡◌, refl, Bool, true, false, Option, none, some, arith,
}
use react_native_sync_provid.Types.Sync.{SyncOptions, BackgroundSyncOptions}
use react_native_sync_provid.Types.Errors.{fulfilled}
use react_native_sync_provid.Hooks.Runtime.{
  Running, Step, settles, receives, unmounts, Reach, Reach-inv, begun, tally, tally-append,
}
use react_native_sync_provid.Hooks.Provider.{
  State, Wait, enabling, disabling, Settled, first_read, enabled, event, rendered, effect, mount,
  settle, input, render_again, cleanup, unsubscribe, give_back, subscription_of,
  after_configuration, sync_provider,
}

abbrev pub disables : Wait → ℕ
disables disabling = 1
disables _ = 0

-- `enableBackgroundSync` calls, and those of them that succeeded.
abbrev pub enables : Wait → ℕ
enables (enabling run background) = 1
enables _ = 0

abbrev pub enabled_answers : Settled → ℕ
enabled_answers (enabled run background (fulfilled _)) = 1
enabled_answers _ = 0

abbrev pub one_if : Bool → ℕ
one_if true = 1
one_if false = 0

abbrev H : Type 0
H = Running State Wait Settled

-- What is given back, and what is owned now, was enabled before.
abbrev pub IsOwned : H → Type 0
IsOwned h =
    tally disables h.calls + one_if h.state.owns_background ≤ tally enabled_answers h.answers

after_configuration-disables :
    (run : ℕ) (background : Option BackgroundSyncOptions)
    → tally disables (after_configuration run background) ≡ 0
after_configuration-disables run none = refl
after_configuration-disables run (some background) = refl

unsubscribe-disables : (o : Option String) → tally disables (unsubscribe o) ≡ 0
unsubscribe-disables none = refl
unsubscribe-disables (some id) = refl

cleanup-disables : (s : State) → tally disables (cleanup s).1 ≡ one_if s.owns_background
unfolding cleanup
cleanup-disables s = ground (
  arith,
  tally-append disables (unsubscribe (subscription_of s.run s.subscription_ids)) (give_back s),
  unsubscribe-disables (subscription_of s.run s.subscription_ids),
)

cleanup-owns : (s : State) → (cleanup s).0.owns_background ≡ false
unfolding cleanup
cleanup-owns s = refl

effect-keeps :
    (available : Bool) (options : SyncOptions) (background : Option BackgroundSyncOptions)
    (s : State)
    → (tally disables (effect available options background s).1 ≡ 0)
      × ((effect available options background s).0.owns_background ≡ s.owns_background)
unfolding effect
effect-keeps available options background s = ground arith

module _ (available : Bool) where
  render_again-gives_back :
      (options : SyncOptions) (background : Option BackgroundSyncOptions) (s : State)
      → (tally disables (render_again available options background s).1 ≡ one_if s.owns_background)
        × ((render_again available options background s).0.owns_background ≡ false)
  unfolding render_again
  render_again-gives_back options background s = ground (
    arith,
    effect-keeps available options background (cleanup s).0,
    cleanup-owns s,
    cleanup-disables s,
    tally-append disables (cleanup s).1 (effect available options background (cleanup s).0).1,
  )

  Step-IsOwned : (g k : H) → Step (sync_provider available) g k → IsOwned g → IsOwned k
  unfolding settle
  Step-IsOwned g k (settles (first_read run applied background o) pick) h = ground (
    arith,
    after_configuration-disables run background,
    tally-append disables (after_configuration run background) g.calls,
  )
  Step-IsOwned g k (settles _ pick) h = ground arith
  Step-IsOwned g k (receives (event e)) h = unfold input in ground arith
  Step-IsOwned g k (receives (rendered options background)) h =
      unfold input in
      ground (
        arith,
        render_again-gives_back options background g.state,
        tally-append disables (render_again available options background g.state).1 g.calls,
      )
  Step-IsOwned g k (unmounts m) h = ground (
    arith,
    cleanup-owns g.state,
    cleanup-disables g.state,
    tally-append disables (cleanup g.state).1 g.calls,
  )

  mount-IsOwned :
      (options : SyncOptions) (background : Option BackgroundSyncOptions)
      → IsOwned (begun (sync_provider available) (mount available options background))
  unfolding mount effect
  mount-IsOwned options background = ground arith

  -- The provider calls `disableBackgroundSync` at most as often as its calls of
  -- `enableBackgroundSync` have succeeded, and once less while it owns background sync, over any
  -- renders, events and answers, an unmount included.
  pub sync_provider-IsOwned :
      (options : SyncOptions) (background : Option BackgroundSyncOptions) (h : H)
      → Reach
          (sync_provider available)
          (begun (sync_provider available) (mount available options background))
          h
      → IsOwned h
  sync_provider-IsOwned options background h r =
      Reach-inv (sync_provider available) IsOwned Step-IsOwned (mount-IsOwned options background) r
