-- ===== src/Hooks/Events/Lifecycle.antt =====
-- The listener of `useSyncEvents`, which the hook also removes where it comes late.
use react_native_sync_provid.Common.{
  ℕ, ◌+◌, ◌≤◌, ◌≡◌, ◌⊎◌, inl, inr, ap, sym, ◌∙◌, Bool, true, false, List, [], Option, none, length,
  arith,
}
use react_native_sync_provid.Types.Enums.{SyncEventType}
use react_native_sync_provid.Hooks.Runtime.{
  listed, Running, Step, settles, receives, unmounts, Reach, Reach-inv, begun, obtained, removed,
  tally, tally-Picks, tally-append,
}
use react_native_sync_provid.Hooks.Events.{
  State, Wait, subscribing, Settled, mount, settle, input, cleanup, unsubscribe, use_sync_events,
}

abbrev weight : Wait → ℕ
weight subscribing = 1
weight _ = 0

-- All listeners but the one that is held are removed; after the unmount none is held.
record IsClean (h : Running State Wait Settled) : Type 0 where
  once : tally weight h.pending + length (obtained use_sync_events h) ≤ 1
  balanced : obtained use_sync_events h ≡ listed h.state.subscription_id (removed use_sync_events h)
  unheld : (h.mounted ≡ true) ⊎ (h.state.subscription_id ≡ none)
  flagged : (h.mounted ≡ true) ⊎ (h.state.cancelled ≡ true)

Step-IsClean : (g k : Running State Wait Settled) → Step use_sync_events g k → IsClean g → IsClean k
unfolding settle input cleanup
Step-IsClean g k (settles r {rest} pick) c = ground (
  arith,
  tally-Picks weight pick,
  tally-append weight rest [],
  tally-append weight rest (settle r g.state).1,
)
Step-IsClean g k (receives i) c = ground (arith, tally-append weight g.pending [])
Step-IsClean g k (unmounts m) c =
    ground (arith, tally-append weight g.pending (unsubscribe g.state.subscription_id))

mount-IsClean :
    (enabled available : Bool) (types : Option (List SyncEventType))
    → IsClean (begun use_sync_events (mount enabled available types))
unfolding mount
mount-IsClean true true types = ground arith
mount-IsClean true false types = ground arith
mount-IsClean false available types = ground arith

-- The lifecycle of the listener of `useSyncEvents`, in whatever order promises settle and events
-- come: the hook obtains one listener at most; while it is mounted the listener is removed or
-- held; and after the cleanup all that it obtained is removed, also a listener that comes late.
pub use_sync_events-removed :
    (enabled available : Bool) (types : Option (List SyncEventType))
    (h : Running State Wait Settled)
    → Reach use_sync_events (begun use_sync_events (mount enabled available types)) h
    → (length (obtained use_sync_events h) ≤ 1)
      × (obtained use_sync_events h ≡ listed h.state.subscription_id (removed use_sync_events h))
      × ((h.mounted ≡ true) ⊎ (removed use_sync_events h ≡ obtained use_sync_events h))
use_sync_events-removed enabled available types h r =
    let c =
      Reach-inv use_sync_events IsClean Step-IsClean (mount-IsClean enabled available types) r in
    (
      omega (arith, c.once),
      c.balanced,
      elim c.unheld [
        | inl mounted ↦ inl mounted
        | inr unheld ↦
            inr (sym (c.balanced ∙ ap (λ o. listed o (removed use_sync_events h)) unheld))
      ],
    )
