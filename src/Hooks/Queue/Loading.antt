-- ===== src/Hooks/Queue/Loading.antt =====
-- The loading flag of useSyncQueue.
use react_native_sync_provid.Common.{ℕ, ◌<◌, ◌≡◌, ◌⊎◌, Bool, true, false, [], ◌∷◌, arith}
use react_native_sync_provid.Hooks.Runtime.{
  Running, Step, settles, receives, unmounts, Reach, Reach-inv, begun, tally, tally-append,
  tally-Picks,
}
use react_native_sync_provid.Hooks.Queue.{
  State, Wait, reading_queue, Settled, mount, refresh, settle, input, cleanup, use_sync_queue,
}

abbrev pub reads : Wait → ℕ
reads reading_queue = 1
reads _ = 0

abbrev H : Type 0
H = Running State Wait Settled

record IsHonest (h : H) : Type 0 where
  flagged : (h.mounted ≡ true) ⊎ (h.state.cancelled ≡ true)
  alive : (h.mounted ≡ false) ⊎ (h.state.cancelled ≡ false)
  loading : (h.mounted ≡ false) ⊎ ((h.state.is_loading ≡ false) ⊎ (0 < tally reads h.pending))

module _ (available : Bool) where
  Step-IsHonest : (g k : H) → Step (use_sync_queue available) g k → IsHonest g → IsHonest k
  unfolding settle input refresh cleanup
  Step-IsHonest g k (settles r {rest} pick) h =
      ground (arith, tally-Picks reads pick, tally-append reads rest [])
  Step-IsHonest g k (receives i) h =
      ground
        (arith, tally-append reads g.pending [], tally-append reads g.pending (reading_queue ∷ []))
  Step-IsHonest g k (unmounts m) h = ground arith

  mount-IsHonest : IsHonest (begun (use_sync_queue available) (mount available))
  unfolding mount
  mount-IsHonest = ground arith

  -- While the component is mounted and no read of the queue is pending, useSyncQueue does not show
  -- that it loads: no order of events, calls of `refresh`, answers and rejections leaves it loading.
  pub use_sync_queue-loading :
      (h : H)
      → Reach (use_sync_queue available) (begun (use_sync_queue available) (mount available)) h
      → h.mounted ≡ true
      → tally reads h.pending ≡ 0
      → h.state.is_loading ≡ false
  use_sync_queue-loading h r m none_pending =
      let c = Reach-inv (use_sync_queue available) IsHonest Step-IsHonest mount-IsHonest r in
      ground (arith, c.loading)
