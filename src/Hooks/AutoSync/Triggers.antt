-- ===== src/Hooks/AutoSync/Triggers.antt =====
-- When useAutoSync flushes.
use Prim.Native.String.{String}
use react_native_sync_provid.Common.{
  ℕ, ◌+◌, ◌≤◌, ◌≡◌, refl, Bool, false, List, [], ◌∷◌, Option, none, some, arith, if◌then◌else◌,
}
use react_native_sync_provid.Types.Errors.{fulfilled}
use react_native_sync_provid.Hooks.Results.{is_disconnected}
use react_native_sync_provid.Hooks.Runtime.{
  Running, Picks, Step, settles, receives, unmounts, Reach, Reach-inv, begun, settled_by, tally,
  tally-Picks, tally-append,
}
use react_native_sync_provid.Hooks.AutoSync.{
  Settings, State, Wait, checking_syncing, flushing, Settled, connection_checked, syncing_checked,
  Input, mount, settle, input, on_connection, cleanup, unsubscribe, use_auto_sync,
}

abbrev pub flushes : Wait → ℕ
flushes flushing = 1
flushes _ = 0

abbrev pub checks : Wait → ℕ
checks checking_syncing = 1
checks _ = 0

-- The answers that the device is not offline, and the answers about a running cycle.
abbrev pub online_answers : Settled → ℕ
online_answers (connection_checked (fulfilled c)) = if is_disconnected c.status then 0 else 1
online_answers _ = 0

abbrev pub check_answers : Settled → ℕ
check_answers (syncing_checked outcome) = 1
check_answers _ = 0

abbrev pub idle_answers : Settled → ℕ
idle_answers (syncing_checked (fulfilled false)) = 1
idle_answers _ = 0

abbrev H : Type 0
H = Running State Wait Settled

-- Each flush has an answer of its own that no cycle runs; each check an answer that the device is
-- not offline.
record IsGuarded (h : H) : Type 0 where
  flushed : tally flushes h.calls ≤ tally idle_answers h.answers
  answered : tally idle_answers h.answers + tally checks h.pending ≤ tally checks h.calls
  online : tally checks h.calls ≤ tally online_answers h.answers

unsubscribe_tallies :
    (o : Option String) → (tally flushes (unsubscribe o) ≡ 0) × (tally checks (unsubscribe o) ≡ 0)
unsubscribe_tallies none = (refl, refl)
unsubscribe_tallies (some id) = (refl, refl)

module _ (options : Settings) (unwanted : options.flush_on_reconnect ≡ false) where
  settles-IsGuarded :
      (g : H) (r : Settled) (rest : List Wait)
      → Picks ((use_auto_sync options).settles r) g.pending rest
      → IsGuarded g
      → IsGuarded (settled_by (use_auto_sync options) g r rest)
  unfolding settle
  settles-IsGuarded g r rest pick h = ground (
    arith,
    tally-Picks checks pick,
    tally-append checks rest [],
    tally-append checks rest (checking_syncing ∷ []),
    tally-append checks rest (flushing ∷ []),
  )

  input_tallies :
      (i : Input) (s : State)
      → (tally flushes (input options i s).1 ≡ 0) × (tally checks (input options i s).1 ≡ 0)
  unfolding input on_connection
  input_tallies i s = ground (arith, unwanted)

  Step-IsGuarded : (g k : H) → Step (use_auto_sync options) g k → IsGuarded g → IsGuarded k
  Step-IsGuarded g k (settles r {rest} pick) h = settles-IsGuarded g r rest pick h
  Step-IsGuarded g k (receives i) h = ground (
    arith,
    input_tallies i g.state,
    tally-append checks g.pending (input options i g.state).1,
    tally-append checks (input options i g.state).1 g.calls,
    tally-append flushes (input options i g.state).1 g.calls,
  )
  Step-IsGuarded g k (unmounts m) h =
      let waits = unsubscribe g.state.subscription_id in
      unfold cleanup in
      ground (
        arith,
        unsubscribe_tallies g.state.subscription_id,
        tally-append checks g.pending waits,
        tally-append checks waits g.calls,
        tally-append flushes waits g.calls,
      )

  mount-IsGuarded :
      (available : Bool) → IsGuarded (begun (use_auto_sync options) (mount available options))
  unfolding mount
  mount-IsGuarded available = ground arith

  -- Where reconnects do not trigger, each flush of useAutoSync has an answer of its own that no
  -- cycle runs, and an answer of its own that the device is not offline, in whatever order ticks,
  -- changes of the app's state and answers come.
  pub use_auto_sync-IsGuarded :
      (available : Bool) (h : H)
      → Reach (use_auto_sync options) (begun (use_auto_sync options) (mount available options)) h
      → (tally flushes h.calls ≤ tally idle_answers h.answers)
        × (tally flushes h.calls ≤ tally online_answers h.answers)
  use_auto_sync-IsGuarded available h r =
      let g =
        Reach-inv (use_auto_sync options) IsGuarded Step-IsGuarded (mount-IsGuarded available) r in
      (g.flushed, omega (arith, g.flushed, g.answered, g.online))
