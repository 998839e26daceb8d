-- ===== src/Drain/Prompt.antt =====
-- An engine that works, and the waits of the loop on it.
use react_native_sync_provid.Common.{ℕ, zero, suc, ◌+◌, ◌*◌, ◌-◌, ◌≤◌, ◌<◌, ◌≡◌, ◌≢◌, false, arith}
use react_native_sync_provid.Common.Int.{pos, pos_part, -ℤ_parts}
use react_native_sync_provid.Types.Enums.{ConnectionStatus}
use react_native_sync_provid.Drain.Frame.{Reply, resolves, DrainNativeOps, Frame, Ended}
use react_native_sync_provid.Drain.Race.{race_with_stop, max_timer_delay_ms}
use react_native_sync_provid.Drain.Loop.{Bounds, guarded}
use react_native_sync_provid.Drain.Ends.{Ends}

-- The call answers within `d` ms, with no `cancelDrain()` before the loop goes on.
abbrev pub AnswersWith : {S A : Type 0} → ℕ → (A → S → Type 0) → Reply A → S → Type 0
AnswersWith d P (resolves t a false) s = (t ≤ d) × P a s
AnswersWith d P _ s = ⊥

abbrev pub Answers : {S A : Type 0} → ℕ → (A → S → Type 0) → Reply A × S → Type 0
Answers d P (reply, s) = AnswersWith d P reply s

-- Every call answers in time, the device is not offline, no other cycle runs, and a cycle takes an
-- item at least out of a queue that is not empty.
pub record IsPrompt {S : Type 0} (native : DrainNativeOps S) (size : S → ℕ) (d : ℕ) : Type 0 where
  pub is_syncing :
      (now : ℕ) (s : S)
      → Answers d (λ syncing s'. (syncing ≡ false) × (size s' ≡ size s)) (native.is_syncing now s)
  pub get_queue_size :
      (now : ℕ) (s : S)
      → Answers d (λ n s'. (n ≡ size s) × (size s' ≡ size s)) (native.get_queue_size now s)
  pub get_connection_status :
      (now : ℕ) (s : S)
      → Answers d
          (λ c s'. (c.status ≢ ConnectionStatus.disconnected) × (size s' ≡ size s))
          (native.get_connection_status now s)
  pub flush : (now : ℕ) (s : S) → Answers d (λ r s'. size s' ≤ size s - 1) (native.flush now s)

-- The time for a queue of so many items: four calls for each, and four to see that it is empty.
abbrev pub needed : ℕ → ℕ → ℕ
needed d zero = 4 * d
needed d (suc n) = 4 * d + needed d n

-- Code that ends with a value, by no exception.
abbrev pub Succeeds : {S A : Type 0} → (A → Frame S → Type 0) → Ended S A → Type 0
Succeeds D e = Ends (λ _ _. ⊥) (λ _ _. ⊥) D e

-- What a call that answers within `d` ms leaves as it was.
pub record Went {S : Type 0} (d : ℕ) (f f' : Frame S) : Type 0 where
  pub uncancelled : f'.state.cancelled ≡ false
  pub iterations : f'.iterations ≡ f.iterations
  pub last_size : f'.last_size ≡ f.last_size
  pub cycle_just_ran : f'.cycle_just_ran ≡ f.cycle_just_ran
  pub clock : f'.clock ≤ f.clock + d

pub guarded-Succeeds :
    {S A : Type 0} (b : Bounds) (d : ℕ) (P : A → S → Type 0) (op : ℕ → S → Reply A × S)
    (f : Frame S)
    → d ≤ max_timer_delay_ms
    → f.state.cancelled ≡ false
    → f.clock + d < pos_part b.deadline_at
    → Answers d P (op f.clock f.env)
    → Succeeds (λ a f'. Went d f f' × P a f'.env) (guarded b op f)
unfolding guarded race_with_stop
guarded-Succeeds b d P op f short h room answers =
    ground (arith, -ℤ_parts b.deadline_at (pos f.clock), short)
