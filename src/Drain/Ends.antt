-- ===== src/Drain/Ends.antt =====
-- Postconditions of awaiting code: one predicate for each way in which it can end, and the rules
-- that put the conditions of its parts together.
use react_native_sync_provid.Types.Errors.{Thrown}
use react_native_sync_provid.Types.Sync.{DrainStoppedReason}
use react_native_sync_provid.Drain.Frame.{Frame, Ended, done, stopped, failed, M, ◌>>=◌}

module _ {S : Type 0} (X : DrainStoppedReason → Frame S → Type 0)
    (Y : Thrown → Frame S → Type 0) where
  abbrev pub Ends : {A : Type 0} → (A → Frame S → Type 0) → Ended S A → Type 0
  Ends D (done a f) = D a f
  Ends D (stopped r f) = X r f
  Ends D (failed e f) = Y e f

  pub Ends-bind :
      {A B : Type 0} (D : A → Frame S → Type 0) (D' : B → Frame S → Type 0) (m : M S A)
      (k : A → M S B) (f : Frame S)
      → Ends D (m f)
      → ((a : A) (f' : Frame S) → D a f' → Ends D' (k a f'))
      → Ends D' ((m >>= k) f)
  Ends-bind {A} D D' m k f first next = split (m f) first
    where
      split :
          (e : Ended S A)
          → Ends D e
          → Ends D' (elim e [
            | done a f' ↦ k a f'
            | stopped r f' ↦ stopped r f'
            | failed x f' ↦ failed x f'
          ])
      split (done a f') h = next a f' h
      split (stopped r f') h = h
      split (failed x f') h = h

  pub Ends-mono :
      {A : Type 0} (D D' : A → Frame S → Type 0) (e : Ended S A)
      → Ends D e
      → ((a : A) (f' : Frame S) → D a f' → D' a f')
      → Ends D' e
  Ends-mono D D' (done a f') h weaken = weaken a f' h
  Ends-mono D D' (stopped r f') h weaken = h
  Ends-mono D D' (failed x f') h weaken = h
