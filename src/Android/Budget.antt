-- ===== src/Android/Budget.antt =====
-- The attempts that the table counts, against the budget of the retry policy.
use Prim.Native.String.{String}
use react_native_sync_provid.Common.{
  ℕ, zero, suc, ◌+◌, ◌≤◌, ◌<◌, max, ◌≡◌, Bool, true, false, ◌&&◌, [], ◌∷◌, Option, none, some,
  arith, inl, inr, Bool-cases, if◌then◌else◌, All,
}
use react_native_sync_provid.Common.Int.{ℤ, pos, negsuc, pos_part, max_ℤ, leb_ℤ}
use react_native_sync_provid.Hooks.Runtime.{Picks, here, there}
use react_native_sync_provid.Types.Sync.{SyncOptions}
use react_native_sync_provid.Types.Errors.{max_attempts_exceeded}
use react_native_sync_provid.Backoff.Kotlin.{has_budget}
use react_native_sync_provid.Android.Sorting.{order_by-Arranges}
use react_native_sync_provid.Android.Verdict.{
  Verdict, deliver, wait, give_up, backoff, after_result, is_exhausted, verdict,
}
use react_native_sync_provid.Android.Rows.{
  SyncItemEntity, pending, is_in_flight, Table, select, take, has_id, claimable,
}
use react_native_sync_provid.Android.Storage.{SyncQueueStorage}
use react_native_sync_provid.Android.Attempt.{AttemptResult, success, failure, timeout_ms, run_once}
use react_native_sync_provid.Android.Dispatch.{
  plus_long, CredentialPolicy, Exchange, is_persisted, is_unauthorized, min_credential_hold_ms,
}
use react_native_sync_provid.Android.Cycle.{
  Course, undisturbed, claim_throws, record_throws, cancelled, Conditions, batch_size_of, run_cycle,
}
use react_native_sync_provid.Android.Tables.{Arranges, done, next, Distinct, pick, chosen}
use react_native_sync_provid.Android.Claim.{marked}
use react_native_sync_provid.Android.Fate.{judged, written}
use react_native_sync_provid.Android.Refinement.{
  fate_of, rejects, gated, attempted, releases, claimed_by, run_cycle-row_after,
}
use react_native_sync_provid.Android.Settled.{Kept, each-All, All-each, Kept-given, given}

-- What holds of all rows holds of those selected, limited, ordered, or picked.
module _ (P : SyncItemEntity → Type 0) where
  pub All-select : (p : SyncItemEntity → Bool) (rows : Table) → All P rows → All P (select p rows)
  All-select p [] h = tt
  All-select p (r ∷ rows) h = go (p r) (All-select p rows h.1)
    where
      go :
          (b : Bool)
          → All P (select p rows)
          → All P (if b then r ∷ select p rows else select p rows)
      go true rest = (h.0, rest)
      go false rest = rest

  pub All-take : (n : ℕ) (rows : Table) → All P rows → All P (take n rows)
  All-take zero rows h = tt
  All-take (suc n) [] h = tt
  All-take (suc n) (r ∷ rows) h = (h.0, All-take n rows h.1)

  All-Picks :
      {r : SyncItemEntity} {rows rest : Table} → Picks r rows rest → All P rows → P r × All P rest
  All-Picks here h = h
  All-Picks (there p) h = let found = All-Picks p h.1 in (found.0, (h.0, found.1))

  pub All-Arranges : {xs ys : Table} → Arranges xs ys → All P ys → All P xs
  All-Arranges done h = tt
  All-Arranges (next p a) h = let found = All-Picks p h in (found.0, All-Arranges a found.1)

  pub All-pick : (id : String) (rows : Table) → All P rows → Kept P (pick id rows)
  All-pick id [] h = tt
  All-pick id (r ∷ rows) h = go (has_id id r) (All-pick id rows h.1)
    where
      go : (b : Bool) → Kept P (pick id rows) → Kept P (if b then some r else pick id rows)
      go true rest = h.0
      go false rest = rest

module _ (scan : Table → Table) (options : SyncOptions) (credentials : CredentialPolicy)
    (conditions : Conditions) where
  pub All-gated :
      (P : SyncItemEntity → Type 0) (rows : Table)
      → All P rows
      → All P (gated scan options credentials conditions rows)
  All-gated P [] h = tt
  All-gated P (r ∷ rs) h =
      go (is_persisted credentials && rejects scan options credentials conditions r)
    where
      go : (g : Bool) → All P (if g then r ∷ [] else r ∷ rs)
      go true = (h.0, tt)
      go false = h

  pub All-attempted :
      (P : SyncItemEntity → Type 0) (course : Course) (claimed : Table)
      → All P claimed
      → All P (attempted scan options credentials conditions course claimed)
  All-attempted P undisturbed claimed h = All-gated P claimed h
  All-attempted P (record_throws code) claimed h = All-gated P claimed h
  All-attempted P (cancelled starts) claimed h =
      All-gated P (select starts claimed) (All-select P starts claimed h)
  All-attempted P (claim_throws code) claimed h = tt

  pub All-claimed :
      ((rows : Table) → Arranges (scan rows) rows)
      → (P : SyncItemEntity → Type 0) (s : SyncQueueStorage) → All P s.items
      → All P (claimed_by scan options credentials conditions s)
  All-claimed orders P s h = All-take P (batch_size_of options) _ (
      All-Arranges P (order_by-Arranges (orders _))
        (All-select P (claimable conditions.started_at) s.items h))

  -- The attempts that a policy allows.
  abbrev pub budget : ℕ
  budget = pos_part (max_ℤ options.retry_policy.max_attempts (pos 1))

  abbrev pub WithinBudget : SyncItemEntity → Type 0
  WithinBudget r = r.attempts ≤ budget

  abbrev spent : Verdict → ℕ
  spent deliver = 0
  spent (wait attempts code until) = attempts
  spent (give_up attempts code) = attempts

  after_result-spent :
      (x : Exchange) (c : SyncItemEntity) (a : AttemptResult)
      → c.attempts < budget
      → spent (after_result options credentials x c a) ≤ budget
  after_result-spent x c (success status_code) h = omega arith
  after_result-spent x c (failure code message status_code retryable) h =
      go (is_persisted credentials && is_unauthorized code)
        (retryable && has_budget (c.attempts + 1) options.retry_policy)
    where
      go :
          (a b : Bool)
          → spent (
              if a
              then wait c.attempts code (
                  plus_long x.finished_at
                    (max (backoff options credentials x c) min_credential_hold_ms))
              else if b
              then wait
                  (c.attempts + 1)
                  code
                  (plus_long x.finished_at (backoff options credentials x c))
              else give_up (c.attempts + 1) (if retryable then max_attempts_exceeded else code))
            ≤ budget
      go true b = omega (arith, h)
      go false true = omega (arith, h)
      go false false = omega (arith, h)

  left_over :
      (m : ℤ) (a : ℕ) → leb_ℤ (max_ℤ m (pos 1)) (pos a) ≡ false → a < pos_part (max_ℤ m (pos 1))
  left_over (pos m) a h = ground arith
  left_over (negsuc m) a h = ground arith

  verdict-spent :
      (x : Exchange) (c : SyncItemEntity)
      → WithinBudget c
      → spent (verdict options credentials x c) ≤ budget
  verdict-spent x c h = elim (Bool-cases (is_exhausted options credentials x c)) [
    | inl over ↦ rw over h
    | inr left ↦ rw left (
        after_result-spent x c (run_once (timeout_ms options) c.id x.current_policy x.reply)
          (left_over options.retry_policy.max_attempts c.attempts left))
  ]

  judged-spent :
      (c t : SyncItemEntity) (v : Verdict)
      → spent v ≤ budget
      → Kept WithinBudget (judged options credentials (conditions.exchange c) c v t)
  judged-spent c t deliver h = tt
  judged-spent c t (wait attempts code until) h = h
  judged-spent c t (give_up attempts code) h = h

  fate-WithinBudget :
      (c t : SyncItemEntity)
      → WithinBudget c
      → WithinBudget t
      → Kept WithinBudget (fate_of scan options credentials conditions c t)
  fate-WithinBudget c t hc ht = go (conditions.exchange c).write_throws
    where
      go :
          (w : Option String)
          → Kept WithinBudget (
              written options credentials
                (conditions.exchange c)
                c
                w
                (verdict options credentials (conditions.exchange c) c)
                t)
      go (some message) = ht
      go none = judged-spent c t _ (verdict-spent (conditions.exchange c) c hc)

  marked-WithinBudget : (b : Bool) (t : SyncItemEntity) → WithinBudget t → WithinBudget (marked b t)
  marked-WithinBudget true t h = h
  marked-WithinBudget false t h = h

  given-WithinBudget :
      (g : Bool) (u : SyncItemEntity)
      → WithinBudget u
      → WithinBudget (given scan options credentials conditions g u)
  given-WithinBudget g u h = go (g && is_in_flight u.status)
    where
      go : (b : Bool) → WithinBudget (if b then record u { status = pending } else u)
      go true = h
      go false = h

  -- A flush cycle never takes a row over the attempts that the retry policy allows (`maxAttempts`, at
  -- least 1): where every row was within them before, every row is after it, however the cycle
  -- goes, whatever the server answers, and with writes that throw.
  pub run_cycle-WithinBudget :
      ((rows : Table) → Arranges (scan rows) rows)
      → ((rows : Table) → Arranges (conditions.finishing rows) rows)
      → (s : SyncQueueStorage) → Distinct s.items
      → All WithinBudget s.items
      → All WithinBudget (run_cycle scan options credentials conditions s).storage.items
  run_cycle-WithinBudget orders finishes s distinct within =
      let claimed = claimed_by scan options credentials conditions s in
      let sent = attempted scan options credentials conditions conditions.course claimed in
      let sent_within : All WithinBudget sent =
        All-attempted WithinBudget conditions.course claimed
          (All-claimed orders WithinBudget s within) in
      rw (run_cycle-row_after scan options credentials conditions finishes orders s distinct) (
        each-All WithinBudget _ s.items (
          All-each WithinBudget _ s.items
            (λ t ht.
              Kept-given scan options credentials conditions WithinBudget
                (releases scan options credentials conditions conditions.course claimed) _
                (given-WithinBudget _)
                (picked (pick t.id sent) _ (All-pick WithinBudget t.id sent sent_within)
                  (marked-WithinBudget _ t ht)))
            within))
    where
      picked :
          (o : Option SyncItemEntity) (t : SyncItemEntity)
          → Kept WithinBudget o
          → WithinBudget t
          → Kept WithinBudget (chosen (fate_of scan options credentials conditions) o t)
      picked none t hc ht = ht
      picked (some c) t hc ht = fate-WithinBudget c t hc ht
