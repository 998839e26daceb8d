-- ===== src/Android/Reports.antt =====
-- The result of a flush cycle against the table that the cycle leaves.
use Prim.Native.String.{String}
use text.Mathlib.Text.{◌==◌ as str_eq}
use text.Mathlib.TextEquality.{eq_iff}
use react_native_sync_provid.Common.{
  ◌≡◌, refl, sym, ap, ◌∙◌, Bool, true, false, ◌&&◌, [], ◌∷◌, map, Option, none, some, arith, inl,
  inr, Bool-cases, if◌then◌else◌, All,
}
use react_native_sync_provid.Types.Sync.{SyncOptions, SyncResult}
use react_native_sync_provid.Android.Verdict.{verdict, delivered, lost, standing, outcome_id}
use react_native_sync_provid.Android.Rows.{
  SyncItemEntity, pending, failed, is_in_flight, Table, each, has_id,
}
use react_native_sync_provid.Android.Storage.{SyncQueueStorage}
use react_native_sync_provid.Android.Dispatch.{
  CredentialPolicy, ItemOutcome, succeeded, rescheduled, credential_rejected, failed_outcome,
  is_persisted,
}
use react_native_sync_provid.Android.Cycle.{
  undisturbed, Conditions, dispatch_claimed, is_rejected, dispatch, succeeded_ids_of, failures_of,
  build_result, batch_size_of, run_cycle,
}
use react_native_sync_provid.Android.Tables.{bind, Arranges, Distinct, pick, chosen, count-cons}
use react_native_sync_provid.Android.Claim.{marked, is_some, select_claimable-Distinct}
use react_native_sync_provid.Android.Refinement.{
  fate_of, rejects, gated, releases, row_after, claimed_by, run_cycle-row_after,
}
use react_native_sync_provid.Android.Settled.{Kept, each-All, All-each, Kept-given, given}
use react_native_sync_provid.Android.Tells.{Tells, dispatch_item-Tells}
use react_native_sync_provid.Android.Outcomes.{
  Kept-map, All-picked, outcome_of, dispatch_claimed-outcomes, fate-delivered, fate-lost,
  row_after-id,
}

-- What a result says of the table: a row that was delivered is gone, and a row that failed and is
-- still there is FAILED.
pub record Reports (result : SyncResult) (items : Table) : Type 0 where
  pub delivered_gone : All (λ id. All (λ r. has_id id r ≡ false) items) result.succeeded_ids
  pub failed_kept :
      All (λ id. All (λ r. has_id id r ≡ true → r.status ≡ failed) items) result.failed_ids

module _ (scan : Table → Table) (options : SyncOptions) (credentials : CredentialPolicy)
    (conditions : Conditions) where
  given-failed :
      (g : Bool) (u : SyncItemEntity)
      → u.status ≡ failed
      → (given scan options credentials conditions g u).status ≡ failed
  given-failed false u h = h
  given-failed true u h = go (is_in_flight u.status) refl
    where
      go :
          (b : Bool)
          → is_in_flight u.status ≡ b
          → (if b then record u { status = pending } else u).status ≡ failed
      go true e = absurd (ground (arith, sym (ap is_in_flight h) ∙ e))
      go false e = h

  Kept-bind :
      (P : SyncItemEntity → Type 0) (o : Option SyncItemEntity)
      (k : SyncItemEntity → Option SyncItemEntity)
      → o ≡ none
      → Kept P (bind o k)
  Kept-bind P none k e = tt
  Kept-bind P (some u) k e = absurd (ground (arith, e))

  Kept-same :
      (P : SyncItemEntity → Type 0) (o q : Option SyncItemEntity) → o ≡ q → Kept P q → Kept P o
  Kept-same P o q e h = rw e h

  module _ (claimed : Table) (c : SyncItemEntity)
      (picked : pick c.id (gated scan options credentials conditions claimed) ≡ some c) where
    abbrev after_row : SyncItemEntity → Option SyncItemEntity
    after_row t = row_after scan options credentials conditions undisturbed claimed t

    abbrev marked_row : SyncItemEntity → SyncItemEntity
    marked_row t = marked (is_some (pick t.id claimed)) t

    met :
        (t : SyncItemEntity)
        → has_id c.id t ≡ true
        → chosen
            (fate_of scan options credentials conditions)
            (pick t.id (gated scan options credentials conditions claimed))
            (marked_row t)
          ≡ fate_of scan options credentials conditions c (marked_row t)
    met t is =
        let same : t.id ≡ c.id = (eq_iff t.id c.id).0 is in
        ap (λ o. chosen (fate_of scan options credentials conditions) o (marked_row t))
          (ap (λ id. pick id (gated scan options credentials conditions claimed)) same ∙ picked)

    delivered-row :
        standing (outcome_of scan options credentials conditions c) ≡ delivered
        → (t : SyncItemEntity) → Kept (λ r. has_id c.id r ≡ false) (after_row t)
    delivered-row sent t = elim (Bool-cases (has_id c.id t)) [
      | inl is ↦
          Kept-bind (λ r. has_id c.id r ≡ false) _ _
            (met t is ∙ fate-delivered scan options credentials conditions c (marked_row t) sent)
      | inr other ↦
          Kept-map (λ u. u.id ≡ t.id) (λ r. has_id c.id r ≡ false) (after_row t)
            (λ u e. ap (λ id. str_eq id c.id) e ∙ other)
            (row_after-id scan options credentials conditions undisturbed claimed t)
    ]

    lost-row :
        (conditions.exchange c).write_throws ≡ none
        → standing (outcome_of scan options credentials conditions c) ≡ lost
        → (t : SyncItemEntity) → Kept (λ r. has_id c.id r ≡ true → r.status ≡ failed) (after_row t)
    lost-row works sent t = elim (Bool-cases (has_id c.id t)) [
      | inl is ↦
          Kept-map (λ u. u.status ≡ failed) (λ r. has_id c.id r ≡ true → r.status ≡ failed)
            (after_row t) (λ u e is. e)
            (Kept-given scan options credentials conditions (λ u. u.status ≡ failed)
              (releases scan options credentials conditions undisturbed claimed) _ (given-failed _)
              (Kept-same (λ u. u.status ≡ failed) _ _ (met t is)
                (fate-lost scan options credentials conditions c (marked_row t) works sent)))
      | inr other ↦
          Kept-map (λ u. u.id ≡ t.id) (λ r. has_id c.id r ≡ true → r.status ≡ failed) (after_row t)
            (λ u e is. absurd (ground (arith, sym (ap (λ id. str_eq id c.id) e ∙ other) ∙ is)))
            (row_after-id scan options credentials conditions undisturbed claimed t)
    ]

  told :
      (c : SyncItemEntity)
      → Tells c
          (conditions.exchange c).write_throws
          (verdict options credentials (conditions.exchange c) c)
          (outcome_of scan options credentials conditions c)
  told c = dispatch_item-Tells options credentials (conditions.exchange c) c []

  succeeded-All :
      (Q : String → Type 0) (cs : Table)
      → All
          (λ c. standing (outcome_of scan options credentials conditions c) ≡ delivered → Q c.id)
          cs
      → All Q (succeeded_ids_of (map (outcome_of scan options credentials conditions) cs))
  succeeded-All Q [] h = tt
  succeeded-All Q (c ∷ cs) h =
      go (outcome_of scan options credentials conditions c) (told c).same_id h.0
        (succeeded-All Q cs h.1)
    where
      go :
          (o : ItemOutcome)
          → outcome_id o ≡ c.id
          → (standing o ≡ delivered → Q c.id)
          → All Q (succeeded_ids_of (map (outcome_of scan options credentials conditions) cs))
          → All Q (succeeded_ids_of (o ∷ map (outcome_of scan options credentials conditions) cs))
      go (succeeded id status_code) e q rest = (rw e (q refl), rest)
      go (rescheduled id) e q rest = rest
      go (credential_rejected id until) e q rest = rest
      go (failed_outcome id code message) e q rest = rest

  failed-All :
      (Q : String → Type 0) (cs : Table)
      → All (λ c. standing (outcome_of scan options credentials conditions c) ≡ lost → Q c.id) cs
      → All Q
          (map (λ f. f.0) (failures_of (map (outcome_of scan options credentials conditions) cs)))
  failed-All Q [] h = tt
  failed-All Q (c ∷ cs) h =
      go (outcome_of scan options credentials conditions c) (told c).same_id h.0
        (failed-All Q cs h.1)
    where
      go :
          (o : ItemOutcome)
          → outcome_id o ≡ c.id
          → (standing o ≡ lost → Q c.id)
          → All Q (
              map
                (λ f. f.0)
                (failures_of (map (outcome_of scan options credentials conditions) cs)))
          → All Q (
              map
                (λ f. f.0)
                (failures_of (o ∷ map (outcome_of scan options credentials conditions) cs)))
      go (succeeded id status_code) e q rest = rest
      go (rescheduled id) e q rest = rest
      go (credential_rejected id until) e q rest = rest
      go (failed_outcome id code message) e q rest = (rw e (q refl), rest)

  gated-Distinct :
      (rows : Table) → Distinct rows → Distinct (gated scan options credentials conditions rows)
  gated-Distinct [] h = h
  gated-Distinct (r ∷ rs) h =
      go (is_persisted credentials && rejects scan options credentials conditions r)
    where
      go : (g : Bool) → Distinct (if g then r ∷ [] else r ∷ rs)
      go true id = omega (arith, h id, count-cons id r rs, count-cons id r [])
      go false id = h id

  claimed-Reports :
      ((c : SyncItemEntity) → (conditions.exchange c).write_throws ≡ none)
      → (claimed items : Table) → Distinct claimed
      → Reports
          (build_result conditions.started_at conditions.finished_at (
            map
              (outcome_of scan options credentials conditions)
              (gated scan options credentials conditions claimed)))
          (each (row_after scan options credentials conditions undisturbed claimed) items)
  claimed-Reports works claimed items distinct =
      let sent = gated scan options credentials conditions claimed in
      let all_picked : All (λ c. pick c.id sent ≡ some c) sent =
        All-picked sent (gated-Distinct claimed distinct) in
      record {
        delivered_gone = succeeded-All _ sent (
            All-each (λ c. pick c.id sent ≡ some c) _ sent
              (λ c e d.
                each-All (λ r. has_id c.id r ≡ false) _ items
                  (All-of _ (delivered-row claimed c e d) items))
              all_picked);
        failed_kept = failed-All _ sent (
            All-each (λ c. pick c.id sent ≡ some c) _ sent
              (λ c e d.
                each-All (λ r. has_id c.id r ≡ true → r.status ≡ failed) _ items
                  (All-of _ (lost-row claimed c e (works c) d) items))
              all_picked);
      }
    where
      All-of :
          (P : SyncItemEntity → Type 0) → ((r : SyncItemEntity) → P r) → (rows : Table) → All P rows
      All-of P h [] = tt
      All-of P h (r ∷ rows) = (h r, All-of P h rows)

  dispatch_claimed-completes :
      (claimed items : Table)
      → conditions.reset_works ≡ true
      → (dispatch_claimed scan options credentials conditions claimed items).completes ≡ true
  dispatch_claimed-completes [] items works = refl
  dispatch_claimed-completes (r ∷ rs) items works =
      let first = dispatch scan options credentials conditions r items in
      elim (Bool-cases (is_persisted credentials)) [
        | inr p ↦ rw p refl
        | inl p ↦ elim (Bool-cases (is_rejected first.outcome)) [
          | inl g ↦ rw (p, g) works
          | inr g ↦ rw (p, g) refl
        ]
      ]

  run_cycle-result :
      (s : SyncQueueStorage)
      → conditions.course ≡ undisturbed
      → conditions.reset_works ≡ true
      → (run_cycle scan options credentials conditions s).result
        ≡ some (
            build_result conditions.started_at conditions.finished_at (
              map (outcome_of scan options credentials conditions) (
                gated scan options credentials conditions
                  (claimed_by scan options credentials conditions s))))
  unfolding run_cycle
  run_cycle-result s calm works =
      rw
        (
          calm,
          dispatch_claimed-completes (claimed_by scan options credentials conditions s) _ works,
        )
        (ap (λ os. some (build_result conditions.started_at conditions.finished_at os))
          (dispatch_claimed-outcomes scan options credentials conditions
            (claimed_by scan options credentials conditions s) _))

  -- An undisturbed flush cycle returns a result that agrees with the table it leaves: every row whose
  -- id is among `succeededIds` is gone, and every row left whose id is among `failedIds` is FAILED;
  -- where no two rows had one id and no write of an attempt and no reset of the rows in flight throws,
  -- whatever the server answers.
  pub run_cycle-Reports :
      ((rows : Table) → Arranges (scan rows) rows)
      → ((rows : Table) → Arranges (conditions.finishing rows) rows)
      → ((c : SyncItemEntity) → (conditions.exchange c).write_throws ≡ none)
      → conditions.course ≡ undisturbed
      → conditions.reset_works ≡ true
      → (s : SyncQueueStorage) → Distinct s.items
      → (result : SyncResult) × ((run_cycle scan options credentials conditions s).result
          ≡ some result)
        × Reports result (run_cycle scan options credentials conditions s).storage.items
  run_cycle-Reports orders finishes works calm resets s distinct =
      let claimed = claimed_by scan options credentials conditions s in
      (
        _,
        run_cycle-result s calm resets,
        rw
            (
              run_cycle-row_after scan options credentials conditions finishes orders s distinct,
              calm,
            )
            (claimed-Reports works claimed s.items (
              select_claimable-Distinct scan orders conditions.started_at (batch_size_of options)
                s.items distinct)),
      )
