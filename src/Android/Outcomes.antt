-- ===== src/Android/Outcomes.antt =====
-- The outcomes of a batch, and what becomes of the rows that they speak of.
use Prim.Native.String.{String}
use text.Mathlib.TextEquality.{eq_iff}
use react_native_sync_provid.Common.{
  ◌≡◌, refl, sym, ap, ◌∙◌, ◌⊎◌, Bool, true, false, ◌&&◌, List, [], ◌∷◌, map, Option, none, some,
  arith, inl, inr, Bool-cases, if◌then◌else◌, All,
}
use react_native_sync_provid.Types.Sync.{SyncOptions}
use react_native_sync_provid.Android.Verdict.{
  Verdict, deliver, wait, give_up, verdict, delivered, lost, standing,
}
use react_native_sync_provid.Android.Rows.{
  SyncItemEntity, pending, failed, is_in_flight, Table, has_id,
}
use react_native_sync_provid.Android.Dispatch.{CredentialPolicy, ItemOutcome, is_persisted}
use react_native_sync_provid.Android.Cycle.{
  Course, Conditions, dispatch, is_rejected, dispatch_claimed,
}
use react_native_sync_provid.Android.Tables.{
  Distinct, Distinct-tail, Distinct-head, pick, pick_is, pick_other, chosen,
}
use react_native_sync_provid.Android.Claim.{marked, is_some, marked-id}
use react_native_sync_provid.Android.Fate.{written, fate-id, dispatch_item-outcome}
use react_native_sync_provid.Android.Refinement.{
  fate_of, rejects, gated, attempted, releases, claims, row_after,
}
use react_native_sync_provid.Android.Settled.{Kept, All-each, Kept-given, given}
use react_native_sync_provid.Android.Tells.{stands_after, dispatch_item-Tells}

map-same : {A B : Type 0} (f g : A → B) (xs : List A) → ((a : A) → f a ≡ g a) → map f xs ≡ map g xs
map-same f g [] h = refl
map-same f g (x ∷ xs) h = rw (h x, map-same f g xs h) refl

pub Kept-map :
    (P Q : SyncItemEntity → Type 0) (o : Option SyncItemEntity)
    → ((u : SyncItemEntity) → P u → Q u)
    → Kept P o
    → Kept Q o
Kept-map P Q none h k = tt
Kept-map P Q (some u) h k = h u k

has_own_id : (r : SyncItemEntity) → has_id r.id r ≡ true
has_own_id r = (eq_iff r.id r.id).1 refl

-- Without equal ids, each row is the one that its id picks.
pub All-picked : (rows : Table) → Distinct rows → All (λ c. pick c.id rows ≡ some c) rows
All-picked [] h = tt
All-picked (r ∷ rows) h = (
  pick_is r.id r rows (has_own_id r),
  All-each (λ c. pick c.id rows ≡ some c) (λ c. pick c.id (r ∷ rows) ≡ some c) rows
      (λ c e. later c e (Bool-cases (has_id c.id r))) (All-picked rows (Distinct-tail r rows h)),
)
  where
    later :
        (c : SyncItemEntity)
        → pick c.id rows ≡ some c
        → (has_id c.id r ≡ true) ⊎ (has_id c.id r ≡ false)
        → pick c.id (r ∷ rows) ≡ some c
    later c e (inr other) = pick_other c.id r rows other ∙ e
    later c e (inl is) =
        absurd (ground (arith, ap is_some (sym (Distinct-head c.id r rows h is) ∙ e)))

module _ (scan : Table → Table) (options : SyncOptions) (credentials : CredentialPolicy)
    (conditions : Conditions) where
  abbrev pub outcome_of : SyncItemEntity → ItemOutcome
  outcome_of c = (dispatch scan options credentials conditions c []).outcome

  outcome_of-dispatch :
      (c : SyncItemEntity) (items : Table)
      → (dispatch scan options credentials conditions c items).outcome ≡ outcome_of c
  outcome_of-dispatch c items =
      dispatch_item-outcome options credentials (conditions.exchange c) c items []

  pub dispatch_claimed-outcomes :
      (claimed items : Table)
      → (dispatch_claimed scan options credentials conditions claimed items).outcomes
        ≡ map outcome_of (gated scan options credentials conditions claimed)
  dispatch_claimed-outcomes [] items = refl
  dispatch_claimed-outcomes (r ∷ rs) items =
      let after = (dispatch scan options credentials conditions r items).items in
      elim (Bool-cases (is_persisted credentials)) [
        | inr p ↦ rw p (map-same _ outcome_of (r ∷ rs) (λ c. outcome_of-dispatch c items))
        | inl p ↦ elim (Bool-cases (rejects scan options credentials conditions r)) [
          | inl g ↦
              rw (p, ap is_rejected (outcome_of-dispatch r items), g)
                (ap (λ o. o ∷ []) (outcome_of-dispatch r items))
          | inr g ↦
              rw (p, ap is_rejected (outcome_of-dispatch r items), g, outcome_of-dispatch r items)
                (ap (λ os. outcome_of r ∷ os)
                  (map-same _ outcome_of rs (λ c. outcome_of-dispatch c after)))
        ]
      ]

  chosen-id :
      (o : Option SyncItemEntity) (v : SyncItemEntity)
      → Kept (λ u. u.id ≡ v.id) (chosen (fate_of scan options credentials conditions) o v)
  chosen-id none v = refl
  chosen-id (some c) v = go (fate_of scan options credentials conditions c v) refl
    where
      go :
          (o : Option SyncItemEntity)
          → fate_of scan options credentials conditions c v ≡ o
          → Kept (λ u. u.id ≡ v.id) o
      go none e = tt
      go (some u) e = fate-id options credentials (conditions.exchange c) c v u e

  given-id :
      (g : Bool) (u : SyncItemEntity) → (given scan options credentials conditions g u).id ≡ u.id
  given-id g u = go (g && is_in_flight u.status)
    where
      go : (b : Bool) → (if b then record u { status = pending } else u).id ≡ u.id
      go true = refl
      go false = refl

  -- A row keeps its id through a cycle.
  pub row_after-id :
      (course : Course) (claimed : Table) (t : SyncItemEntity)
      → Kept (λ u. u.id ≡ t.id) (row_after scan options credentials conditions course claimed t)
  row_after-id course claimed t =
      let b = is_some (pick t.id (claims scan options credentials conditions course claimed)) in
      Kept-given scan options credentials conditions (λ u. u.id ≡ t.id)
        (releases scan options credentials conditions course claimed) _
        (λ u e. given-id (releases scan options credentials conditions course claimed) u ∙ e)
        (Kept-map (λ u. u.id ≡ (marked b t).id) (λ u. u.id ≡ t.id)
          (chosen (fate_of scan options credentials conditions)
            (pick t.id (attempted scan options credentials conditions course claimed)) (marked b t))
          (λ u e. e ∙ marked-id b t)
          (chosen-id (pick t.id (attempted scan options credentials conditions course claimed))
            (marked b t)))

  -- A delivered row is deleted, and one that failed, where its write does not throw, is FAILED.
  pub fate-delivered :
      (c v : SyncItemEntity)
      → standing (outcome_of c) ≡ delivered
      → fate_of scan options credentials conditions c v ≡ none
  fate-delivered c v e =
      go (conditions.exchange c).write_throws
        (verdict options credentials (conditions.exchange c) c)
        (sym (dispatch_item-Tells options credentials (conditions.exchange c) c []).same_standing
          ∙ e)
    where
      go :
          (w : Option String) (d : Verdict)
          → stands_after w d ≡ delivered
          → written options credentials (conditions.exchange c) c w d v ≡ none
      go (some message) d e = absurd (ground (arith, e))
      go none deliver e = refl
      go none (wait attempts code until) e = absurd (ground (arith, e))
      go none (give_up attempts code) e = absurd (ground (arith, e))

  pub fate-lost :
      (c v : SyncItemEntity)
      → (conditions.exchange c).write_throws ≡ none
      → standing (outcome_of c) ≡ lost
      → Kept (λ u. u.status ≡ failed) (fate_of scan options credentials conditions c v)
  fate-lost c v works e =
      go (conditions.exchange c).write_throws
        (verdict options credentials (conditions.exchange c) c) works
        (sym (dispatch_item-Tells options credentials (conditions.exchange c) c []).same_standing
          ∙ e)
    where
      go :
          (w : Option String) (d : Verdict)
          → w ≡ none
          → stands_after w d ≡ lost
          → Kept
              (λ u. u.status ≡ failed)
              (written options credentials (conditions.exchange c) c w d v)
      go (some message) d works e = absurd (ground (arith, works))
      go none deliver works e = tt
      go none (wait attempts code until) works e = absurd (ground (arith, e))
      go none (give_up attempts code) works e = refl
