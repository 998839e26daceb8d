-- ===== src/Facade/Batches.antt =====
-- `enqueueBatch`: all or nothing, and every issue of every item under its index.
use react_native_sync_provid.Common.{
  ℕ, zero, suc, ◌+◌, ◌≤◌, ◌<◌, ◌==◌, ltb, ◌≡◌, ◌∙◌, refl, sym, ap, some, ◌⊎◌, inl, inr, Bool-cases,
  true, false, List, [], ◌∷◌, ◌++◌, map, length, All, arith, if◌then◌else◌,
}
use react_native_sync_provid.Types.Value.{Value, undefined, array, elements, Elements}
use react_native_sync_provid.Types.Errors.{
  invalid_payload, ValidationIssue, Thrown, sync_error, thrown, rejected,
}
use Prim.Native.String.{String}
use mathlib.Core.Path.{subst}
use mathlib.Core.List.{append-eq-nil_iff}
use react_native_sync_provid.Common.{◌↔◌}
use react_native_sync_provid.Validation.Issues.{
  CollectedIssue, to_public_issue, collect_issues_with_code, collect_sync_item_issues,
}
use react_native_sync_provid.Validation.Laws.{
  IsValidInput, collect-IsValidInput, IsValidInput-collect,
}
use react_native_sync_provid.Native.Probe.{World, CreateHybridObject, get_native_sync_provider}
use react_native_sync_provid.Native.Laws.{IsConsistent}
use react_native_sync_provid.Facade.Laws.{answer, native_call-answer, IsAnswer, answer-IsAnswer}
use react_native_sync_provid.Facade.Batch.{
  tagged, issues_from, contains, set_of, index_of, batch_error, enqueue_batch,
}

-- How many items have an issue.
unfoldable pub count_refused : List Value → ℕ
count_refused [] = 0
count_refused (item ∷ items) =
    let rest = count_refused items in
    if ltb 0 (length (collect_sync_item_issues item)) then suc rest else rest

later : (i : ℕ) (ys : List ℕ) → All (λ j. suc i ≤ j) ys → All (λ j. i ≤ j) ys
later i [] h = tt
later i (y ∷ ys) h = (omega (arith, h.0), later i ys h.1)

indices_of_tagged :
    (i : ℕ) (issues rest : List ValidationIssue)
    → All (λ j. i ≤ j) (map index_of rest)
    → All (λ j. i ≤ j) (map index_of (map (tagged i) issues ++ rest))
indices_of_tagged i [] rest h = h
indices_of_tagged i (x ∷ issues) rest h = (omega arith, indices_of_tagged i issues rest h)

indices_from : (i : ℕ) (items : List Value) → All (λ j. i ≤ j) (map index_of (issues_from i items))
unfolding issues_from
indices_from i [] = tt
indices_from i (item ∷ items) =
    indices_of_tagged i (collect_sync_item_issues item) (issues_from (suc i) items)
      (later i _ (indices_from (suc i) items))

contains-set_of : (i : ℕ) (ys : List ℕ) → All (λ j. suc i ≤ j) ys → contains i (set_of ys) ≡ false
unfolding contains set_of
contains-set_of i [] h = refl
contains-set_of i (y ∷ ys) h = elim (Bool-cases (contains y (set_of ys))) [
  | inl known ↦ rw known (contains-set_of i ys h.1)
  | inr new ↦ rw new (ground (arith, contains-set_of i ys h.1))
]

-- However many issues an item has, its index is one member of the set.
set_of-tagged :
    (i : ℕ) (x : ValidationIssue) (issues rest : List ValidationIssue)
    → All (λ j. suc i ≤ j) (map index_of rest)
    → set_of (map index_of (map (tagged i) (x ∷ issues) ++ rest)) ≡ i ∷ set_of (map index_of rest)
unfolding set_of contains
set_of-tagged i x [] rest h = rw (contains-set_of i (map index_of rest) h) refl
set_of-tagged i x (y ∷ issues) rest h =
    let same : i == i ≡ true = ground arith in rw (set_of-tagged i y issues rest h, same) refl

-- For every batch, the number of items that the error of `enqueueBatch` counts, the size of the
-- set of the indices of its issues, is the number of items that have an issue, however many issues
-- each has.
pub set_of-indices :
    (i : ℕ) (items : List Value)
    → length (set_of (map index_of (issues_from i items))) ≡ count_refused items
unfolding issues_from set_of count_refused
set_of-indices i [] = refl
set_of-indices i (item ∷ items) =
    counted (collect_sync_item_issues item) (set_of-indices (suc i) items)
  where
    counted :
        (issues : List ValidationIssue)
        → length (set_of (map index_of (issues_from (suc i) items))) ≡ count_refused items
        → length (set_of (map index_of (map (tagged i) issues ++ issues_from (suc i) items)))
          ≡ (if ltb 0 (length issues) then suc (count_refused items) else count_refused items)
    counted [] ih = ih
    counted (x ∷ issues) ih =
        let some_found : ltb 0 (suc (length issues)) ≡ true = ground arith in
        rw
          (
            set_of-tagged i x issues (issues_from (suc i) items) (indices_from (suc i) items),
            some_found,
          )
          (ap suc ih)

issues-IsValidInput : (item : Value) → (collect_sync_item_issues item ≡ []) ↔ IsValidInput item
unfolding collect_sync_item_issues
issues-IsValidInput item = (
  λ h. collect-IsValidInput item (unmapped (collect_issues_with_code item) h),
  λ v. ap (map to_public_issue) (IsValidInput-collect item v),
)
  where
    unmapped : (xs : List CollectedIssue) → map to_public_issue xs ≡ [] → xs ≡ []
    unmapped [] h = refl
    unmapped (x ∷ xs) h = cc

issues_from-valid : (i : ℕ) (items : List Value) → issues_from i items ≡ [] → All IsValidInput items
unfolding issues_from
issues_from-valid i [] h = tt
issues_from-valid i (item ∷ items) h =
    let (here, there) = append-eq-nil_iff.0 h in
    (
      (issues-IsValidInput item).0 (untagged (collect_sync_item_issues item) here),
      issues_from-valid (suc i) items there,
    )
  where
    untagged : (xs : List ValidationIssue) → map (tagged i) xs ≡ [] → xs ≡ []
    untagged [] h = refl
    untagged (x ∷ xs) h = cc

valid-issues_from : (i : ℕ) (items : List Value) → All IsValidInput items → issues_from i items ≡ []
unfolding issues_from
valid-issues_from i [] h = refl
valid-issues_from i (item ∷ items) (v, vs) =
    rw ((issues-IsValidInput item).1 v) (valid-issues_from (suc i) items vs)

-- The issues of an error that stand under this index.
unfoldable pub under : ℕ → List ValidationIssue → List ValidationIssue
under index [] = []
under index (x ∷ issues) =
    let rest = under index issues in if index_of x == index then x ∷ rest else rest

-- The issues of the entry at this index, each with the index; past the end there are none.
unfoldable pub entry_issues_at : ℕ → ℕ → List Value → List ValidationIssue
entry_issues_at index i [] = []
entry_issues_at index zero (item ∷ items) =
    map {A = ValidationIssue} (λ x. record x { item_index = some index })
      (collect_sync_item_issues item)
entry_issues_at index (suc i) (item ∷ items) = entry_issues_at index i items

under-later :
    (i : ℕ) (xs : List ValidationIssue) → All (λ j. suc i ≤ j) (map index_of xs) → under i xs ≡ []
unfolding under
under-later i [] h = refl
under-later i (x ∷ xs) h =
    let other : index_of x == i ≡ false = ground (arith, h.0) in rw other (under-later i xs h.1)

under-same :
    (i : ℕ) (xs rest : List ValidationIssue)
    → under i rest ≡ []
    → under i (map (tagged i) xs ++ rest) ≡ map (tagged i) xs
unfolding under
under-same i [] rest h = h
under-same i (x ∷ xs) rest h =
    let same : i == i ≡ true = ground arith in
    rw same (ap (λ ys. tagged i x ∷ ys) (under-same i xs rest h))

under-other :
    (k i : ℕ) (xs rest : List ValidationIssue)
    → i < k
    → under k (map (tagged i) xs ++ rest) ≡ under k rest
unfolding under
under-other k i [] rest h = refl
under-other k i (x ∷ xs) rest h =
    let other : i == k ≡ false = ground (arith, h) in rw other (under-other k i xs rest h)

under-issues_from :
    (i k : ℕ) (items : List Value)
    → under (k + i) (issues_from k items) ≡ entry_issues_at (k + i) i items
unfolding issues_from under entry_issues_at
under-issues_from i k [] = refl
under-issues_from zero k (item ∷ items) =
    let e : k + 0 ≡ k = omega arith in
    rw e (
      under-same k (collect_sync_item_issues item) (issues_from (suc k) items)
        (under-later k (issues_from (suc k) items) (indices_from (suc k) items)))
under-issues_from (suc i) k (item ∷ items) =
    subst (λ j. under j (issues_from k (item ∷ items)) ≡ entry_issues_at j i items) (omega arith)
      (under-other (suc k + i) k (collect_sync_item_issues item) (issues_from (suc k) items)
          (omega arith)
        ∙ under-issues_from i (suc k) items)

-- The error of a batch: INVALID_PAYLOAD, without a cause, with the issues of every entry under
-- that entry's index, in their order.
abbrev pub IsBatchError : List Value → Thrown → Type 0
IsBatchError items e =
    (message : String) × (issues : List ValidationIssue) × (e
      ≡ sync_error invalid_payload message (thrown undefined) (some issues))
    × ((i : ℕ) → under i issues ≡ entry_issues_at i i items)

batch_error-IsBatchError :
    (items : List Value) → IsBatchError items (batch_error (issues_from 0 items))
unfolding batch_error
batch_error-IsBatchError items = (_, issues_from 0 items, refl, λ i. from_zero i)
  where
    from_zero : (i : ℕ) → under i (issues_from 0 items) ≡ entry_issues_at i i items
    from_zero i =
        subst (λ j. under j (issues_from 0 items) ≡ entry_issues_at j i items) (omega arith)
          (under-issues_from i 0 items)

module _ {S : Type 0} (create : CreateHybridObject S) where
  module _ (xs : Elements) (w : World S) (c : IsConsistent w) where
    enqueue_batch-none :
        issues_from 0 (elements xs) ≡ []
        → enqueue_batch create (array xs) w
          ≡ answer create invalid_payload
              (λ native. native.enqueue_batch (elements xs))
              (get_native_sync_provider create w)
    unfolding enqueue_batch
    enqueue_batch-none h =
        rw
          (
            h,
            native_call-answer create invalid_payload (λ native. native.enqueue_batch (elements xs))
                w c,
          )
          refl

  enqueue_batch-some :
      (xs : Elements) (w : World S) (x : ValidationIssue) (rest : List ValidationIssue)
      → issues_from 0 (elements xs) ≡ x ∷ rest
      → enqueue_batch create (array xs) w
        ≡ (rejected (batch_error (issues_from 0 (elements xs))), w)
  unfolding enqueue_batch
  enqueue_batch-some xs w x rest h =
      let found : ltb 0 (suc (length rest)) ≡ true = ground arith in
      let stop : ltb 0 (length (issues_from 0 (elements xs))) ≡ true = rw h found in rw stop refl

  -- `enqueueBatch` of an array, where the probe is consistent: when every entry keeps the contract
  -- of an input, the native module gets all of them, in order, in one call, whose result is returned
  -- and whose exception is wrapped; when one does not, a hole of the array included, it throws a
  -- `SyncError` INVALID_PAYLOAD that lists, for every index, all issues of the entry at that index,
  -- and neither the probe nor the native module sees anything.
  pub enqueue_batch-IsValidInput :
      (xs : Elements) (w : World S)
      → IsConsistent w
      → (All IsValidInput (elements xs)
          × IsAnswer invalid_payload
              (λ native. native.enqueue_batch (elements xs))
              (get_native_sync_provider create w)
              (enqueue_batch create (array xs) w))
        ⊎ (¬ (All IsValidInput (elements xs))
            × ((e : Thrown) × (enqueue_batch create (array xs) w ≡ (rejected e, w))
                × IsBatchError (elements xs) e))
  enqueue_batch-IsValidInput xs w c = split (issues_from 0 (elements xs)) refl
    where
      split :
          (issues : List ValidationIssue)
          → issues_from 0 (elements xs) ≡ issues
          → (All IsValidInput (elements xs)
              × IsAnswer invalid_payload
                  (λ native. native.enqueue_batch (elements xs))
                  (get_native_sync_provider create w)
                  (enqueue_batch create (array xs) w))
            ⊎ (¬ (All IsValidInput (elements xs))
                × ((e : Thrown) × (enqueue_batch create (array xs) w ≡ (rejected e, w))
                    × IsBatchError (elements xs) e))
      split [] e = inl (
        issues_from-valid 0 (elements xs) e,
        subst
            (IsAnswer invalid_payload (λ native. native.enqueue_batch (elements xs))
              (get_native_sync_provider create w))
            (sym (enqueue_batch-none xs w c e))
            (answer-IsAnswer create invalid_payload _ (get_native_sync_provider create w)),
      )
      split (x ∷ rest) e = inr (
        λ vs. cc (rw e at (valid-issues_from 0 (elements xs) vs)),
        (
          batch_error (issues_from 0 (elements xs)),
          enqueue_batch-some xs w x rest e,
          batch_error-IsBatchError (elements xs),
        ),
      )
