-- ===== src/Facade/Batch.antt =====
-- src/index.tsx: `enqueueBatch`, which collects the issues of every item before it calls native.
use Prim.Native.String.{String}
use react_native_sync_provid.Common.{
  ℕ, suc, ◌==◌, ltb, Bool, true, false, List, [], ◌∷◌, ◌++◌, map, length, none, some, if◌then◌else◌,
}
use react_native_sync_provid.Common.Text.{◌⧺◌, show}
use react_native_sync_provid.Types.Value.{Value, array, elements}
use react_native_sync_provid.Types.Errors.{
  invalid_payload, ValidationIssue, Thrown, new_sync_error, no_cause, rejected,
}
use react_native_sync_provid.Validation.Issues.{collect_sync_item_issues}
use react_native_sync_provid.Native.Probe.{CreateHybridObject}
use react_native_sync_provid.Facade.Ops.{Call, native_call}

-- `{ ...issue, itemIndex: index }`.
abbrev pub tagged : ℕ → ValidationIssue → ValidationIssue
tagged index issue = record issue { item_index = some index }

-- The loops over `items.entries()` and over the issues of an item.
unfoldable pub issues_from : ℕ → List Value → List ValidationIssue
unfolding collect_sync_item_issues
issues_from index [] = []
issues_from index (item ∷ items) =
    map (tagged index) (collect_sync_item_issues item) ++ issues_from (suc index) items

-- `new Set(xs)`, for the indices.
unfoldable pub contains : ℕ → List ℕ → Bool
contains x [] = false
contains x (y ∷ ys) = let rest = contains x ys in if y == x then true else rest

unfoldable pub set_of : List ℕ → List ℕ
unfolding contains
set_of [] = []
set_of (x ∷ xs) = let rest = set_of xs in if contains x rest then rest else x ∷ rest

-- An issue without an index counts as one of index 0: every issue of a batch has one.
abbrev pub index_of : ValidationIssue → ℕ
index_of issue = elim issue.item_index [ none ↦ 0 | some index ↦ index ]

unfoldable pub batch_error : List ValidationIssue → Thrown
unfolding set_of
batch_error all_issues =
    new_sync_error invalid_payload
      ("enqueueBatch validation failed: "
        ⧺ show (length all_issues)
        ⧺ " issue(s) across "
        ⧺ show (length (set_of (map index_of all_issues)))
        ⧺ " item(s).")
      no_cause (some all_issues)

abbrev pub not_array_error : Thrown
not_array_error =
    new_sync_error invalid_payload "enqueueBatch(items) requires an array of SyncItemInput."
      no_cause none

module _ {S : Type 0} (create : CreateHybridObject S) where
  unfoldable pub enqueue_batch : Value → Call S (List String)
  unfolding issues_from batch_error native_call
  enqueue_batch (array xs) w =
      let items = elements xs in
      let all_issues = issues_from 0 items in
      let call = native_call create invalid_payload (λ native. native.enqueue_batch items) w in
      if ltb 0 (length all_issues) then (rejected (batch_error all_issues), w) else call
  enqueue_batch _ w = (rejected not_array_error, w)
