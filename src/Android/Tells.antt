-- ===== src/Android/Tells.antt =====
-- What SyncDispatcher.dispatchItem returns, against what it writes.
use Prim.Native.String.{String}
use react_native_sync_provid.Common.{◌≡◌, refl, List, [], ◌∷◌, Option, none, some}
use react_native_sync_provid.Types.Sync.{SyncOptions}
use react_native_sync_provid.Types.Errors.{network_error}
use react_native_sync_provid.Android.Rows.{SyncItemEntity, Table}
use react_native_sync_provid.Android.Dispatch.{
  CredentialPolicy, Exchange, Dispatched, ItemOutcome, failed_outcome, Emitted, dispatch_item,
}
use react_native_sync_provid.Android.Verdict.{
  Standing, lost, standing, outcome_id, stands, dispatch_item-cases, Verdict, verdict,
}

-- The same, where the write may throw.
abbrev pub stands_after : Option String → Verdict → Standing
stands_after (some message) v = lost
stands_after none v = stands v

-- An outcome of `c` that stands as `v` says.
pub record Tells (c : SyncItemEntity) (w : Option String) (v : Verdict) (o : ItemOutcome)
    : Type 0 where
  pub same_id : outcome_id o ≡ c.id
  pub same_standing : standing o ≡ stands_after w v

pub dispatch_item-Tells :
    (options : SyncOptions) (credentials : CredentialPolicy) (x : Exchange) (c : SyncItemEntity)
    (items : Table)
    → Tells c x.write_throws
        (verdict options credentials x c)
        (dispatch_item options credentials x c items).outcome
dispatch_item-Tells options credentials x c items =
    dispatch_item-cases options credentials x c items items
      (λ v d other. Tells c x.write_throws v d.outcome)
      (λ v e o says. go _ (e ∷ []) o v says.same_id says.same_standing x.write_throws)
  where
    go :
        (table : Table) (events : List Emitted) (outcome : ItemOutcome) (v : Verdict)
        → outcome_id outcome ≡ c.id
        → standing outcome ≡ stands v
        → (w : Option String)
        → Tells c w v
            (elim w as (λ w. Dispatched) [
              | some message ↦ record {
                items = items;
                events = [];
                outcome = failed_outcome c.id network_error message;
              }
              | none ↦ record { items = table; events = events; outcome = outcome }
            ]).outcome
    go table events outcome v same stand (some message) = record {
      same_id = refl;
      same_standing = refl;
    }
    go table events outcome v same stand none = record { same_id = same; same_standing = stand }
