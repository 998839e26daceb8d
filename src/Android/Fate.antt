-- ===== src/Android/Fate.antt =====
-- SyncDispatcher.dispatchItem as what it makes of one row of the table.
use Prim.Native.String.{String}
use react_native_sync_provid.Common.{
  ◌≡◌, refl, sym, ◌∙◌, Bool, true, false, List, [], ◌∷◌, Option, none, some, arith, if◌then◌else◌,
}
use react_native_sync_provid.Types.Sync.{SyncOptions}
use react_native_sync_provid.Types.Errors.{network_error}
use react_native_sync_provid.Android.Rows.{SyncItemEntity, pending, failed, Table, each, has_id}
use react_native_sync_provid.Android.Dispatch.{
  CredentialPolicy, Exchange, Dispatched, ItemOutcome, failed_outcome, Emitted, after_write,
  dispatch_item,
}
use react_native_sync_provid.Android.Verdict.{
  Verdict, deliver, wait, give_up, verdict, performed, dispatch_item-cases,
}
use react_native_sync_provid.Android.Tables.{settle, each-same, each-some}

module _ (options : SyncOptions) (credentials : CredentialPolicy) (exchange : Exchange)
    (c : SyncItemEntity) where
  -- The row `t` of the table after the attempt on the claimed row `c`.
  abbrev pub judged : Verdict → SyncItemEntity → Option SyncItemEntity
  judged deliver t = none
  judged (wait attempts code until) t = some (record t {
    status = pending;
    attempts = attempts;
    last_attempt_at = some exchange.started_at;
    last_error_code = some code;
    next_retry_at = until;
  })
  judged (give_up attempts code) t = some (record t {
    status = failed;
    attempts = attempts;
    last_attempt_at = some exchange.started_at;
    last_error_code = some code;
    next_retry_at = 0;
  })

  -- A write that throws leaves the row as it is.
  abbrev pub written : Option String → Verdict → SyncItemEntity → Option SyncItemEntity
  written (some message) v t = some t
  written none v t = judged v t

  abbrev pub fate : SyncItemEntity → Option SyncItemEntity
  fate t = written exchange.write_throws (verdict options credentials exchange c) t

  pub fate-id : (t u : SyncItemEntity) → fate t ≡ some u → u.id ≡ t.id
  fate-id t u e = go exchange.write_throws (verdict options credentials exchange c) e
    where
      go : (w : Option String) (v : Verdict) → written w v t ≡ some u → u.id ≡ t.id
      go (some message) v e = ground (arith, e)
      go none deliver e = ground (arith, e)
      go none (wait attempts code until) e = ground (arith, e)
      go none (give_up attempts code) e = ground (arith, e)

  abbrev unless_thrown : Option String → Table → Table → Table
  unless_thrown (some message) after items = items
  unless_thrown none after items = after

  abbrev act : Verdict → Table → Table
  act v items =
      unless_thrown exchange.write_throws (performed options credentials exchange c v items) items

  module _ (items : Table) where
    after_write-items :
        (table : Table) (events : List Emitted) (outcome : ItemOutcome)
        → (after_write options credentials exchange c items table events outcome).items
          ≡ unless_thrown exchange.write_throws table items
    after_write-items table events outcome = go exchange.write_throws
      where
        go :
            (w : Option String)
            → (elim w as (λ x. Dispatched) [
              | some message ↦ record {
                items = items;
                events = [];
                outcome = failed_outcome c.id network_error message;
              }
              | none ↦ record { items = table; events = events; outcome = outcome }
            ]).items
              ≡ unless_thrown w table items
        go (some message) = refl
        go none = refl

    dispatch_item-act :
        (dispatch_item options credentials exchange c items).items
        ≡ act (verdict options credentials exchange c) items
    dispatch_item-act =
        dispatch_item-cases options credentials exchange c items items
          (λ v d other. d.items ≡ act v items) (λ v e o says. after_write-items _ _ _)

    performed-each :
        (v : Verdict)
        → performed options credentials exchange c v items
          ≡ each (λ t. if has_id c.id t then judged v t else some t) items
    performed-each deliver = refl
    performed-each (wait attempts code until) = each-same _ _ items (λ t. go t (has_id c.id t))
      where
        go :
            (t : SyncItemEntity) (b : Bool)
            → some (
                if b
                then record t {
                  status = pending;
                  attempts = attempts;
                  last_attempt_at = some exchange.started_at;
                  last_error_code = some code;
                  next_retry_at = until;
                }
                else t)
              ≡ (if b then judged (wait attempts code until) t else some t)
        go t true = refl
        go t false = refl
    performed-each (give_up attempts code) = each-same _ _ items (λ t. go t (has_id c.id t))
      where
        go :
            (t : SyncItemEntity) (b : Bool)
            → some (
                if b
                then record t {
                  status = failed;
                  attempts = attempts;
                  last_attempt_at = some exchange.started_at;
                  last_error_code = some code;
                  next_retry_at = 0;
                }
                else t)
              ≡ (if b then judged (give_up attempts code) t else some t)
        go t true = refl
        go t false = refl

    -- The write of a dispatch, on the whole table.
    pub dispatch_item-each :
        (dispatch_item options credentials exchange c items).items
        ≡ each (settle (λ d t. fate t) c) items
    dispatch_item-each = dispatch_item-act ∙ go exchange.write_throws
      where
        kept_id : (b : Bool) (t : SyncItemEntity) → some t ≡ (if b then some t else some t)
        kept_id true t = refl
        kept_id false t = refl

        go :
            (w : Option String)
            → unless_thrown w
                (performed options credentials exchange c
                  (verdict options credentials exchange c)
                  items)
                items
              ≡ each
                  (λ t.
                    if has_id c.id t
                    then written w (verdict options credentials exchange c) t
                    else some t)
                  items
        go (some message) =
            sym (each-some items) ∙ each-same _ _ items (λ t. kept_id (has_id c.id t) t)
        go none = performed-each (verdict options credentials exchange c)

-- What a dispatch returns does not depend on the table.
pub dispatch_item-outcome :
    (options : SyncOptions) (credentials : CredentialPolicy) (exchange : Exchange)
    (c : SyncItemEntity) (items other : Table)
    → (dispatch_item options credentials exchange c items).outcome
      ≡ (dispatch_item options credentials exchange c other).outcome
dispatch_item-outcome options credentials exchange c items other =
    dispatch_item-cases options credentials exchange c items other (λ v d k. d.outcome ≡ k.outcome)
      (λ v e o says. same_outcome _ _ (e ∷ []) o)
  where
    same_outcome :
        (table written : Table) (events : List Emitted) (outcome : ItemOutcome)
        → (after_write options credentials exchange c items table events outcome).outcome
          ≡ (after_write options credentials exchange c other written events outcome).outcome
    same_outcome table written events outcome = ground arith
