-- ===== src/Android/Events.antt =====
-- The events of a flush cycle of SyncDispatcher.
use Prim.Native.String.{String}
use text.Mathlib.Text.{◌==◌ as str_eq}
use react_native_sync_provid.Common.{
  ℕ, ◌+◌, ◌≤◌, ◌≡◌, refl, ap, ◌⊎◌, Bool, true, false, List, [], ◌∷◌, ◌++◌, Option, none, some,
  length, arith, inl, inr, Bool-cases, if◌then◌else◌, All, All-append,
}
use react_native_sync_provid.Types.Enums.{SyncEventType, sync_started, sync_succeeded, sync_failed}
use react_native_sync_provid.Types.Sync.{SyncOptions}
use react_native_sync_provid.Types.Errors.{network_error}
use react_native_sync_provid.Android.Rows.{SyncItemEntity, Table, select, has_id, count_by_id}
use react_native_sync_provid.Android.Storage.{SyncQueueStorage}
use react_native_sync_provid.Android.Dispatch.{
  CredentialPolicy, Exchange, Dispatched, Emitted, ItemOutcome, failed_outcome, is_persisted,
  after_write, dispatch_item,
}
use react_native_sync_provid.Android.Cycle.{
  Course, undisturbed, claim_throws, record_throws, cancelled, Conditions, cycle_event, is_rejected,
  dispatch, dispatch_each, dispatch_concurrently, dispatch_claimed, batch_size_of, aborted,
  after_claim, run_cycle,
}
use react_native_sync_provid.Android.Tables.{
  Arranges, Distinct, tick, count-cons, count-select, count-Arranges,
}
use react_native_sync_provid.Android.Claim.{select_claimable-Distinct}
use react_native_sync_provid.Android.Verdict.{IsItemType, dispatch_item-cases}

-- The events that end a cycle.
abbrev pub IsTerminalType : SyncEventType → Type 0
IsTerminalType type = (type ≡ sync_succeeded) ⊎ (type ≡ sync_failed)

abbrev pub names_id : String → Option String → Bool
names_id id none = false
names_id id (some i) = str_eq i id

abbrev pub count_events : String → List Emitted → ℕ
count_events id events = length (select (λ e. names_id id e.item_id) events)

count_events-append :
    (id : String) (xs ys : List Emitted)
    → count_events id (xs ++ ys) ≡ count_events id xs + count_events id ys
count_events-append id [] ys = omega arith
count_events-append id (x ∷ xs) ys = go (names_id id x.item_id) (count_events-append id xs ys)
  where
    go :
        (b : Bool)
        → count_events id (xs ++ ys) ≡ count_events id xs + count_events id ys
        → length (
            if b
            then x ∷ select (λ e. names_id id e.item_id) (xs ++ ys)
            else select (λ e. names_id id e.item_id) (xs ++ ys))
          ≡ length (
              if b
              then x ∷ select (λ e. names_id id e.item_id) xs
              else select (λ e. names_id id e.item_id) xs)
            + count_events id ys
    go true e = omega (arith, e)
    go false e = e

-- Events of items, at most so many for each id as `most` says.
record Bounded (most : String → ℕ) (events : List Emitted) : Type 0 where
  of_items : All (λ e. IsItemType e.type) events
  at_most : (id : String) → count_events id events ≤ most id

abbrev IsOf : SyncItemEntity → List Emitted → Type 0
IsOf c events = Bounded (λ id. tick (has_id id c)) events

module _ (options : SyncOptions) (credentials : CredentialPolicy) (x : Exchange)
    (c : SyncItemEntity) (items : Table) where
  one_event : (e : Emitted) → e.item_id ≡ some c.id → IsItemType e.type → IsOf c (e ∷ [])
  one_event e names type = record {
    of_items = (type, tt);
    at_most =
        λ id. omega (arith, ticks (names_id id e.item_id), ap (λ i. tick (names_id id i)) names);
  }
    where
      ticks : (b : Bool) → length (if b then e ∷ [] else []) ≡ tick b
      ticks true = omega arith
      ticks false = omega arith

  after_write-IsOf :
      (table : Table) (e : Emitted) (outcome : ItemOutcome)
      → e.item_id ≡ some c.id
      → IsItemType e.type
      → IsOf c (after_write options credentials x c items table (e ∷ []) outcome).events
  after_write-IsOf table e outcome names type = go x.write_throws
    where
      go :
          (w : Option String)
          → IsOf c
              (elim w as (λ x. Dispatched) [
                | some message ↦ record {
                  items = items;
                  events = [];
                  outcome = failed_outcome c.id network_error message;
                }
                | none ↦ record { items = table; events = e ∷ []; outcome = outcome }
              ]).events
      go (some message) = record { of_items = tt; at_most = λ id. omega arith }
      go none = one_event e names type

  dispatch_item-IsOf : IsOf c (dispatch_item options credentials x c items).events
  dispatch_item-IsOf =
      dispatch_item-cases options credentials x c items items (λ v d other. IsOf c d.events)
        (λ v e o says. after_write-IsOf _ e o says.names says.of_item)

module _ (scan : Table → Table) (options : SyncOptions) (credentials : CredentialPolicy)
    (conditions : Conditions) where
  abbrev Of : Table → List Emitted → Type 0
  Of cs events = Bounded (λ id. count_by_id id cs) events

  Of-append :
      (c : SyncItemEntity) (cs : Table) (xs ys : List Emitted)
      → IsOf c xs
      → Of cs ys
      → Of (c ∷ cs) (xs ++ ys)
  Of-append c cs xs ys h k = record {
    of_items = All-append (λ e. IsItemType e.type) xs ys h.of_items k.of_items;
    at_most = λ id.
        omega (arith, count_events-append id xs ys, count-cons id c cs, h.at_most id, k.at_most id);
  }

  dispatch_each-Of :
      (cs items : Table) → Of cs (dispatch_each scan options credentials conditions cs items).1
  dispatch_each-Of [] items = record { of_items = tt; at_most = λ id. omega arith }
  dispatch_each-Of (c ∷ cs) items =
      Of-append c cs _ _ (dispatch_item-IsOf options credentials (conditions.exchange c) c items)
        (dispatch_each-Of cs (dispatch scan options credentials conditions c items).items)

  Of-fewer :
      (cs ds : Table) (events : List Emitted)
      → ((id : String) → count_by_id id cs ≤ count_by_id id ds)
      → Of cs events
      → Of ds events
  Of-fewer cs ds events less h = record {
    of_items = h.of_items;
    at_most = λ id. omega (arith, h.at_most id, less id);
  }

  module _ (finishes : (rows : Table) → Arranges (conditions.finishing rows) rows) where
    dispatch_concurrently-Of :
        (cs items : Table)
        → Of cs (dispatch_concurrently scan options credentials conditions cs items).events
    dispatch_concurrently-Of cs items =
        Of-fewer (conditions.finishing cs) cs _
          (λ id. omega (arith, count-Arranges id (finishes cs)))
          (dispatch_each-Of (conditions.finishing cs) items)

    dispatch_claimed-Of :
        (cs items : Table)
        → Of cs (dispatch_claimed scan options credentials conditions cs items).events
    dispatch_claimed-Of [] items = record { of_items = tt; at_most = λ id. omega arith }
    dispatch_claimed-Of (c ∷ cs) items =
        let first = dispatch scan options credentials conditions c items in
        let of_first : IsOf c first.events =
          dispatch_item-IsOf options credentials (conditions.exchange c) c items in
        elim (Bool-cases (is_persisted credentials)) [
          | inr p ↦ rw p (dispatch_concurrently-Of (c ∷ cs) items)
          | inl p ↦ elim (Bool-cases (is_rejected first.outcome)) [
            | inl g ↦
                rw (p, g)
                  (record {
                    of_items = of_first.of_items;
                    at_most = λ id. omega (arith, of_first.at_most id, count-cons id c cs);
                  })
            | inr g ↦
                rw (p, g) (Of-append c cs _ _ of_first (dispatch_concurrently-Of cs first.items))
          ]
        ]

-- The events of a cycle: SYNC_STARTED, then those of items, at most one for each id, then the one
-- terminal event.
pub record IsCycleLog (events : List Emitted) : Type 0 where
  pub middle : List Emitted
  pub last : Emitted
  pub in_order : events ≡ cycle_event sync_started none ∷ middle ++ last ∷ []
  pub of_items : All (λ e. IsItemType e.type) middle
  pub once : (id : String) → count_events id middle ≤ 1
  pub is_last : IsTerminalType last.type

module _ (scan : Table → Table) (options : SyncOptions) (credentials : CredentialPolicy)
    (conditions : Conditions)
    (finishes : (rows : Table) → Arranges (conditions.finishing rows) rows) where
  log_of :
      (cs items : Table) (last : Emitted)
      → Distinct cs
      → IsTerminalType last.type
      → IsCycleLog (
          cycle_event sync_started none
            ∷ (dispatch_claimed scan options credentials conditions cs items).events
          ++ last ∷ [])
  log_of cs items last distinct is_last =
      let of = dispatch_claimed-Of scan options credentials conditions finishes cs items in
      record {
        middle = (dispatch_claimed scan options credentials conditions cs items).events;
        last = last;
        in_order = refl;
        of_items = of.of_items;
        once = λ id. omega (arith, of.at_most id, distinct id);
        is_last = is_last;
      }

  terminal-IsTerminalType :
      (ids : List String)
      → IsTerminalType (elim ids [ [] ↦ sync_succeeded | id ∷ rest ↦ sync_failed ])
  terminal-IsTerminalType [] = inl refl
  terminal-IsTerminalType (id ∷ ids) = inr refl

  either-IsTerminalType :
      (b : Bool) (x y : Emitted)
      → IsTerminalType x.type
      → IsTerminalType y.type
      → IsTerminalType (if b then x else y).type
  either-IsTerminalType true x y h k = h
  either-IsTerminalType false x y h k = k

  after_claim-IsCycleLog :
      (s : SyncQueueStorage) (course : Course) (claim : Table × Table)
      → Distinct claim.1
      → IsCycleLog (after_claim scan options credentials conditions s course claim).events
  after_claim-IsCycleLog s undisturbed claim distinct =
      log_of claim.1 claim.0 _ distinct
        (either-IsTerminalType _ _ _ (terminal-IsTerminalType _) (inr refl))
  after_claim-IsCycleLog s (record_throws code) claim distinct =
      log_of claim.1 claim.0 _ distinct (inr refl)
  after_claim-IsCycleLog s (cancelled starts) claim distinct =
      log_of (select starts claim.1) claim.0 _
        (λ id. omega (arith, distinct id, count-select id starts claim.1)) (inr refl)
  after_claim-IsCycleLog s (claim_throws code) claim distinct = record {
    middle = [];
    last = aborted scan options credentials conditions code;
    in_order = refl;
    of_items = tt;
    once = λ id. omega arith;
    is_last = inr refl;
  }

  -- A flush cycle sends SYNC_STARTED first and exactly one terminal event last, SYNC_SUCCEEDED or
  -- SYNC_FAILED, and between them events of items only, at most one for each id: however the cycle
  -- goes, a claim or a result that cannot be written and a cancellation included, with writes that
  -- throw, in whatever order the dispatches end, where no two rows have one id.
  pub run_cycle-IsCycleLog :
      ((rows : Table) → Arranges (scan rows) rows)
      → (s : SyncQueueStorage) → Distinct s.items
      → IsCycleLog (run_cycle scan options credentials conditions s).events
  unfolding run_cycle
  run_cycle-IsCycleLog orders s distinct = after_claim-IsCycleLog s conditions.course _ (
      select_claimable-Distinct scan orders conditions.started_at (batch_size_of options) s.items
        distinct)
