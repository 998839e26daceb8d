-- ===== src/Android/Engine.antt =====
-- The queue of the Android engine under any sequence of its operations: SyncQueueStorage with the
-- flush cycles of SyncDispatcher. An operation is one step; `enqueue` counts and inserts at once.
use Prim.Native.String.{String}
use react_native_sync_provid.Common.{
  ℕ, suc, ◌+◌, ◌≤◌, ◌≡◌, refl, ap, Bool, true, false, not, List, [], ◌∷◌, map, Option, none, some,
  length, arith, leb, ltb, if◌then◌else◌, All,
}
use react_native_sync_provid.Types.Sync.{SyncOptions}
use react_native_sync_provid.Types.Errors.{queue_full, invalid_url}
use react_native_sync_provid.Android.Rows.{
  SyncItemEntity, Table, each, has_id, insert, insert_batch, claim_pending, reset_in_flight,
  is_in_flight, pending,
}
use react_native_sync_provid.Android.Storage.{
  Stored, stored, refused, conflict, SyncItemInput, SyncQueueStorage, Platform, enqueue,
  enqueue_batch, to_entity, to_entities, all_valid, remove_item, clear,
}
use react_native_sync_provid.Android.Dispatch.{CredentialPolicy, trusted, persisted, unavailable}
use react_native_sync_provid.Android.Cycle.{
  Conditions, Course, undisturbed, claim_throws, record_throws, cancelled, batch_size_of,
  after_claim, run_cycle, flush,
}
use react_native_sync_provid.Android.Tables.{Arranges, Distinct}
use react_native_sync_provid.Android.Refinement.{row_after, claimed_by, run_cycle-row_after}
use react_native_sync_provid.Android.Settled.{
  Kept, each-All, All-each, NotInFlight, run_cycle-NotInFlight,
}
use react_native_sync_provid.Android.Outcomes.{row_after-id}
use react_native_sync_provid.Android.Insertion.{
  count-each, length-each, Inserted, insert-Inserted, insert_batch-Inserted,
}

-- Between operations: ids are unique, the cap is kept, and no row is in flight.
pub record IsSound (s : SyncQueueStorage) : Type 0 where
  pub distinct : Distinct s.items
  pub capped : length s.items ≤ s.max_queue_size
  pub idle : All NotInFlight s.items

-- What the engine relies on in a cycle: the concurrent dispatches end in some order, and neither
-- their writes nor `resetInFlight` throw.
pub record Fair (conditions : Conditions) : Type 0 where
  pub finishes : (rows : Table) → Arranges (conditions.finishing rows) rows
  pub works : (c : SyncItemEntity) → (conditions.exchange c).write_throws ≡ none
  pub resets : conditions.reset_works ≡ true

pub data Operation : Type 0 where
  enqueues : Platform → (now : ℕ) → SyncItemInput → Operation
  enqueues_batch : Platform → (now : ℕ) → List SyncItemInput → Operation
  removes : (id : String) → Operation
  clears resets : Operation
  flushes :
      SyncOptions
      → CredentialPolicy
      → (conditions : Conditions) → (paused : Bool) → Fair conditions
      → Operation

module _ (scan : Table → Table) where
  abbrev pub run : Operation → SyncQueueStorage → SyncQueueStorage
  run (enqueues platform now input) s = (enqueue platform now input s).1
  run (enqueues_batch platform now inputs) s = (enqueue_batch platform now inputs s).1
  run (removes id) s = (remove_item id s).1
  run clears s = clear s
  run resets s = record s { items = reset_in_flight s.items }
  run (flushes options credentials conditions paused fair) s =
      (flush scan options credentials conditions paused s).storage

  abbrev pub run_all : List Operation → SyncQueueStorage → SyncQueueStorage
  run_all [] s = s
  run_all (o ∷ os) s = run_all os (run o s)

-- A statement that deletes rows, or changes them but for their ids.
each-IsSound :
    (f : SyncItemEntity → Option SyncItemEntity) (s : SyncQueueStorage)
    → ((t : SyncItemEntity) → Kept (λ u. u.id ≡ t.id) (f t))
    → ((t : SyncItemEntity) → NotInFlight t → Kept NotInFlight (f t))
    → IsSound s
    → IsSound (record s { items = each f s.items })
each-IsSound f s ids idle h = record {
  distinct = λ id. omega (arith, h.distinct id, count-each id f s.items ids);
  capped = omega (arith, h.capped, length-each f s.items);
  idle = each-All NotInFlight f s.items (All-each NotInFlight _ s.items idle h.idle);
}

inserted_IsSound :
    (n : ℕ) (s : SyncQueueStorage) (items : Table)
    → n + length s.items ≤ s.max_queue_size
    → Inserted n s.items (some items)
    → IsSound (record s { items = items })
inserted_IsSound n s items room k = record {
  distinct = k.0;
  capped = omega (arith, k.1, room);
  idle = k.2;
}

enqueue-IsSound :
    (platform : Platform) (now : ℕ) (input : SyncItemInput) (s : SyncQueueStorage)
    → IsSound s
    → IsSound (enqueue platform now input s).1
enqueue-IsSound platform now input s h =
    go (not (platform.is_valid_url input.url)) (leb s.max_queue_size (length s.items)) refl
      (insert row s.items) (insert-Inserted row s.items refl h.distinct h.idle)
  where
    row : SyncItemEntity
    row = to_entity platform now (platform.generate 0) input

    go :
        (invalid full : Bool)
        → leb s.max_queue_size (length s.items) ≡ full
        → (o : Option Table) → Inserted 1 s.items o
        → IsSound
            (if invalid
              then (refused invalid_url, s)
              else if full
              then (refused queue_full, s)
              else elim o as (λ o. Stored String × SyncQueueStorage) [
                | none ↦ (conflict, s)
                | some items ↦ (stored (platform.generate 0), record s { items = items })
              ]).1
    go true full e o k = h
    go false true e o k = h
    go false false e none k = h
    go false false e (some items) k = inserted_IsSound 1 s items (ground (arith, e)) k

to_entities-length :
    (platform : Platform) (now n : ℕ) (inputs : List SyncItemInput)
    → length (to_entities platform now n inputs) ≡ length inputs
to_entities-length platform now n [] = refl
to_entities-length platform now n (input ∷ inputs) =
    ap suc (to_entities-length platform now (suc n) inputs)

to_entities-NotInFlight :
    (platform : Platform) (now n : ℕ) (inputs : List SyncItemInput)
    → All NotInFlight (to_entities platform now n inputs)
to_entities-NotInFlight platform now n [] = tt
to_entities-NotInFlight platform now n (input ∷ inputs) =
    (refl, to_entities-NotInFlight platform now (suc n) inputs)

enqueue_batch-IsSound :
    (platform : Platform) (now : ℕ) (inputs : List SyncItemInput) (s : SyncQueueStorage)
    → IsSound s
    → IsSound (enqueue_batch platform now inputs s).1
enqueue_batch-IsSound platform now [] s h = h
enqueue_batch-IsSound platform now (input ∷ inputs) s h =
    let rows = to_entities platform now 0 (input ∷ inputs) in
    let n = length (input ∷ inputs) in
    go rows (not (all_valid platform (input ∷ inputs))) (ltb s.max_queue_size (length s.items + n))
      refl (insert_batch rows s.items) (to_entities-length platform now 0 (input ∷ inputs))
      (insert_batch-Inserted rows s.items (to_entities-NotInFlight platform now 0 (input ∷ inputs))
        h.distinct h.idle)
  where
    go :
        (rows : Table) (invalid full : Bool)
        → ltb s.max_queue_size (length s.items + suc (length inputs)) ≡ full
        → (o : Option Table) → length rows ≡ suc (length inputs)
        → Inserted (length rows) s.items o
        → IsSound
            (if invalid
              then (refused invalid_url, s)
              else if full
              then (refused queue_full, s)
              else elim o as (λ o. Stored (List String) × SyncQueueStorage) [
                | none ↦ (conflict, s)
                | some items ↦ (stored (map (λ r. r.id) rows), record s { items = items })
              ]).1
    go rows true full e o same k = h
    go rows false true e o same k = h
    go rows false false e none same k = h
    go rows false false e (some items) same k =
        inserted_IsSound (length rows) s items (ground (arith, e, same)) k

remove-IsSound : (id : String) (s : SyncQueueStorage) → IsSound s → IsSound (remove_item id s).1
remove-IsSound id s h =
    each-IsSound (λ r. if has_id id r then none else some r) s (λ t. ids t (has_id id t))
      (λ t i. idle t i (has_id id t)) h
  where
    ids : (t : SyncItemEntity) (b : Bool) → Kept (λ u. u.id ≡ t.id) (if b then none else some t)
    ids t true = tt
    ids t false = refl

    idle :
        (t : SyncItemEntity)
        → NotInFlight t
        → (b : Bool) → Kept NotInFlight (if b then none else some t)
    idle t i true = tt
    idle t i false = i

resets-IsSound :
    (s : SyncQueueStorage) → IsSound s → IsSound (record s { items = reset_in_flight s.items })
resets-IsSound s h =
    each-IsSound (λ r. some (if is_in_flight r.status then record r { status = pending } else r)) s
      (λ t. ids t (is_in_flight t.status)) (λ t i. idle t (is_in_flight t.status) refl i) h
  where
    ids :
        (t : SyncItemEntity) (b : Bool) → (if b then record t { status = pending } else t).id ≡ t.id
    ids t true = refl
    ids t false = refl

    idle :
        (t : SyncItemEntity) (b : Bool)
        → is_in_flight t.status ≡ b
        → NotInFlight t
        → NotInFlight (if b then record t { status = pending } else t)
    idle t true e i = refl
    idle t false e i = i

module _ (scan : Table → Table) (orders : (rows : Table) → Arranges (scan rows) rows) where
  run_cycle-max_queue_size :
      (options : SyncOptions) (credentials : CredentialPolicy) (conditions : Conditions)
      (s : SyncQueueStorage)
      → (run_cycle scan options credentials conditions s).storage.max_queue_size ≡ s.max_queue_size
  unfolding run_cycle
  run_cycle-max_queue_size options credentials conditions s = go conditions.course
    where
      either_way :
          (b : Bool) (x y : SyncQueueStorage)
          → x.max_queue_size ≡ y.max_queue_size
          → (if b then x else y).max_queue_size ≡ y.max_queue_size
      either_way true x y e = e
      either_way false x y e = refl

      go :
          (course : Course)
          → (after_claim scan options credentials conditions s course (
              claim_pending scan conditions.started_at
                (batch_size_of options)
                s.items)).storage.max_queue_size
            ≡ s.max_queue_size
      go undisturbed = either_way _ _ _ refl
      go (claim_throws code) = refl
      go (record_throws code) = refl
      go (cancelled starts) = refl

  run_cycle-IsSound :
      (options : SyncOptions) (credentials : CredentialPolicy) (conditions : Conditions)
      → Fair conditions
      → (s : SyncQueueStorage) → IsSound s
      → IsSound (run_cycle scan options credentials conditions s).storage
  run_cycle-IsSound options credentials conditions fair s h =
      let cycle = run_cycle scan options credentials conditions s in
      let rows : cycle.storage.items
          ≡ each
              (row_after scan options credentials conditions conditions.course
                (claimed_by scan options credentials conditions s))
              s.items =
        run_cycle-row_after scan options credentials conditions fair.finishes orders s h.distinct in
      let ids =
        row_after-id scan options credentials conditions conditions.course
          (claimed_by scan options credentials conditions s) in
      let size = run_cycle-max_queue_size options credentials conditions s in
      record {
        distinct = rw rows (λ id. omega (arith, h.distinct id, count-each id _ s.items ids));
        capped = rw (rows, size) (omega (arith, h.capped, length-each _ s.items));
        idle =
            run_cycle-NotInFlight scan options credentials conditions orders fair.finishes
              fair.works fair.resets s h.distinct h.idle;
      }

  flush-IsSound :
      (options : SyncOptions) (credentials : CredentialPolicy) (conditions : Conditions)
      (paused : Bool)
      → Fair conditions
      → (s : SyncQueueStorage) → IsSound s
      → IsSound (flush scan options credentials conditions paused s).storage
  unfolding flush
  flush-IsSound options credentials conditions true fair s h = h
  flush-IsSound options trusted conditions false fair s h =
      run_cycle-IsSound options trusted conditions fair s h
  flush-IsSound options persisted conditions false fair s h =
      run_cycle-IsSound options persisted conditions fair s h
  flush-IsSound options unavailable conditions false fair s h = h

  run-IsSound : (o : Operation) (s : SyncQueueStorage) → IsSound s → IsSound (run scan o s)
  run-IsSound (enqueues platform now input) s h = enqueue-IsSound platform now input s h
  run-IsSound (enqueues_batch platform now inputs) s h =
      enqueue_batch-IsSound platform now inputs s h
  run-IsSound (removes id) s h = remove-IsSound id s h
  run-IsSound clears s h = record { distinct = λ id. omega arith; capped = omega arith; idle = tt }
  run-IsSound resets s h = resets-IsSound s h
  run-IsSound (flushes options credentials conditions paused fair) s h =
      flush-IsSound options credentials conditions paused fair s h

  -- After any sequence of enqueues, removals, resets and flushes, and of `clear`, on a queue in which ids are
  -- unique, the cap is kept and no row is in flight, it is so again: where no write of an attempt and
  -- no reset of the rows in flight throws, concurrent dispatches end in any order, and whatever the server answers. Ids that come
  -- twice are refused by the primary key.
  pub run_all-IsSound :
      (os : List Operation) (s : SyncQueueStorage) → IsSound s → IsSound (run_all scan os s)
  run_all-IsSound [] s h = h
  run_all-IsSound (o ∷ os) s h = run_all-IsSound os (run scan o s) (run-IsSound o s h)
