-- ===== src/Android/Rows.antt =====
-- android/.../database/SyncItemEntity.kt and SyncItemDao.kt: the table of queued requests and its SQL
-- statements. A table is the list of its rows in any order. `ORDER BY` sorts the rows that a statement
-- selects; since SQLite gives rows that compare equal in any order, the order in which it comes upon
-- the rows is a parameter, `scan`. A column that holds the name of an enum entry holds the entry.
use Prim.Native.String.{String}
use text.Mathlib.Text.{◌==◌ as str_eq}
use react_native_sync_provid.Common.{
  ℕ, zero, suc, ◌-◌, ◌==◌, min, Bool, true, false, ◌&&◌, ◌||◌, List, [], ◌∷◌, map, Option, none,
  some, length, ltb, leb, if◌then◌else◌,
}
use react_native_sync_provid.Types.Enums.{SyncPriority, high, normal, low, HttpMethod}
use react_native_sync_provid.Types.Errors.{SyncErrorCode}

pub data RowStatus : Type 0 where
  pending in_flight failed : RowStatus

abbrev pub is_pending : RowStatus → Bool
is_pending pending = true
is_pending _ = false

abbrev pub is_in_flight : RowStatus → Bool
is_in_flight in_flight = true
is_in_flight _ = false

pub record SyncItemEntity : Type 0 where
  pub id : String
  pub method : HttpMethod
  pub url : String
  pub headers : Option String
  pub body : Option String
  pub content_type : Option String
  pub priority : SyncPriority
  pub priority_weight : ℕ
  pub created_at : ℕ
  pub attempts : ℕ
  pub last_attempt_at : Option ℕ
  pub last_error_code : Option SyncErrorCode
  pub status : RowStatus
  pub metadata : Option String
  pub next_retry_at : ℕ

-- `priorityWeight`.
abbrev pub priority_weight_of : SyncPriority → ℕ
priority_weight_of high = 0
priority_weight_of low = 2
priority_weight_of normal = 1

abbrev pub Table : Type 0
Table = List SyncItemEntity

-- `WHERE`, and the statements that change or delete each row where it holds.
abbrev pub select {ℓ} : {A : Type ℓ} → (A → Bool) → List A → List A
select p [] = []
select p (r ∷ rows) = if p r then r ∷ select p rows else select p rows

abbrev pub kept {ℓ} : {A : Type ℓ} → Option A → List A → List A
kept none rows = rows
kept (some r) rows = r ∷ rows

abbrev pub each {ℓ} : {A : Type ℓ} → (A → Option A) → List A → List A
each f [] = []
each f (r ∷ rows) = kept (f r) (each f rows)

-- `LIMIT`.
abbrev pub take {ℓ} : {A : Type ℓ} → ℕ → List A → List A
take zero rows = []
take (suc n) [] = []
take (suc n) (r ∷ rows) = r ∷ take n rows

abbrev pub has_id : String → SyncItemEntity → Bool
has_id id r = str_eq r.id id

abbrev pub includes_id : List String → String → Bool
includes_id [] id = false
includes_id (i ∷ ids) id = str_eq i id || includes_id ids id

abbrev pub includes_row : String → Table → Bool
includes_row id [] = false
includes_row id (r ∷ rows) = has_id id r || includes_row id rows

-- `insert`, which aborts on a conflict of the primary key, and `insertBatch`, a transaction.
abbrev pub insert : SyncItemEntity → Table → Option Table
insert r table = if includes_row r.id table then none else some (r ∷ table)

abbrev pub insert_batch : List SyncItemEntity → Table → Option Table
insert_batch [] table = some table
insert_batch (r ∷ rows) table = elim (insert r table) [
  | none ↦ none
  | some inserted ↦ insert_batch rows inserted
]

-- `deleteById`, and the number of rows that it deletes.
abbrev pub delete_by_id : String → Table → Table
delete_by_id id table = each (λ r. if has_id id r then none else some r) table

abbrev pub count_by_id : String → Table → ℕ
count_by_id id table = length (select (has_id id) table)

abbrev pub count_pending : Table → ℕ
count_pending table = length (select (λ r. is_pending r.status) table)

abbrev pub claimable : ℕ → SyncItemEntity → Bool
claimable now r = is_pending r.status && leb r.next_retry_at now

-- `markInFlight`, over the ids of one statement.
abbrev pub mark_in_flight : List String → Table → Table
mark_in_flight ids table =
    each (λ r. some (if includes_id ids r.id then record r { status = in_flight } else r)) table

-- `List.chunked(size)`, by the room that is left in the current chunk.
abbrev pub put_first {ℓ} : {A : Type ℓ} → A → List (List A) → List (List A)
put_first x [] = (x ∷ []) ∷ []
put_first x (c ∷ chunks) = (x ∷ c) ∷ chunks

abbrev pub fill_chunks {ℓ} : {A : Type ℓ} → ℕ → ℕ → List A → List (List A)
fill_chunks size room [] = []
fill_chunks size zero (x ∷ xs) = [] ∷ put_first x (fill_chunks size (size - 1) xs)
fill_chunks size (suc room) (x ∷ xs) = put_first x (fill_chunks size room xs)

abbrev pub chunked {ℓ} : {A : Type ℓ} → ℕ → List A → List (List A)
chunked size xs = fill_chunks size size xs

abbrev pub mark_chunks : List (List String) → Table → Table
mark_chunks [] table = table
mark_chunks (ids ∷ chunks) table = mark_chunks chunks (mark_in_flight ids table)

abbrev pub max_ids_per_statement : ℕ
max_ids_per_statement = 500

-- `ORDER BY priorityWeight ASC, createdAt ASC`, of rows in the order in which they were come upon.
abbrev pub goes_before : SyncItemEntity → SyncItemEntity → Bool
goes_before a b =
    ltb a.priority_weight b.priority_weight
    || (a.priority_weight == b.priority_weight && leb a.created_at b.created_at)

abbrev pub put_in_order : SyncItemEntity → Table → Table
put_in_order r [] = r ∷ []
put_in_order r (x ∷ rows) = if goes_before r x then r ∷ x ∷ rows else x ∷ put_in_order r rows

abbrev pub order_by : Table → Table
order_by [] = []
order_by (r ∷ rows) = put_in_order r (order_by rows)

-- `selectClaimable` and `claimPending`: the table after it and the claimed rows as they were.
module _ (scan : Table → Table) where
  abbrev pub select_claimable : ℕ → ℕ → Table → Table
  select_claimable now limit table = take limit (order_by (scan (select (claimable now) table)))

  abbrev pub claim_pending : ℕ → ℕ → Table → Table × Table
  claim_pending now limit table =
      let rows = select_claimable now limit table in
      (mark_chunks (chunked max_ids_per_statement (map (λ r. r.id) rows)) table, rows)

  -- `findByStatuses` and `findByStatusesLimit`, of the pending rows.
  abbrev pub find_pending : Table → Table
  find_pending table = order_by (scan (select (λ r. is_pending r.status) table))

  abbrev pub find_pending_limit : ℕ → Table → Table
  find_pending_limit limit table = take limit (find_pending table)

-- `MIN(nextRetryAt)`.
abbrev pub min_retry : Table → Option ℕ
min_retry [] = none
min_retry (r ∷ rows) = elim (min_retry rows) [
  | none ↦ some r.next_retry_at
  | some least ↦ some (min r.next_retry_at least)
]

abbrev pub next_retry_deadline : Table → Option ℕ
next_retry_deadline table =
    min_retry (select (λ r. is_pending r.status && ltb 0 r.next_retry_at) table)

abbrev pub next_pending_deadline : Table → Option ℕ
next_pending_deadline table = min_retry (select (λ r. is_pending r.status) table)

-- `updateStatus`.
abbrev pub update_status :
    String → RowStatus → ℕ → Option ℕ → Option SyncErrorCode → ℕ → Table → Table
update_status id status attempts last_attempt_at last_error_code next_retry_at table =
    each
      (λ r. some (
        if has_id id r
        then record r {
          status = status;
          attempts = attempts;
          last_attempt_at = last_attempt_at;
          last_error_code = last_error_code;
          next_retry_at = next_retry_at;
        }
        else r))
      table

-- `resetInFlight`.
abbrev pub reset_in_flight : Table → Table
reset_in_flight table =
    each (λ r. some (if is_in_flight r.status then record r { status = pending } else r)) table
