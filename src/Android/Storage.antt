-- ===== src/Android/Storage.antt =====
-- android/.../storage/SyncQueueStorage.kt: what is queued and read back, and its cap. The parser of
-- OkHttp, the JSON of `org.json` and the ids of `Ulid` are parameters.
use Prim.Native.String.{String}
use react_native_sync_provid.Common.{
  ℕ, suc, ◌+◌, Bool, true, false, not, List, [], ◌∷◌, map, Option, none, some, length, ltb, leb,
  if◌then◌else◌,
}
use react_native_sync_provid.Types.Enums.{SyncPriority, normal, HttpMethod}
use react_native_sync_provid.Types.Errors.{SyncErrorCode, queue_full, invalid_url}
use react_native_sync_provid.Types.Sync.{SyncItem, SyncResult}
use react_native_sync_provid.Android.Rows.{
  SyncItemEntity, pending, failed, priority_weight_of, Table, insert, insert_batch, delete_by_id,
  count_by_id, update_status, find_pending, find_pending_limit,
}

pub record SyncItemInput : Type 0 where
  pub method : HttpMethod
  pub url : String
  pub headers : Option (List (String × String))
  pub body : Option String
  pub content_type : Option String
  pub priority : Option SyncPriority
  pub metadata : Option (List (String × String))

-- The rows and the cap, and the recorded results, in any order.
pub record SyncQueueStorage : Type 0 where
  pub items : Table
  pub results : List SyncResult
  pub max_queue_size : ℕ

-- How an operation that may throw ends: with a value, a `SyncException`, or what SQLite throws on a
-- conflict of ids.
pub data Stored (A : Type 0) : Type 0 where
  stored : A → Stored A
  refused : SyncErrorCode → Stored A
  conflict : Stored A

-- `JsonMap`, `UrlValidator` (with `isBlank`) and what `Ulid.generate` answers for the n-th item of
-- a call.
pub record Platform : Type 0 where
  pub encode : List (String × String) → String
  pub decode : String → Option (List (String × String))
  pub is_valid_url : String → Bool
  pub generate : ℕ → String

module _ (platform : Platform) where
  -- `JsonMap.encode`, of an empty map too, and `JsonMap.decode`.
  abbrev pub encode_map : Option (List (String × String)) → Option String
  encode_map none = none
  encode_map (some []) = none
  encode_map (some (p ∷ ps)) = some (platform.encode (p ∷ ps))

  abbrev pub decode_map : Option String → Option (List (String × String))
  decode_map none = none
  decode_map (some raw) = platform.decode raw

  abbrev pub or_normal : Option SyncPriority → SyncPriority
  or_normal none = normal
  or_normal (some priority) = priority

  -- `toEntity` at the time `now`, and `toSyncItem`.
  abbrev pub to_entity : ℕ → String → SyncItemInput → SyncItemEntity
  to_entity now id input = record {
    id = id;
    method = input.method;
    url = input.url;
    headers = encode_map input.headers;
    body = input.body;
    content_type = input.content_type;
    priority = or_normal input.priority;
    priority_weight = priority_weight_of (or_normal input.priority);
    created_at = now;
    attempts = 0;
    last_attempt_at = none;
    last_error_code = none;
    status = pending;
    metadata = encode_map input.metadata;
    next_retry_at = 0;
  }

  abbrev pub to_sync_item : SyncItemEntity → SyncItem
  to_sync_item r = record {
    id = r.id;
    method = r.method;
    url = r.url;
    headers = decode_map r.headers;
    body = r.body;
    content_type = r.content_type;
    priority = some r.priority;
    created_at = r.created_at;
    attempts = r.attempts;
    next_retry_at = r.next_retry_at;
    metadata = decode_map r.metadata;
  }

  -- `enqueue`.
  abbrev pub enqueue : ℕ → SyncItemInput → SyncQueueStorage → Stored String × SyncQueueStorage
  enqueue now input s =
      if not (platform.is_valid_url input.url)
      then (refused invalid_url, s)
      else if leb s.max_queue_size (length s.items)
      then (refused queue_full, s)
      else (let row = to_entity now (platform.generate 0) input in
          elim (insert row s.items) [
            | none ↦ (conflict, s)
            | some items ↦ (stored row.id, record s { items = items })
          ])

  abbrev pub all_valid : List SyncItemInput → Bool
  all_valid [] = true
  all_valid (input ∷ inputs) = if platform.is_valid_url input.url then all_valid inputs else false

  abbrev pub to_entities : ℕ → ℕ → List SyncItemInput → List SyncItemEntity
  to_entities now n [] = []
  to_entities now n (input ∷ inputs) =
      to_entity now (platform.generate n) input ∷ to_entities now (suc n) inputs

  -- `enqueueBatch`.
  abbrev pub enqueue_batch :
      ℕ → List SyncItemInput → SyncQueueStorage → Stored (List String) × SyncQueueStorage
  enqueue_batch now [] s = (stored [], s)
  enqueue_batch now (input ∷ inputs) s =
      if not (all_valid (input ∷ inputs))
      then (refused invalid_url, s)
      else if ltb s.max_queue_size (length s.items + length (input ∷ inputs))
      then (refused queue_full, s)
      else (let rows = to_entities now 0 (input ∷ inputs) in
          elim (insert_batch rows s.items) [
            | none ↦ (conflict, s)
            | some items ↦ (stored (map (λ r. r.id) rows), record s { items = items })
          ])

  -- `getPending`.
  abbrev pub get_pending : (Table → Table) → ℕ → SyncQueueStorage → List SyncItem
  get_pending scan limit s =
      map to_sync_item
        (if ltb 0 limit then find_pending_limit scan limit s.items else find_pending scan s.items)

abbrev pub remove_item : String → SyncQueueStorage → Bool × SyncQueueStorage
remove_item id s = (ltb 0 (count_by_id id s.items), record s { items = delete_by_id id s.items })

abbrev pub clear : SyncQueueStorage → SyncQueueStorage
clear s = record s { items = [] }

abbrev pub mark_succeeded : String → Table → Table
mark_succeeded id items = delete_by_id id items

abbrev pub mark_retry : String → ℕ → ℕ → SyncErrorCode → ℕ → Table → Table
mark_retry id attempts last_attempt_at last_error_code next_retry_at items =
    update_status id pending attempts (some last_attempt_at) (some last_error_code) next_retry_at
      items

abbrev pub mark_failed : String → ℕ → ℕ → SyncErrorCode → Table → Table
mark_failed id attempts last_attempt_at last_error_code items =
    update_status id failed attempts (some last_attempt_at) (some last_error_code) 0 items

-- The history.
abbrev pub record_result : SyncResult → SyncQueueStorage → SyncQueueStorage
record_result result s = record s { results = result ∷ s.results }

abbrev pub clear_history : SyncQueueStorage → SyncQueueStorage
clear_history s = record s { results = [] }
