-- ===== src/Android/RoundTrip.antt =====
-- SyncQueueStorage.enqueue and getPending: what is queued is read back.
use Prim.Native.String.{String}
use mathlib.Core.Path.{subst}
use react_native_sync_provid.Common.{
  ℕ, ◌≡◌, refl, ap, ◌∙◌, ◌⊎◌, inl, inr, Bool, true, false, not, List, [], ◌∷◌, map, Option, none,
  some, length, arith, leb, if◌then◌else◌,
}
use react_native_sync_provid.Hooks.Runtime.{Picks, here, there}
use react_native_sync_provid.Types.Errors.{queue_full, invalid_url}
use react_native_sync_provid.Types.Sync.{SyncItem}
use react_native_sync_provid.Android.Sorting.{order_by-Arranges}
use react_native_sync_provid.Android.Rows.{is_pending, Table, select, includes_row}
use react_native_sync_provid.Android.Storage.{
  SyncItemInput, SyncQueueStorage, Stored, stored, refused, conflict, Platform, encode_map,
  decode_map, or_normal, to_entity, to_sync_item, enqueue, get_pending,
}
use react_native_sync_provid.Android.Tables.{Arranges, done, next}

-- An empty map is read back as none.
abbrev pub unless_empty : Option (List (String × String)) → Option (List (String × String))
unless_empty none = none
unless_empty (some []) = none
unless_empty (some (p ∷ ps)) = some (p ∷ ps)

-- The item of an input that was queued at a time under an id.
abbrev pub queued : Platform → ℕ → String → SyncItemInput → SyncItem
queued platform now id input = record {
  id = id;
  method = input.method;
  url = input.url;
  headers = unless_empty input.headers;
  body = input.body;
  content_type = input.content_type;
  priority = some (or_normal platform input.priority);
  created_at = now;
  attempts = 0;
  next_retry_at = 0;
  metadata = unless_empty input.metadata;
}

Picks-map :
    {A B : Type 0} (f : A → B) {x : A} {ys rest : List A}
    → Picks x ys rest
    → Picks (f x) (map f ys) (map f rest)
Picks-map f here = here
Picks-map f (there p) = there (Picks-map f p)

Arranges-map :
    {A B : Type 0} (f : A → B) {xs ys : List A} → Arranges xs ys → Arranges (map f xs) (map f ys)
Arranges-map f done = done
Arranges-map f (next p a) = next (Picks-map f p) (Arranges-map f a)

abbrev given_id : Stored String → String
given_id (stored id) = id
given_id (refused code) = ""
given_id conflict = ""

module _ (platform : Platform) where
  decode_map-encode_map :
      (m : Option (List (String × String)))
      → ((ps : List (String × String))
          → m ≡ some ps
          → platform.decode (platform.encode ps) ≡ some ps)
      → decode_map platform (encode_map platform m) ≡ unless_empty m
  decode_map-encode_map none h = refl
  decode_map-encode_map (some []) h = refl
  decode_map-encode_map (some (p ∷ ps)) h = h (p ∷ ps) refl

  -- The maps of an input survive being written and read.
  abbrev pub ReadsBack : SyncItemInput → Type 0
  ReadsBack input =
      (m : List (String × String))
      → (input.headers ≡ some m) ⊎ (input.metadata ≡ some m)
      → platform.decode (platform.encode m) ≡ some m

  to_sync_item-to_entity :
      (now : ℕ) (id : String) (input : SyncItemInput)
      → ReadsBack input
      → to_sync_item platform (to_entity platform now id input) ≡ queued platform now id input
  to_sync_item-to_entity now id input reads_back =
      rw
        (
          decode_map-encode_map input.headers (λ m e. reads_back m (inl e)),
          decode_map-encode_map input.metadata (λ m e. reads_back m (inr e)),
        )
        refl

  -- After `enqueue` has given an id, `getPendingItems` gives the queued item under that id, with the
  -- fields of the input (NORMAL where it has no priority, an empty map as none) and no attempts,
  -- and the items that were pending before, and nothing else: where `JSONObject` reads back the
  -- maps of the input.
  pub get_pending-enqueue :
      (scan : Table → Table)
      → ((rows : Table) → Arranges (scan rows) rows)
      → (now : ℕ) (input : SyncItemInput) (s : SyncQueueStorage) (id : String) → ReadsBack input
      → (enqueue platform now input s).0 ≡ stored id
      → Arranges (get_pending platform scan 0 (enqueue platform now input s).1) (
          queued platform now id input
          ∷ map (to_sync_item platform) (select (λ r. is_pending r.status) s.items))
  get_pending-enqueue scan orders now input s id reads_back e =
      go (not (platform.is_valid_url input.url)) (leb s.max_queue_size (length s.items))
        (includes_row (platform.generate 0) s.items) e
    where
      go :
          (invalid full known : Bool)
          → (if invalid
              then (refused invalid_url, s)
              else if full
              then (refused queue_full, s)
              else elim (if known
                    then none
                    else some (to_entity platform now (platform.generate 0) input ∷ s.items))
                  as (λ o. Stored String × SyncQueueStorage) [
                    | none ↦ (conflict, s)
                    | some items ↦ (stored (platform.generate 0), record s { items = items })
                  ]).0
            ≡ stored id
          → Arranges
              (get_pending platform scan 0
                (if invalid
                  then (refused invalid_url, s)
                  else if full
                  then (refused queue_full, s)
                  else elim (if known
                        then none
                        else some (to_entity platform now (platform.generate 0) input ∷ s.items))
                      as (λ o. Stored String × SyncQueueStorage) [
                        | none ↦ (conflict, s)
                        | some items ↦ (stored (platform.generate 0), record s { items = items })
                      ]).1)
              (queued platform now id input
                ∷ map (to_sync_item platform) (select (λ r. is_pending r.status) s.items))
      go true full known e = absurd (ground (arith, e))
      go false true known e = absurd (ground (arith, e))
      go false false true e = absurd (ground (arith, e))
      go false false false e =
          subst
            (λ item.
              Arranges
                (get_pending platform scan 0 (record s {
                  items = to_entity platform now (platform.generate 0) input ∷ s.items;
                }))
                (item ∷ map (to_sync_item platform) (select (λ r. is_pending r.status) s.items)))
            (to_sync_item-to_entity now (platform.generate 0) input reads_back
              ∙ ap (λ i. queued platform now i input) (ap given_id e))
            (Arranges-map (to_sync_item platform) (
              order_by-Arranges (
                orders (
                  to_entity platform now (platform.generate 0) input
                  ∷ select (λ r. is_pending r.status) s.items))))
