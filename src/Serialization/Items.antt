-- ===== src/Serialization/Items.antt =====
-- src/utils/serializeSyncItem.ts and deserializeSyncItem.ts. `JSON.stringify` and `JSON.parse` are
-- parameters: each gives a result or throws.
use Prim.Native.String.{String}
use text.Mathlib.Text.{◌==◌ as str_eq}
use react_native_sync_provid.Common.{Bool, true, not, ◌&&◌, List, [], ◌∷◌, none, if◌then◌else◌}
use react_native_sync_provid.Common.Int.{pos}
use react_native_sync_provid.Types.Number.{finite}
use react_native_sync_provid.Types.Value.{
  Value, undefined, null, number, string, object, Fields, end, field, properties, property,
  is_defined, is_number, is_non_null_object,
}
use react_native_sync_provid.Types.Errors.{
  invalid_payload, new_sync_error, no_cause, Outcome, fulfilled, rejected, ◌>>◌,
}
use react_native_sync_provid.Validation.Issues.{validate_sync_item}

unfoldable pub serialize_sync_item : (Value → Outcome String) → Value → Outcome String
serialize_sync_item stringify item = elim (stringify item) [
  | fulfilled json ↦ fulfilled json
  | rejected err ↦
      rejected (new_sync_error invalid_payload "Failed to serialize SyncItem to JSON." err none)
]

-- A guard of `deserializeSyncItem`: `if (test) throw new SyncError(INVALID_PAYLOAD, message)`.
abbrev pub refuse : Bool → String → Outcome (Unit {0})
refuse test message =
    if test then rejected (new_sync_error invalid_payload message no_cause none) else fulfilled tt

-- `typeof candidate.id !== 'string' || candidate.id.length === 0`.
abbrev pub is_missing_id : Value → Bool
is_missing_id (string id) = str_eq id ""
is_missing_id _ = true

-- `value !== undefined && typeof value !== 'number'`.
abbrev pub is_bad_count : Value → Bool
is_bad_count value = is_defined value && not (is_number value)

-- `value ?? 0`.
abbrev pub or_zero : Value → Value
or_zero undefined = number (finite (pos 0))
or_zero null = number (finite (pos 0))
or_zero value = value

-- `{ ...value, key: v }`: a key keeps its place, and a new one comes last.
unfoldable pub set_property : String → Value → List (String × Value) → List (String × Value)
set_property k v [] = (k, v) ∷ []
set_property k v ((j, u) ∷ ps) =
    let rest = set_property k v ps in if str_eq j k then (j, v) ∷ ps else (j, u) ∷ rest

abbrev pub fields_of : List (String × Value) → Fields
fields_of [] = end
fields_of ((k, v) ∷ ps) = field k v (fields_of ps)

unfoldable pub with_defaults : Value → Value
unfolding set_property
with_defaults candidate = object (
    fields_of (
      set_property "nextRetryAt" (or_zero (property candidate "nextRetryAt"))
        (set_property "attempts" (or_zero (property candidate "attempts")) (properties candidate))))

-- From the parsed value on.
unfoldable pub accept : Value → Outcome Value
unfolding with_defaults validate_sync_item
accept candidate =
    refuse (not (is_non_null_object candidate)) "Parsed SyncItem must be a non-null object."
    >> (refuse (is_missing_id (property candidate "id"))
          "Deserialized SyncItem is missing a non-empty `id`."
        >> (refuse (not (is_number (property candidate "createdAt")))
              "Deserialized SyncItem is missing a numeric `createdAt`."
            >> (refuse (is_bad_count (property candidate "attempts"))
                  "Deserialized SyncItem `attempts` must be a number when present."
                >> (refuse (is_bad_count (property candidate "nextRetryAt"))
                      "Deserialized SyncItem `nextRetryAt` must be a number when present."
                    >> (validate_sync_item candidate >> fulfilled (with_defaults candidate))))))

unfoldable pub deserialize_sync_item : (String → Outcome Value) → String → Outcome Value
unfolding accept
deserialize_sync_item parse json = elim (parse json) [
  | fulfilled parsed ↦ accept parsed
  | rejected err ↦
      rejected (new_sync_error invalid_payload "Failed to parse SyncItem JSON." err none)
]
