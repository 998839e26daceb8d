-- ===== src/Serialization/RoundTrip.antt =====
-- Serializing an item and deserializing the text.
use Prim.Native.String.{String}
use text.Mathlib.Text.{◌==◌ as str_eq}
use text.Mathlib.TextEquality.{eq_iff}
use react_native_sync_provid.Common.{◌≡◌, ◌∙◌, inl, inr, refl, sym, Bool-cases, true, arith}
use react_native_sync_provid.Types.Value.{
  Value, undefined, null, boolean, number, string, object, array, function, symbol, bigint,
  property, is_number,
}
use react_native_sync_provid.Types.Errors.{Outcome, fulfilled}
use react_native_sync_provid.Serialization.Items.{
  or_zero, with_defaults, serialize_sync_item, deserialize_sync_item,
}
use react_native_sync_provid.Serialization.Laws.{
  IsStoredItem, accept_complete, with_defaults-property,
}

or_zero-number : (v : Value) → is_number v ≡ true → or_zero v ≡ v
or_zero-number undefined h = absurd (ground (arith, h))
or_zero-number null h = absurd (ground (arith, h))
or_zero-number (boolean b) h = refl
or_zero-number (number n) h = refl
or_zero-number (string s) h = refl
or_zero-number (object fs) h = refl
or_zero-number (array xs) h = refl
or_zero-number function h = refl
or_zero-number symbol h = refl
or_zero-number bigint h = refl

with_defaults_same :
    (v : Value)
    → is_number (property v "attempts") ≡ true
    → is_number (property v "nextRetryAt") ≡ true
    → (k : String) → property (with_defaults v) k ≡ property v k
with_defaults_same v tries next k = elim (Bool-cases (str_eq "attempts" k)) [
  | inl same ↦
      let (set, _, _) = with_defaults-property v "id" refl refl in
      let e = (eq_iff "attempts" k).0 same in
      rw (sym e) (set ∙ or_zero-number (property v "attempts") tries)
  | inr other ↦ elim (Bool-cases (str_eq "nextRetryAt" k)) [
    | inl same ↦
        let (_, set, _) = with_defaults-property v "id" refl refl in
        let e = (eq_iff "nextRetryAt" k).0 same in
        rw (sym e) (set ∙ or_zero-number (property v "nextRetryAt") next)
    | inr another ↦ let (_, _, kept) = with_defaults-property v k other another in kept
  ]
]

-- A stored item with its counters, which `JSON.stringify` writes as a text that `JSON.parse` reads
-- back as that item, is serialized to that text, which is deserialized to an object that has the
-- item's properties: each of them, and no others.
pub deserialize_sync_item-serialize_sync_item :
    (stringify : Value → Outcome String) (parse : String → Outcome Value) (v : Value)
    (json : String)
    → stringify v ≡ fulfilled json
    → parse json ≡ fulfilled v
    → IsStoredItem v
    → is_number (property v "attempts") ≡ true
    → is_number (property v "nextRetryAt") ≡ true
    → (serialize_sync_item stringify v ≡ fulfilled json)
      × ((r : Value) × (deserialize_sync_item parse json ≡ fulfilled r)
          × ((k : String) → property r k ≡ property v k))
unfolding serialize_sync_item deserialize_sync_item
deserialize_sync_item-serialize_sync_item stringify parse v json written read stored tries next = (
  rw (serialize_sync_item, written) refl,
  (
    with_defaults v,
    rw (deserialize_sync_item, read) (accept_complete v stored),
    with_defaults_same v tries next,
  ),
)
