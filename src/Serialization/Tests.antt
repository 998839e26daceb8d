-- ===== src/Serialization/Tests.antt =====
-- An item that was stored before it had attempts.
use Prim.Native.String.{String}
use react_native_sync_provid.Common.{◌≡◌, ◌⊎◌, inl, inr, refl, true, arith}
use text.Mathlib.Text.{◌==◌ as str_eq}
use text.Mathlib.TextEquality.{eq_iff}
use react_native_sync_provid.Common.Int.{pos}
use react_native_sync_provid.Types.Number.{finite}
use react_native_sync_provid.Types.Value.{
  Value, string, number, object, field, end, property, lookup,
}
use react_native_sync_provid.Types.Errors.{Thrown, Outcome, fulfilled, rejected}
use react_native_sync_provid.Types.Enums.{HttpMethod}
use react_native_sync_provid.Common.Text.{codes}
use react_native_sync_provid.Validation.Url.{
  is_http_url, is_http_url-IsHttpUrl, no_spaces, is_space,
}
use react_native_sync_provid.Serialization.RoundTrip.{deserialize_sync_item-serialize_sync_item}
use react_native_sync_provid.Serialization.Items.{serialize_sync_item, deserialize_sync_item}
use react_native_sync_provid.Serialization.Laws.{
  IsStoredItem, IsCompletion, deserialize_sync_item-IsStoredItem,
}

abbrev old_item : Value
old_item = object (
    field "id" (string "01") (
      field "method" (string "GET")
        (field "url" (string "http://a.b") (field "createdAt" (number (finite (pos 7))) end))))

abbrev parse : String → Outcome Value
parse _ = fulfilled old_item

deserialize_sync_item-IsStoredItem_example :
    (IsStoredItem old_item
      × ((r : Value) × (deserialize_sync_item parse "{}" ≡ fulfilled r) × IsCompletion old_item r))
    ⊎ (¬ (IsStoredItem old_item) × ((e : Thrown) × (deserialize_sync_item parse "{}" ≡ rejected e)))
deserialize_sync_item-IsStoredItem_example =
    deserialize_sync_item-IsStoredItem parse "{}" old_item refl

abbrev stored_item : Value
stored_item = object (
    field "id" (string "01") (
      field "method" (string "GET") (
        field "url" (string "http://a.b") (
          field "createdAt" (number (finite (pos 7))) (
            field "attempts" (number (finite (pos 1)))
              (field "nextRetryAt" (number (finite (pos 9))) end))))))

url-IsHttpUrl : is_http_url (codes "http://a.b") ≡ true
unfolding is_http_url no_spaces is_space
url-IsHttpUrl = refl

not_empty : str_eq "01" "" ≡ true → ⊥
not_empty h = ground (arith, h)

stored_item-IsStoredItem : IsStoredItem stored_item
unfolding property lookup
stored_item-IsStoredItem = record {
  id = ("01", refl, λ e. not_empty ((eq_iff "01" "").1 e));
  created_at = (finite (pos 7), refl);
  attempts = inr (finite (pos 1), refl);
  next_retry_at = inr (finite (pos 9), refl);
  input = record {
    is_object = refl;
    method = (HttpMethod.get, refl);
    url = ("http://a.b", refl, (is_http_url-IsHttpUrl (codes "http://a.b")).0 url-IsHttpUrl);
    body = inl refl;
    content_type = inl refl;
    priority = inl refl;
    headers = inl refl;
    metadata = inl refl;
  };
}

deserialize_sync_item-serialize_sync_item_example :
    (serialize_sync_item (λ _. fulfilled "{}") stored_item ≡ fulfilled "{}")
    × ((r : Value) × (deserialize_sync_item (λ _. fulfilled stored_item) "{}" ≡ fulfilled r)
        × ((k : String) → property r k ≡ property stored_item k))
unfolding property lookup
deserialize_sync_item-serialize_sync_item_example =
    deserialize_sync_item-serialize_sync_item (λ _. fulfilled "{}") (λ _. fulfilled stored_item)
      stored_item "{}" refl refl stored_item-IsStoredItem refl refl
