-- ===== src/Serialization/Laws.antt =====
-- Which JSON texts are accepted as items, and what becomes of them.
use Prim.Native.String.{String}
use text.Mathlib.Text.{◌==◌ as str_eq}
use text.Mathlib.TextEquality.{eq_iff}
use react_native_sync_provid.Common.{
  ◌≡◌, ◌≢◌, ◌∙◌, ◌⊎◌, inl, inr, refl, sym, ap, Bool, Bool-cases, true, false, not, List, [], ◌∷◌,
  arith,
}
use react_native_sync_provid.Types.Value.{
  Value, undefined, number, string, object, properties, property, lookup, is_number,
}
use react_native_sync_provid.Types.Number.{Number, finite}
use react_native_sync_provid.Common.Int.{pos}
use react_native_sync_provid.Types.Errors.{Thrown, Outcome, fulfilled, rejected, ◌>>◌}
use react_native_sync_provid.Validation.Laws.{IsValidInput, validate_sync_item-IsValidInput}
use react_native_sync_provid.Serialization.Items.{
  refuse, is_missing_id, is_bad_count, or_zero, set_property, fields_of, with_defaults, accept,
  deserialize_sync_item,
}

-- A counter that was stored, or was not yet there.
abbrev pub IsCount : Value → Type 0
IsCount v = (v ≡ undefined) ⊎ ((n : Number) × (v ≡ number n))

-- What a stored item is.
pub record IsStoredItem (v : Value) : Type 0 where
  pub id : (i : String) × (property v "id" ≡ string i) × (i ≢ "")
  pub created_at : (n : Number) × (property v "createdAt" ≡ number n)
  pub attempts : IsCount (property v "attempts")
  pub next_retry_at : IsCount (property v "nextRetryAt")
  pub input : IsValidInput v

-- The counter that is returned: the one that was stored, or 0.
abbrev pub Fills : Value → Value → Type 0
Fills stored returned =
    ((stored ≡ undefined) × (returned ≡ number (finite (pos 0))))
    ⊎ ((n : Number) × (stored ≡ number n) × (returned ≡ number n))

-- What is returned has the counters filled in, and each other property as it was.
pub record IsCompletion (v r : Value) : Type 0 where
  pub attempts : Fills (property v "attempts") (property r "attempts")
  pub next_retry_at : Fills (property v "nextRetryAt") (property r "nextRetryAt")
  pub others :
      (k : String) → ((k ≡ "attempts") ⊎ (k ≡ "nextRetryAt")) ⊎ (property r k ≡ property v k)

opposite : (b : Bool) → b ≡ true → b ≡ false → ⊥
opposite b h h' = cc

found_id : (v : Value) → is_missing_id v ≡ false → (i : String) × (v ≡ string i) × (i ≢ "")
found_id (string i) h = (i, refl, λ e. opposite _ ((eq_iff i "").1 e) h)
found_id _ h = absurd (ground (arith, h))

id_found : (v : Value) → ((i : String) × (v ≡ string i) × (i ≢ "")) → is_missing_id v ≡ false
id_found v (i, e, some_text) = elim (Bool-cases (str_eq i "")) [
  | inl empty ↦ absurd (some_text ((eq_iff i "").0 empty))
  | inr other ↦ rw e other
]

found_number : (v : Value) → is_number v ≡ true → (n : Number) × (v ≡ number n)
found_number (number n) h = (n, refl)
found_number _ h = absurd (ground (arith, h))

number_found : (v : Value) → ((n : Number) × (v ≡ number n)) → is_number v ≡ true
number_found v (n, e) = rw e refl

found-IsCount : (v : Value) → is_bad_count v ≡ false → IsCount v
found-IsCount undefined h = inl refl
found-IsCount (number n) h = inr (n, refl)
found-IsCount _ h = absurd (ground (arith, h))

count_found : (v : Value) → IsCount v → is_bad_count v ≡ false
count_found v (inl e) = rw e refl
count_found v (inr (n, e)) = rw e refl

filled : (v w : Value) → IsCount v → w ≡ or_zero v → Fills v w
filled v w (inl e) h = inl (e, h ∙ ap or_zero e)
filled v w (inr (n, e)) h = inr (n, e, h ∙ ap or_zero e)

passed_refuse :
    {A : Type 0} (test : Bool) (message : String) (k : Outcome A) (a : A)
    → (refuse test message >> k) ≡ fulfilled a
    → (test ≡ false) × (k ≡ fulfilled a)
passed_refuse true message k a h = absurd (ground arith)
passed_refuse false message k a h = (refl, h)

passed_validate :
    (o : Outcome (Unit {0})) (r a : Value)
    → (o >> fulfilled r) ≡ fulfilled a
    → (o ≡ fulfilled tt) × (fulfilled r ≡ fulfilled a)
passed_validate (fulfilled tt) r a h = (refl, h)
passed_validate (rejected e) r a h = absurd (ground arith)

negated : (b : Bool) → not b ≡ false → b ≡ true
negated true h = refl
negated false h = cc

accept_sound :
    (v r : Value)
    → accept v ≡ fulfilled r
    → IsStoredItem v × (fulfilled (with_defaults v) ≡ fulfilled r)
unfolding accept
accept_sound v r h =
    let (o, h₁) = passed_refuse _ _ _ r h in
    let (i, h₂) = passed_refuse _ _ _ r h₁ in
    let (c, h₃) = passed_refuse _ _ _ r h₂ in
    let (a, h₄) = passed_refuse _ _ _ r h₃ in
    let (n, h₅) = passed_refuse _ _ _ r h₄ in
    let (valid, same) = passed_validate _ _ r h₅ in
    (
      record {
        id = found_id _ i;
        created_at = found_number _ (negated _ c);
        attempts = found-IsCount _ a;
        next_retry_at = found-IsCount _ n;
        input = (validate_sync_item-IsValidInput v).0 valid;
      },
      same,
    )

pub accept_complete : (v : Value) → IsStoredItem v → accept v ≡ fulfilled (with_defaults v)
unfolding accept
accept_complete v s =
    rw
      (
        s.input.is_object,
        id_found _ s.id,
        number_found _ s.created_at,
        count_found _ s.attempts,
        count_found _ s.next_retry_at,
        (validate_sync_item-IsValidInput v).1 s.input,
      )
      refl

Outcome-cases :
    (o : Outcome Value) → ((r : Value) × (o ≡ fulfilled r)) ⊎ ((e : Thrown) × (o ≡ rejected e))
Outcome-cases (fulfilled r) = inl (r, refl)
Outcome-cases (rejected e) = inr (e, refl)

accept-cases :
    (v : Value)
    → (IsStoredItem v × (accept v ≡ fulfilled (with_defaults v)))
      ⊎ (¬ (IsStoredItem v) × ((e : Thrown) × (accept v ≡ rejected e)))
accept-cases v = elim (Outcome-cases (accept v)) [
  | inl (r, done) ↦ let s = (accept_sound v r done).0 in inl (s, accept_complete v s)
  | inr (e, failed) ↦ inr (λ s. clash (accept v) e (accept_complete v s) failed, (e, failed))
]
  where
    clash : {r : Value} (o : Outcome Value) (e : Thrown) → o ≡ fulfilled r → o ≡ rejected e → ⊥
    clash (fulfilled r) e h h' = ground arith
    clash (rejected e') e h h' = ground arith

lookup-set_property :
    (k : String) (v : Value) (ps : List (String × Value)) → lookup k (set_property k v ps) ≡ v
unfolding lookup set_property
lookup-set_property k v [] = rw ((eq_iff k k).1 refl) refl
lookup-set_property k v ((j, u) ∷ ps) = elim (Bool-cases (str_eq j k)) [
  | inl same ↦ rw (same, same) refl
  | inr other ↦ rw (other, other) (lookup-set_property k v ps)
]

lookup-set_property_other :
    (k l : String) (v : Value) (ps : List (String × Value))
    → str_eq k l ≡ false
    → lookup l (set_property k v ps) ≡ lookup l ps
unfolding lookup set_property
lookup-set_property_other k l v [] h = rw h refl
lookup-set_property_other k l v ((j, u) ∷ ps) h = elim (Bool-cases (str_eq j k)) [
  | inl same ↦ let e = (eq_iff j k).0 same in rw (same, e, h) refl
  | inr other ↦ elim (Bool-cases (str_eq j l)) [
    | inl here ↦ rw (other, here) refl
    | inr there ↦ rw (other, there) (lookup-set_property_other k l v ps h)
  ]
]

properties-fields_of : (ps : List (String × Value)) → properties (object (fields_of ps)) ≡ ps
properties-fields_of [] = refl
properties-fields_of ((k, v) ∷ ps) = ap (λ qs. (k, v) ∷ qs) (properties-fields_of ps)

-- What `with_defaults` returns has the value's properties, but for the two counters.
pub with_defaults-property :
    (v : Value) (k : String)
    → str_eq "attempts" k ≡ false
    → str_eq "nextRetryAt" k ≡ false
    → (property (with_defaults v) "attempts" ≡ or_zero (property v "attempts"))
      × (property (with_defaults v) "nextRetryAt" ≡ or_zero (property v "nextRetryAt"))
      × (property (with_defaults v) k ≡ property v k)
unfolding with_defaults property
with_defaults-property v k a n =
    let next = or_zero (property v "nextRetryAt") in
    let tries = or_zero (property v "attempts") in
    let set = set_property "attempts" tries (properties v) in
    let all = properties-fields_of (set_property "nextRetryAt" next set) in
    (
      rw all (
          lookup-set_property_other "nextRetryAt" "attempts" next set refl
          ∙ lookup-set_property "attempts" tries (properties v)),
      rw all (lookup-set_property "nextRetryAt" next set),
      rw all (
          lookup-set_property_other "nextRetryAt" k next set n
          ∙ lookup-set_property_other "attempts" k tries (properties v) a),
    )

with_defaults-IsCompletion : (v : Value) → IsStoredItem v → IsCompletion v (with_defaults v)
with_defaults-IsCompletion v s =
    let (tries, next, _) = with_defaults-property v "id" refl refl in
    record {
      attempts = filled _ _ s.attempts tries;
      next_retry_at = filled _ _ s.next_retry_at next;
      others = λ k. elim (Bool-cases (str_eq "attempts" k)) [
        | inl same ↦ inl (inl (sym ((eq_iff "attempts" k).0 same)))
        | inr other ↦ elim (Bool-cases (str_eq "nextRetryAt" k)) [
          | inl same ↦ inl (inr (sym ((eq_iff "nextRetryAt" k).0 same)))
          | inr another ↦ let (_, _, kept) = with_defaults-property v k other another in inr kept
        ]
      ];
    }

-- For a text that `JSON.parse` reads as a value: when the value has an id that is a text and not
-- empty, a createdAt that is a number, attempts and nextRetryAt that are absent or numbers, and
-- keeps the contract of an input, `deserializeSyncItem` returns an object with its properties,
-- where attempts and nextRetryAt are 0 if they were absent; for any other value it throws.
pub deserialize_sync_item-IsStoredItem :
    (parse : String → Outcome Value) (json : String) (v : Value)
    → parse json ≡ fulfilled v
    → (IsStoredItem v
        × ((r : Value) × (deserialize_sync_item parse json ≡ fulfilled r) × IsCompletion v r))
      ⊎ (¬ (IsStoredItem v) × ((e : Thrown) × (deserialize_sync_item parse json ≡ rejected e)))
unfolding deserialize_sync_item
deserialize_sync_item-IsStoredItem parse json v h =
    rw (deserialize_sync_item, h)
      (elim (accept-cases v) [
        | inl (s, done) ↦ inl (s, (with_defaults v, done, with_defaults-IsCompletion v s))
        | inr failed ↦ inr failed
      ])
