-- ===== src/Validation/Laws.antt =====
-- When an input passes validation, and what a refusal says.
use Prim.Native.String.{String}
use text.Mathlib.Text.{◌==◌ as str_eq}
use text.Mathlib.TextEquality.{eq_iff}
use text.Mathlib.TextLemmas.{cons≢nil}
use mathlib.Core.List.{append-eq-nil_iff}
use react_native_sync_provid.Common.{
  ◌≡◌, ◌↔◌, ◌⊎◌, inl, inr, refl, ap, Bool-cases, true, List, [], ◌∷◌, map, All, arith,
}
use react_native_sync_provid.Common.Text.{codes}
use react_native_sync_provid.Types.Enums.{
  HttpMethod, SyncPriority, method_value, priority_value, http_methods, sync_priorities, get, high,
  normal, low,
}
use react_native_sync_provid.Types.Value.{
  Value, undefined, string, object, array, properties, property, is_non_null_object,
}
use react_native_sync_provid.Types.Errors.{fulfilled}
use react_native_sync_provid.Validation.Url.{is_http_url, IsHttpUrl, is_http_url-IsHttpUrl}
use react_native_sync_provid.Validation.Issues.{
  CollectedIssue, throw_first, method_issues, url_issues, body_issues, content_type_issues,
  priority_issues, entry_issues, map_issues, collect_issues_with_code, validate_sync_item, member,
  allowed_methods, allowed_priorities,
}

abbrev pub IsText : Value → Type 0
IsText v = (s : String) × (v ≡ string s)

abbrev pub IsOptionalText : Value → Type 0
IsOptionalText v = (v ≡ undefined) ⊎ IsText v

abbrev pub IsTextMap : Value → Type 0
IsTextMap v = (is_non_null_object v ≡ true) × All (λ entry. IsText entry.1) (properties v)

-- The contract of `SyncItemInput`, as far as it is checked.
pub record IsValidInput (input : Value) : Type 0 where
  pub is_object : is_non_null_object input ≡ true
  pub method : (m : HttpMethod) × (property input "method" ≡ string (method_value m))
  pub url : (u : String) × (property input "url" ≡ string u) × IsHttpUrl (codes u)
  pub body : IsOptionalText (property input "body")
  pub content_type : IsOptionalText (property input "contentType")
  pub priority :
      (property input "priority" ≡ undefined)
      ⊎ ((p : SyncPriority) × (property input "priority" ≡ string (priority_value p)))
  pub headers : (property input "headers" ≡ undefined) ⊎ IsTextMap (property input "headers")
  pub metadata : (property input "metadata" ≡ undefined) ⊎ IsTextMap (property input "metadata")

member-map :
    {A : Type 0} (f : A → String) (s : String) (xs : List A)
    → member s (map f xs) ≡ true
    → (x : A) × (s ≡ f x)
unfolding member
member-map f s [] h = cc
member-map f s (x ∷ xs) h = elim (Bool-cases (str_eq s (f x))) [
  | inl same ↦ (x, (eq_iff s (f x)).0 same)
  | inr other ↦ member-map f s xs (rw other at h)
]

IsMethod : Value → Type 0
IsMethod v = (m : HttpMethod) × (v ≡ string (method_value m))

pub method_issues-nil :
    (v : Value) → method_issues v ≡ [] → (m : HttpMethod) × (v ≡ string (method_value m))
unfolding method_issues
method_issues-nil (string s) h = elim (Bool-cases (member s allowed_methods)) [
  | inl found ↦ let (m, e) = member-map method_value s http_methods found in (m, ap string e)
  | inr missing ↦ absurd (ground arith)
]
method_issues-nil _ h = ground arith

pub nil-method_issues : (m : HttpMethod) → method_issues (string (method_value m)) ≡ []
unfolding method_issues
nil-method_issues get = refl
nil-method_issues _ = refl

priority_issues-nil :
    (v : Value)
    → priority_issues v ≡ []
    → (v ≡ undefined) ⊎ ((p : SyncPriority) × (v ≡ string (priority_value p)))
unfolding priority_issues
priority_issues-nil undefined h = inl refl
priority_issues-nil (string s) h = elim (Bool-cases (member s allowed_priorities)) [
  | inl found ↦
      let (p, e) = member-map priority_value s sync_priorities found in inr (p, ap string e)
  | inr missing ↦ absurd (ground arith)
]
priority_issues-nil _ h = absurd (ground arith)

nil-priority_issues :
    (v : Value)
    → (v ≡ undefined) ⊎ ((p : SyncPriority) × (v ≡ string (priority_value p)))
    → priority_issues v ≡ []
nil-priority_issues v (inl e) = rw e (unfold priority_issues in refl)
nil-priority_issues v (inr (p, e)) = rw e (valued p)
  where
    valued : (p : SyncPriority) → priority_issues (string (priority_value p)) ≡ []
    valued high = unfold priority_issues in refl
    valued normal = unfold priority_issues in refl
    valued low = unfold priority_issues in refl

pub url_issues-nil :
    (v : Value) → url_issues v ≡ [] → (u : String) × (v ≡ string u) × IsHttpUrl (codes u)
unfolding url_issues
url_issues-nil (string u) h = (u, refl, (is_http_url-IsHttpUrl (codes u)).0 (ground arith))
url_issues-nil _ h = ground arith

pub nil-url_issues : (u : String) → IsHttpUrl (codes u) → url_issues (string u) ≡ []
unfolding url_issues is_http_url
nil-url_issues String.[] h = cc ((is_http_url-IsHttpUrl []).1 h)
nil-url_issues (String.◌∷◌ c s) h =
    let u = String.◌∷◌ c s in
    elim (Bool-cases (str_eq u "")) [
      | inl none_given ↦ absurd (cons≢nil ((eq_iff u "").0 none_given))
      | inr given ↦ rw (given, (is_http_url-IsHttpUrl (codes u)).1 h)
    ]

body_issues-nil : (v : Value) → (body_issues v ≡ []) ↔ IsOptionalText v
unfolding body_issues
body_issues-nil undefined = (λ _. inl refl, λ _. refl)
body_issues-nil (string s) = (λ _. inr (s, refl), λ _. refl)
body_issues-nil _ = (λ h. absurd (ground arith), λ h. absurd (ground arith))

content_type_issues-nil : (v : Value) → (content_type_issues v ≡ []) ↔ IsOptionalText v
unfolding content_type_issues
content_type_issues-nil undefined = (λ _. inl refl, λ _. refl)
content_type_issues-nil (string s) = (λ _. inr (s, refl), λ _. refl)
content_type_issues-nil _ = (λ h. absurd (ground arith), λ h. absurd (ground arith))

entry_issues-nil :
    (name : String) (entries : List (String × Value))
    → (entry_issues name entries ≡ []) ↔ All (λ entry. IsText entry.1) entries
unfolding entry_issues
entry_issues-nil name [] = (λ _. tt, λ _. refl)
entry_issues-nil name ((k, string s) ∷ entries) = (
  λ h. ((s, refl), (entry_issues-nil name entries).0 h),
  λ (_, hs). (entry_issues-nil name entries).1 hs,
)
entry_issues-nil name ((k, _) ∷ entries) = (λ h. absurd (ground arith), λ h. absurd (ground arith))

entries_nil :
    (name : String) (v : Value)
    → is_non_null_object v ≡ true
    → (entry_issues name (properties v) ≡ []) ↔ ((v ≡ undefined) ⊎ IsTextMap v)
entries_nil name v o =
    let (to, from) = entry_issues-nil name (properties v) in
    (λ h. inr (o, to h), λ e. elim e [ inl u ↦ cc (rw u at o) | inr (_, h) ↦ from h ])

map_issues-nil :
    (name : String) (v : Value) → (map_issues name v ≡ []) ↔ ((v ≡ undefined) ⊎ IsTextMap v)
unfolding map_issues
map_issues-nil name undefined = (λ _. inl refl, λ _. refl)
map_issues-nil name (object fs) = entries_nil name (object fs) refl
map_issues-nil name (array xs) = entries_nil name (array xs) refl
map_issues-nil name _ = (λ h. absurd (ground arith), λ h. absurd (ground arith))

pub collect-IsValidInput :
    (input : Value) → collect_issues_with_code input ≡ [] → IsValidInput input
unfolding collect_issues_with_code
collect-IsValidInput input h = elim (Bool-cases (is_non_null_object input)) [
  | inl o ↦
      let (m, h₁) = append-eq-nil_iff.0 (rw o at h) in
      let (u, h₂) = append-eq-nil_iff.0 h₁ in
      let (b, h₃) = append-eq-nil_iff.0 h₂ in
      let (c, h₄) = append-eq-nil_iff.0 h₃ in
      let (p, h₅) = append-eq-nil_iff.0 h₄ in
      let (hs, ms) = append-eq-nil_iff.0 h₅ in
      record {
        is_object = o;
        method = method_issues-nil _ m;
        url = url_issues-nil _ u;
        body = (body_issues-nil _).0 b;
        content_type = (content_type_issues-nil _).0 c;
        priority = priority_issues-nil _ p;
        headers = (map_issues-nil "headers" _).0 hs;
        metadata = (map_issues-nil "metadata" _).0 ms;
      }
  | inr o ↦ cc (rw o at h)
]

pub IsValidInput-collect :
    (input : Value) → IsValidInput input → collect_issues_with_code input ≡ []
unfolding collect_issues_with_code
IsValidInput-collect input v = rw (
  v.is_object,
  v.method.1,
  nil-method_issues v.method.0,
  v.url.1,
  nil-url_issues v.url.0 v.url.2,
  (body_issues-nil _).1 v.body,
  (content_type_issues-nil _).1 v.content_type,
  nil-priority_issues _ v.priority,
  (map_issues-nil "headers" _).1 v.headers,
  (map_issues-nil "metadata" _).1 v.metadata,
)

throw_first-nil : (xs : List CollectedIssue) → throw_first xs ≡ fulfilled tt → xs ≡ []
throw_first-nil [] h = refl
throw_first-nil (x ∷ xs) h = absurd (ground arith)

-- `validateSyncItem` accepts exactly the inputs that keep the contract: an object whose method is
-- one of the five, whose url is an absolute http(s) URL, whose body and contentType are absent or
-- texts, whose priority is absent or one of the three, and whose headers and metadata are absent
-- or objects with texts only.
pub validate_sync_item-IsValidInput :
    (input : Value) → (validate_sync_item input ≡ fulfilled tt) ↔ IsValidInput input
unfolding validate_sync_item
validate_sync_item-IsValidInput input = (
  λ h. collect-IsValidInput input (throw_first-nil (collect_issues_with_code input) h),
  λ v. ap throw_first (IsValidInput-collect input v),
)
