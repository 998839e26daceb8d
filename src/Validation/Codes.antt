-- ===== src/Validation/Codes.antt =====
-- Which code and which list of issues `validateSyncItem` throws.
use Prim.Native.String.{String}
use react_native_sync_provid.Common.{
  ◌≡◌, ◌⊎◌, inl, inr, refl, Bool-cases, true, List, [], ◌∷◌, ◌++◌, map, Option, some, All,
  All-append, arith,
}
use react_native_sync_provid.Common.Text.{codes}
use react_native_sync_provid.Types.Enums.{HttpMethod, method_value}
use react_native_sync_provid.Types.Value.{Value, string, properties, property, is_non_null_object}
use react_native_sync_provid.Types.Errors.{
  SyncErrorCode, invalid_payload, invalid_url, ValidationIssue, Thrown, sync_error, rejected,
}
use react_native_sync_provid.Validation.Url.{IsHttpUrl}
use react_native_sync_provid.Validation.Issues.{
  CollectedIssue, to_public_issue, throw_first, method_issues, url_issues, body_issues,
  content_type_issues, priority_issues, entry_issues, map_issues, collect_issues_with_code,
  collect_sync_item_issues, validate_sync_item,
}
use react_native_sync_provid.Validation.Laws.{
  method_issues-nil, nil-method_issues, url_issues-nil, nil-url_issues,
}

abbrev Coded : SyncErrorCode → List CollectedIssue → Type 0
Coded code xs = All (λ x. x.code ≡ code) xs

method_issues-Coded : (v : Value) → Coded invalid_payload (method_issues v)
unfolding method_issues
method_issues-Coded v = ground arith

url_issues-Coded : (v : Value) → Coded invalid_url (url_issues v)
unfolding url_issues
url_issues-Coded (string u) = ground arith
url_issues-Coded _ = (refl, tt)

body_issues-Coded : (v : Value) → Coded invalid_payload (body_issues v)
unfolding body_issues
body_issues-Coded v = ground arith

content_type_issues-Coded : (v : Value) → Coded invalid_payload (content_type_issues v)
unfolding content_type_issues
content_type_issues-Coded v = ground arith

priority_issues-Coded : (v : Value) → Coded invalid_payload (priority_issues v)
unfolding priority_issues
priority_issues-Coded v = ground arith

entry_issues-Coded :
    (name : String) (entries : List (String × Value))
    → Coded invalid_payload (entry_issues name entries)
unfolding entry_issues
entry_issues-Coded name [] = tt
entry_issues-Coded name ((k, v) ∷ entries) = ground (arith, entry_issues-Coded name entries)

map_issues-Coded : (name : String) (v : Value) → Coded invalid_payload (map_issues name v)
unfolding map_issues
map_issues-Coded name v = ground (arith, entry_issues-Coded name (properties v))

-- The checks that come after the url's.
abbrev later_issues : Value → List CollectedIssue
later_issues input =
    body_issues (property input "body")
    ++ (content_type_issues (property input "contentType")
        ++ (priority_issues (property input "priority")
            ++ (map_issues "headers" (property input "headers")
                ++ map_issues "metadata" (property input "metadata"))))

later_issues-Coded : (input : Value) → Coded invalid_payload (later_issues input)
later_issues-Coded input = All-append _ (body_issues _) _ (body_issues-Coded _) (
    All-append _ (content_type_issues _) _ (content_type_issues-Coded _) (
      All-append _ (priority_issues _) _ (priority_issues-Coded _) (
        All-append _ (map_issues "headers" _) _ (map_issues-Coded "headers" _)
          (map_issues-Coded "metadata" _))))

abbrev pub HasMethod : Value → Type 0
HasMethod input = (m : HttpMethod) × (property input "method" ≡ string (method_value m))

abbrev pub HasUrl : Value → Type 0
HasUrl input = (u : String) × (property input "url" ≡ string u) × IsHttpUrl (codes u)

-- The url is what is wrong first: the checks before it pass.
abbrev pub UrlFirst : Value → Type 0
UrlFirst input = (is_non_null_object input ≡ true) × HasMethod input × ¬ (HasUrl input)

abbrev pub CodeOf : Value → SyncErrorCode → Type 0
CodeOf input code =
    ((code ≡ invalid_url) × UrlFirst input) ⊎ ((code ≡ invalid_payload) × ¬ (UrlFirst input))

-- The code of the first issue, when there is one.
abbrev FirstCode : Value → List CollectedIssue → Type 0
FirstCode input [] = Unit
FirstCode input (x ∷ xs) = CodeOf input x.code

List-cases :
    (xs : List CollectedIssue)
    → (xs ≡ []) ⊎ ((x : CollectedIssue) × (rest : List CollectedIssue) × (xs ≡ x ∷ rest))
List-cases [] = inl refl
List-cases (x ∷ xs) = inr (x, xs, refl)

FirstCode-payload :
    (input : Value) (xs : List CollectedIssue)
    → ¬ (UrlFirst input)
    → Coded invalid_payload xs
    → FirstCode input xs
FirstCode-payload input [] h c = tt
FirstCode-payload input (x ∷ xs) h c = inr (c.0, h)

nil-method_issues_of :
    (input : Value) → HasMethod input → method_issues (property input "method") ≡ []
nil-method_issues_of input (m, e) = rw e (nil-method_issues m)

collect-FirstCode : (input : Value) → FirstCode input (collect_issues_with_code input)
unfolding collect_issues_with_code
collect-FirstCode input = elim (Bool-cases (is_non_null_object input)) [
  | inr o ↦ rw o (inr (refl, λ (h, _, _). cc))
  | inl o ↦ rw o (elim (List-cases (method_issues (property input "method"))) [
    | inr (x, rest, e) ↦
        let coded = (rw e at (method_issues-Coded (property input "method"))) in
        rw e (inr (coded.0, λ (_, m, _). cc (rw (nil-method_issues_of input m) at e)))
    | inl m ↦ rw m (elim (List-cases (url_issues (property input "url"))) [
      | inr (x, rest, e) ↦
          let coded = (rw e at (url_issues-Coded (property input "url"))) in
          rw e (
            inl (
              coded.0,
              (
                o,
                method_issues-nil _ m,
                λ (u, same, http). cc (rw (same, nil-url_issues u http) at e),
              ),
            ))
      | inl u ↦ rw u (
          FirstCode-payload input (later_issues input) (λ (_, _, bad). bad (url_issues-nil _ u))
            (later_issues-Coded input))
    ])
  ])
]

thrown_by :
    (input : Value) (xs : List CollectedIssue)
    → FirstCode input xs
    → (code : SyncErrorCode) (message : String) (cause : Thrown)
      (issues : Option (List ValidationIssue))
    → throw_first xs ≡ rejected (sync_error code message cause issues)
    → CodeOf input code × (issues ≡ some (map to_public_issue xs))
thrown_by input [] first code message cause issues h = absurd (ground arith)
thrown_by input (x ∷ xs) first code message cause issues h =
    let same : x.code ≡ code = cc in (rw same at first, cc)

-- When `validateSyncItem` throws a `SyncError`, the error lists every issue that
-- `collectSyncItemIssues` finds, in its order, and its code is INVALID_URL exactly when the input
-- is an object with an allowed method and without an http(s) url, and INVALID_PAYLOAD otherwise.
pub validate_sync_item-CodeOf :
    (input : Value)
    → (code : SyncErrorCode) (message : String) (cause : Thrown)
      (issues : Option (List ValidationIssue))
    → validate_sync_item input ≡ rejected (sync_error code message cause issues)
    → CodeOf input code × (issues ≡ some (collect_sync_item_issues input))
unfolding validate_sync_item collect_sync_item_issues
validate_sync_item-CodeOf input =
    thrown_by input (collect_issues_with_code input) (collect-FirstCode input)
