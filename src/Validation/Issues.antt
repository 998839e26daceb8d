-- ===== src/Validation/Issues.antt =====
-- src/utils/validateSyncItem.ts: `collectIssuesWithCode`, `collectSyncItemIssues` and
-- `validateSyncItem`, over the dynamic value that the caller passes.
use Prim.Native.String.{String}
use text.Mathlib.Text.{◌==◌ as str_eq}
use react_native_sync_provid.Common.{
  Bool, false, not, ◌&&◌, ◌||◌, List, [], ◌∷◌, ◌++◌, map, Option, none, some, if◌then◌else◌,
}
use react_native_sync_provid.Common.Text.{◌⧺◌, codes, join}
use react_native_sync_provid.Types.Enums.{
  method_value, http_methods, priority_value, sync_priorities,
}
use react_native_sync_provid.Types.Value.{
  Value, undefined, string, properties, property, is_defined, is_string, is_non_null_object,
}
use react_native_sync_provid.Types.Errors.{
  SyncErrorCode, invalid_payload, invalid_url, ValidationIssue, new_sync_error, no_cause, Outcome,
  fulfilled, rejected,
}
use react_native_sync_provid.Validation.Url.{is_http_url}

-- ALLOWED_METHODS and ALLOWED_PRIORITIES.
abbrev pub allowed_methods : List String
allowed_methods = map method_value http_methods

abbrev pub allowed_priorities : List String
allowed_priorities = map priority_value sync_priorities

unfoldable pub member : String → List String → Bool
member s [] = false
member s (t ∷ ts) = str_eq s t || member s ts

-- `set.has(value)`: a value that is no string is in no set of strings.
unfoldable pub has : List String → Value → Bool
unfolding member
has set (string s) = member s set
has set _ = false

pub record CollectedIssue : Type 0 where
  pub issue : ValidationIssue
  pub code : SyncErrorCode
  pub message : Option String

-- `toPublicIssue`: an absent value and `undefined` are one.
abbrev pub to_public_issue : CollectedIssue → ValidationIssue
to_public_issue collected = collected.issue

abbrev pub collected_issue : SyncErrorCode → String → String → Value → CollectedIssue
collected_issue code field reason value = record {
  issue = record { field = field; reason = reason; value = value; item_index = none };
  code = code;
  message = none;
}

abbrev pub input_issue : CollectedIssue
input_issue =
    collected_issue invalid_payload "input" "SyncItemInput must be a non-null object." undefined

unfoldable pub method_issues : Value → List CollectedIssue
unfolding has
method_issues method =
    if not (is_string method) || not (has allowed_methods method)
    then collected_issue invalid_payload "method"
        ("SyncItemInput.method must be one of " ⧺ join ", " allowed_methods ⧺ ".") method
      ∷ []
    else []

abbrev pub empty_url_issue : CollectedIssue
empty_url_issue =
    collected_issue invalid_url "url" "SyncItemInput.url must be a non-empty string." undefined

abbrev pub absolute_url_issue : String → CollectedIssue
absolute_url_issue url =
    record (collected_issue invalid_url "url" "SyncItemInput.url must be an absolute http(s) URL."
      undefined) {
        message =
            some ("SyncItemInput.url must be an absolute http(s) URL (got: \"" ⧺ url ⧺ "\").");
      }

unfoldable pub url_issues : Value → List CollectedIssue
url_issues (string url) =
    if str_eq url ""
    then empty_url_issue ∷ []
    else if not (is_http_url (codes url))
    then absolute_url_issue url ∷ []
    else []
url_issues _ = empty_url_issue ∷ []

unfoldable pub body_issues : Value → List CollectedIssue
body_issues body =
    if is_defined body && not (is_string body)
    then collected_issue invalid_payload "body"
        "SyncItemInput.body must be a string when supplied. Stringify objects on the JS side first."
        undefined
      ∷ []
    else []

unfoldable pub content_type_issues : Value → List CollectedIssue
content_type_issues content_type =
    if is_defined content_type && not (is_string content_type)
    then collected_issue invalid_payload "contentType"
        "SyncItemInput.contentType must be a string when supplied." content_type
      ∷ []
    else []

unfoldable pub priority_issues : Value → List CollectedIssue
unfolding has
priority_issues priority =
    if is_defined priority && not (has allowed_priorities priority)
    then collected_issue invalid_payload "priority"
        ("SyncItemInput.priority must be one of " ⧺ join ", " allowed_priorities ⧺ ".") priority
      ∷ []
    else []

-- The loop over `Object.keys(input.headers)`, and the same over `input.metadata`.
unfoldable pub entry_issues : String → List (String × Value) → List CollectedIssue
entry_issues name [] = []
entry_issues name ((key, value) ∷ entries) =
    let rest = entry_issues name entries in
    if not (is_string value)
    then collected_issue invalid_payload (name ⧺ "." ⧺ key)
        ("SyncItemInput." ⧺ name ⧺ "[\"" ⧺ key ⧺ "\"] must be a string.") undefined
      ∷ rest
    else rest

-- The checks of `headers` and of `metadata`, which differ in the name alone.
unfoldable pub map_issues : String → Value → List CollectedIssue
unfolding entry_issues
map_issues name entries =
    if not (is_defined entries)
    then []
    else if not (is_non_null_object entries)
    then collected_issue invalid_payload name
        ("SyncItemInput." ⧺ name ⧺ " must be an object of string→string entries.") undefined
      ∷ []
    else entry_issues name (properties entries)

unfoldable pub collect_issues_with_code : Value → List CollectedIssue
collect_issues_with_code input =
    if not (is_non_null_object input)
    then input_issue ∷ []
    else method_issues (property input "method")
      ++ (url_issues (property input "url")
          ++ (body_issues (property input "body")
              ++ (content_type_issues (property input "contentType")
                  ++ (priority_issues (property input "priority")
                      ++ (map_issues "headers" (property input "headers")
                          ++ map_issues "metadata" (property input "metadata"))))))

unfoldable pub collect_sync_item_issues : Value → List ValidationIssue
collect_sync_item_issues input = map to_public_issue (collect_issues_with_code input)

abbrev pub thrown_message : CollectedIssue → String
thrown_message first = elim first.message [ none ↦ first.issue.reason | some message ↦ message ]

abbrev pub throw_first : List CollectedIssue → Outcome (Unit {0})
throw_first [] = fulfilled tt
throw_first (first ∷ rest) = rejected (
    new_sync_error first.code (thrown_message first) no_cause
      (some (map to_public_issue (first ∷ rest))))

unfoldable pub validate_sync_item : Value → Outcome (Unit {0})
validate_sync_item input = throw_first (collect_issues_with_code input)
