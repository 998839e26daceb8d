-- ===== src/Validation/Tests.antt =====
-- The checks on concrete inputs.
use react_native_sync_provid.Common.{◌≡◌, ◌↔◌, refl, List, Option, some, true}
use react_native_sync_provid.Common.Text.{codes}
use react_native_sync_provid.Types.Value.{Value, string, object, field, end, null, property}
use react_native_sync_provid.Types.Errors.{
  invalid_url, ValidationIssue, sync_error, no_cause, fulfilled, rejected,
}
use react_native_sync_provid.Validation.Url.{is_http_url, IsHttpUrl, is_http_url-IsHttpUrl}
use react_native_sync_provid.Validation.Issues.{
  collect_sync_item_issues, validate_sync_item, collect_issues_with_code, method_issues, url_issues,
  body_issues, content_type_issues, priority_issues, map_issues, has, member,
}
use react_native_sync_provid.Validation.Laws.{IsValidInput, validate_sync_item-IsValidInput}
use react_native_sync_provid.Validation.Codes.{CodeOf, validate_sync_item-CodeOf}

abbrev posted : Value
posted = object (field "method" (string "POST") (field "url" (string "https://a.b/c") end))

abbrev without_url : Value
without_url = object (field "method" (string "GET") (field "body" null end))

is_http_url-IsHttpUrl_example :
    (is_http_url (codes "HTTPS://a.b") ≡ true) ↔ IsHttpUrl (codes "HTTPS://a.b")
is_http_url-IsHttpUrl_example = is_http_url-IsHttpUrl (codes "HTTPS://a.b")

validate_sync_item-IsValidInput_example :
    (validate_sync_item posted ≡ fulfilled tt) ↔ IsValidInput posted
validate_sync_item-IsValidInput_example = validate_sync_item-IsValidInput posted

abbrev without_url_issues : Option (List ValidationIssue)
without_url_issues = some (collect_sync_item_issues without_url)

refusal_test :
    validate_sync_item without_url
    ≡ rejected (
        sync_error invalid_url "SyncItemInput.url must be a non-empty string." no_cause
          without_url_issues)
unfolding validate_sync_item collect_sync_item_issues collect_issues_with_code method_issues
    url_issues body_issues content_type_issues priority_issues map_issues has member property
refusal_test = refl

validate_sync_item-CodeOf_example :
    CodeOf without_url invalid_url
    × (without_url_issues ≡ some (collect_sync_item_issues without_url))
validate_sync_item-CodeOf_example =
    validate_sync_item-CodeOf without_url invalid_url
      "SyncItemInput.url must be a non-empty string." no_cause without_url_issues refusal_test
