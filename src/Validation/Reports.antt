-- ===== src/Validation/Reports.antt =====
-- What a refusal says: which input values an issue repeats, and which code and list are thrown.
use Prim.Native.String.{String}
use react_native_sync_provid.Common.{◌≡◌, ◌⊎◌, List, [], ◌∷◌, All}
use react_native_sync_provid.Types.Value.{Value, undefined, properties, property}
use react_native_sync_provid.Types.Errors.{ValidationIssue}
use text.Mathlib.Text.{◌==◌ as str_eq}
use react_native_sync_provid.Common.Text.{◌⧺◌}
use react_native_sync_provid.Validation.Issues.{CollectedIssue, to_public_issue}

abbrev pub IsOneOf : String × String → List (String × String) → Type 0
IsOneOf x [] = ⊥
IsOneOf x (y ∷ ys) = (x ≡ y) ⊎ IsOneOf x ys

-- The fields and reasons of the issues that say the same whatever the input holds.
abbrev pub fixed_reports : List (String × String)
fixed_reports =
    ("input", "SyncItemInput must be a non-null object.")
    ∷ ("method", "SyncItemInput.method must be one of GET, POST, PUT, PATCH, DELETE.")
    ∷ ("url", "SyncItemInput.url must be a non-empty string.")
    ∷ ("url", "SyncItemInput.url must be an absolute http(s) URL.")
    ∷ (
      "body",
      "SyncItemInput.body must be a string when supplied. Stringify objects on the JS side first.",
    )
    ∷ ("contentType", "SyncItemInput.contentType must be a string when supplied.")
    ∷ ("priority", "SyncItemInput.priority must be one of HIGH, NORMAL, LOW.")
    ∷ ("headers", "SyncItemInput.headers must be an object of string→string entries.")
    ∷ ("metadata", "SyncItemInput.metadata must be an object of string→string entries.")
    ∷ []

abbrev pub IsKey : String → List (String × Value) → Type 0
IsKey key [] = ⊥
IsKey key ((k, v) ∷ entries) = (key ≡ k) ⊎ IsKey key entries

-- An issue of one entry names the entry's key, in its field and in its reason.
abbrev pub NamesKey : String → List (String × Value) → ValidationIssue → Type 0
NamesKey name entries issue =
    (key : String) × IsKey key entries
    × (issue.field ≡ name ⧺ "." ⧺ key)
    × (issue.reason ≡ "SyncItemInput." ⧺ name ⧺ "[\"" ⧺ key ⧺ "\"] must be a string.")

abbrev pub Repeats : ValidationIssue → Type 0
Repeats issue =
    (issue.value ≡ undefined)
    ⊎ ((issue.field ≡ "method") ⊎ ((issue.field ≡ "contentType") ⊎ (issue.field ≡ "priority")))

-- An issue repeats a value of the input for three fields only, and its field and its reason are
-- fixed texts or name a key of the headers or of the metadata: never a url, a body, the value of a
-- header or that of an entry of the metadata.
abbrev pub IsPrivate : Value → ValidationIssue → Type 0
IsPrivate input issue =
    Repeats issue
    × (IsOneOf (issue.field, issue.reason) fixed_reports
        ⊎ (NamesKey "headers" (properties (property input "headers")) issue
            ⊎ NamesKey "metadata" (properties (property input "metadata")) issue))

abbrev Discreet : Value → List CollectedIssue → Type 0
Discreet input xs = All (λ x. IsPrivate input (to_public_issue x)) xs

module _ (input : Value) where
  abbrev Entry : String → List (String × Value) → CollectedIssue → Type 0
  Entry name entries x = (x.issue.value ≡ undefined) × NamesKey name entries x.issue
