-- ===== src/Native/Probe.antt =====
-- src/utils/isNativeModuleAvailable.ts, assertNativeModuleAvailable.ts and errors.ts: the memoized
-- probe, its throwing variant, and the wrapping of native errors.
use Prim.Native.String.{String}
use text.Mathlib.Text.{◌==◌ as str_eq}
use react_native_sync_provid.Common.{Bool, true, false, not, Option, none, some, if◌then◌else◌}
use react_native_sync_provid.Common.Text.{◌⧺◌}
use react_native_sync_provid.Types.Value.{string}
use react_native_sync_provid.Types.Errors.{
  SyncErrorCode, native_module_unavailable, code_value, Thrown, sync_error, error, new_sync_error,
  no_cause, Outcome, fulfilled, rejected,
}
use react_native_sync_provid.Native.Provider.{SyncProvider}

-- The module's variables. `null` and `undefined` are both `none`.
pub record Probe (S : Type 0) : Type 0 where
  pub cached_hybrid : Option (SyncProvider S)
  pub resolved : Bool
  pub available : Bool

abbrev pub initial_probe : {S : Type 0} → Probe S
initial_probe = record { cached_hybrid = none; resolved = false; available = false }

pub record World (S : Type 0) : Type 0 where
  pub probe : Probe S
  pub native : S

-- `NitroModules.createHybridObject('SyncProvider')`, a parameter: it may throw, give nothing, or
-- answer differently at another time.
abbrev pub CreateHybridObject : Type 0 → Type 0
CreateHybridObject S = S → Outcome (Option (SyncProvider S)) × S

abbrev pub is_some : {S : Type 0} → Option (SyncProvider S) → Bool
is_some none = false
is_some (some p) = true

abbrev pub call_create :
    {S : Type 0} → Outcome (Option (SyncProvider S)) × S → Option (SyncProvider S) × World S
call_create (fulfilled hybrid, s) = (
  hybrid,
  record {
    probe = record { cached_hybrid = hybrid; resolved = true; available = is_some hybrid };
    native = s;
  },
)
call_create (rejected e, s) = (
  none,
  record {
    probe = record { cached_hybrid = none; resolved = true; available = false };
    native = s;
  },
)

module _ {S : Type 0} (create : CreateHybridObject S) where
  unfoldable pub get_native_sync_provider : World S → Option (SyncProvider S) × World S
  get_native_sync_provider w =
      let called = call_create (create w.native) in
      if w.probe.resolved then (w.probe.cached_hybrid, w) else called

  unfoldable pub is_native_module_available : World S → Bool × World S
  unfolding get_native_sync_provider
  is_native_module_available w =
      let (hybrid, w') = get_native_sync_provider w in
      if not w.probe.resolved then (w'.probe.available, w') else (w.probe.available, w)

  abbrev pub unavailable_error : Thrown
  unavailable_error =
      new_sync_error native_module_unavailable
        ("react-native-sync-provider native module is not available. "
          ⧺ "Make sure the package is installed, autolinked, and the app was "
          ⧺ "rebuilt after install. On web/SSR this is expected.")
        no_cause none

  unfoldable pub assert_native_module_available : World S → Outcome (Unit {0}) × World S
  unfolding is_native_module_available
  assert_native_module_available w =
      let (available, w') = is_native_module_available w in
      if not available then (rejected unavailable_error, w') else (fulfilled tt, w')

-- The message of an `Error` where it is a text that is not empty.
abbrev pub message_of : SyncErrorCode → Thrown → String
message_of fallback_code (error (string message)) =
    if str_eq message ""
    then "Native call failed with code " ⧺ code_value fallback_code ⧺ "."
    else message
message_of fallback_code _ = "Native call failed with code " ⧺ code_value fallback_code ⧺ "."

-- `wrapNativeError(err, fallbackCode)`: what it throws.
unfoldable pub wrap_native_error : Thrown → SyncErrorCode → Thrown
wrap_native_error (sync_error code message cause issues) fallback_code =
    sync_error code message cause issues
wrap_native_error err fallback_code =
    new_sync_error fallback_code (message_of fallback_code err) err none
