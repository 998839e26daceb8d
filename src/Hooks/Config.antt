-- ===== src/Hooks/Config.antt =====
-- src/hooks/useSyncConfig.ts: one run of its effect, under one context value.
pub mod Listener
use Prim.Native.String.{String}
use react_native_sync_provid.Common.{
  Bool, true, false, not, ◌||◌, List, [], ◌∷◌, Option, none, some, if◌then◌else◌,
}
use react_native_sync_provid.Types.Sync.{SyncEvent, SyncOptions}
use react_native_sync_provid.Types.Errors.{Thrown, Outcome, fulfilled, rejected}
use react_native_sync_provid.Hooks.Results.{UseSyncConfigResult, as_sync_error, is_resumed}
use react_native_sync_provid.Hooks.Runtime.{Program}

-- `SyncProviderContextValue`, and the default value of the context.
pub record SyncProviderContextValue : Type 0 where
  pub config : Option SyncOptions
  pub has_provider : Bool

abbrev pub default_context : SyncProviderContextValue
default_context = record { config = none; has_provider = false }

pub record State : Type 0 where
  pub config : Option SyncOptions
  pub is_loading : Bool
  pub error : Option Thrown
  pub cancelled : Bool
  pub subscription_id : Option String

-- `configuring` is the first `await` of `setConfig`.
pub data Wait : Type 0 where
  reading_config configuring subscribing : Wait
  unsubscribing : String → Wait

pub data Settled : Type 0 where
  config_read : Outcome SyncOptions → Settled
  configured : Outcome (Unit {0}) → Settled
  subscribed : Outcome String → Settled
  unsubscribed : String → Outcome (Unit {0}) → Settled

pub data Input : Type 0 where
  event : SyncEvent → Input
  refresh_called : Input
  set_config_called : SyncOptions → Input

abbrev pub is_defined : Option SyncOptions → Bool
is_defined none = false
is_defined (some config) = true

unfoldable pub has_provider : SyncProviderContextValue → Bool
has_provider ctx = ctx.has_provider || is_defined ctx.config

-- `refresh`, up to its `await`.
unfoldable pub refresh : Bool → State → State × List Wait
refresh available s =
    if not available then (s, []) else (record s { is_loading = true }, reading_config ∷ [])

-- The effect: under a provider it mirrors the provider's config and returns.
unfoldable pub effect : Bool → SyncProviderContextValue → State → State × List Wait
unfolding has_provider
effect available ctx s =
    if has_provider ctx
    then (record s { cancelled = false; config = ctx.config }, [])
    else if not available
    then (record s { cancelled = false }, [])
    else (record s { cancelled = false; is_loading = true }, reading_config ∷ subscribing ∷ [])

-- The first render, whose cells start from the context.
unfoldable pub mount : Bool → SyncProviderContextValue → State × List Wait
unfolding effect
mount available ctx = effect available ctx (record {
  config = ctx.config;
  is_loading = false;
  error = none;
  cancelled = false;
  subscription_id = none;
})

abbrev pub loaded : State → State
loaded s = if not s.cancelled then record s { is_loading = false } else s

abbrev pub refreshed : Outcome SyncOptions → State → State
refreshed (fulfilled next) s =
    if s.cancelled then s else record s { config = some next; error = none }
refreshed (rejected err) s =
    if s.cancelled
    then s
    else record s { error = some (as_sync_error "Failed to read sync config." err) }

unfoldable pub settle : Bool → Settled → State → State × List Wait
unfolding refresh
settle available (config_read outcome) s = (loaded (refreshed outcome s), [])
settle available (configured (fulfilled _)) s = refresh available s
settle available (configured (rejected err)) s = (s, [])
settle available (subscribed (fulfilled id)) s = (record s { subscription_id = some id }, [])
settle available (subscribed (rejected err)) s = (s, [])
settle available (unsubscribed id outcome) s = (s, [])

unfoldable pub input : Bool → Input → State → State × List Wait
unfolding refresh
input available (event e) s = if is_resumed e.type then refresh available s else (s, [])
input available refresh_called s = refresh available s
input available (set_config_called next) s = (s, configuring ∷ [])

abbrev pub unsubscribe : Option String → List Wait
unsubscribe none = []
unsubscribe (some id) = unsubscribing id ∷ []

-- Under a provider, and without a native module, the effect returns no cleanup: the flag stays as
-- it is, and there is no listener to remove.
unfoldable pub cleanup : Bool → SyncProviderContextValue → State → State × List Wait
cleanup available ctx s = (
  if has_provider ctx || not available then s else record s { cancelled = true },
  unsubscribe s.subscription_id,
)

abbrev pub result : State → UseSyncConfigResult
result s = record { config = s.config; is_loading = s.is_loading; error = s.error }

abbrev pub settles : Settled → Wait
settles (config_read outcome) = reading_config
settles (configured outcome) = configuring
settles (subscribed outcome) = subscribing
settles (unsubscribed id outcome) = unsubscribing id

abbrev pub removal : Wait → Option String
removal (unsubscribing id) = some id
removal _ = none

abbrev pub subscription : Settled → Option String
subscription (subscribed (fulfilled id)) = some id
subscription _ = none

abbrev pub use_sync_config : Bool → SyncProviderContextValue → Program State Wait Settled Input
use_sync_config available ctx = record {
  settles = settles;
  settle = settle available;
  input = input available;
  cleanup = cleanup available ctx;
  removal = removal;
  subscription = subscription;
}
