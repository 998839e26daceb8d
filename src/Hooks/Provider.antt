-- ===== src/Hooks/Provider.antt =====
-- src/contexts/SyncProvider.tsx: the provider component, over all runs of its effect.
pub mod Ownership
use Prim.Native.String.{String}
use react_native_sync_provid.Common.{
  ℕ, suc, ◌==◌, Bool, true, false, not, List, [], ◌∷◌, ◌++◌, Option, none, some, if◌then◌else◌,
}
use react_native_sync_provid.Types.Sync.{SyncEvent, SyncOptions, BackgroundSyncOptions}
use react_native_sync_provid.Types.Errors.{Outcome, fulfilled, rejected}
use react_native_sync_provid.Hooks.Results.{is_resumed}
use react_native_sync_provid.Hooks.Config.{SyncProviderContextValue}
use react_native_sync_provid.Hooks.Runtime.{Program}

-- The cell and the refs, which all runs of the effect share; the number of the run; and the
-- `subscriptionId` of each run that has one.
pub record State : Type 0 where
  pub config : Option SyncOptions
  pub owns_background : Bool
  pub cancelled : Bool
  pub run : ℕ
  pub subscription_ids : List (ℕ × String)

-- The awaits of a run, with its number and its `backgroundSync`. `reading_first` is the read in the
-- `finally`, and remembers whether `configureSync` succeeded.
pub data Wait : Type 0 where
  configuring : ℕ → SyncOptions → Option BackgroundSyncOptions → Wait
  reading_first : ℕ → Bool → Option BackgroundSyncOptions → Wait
  enabling : ℕ → BackgroundSyncOptions → Wait
  subscribing : ℕ → Wait
  reading disabling : Wait
  unsubscribing : String → Wait

pub data Settled : Type 0 where
  configured : ℕ → SyncOptions → Option BackgroundSyncOptions → Outcome (Unit {0}) → Settled
  first_read : ℕ → Bool → Option BackgroundSyncOptions → Outcome SyncOptions → Settled
  enabled : ℕ → BackgroundSyncOptions → Outcome (Unit {0}) → Settled
  subscribed : ℕ → Outcome String → Settled
  read : Outcome SyncOptions → Settled
  disabled : Outcome (Unit {0}) → Settled
  unsubscribed : String → Outcome (Unit {0}) → Settled

-- An event, or a render with other `options` or another `backgroundSync`.
pub data Input : Type 0 where
  event : SyncEvent → Input
  rendered : SyncOptions → Option BackgroundSyncOptions → Input

abbrev pub succeeded : {A : Type 0} → Outcome A → Bool
succeeded (fulfilled a) = true
succeeded (rejected e) = false

-- One run of the effect, up to its first `await`.
unfoldable pub effect :
    Bool → SyncOptions → Option BackgroundSyncOptions → State → State × List Wait
effect available options background s =
    let s' : State = record s { cancelled = false; run = suc s.run } in
    if not available then (s', []) else (s', configuring s'.run options background ∷ [])

unfoldable pub mount : Bool → SyncOptions → Option BackgroundSyncOptions → State × List Wait
unfolding effect
mount available options background = effect available options background (record {
  config = none;
  owns_background = false;
  cancelled = false;
  run = 0;
  subscription_ids = [];
})

-- `refresh` after its `await`.
abbrev pub refreshed : Outcome SyncOptions → State → State
refreshed (fulfilled next) s = if not s.cancelled then record s { config = some next } else s
refreshed (rejected err) s = s

abbrev pub after_configuration : ℕ → Option BackgroundSyncOptions → List Wait
after_configuration run none = subscribing run ∷ []
after_configuration run (some background) = enabling run background ∷ []

unfoldable pub settle : Settled → State → State × List Wait
settle (configured run options background outcome) s =
    (s, reading_first run (succeeded outcome) background ∷ [])
settle (first_read run applied background outcome) s =
    (refreshed outcome s, if applied then after_configuration run background else [])
settle (enabled run background (fulfilled _)) s =
    (record s { owns_background = true }, subscribing run ∷ [])
settle (enabled run background (rejected err)) s = (s, [])
settle (subscribed run (fulfilled id)) s =
    (record s { subscription_ids = (run, id) ∷ s.subscription_ids }, [])
settle (subscribed run (rejected err)) s = (s, [])
settle (read outcome) s = (refreshed outcome s, [])
settle (disabled outcome) s = (s, [])
settle (unsubscribed id outcome) s = (s, [])

-- `subscriptionId`, in the cleanup of the run.
unfoldable pub subscription_of : ℕ → List (ℕ × String) → Option String
subscription_of run [] = none
subscription_of run ((j, id) ∷ ids) =
    let rest = subscription_of run ids in if j == run then some id else rest

abbrev pub unsubscribe : Option String → List Wait
unsubscribe none = []
unsubscribe (some id) = unsubscribing id ∷ []

abbrev pub give_back : State → List Wait
give_back s = if s.owns_background then disabling ∷ [] else []

unfoldable pub cleanup : State → State × List Wait
unfolding subscription_of
cleanup s = (
  record s { cancelled = true; owns_background = false },
  unsubscribe (subscription_of s.run s.subscription_ids) ++ give_back s,
)

-- A render with other props cleans the last run up and runs the effect again.
unfoldable pub render_again :
    Bool → SyncOptions → Option BackgroundSyncOptions → State → State × List Wait
unfolding cleanup effect
render_again available options background s =
    let (s', given_back) = cleanup s in
    let (s'', waits) = effect available options background s' in (s'', given_back ++ waits)

unfoldable pub input : Bool → Input → State → State × List Wait
unfolding render_again
input available (event e) s = if is_resumed e.type then (s, reading ∷ []) else (s, [])
input available (rendered options background) s = render_again available options background s

-- The value of the context.
abbrev pub value : State → SyncProviderContextValue
value s = record { config = s.config; has_provider = true }

abbrev pub settles : Settled → Wait
settles (configured run options background outcome) = configuring run options background
settles (first_read run applied background outcome) = reading_first run applied background
settles (enabled run background outcome) = enabling run background
settles (subscribed run outcome) = subscribing run
settles (read outcome) = reading
settles (disabled outcome) = disabling
settles (unsubscribed id outcome) = unsubscribing id

abbrev pub removal : Wait → Option String
removal (unsubscribing id) = some id
removal _ = none

abbrev pub subscription : Settled → Option String
subscription (subscribed run (fulfilled id)) = some id
subscription _ = none

abbrev pub sync_provider : Bool → Program State Wait Settled Input
sync_provider available = record {
  settles = settles;
  settle = settle;
  input = input available;
  cleanup = cleanup;
  removal = removal;
  subscription = subscription;
}
