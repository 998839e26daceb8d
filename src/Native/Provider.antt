-- ===== src/Native/Provider.antt =====
-- The native module as the library sees it: the interface of src/SyncProvider.nitro.ts, which is
-- implemented in Swift and Kotlin and is a parameter here, over the native state `S`.
use Prim.Native.String.{String}
use react_native_sync_provid.Common.{ℕ, Bool, List}
use react_native_sync_provid.Types.Value.{Value}
use react_native_sync_provid.Types.Sync.{
  SyncItem, SyncOptions, SyncResult, BackgroundSyncOptions, ConnectionState,
}
use react_native_sync_provid.Types.Errors.{Outcome}

-- A promise of the native module: how it settles, and the native state after that.
abbrev pub Promised : Type 0 → Type 0 → Type 0
Promised S A = S → Outcome A × S

-- A listener is known by a number, since what it does is the caller's.
pub record SyncProvider (S : Type 0) : Type 0 where
  pub enqueue : Value → Promised S String
  pub enqueue_batch : List Value → Promised S (List String)
  pub remove_item : String → Promised S Bool
  pub clear_queue : Promised S (Unit {0})
  pub get_queue_size : Promised S ℕ
  pub get_pending_items : Promised S (List SyncItem)
  pub flush : Promised S SyncResult
  pub pause_sync : Promised S (Unit {0})
  pub resume_sync : Promised S (Unit {0})
  pub is_syncing : Promised S Bool
  pub configure_sync : SyncOptions → Promised S (Unit {0})
  pub get_sync_config : Promised S SyncOptions
  pub get_last_sync_result : Promised S SyncResult
  pub get_sync_history : ℕ → Promised S (List SyncResult)
  pub clear_sync_history : Promised S (Unit {0})
  pub get_connection_status : Promised S ConnectionState
  pub enable_background_sync : BackgroundSyncOptions → Promised S (Unit {0})
  pub disable_background_sync : Promised S (Unit {0})
  pub is_background_sync_enabled : Promised S Bool
  pub add_listener : String → ℕ → Promised S String
  pub remove_listener : String → String → Promised S (Unit {0})
