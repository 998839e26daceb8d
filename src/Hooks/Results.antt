-- ===== src/Hooks/Results.antt =====
-- src/types/hooks.ts: the results of the hooks, without the functions that pass a call on to the
-- facade; and what the hooks share.
use Prim.Native.String.{String}
use react_native_sync_provid.Common.{ℕ, Bool, true, false, List, Option, none}
use react_native_sync_provid.Types.Number.{Number}
use react_native_sync_provid.Types.Enums.{ConnectionStatus, ConnectionType, SyncEventType}
use react_native_sync_provid.Types.Sync.{SyncItem, SyncOptions, SyncResult}
use react_native_sync_provid.Types.Errors.{invalid_payload, Thrown, sync_error, new_sync_error}

pub record UseConnectionResult : Type 0 where
  pub status : ConnectionStatus
  pub type : ConnectionType
  pub is_online : Bool
  pub is_metered : Bool

pub record UseSyncQueueResult : Type 0 where
  pub size : ℕ
  pub items : List SyncItem
  pub is_loading : Bool
  pub error : Option Thrown

pub record UseSyncStatusResult : Type 0 where
  pub is_syncing : Bool
  pub is_paused : Bool
  pub progress : Option Number
  pub last_result : Option SyncResult
  pub error : Option Thrown

pub record UseOfflineQueueResult : Type 0 where
  pub connection : UseConnectionResult
  pub size : ℕ
  pub items : List SyncItem
  pub is_syncing : Bool
  pub is_waiting_for_connection : Bool
  pub error : Option Thrown

pub record UseSyncConfigResult : Type 0 where
  pub config : Option SyncOptions
  pub is_loading : Bool
  pub error : Option Thrown

-- The optional `networkQuality` and `deadLetter` are never set.
pub record UseSyncSnapshotResult : Type 0 where
  pub connection : UseConnectionResult
  pub size : ℕ
  pub items : List SyncItem
  pub is_syncing : Bool
  pub is_paused : Bool
  pub progress : Option Number
  pub last_result : Option SyncResult
  pub is_waiting_for_connection : Bool
  pub error : Option Thrown

-- `===` on the values of the enums.
abbrev pub is_connected : ConnectionStatus → Bool
is_connected ConnectionStatus.connected = true
is_connected _ = false

abbrev pub is_metered_status : ConnectionStatus → Bool
is_metered_status ConnectionStatus.metered = true
is_metered_status _ = false

abbrev pub is_disconnected : ConnectionStatus → Bool
is_disconnected ConnectionStatus.disconnected = true
is_disconnected _ = false

abbrev pub is_connection_changed : SyncEventType → Bool
is_connection_changed SyncEventType.connection_changed = true
is_connection_changed _ = false

abbrev pub is_resumed : SyncEventType → Bool
is_resumed SyncEventType.resumed = true
is_resumed _ = false

-- `err instanceof SyncError ? err : new SyncError(INVALID_PAYLOAD, message, err)`.
abbrev pub as_sync_error : String → Thrown → Thrown
as_sync_error message (sync_error code text cause issues) = sync_error code text cause issues
as_sync_error message err = new_sync_error invalid_payload message err none
