-- ===== src/Web/Hooks.antt =====
-- src/index.web.tsx: the inert hooks and context of the web bundle. What their functions do is to
-- throw `unavailable(name)`, like the functions of Ops.
use react_native_sync_provid.Common.{true, false, [], none}
use react_native_sync_provid.Types.Enums.{ConnectionStatus, ConnectionType}
use react_native_sync_provid.Hooks.Results.{
  UseConnectionResult, UseSyncQueueResult, UseSyncStatusResult, UseOfflineQueueResult,
  UseSyncConfigResult, UseSyncSnapshotResult,
}
use react_native_sync_provid.Hooks.Config.{SyncProviderContextValue}

-- `INERT_CONNECTION`.
abbrev pub inert_connection : UseConnectionResult
inert_connection = record {
  status = ConnectionStatus.unknown;
  type = ConnectionType.none;
  is_online = false;
  is_metered = false;
}

abbrev pub use_connection : UseConnectionResult
use_connection = inert_connection

abbrev pub use_sync_queue : UseSyncQueueResult
use_sync_queue = record { size = 0; items = []; is_loading = false; error = none }

abbrev pub use_sync_status : UseSyncStatusResult
use_sync_status = record {
  is_syncing = false;
  is_paused = false;
  progress = none;
  last_result = none;
  error = none;
}

abbrev pub use_offline_queue : UseOfflineQueueResult
use_offline_queue = record {
  connection = inert_connection;
  size = 0;
  items = [];
  is_syncing = false;
  is_waiting_for_connection = false;
  error = none;
}

abbrev pub use_sync_snapshot : UseSyncSnapshotResult
use_sync_snapshot = record {
  connection = inert_connection;
  size = 0;
  items = [];
  is_syncing = false;
  is_paused = false;
  progress = none;
  last_result = none;
  is_waiting_for_connection = false;
  error = none;
}

abbrev pub use_sync_config : UseSyncConfigResult
use_sync_config = record { config = none; is_loading = false; error = none }

-- The default value of `SyncProviderContext`, and `WEB_PROVIDER_VALUE`.
abbrev pub default_context : SyncProviderContextValue
default_context = record { config = none; has_provider = false }

abbrev pub web_provider_value : SyncProviderContextValue
web_provider_value = record { config = none; has_provider = true }
