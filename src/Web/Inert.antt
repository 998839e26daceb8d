-- ===== src/Web/Inert.antt =====
-- The hooks of the web bundle beside those of the native bundle without a native module.
use react_native_sync_provid.Common.{◌≡◌, refl, Bool, false, List, [], Option, arith}
use react_native_sync_provid.Types.Enums.{ConnectionType, SyncEventType}
use react_native_sync_provid.Types.Sync.{SyncOptions, BackgroundSyncOptions}
use react_native_sync_provid.Hooks.Results.{UseConnectionResult}
use react_native_sync_provid.Hooks.Connection
use react_native_sync_provid.Hooks.Status
use react_native_sync_provid.Hooks.Queue
use react_native_sync_provid.Hooks.OfflineQueue
use react_native_sync_provid.Hooks.Snapshot
use react_native_sync_provid.Hooks.Events
use react_native_sync_provid.Hooks.Config
use react_native_sync_provid.Hooks.AutoSync
use react_native_sync_provid.Hooks.Provider
use react_native_sync_provid.Web.Hooks as Web

-- The one difference: the type of the connection is UNKNOWN on a device.
abbrev pub with_unknown_type : UseConnectionResult → UseConnectionResult
with_unknown_type c = record c { type = ConnectionType.unknown }

-- Without a native module, each hook mounts to what its counterpart on the web shows, but for the
-- type of the connection, which is UNKNOWN in place of NONE, and so does the provider; none of them
-- makes a native call, and the `refresh` of useSyncQueue and useSyncConfig changes nothing.
pub web-mount :
    (enabled : Bool) (types : Option (List SyncEventType)) (settings : AutoSync.Settings)
    (options : SyncOptions) (background : Option BackgroundSyncOptions)
    → (((Connection.mount false).0.result ≡ with_unknown_type Web.use_connection)
        × (Queue.result (Queue.mount false).0 ≡ Web.use_sync_queue)
        × (Status.result (Status.mount false).0 ≡ Web.use_sync_status)
        × (OfflineQueue.result (OfflineQueue.mount false).0
            ≡ record Web.use_offline_queue { connection = with_unknown_type Web.inert_connection })
        × (Snapshot.result (Snapshot.mount false).0
            ≡ record Web.use_sync_snapshot { connection = with_unknown_type Web.inert_connection })
        × (Config.result (Config.mount false Web.default_context).0 ≡ Web.use_sync_config)
        × (Config.result (Config.mount false Web.web_provider_value).0 ≡ Web.use_sync_config)
        × (Provider.value (Provider.mount false options background).0 ≡ Web.web_provider_value))
      × (((Connection.mount false).1 ≡ [])
          × ((Queue.mount false).1 ≡ [])
          × ((Status.mount false).1 ≡ [])
          × ((OfflineQueue.mount false).1 ≡ [])
          × ((Snapshot.mount false).1 ≡ [])
          × ((Events.mount enabled false types).1 ≡ [])
          × ((Config.mount false Web.default_context).1 ≡ [])
          × ((AutoSync.mount false settings).1 ≡ [])
          × ((Provider.mount false options background).1 ≡ []))
      × ((s : Queue.State) → Queue.input false Queue.refresh_called s ≡ (s, []))
      × ((s : Config.State) → Config.input false Config.refresh_called s ≡ (s, []))
unfolding Connection.mount Queue.mount Status.mount OfflineQueue.mount Snapshot.mount Events.mount
    Config.mount Config.effect Config.has_provider AutoSync.mount Provider.mount Provider.effect
    Queue.input Queue.refresh Config.input Config.refresh
web-mount enabled types settings options background = (
  (refl, refl, refl, refl, refl, refl, refl, refl),
  (refl, refl, refl, refl, refl, ground arith, refl, ground arith, refl),
  λ s. refl,
  λ s. refl,
)
