-- ===== src/Web/Parity.antt =====
-- The web bundle answers as the native one does without its native module.
use Prim.Native.String.{String}
use react_native_sync_provid.Common.{ℕ, ◌≡◌, refl, Option, none}
use react_native_sync_provid.Types.Sync.{SyncOptions, BackgroundSyncOptions}
use react_native_sync_provid.Types.Errors.{
  SyncErrorCode, invalid_payload, native_module_unavailable, sync_error, Outcome, rejected,
}
use react_native_sync_provid.Native.Provider.{SyncProvider, Promised}
use react_native_sync_provid.Native.Probe.{
  World, CreateHybridObject, get_native_sync_provider, is_native_module_available,
}
use react_native_sync_provid.Native.Laws.{
  IsConsistent, is_native_module_available-get_native_sync_provider,
}
use react_native_sync_provid.Facade.Ops
use react_native_sync_provid.Facade.Ops.{native_call}
use react_native_sync_provid.Facade.Laws.{answer, native_call-answer}
use react_native_sync_provid.Web.Ops as Web

-- The call is refused because the native module is not there.
abbrev pub IsUnavailable : {A : Type 0} → Outcome A → Type 0
IsUnavailable (rejected (sync_error native_module_unavailable message cause issues)) = Unit
IsUnavailable _ = ⊥

abbrev pub BothUnavailable : {A : Type 0} → Outcome A → Outcome A → Type 0
BothUnavailable web native = IsUnavailable web × IsUnavailable native

module _ {S : Type 0} (create : CreateHybridObject S) where
  native_call-IsUnavailable :
      {A : Type 0} (code : SyncErrorCode) (operation : SyncProvider S → Promised S A) (w : World S)
      → IsConsistent w
      → (get_native_sync_provider create w).0 ≡ none
      → IsUnavailable (native_call create code operation w).0
  native_call-IsUnavailable code operation w c missing =
      rw (native_call-answer create code operation w c, answer, missing) tt

  get_last_sync_result-IsUnavailable :
      (w : World S)
      → IsConsistent w
      → (get_native_sync_provider create w).0 ≡ none
      → IsUnavailable (Ops.get_last_sync_result create w).0
  unfolding Ops.get_last_sync_result
  get_last_sync_result-IsUnavailable w c missing =
      rw
        (
          Ops.get_last_sync_result,
          native_call-answer create invalid_payload (λ native. native.get_last_sync_result) w c,
          answer,
          missing,
        )
        tt

  abbrev pub AllUnavailable :
      World S → String → SyncOptions → Option ℕ → BackgroundSyncOptions → Type 0
  AllUnavailable w id options limit background =
      (BothUnavailable (Web.remove_item id) (Ops.remove_item create id w).0
        × BothUnavailable Web.clear_queue (Ops.clear_queue create w).0
        × BothUnavailable Web.get_queue_size (Ops.get_queue_size create w).0
        × BothUnavailable Web.get_pending_items (Ops.get_pending_items create w).0)
      × (BothUnavailable Web.flush (Ops.flush create w).0
          × BothUnavailable Web.pause_sync (Ops.pause_sync create w).0
          × BothUnavailable Web.resume_sync (Ops.resume_sync create w).0
          × BothUnavailable Web.is_syncing (Ops.is_syncing create w).0)
      × (BothUnavailable (Web.configure_sync options) (Ops.configure_sync create options w).0
          × BothUnavailable Web.get_sync_config (Ops.get_sync_config create w).0
          × BothUnavailable Web.get_last_sync_result (Ops.get_last_sync_result create w).0
          × BothUnavailable (Web.get_sync_history limit) (Ops.get_sync_history create limit w).0)
      × (BothUnavailable Web.clear_sync_history (Ops.clear_sync_history create w).0
          × BothUnavailable Web.get_connection_status (Ops.get_connection_status create w).0
          × BothUnavailable (Web.enable_background_sync background)
              (Ops.enable_background_sync create background w).0
          × BothUnavailable Web.disable_background_sync (Ops.disable_background_sync create w).0
          × BothUnavailable Web.is_background_sync_enabled
              (Ops.is_background_sync_enabled create w).0)

  -- In a world whose probe is consistent and finds no native module, `isNativeModuleAvailable` is
  -- false as on the web, and each function of the facade that has no other check is refused with
  -- NATIVE_MODULE_UNAVAILABLE, as its counterpart in the web bundle is.
  pub web-AllUnavailable :
      (w : World S) (id : String) (options : SyncOptions) (limit : Option ℕ)
      (background : BackgroundSyncOptions)
      → IsConsistent w
      → (get_native_sync_provider create w).0 ≡ none
      → ((is_native_module_available create w).0 ≡ Web.is_native_module_available)
        × AllUnavailable w id options limit background
  unfolding Web.is_native_module_available Ops.remove_item Ops.clear_queue Ops.get_queue_size
      Ops.get_pending_items Ops.flush Ops.pause_sync Ops.resume_sync Ops.is_syncing
      Ops.configure_sync Ops.get_sync_config Ops.get_sync_history Ops.clear_sync_history
      Ops.get_connection_status Ops.enable_background_sync Ops.disable_background_sync
      Ops.is_background_sync_enabled Web.remove_item Web.clear_queue Web.get_queue_size
      Web.get_pending_items Web.flush Web.pause_sync Web.resume_sync Web.is_syncing
      Web.configure_sync Web.get_sync_config Web.get_last_sync_result Web.get_sync_history
      Web.clear_sync_history Web.get_connection_status Web.enable_background_sync
      Web.disable_background_sync Web.is_background_sync_enabled Web.unavailable
  web-AllUnavailable w id options limit background c missing = (
    rw (is_native_module_available-get_native_sync_provider create w c, missing) refl,
    (
      (
        (tt, native_call-IsUnavailable _ _ w c missing),
        (tt, native_call-IsUnavailable _ _ w c missing),
        (tt, native_call-IsUnavailable _ _ w c missing),
        (tt, native_call-IsUnavailable _ _ w c missing),
      ),
      (
        (tt, native_call-IsUnavailable _ _ w c missing),
        (tt, native_call-IsUnavailable _ _ w c missing),
        (tt, native_call-IsUnavailable _ _ w c missing),
        (tt, native_call-IsUnavailable _ _ w c missing),
      ),
      (
        (tt, native_call-IsUnavailable _ _ w c missing),
        (tt, native_call-IsUnavailable _ _ w c missing),
        (tt, get_last_sync_result-IsUnavailable w c missing),
        (tt, native_call-IsUnavailable _ _ w c missing),
      ),
      (
        (tt, native_call-IsUnavailable _ _ w c missing),
        (tt, native_call-IsUnavailable _ _ w c missing),
        (tt, native_call-IsUnavailable _ _ w c missing),
        (tt, native_call-IsUnavailable _ _ w c missing),
        (tt, native_call-IsUnavailable _ _ w c missing),
      ),
    ),
  )
