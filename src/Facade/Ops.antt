-- ===== src/Facade/Ops.antt =====
-- src/index.tsx: the functions of the facade but `enqueueBatch`. A call is one step from a world to
-- a world: what the native module does until its promise settles is that promise's state change.
use Prim.Native.String.{String}
use react_native_sync_provid.Common.{ℕ, ◌==◌, ◌&&◌, Bool, List, Option, none, some, if◌then◌else◌}
use react_native_sync_provid.Types.Value.{Value, string}
use react_native_sync_provid.Types.Sync.{
  SyncItem, SyncOptions, SyncResult, BackgroundSyncOptions, ConnectionState,
}
use react_native_sync_provid.Types.Errors.{
  SyncErrorCode, invalid_payload, network_error, background_task_registration_failed, Thrown, error,
  Outcome, fulfilled, rejected,
}
use react_native_sync_provid.Validation.Issues.{validate_sync_item}
use react_native_sync_provid.Native.Provider.{Promised, SyncProvider}
use react_native_sync_provid.Native.Probe.{
  World, CreateHybridObject, get_native_sync_provider, assert_native_module_available,
  wrap_native_error,
}

-- What a function of the library does: a result or an exception, and the world after it.
abbrev pub Call : Type 0 → Type 0 → Type 0
Call S A = World S → Outcome A × World S

-- The engine's `TypeError`, for a property of `null`.
abbrev pub null_access : Thrown
null_access = error (string "null is not an object")

-- `isLastSyncSentinel`.
abbrev pub is_last_sync_sentinel : SyncResult → Bool
is_last_sync_sentinel result = result.started_at == 0 && result.finished_at == 0

module _ {S : Type 0} (create : CreateHybridObject S) where
  unfoldable pub native_or_throw : Call S (Option (SyncProvider S))
  unfolding assert_native_module_available get_native_sync_provider
  native_or_throw w =
      let (asserted, w') = assert_native_module_available create w in
      let (hybrid, w'') = get_native_sync_provider create w' in
      elim asserted [ fulfilled _ ↦ (fulfilled hybrid, w'') | rejected e ↦ (rejected e, w') ]

  -- `await native!.operation(…)` in the `try`, and the `catch` that every function has.
  abbrev pub caught : {A : Type 0} → SyncErrorCode → World S → Outcome A × S → Outcome A × World S
  caught fallback_code w (fulfilled a, s) = (fulfilled a, record w { native = s })
  caught fallback_code w (rejected err, s) =
      (rejected (wrap_native_error err fallback_code), record w { native = s })

  abbrev pub invoke :
      {A : Type 0} → Option (SyncProvider S) → (SyncProvider S → Promised S A) → Promised S A
  invoke none operation s = (rejected null_access, s)
  invoke (some native) operation s = operation native s

  -- The body that the functions of the facade share.
  unfoldable pub native_call :
      {A : Type 0} → SyncErrorCode → (SyncProvider S → Promised S A) → Call S A
  unfolding native_or_throw
  native_call fallback_code operation w =
      let (native, w') = native_or_throw w in
      elim native [
        | rejected e ↦ (rejected e, w')
        | fulfilled hybrid ↦ caught fallback_code w' (invoke hybrid operation w'.native)
      ]

  unfoldable pub enqueue : Value → Call S String
  unfolding validate_sync_item native_call
  enqueue item w =
      let call = native_call invalid_payload (λ native. native.enqueue item) w in
      elim (validate_sync_item item) [ rejected e ↦ (rejected e, w) | fulfilled _ ↦ call ]

  unfoldable pub remove_item : String → Call S Bool
  unfolding native_call
  remove_item id = native_call invalid_payload (λ native. native.remove_item id)

  unfoldable pub clear_queue : Call S (Unit {0})
  unfolding native_call
  clear_queue = native_call invalid_payload (λ native. native.clear_queue)

  unfoldable pub get_queue_size : Call S ℕ
  unfolding native_call
  get_queue_size = native_call invalid_payload (λ native. native.get_queue_size)

  unfoldable pub get_pending_items : Call S (List SyncItem)
  unfolding native_call
  get_pending_items = native_call invalid_payload (λ native. native.get_pending_items)

  unfoldable pub flush : Call S SyncResult
  unfolding native_call
  flush = native_call network_error (λ native. native.flush)

  unfoldable pub pause_sync : Call S (Unit {0})
  unfolding native_call
  pause_sync = native_call invalid_payload (λ native. native.pause_sync)

  unfoldable pub resume_sync : Call S (Unit {0})
  unfolding native_call
  resume_sync = native_call invalid_payload (λ native. native.resume_sync)

  unfoldable pub is_syncing : Call S Bool
  unfolding native_call
  is_syncing = native_call invalid_payload (λ native. native.is_syncing)

  unfoldable pub configure_sync : SyncOptions → Call S (Unit {0})
  unfolding native_call
  configure_sync options = native_call invalid_payload (λ native. native.configure_sync options)

  unfoldable pub get_sync_config : Call S SyncOptions
  unfolding native_call
  get_sync_config = native_call invalid_payload (λ native. native.get_sync_config)

  -- The test of the sentinel stands in the `try` and throws nothing.
  unfoldable pub get_last_sync_result : Call S (Option SyncResult)
  unfolding native_call
  get_last_sync_result w =
      let (result, w') = native_call invalid_payload (λ native. native.get_last_sync_result) w in
      elim result [
        | fulfilled r ↦ (fulfilled (if is_last_sync_sentinel r then none else some r), w')
        | rejected e ↦ (rejected e, w')
      ]

  -- `limit ?? 0`.
  unfoldable pub get_sync_history : Option ℕ → Call S (List SyncResult)
  unfolding native_call
  get_sync_history limit =
      let count : ℕ = elim limit [ none ↦ 0 | some n ↦ n ] in
      native_call invalid_payload (λ native. native.get_sync_history count)

  unfoldable pub clear_sync_history : Call S (Unit {0})
  unfolding native_call
  clear_sync_history = native_call invalid_payload (λ native. native.clear_sync_history)

  unfoldable pub get_connection_status : Call S ConnectionState
  unfolding native_call
  get_connection_status = native_call invalid_payload (λ native. native.get_connection_status)

  unfoldable pub enable_background_sync : BackgroundSyncOptions → Call S (Unit {0})
  unfolding native_call
  enable_background_sync options =
      native_call background_task_registration_failed
        (λ native. native.enable_background_sync options)

  unfoldable pub disable_background_sync : Call S (Unit {0})
  unfolding native_call
  disable_background_sync =
      native_call background_task_registration_failed (λ native. native.disable_background_sync)

  unfoldable pub is_background_sync_enabled : Call S Bool
  unfolding native_call
  is_background_sync_enabled =
      native_call background_task_registration_failed (λ native. native.is_background_sync_enabled)

  abbrev pub sync_event_channel : String
  sync_event_channel = "sync-event"

  unfoldable pub add_sync_event_listener : ℕ → Call S String
  unfolding native_call
  add_sync_event_listener callback =
      native_call invalid_payload (λ native. native.add_listener sync_event_channel callback)

  unfoldable pub remove_sync_event_listener : String → Call S (Unit {0})
  unfolding native_call
  remove_sync_event_listener subscription_id =
      native_call invalid_payload
        (λ native. native.remove_listener sync_event_channel subscription_id)
