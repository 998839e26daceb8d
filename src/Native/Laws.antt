-- ===== src/Native/Laws.antt =====
-- The probe constructs the native module once, and what it says of it is so.
use react_native_sync_provid.Common.{◌≡◌, refl, ◌⊎◌, inl, inr, Bool-cases, true, false, Option}
use react_native_sync_provid.Types.Errors.{Outcome, fulfilled, rejected}
use react_native_sync_provid.Native.Provider.{SyncProvider}
use react_native_sync_provid.Native.Probe.{
  World, CreateHybridObject, is_some, get_native_sync_provider, is_native_module_available,
  call_create,
}

-- The variables agree: once resolved, `available` says whether a module is cached.
pub record IsConsistent {S : Type 0} (w : World S) : Type 0 where
  pub agrees : (w.probe.resolved ≡ false) ⊎ (w.probe.available ≡ is_some w.probe.cached_hybrid)

call_create-resolved :
    {S : Type 0} (r : Outcome (Option (SyncProvider S)) × S)
    → ((call_create r).1.probe.resolved ≡ true)
      × ((call_create r).1.probe.cached_hybrid ≡ (call_create r).0)
      × ((call_create r).1.probe.available ≡ is_some (call_create r).0)
call_create-resolved (fulfilled hybrid, s) = (refl, refl, refl)
call_create-resolved (rejected e, s) = (refl, refl, refl)

module _ {S : Type 0} (create : CreateHybridObject S) where
  -- A first read may construct the native module; a read after it gives the same and changes
  -- nothing, so that the module is constructed at most once.
  pub get_native_sync_provider-get_native_sync_provider :
      (w : World S)
      → get_native_sync_provider create (get_native_sync_provider create w).1
        ≡ get_native_sync_provider create w
  unfolding get_native_sync_provider
  get_native_sync_provider-get_native_sync_provider w = elim (Bool-cases w.probe.resolved) [
    | inl done ↦ rw done refl
    | inr first ↦
        let (resolved, cached, available) = call_create-resolved (create w.native) in
        rw (first, resolved, cached) refl
  ]

  pub get_native_sync_provider-IsConsistent :
      (w : World S) → IsConsistent w → IsConsistent (get_native_sync_provider create w).1
  unfolding get_native_sync_provider
  get_native_sync_provider-IsConsistent w c = elim (Bool-cases w.probe.resolved) [
    | inl done ↦ simp done c
    | inr first ↦
        let (resolved, cached, available) = call_create-resolved (create w.native) in
        rw first (record { agrees = inr (rw cached available) })
  ]

  -- `isNativeModuleAvailable` says whether `getNativeSyncProvider` gives a module, wherever the
  -- module's variables agree, and has the same effect.
  pub is_native_module_available-get_native_sync_provider :
      (w : World S)
      → IsConsistent w
      → is_native_module_available create w
        ≡ (is_some (get_native_sync_provider create w).0, (get_native_sync_provider create w).1)
  unfolding is_native_module_available get_native_sync_provider
  is_native_module_available-get_native_sync_provider w c = elim (Bool-cases w.probe.resolved) [
    | inl done ↦
        rw done (elim c.agrees [ inl fresh ↦ cc (rw done at fresh) | inr same ↦ rw same refl ])
    | inr first ↦
        let (resolved, cached, available) = call_create-resolved (create w.native) in
        rw (first, available) refl
  ]
