-- ===== src/Facade/Errors.antt =====
-- How the functions of the facade end: with a result or a `SyncError`, and with a consistent probe.
use Prim.Native.String.{String}
use react_native_sync_provid.Common.{
  ℕ, ◌≡◌, ◌⊎◌, sym, ◌∙◌, List, [], ◌∷◌, if◌then◌else◌, refl, inl, inr, Option-cases, Option, none,
  some, arith,
}
use mathlib.Core.Path.{subst}
use react_native_sync_provid.Types.Value.{Value}
use react_native_sync_provid.Types.Sync.{SyncOptions, SyncResult, BackgroundSyncOptions}
use react_native_sync_provid.Types.Errors.{
  SyncErrorCode, invalid_payload, Thrown, sync_error, Outcome, fulfilled, rejected,
}
use react_native_sync_provid.Validation.Issues.{
  CollectedIssue, validate_sync_item, throw_first, collect_issues_with_code,
}
use react_native_sync_provid.Validation.Laws.{IsValidInput, validate_sync_item-IsValidInput}
use react_native_sync_provid.Native.Provider.{Promised, SyncProvider}
use react_native_sync_provid.Native.Probe.{
  World, CreateHybridObject, get_native_sync_provider, wrap_native_error,
}
use react_native_sync_provid.Native.Laws.{IsConsistent, get_native_sync_provider-IsConsistent}
use react_native_sync_provid.Facade.Ops
use react_native_sync_provid.Facade.Ops.{native_call, caught, is_last_sync_sentinel}
use react_native_sync_provid.Facade.Laws.{IsSyncError, answer, native_call-answer}

abbrev pub OnlySyncError : {A : Type 0} → Outcome A → Type 0
OnlySyncError (fulfilled a) = Unit
OnlySyncError (rejected e) = IsSyncError e

abbrev pub EndsWell : {S A : Type 0} → Outcome A × World S → Type 0
EndsWell (outcome, w) = OnlySyncError outcome × IsConsistent w

wrap_native_error-IsSyncError :
    (err : Thrown) (code : SyncErrorCode) → IsSyncError (wrap_native_error err code)
unfolding wrap_native_error
wrap_native_error-IsSyncError (sync_error c m e i) code = tt
wrap_native_error-IsSyncError _ code = tt

Outcome-cases : (o : Outcome (Unit {0})) → (o ≡ fulfilled tt) ⊎ ((e : Thrown) × (o ≡ rejected e))
Outcome-cases (fulfilled tt) = inl refl
Outcome-cases (rejected e) = inr (e, refl)

abbrev passed : Outcome (Unit {0})
passed = fulfilled tt

clash : (e : Thrown) → passed ≡ rejected e → ⊥
clash e h = ground arith

validate-IsSyncError :
    (item : Value) (e : Thrown) → validate_sync_item item ≡ rejected e → IsSyncError e
unfolding validate_sync_item
validate-IsSyncError item e h = of (collect_issues_with_code item) h
  where
    of : (xs : List CollectedIssue) → throw_first xs ≡ rejected e → IsSyncError e
    of [] h = absurd (clash e h)
    of (x ∷ xs) h = subst OnlySyncError h tt

module _ {S : Type 0} (create : CreateHybridObject S) where
  caught-EndsWell :
      {A : Type 0} (code : SyncErrorCode) (w : World S) (r : Outcome A × S)
      → IsConsistent w
      → EndsWell (caught create code w r)
  caught-EndsWell code w (fulfilled a, s) c = (tt, record { agrees = c.agrees })
  caught-EndsWell code w (rejected e, s) c =
      (wrap_native_error-IsSyncError e code, record { agrees = c.agrees })

  pub native_call-EndsWell :
      {A : Type 0} (code : SyncErrorCode) (operation : SyncProvider S → Promised S A) (w : World S)
      → IsConsistent w
      → EndsWell (native_call create code operation w)
  native_call-EndsWell code operation w c =
      let kept = get_native_sync_provider-IsConsistent create w c in
      rw (native_call-answer create code operation w c)
        (elim (Option-cases (get_native_sync_provider create w).0) [
          | inl missing ↦ rw (answer, missing) (tt, kept)
          | inr (native, found) ↦ rw (answer, found) (caught-EndsWell code _ _ kept)
        ])

  enqueue_valid :
      (item : Value) (w : World S)
      → validate_sync_item item ≡ fulfilled tt
      → Ops.enqueue create item w
        ≡ native_call create invalid_payload (λ native. native.enqueue item) w
  unfolding Ops.enqueue
  enqueue_valid item w valid = rw (Ops.enqueue, valid) refl

  enqueue_invalid :
      (item : Value) (w : World S) (e : Thrown)
      → validate_sync_item item ≡ rejected e
      → Ops.enqueue create item w ≡ (rejected e, w)
  unfolding Ops.enqueue
  enqueue_invalid item w e invalid = rw (Ops.enqueue, invalid) refl

  -- `enqueue`, where the probe is consistent: an input that keeps the contract goes to the native
  -- module unchanged, in the one call that the probe allows; any other throws what validation
  -- throws, and neither the probe nor the native module sees anything of it.
  pub enqueue-IsValidInput :
      (item : Value) (w : World S)
      → IsConsistent w
      → (IsValidInput item
          × (Ops.enqueue create item w
              ≡ answer create invalid_payload
                  (λ native. native.enqueue item)
                  (get_native_sync_provider create w)))
        ⊎ (¬ (IsValidInput item)
            × ((e : Thrown) × (validate_sync_item item ≡ rejected e)
                × (Ops.enqueue create item w ≡ (rejected e, w))))
  enqueue-IsValidInput item w c = elim (Outcome-cases (validate_sync_item item)) [
    | inl valid ↦ inl (
      (validate_sync_item-IsValidInput item).0 valid,
      enqueue_valid item w valid ∙ native_call-answer create invalid_payload _ w c,
    )
    | inr (e, invalid) ↦ inr (
      λ v. absurd (clash e (sym ((validate_sync_item-IsValidInput item).1 v) ∙ invalid)),
      (e, invalid, enqueue_invalid item w e invalid),
    )
  ]

  enqueue-EndsWell :
      (item : Value) (w : World S) → IsConsistent w → EndsWell (Ops.enqueue create item w)
  enqueue-EndsWell item w c = elim (Outcome-cases (validate_sync_item item)) [
    | inl valid ↦ rw (enqueue_valid item w valid) (native_call-EndsWell invalid_payload _ w c)
    | inr (e, invalid) ↦
        rw (enqueue_invalid item w e invalid) (validate-IsSyncError item e invalid, c)
  ]

  get_last_sync_result-EndsWell :
      (w : World S) → IsConsistent w → EndsWell (Ops.get_last_sync_result create w)
  unfolding Ops.get_last_sync_result
  get_last_sync_result-EndsWell w c =
      mapped (native_call create invalid_payload (λ native. native.get_last_sync_result) w)
        (native_call-EndsWell invalid_payload _ w c)
    where
      mapped :
          (r : Outcome SyncResult × World S)
          → EndsWell r
          → EndsWell (elim r.0 as (λ _. Outcome (Option SyncResult) × World S) [
            | fulfilled result ↦
                (fulfilled (if is_last_sync_sentinel result then none else some result), r.1)
            | rejected e ↦ (rejected e, r.1)
          ])
      mapped (fulfilled result, w') h = h
      mapped (rejected e, w') h = h

  -- How `enqueue` and the functions that are one native call end in the world `w`, with these
  -- arguments.
  abbrev pub AllEndWell :
      World S → Value → String → SyncOptions → Option ℕ → BackgroundSyncOptions → ℕ → Type 0
  AllEndWell w item id options limit background callback =
      EndsWell (Ops.enqueue create item w)
      × (EndsWell (Ops.remove_item create id w)
          × EndsWell (Ops.clear_queue create w)
          × EndsWell (Ops.get_queue_size create w)
          × EndsWell (Ops.get_pending_items create w))
      × (EndsWell (Ops.flush create w)
          × EndsWell (Ops.pause_sync create w)
          × EndsWell (Ops.resume_sync create w)
          × EndsWell (Ops.is_syncing create w))
      × (EndsWell (Ops.configure_sync create options w) × EndsWell (Ops.get_sync_config create w))
      × (EndsWell (Ops.get_last_sync_result create w)
          × EndsWell (Ops.get_sync_history create limit w)
          × EndsWell (Ops.clear_sync_history create w))
      × (EndsWell (Ops.get_connection_status create w)
          × EndsWell (Ops.enable_background_sync create background w)
          × EndsWell (Ops.disable_background_sync create w)
          × EndsWell (Ops.is_background_sync_enabled create w))
      × (EndsWell (Ops.add_sync_event_listener create callback w)
          × EndsWell (Ops.remove_sync_event_listener create id w))

  -- `enqueue` and each of the functions of the facade that are one native call, called with whatever
  -- arguments in a world whose probe is consistent, throws a `SyncError` if it throws, and leaves
  -- the probe consistent. The others (`enqueueBatch`, `drainUntilEmpty`, `cancelDrain` and
  -- `isNativeModuleAvailable`) are not among them.
  pub facade-EndsWell :
      (w : World S)
      → IsConsistent w
      → (item : Value) (id : String) (options : SyncOptions) (limit : Option ℕ)
      → (background : BackgroundSyncOptions) (callback : ℕ)
      → AllEndWell w item id options limit background callback
  unfolding Ops.remove_item Ops.clear_queue Ops.get_queue_size Ops.get_pending_items Ops.flush
      Ops.pause_sync Ops.resume_sync Ops.is_syncing Ops.configure_sync Ops.get_sync_config
      Ops.get_sync_history Ops.clear_sync_history Ops.get_connection_status
      Ops.enable_background_sync Ops.disable_background_sync Ops.is_background_sync_enabled
      Ops.add_sync_event_listener Ops.remove_sync_event_listener
  facade-EndsWell w c item id options limit background callback = (
    enqueue-EndsWell item w c,
    (
      native_call-EndsWell _ _ w c,
      native_call-EndsWell _ _ w c,
      native_call-EndsWell _ _ w c,
      native_call-EndsWell _ _ w c,
    ),
    (
      native_call-EndsWell _ _ w c,
      native_call-EndsWell _ _ w c,
      native_call-EndsWell _ _ w c,
      native_call-EndsWell _ _ w c,
    ),
    (native_call-EndsWell _ _ w c, native_call-EndsWell _ _ w c),
    (get_last_sync_result-EndsWell w c, native_call-EndsWell _ _ w c, native_call-EndsWell _ _ w c),
    (
      native_call-EndsWell _ _ w c,
      native_call-EndsWell _ _ w c,
      native_call-EndsWell _ _ w c,
      native_call-EndsWell _ _ w c,
    ),
    (native_call-EndsWell _ _ w c, native_call-EndsWell _ _ w c),
  )
