-- ===== src/Facade/Laws.antt =====
-- What the functions of the facade promise: the probe decides, only a `SyncError` is thrown, and
-- nothing that is invalid reaches the native module.
use react_native_sync_provid.Common.{
  ◌≡◌, ◌⊎◌, refl, sym, inl, inr, Option-cases, Option, none, some,
}
use Prim.Native.String.{String}
use mathlib.Core.Path.{subst}
use react_native_sync_provid.Types.Value.{undefined}
use react_native_sync_provid.Types.Errors.{
  SyncErrorCode, native_module_unavailable, Thrown, sync_error, error, thrown, Outcome, fulfilled,
  rejected,
}
use react_native_sync_provid.Native.Provider.{Promised, SyncProvider}
use react_native_sync_provid.Native.Probe.{
  World, CreateHybridObject, get_native_sync_provider, assert_native_module_available,
  unavailable_error, wrap_native_error,
}
use react_native_sync_provid.Native.Laws.{
  IsConsistent, is_native_module_available-get_native_sync_provider,
  get_native_sync_provider-get_native_sync_provider,
}
use react_native_sync_provid.Facade.Ops.{native_or_throw, native_call, caught}

abbrev pub IsSyncError : Thrown → Type 0
IsSyncError (sync_error code message cause issues) = Unit
IsSyncError _ = ⊥

-- What the caller catches where native has thrown `err`: a `SyncError` as it is, and for anything
-- else a `SyncError` with the function's code and with `err` as its cause.
abbrev pub Wraps : SyncErrorCode → Thrown → Thrown → Type 0
Wraps code err e =
    (IsSyncError err × (e ≡ err))
    ⊎ (¬ (IsSyncError err) × ((message : String) × (e ≡ sync_error code message err none)))

abbrev pub Settles : {A : Type 0} → SyncErrorCode → Outcome A → Outcome A → Type 0
Settles code (fulfilled a) outcome = outcome ≡ fulfilled a
Settles code (rejected err) outcome = (e : Thrown) × (outcome ≡ rejected e) × Wraps code err e

-- How a call ends that found this native module, or none, in the world `w`.
abbrev pub IsAnswer :
    {S A : Type 0}
    → SyncErrorCode
    → (SyncProvider S → Promised S A)
    → Option (SyncProvider S) × World S
    → Outcome A × World S
    → Type 0
IsAnswer code operation (none, w) (outcome, w') =
    ((message : String) × (outcome
        ≡ rejected (sync_error native_module_unavailable message (thrown undefined) none)))
    × (w' ≡ w)
IsAnswer code operation (some native, w) (outcome, w') =
    Settles code (operation native w.native).0 outcome
    × (w' ≡ record w { native = (operation native w.native).1 })

wrap_native_error-Wraps :
    (err : Thrown) (code : SyncErrorCode) → Wraps code err (wrap_native_error err code)
unfolding wrap_native_error
wrap_native_error-Wraps (sync_error c m e i) code = inl (tt, refl)
wrap_native_error-Wraps (error v) code = inr (λ h. h, (_, refl))
wrap_native_error-Wraps (thrown v) code = inr (λ h. h, (_, refl))

module _ {S : Type 0} (create : CreateHybridObject S) where
  -- What a call comes to, once the probe has answered.
  abbrev pub answer :
      {A : Type 0}
      → SyncErrorCode
      → (SyncProvider S → Promised S A)
      → Option (SyncProvider S) × World S
      → Outcome A × World S
  answer code operation (hybrid, w) = elim hybrid [
    | none ↦ (rejected (unavailable_error create), w)
    | some native ↦ caught create code w (operation native w.native)
  ]

  module _ (w : World S) (c : IsConsistent w) where
    asserted_none :
        (get_native_sync_provider create w).0 ≡ none
        → assert_native_module_available create w
          ≡ (rejected (unavailable_error create), (get_native_sync_provider create w).1)
    unfolding assert_native_module_available
    asserted_none missing =
        rw (is_native_module_available-get_native_sync_provider create w c, missing) refl

    asserted_some :
        (native : SyncProvider S)
        → (get_native_sync_provider create w).0 ≡ some native
        → assert_native_module_available create w
          ≡ (fulfilled tt, (get_native_sync_provider create w).1)
    unfolding assert_native_module_available
    asserted_some native found =
        rw (is_native_module_available-get_native_sync_provider create w c, found) refl

    thrown_none :
        (get_native_sync_provider create w).0 ≡ none
        → native_or_throw create w
          ≡ (rejected (unavailable_error create), (get_native_sync_provider create w).1)
    unfolding native_or_throw
    thrown_none missing = let e = asserted_none missing in rw (native_or_throw, e, e) refl

    native_some :
        (native : SyncProvider S)
        → (get_native_sync_provider create w).0 ≡ some native
        → native_or_throw create w
          ≡ (fulfilled (some native), (get_native_sync_provider create w).1)
    unfolding native_or_throw
    native_some native found =
        let e = asserted_some native found in
        rw
          (native_or_throw, e, e, get_native_sync_provider-get_native_sync_provider create w, found)
          refl

  pub native_call-answer :
      {A : Type 0} (code : SyncErrorCode) (operation : SyncProvider S → Promised S A) (w : World S)
      → IsConsistent w
      → native_call create code operation w
        ≡ answer code operation (get_native_sync_provider create w)
  unfolding native_call
  native_call-answer code operation w c =
      elim (Option-cases (get_native_sync_provider create w).0) [
        | inl missing ↦
            let e = thrown_none w c missing in rw (native_call, e, e, answer, missing) refl
        | inr (native, found) ↦
            let e = native_some w c native found in rw (native_call, e, e, answer, found) refl
      ]

  caught-IsAnswer :
      {A : Type 0} (code : SyncErrorCode) (w : World S) (r : Outcome A × S)
      → Settles code r.0 (caught create code w r).0
        × ((caught create code w r).1 ≡ record w { native = r.1 })
  caught-IsAnswer code w (fulfilled a, s) = (refl, refl)
  caught-IsAnswer code w (rejected err, s) =
      ((wrap_native_error err code, refl, wrap_native_error-Wraps err code), refl)

  pub answer-IsAnswer :
      {A : Type 0} (code : SyncErrorCode) (operation : SyncProvider S → Promised S A)
      (found : Option (SyncProvider S) × World S)
      → IsAnswer code operation found (answer code operation found)
  answer-IsAnswer code operation (none, w) = ((_, refl), refl)
  answer-IsAnswer code operation (some native, w) =
      caught-IsAnswer code w (operation native w.native)

  -- The body that the functions of the facade share, in any world whose probe is consistent, probes
  -- the native module. Without one it throws a `SyncError` NATIVE_MODULE_UNAVAILABLE and changes
  -- nothing else. With one it makes exactly the one native call, in the state that the probe left:
  -- the result is returned, a `SyncError` is thrown on unchanged, and any other exception is the
  -- cause of a `SyncError` with the function's code.
  pub native_call-IsAnswer :
      {A : Type 0} (code : SyncErrorCode) (operation : SyncProvider S → Promised S A) (w : World S)
      → IsConsistent w
      → IsAnswer code operation
          (get_native_sync_provider create w)
          (native_call create code operation w)
  native_call-IsAnswer code operation w c =
      subst (IsAnswer code operation (get_native_sync_provider create w))
        (sym (native_call-answer code operation w c))
        (answer-IsAnswer code operation (get_native_sync_provider create w))
