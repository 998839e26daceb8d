-- ===== src/Android/Verdict.antt =====
-- SyncDispatcher.dispatchItem as a verdict on the attempt, and the four ways in which it ends.
use Prim.Native.String.{String}
use react_native_sync_provid.Common.{
  ℕ, ◌+◌, ◌≡◌, refl, ◌⊎◌, Bool, true, false, ◌&&◌, [], ◌∷◌, some, max, inl, inr, Bool-cases,
  if◌then◌else◌,
}
use react_native_sync_provid.Common.Int.{pos, max_ℤ, leb_ℤ}
use react_native_sync_provid.Types.Enums.{SyncEventType, item_succeeded, item_failed, item_retrying}
use react_native_sync_provid.Types.Sync.{SyncOptions}
use react_native_sync_provid.Types.Errors.{SyncErrorCode, max_attempts_exceeded}
use react_native_sync_provid.Backoff.Kotlin.{compute_delay_ms, has_budget}
use react_native_sync_provid.Android.Rows.{SyncItemEntity, Table}
use react_native_sync_provid.Android.Storage.{mark_succeeded, mark_retry, mark_failed}
use react_native_sync_provid.Android.Attempt.{AttemptResult, success, failure, timeout_ms, run_once}
use react_native_sync_provid.Android.Dispatch.{
  CredentialPolicy, Exchange, Dispatched, Emitted, ItemOutcome, succeeded, rescheduled,
  credential_rejected, failed_outcome, is_persisted, is_unauthorized, min_credential_hold_ms,
  plus_long, after_write, reschedule, hold_for_credential_renewal, fail_terminally, after_attempt,
  dispatch_item,
}

-- What is decided about a row: it is delivered, waits until a time for its next attempt, or fails;
-- each with the attempts that it then counts.
pub data Verdict : Type 0 where
  deliver : Verdict
  wait : (attempts : ℕ) → (code : SyncErrorCode) → (until : ℕ) → Verdict
  give_up : (attempts : ℕ) → (code : SyncErrorCode) → Verdict

-- What an outcome says of its row: that it was delivered, waits, or failed.
pub data Standing : Type 0 where
  delivered waiting lost : Standing

abbrev pub standing : ItemOutcome → Standing
standing (succeeded id status_code) = delivered
standing (rescheduled id) = waiting
standing (credential_rejected id until) = waiting
standing (failed_outcome id code message) = lost

abbrev pub outcome_id : ItemOutcome → String
outcome_id (succeeded id status_code) = id
outcome_id (rescheduled id) = id
outcome_id (credential_rejected id until) = id
outcome_id (failed_outcome id code message) = id

-- What becomes of a row by a verdict that is written.
abbrev pub stands : Verdict → Standing
stands deliver = delivered
stands (wait attempts code until) = waiting
stands (give_up attempts code) = lost

-- The events of items.
abbrev pub IsItemType : SyncEventType → Type 0
IsItemType type = (type ≡ item_succeeded) ⊎ ((type ≡ item_retrying) ⊎ (type ≡ item_failed))

module _ (options : SyncOptions) (credentials : CredentialPolicy) (exchange : Exchange)
    (c : SyncItemEntity) where
  abbrev pub backoff : ℕ
  backoff = compute_delay_ms exchange.random (pos (c.attempts + 1)) options.retry_policy

  abbrev pub after_result : AttemptResult → Verdict
  after_result (success status_code) = deliver
  after_result (failure code message status_code retryable) =
      if is_persisted credentials && is_unauthorized code
      then wait c.attempts code
          (plus_long exchange.finished_at (max backoff min_credential_hold_ms))
      else if retryable && has_budget (c.attempts + 1) options.retry_policy
      then wait (c.attempts + 1) code (plus_long exchange.finished_at backoff)
      else give_up (c.attempts + 1) (if retryable then max_attempts_exceeded else code)

  abbrev pub is_exhausted : Bool
  is_exhausted = leb_ℤ (max_ℤ options.retry_policy.max_attempts (pos 1)) (pos c.attempts)

  abbrev pub verdict : Verdict
  verdict =
      if is_exhausted
      then give_up c.attempts max_attempts_exceeded
      else after_result (run_once (timeout_ms options) c.id exchange.current_policy exchange.reply)

  -- The statements that carry out a verdict.
  abbrev pub performed : Verdict → Table → Table
  performed deliver items = mark_succeeded c.id items
  performed (wait attempts code until) items =
      mark_retry c.id attempts exchange.started_at code until items
  performed (give_up attempts code) items = mark_failed c.id attempts exchange.started_at code items

  -- The event and the outcome of a dispatch whose write does not throw, by the verdict.
  pub record Says (v : Verdict) (e : Emitted) (o : ItemOutcome) : Type 0 where
    pub names : e.item_id ≡ some c.id
    pub of_item : IsItemType e.type
    pub same_id : outcome_id o ≡ c.id
    pub same_standing : standing o ≡ stands v

  abbrev pub ended : Table → Verdict → Emitted → ItemOutcome → Dispatched
  ended items v e o =
      after_write options credentials exchange c items (performed v items) (e ∷ []) o

  -- A dispatch on two tables ends alike, with the write, the event and the outcome of its verdict.
  module _ (items other : Table) (P : Verdict → Dispatched → Dispatched → Type 0)
      (ends : (v : Verdict) (e : Emitted) (o : ItemOutcome)
        → Says v e o
        → P v (ended items v e o) (ended other v e o)) where
    after_attempt-cases :
        (a : AttemptResult)
        → P
            (after_result a)
            (after_attempt options credentials exchange c items a)
            (after_attempt options credentials exchange c other a)
    after_attempt-cases (success status_code) =
        ends deliver _ _
          (record { names = refl; of_item = inl refl; same_id = refl; same_standing = refl })
    after_attempt-cases (failure code message status_code retryable) =
        go (is_persisted credentials && is_unauthorized code)
          (retryable && has_budget (c.attempts + 1) options.retry_policy)
      where
        after : Table → Bool → Bool → Dispatched
        after table held again =
            if held
            then hold_for_credential_renewal options credentials exchange c table code status_code
            else if again
            then reschedule options credentials exchange c table code status_code
            else fail_terminally options credentials exchange c table code message status_code
                retryable

        go :
            (held again : Bool)
            → P
                (if held
                  then wait c.attempts code
                      (plus_long exchange.finished_at (max backoff min_credential_hold_ms))
                  else if again
                  then wait (c.attempts + 1) code (plus_long exchange.finished_at backoff)
                  else give_up (c.attempts + 1) (if retryable then max_attempts_exceeded else code))
                (after items held again)
                (after other held again)
        go true again = ends (wait _ _ _) _ _ (record {
          names = refl;
          of_item = inr (inl refl);
          same_id = refl;
          same_standing = refl;
        })
        go false true = ends (wait _ _ _) _ _ (record {
          names = refl;
          of_item = inr (inl refl);
          same_id = refl;
          same_standing = refl;
        })
        go false false = ends (give_up _ _) _ _ (record {
          names = refl;
          of_item = inr (inr refl);
          same_id = refl;
          same_standing = refl;
        })

    pub dispatch_item-cases :
        P verdict
          (dispatch_item options credentials exchange c items)
          (dispatch_item options credentials exchange c other)
    unfolding dispatch_item
    dispatch_item-cases = elim (Bool-cases is_exhausted) [
      | inl over ↦ rw over (
          ends (give_up _ _) _ _ (record {
            names = refl;
            of_item = inr (inr refl);
            same_id = refl;
            same_standing = refl;
          }))
      | inr left ↦ rw left (
          after_attempt-cases
            (run_once (timeout_ms options) c.id exchange.current_policy exchange.reply))
    ]
