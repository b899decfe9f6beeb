-- ===== src/Billing/Manual/Grant/Outcomes.antt =====
-- What `grantManualUserPlan` of src/billing/manual.ts leaves behind, on every branch.
use email_to_telegram.Base.{
  ℕ, String, Bool, true, false, not, Option, none, some, ◌≡◌, any, if-split, TextOps, ◌==◌,
}
use email_to_telegram.Billing.Webhooks.{BillingTables, ManualBillingEvent, update_user}
use email_to_telegram.Billing.Manual.{
  GrantInput, ManualGrantErrorCode, ManualGrantSummary, GrantResult, granted, replayed, refused,
  race_lost, payment_reference_conflict, concurrent_update, user_not_found, normalize_plan_input,
  validate_plan_input,
}
use email_to_telegram.Billing.Manual.Grant.{
  patched, summarize, payload_matches_event, user_matches_stored_event, is_paid_by,
  find_by_user_and_reference, find_any_by_reference, or_event, find_or_create_manual_event, replay,
  summarize_event, blocked, is_stale_page, after_insert, grant_new, grant_to, grant_transaction,
  grant_manual_user_plan,
}
use email_to_telegram.Billing.Manual.Grant.Granted.{with_user, after_grant}
use email_to_telegram.Store.Rows.{User}
use email_to_telegram.Store.Users.{find_user_by_id}

-- Every end of a grant, with the tables that it leaves.
pub data Outcome (input : GrantInput) (id now : ℕ) (t : BillingTables)
    : BillingTables × GrantResult → Type 0 where
  rejected : (code : ManualGrantErrorCode) → Outcome input id now t (t, refused code)
  conflicting :
      (code : ManualGrantErrorCode) → Outcome input id now t (with_user input now t, refused code)
  lost : Outcome input id now t (t, race_lost)
  repeated :
      (s : ManualGrantSummary) → Outcome input id now t (with_user input now t, replayed false s)
  reconciled :
      (s : ManualGrantSummary)
      → Outcome input id now t (
        update_user input.telegram_user_id (patched input now) (with_user input now t),
        replayed true s,
      )
  recorded :
      any (is_paid_by input.payment_reference) (with_user input now t).manual_events ≡ false
      → Outcome input id now t (after_grant input id now t, granted (summarize input id))

module _ (input : GrantInput) (id now : ℕ) (t : BillingTables) where
  abbrev Ends : BillingTables × GrantResult → Type 0
  Ends r = Outcome input id now t r

  replay-Ends :
      (user : User) (event : ManualBillingEvent)
      → Ends (replay input now (with_user input now t) user event)
  replay-Ends user event =
      if-split Ends (not (payload_matches_event event input))
        (λ conflict. Outcome.conflicting payment_reference_conflict)
        (λ matching.
          if-split Ends (user_matches_stored_event user event)
            (λ same. Outcome.repeated (summarize_event event))
            (λ other. Outcome.reconciled (summarize_event event)))

  blocked-Ends :
      (user : User) (event : Option ManualBillingEvent)
      → Ends (blocked input now t (with_user input now t) user event)
  blocked-Ends user none = Outcome.lost
  blocked-Ends user (some event) =
      if-split Ends (not (event.telegram_user_id == input.telegram_user_id))
        (λ other. Outcome.conflicting payment_reference_conflict) (λ own. replay-Ends user event)

  grant_new-Ends : (user : User) → Ends (grant_new input id now t (with_user input now t) user)
  unfolding find_or_create_manual_event
  grant_new-Ends user =
      let t' = with_user input now t in
      if-split
        (λ (made : BillingTables × Option ManualBillingEvent × Bool).
          Ends (after_insert input id now t user made))
        (any (is_paid_by input.payment_reference) t'.manual_events)
        (λ used. blocked-Ends user (
          or_event (find_by_user_and_reference t' input.telegram_user_id input.payment_reference)
            (find_any_by_reference t' input.payment_reference)))
        (λ unused.
          if-split Ends (is_stale_page input user) (λ stale. Outcome.rejected concurrent_update)
            (λ fresh. Outcome.recorded unused))

  grant_to-Ends : (user : Option User) → Ends (grant_to input id now t (with_user input now t) user)
  grant_to-Ends none = Outcome.conflicting user_not_found
  grant_to-Ends (some user) = by_event (
      find_by_user_and_reference (with_user input now t) input.telegram_user_id
        input.payment_reference)
    where
      by_event :
          (o : Option ManualBillingEvent)
          → Ends (elim o [
            | some event ↦ replay input now (with_user input now t) user event
            | none ↦ grant_new input id now t (with_user input now t) user
          ])
      by_event none = grant_new-Ends user
      by_event (some event) = replay-Ends user event

  grant_transaction-Ends : Ends (grant_transaction input id now t)
  unfolding grant_transaction
  grant_transaction-Ends =
      grant_to-Ends (find_user_by_id (with_user input now t).db input.telegram_user_id)

pub grant-Outcome :
    (ops : TextOps) (length_of : String → ℕ) (raw : GrantInput) (id now : ℕ) (t : BillingTables)
    → Outcome
        (normalize_plan_input ops raw)
        id
        now
        t
        (grant_manual_user_plan ops length_of raw id now t)
unfolding grant_manual_user_plan
grant-Outcome ops length_of raw id now t =
    by_error (validate_plan_input length_of (normalize_plan_input ops raw))
  where
    by_error :
        (o : Option ManualGrantErrorCode)
        → Outcome (normalize_plan_input ops raw) id now t (elim o [
          | some code ↦ (t, refused code)
          | none ↦ grant_transaction (normalize_plan_input ops raw) id now t
        ])
    by_error none = grant_transaction-Ends (normalize_plan_input ops raw) id now t
    by_error (some code) = Outcome.rejected code
