-- ===== src/Billing/Manual/Grant/Granted.antt =====
-- What a grant that went through has done, in `grantManualUserPlan` of src/billing/manual.ts.
use mathlib.Core.Bool.{false≢true}
use email_to_telegram.Base.{
  ℕ, String, Bool, true, false, not, Option, none, some, ◌∷◌, ◌≡◌, refl, sym, ◌∙◌, any, if-split,
  TextOps, ◌==◌,
}
use email_to_telegram.Billing.Webhooks.{BillingTables, ManualBillingEvent, update_user}
use email_to_telegram.Billing.Manual.{
  GrantInput, ManualGrantErrorCode, GrantResult, granted, replayed, refused, race_lost,
  normalize_plan_input, validate_plan_input,
}
use email_to_telegram.Billing.Manual.Grant.{
  patched, event_of, summarize, payload_matches_event, user_matches_stored_event, is_paid_by,
  find_or_create_user_by_id, find_by_user_and_reference, find_or_create_manual_event, replay,
  blocked, is_stale_page, after_insert, or_event, find_any_by_reference, grant_new, grant_to,
  grant_transaction, grant_manual_user_plan,
}
use email_to_telegram.Store.Rows.{User}
use email_to_telegram.Store.Users.{find_user_by_id}

-- The tables with the user's row there.
abbrev pub with_user : GrantInput → ℕ → BillingTables → BillingTables
with_user input now t = find_or_create_user_by_id input.telegram_user_id now t

-- The tables with the event recorded and the user's row patched.
abbrev pub after_grant : GrantInput → ℕ → ℕ → BillingTables → BillingTables
after_grant input id now t =
    let t' = with_user input now t in
    update_user input.telegram_user_id (patched input now)
      (record t' { manual_events = event_of input id ∷ t'.manual_events })

abbrev pub is_granted : GrantResult → Bool
is_granted (granted s) = true
is_granted (replayed reconciled s) = false
is_granted (refused code) = false
is_granted race_lost = false

-- A new grant: the input was valid, the user's row was found, the payment reference was not used
-- before, and the tables and the summary are those of the input.
pub record IsNewGrant (input : GrantInput) (id now : ℕ) (t : BillingTables)
    (r : BillingTables × GrantResult) : Type 0 where
  pub user : User
  pub found : find_user_by_id (with_user input now t).db input.telegram_user_id ≡ some user
  pub unused :
      any (is_paid_by input.payment_reference) (with_user input now t).manual_events ≡ false
  pub tables_lem : r.0 ≡ after_grant input id now t
  pub result_lem : r.1 ≡ granted (summarize input id)

replay-not_granted :
    (input : GrantInput) (now : ℕ) (t : BillingTables) (user : User) (event : ManualBillingEvent)
    → is_granted (replay input now t user event).1 ≡ false
replay-not_granted input now t user event =
    if-split (λ (r : BillingTables × GrantResult). is_granted r.1 ≡ false)
      (not (payload_matches_event event input)) (λ conflict. refl)
      (λ matching.
        if-split (λ (r : BillingTables × GrantResult). is_granted r.1 ≡ false)
          (user_matches_stored_event user event) (λ same. refl) (λ reconciled. refl))

blocked-not_granted :
    (input : GrantInput) (now : ℕ) (before t : BillingTables) (user : User)
    (event : Option ManualBillingEvent)
    → is_granted (blocked input now before t user event).1 ≡ false
blocked-not_granted input now before t user none = refl
blocked-not_granted input now before t user (some event) =
    if-split (λ (r : BillingTables × GrantResult). is_granted r.1 ≡ false)
      (not (event.telegram_user_id == input.telegram_user_id)) (λ other. refl)
      (λ own. replay-not_granted input now t user event)

not_granted {ℓ} : {A : Type ℓ} {b : Bool} → b ≡ false → b ≡ true → A
not_granted {b = b} no_grant h = absurd (false≢true (sym no_grant ∙ h))

grant_new-IsNewGrant :
    (input : GrantInput) (id now : ℕ) (t : BillingTables) (user : User)
    → find_user_by_id (with_user input now t).db input.telegram_user_id ≡ some user
    → let r = grant_new input id now t (with_user input now t) user in
      is_granted r.1 ≡ true → IsNewGrant input id now t r
unfolding find_or_create_manual_event
grant_new-IsNewGrant input id now t user found =
    let t' = with_user input now t in
    if-split
      (λ (made : BillingTables × Option ManualBillingEvent × Bool).
        is_granted (after_insert input id now t user made).1 ≡ true
        → IsNewGrant input id now t (after_insert input id now t user made))
      (any (is_paid_by input.payment_reference) t'.manual_events)
      (λ used h.
        not_granted
          (blocked-not_granted input now t t' user (
            or_event (find_by_user_and_reference t' input.telegram_user_id input.payment_reference)
              (find_any_by_reference t' input.payment_reference)))
          h)
      (λ unused.
        if-split
          (λ (r : BillingTables × GrantResult). is_granted r.1 ≡ true → IsNewGrant input id now t r)
          (is_stale_page input user) (λ stale h. absurd (false≢true h))
          (λ fresh h. record {
            user = user;
            found = found;
            unused = unused;
            tables_lem = refl;
            result_lem = refl;
          }))

grant_to-IsNewGrant :
    (input : GrantInput) (id now : ℕ) (t : BillingTables) (user : Option User)
    → find_user_by_id (with_user input now t).db input.telegram_user_id ≡ user
    → let r = grant_to input id now t (with_user input now t) user in
      is_granted r.1 ≡ true → IsNewGrant input id now t r
grant_to-IsNewGrant input id now t none found h = absurd (false≢true h)
grant_to-IsNewGrant input id now t (some user) found h =
    by_event
      (find_by_user_and_reference (with_user input now t) input.telegram_user_id
        input.payment_reference)
      h
  where
    by_event :
        (o : Option ManualBillingEvent)
        → let r : BillingTables × GrantResult = elim o [
          | some event ↦ replay input now (with_user input now t) user event
          | none ↦ grant_new input id now t (with_user input now t) user
        ] in
          is_granted r.1 ≡ true → IsNewGrant input id now t r
    by_event none h = grant_new-IsNewGrant input id now t user found h
    by_event (some event) h =
        not_granted (replay-not_granted input now (with_user input now t) user event) h

-- A grant that went through was valid and is a new one, of the normalised input.
pub grant-IsNewGrant :
    (ops : TextOps) (length_of : String → ℕ) (raw : GrantInput) (id now : ℕ) (t : BillingTables)
    → let r = grant_manual_user_plan ops length_of raw id now t in
      is_granted r.1 ≡ true
      → (validate_plan_input length_of (normalize_plan_input ops raw) ≡ none)
        × IsNewGrant (normalize_plan_input ops raw) id now t r
unfolding grant_manual_user_plan grant_transaction
grant-IsNewGrant ops length_of raw id now t =
    by_error (validate_plan_input length_of (normalize_plan_input ops raw))
  where
    input : GrantInput
    input = normalize_plan_input ops raw

    by_error :
        (o : Option ManualGrantErrorCode)
        → let r : BillingTables × GrantResult = elim o [
          | some code ↦ (t, refused code)
          | none ↦ grant_transaction input id now t
        ] in
          is_granted r.1 ≡ true → (o ≡ none) × IsNewGrant input id now t r
    by_error none h = (
      refl,
      grant_to-IsNewGrant input id now t
          (find_user_by_id (with_user input now t).db input.telegram_user_id) refl h,
    )
    by_error (some code) h = absurd (false≢true h)
