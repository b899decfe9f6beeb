-- ===== src/Billing/Manual.antt =====
-- src/billing/manual.ts with src/db/repos/manualBillingEvents.ts: a plan that an operator grants for a
-- payment. `length` counts the units of the runtime's strings and is an argument, as the ids are that
-- the database draws; a time's ISO text is the time.
pub mod Grant
use email_to_telegram.Base.{
  ℕ, String, Bool, true, false, not, ◌&&◌, ◌||◌, Option, none, some, List, [], ◌∷◌, ◌==◌, ltb, any,
  find?, is_some, is_text, opt_eq, opt_str_eq, str_eq, if◌then◌else◌, TextOps, insert_new,
}
use email_to_telegram.Billing.Plans.{PlanCode, SubscriptionStatus}
use email_to_telegram.Billing.Webhooks.{
  BillingTables, ManualBillingEvent, is_free, is_business, update_user,
}
use email_to_telegram.Store.Rows.{Db, User}
use email_to_telegram.Store.Users.{find_user_by_id}

pub record GrantInput : Type 0 where
  pub telegram_user_id : ℕ
  pub plan_code : PlanCode
  pub subscription_status : SubscriptionStatus
  pub paid_through_at : Option ℕ
  pub payment_reference : String
  pub note : Option String
  pub kept_stripe_link : Bool
  pub operator_source : String
  pub expected_updated_at : Option ℕ

pub data ManualGrantErrorCode : Type 0 where
  user_not_found invalid_plan invalid_status free_status_required paid_through_required :
      ManualGrantErrorCode
  keep_stripe_link_not_allowed free_status_not_allowed_for_paid_plan concurrent_update :
      ManualGrantErrorCode
  payment_reference_required payment_reference_conflict payment_reference_too_long :
      ManualGrantErrorCode
  note_too_long paid_through_not_allowed canceled_not_allowed_for_business : ManualGrantErrorCode

pub record ManualGrantSummary : Type 0 where
  pub telegram_user_id : ℕ
  pub plan_code : PlanCode
  pub subscription_status : SubscriptionStatus
  pub paid_through_at : Option ℕ
  pub payment_reference : Option String
  pub note : Option String
  pub kept_stripe_link : Bool
  pub manual_billing_event_id : ℕ
  pub operator_source : String

-- `race_lost` is the error that `findOrCreateManualBillingEvent` throws.
pub data GrantResult : Type 0 where
  granted : ManualGrantSummary → GrantResult
  replayed : Bool → ManualGrantSummary → GrantResult
  refused : ManualGrantErrorCode → GrantResult
  race_lost : GrantResult

abbrev pub plan_no : PlanCode → ℕ
plan_no PlanCode.free = 0
plan_no PlanCode.personal = 1
plan_no PlanCode.pro = 2
plan_no PlanCode.team = 3
plan_no PlanCode.business = 4

abbrev pub same_plan : PlanCode → PlanCode → Bool
same_plan a b = plan_no a == plan_no b

abbrev pub status_no : SubscriptionStatus → ℕ
status_no SubscriptionStatus.free = 0
status_no SubscriptionStatus.trialing = 1
status_no SubscriptionStatus.active = 2
status_no SubscriptionStatus.paused = 3
status_no SubscriptionStatus.past_due = 4
status_no SubscriptionStatus.canceled = 5
status_no SubscriptionStatus.unpaid = 6
status_no SubscriptionStatus.incomplete = 7
status_no SubscriptionStatus.incomplete_expired = 8

abbrev pub same_status : SubscriptionStatus → SubscriptionStatus → Bool
same_status a b = status_no a == status_no b

abbrev pub manual_plan_codes : List PlanCode
manual_plan_codes =
    PlanCode.free ∷ PlanCode.personal ∷ PlanCode.pro ∷ PlanCode.team ∷ PlanCode.business ∷ []

abbrev pub manual_statuses : List SubscriptionStatus
manual_statuses =
    SubscriptionStatus.free ∷ SubscriptionStatus.active ∷ SubscriptionStatus.canceled ∷ []

-- `s.trim() || null`
abbrev pub trimmed_note : TextOps → Option String → Option String
trimmed_note ops none = none
trimmed_note ops (some s) = let t = ops.trim s in if str_eq t "" then none else some t

abbrev pub normalize_plan_input : TextOps → GrantInput → GrantInput
normalize_plan_input ops input = record input {
  payment_reference = ops.trim input.payment_reference;
  note = trimmed_note ops input.note;
}

abbrev pub is_paid_plan : PlanCode → Bool
is_paid_plan PlanCode.free = false
is_paid_plan PlanCode.personal = true
is_paid_plan PlanCode.pro = true
is_paid_plan PlanCode.team = true
is_paid_plan PlanCode.business = false

abbrev pub is_longer : (String → ℕ) → ℕ → Option String → Bool
is_longer length_of n none = false
is_longer length_of n (some s) = ltb n (length_of s)

-- The error of `validatePlanInput`, if there is one.
unfoldable pub validate_plan_input : (String → ℕ) → GrantInput → Option ManualGrantErrorCode
validate_plan_input length_of input =
    let status = input.subscription_status in
    if not (any (same_plan input.plan_code) manual_plan_codes)
    then some invalid_plan
    else if not (any (same_status status) manual_statuses)
    then some invalid_status
    else if is_free input.plan_code && not (same_status status SubscriptionStatus.free)
    then some free_status_required
    else if not (is_free input.plan_code) && same_status status SubscriptionStatus.free
    then some free_status_not_allowed_for_paid_plan
    else if input.kept_stripe_link && not (is_business input.plan_code)
    then some keep_stripe_link_not_allowed
    else if is_paid_plan input.plan_code
        && (same_status status SubscriptionStatus.active && not (is_some input.paid_through_at))
    then some paid_through_required
    else if same_status status SubscriptionStatus.canceled && is_some input.paid_through_at
    then some paid_through_not_allowed
    else if is_business input.plan_code && same_status status SubscriptionStatus.canceled
    then some canceled_not_allowed_for_business
    else if str_eq input.payment_reference ""
    then some payment_reference_required
    else if ltb 255 (length_of input.payment_reference)
    then some payment_reference_too_long
    else if is_longer length_of 1000 input.note
    then some note_too_long
    else none
