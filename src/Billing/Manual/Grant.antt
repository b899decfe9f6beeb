-- ===== src/Billing/Manual/Grant.antt =====
-- `grantManualUserPlan` of src/billing/manual.ts, with the statements of
-- src/db/repos/manualBillingEvents.ts that it makes. Its transaction is one step.
pub mod Row
pub mod Granted
pub mod Replay
pub mod Outcomes
pub mod References
pub mod Kept
use email_to_telegram.Base.{
  ℕ, String, Bool, true, false, not, ◌&&◌, ◌||◌, Option, none, some, List, [], ◌∷◌, ◌++◌, ◌==◌, any,
  find?, is_some, is_text, opt_eq, opt_str_eq, if◌then◌else◌, TextOps,
}
use mathlib.Core.Option
use email_to_telegram.Billing.Plans.{PlanCode, SubscriptionStatus}
use email_to_telegram.Billing.Webhooks.{BillingTables, ManualBillingEvent, update_user}
use email_to_telegram.Billing.Manual.{
  GrantInput, ManualGrantErrorCode, ManualGrantSummary, GrantResult, granted, replayed, refused,
  race_lost, user_not_found, concurrent_update, payment_reference_conflict, same_plan, same_status,
  normalize_plan_input, validate_plan_input,
}
use email_to_telegram.Store.Rows.{Db, User}
use email_to_telegram.Store.Users.{find_user_by_id}

-- `updateUserBillingState` with `buildBillingPatch(input)`.
abbrev pub patched : GrantInput → ℕ → User → User
patched input now u = record u {
  plan_code = input.plan_code;
  subscription_status = input.subscription_status;
  paid_through_at = input.paid_through_at;
  stripe_customer_id = if input.kept_stripe_link then u.stripe_customer_id else none;
  stripe_subscription_id = if input.kept_stripe_link then u.stripe_subscription_id else none;
  trial_ends_at = if input.kept_stripe_link then u.trial_ends_at else none;
  current_period_start = if input.kept_stripe_link then u.current_period_start else none;
  current_period_end = if input.kept_stripe_link then u.current_period_end else none;
  updated_at = now;
}

abbrev pub event_of : GrantInput → ℕ → ManualBillingEvent
event_of input id = record {
  id = id;
  telegram_user_id = input.telegram_user_id;
  plan_code = input.plan_code;
  subscription_status = input.subscription_status;
  paid_through_at = input.paid_through_at;
  payment_reference = some input.payment_reference;
  note = input.note;
  kept_stripe_link = input.kept_stripe_link;
  operator_source = input.operator_source;
}

abbrev pub summarize : GrantInput → ℕ → ManualGrantSummary
summarize input event_id = record {
  telegram_user_id = input.telegram_user_id;
  plan_code = input.plan_code;
  subscription_status = input.subscription_status;
  paid_through_at = input.paid_through_at;
  payment_reference = some input.payment_reference;
  note = input.note;
  kept_stripe_link = input.kept_stripe_link;
  manual_billing_event_id = event_id;
  operator_source = input.operator_source;
}

abbrev pub summarize_event : ManualBillingEvent → ManualGrantSummary
summarize_event e = record {
  telegram_user_id = e.telegram_user_id;
  plan_code = e.plan_code;
  subscription_status = e.subscription_status;
  paid_through_at = e.paid_through_at;
  payment_reference = e.payment_reference;
  note = e.note;
  kept_stripe_link = e.kept_stripe_link;
  manual_billing_event_id = e.id;
  operator_source = e.operator_source;
}

abbrev pub same_flag : Bool → Bool → Bool
same_flag true b = b
same_flag false b = not b

abbrev pub payload_matches_event : ManualBillingEvent → GrantInput → Bool
payload_matches_event e input =
    same_plan e.plan_code input.plan_code
    && (same_status e.subscription_status input.subscription_status
        && (opt_eq e.paid_through_at input.paid_through_at
            && (same_flag e.kept_stripe_link input.kept_stripe_link
                && opt_str_eq e.note input.note)))

abbrev pub is_unlinked : User → Bool
is_unlinked u =
    not (is_some u.stripe_customer_id || is_some u.stripe_subscription_id)
    && not (
        is_some u.trial_ends_at || (is_some u.current_period_start || is_some u.current_period_end))

abbrev pub user_matches_stored_event : User → ManualBillingEvent → Bool
user_matches_stored_event u e =
    same_plan u.plan_code e.plan_code
    && (same_status u.subscription_status e.subscription_status
        && (opt_eq u.paid_through_at e.paid_through_at && (e.kept_stripe_link || is_unlinked u)))

-- The row that `findOrCreateUserById` inserts, with the defaults of its columns.
abbrev pub new_user : ℕ → ℕ → User
new_user id now = record {
  id = id;
  plan_code = PlanCode.free;
  subscription_status = SubscriptionStatus.free;
  stripe_customer_id = none;
  stripe_subscription_id = none;
  trial_ends_at = none;
  current_period_start = none;
  current_period_end = none;
  paid_through_at = none;
  updated_at = now;
}

unfoldable pub find_or_create_user_by_id : ℕ → ℕ → BillingTables → BillingTables
find_or_create_user_by_id id now t =
    if is_some (find_user_by_id t.db id)
    then t
    else record t { db = record t.db { users = t.db.users ++ new_user id now ∷ [] } }

abbrev pub is_paid_by : String → ManualBillingEvent → Bool
is_paid_by reference e = is_text e.payment_reference reference

unfoldable pub find_by_user_and_reference : BillingTables → ℕ → String → Option ManualBillingEvent
find_by_user_and_reference t user reference =
    find? (λ e. (e.telegram_user_id == user) && is_paid_by reference e) t.manual_events

unfoldable pub find_any_by_reference : BillingTables → String → Option ManualBillingEvent
find_any_by_reference t reference = find? (is_paid_by reference) t.manual_events

-- `a ?? b`, where `b` is another search.
abbrev pub or_event :
    Option ManualBillingEvent → Option ManualBillingEvent → Option ManualBillingEvent
or_event none b = b
or_event (some a) b = some a

-- `findOrCreateManualBillingEvent`: the tables with the new event, or the event in its way.
unfoldable pub find_or_create_manual_event :
    BillingTables → GrantInput → ℕ → BillingTables × Option ManualBillingEvent × Bool
find_or_create_manual_event t input id =
    if any (is_paid_by input.payment_reference) t.manual_events
    then (
      t,
      or_event (find_by_user_and_reference t input.telegram_user_id input.payment_reference)
          (find_any_by_reference t input.payment_reference),
      false,
    )
    else (
      record t { manual_events = event_of input id ∷ t.manual_events },
      some (event_of input id),
      true,
    )

-- An event of the user with the same reference.
abbrev pub replay :
    GrantInput → ℕ → BillingTables → User → ManualBillingEvent → BillingTables × GrantResult
replay input now t user event =
    if not (payload_matches_event event input)
    then (t, refused payment_reference_conflict)
    else if user_matches_stored_event user event
    then (t, replayed false (summarize_event event))
    else (
      update_user input.telegram_user_id (patched input now) t,
      replayed true (summarize_event event),
    )

-- The event in the way of an insert; where there is none, an error rolls back. That the searches find
-- two events, which they throw at, is what the unique indexes exclude.
abbrev pub blocked :
    GrantInput
    → ℕ
    → BillingTables
    → BillingTables
    → User
    → Option ManualBillingEvent
    → BillingTables × GrantResult
blocked input now before t user none = (before, race_lost)
blocked input now before t user (some event) =
    if not (event.telegram_user_id == input.telegram_user_id)
    then (t, refused payment_reference_conflict)
    else replay input now t user event

abbrev pub is_stale_page : GrantInput → User → Bool
is_stale_page input user = elim input.expected_updated_at [
  | none ↦ false
  | some seen ↦ not (user.updated_at == seen)
]

-- What follows the insert. The tables before the transaction are those that a stale page rolls back
-- to.
abbrev pub after_insert :
    GrantInput
    → ℕ
    → ℕ
    → BillingTables
    → User
    → BillingTables × Option ManualBillingEvent × Bool
    → BillingTables × GrantResult
after_insert input id now before user (t, event, false) = blocked input now before t user event
after_insert input id now before user (t, event, true) =
    if is_stale_page input user
    then (before, refused concurrent_update)
    else (update_user input.telegram_user_id (patched input now) t, granted (summarize input id))

abbrev pub grant_new :
    GrantInput → ℕ → ℕ → BillingTables → BillingTables → User → BillingTables × GrantResult
grant_new input id now before t user =
    after_insert input id now before user (find_or_create_manual_event t input id)

abbrev pub grant_to :
    GrantInput → ℕ → ℕ → BillingTables → BillingTables → Option User → BillingTables × GrantResult
grant_to input id now before t none = (t, refused user_not_found)
grant_to input id now before t (some user) =
    elim (find_by_user_and_reference t input.telegram_user_id input.payment_reference) [
      | some event ↦ replay input now t user event
      | none ↦ grant_new input id now before t user
    ]

unfoldable pub grant_transaction : GrantInput → ℕ → ℕ → BillingTables → BillingTables × GrantResult
grant_transaction input id now t =
    let t' = find_or_create_user_by_id input.telegram_user_id now t in
    grant_to input id now t t' (find_user_by_id t'.db input.telegram_user_id)

unfoldable pub grant_manual_user_plan :
    TextOps → (String → ℕ) → GrantInput → ℕ → ℕ → BillingTables → BillingTables × GrantResult
grant_manual_user_plan ops length_of raw id now t =
    let input = normalize_plan_input ops raw in
    elim (validate_plan_input length_of input) [
      | some code ↦ (t, refused code)
      | none ↦ grant_transaction input id now t
    ]
