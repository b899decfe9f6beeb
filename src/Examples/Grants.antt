-- ===== src/Examples/Grants.antt =====
-- The theorems on manual grants, at a year that a user paid for.
use email_to_telegram.Base.{ℕ, ◌≡◌, refl, arith, String, false, true, none, some, [], ◌∷◌, ◌++◌}
use email_to_telegram.Billing.Plans.{PlanCode, SubscriptionStatus}
use email_to_telegram.Billing.Webhooks.{BillingTables, checkout_completed, update_user}
use email_to_telegram.Billing.Manual.{GrantInput, validate_plan_input, normalize_plan_input}
use email_to_telegram.Billing.Manual.Grant.{
  grant_manual_user_plan, grant_transaction, find_or_create_user_by_id, find_by_user_and_reference,
  find_or_create_manual_event, patched,
}
use email_to_telegram.Billing.Manual.Grant.Granted.{is_granted}
use email_to_telegram.Billing.Manual.Grant.Replay.{IsReplayed, grant-replay}
use email_to_telegram.Billing.Manual.Grant.Row.{HasGrant}
use email_to_telegram.Billing.Manual.Grant.Kept.{process_all, grant-kept}
use email_to_telegram.Billing.Manual.Grant.References.{
  IsUntouched, HasOneEventEach, is_refused, grant-IsUntouched, grant-HasOneEventEach,
}
use email_to_telegram.Store.Rows.{User}
use email_to_telegram.Store.Users.{find_user_by_id}
use email_to_telegram.Examples.Data.{tables, lower_ops, owner}

abbrev tables_before : BillingTables
tables_before = record { db = tables; webhook_events = []; manual_events = [] }

abbrev short : String → ℕ
short s = 5

abbrev year : GrantInput
year = record {
  telegram_user_id = 7;
  plan_code = PlanCode.team;
  subscription_status = SubscriptionStatus.active;
  paid_through_at = some 9000;
  payment_reference = "inv-1";
  note = none;
  kept_stripe_link = false;
  operator_source = "cli";
  expected_updated_at = none;
}

first_grant : is_granted (grant_manual_user_plan lower_ops short year 40 100 tables_before).1 ≡ true
unfolding grant_manual_user_plan grant_transaction validate_plan_input find_or_create_user_by_id
    find_user_by_id find_by_user_and_reference find_or_create_manual_event
first_grant = refl

-- The tables in which the plan was taken from the user after the grant.
abbrev taken_away : User → User
taken_away u = record u { plan_code = PlanCode.free }

abbrev drifted_tables : BillingTables
drifted_tables =
    update_user 7 taken_away (grant_manual_user_plan lower_ops short year 40 100 tables_before).0

drifted_events :
    drifted_tables.manual_events
    ≡ [] ++ (grant_manual_user_plan lower_ops short year 40 100 tables_before).0.manual_events
unfolding update_user
drifted_events = refl

drifted_user : find_user_by_id drifted_tables.db 7 ≡ some (taken_away (patched year 100 owner))
unfolding update_user find_user_by_id grant_manual_user_plan grant_transaction validate_plan_input
    find_or_create_user_by_id find_by_user_and_reference find_or_create_manual_event
drifted_user = refl

grant-replay_example :
    let again = grant_manual_user_plan lower_ops short year 41 200 drifted_tables in
    IsReplayed
      (normalize_plan_input lower_ops year)
      40
      (taken_away (patched year 100 owner))
      drifted_tables
      again.0
      again.1
grant-replay_example =
    grant-replay lower_ops short year 40 100 41 200 tables_before drifted_tables [] first_grant
      drifted_events refl drifted_user

grant-kept_example :
    (user : User) × (find_user_by_id
        (process_all none
          ((150, "evt_1", checkout_completed (some 7) (some "cus_1")) ∷ [])
          (grant_manual_user_plan lower_ops short year 40 100 tables_before).0).db
        7
      ≡ some user)
    × HasGrant year user
grant-kept_example =
    grant-kept lower_ops short year 40 100 tables_before none
      ((150, "evt_1", checkout_completed (some 7) (some "cus_1")) ∷ []) first_grant refl refl

-- The page shows the row of another time.
abbrev stale_year : GrantInput
stale_year = record year { expected_updated_at = some 3 }

stale_refusal :
    is_refused (grant_manual_user_plan lower_ops short stale_year 40 100 tables_before).1 ≡ true
unfolding grant_manual_user_plan grant_transaction validate_plan_input find_or_create_user_by_id
    find_user_by_id find_by_user_and_reference find_or_create_manual_event
stale_refusal = refl

grant-IsUntouched_example :
    IsUntouched tables_before
      (grant_manual_user_plan lower_ops short stale_year 40 100 tables_before).0
grant-IsUntouched_example =
    grant-IsUntouched lower_ops short stale_year 40 100 tables_before stale_refusal

no_events : HasOneEventEach tables_before
unfolding HasOneEventEach
no_events reference = omega arith

grant-HasOneEventEach_example :
    HasOneEventEach (grant_manual_user_plan lower_ops short year 40 100 tables_before).0
grant-HasOneEventEach_example =
    grant-HasOneEventEach lower_ops short year 40 100 tables_before no_events
