-- ===== src/Examples/Payments.antt =====
-- The theorems on Stripe's events, at an event that comes twice and at a user with a granted plan.
use email_to_telegram.Base.{none, some, refl, ◌≡◌, ◌↔◌, ◌||◌, List, [], ◌∷◌, true, false}
use email_to_telegram.Billing.Webhooks.{
  BillingTables, StripeSubscription, StripeStatus, StripePriceIds, subscription_event,
  checkout_completed, duplicate,
}
use email_to_telegram.Billing.Events.{
  process_stripe_webhook_event, StripeDelivery, run_webhook, run_webhooks,
}
use email_to_telegram.Billing.Events.Replay.{is_recorded, has_gone_through, process-replay}
use email_to_telegram.Billing.Events.Granted.{IsGranted, process-IsGranted}
use email_to_telegram.Store.Users.{find_user_by_id}
use email_to_telegram.Examples.Data.{tables, owner}

abbrev paying_tables : BillingTables
paying_tables = record { db = tables; webhook_events = []; manual_events = [] }

abbrev price_ids : StripePriceIds
price_ids = record {
  personal_monthly = "p1";
  personal_yearly = "p2";
  pro_monthly = "p3";
  pro_yearly = "p4";
  team_monthly = "p5";
  team_yearly = "p6";
}

-- A subscription that names the user, and was cancelled.
abbrev cancelled : StripeSubscription
cancelled = record {
  id = "sub_1";
  telegram_user_id = some 7;
  customer = some "cus_1";
  status = StripeStatus.canceled;
  price_id = some "p3";
  trial_end = none;
  current_period_start = some 1;
  current_period_end = some 2;
}

-- The first delivery throws, the second goes through.
abbrev two_deliveries : List StripeDelivery
two_deliveries =
    record {
      now = 50;
      event_id = "evt_1";
      event = checkout_completed (some 7) (some "cus_1");
      throws = true;
    }
    ∷ record {
      now = 55;
      event_id = "evt_1";
      event = checkout_completed (some 7) (some "cus_1");
      throws = false;
    }
    ∷ []

process-replay_example :
    let before = run_webhooks (some price_ids) two_deliveries paying_tables in
    let again =
      run_webhook (some price_ids) 60 false "evt_1" (subscription_event false cancelled) before in
    ((again.1 ≡ some duplicate)
      ↔ ((is_recorded "evt_1" paying_tables || has_gone_through "evt_1" two_deliveries) ≡ true))
    × (again.1 ≡ some duplicate → again.0 ≡ before)
process-replay_example =
    process-replay (some price_ids) 60 "evt_1" (subscription_event false cancelled) two_deliveries
      paying_tables

owner-IsGranted : IsGranted 7 owner paying_tables
unfolding find_user_by_id
owner-IsGranted = record { found = refl; unlinked = refl; has_plan = refl }

process-IsGranted_example :
    IsGranted 7 owner
      (process_stripe_webhook_event
        (some price_ids)
        60
        "evt_2"
        (subscription_event false cancelled)
        paying_tables).0
process-IsGranted_example =
    process-IsGranted (some price_ids) 60 7 owner "evt_2" (subscription_event false cancelled)
      paying_tables owner-IsGranted
