-- ===== src/Billing/Manual/Grant/Kept.antt =====
-- A grant of src/billing/manual.ts, and the events of Stripe that come after it
-- (src/billing/webhooks.ts).
use email_to_telegram.Base.{ℕ, String, true, false, Option, some, ◌≡◌, refl, TextOps, List, [], ◌∷◌}
use email_to_telegram.Billing.Webhooks.{BillingTables, StripeEvent, StripePriceIds, is_free}
use email_to_telegram.Billing.Events.{process_stripe_webhook_event}
use email_to_telegram.Billing.Events.Granted.{IsGranted, process-IsGranted}
use email_to_telegram.Billing.Manual.{GrantInput, normalize_plan_input}
use email_to_telegram.Billing.Manual.Grant.{patched, grant_manual_user_plan}
use email_to_telegram.Billing.Manual.Grant.Granted.{
  with_user, after_grant, is_granted, grant-IsNewGrant,
}
use email_to_telegram.Billing.Manual.Grant.Row.{HasGrant, patched-HasGrant}
use email_to_telegram.Billing.Manual.Grant.Replay.{after-found}
use email_to_telegram.Store.Rows.{User}
use email_to_telegram.Store.Users.{find_user_by_id}

-- The events of Stripe in turn, each with its time and its id.
abbrev pub process_all :
    Option StripePriceIds → List (ℕ × String × StripeEvent) → BillingTables → BillingTables
process_all prices [] t = t
process_all prices ((now, event_id, event) ∷ events) t =
    process_all prices events (process_stripe_webhook_event prices now event_id event t).0

process_all-IsGranted :
    (prices : Option StripePriceIds) (id : ℕ) (u : User) (events : List (ℕ × String × StripeEvent))
    (t : BillingTables)
    → IsGranted id u t
    → IsGranted id u (process_all prices events t)
process_all-IsGranted prices id u [] t g = g
process_all-IsGranted prices id u ((now, event_id, event) ∷ events) t g =
    process_all-IsGranted prices id u events
      (process_stripe_webhook_event prices now event_id event t).0
      (process-IsGranted prices now id u event_id event t g)

after_grant-IsGranted :
    (input : GrantInput) (id now : ℕ) (t : BillingTables) (user : User)
    → find_user_by_id (with_user input now t).db input.telegram_user_id ≡ some user
    → input.kept_stripe_link ≡ false
    → is_free input.plan_code ≡ false
    → IsGranted input.telegram_user_id (patched input now user) (after_grant input id now t)
after_grant-IsGranted input id now t user found unkept has_plan = record {
  found = after-found input id now t user found;
  unlinked = rw unkept refl;
  has_plan = has_plan;
}

-- What an operator grants without a link to Stripe stays granted: after a grant that went through, of
-- a plan other than the free one and without the kept link, the user's row has the plan, the status
-- and the paid time of the input and no id or time of Stripe, and it has them after any events of
-- Stripe that follow, whatever they say.
pub grant-kept :
    (ops : TextOps) (length_of : String → ℕ) (raw : GrantInput) (id now : ℕ) (t : BillingTables)
    (prices : Option StripePriceIds) (events : List (ℕ × String × StripeEvent))
    → let r = grant_manual_user_plan ops length_of raw id now t in
      is_granted r.1 ≡ true
      → raw.kept_stripe_link ≡ false
      → is_free raw.plan_code ≡ false
      → (user : User) × (find_user_by_id (process_all prices events r.0).db raw.telegram_user_id
          ≡ some user)
        × HasGrant raw user
grant-kept ops length_of raw id now t prices events h unkept has_plan =
    let (valid, g) = grant-IsNewGrant ops length_of raw id now t h in
    let input = normalize_plan_input ops raw in
    let safe : IsGranted raw.telegram_user_id (patched raw now g.user)
        (process_all prices events (grant_manual_user_plan ops length_of raw id now t).0) =
      rw g.tables_lem (
        process_all-IsGranted prices raw.telegram_user_id (patched raw now g.user) events
          (after_grant input id now t)
          (after_grant-IsGranted input id now t g.user g.found unkept has_plan)) in
    (patched raw now g.user, safe.found, patched-HasGrant raw now g.user)
