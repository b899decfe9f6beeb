-- ===== src/Billing/Webhooks.antt =====
-- src/billing/webhooks.ts, with resolvePlanFromStripePriceId of src/billing/stripe.ts and the writes
-- of src/db/repos/users.ts and billingWebhookEvents.ts: what Stripe's events do to a user's plan.
use email_to_telegram.Base.{
  ℕ, ◌*◌, String, Bool, true, false, not, ◌&&◌, ◌||◌, Option, none, some, List, [], ◌∷◌, ◌==◌, ltb,
  max, find?, update_where, is_some, is_truthy, is_text, str_eq, if◌then◌else◌,
}
use mathlib.Core.Option
use email_to_telegram.Billing.Plans.{PlanCode, SubscriptionStatus}
use email_to_telegram.Store.Rows.{Db, User}
use email_to_telegram.Store.Users.{
  find_user_by_id, find_user_by_stripe_customer_id, find_user_by_stripe_subscription_id,
}
use email_to_telegram.Store.Logs.{same_text}

-- `manual_billing_events`, whose order in its table stands for `created_at`.
pub record ManualBillingEvent : Type 0 where
  pub id : ℕ
  pub telegram_user_id : ℕ
  pub plan_code : PlanCode
  pub subscription_status : SubscriptionStatus
  pub paid_through_at : Option ℕ
  pub payment_reference : Option String
  pub note : Option String
  pub kept_stripe_link : Bool
  pub operator_source : String

-- The tables, with the ids of the events that were recorded and the manual events, newest first.
pub record BillingTables : Type 0 where
  pub db : Db
  pub webhook_events : List String
  pub manual_events : List ManualBillingEvent

-- `Stripe.Subscription.Status`; `unlisted` is any other text.
pub data StripeStatus : Type 0 where
  trialing active paused past_due canceled unpaid incomplete incomplete_expired unlisted :
      StripeStatus

pub record StripeSubscription : Type 0 where
  pub id : String
  pub telegram_user_id : Option ℕ
  pub customer : Option String
  pub status : StripeStatus
  pub price_id : Option String
  pub trial_end : Option ℕ
  pub current_period_start : Option ℕ
  pub current_period_end : Option ℕ

pub record InvoiceLine : Type 0 where
  pub subscription : Option String
  pub period_end : Option ℕ

pub record StripeInvoice : Type 0 where
  pub telegram_user_id : Option ℕ
  pub customer : Option String
  pub subscription : Option String
  pub lines : List InvoiceLine

-- `event.type` with what is read of `event.data.object`. The flag says that a subscription's event
-- is its creation.
pub data StripeEvent : Type 0 where
  checkout_completed : Option ℕ → Option String → StripeEvent
  subscription_event : Bool → StripeSubscription → StripeEvent
  payment_succeeded payment_failed : StripeInvoice → StripeEvent
  other_event : StripeEvent

pub data WebhookResult : Type 0 where
  processed duplicate ignored : WebhookResult

pub record StripePriceIds : Type 0 where
  pub personal_monthly : String
  pub personal_yearly : String
  pub pro_monthly : String
  pub pro_yearly : String
  pub team_monthly : String
  pub team_yearly : String

-- `resolvePlanFromStripePriceId`
abbrev pub plan_of_price : StripePriceIds → String → Option PlanCode
plan_of_price ids price =
    if str_eq ids.personal_monthly price || str_eq ids.personal_yearly price
    then some PlanCode.personal
    else if str_eq ids.pro_monthly price || str_eq ids.pro_yearly price
    then some PlanCode.pro
    else if str_eq ids.team_monthly price || str_eq ids.team_yearly price
    then some PlanCode.team
    else none

unfoldable pub resolve_plan : Option StripePriceIds → Option String → Option PlanCode
resolve_plan none price = none
resolve_plan (some ids) none = none
resolve_plan (some ids) (some price) = if str_eq price "" then none else plan_of_price ids price

abbrev pub map_stripe_subscription_status : StripeStatus → SubscriptionStatus
map_stripe_subscription_status trialing = SubscriptionStatus.trialing
map_stripe_subscription_status active = SubscriptionStatus.active
map_stripe_subscription_status paused = SubscriptionStatus.paused
map_stripe_subscription_status past_due = SubscriptionStatus.past_due
map_stripe_subscription_status canceled = SubscriptionStatus.canceled
map_stripe_subscription_status unpaid = SubscriptionStatus.unpaid
map_stripe_subscription_status incomplete = SubscriptionStatus.incomplete
map_stripe_subscription_status incomplete_expired = SubscriptionStatus.incomplete_expired
map_stripe_subscription_status unlisted = SubscriptionStatus.free

abbrev pub can_replace_stripe_subscription : SubscriptionStatus → Bool
can_replace_stripe_subscription SubscriptionStatus.free = true
can_replace_stripe_subscription SubscriptionStatus.canceled = true
can_replace_stripe_subscription SubscriptionStatus.incomplete_expired = true
can_replace_stripe_subscription _ = false

abbrev pub is_free : PlanCode → Bool
is_free PlanCode.free = true
is_free _ = false

abbrev pub is_business : PlanCode → Bool
is_business PlanCode.business = true
is_business _ = false

-- A row that was found, or the next search.
abbrev pub or_find : Option User → Option User → Option User
or_find none next = next
or_find (some u) next = some u

abbrev pub find_by_subscription : Db → Option String → Option User
find_by_subscription db none = none
find_by_subscription db (some id) =
    if str_eq id "" then none else find_user_by_stripe_subscription_id db id

abbrev pub find_by_customer : Db → Option String → Option User
find_by_customer db none = none
find_by_customer db (some id) = if str_eq id "" then none else find_user_by_stripe_customer_id db id

abbrev pub find_by_telegram : Db → Option ℕ → Option User
find_by_telegram db none = none
find_by_telegram db (some id) = find_user_by_id db id

-- `findUserForStripeSubject`
unfoldable pub find_subject : Db → Option ℕ → Option String → Option String → Option User
find_subject db telegram customer subscription =
    or_find (find_by_subscription db subscription)
      (or_find (find_by_customer db customer) (find_by_telegram db telegram))

abbrev pub locked : Db → Option User → Option User
locked db none = none
locked db (some u) = find_user_by_id db u.id

abbrev pub latest_manual_event : BillingTables → ℕ → Option ManualBillingEvent
latest_manual_event t user = find? (λ e. e.telegram_user_id == user) t.manual_events

abbrev pub granted_free : Option ManualBillingEvent → Bool
granted_free none = false
granted_free (some e) = is_free e.plan_code

abbrev pub kept_link : Option ManualBillingEvent → Bool
kept_link none = false
kept_link (some e) = e.kept_stripe_link

abbrev pub is_linked : User → Bool
is_linked u = is_truthy u.stripe_subscription_id || is_truthy u.stripe_customer_id

abbrev pub has_matching_id : User → Option String → Option String → Bool
has_matching_id u subscription customer =
    same_text u.stripe_subscription_id subscription || same_text u.stripe_customer_id customer

abbrev pub has_matching_text : User → Option String → Option String → Bool
has_matching_text u subscription customer =
    (is_truthy subscription && same_text u.stripe_subscription_id subscription)
    || (is_truthy customer && same_text u.stripe_customer_id customer)

unfoldable pub should_ignore_stripe_update :
    BillingTables → User → Option String → Option String → Bool
should_ignore_stripe_update t u subscription customer =
    if not (is_linked u) && (not (is_free u.plan_code) || granted_free (latest_manual_event t u.id))
    then true
    else if is_linked u
        && ((is_some subscription || is_some customer)
            && not (has_matching_id u subscription customer))
    then true
    else if not (is_business u.plan_code)
    then false
    else if not (has_matching_text u subscription customer)
    then true
    else kept_link (latest_manual_event t u.id)

-- `typeof customer === "string" ? customer : user.stripeCustomerId`
abbrev pub or_customer : Option String → Option String → Option String
or_customer none old = old
or_customer (some c) old = some c

-- `update users set f where id`
unfoldable pub update_user : ℕ → (User → User) → BillingTables → BillingTables
update_user id f t = record t {
  db = record t.db { users = update_where (λ u. u.id == id) f t.db.users };
}

-- Seconds, as milliseconds.
abbrev pub to_ms : Option ℕ → Option ℕ
to_ms seconds = Option.map (λ s. s * 1000) seconds

abbrev pub later : Option ℕ → ℕ → ℕ
later none t = t
later (some old) t = if ltb old t then t else old

-- The greatest period end of the lines of a subscription.
unfoldable pub paid_through : String → List InvoiceLine → Option ℕ
paid_through subscription [] = none
paid_through subscription (l ∷ rest) =
    let ends = paid_through subscription rest in
    if is_text l.subscription subscription then latest l.period_end ends else ends
  where
    latest : Option ℕ → Option ℕ → Option ℕ
    latest none ends = ends
    latest (some t) none = some t
    latest (some t) (some s) = some (max t s)
