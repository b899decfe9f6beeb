-- ===== src/Billing/Events.antt =====
-- src/billing/webhooks.ts: the handlers of Stripe's events. `now` is the clock, `prices` the
-- configured price ids.
pub mod Replay
pub mod Granted
use email_to_telegram.Base.{
  ℕ, String, Bool, true, false, not, ◌&&◌, ◌||◌, Option, none, some, List, [], ◌∷◌, str_eq,
  insert_new, is_truthy, is_text, if◌then◌else◌,
}
use email_to_telegram.Billing.Plans.{PlanCode}
use email_to_telegram.Billing.Webhooks.{
  BillingTables, StripeSubscription, StripeInvoice, StripeEvent, checkout_completed,
  subscription_event, payment_succeeded, payment_failed, other_event, WebhookResult, processed,
  duplicate, ignored, StripePriceIds, resolve_plan, map_stripe_subscription_status,
  can_replace_stripe_subscription, find_subject, locked, should_ignore_stripe_update, or_customer,
  update_user, to_ms, later, paid_through,
}
use email_to_telegram.Store.Rows.{User}

-- `recordBillingWebhookEvent`
abbrev pub record_event : String → BillingTables → BillingTables × Bool
record_event id t =
    let (events, inserted) = insert_new (λ e. str_eq e id) id t.webhook_events in
    (record t { webhook_events = events }, inserted)

module _ (prices : Option StripePriceIds) (now : ℕ) where
  abbrev pub linked_customer : Option String → User → User
  linked_customer customer u = record u {
    stripe_customer_id = or_customer customer u.stripe_customer_id;
    updated_at = now;
  }

  abbrev pub complete_checkout :
      Option String → BillingTables → Option User → BillingTables × WebhookResult
  complete_checkout customer t none = (t, ignored)
  complete_checkout customer t (some u) =
      if should_ignore_stripe_update t u none customer
      then (t, ignored)
      else (update_user u.id (linked_customer customer) t, processed)

  -- What an event of a subscription writes.
  abbrev pub subscribed : StripeSubscription → PlanCode → User → User
  subscribed s plan u = record u {
    plan_code = plan;
    subscription_status = map_stripe_subscription_status s.status;
    stripe_customer_id = or_customer s.customer u.stripe_customer_id;
    stripe_subscription_id = some s.id;
    trial_ends_at = to_ms s.trial_end;
    current_period_start = to_ms s.current_period_start;
    current_period_end = to_ms s.current_period_end;
    updated_at = now;
  }

  abbrev pub subscribe :
      StripeSubscription → BillingTables → User → Option PlanCode → BillingTables × WebhookResult
  subscribe s t u none = (t, ignored)
  subscribe s t u (some plan) = (update_user u.id (subscribed s plan) t, processed)

  -- A subscription that would take another's place, which it may only where that one is over.
  abbrev pub is_replacing : Bool → StripeSubscription → User → Bool
  is_replacing created s u =
      is_truthy u.stripe_subscription_id
      && (not (is_text u.stripe_subscription_id s.id)
          && (not created || not (can_replace_stripe_subscription u.subscription_status)))

  abbrev pub apply_to :
      Bool → StripeSubscription → BillingTables → Option User → BillingTables × WebhookResult
  apply_to created s t none = (t, ignored)
  apply_to created s t (some u) =
      if should_ignore_stripe_update t u (some s.id) s.customer || is_replacing created s u
      then (t, ignored)
      else subscribe s t u (resolve_plan prices s.price_id)

  abbrev pub paid : ℕ → User → User
  paid until u = record u {
    paid_through_at = some (later u.paid_through_at until);
    updated_at = now;
  }

  abbrev pub pay : BillingTables → User → Option ℕ → BillingTables × WebhookResult
  pay t u none = (t, ignored)
  pay t u (some until) = (update_user u.id (paid until) t, processed)

  -- The invoice is of the user's own subscription.
  abbrev pub own_end : StripeInvoice → User → Option String → Option ℕ
  own_end i u none = none
  own_end i u (some subscription) =
      if not (str_eq subscription "") && is_text u.stripe_subscription_id subscription
      then to_ms (paid_through subscription i.lines)
      else none

  abbrev pub apply_payment :
      StripeInvoice → BillingTables → Option User → BillingTables × WebhookResult
  apply_payment i t none = (t, ignored)
  apply_payment i t (some u) =
      if should_ignore_stripe_update t u i.subscription i.customer
      then (t, ignored)
      else pay t u (own_end i u i.subscription)

  unfoldable pub apply_event : StripeEvent → BillingTables → BillingTables × WebhookResult
  apply_event (checkout_completed telegram customer) t =
      complete_checkout customer t (locked t.db (find_subject t.db telegram customer none))
  apply_event (subscription_event created s) t =
      apply_to created s t
        (locked t.db (find_subject t.db s.telegram_user_id s.customer (some s.id)))
  apply_event (payment_succeeded i) t =
      apply_payment i t
        (locked t.db (find_subject t.db i.telegram_user_id i.customer i.subscription))
  apply_event (payment_failed i) t = (t, ignored)
  apply_event other_event t = (t, ignored)

  abbrev pub if_new : StripeEvent → BillingTables × Bool → BillingTables × WebhookResult
  if_new event (t, true) = apply_event event t
  if_new event (t, false) = (t, duplicate)

  -- The transaction where no statement throws.
  unfoldable pub process_stripe_webhook_event :
      String → StripeEvent → BillingTables → BillingTables × WebhookResult
  unfolding apply_event
  process_stripe_webhook_event id event t = if_new event (record_event id t)

  -- The same where a statement may throw, which rolls the transaction back; `none` is the error that
  -- Stripe is answered with.
  unfoldable pub run_webhook :
      Bool → String → StripeEvent → BillingTables → BillingTables × Option WebhookResult
  unfolding process_stripe_webhook_event
  run_webhook throws id event t =
      let (after, result) = process_stripe_webhook_event id event t in
      if throws then (t, none) else (after, some result)

-- A delivery of an event.
pub record StripeDelivery : Type 0 where
  pub now : ℕ
  pub event_id : String
  pub event : StripeEvent
  pub throws : Bool

-- The deliveries in turn.
unfoldable pub run_webhooks :
    Option StripePriceIds → List StripeDelivery → BillingTables → BillingTables
unfolding run_webhook
run_webhooks prices [] t = t
run_webhooks prices (d ∷ rest) t =
    run_webhooks prices rest (run_webhook prices d.now d.throws d.event_id d.event t).0
