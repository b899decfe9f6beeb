-- ===== src/Billing/Events/Granted.antt =====
-- A plan that an operator granted to a user who is not linked to Stripe, and
-- src/billing/webhooks.ts.
use mathlib.Core.Bool.{false≢true}
use email_to_telegram.Base.{
  ℕ, String, Bool, true, false, ◌||◌, Option, none, some, ◌≡◌, ◌≢◌, refl, ap, sym, ◌∙◌, arith, ◌==◌,
  ==_iff, Option-cases, inl, inr, if-split, find?-update_other, find?-passes,
}
use email_to_telegram.Billing.Plans.{PlanCode}
use email_to_telegram.Billing.Webhooks.{
  WebhookResult, BillingTables, StripeEvent, StripeSubscription, StripeInvoice, checkout_completed,
  subscription_event, payment_succeeded, payment_failed, other_event, StripePriceIds, update_user,
  resolve_plan, is_linked, is_free, should_ignore_stripe_update, locked,
}
use email_to_telegram.Billing.Events.{
  complete_checkout, subscribe, apply_to, pay, apply_payment, own_end, apply_event, record_event,
  if_new, is_replacing, linked_customer, subscribed, paid, process_stripe_webhook_event,
}
use email_to_telegram.Store.Rows.{User}
use email_to_telegram.Store.Users.{find_user_by_id}

-- The user has a plan without a link to Stripe.
pub record IsGranted (id : ℕ) (u : User) (t : BillingTables) : Type 0 where
  pub found : find_user_by_id t.db id ≡ some u
  pub unlinked : is_linked u ≡ false
  pub has_plan : is_free u.plan_code ≡ false

-- The users that an event may be about: none, or one that a locked read found.
abbrev IsLocked : BillingTables → Option User → Type 0
IsLocked t none = Unit
IsLocked t (some v) = find_user_by_id t.db v.id ≡ some v

locked-IsLocked : (t : BillingTables) (o : Option User) → IsLocked t (locked t.db o)
unfolding find_user_by_id
locked-IsLocked t none = tt
locked-IsLocked t (some v) = elim (Option-cases (find_user_by_id t.db v.id)) [
  | inl e ↦ rw e tt
  | inr (u, e) ↦
      let same : u.id ≡ v.id =
        (==_iff _ _).0 (find?-passes (λ (x : User). x.id == v.id) t.db.users e) in
      rw e (ap (find_user_by_id t.db) same ∙ e)
]

or-left : (a b : Bool) → (a || b) ≡ false → a ≡ false
or-left true b h = h
or-left false b h = refl

module _ (prices : Option StripePriceIds) (now : ℕ) (id : ℕ) (u : User) where
  ignored-granted :
      (t : BillingTables) (subscription customer : Option String)
      → IsGranted id u t
      → should_ignore_stripe_update t u subscription customer ≡ true
  unfolding should_ignore_stripe_update
  ignored-granted t subscription customer g = rw (g.unlinked, g.has_plan) refl

  -- An update of another user.
  other-IsGranted :
      (v : User) (f : User → User) (t : BillingTables)
      → v.id ≢ id
      → ((x : User) → (f x).id ≡ x.id)
      → IsGranted id u t
      → IsGranted id u (update_user v.id f t)
  unfolding update_user find_user_by_id
  other-IsGranted v f t apart keep g = record {
    found =
        find?-update_other (λ (x : User). x.id == v.id) (λ (x : User). x.id == id) f t.db.users
          (λ x h. ground (arith, apart)) (λ x. ap (λ k. k == id) (keep x))
        ∙ g.found;
    unlinked = g.unlinked;
    has_plan = g.has_plan;
  }

  -- A locked user whose update is not ignored is another one.
  not_ignored-apart :
      (t : BillingTables) (v : User) (subscription customer : Option String)
      → IsGranted id u t
      → IsLocked t (some v)
      → should_ignore_stripe_update t v subscription customer ≡ false
      → v.id ≢ id
  not_ignored-apart t v subscription customer g l h same =
      let both : some v ≡ some u = sym l ∙ ap (find_user_by_id t.db) same ∙ g.found in
      let it : v ≡ u = cc in
      false≢true (
        sym h
        ∙ ap (λ x. should_ignore_stripe_update t x subscription customer) it
        ∙ ignored-granted t subscription customer g)

  checkout-IsGranted :
      (customer : Option String) (t : BillingTables) (o : Option User)
      → IsLocked t o
      → IsGranted id u t
      → IsGranted id u (complete_checkout prices now customer t o).0
  checkout-IsGranted customer t none l g = g
  checkout-IsGranted customer t (some v) l g =
      if-split (λ (r : BillingTables × WebhookResult). IsGranted id u r.0)
        (should_ignore_stripe_update t v none customer) (λ e. g)
        (λ e.
          other-IsGranted v (linked_customer prices now customer) t
            (not_ignored-apart t v none customer g l e) (λ x. refl) g)

  subscribe-IsGranted :
      (s : StripeSubscription) (t : BillingTables) (v : User) (plan : Option PlanCode)
      → v.id ≢ id
      → IsGranted id u t
      → IsGranted id u (subscribe prices now s t v plan).0
  subscribe-IsGranted s t v none apart g = g
  subscribe-IsGranted s t v (some plan) apart g =
      other-IsGranted v (subscribed prices now s plan) t apart (λ x. refl) g

  apply-IsGranted :
      (created : Bool) (s : StripeSubscription) (t : BillingTables) (o : Option User)
      → IsLocked t o
      → IsGranted id u t
      → IsGranted id u (apply_to prices now created s t o).0
  apply-IsGranted created s t none l g = g
  apply-IsGranted created s t (some v) l g =
      if-split (λ (r : BillingTables × WebhookResult). IsGranted id u r.0)
        (should_ignore_stripe_update t v (some s.id) s.customer
          || is_replacing prices now created s v)
        (λ e. g)
        (λ e.
          subscribe-IsGranted s t v (resolve_plan prices s.price_id)
            (not_ignored-apart t v (some s.id) s.customer g l (or-left _ _ e)) g)

  pay-IsGranted :
      (t : BillingTables) (v : User) (until : Option ℕ)
      → v.id ≢ id
      → IsGranted id u t
      → IsGranted id u (pay prices now t v until).0
  pay-IsGranted t v none apart g = g
  pay-IsGranted t v (some until) apart g =
      other-IsGranted v (paid prices now until) t apart (λ x. refl) g

  payment-IsGranted :
      (i : StripeInvoice) (t : BillingTables) (o : Option User)
      → IsLocked t o
      → IsGranted id u t
      → IsGranted id u (apply_payment prices now i t o).0
  payment-IsGranted i t none l g = g
  payment-IsGranted i t (some v) l g =
      if-split (λ (r : BillingTables × WebhookResult). IsGranted id u r.0)
        (should_ignore_stripe_update t v i.subscription i.customer) (λ e. g)
        (λ e.
          pay-IsGranted t v (own_end prices now i v i.subscription)
            (not_ignored-apart t v i.subscription i.customer g l e) g)

  event-IsGranted :
      (event : StripeEvent) (t : BillingTables)
      → IsGranted id u t
      → IsGranted id u (apply_event prices now event t).0
  unfolding apply_event
  event-IsGranted (checkout_completed telegram customer) t g =
      checkout-IsGranted customer t _ (locked-IsLocked t _) g
  event-IsGranted (subscription_event created s) t g =
      apply-IsGranted created s t _ (locked-IsLocked t _) g
  event-IsGranted (payment_succeeded i) t g = payment-IsGranted i t _ (locked-IsLocked t _) g
  event-IsGranted (payment_failed i) t g = g
  event-IsGranted other_event t g = g

  if_new-IsGranted :
      (event : StripeEvent) (r : BillingTables × Bool)
      → IsGranted id u r.0
      → IsGranted id u (if_new prices now event r).0
  if_new-IsGranted event (t, true) g = event-IsGranted event t g
  if_new-IsGranted event (t, false) g = g

  -- A plan that an operator granted is safe from Stripe: no event, whatever it says and whomever it
  -- names, changes the row of a user who has a plan and no link to Stripe.
  pub process-IsGranted :
      (event_id : String) (event : StripeEvent) (t : BillingTables)
      → IsGranted id u t
      → IsGranted id u (process_stripe_webhook_event prices now event_id event t).0
  unfolding process_stripe_webhook_event
  process-IsGranted event_id event t g =
      if_new-IsGranted event (record_event event_id t)
        (record { found = g.found; unlinked = g.unlinked; has_plan = g.has_plan })
