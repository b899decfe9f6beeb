-- ===== src/Billing/Manual/Grant/Row.antt =====
-- The row that a grant (src/billing/manual.ts) leaves a user with.
use email_to_telegram.Base.{
  ℕ, true, Option, none, some, ◌≡◌, refl, ◌⊎◌, inl, inr, arith, ==_refl, opt_eq, Bool-cases,
}
use email_to_telegram.Billing.Plans.{PlanCode, SubscriptionStatus}
use email_to_telegram.Billing.Manual.{GrantInput, same_plan, same_status, plan_no, status_no}
use email_to_telegram.Billing.Manual.Grant.{
  patched, event_of, is_unlinked, user_matches_stored_event,
}
use email_to_telegram.Store.Rows.{User}

-- Nothing of Stripe is on the row.
pub record HasNoStripe (u : User) : Type 0 where
  pub customer : u.stripe_customer_id ≡ none
  pub subscription : u.stripe_subscription_id ≡ none
  pub trial : u.trial_ends_at ≡ none
  pub period_start : u.current_period_start ≡ none
  pub period_end : u.current_period_end ≡ none

-- The row has what the input grants, and nothing of Stripe unless the input keeps its link.
pub record HasGrant (input : GrantInput) (u : User) : Type 0 where
  pub plan : u.plan_code ≡ input.plan_code
  pub status : u.subscription_status ≡ input.subscription_status
  pub paid_through : u.paid_through_at ≡ input.paid_through_at
  pub link : (input.kept_stripe_link ≡ true) ⊎ HasNoStripe u

pub opt_eq_refl : (o : Option ℕ) → opt_eq o o ≡ true
opt_eq_refl none = refl
opt_eq_refl (some n) = ==_refl n

unlinked-HasNoStripe : (u : User) → is_unlinked u ≡ true → HasNoStripe u
unlinked-HasNoStripe u h = record {
  customer = ground (arith, h);
  subscription = ground (arith, h);
  trial = ground (arith, h);
  period_start = ground (arith, h);
  period_end = ground (arith, h);
}

pub patched-HasGrant :
    (input : GrantInput) (now : ℕ) (u : User) → HasGrant input (patched input now u)
patched-HasGrant input now u = record {
  plan = refl;
  status = refl;
  paid_through = refl;
  link = elim (Bool-cases input.kept_stripe_link) [
    | inl kept ↦ inl kept
    | inr unkept ↦ inr (
        rw unkept (record {
          customer = refl;
          subscription = refl;
          trial = refl;
          period_start = refl;
          period_end = refl;
        }))
  ];
}

plan-eq : (a b : PlanCode) → same_plan a b ≡ true → a ≡ b
plan-eq a b h = ground (arith, h)

status-eq : (a b : SubscriptionStatus) → same_status a b ≡ true → a ≡ b
status-eq a b h = ground (arith, h)

time-eq : (a b : Option ℕ) → opt_eq a b ≡ true → a ≡ b
time-eq a b h = ground (arith, h)

pub matches-HasGrant :
    (input : GrantInput) (id : ℕ) (u : User)
    → user_matches_stored_event u (event_of input id) ≡ true
    → HasGrant input u
matches-HasGrant input id u h = record {
  plan = plan-eq u.plan_code input.plan_code (ground (arith, h));
  status = status-eq u.subscription_status input.subscription_status (ground (arith, h));
  paid_through = time-eq u.paid_through_at input.paid_through_at (ground (arith, h));
  link = elim (Bool-cases input.kept_stripe_link) [
    | inl kept ↦ inl kept
    | inr unkept ↦ inr (unlinked-HasNoStripe u (ground (arith, rw unkept at h)))
  ];
}

HasNoStripe-unlinked : (u : User) → HasNoStripe u → is_unlinked u ≡ true
HasNoStripe-unlinked u h =
    rw (h.customer, h.subscription, h.trial, h.period_start, h.period_end) refl

pub HasGrant-matches :
    (input : GrantInput) (id : ℕ) (u : User)
    → HasGrant input u
    → user_matches_stored_event u (event_of input id) ≡ true
HasGrant-matches input id u h =
    rw
      (
        h.plan,
        h.status,
        h.paid_through,
        ==_refl (plan_no input.plan_code),
        ==_refl (status_no input.subscription_status),
        opt_eq_refl input.paid_through_at,
      )
      (elim h.link [
        | inl kept ↦ rw kept refl
        | inr bare ↦ ground (arith, HasNoStripe-unlinked u bare)
      ])
