-- ===== src/Billing/Limits/Laws.antt =====
-- What the checks of src/billing/limits.ts let through.
use email_to_telegram.Base.{
  ℕ, ◌+◌, ◌≤◌, ◌<◌, ◌≡◌, ◌≢◌, ◌↔◌, ◌⊎◌, inl, inr, String, true, Option, none, some, arith, refl,
  sym, ◌∙◌, Bool-cases, leb, leb→le,
}
use email_to_telegram.Billing.Plans.{PlanCode, SubscriptionStatus, PlanDefinition}
use email_to_telegram.Billing.Limits.{
  within_limit, past_due_grace_ms, InboundPlan, check_inbound_limit_for_plan, check_message,
  check_inbound_user, effective_plan_code, paid_plan_code,
}
use email_to_telegram.Store.Rows.{Db, User}
use email_to_telegram.Store.Usage.{
  get_user_usage_month, get_user_storage_usage, stored_bytes, delivered_count_of,
}

-- A subscription that pays for its plan at a time: running, or past due within the grace period
-- that follows the day it is paid for.
abbrev pub IsPaying : ℕ → SubscriptionStatus → Option ℕ → Type 0
IsPaying now status paid =
    (status ≡ SubscriptionStatus.trialing)
    ⊎ ((status ≡ SubscriptionStatus.active)
        ⊎ ((status ≡ SubscriptionStatus.past_due)
            × ((t : ℕ) × (paid ≡ some t) × (now ≤ t + past_due_grace_ms))))

-- The plans that are bought; `free` and `business` are not.
abbrev pub IsBought : PlanCode → Type 0
IsBought code = (code ≢ PlanCode.free) × (code ≢ PlanCode.business)

-- What an optional number must keep below.
abbrev pub AtMost : Option ℕ → ℕ → Type 0
AtMost none n = Unit
AtMost (some m) n = m ≤ n

-- A storage delta of 0, or none, is not held against the limit.
abbrev pub Fits : ℕ → Option ℕ → ℕ → Type 0
Fits current none limit = Unit
Fits current (some delta) limit = (delta ≡ 0) ⊎ (current + delta ≤ limit)

message-within_iff :
    (plan : PlanDefinition) (current : ℕ) (size delta : Option ℕ) (used : ℕ)
    → (check_message plan current size delta used ≡ within_limit) ↔ (
        AtMost size plan.limits.max_message_bytes
        × Fits current delta plan.limits.storage_bytes
        × (used < plan.limits.delivered_emails_month))
unfolding check_message
message-within_iff plan current none none used = ground arith
message-within_iff plan current none (some d) used = ground arith
message-within_iff plan current (some s) none used = ground arith
message-within_iff plan current (some s) (some d) used = ground arith

-- What the checks leave to an accepted mail, for the owner that was read.
abbrev pub HasRoom : Db → Option User → PlanDefinition → Option ℕ → Option ℕ → String → Type 0
HasRoom db none plan size delta month = ⊥
HasRoom db (some user) plan size delta month =
    AtMost size plan.limits.max_message_bytes
    × Fits (stored_bytes (get_user_storage_usage db user.id)) delta plan.limits.storage_bytes
    × (delivered_count_of (get_user_usage_month db user.id month)
        < plan.limits.delivered_emails_month)

user-within_iff :
    (db : Db) (user : Option User) (plan : PlanDefinition) (size delta : Option ℕ) (month : String)
    → (check_inbound_user db user plan size delta month ≡ within_limit)
      ↔ HasRoom db user plan size delta month
unfolding check_inbound_user
user-within_iff db none plan size delta month = (λ h. cc, λ h. absurd h)
user-within_iff db (some user) plan size delta month = message-within_iff plan _ size delta _

-- In hosted mode a mail is let in exactly when its owner exists, the message is not too large, it
-- fits into the storage that is left, and the month's count is below the plan's limit.
pub inbound-within_iff :
    (db : Db) (inbound : InboundPlan) (size delta : Option ℕ) (month : String)
    → inbound.hosted ≡ true
    → (check_inbound_limit_for_plan db inbound size delta month ≡ within_limit)
      ↔ HasRoom db inbound.user inbound.plan size delta month
unfolding check_inbound_limit_for_plan
inbound-within_iff db inbound size delta month h =
    rw h (user-within_iff db inbound.user inbound.plan size delta month)

effective_bought :
    (now : ℕ) (code : PlanCode) (status : SubscriptionStatus) (paid : Option ℕ)
    → IsBought code
    → effective_plan_code now code status paid ≡ paid_plan_code now code status paid
unfolding effective_plan_code
effective_bought now code status paid h = ground arith

pays→code :
    (now : ℕ) (code : PlanCode) (status : SubscriptionStatus) (paid : Option ℕ)
    → IsPaying now status paid
    → paid_plan_code now code status paid ≡ code
unfolding paid_plan_code
pays→code now code status paid (inl e) = rw e
pays→code now code status paid (inr (inl e)) = rw e
pays→code now code status paid (inr (inr (e, (t, p, h)))) = rw (e, p) (ground arith)

not_paying→free :
    (now : ℕ) (code : PlanCode) (status : SubscriptionStatus) (paid : Option ℕ)
    → ¬ IsPaying now status paid
    → paid_plan_code now code status paid ≡ PlanCode.free
unfolding paid_plan_code
not_paying→free now code SubscriptionStatus.trialing paid h = absurd (h (inl refl))
not_paying→free now code SubscriptionStatus.active paid h = absurd (h (inr (inl refl)))
not_paying→free now code SubscriptionStatus.past_due none h = refl
not_paying→free now code SubscriptionStatus.past_due (some t) h =
    elim (Bool-cases (leb now (t + past_due_grace_ms))) [
      | inl e ↦ absurd (h (inr (inr (refl, (t, refl, leb→le _ _ e)))))
      | inr e ↦ rw e
    ]
not_paying→free now code _ paid h = refl

-- Whether a subscription pays is decided by its status and the day.
IsPaying-cases :
    (now : ℕ) (status : SubscriptionStatus) (paid : Option ℕ)
    → IsPaying now status paid ⊎ ¬ IsPaying now status paid
IsPaying-cases now SubscriptionStatus.trialing paid = inl (inl refl)
IsPaying-cases now SubscriptionStatus.active paid = inl (inr (inl refl))
IsPaying-cases now SubscriptionStatus.past_due none = inr (λ h. ground arith)
IsPaying-cases now SubscriptionStatus.past_due (some t) =
    elim (Bool-cases (leb now (t + past_due_grace_ms))) [
      | inl e ↦ inl (inr (inr (refl, (t, refl, leb→le _ _ e))))
      | inr e ↦ inr (λ h. ground arith)
    ]
IsPaying-cases now _ paid = inr (λ h. ground arith)

pays-cases :
    (now : ℕ) (code : PlanCode) (status : SubscriptionStatus) (paid : Option ℕ)
    → (IsPaying now status paid × (paid_plan_code now code status paid ≡ code))
      ⊎ ((¬ IsPaying now status paid) × (paid_plan_code now code status paid ≡ PlanCode.free))
pays-cases now code status paid = elim (IsPaying-cases now status paid) [
  | inl p ↦ inl (p, pays→code now code status paid p)
  | inr n ↦ inr (n, not_paying→free now code status paid n)
]

-- A bought plan governs exactly while its subscription pays for it: where it does not, the free
-- plan does.
pub effective-bought_iff :
    (now : ℕ) (code : PlanCode) (status : SubscriptionStatus) (paid : Option ℕ)
    → IsBought code
    → ((effective_plan_code now code status paid ≡ code) ↔ IsPaying now status paid)
      × ((effective_plan_code now code status paid ≡ PlanCode.free) ↔ ¬ IsPaying now status paid)
effective-bought_iff now code status paid b = elim (pays-cases now code status paid) [
  | inl (p, e) ↦
      let governs : effective_plan_code now code status paid ≡ code =
        effective_bought now code status paid b ∙ e in
      ((λ h. p, λ h. governs), (λ h. absurd (b.0 (sym governs ∙ h)), λ h. absurd (h p)))
  | inr (n, e) ↦
      let governs : effective_plan_code now code status paid ≡ PlanCode.free =
        effective_bought now code status paid b ∙ e in
      ((λ h. absurd (b.0 (sym h ∙ governs)), λ h. absurd (n h)), (λ h. n, λ h. governs))
]
