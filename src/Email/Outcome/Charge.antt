-- ===== src/Email/Outcome/Charge.antt =====
-- The monthly counters that a delivery leaves (src/billing/usageRefund.ts): the mail that was counted
-- when it was accepted is taken off again where the delivery is closed as failed.
use text.Mathlib.TextEquality.{eq_iff}
use mathlib.Core.Option
use email_to_telegram.Base.{
  ℕ, ◌-◌, String, Bool, true, false, ◌&&◌, Option, none, some, List, [], ◌∷◌, ◌≡◌, refl, ◌∙◌, arith,
  ◌==◌, ==_iff, str_eq, find?, update_where, any, Bool-cases, inl, inr, if◌then◌else◌,
}
use email_to_telegram.Store.Rows.{Db, DeliveryLog, FinalStatus, permanently_failed, UserUsageMonth}
use email_to_telegram.Store.Usage.{
  is_usage, UsageDelta, subtract_usage, get_user_usage_month, decrement_user_usage_month,
}
use email_to_telegram.Store.Usage.Laws.{
  delivered_in, delivered-decrement_self, delivered-decrement_other,
}
use email_to_telegram.Email.Outcome.{MonthOf, refund_user, refund_accepted_email}

-- The counters beside the accepted mails, where there is a row.
abbrev pub other_counters : Option UserUsageMonth → Option (ℕ × ℕ)
other_counters = Option.map (λ u. (u.rejected_count, u.egress_bytes))

-- The status that ends a delivery without its mail.
abbrev pub is_closed : FinalStatus → Bool
is_closed permanently_failed = true
is_closed _ = false

-- The mail counts for this user and this month: one, or none.
abbrev pub counted_for : Option ℕ → String → ℕ → String → ℕ
counted_for none received user month = 0
counted_for (some charged) received user month =
    if (charged == user) && str_eq received month then 1 else 0

-- How many mails are taken off the count of a user in a month: one where the delivery was closed,
-- the user is the one that it was charged to, and the mail was received in the month.
abbrev pub taken_off : MonthOf → DeliveryLog → FinalStatus → ℕ → String → ℕ
taken_off month_of log s user month =
    if is_closed s then counted_for log.user_id (month_of log.received_at) user month else 0

-- The counters of every user in every month.
abbrev pub IsCharged : MonthOf → DeliveryLog → FinalStatus → Db → Db → Type 0
IsCharged month_of log s db db' =
    (user : ℕ) (month : String)
    → (delivered_in db' user month
        ≡ delivered_in db user month - taken_off month_of log s user month)
      × (other_counters (get_user_usage_month db' user month)
          ≡ other_counters (get_user_usage_month db user month))

others-update :
    (p q : UserUsageMonth → Bool) (f : UserUsageMonth → UserUsageMonth) (xs : List UserUsageMonth)
    → ((u : UserUsageMonth) → p (f u) ≡ p u)
    → ((u : UserUsageMonth) → (f u).rejected_count ≡ u.rejected_count)
    → ((u : UserUsageMonth) → (f u).egress_bytes ≡ u.egress_bytes)
    → other_counters (find? p (update_where q f xs)) ≡ other_counters (find? p xs)
others-update p q f [] same r e = refl
others-update p q f (x ∷ xs) same r e = elim (Bool-cases (q x)) [
  | inl hit ↦ elim (Bool-cases (p x)) [
    | inl here ↦ rw (hit, same x, here, r x, e x) refl
    | inr there ↦ rw (hit, same x, there) (others-update p q f xs same r e)
  ]
  | inr miss ↦ elim (Bool-cases (p x)) [
    | inl here ↦ rw (miss, here) refl
    | inr there ↦ rw (miss, there) (others-update p q f xs same r e)
  ]
]

abbrev one_mail : UsageDelta
one_mail = record { delivered = 1; rejected = 0; egress = 0 }

refund-others :
    (charged : Option ℕ) (received : String) (db : Db) (user : ℕ) (month : String)
    → other_counters (get_user_usage_month (refund_user charged received db) user month)
      ≡ other_counters (get_user_usage_month db user month)
unfolding decrement_user_usage_month get_user_usage_month
refund-others none received db user month = refl
refund-others (some charged) received db user month =
    elim (Bool-cases (any (is_usage charged received) db.usage_months)) [
      | inl e ↦ rw e (
          others-update (is_usage user month) (is_usage charged received) (subtract_usage one_mail)
            db.usage_months (λ u. refl) (λ u. omega arith) (λ u. omega arith))
      | inr e ↦ rw e refl
    ]

refund-delivered :
    (charged : Option ℕ) (received : String) (db : Db) (user : ℕ) (month : String)
    → delivered_in (refund_user charged received db) user month
      ≡ delivered_in db user month - counted_for charged received user month
refund-delivered none received db user month = omega arith
refund-delivered (some charged) received db user month = elim (Bool-cases (charged == user)) [
  | inl u ↦ elim (Bool-cases (str_eq received month)) [
    | inl m ↦
        rw (u, m, ← (==_iff charged user).0 u, ← (eq_iff received month).0 m)
          (delivered-decrement_self charged received one_mail db)
    | inr m ↦
        rw (u, m)
          (delivered-decrement_other charged received one_mail db user month
              (inr (λ e. let t = (eq_iff received month).1 e in cc))
            ∙ omega arith)
  ]
  | inr u ↦ rw u (
      delivered-decrement_other charged received one_mail db user month
        (inl (λ e. let t = (==_iff charged user).1 e in cc))
      ∙ omega arith)
]

pub IsCharged-closed :
    (month_of : MonthOf) (log : DeliveryLog) (db db' : Db)
    → db'.usage_months ≡ (refund_accepted_email month_of log db).usage_months
    → IsCharged month_of log permanently_failed db db'
unfolding refund_accepted_email get_user_usage_month
IsCharged-closed month_of log db db' e user month = rw e (
  refund-delivered log.user_id (month_of log.received_at) db user month,
  refund-others log.user_id (month_of log.received_at) db user month,
)

pub IsCharged-kept :
    (month_of : MonthOf) (log : DeliveryLog) (s : FinalStatus) (db db' : Db)
    → is_closed s ≡ false
    → db'.usage_months ≡ db.usage_months
    → IsCharged month_of log s db db'
unfolding get_user_usage_month
IsCharged-kept month_of log s db db' open_ e user month = rw (e, open_) (omega arith, refl)
