-- ===== src/Email/Retry/Left.antt =====
-- How an attempt (src/email/retry.ts, src/email/pipeline/deliver.ts) leaves a delivery, told by the
-- counters that every user then has.
use email_to_telegram.Base.{◌<◌, true, some, ◌≡◌, refl, arith, ◌⊎◌, inl, inr}
use email_to_telegram.Store.Rows.{Db, DeliveryLog, FinalStatus, permanently_failed}
use email_to_telegram.Email.Outcome.{MonthOf}
use email_to_telegram.Email.Outcome.Frame.{status_in}
use email_to_telegram.Email.Outcome.Charge.{IsCharged, IsCharged-closed, IsCharged-kept}
use email_to_telegram.Email.Retry.{max_retries, is_permanently_failed}
use email_to_telegram.Email.Retry.Budget.{SettledAs, counted_failures, usage_after}

-- The log has the status; one accepted mail is taken off the count of the log's user in the month of
-- the mail where the status is `permanently_failed`, and no other counter changes; and what is not
-- closed has had fewer counted failures than `max_retries`.
pub record IsLeftAs (month_of : MonthOf) (log : DeliveryLog) (db db' : Db) (s : FinalStatus)
    : Type 0 where
  pub logged : status_in db'.delivery_logs log.id ≡ some s
  pub charged : IsCharged month_of log s db db'
  pub budget : (s ≡ permanently_failed) ⊎ (counted_failures db' log.id < max_retries)

closed→eq : (s : FinalStatus) → is_permanently_failed s ≡ true → s ≡ permanently_failed
closed→eq s h = ground (arith, h)

usage-IsCharged :
    (month_of : MonthOf) (log : DeliveryLog) (db db' : Db) (s : FinalStatus)
    → db'.usage_months ≡ usage_after month_of log db s
    → IsCharged month_of log s db db'
usage-IsCharged month_of log db db' FinalStatus.permanently_failed e =
    IsCharged-closed month_of log db db' e
usage-IsCharged month_of log db db' s e = IsCharged-kept month_of log s db db' refl e

pub settled-IsLeftAs :
    (month_of : MonthOf) (log : DeliveryLog) (db db' : Db) (s : FinalStatus)
    → SettledAs month_of log db db' s
    → IsLeftAs month_of log db db' s
settled-IsLeftAs month_of log db db' s h = record {
  logged = h.logged;
  charged = usage-IsCharged month_of log db db' s h.usage;
  budget = elim h.budget [ inl e ↦ inl (closed→eq s e) | inr few ↦ inr few ];
}
