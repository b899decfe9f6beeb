-- ===== src/Email/Retry/Budget.antt =====
-- What `retryDelivery` (src/email/retry.ts) leaves of a delivery: its status, its charge, its budget.
use email_to_telegram.Base.{
  ℕ, ◌+◌, ◌<◌, ◌≤◌, ℤ, Bool, true, false, not, ◌&&◌, ◌||◌, Option, some, List, [], ◌∷◌, leb,
  if◌then◌else◌, ◌≡◌, refl, ◌∙◌, arith, ◌⊎◌, Bool-cases, inl, inr, any, count-append, ==_refl,
  leb→gt,
}
use email_to_telegram.Store.Rows.{
  Db, DeliveryLog, DeliveryAttempt, FinalStatus, failed, permanently_failed, UserUsageMonth,
}
use email_to_telegram.Store.Logs.{
  update_delivery_log_status, insert_delivery_attempt, count_counted_failed_attempts_by_log,
  is_counted_failure, same_attempt,
}
use email_to_telegram.Store.Usage.{decrement_user_usage_month}
use email_to_telegram.Telegram.Errors.{retry_disposition_for_error, uncounted_retry_error_classes}
use email_to_telegram.Email.Outcome.{MonthOf, refund_accepted_email}
use email_to_telegram.Email.Outcome.Frame.{
  LeavesMail, status_in, update-status_some, update_status-usage, refund-logs,
}
use email_to_telegram.Email.Retry.{
  max_retries, RetryWorld, is_permanent, counts, close_permanently_failed, disposition,
  counted_after_send, final_status_after, new_attempt, is_permanently_failed, refund_if_closed,
}

-- The failed attempts of a log that use up its budget.
abbrev pub counted_failures : Db → ℕ → ℕ
counted_failures db id = count_counted_failed_attempts_by_log db id uncounted_retry_error_classes

-- The monthly counters that a delivery of a given status should have: the accepted mail is given
-- back exactly where the delivery is closed as failed.
abbrev pub usage_after : MonthOf → DeliveryLog → Db → FinalStatus → List UserUsageMonth
usage_after month_of log db s =
    if is_permanently_failed s
    then (refund_accepted_email month_of log db).usage_months
    else db.usage_months

refund-usage :
    (month_of : MonthOf) (log : DeliveryLog) (db db' : Db)
    → db'.usage_months ≡ db.usage_months
    → (refund_accepted_email month_of log db').usage_months
      ≡ (refund_accepted_email month_of log db).usage_months
unfolding refund_accepted_email decrement_user_usage_month
refund-usage month_of log db db' e = ground (arith, e)

-- How one attempt leaves the delivery: the log has a status, the accepted mail has been given back
-- once if that status is `permanently_failed` and is still charged if not, and a delivery that is not
-- permanently failed has budget left.
pub record SettledAs (month_of : MonthOf) (log : DeliveryLog) (db db' : Db) (s : FinalStatus)
    : Type 0 where
  pub logged : status_in db'.delivery_logs log.id ≡ some s
  pub usage : db'.usage_months ≡ usage_after month_of log db s
  pub budget : (is_permanently_failed s ≡ true) ⊎ (counted_failures db' log.id < max_retries)

pub leaves-settled :
    (month_of : MonthOf) (log : DeliveryLog) (db db' db'' : Db) (s : FinalStatus)
    → LeavesMail db' db''
    → SettledAs month_of log db db' s
    → SettledAs month_of log db db'' s
unfolding count_counted_failed_attempts_by_log
leaves-settled month_of log db db' db'' s l h = record {
  logged = rw l.logs h.logged;
  usage = l.usage ∙ h.usage;
  budget = elim h.budget [ inl e ↦ inl e | inr few ↦ inr (rw l.attempts few) ];
}

pub insert-attempt_logs :
    (a : DeliveryAttempt) (db : Db)
    → ((insert_delivery_attempt a db).delivery_logs ≡ db.delivery_logs)
      × ((insert_delivery_attempt a db).usage_months ≡ db.usage_months)
unfolding insert_delivery_attempt
insert-attempt_logs a db = (refl, refl)

-- A new attempt adds at most itself to the counted failures.
pub counted-insert :
    (a : DeliveryAttempt) (id : ℕ) (db : Db)
    → counted_failures (insert_delivery_attempt a db) id
      ≤ counted_failures db id
        + (if is_counted_failure uncounted_retry_error_classes id a then 1 else 0)
unfolding insert_delivery_attempt count_counted_failed_attempts_by_log
counted-insert a id db = elim (Bool-cases (any (same_attempt a) db.delivery_attempts)) [
  | inl e ↦ rw e (ground arith)
  | inr e ↦
      rw
        (
          e,
          count-append (is_counted_failure uncounted_retry_error_classes id) db.delivery_attempts
              (a ∷ []),
        )
        (ground arith)
]

pub settled-closed :
    (w : RetryWorld) (log : DeliveryLog) (db : Db) {old : FinalStatus}
    → status_in db.delivery_logs log.id ≡ some old
    → SettledAs w.month_of log db (close_permanently_failed w log db) permanently_failed
unfolding close_permanently_failed
settled-closed w log db h = record {
  logged =
      rw (refund-logs w.month_of log (update_delivery_log_status log.id permanently_failed db))
        (update-status_some log.id permanently_failed db h);
  usage = refund-usage w.month_of log db _ (update_status-usage log.id permanently_failed db);
  budget = inl refl;
}

pub update_status-attempts :
    (id : ℕ) (s : FinalStatus) (db : Db)
    → (update_delivery_log_status id s db).delivery_attempts ≡ db.delivery_attempts
unfolding update_delivery_log_status
update_status-attempts id s db = refl

-- A status written, with the refund that it asks for.
pub settled-written :
    (w : RetryWorld) (log : DeliveryLog) (s : FinalStatus) (db before : Db) {old : FinalStatus}
    → status_in before.delivery_logs log.id ≡ some old
    → before.usage_months ≡ db.usage_months
    → (is_permanently_failed s ≡ false → counted_failures before log.id < max_retries)
    → SettledAs w.month_of log db
        (refund_if_closed w log s (update_delivery_log_status log.id s before))
        s
unfolding refund_if_closed count_counted_failed_attempts_by_log
settled-written w log s db before h u budget =
    let written = update_delivery_log_status log.id s before in
    elim (Bool-cases (is_permanently_failed s)) [
      | inl e ↦ rw e (record {
        logged = rw (refund-logs w.month_of log written) (update-status_some log.id s before h);
        usage =
            rw e (refund-usage w.month_of log db written (update_status-usage log.id s before ∙ u));
        budget = inl e;
      })
      | inr e ↦ rw e (record {
        logged = update-status_some log.id s before h;
        usage = rw e (update_status-usage log.id s before ∙ u);
        budget = inr (rw (update_status-attempts log.id s before) (budget e));
      })
    ]

not_closed :
    (b : Bool)
    → is_permanently_failed (if b then permanently_failed else failed) ≡ false
    → b ≡ false
not_closed true h = cc
not_closed false h = refl

or-left : (a b : Bool) → (a || b) ≡ false → a ≡ false
or-left true b h = h
or-left false b h = refl

module _ (w : RetryWorld) (log : DeliveryLog) where
  open w use {ops, send, month_of}

  -- A send that failed and did not close the delivery uses up the budget where its disposition
  -- counts, and nothing else does.
  pub counted-new :
      (chat : ℤ) (thread : Option ℕ) (n : ℕ)
      → is_permanent (disposition w) ≡ false
      → is_counted_failure uncounted_retry_error_classes log.id (new_attempt w log chat thread n)
        ≡ (not send.ok && counts (disposition w))
  unfolding retry_disposition_for_error
  counted-new chat thread n h = ground (arith, ==_refl log.id)

  pub open-budget :
      (chat : ℤ) (thread : Option ℕ) (n : ℕ) (db : Db)
      → leb max_retries (counted_failures db log.id) ≡ false
      → is_permanently_failed (final_status_after w (counted_failures db log.id)) ≡ false
      → counted_failures (insert_delivery_attempt (new_attempt w log chat thread n) db) log.id
        < max_retries
  unfolding final_status_after
  open-budget chat thread n db left open_ =
      let grown = counted-insert (new_attempt w log chat thread n) log.id db in
      let few = leb→gt max_retries (counted_failures db log.id) left in
      elim (Bool-cases send.ok) [
        | inl e ↦ ground (arith, rw e at grown)
        | inr e ↦
            let still =
              not_closed
                (is_permanent (disposition w)
                  || leb max_retries (counted_after_send w (counted_failures db log.id)))
                (rw e at open_) in
            let soft : is_permanent (disposition w) ≡ false = or-left _ _ still in
            let eq = counted-new chat thread n soft in ground (arith, e, eq, still, grown)
      ]
