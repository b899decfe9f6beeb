-- ===== src/Email/Worker/Frame.antt =====
-- The writes of an attempt (src/email/retry.ts) and the rows of another delivery.
use email_to_telegram.Base.{
  ℕ, true, false, List, ◌≡◌, ◌≢◌, refl, ◌∙◌, arith, filter, any, ◌==◌, Bool-cases, inl, inr,
  filter-append, filter-update_other,
}
use email_to_telegram.Store.Rows.{Db, DeliveryLog, DeliveryAttempt, FinalStatus}
use email_to_telegram.Store.Logs.{
  update_delivery_log_status, insert_delivery_attempt, set_status, same_attempt,
}
use email_to_telegram.Email.Outcome.{MonthOf, refund_accepted_email}
use email_to_telegram.Email.Outcome.Frame.{LeavesMail, refund-logs, refund-attempts}

abbrev pub rows_of : Db → ℕ → List DeliveryLog
rows_of db id = filter (λ (l : DeliveryLog). l.id == id) db.delivery_logs

abbrev pub attempts_of : Db → ℕ → List DeliveryAttempt
attempts_of db id = filter (λ (a : DeliveryAttempt). a.delivery_log_id == id) db.delivery_attempts

-- The log and its attempts are as they were.
pub record IsUntouched (id : ℕ) (db db' : Db) : Type 0 where
  pub logs : rows_of db' id ≡ rows_of db id
  pub attempts : attempts_of db' id ≡ attempts_of db id

pub IsUntouched-refl : (id : ℕ) (db : Db) → IsUntouched id db db
IsUntouched-refl id db = record { logs = refl; attempts = refl }

pub IsUntouched-trans :
    (id : ℕ) (a b c : Db) → IsUntouched id a b → IsUntouched id b c → IsUntouched id a c
IsUntouched-trans id a b c g h = record {
  logs = h.logs ∙ g.logs;
  attempts = h.attempts ∙ g.attempts;
}

pub LeavesMail→IsUntouched : (id : ℕ) (db db' : Db) → LeavesMail db db' → IsUntouched id db db'
LeavesMail→IsUntouched id db db' l = record { logs = rw l.logs refl; attempts = rw l.attempts refl }

pub refund-IsUntouched :
    (id : ℕ) (month_of : MonthOf) (log : DeliveryLog) (db : Db)
    → IsUntouched id db (refund_accepted_email month_of log db)
refund-IsUntouched id month_of log db = record {
  logs = rw (refund-logs month_of log db) refl;
  attempts = rw (refund-attempts month_of log db) refl;
}

module _ (id other : ℕ) (apart : other ≢ id) where
  pub row_apart : (l : DeliveryLog) → (l.id == other) ≡ true → (l.id == id) ≡ false
  row_apart l h = ground (arith, apart)

  pub status-IsUntouched :
      (s : FinalStatus) (db : Db) → IsUntouched id db (update_delivery_log_status other s db)
  unfolding update_delivery_log_status
  status-IsUntouched s db = record {
    logs = filter-update_other _ _ (set_status s) db.delivery_logs row_apart (λ l. refl);
    attempts = refl;
  }

  pub attempt-IsUntouched :
      (a : DeliveryAttempt) (db : Db)
      → a.delivery_log_id ≡ other
      → IsUntouched id db (insert_delivery_attempt a db)
  unfolding insert_delivery_attempt
  attempt-IsUntouched a db e = record {
    logs = refl;
    attempts = elim (Bool-cases (any (same_attempt a) db.delivery_attempts)) [
      | inl h ↦ rw h refl
      | inr h ↦
          rw
            (
              h,
              filter-append (λ (b : DeliveryAttempt). b.delivery_log_id == id) db.delivery_attempts
                  a (ground (arith, e, apart)),
            )
            refl
    ];
  }
