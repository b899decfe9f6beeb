-- ===== src/Email/Worker/Closes.antt =====
-- One attempt at a delivery that Telegram refuses, and its budget (src/email/retry.ts,
-- `MAX_RETRIES`).
use mathlib.Core.Bool.{false≢true}
use email_to_telegram.Base.{
  ℕ, ◌+◌, ◌<◌, ℤ, Bool, true, false, not, ◌&&◌, ◌||◌, Option, List, [], ◌∷◌, ◌≡◌, refl, ap, sym,
  ◌∙◌, arith, any, update_where, ◌==◌, Bool-cases, inl, inr, ◌⊎◌, if-split, leb, is_truthy,
  if◌then◌else◌, count,
}
use email_to_telegram.Store.Rows.{
  Db, EmailAddress, DeliveryLog, FinalStatus, failed, permanently_failed, retrying,
}
use email_to_telegram.Store.Logs.{
  update_delivery_log_status, insert_delivery_attempt, is_claimable, set_status, is_status,
  count_attempts_by_log, is_counted_failure, count_counted_failed_attempts_by_log,
}
use email_to_telegram.Telegram.Errors.{retry_counted, uncounted_retry_error_classes}
use email_to_telegram.Email.Outcome.{
  AttemptRoute, route, unavailable, read_attempt_route, migrate_target, repair_from_delivery,
  RepairInput,
}
use email_to_telegram.Email.Outcome.Frame.{repair_from_delivery-LeavesMail, refund-logs}
use email_to_telegram.Email.Retry.{
  RetryWorld, max_retries, disposition, close_permanently_failed, persist_attempt, new_attempt,
  refund_if_closed, finish_attempt, final_status_after, attempt_on_route, retry_delivery,
  is_permanent, counts,
}
use email_to_telegram.Email.Retry.Budget.{counted_failures, counted-new}
use email_to_telegram.Email.Worker.Numbers.{IsNumbered, next-IsNumbered}

-- A row of the log is there that can be claimed, the attempts are numbered, and `k` of them counted.
pub record IsOpen (id k : ℕ) (db : Db) : Type 0 where
  pub takes : any (is_claimable id) db.delivery_logs ≡ true
  pub numbered : IsNumbered id db
  pub failures : counted_failures db id ≡ k

-- Whether a row of the log is permanently failed.
abbrev pub is_lost : ℕ → DeliveryLog → Bool
is_lost id l = (l.id == id) && is_status l.final_status permanently_failed

-- The log is permanently failed, and no row of it can be claimed.
abbrev pub IsClosed : ℕ → Db → Type 0
IsClosed id db =
    (any (is_lost id) db.delivery_logs ≡ true) × (any (is_claimable id) db.delivery_logs ≡ false)

-- Telegram refuses the message, in a way that uses up the budget.
pub record IsRefused (w : RetryWorld) : Type 0 where
  pub not_sent : w.send.ok ≡ false
  pub counted : disposition w ≡ retry_counted

closing :
    (id : ℕ) (logs : List DeliveryLog)
    → any
        (is_claimable id)
        (update_where (λ (l : DeliveryLog). l.id == id) (set_status permanently_failed) logs)
      ≡ false
closing id [] = refl
closing id (l ∷ logs) = ground (arith, closing id logs)

losing :
    (id : ℕ) (logs : List DeliveryLog)
    → any (is_claimable id) logs ≡ true
    → any
        (is_lost id)
        (update_where (λ (l : DeliveryLog). l.id == id) (set_status permanently_failed) logs)
      ≡ true
losing id [] h = h
losing id (l ∷ logs) h = elim (Bool-cases (l.id == id)) [
  | inl e ↦ rw (e, e) refl
  | inr e ↦ rw (e, e) (losing id logs (rw e at h))
]

reopening :
    (id : ℕ) (logs : List DeliveryLog)
    → any (is_claimable id) logs ≡ true
    → any
        (is_claimable id)
        (update_where (λ (l : DeliveryLog). l.id == id) (set_status failed) logs)
      ≡ true
reopening id [] h = h
reopening id (l ∷ logs) h = elim (Bool-cases (l.id == id)) [
  | inl e ↦ rw (e, e) refl
  | inr e ↦ rw (e, e) (reopening id logs (rw e at h))
]

pub claiming :
    (id : ℕ) (logs : List DeliveryLog)
    → any (is_claimable id) logs ≡ true
    → any (is_claimable id) (update_where (is_claimable id) (set_status retrying) logs) ≡ true
claiming id [] h = h
claiming id (l ∷ logs) h = ground (arith, claiming id logs)

-- Open with one counted failure more, which is still within the budget, or closed.
abbrev pub Advances : ℕ → ℕ → Db → Type 0
Advances id k db = IsClosed id db ⊎ (IsOpen id (k + 1) db × (k + 1 < max_retries))

module _ (w : RetryWorld) (log : DeliveryLog) (refused : IsRefused w) where
  close-IsClosed :
      (db : Db)
      → any (is_claimable log.id) db.delivery_logs ≡ true
      → IsClosed log.id (close_permanently_failed w log db)
  unfolding close_permanently_failed update_delivery_log_status
  close-IsClosed db h =
      rw (refund-logs w.month_of log (update_delivery_log_status log.id permanently_failed db))
        (losing log.id db.delivery_logs h, closing log.id db.delivery_logs)

  -- What the write of a status leaves, with the refund and the repair that follow.
  status-Advances :
      (s : FinalStatus) (k : ℕ) (db : Db) (input : RepairInput) (chat : ℤ) (target : Option ℤ)
      → IsOpen log.id (k + 1) db
      → s ≡ (if leb max_retries (k + 1) then permanently_failed else failed)
      → Advances log.id k (
          repair_from_delivery input chat target
            (refund_if_closed w log s (update_delivery_log_status log.id s db)))
  unfolding update_delivery_log_status refund_if_closed count_attempts_by_log
      count_counted_failed_attempts_by_log
  status-Advances s k db input chat target h e =
      let l =
        repair_from_delivery-LeavesMail input chat target
          (refund_if_closed w log s (update_delivery_log_status log.id s db)) in
      elim (Bool-cases (leb max_retries (k + 1))) [
        | inl f ↦
            let is_perm : s ≡ permanently_failed = e ∙ rw f refl in
            inl (
              rw
                (
                  l.logs,
                  is_perm,
                  refund-logs w.month_of log
                      (update_delivery_log_status log.id permanently_failed db),
                )
                (losing log.id db.delivery_logs h.takes, closing log.id db.delivery_logs))
        | inr f ↦
            let is_failed_status : s ≡ failed = e ∙ rw f refl in
            inr (
              record {
                takes = rw (l.logs, is_failed_status) (reopening log.id db.delivery_logs h.takes);
                numbered = rw (l.attempts, is_failed_status) h.numbered;
                failures = rw (l.attempts, is_failed_status) h.failures;
              },
              ground arith,
            )
      ]

  refused-status :
      (k : ℕ)
      → final_status_after w k ≡ (if leb max_retries (k + 1) then permanently_failed else failed)
  unfolding final_status_after
  refused-status k = ground (arith, refused.not_sent, refused.counted)

  refused-soft : is_permanent (disposition w) ≡ false
  refused-soft = ap is_permanent refused.counted

  new-counted :
      (chat : ℤ) (thread : Option ℕ) (n : ℕ)
      → count
          (is_counted_failure uncounted_retry_error_classes log.id)
          (new_attempt w log chat thread n ∷ [])
        ≡ 1
  new-counted chat thread n =
      let one = counted-new w log chat thread n refused-soft in
      let yes : (not w.send.ok && counts (disposition w)) ≡ true =
        ground (arith, refused.not_sent, refused.counted) in
      rw (one ∙ yes) refl

  attempt-IsOpen :
      (k : ℕ) (chat : ℤ) (thread : Option ℕ) (db : Db)
      → IsOpen log.id k db
      → IsOpen log.id (k + 1) (
          insert_delivery_attempt
            (new_attempt w log chat thread (count_attempts_by_log db log.id))
            db)
  attempt-IsOpen k chat thread db h =
      let new = new_attempt w log chat thread (count_attempts_by_log db log.id) in
      let (numbered, failures) = next-IsNumbered new db h.numbered refl in
      record {
        takes = unfold insert_delivery_attempt in h.takes;
        numbered = numbered;
        failures =
            failures
            ∙ omega (arith, h.failures, new-counted chat thread (count_attempts_by_log db log.id));
      }

  finish-Advances :
      (k : ℕ) (alias : EmailAddress) (chat : ℤ) (thread : Option ℕ) (db : Db)
      → IsOpen log.id k db
      → Advances log.id k (
          finish_attempt w log alias chat thread
            (count_attempts_by_log db log.id)
            (final_status_after w (counted_failures db log.id))
            db)
  unfolding finish_attempt persist_attempt
  finish-Advances k alias chat thread db h =
      if-split (Advances log.id k) w.send.ok (λ e. absurd (false≢true (sym refused.not_sent ∙ e)))
        (λ e.
          status-Advances _ k _ w.repair chat (migrate_target w.send.failure)
            (attempt-IsOpen k chat thread db h)
            (ap (final_status_after w) h.failures ∙ refused-status k))

  route-Advances :
      (k : ℕ) (r : AttemptRoute) (db : Db)
      → IsOpen log.id k db
      → Advances log.id k (attempt_on_route w log r db)
  unfolding attempt_on_route
  route-Advances k (unavailable status) db h = inl (close-IsClosed db h.takes)
  route-Advances k (route alias chat thread) db h =
      if-split (Advances log.id k) w.raw_email_read (λ e. finish-Advances k alias chat thread db h)
        (λ e. inl (close-IsClosed db h.takes))

  pub retry-Advances :
      (k : ℕ) (db : Db) → IsOpen log.id k db → Advances log.id k (retry_delivery w log db)
  unfolding retry_delivery
  retry-Advances k db h =
      if-split (Advances log.id k)
        (not (is_truthy log.raw_email_path) || leb max_retries (counted_failures db log.id))
        (λ e. inl (close-IsClosed db h.takes))
        (λ e. route-Advances k (read_attempt_route db log.email_address_id) db h)
