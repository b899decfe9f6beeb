-- ===== src/Email/Retry.antt =====
-- src/email/retry.ts, `retryDelivery`: one attempt of the retry worker at a delivery that it has
-- claimed. Metrics, logging, rendering and attachment links leave the modelled tables alone.
pub mod Budget
pub mod Left
pub mod Settled
use email_to_telegram.Base.{
  ℕ, ◌+◌, ℤ, String, Bool, true, false, not, ◌&&◌, ◌||◌, Option, none, some, leb, ltb, ◌==◌,
  if◌then◌else◌, is_truthy, is_some, or_else, TextOps,
}
use email_to_telegram.Store.Rows.{
  Db, EmailAddress, DeliveryLog, DeliveryAttempt, AttemptStatus, attempt_succeeded, attempt_failed,
  FinalStatus, failed, delivered, permanently_failed,
}
use email_to_telegram.Store.Logs.{
  update_delivery_log_status, insert_delivery_attempt, count_attempts_by_log,
  count_counted_failed_attempts_by_log,
}
use email_to_telegram.Telegram.Errors.{
  TelegramErrorClass, RetryDisposition, fail_permanently, retry_counted, retry_uncounted,
  classify_telegram_error, retry_disposition_for_error, uncounted_retry_error_classes,
}
use email_to_telegram.Email.Outcome.{
  SendResult, SendPhotosResult, AttemptRoute, route, unavailable, read_attempt_route, error_of,
  migrate_target, MonthOf, refund_accepted_email, RepairInput, repair_from_delivery,
}

abbrev pub max_retries : ℕ
max_retries = 3

-- What the outside answers during one attempt: whether the raw mail could be read, the sends, and
-- for the secondary sends `none` where one threw. `images` is the number of inline photos.
pub record RetryWorld : Type 0 where
  pub ops : TextOps
  pub month_of : MonthOf
  pub raw_email_read : Bool
  pub images : ℕ
  pub send : SendResult
  pub photos : Option SendPhotosResult
  pub fallback : Option SendResult
  pub repair : RepairInput
  pub second_repair : RepairInput

abbrev pub is_permanent : RetryDisposition → Bool
is_permanent fail_permanently = true
is_permanent _ = false

abbrev pub counts : RetryDisposition → Bool
counts retry_counted = true
counts _ = false

abbrev pub is_permanently_failed : FinalStatus → Bool
is_permanently_failed permanently_failed = true
is_permanently_failed _ = false

module _ (w : RetryWorld) where
  open w use {ops, month_of, send}

  unfoldable pub close_permanently_failed : DeliveryLog → Db → Db
  close_permanently_failed log db =
      refund_accepted_email month_of log (update_delivery_log_status log.id permanently_failed db)

  abbrev pub disposition : RetryDisposition
  disposition = retry_disposition_for_error ops (error_of send)

  -- `countedAfterSend`
  abbrev pub counted_after_send : ℕ → ℕ
  counted_after_send counted = if counts disposition then counted + 1 else counted

  unfoldable pub final_status_after : ℕ → FinalStatus
  final_status_after counted =
      if send.ok
      then delivered
      else if is_permanent disposition || leb max_retries (counted_after_send counted)
      then permanently_failed
      else failed

  abbrev pub new_attempt : DeliveryLog → ℤ → Option ℕ → ℕ → DeliveryAttempt
  new_attempt log chat thread attempts = record {
    delivery_log_id = log.id;
    attempt_no = attempts + 1;
    target_chat_id = chat;
    target_thread_id = thread;
    telegram_message_id = send.telegram_message_id;
    status = if send.ok then attempt_succeeded else attempt_failed;
    error_text = send.error;
    error_class = if send.ok then none else some (classify_telegram_error ops (error_of send));
  }

  -- The transaction after the send: the attempt's row and the status.
  unfoldable pub persist_attempt : DeliveryLog → ℤ → Option ℕ → ℕ → FinalStatus → Db → Db
  persist_attempt log chat thread attempts status db =
      update_delivery_log_status log.id status
        (insert_delivery_attempt (new_attempt log chat thread attempts) db)

  unfoldable pub refund_if_closed : DeliveryLog → FinalStatus → Db → Db
  refund_if_closed log status db =
      if is_permanently_failed status then refund_accepted_email month_of log db else db

  -- `abortAttemptForMigration`
  unfoldable pub abort_attempt_for_migration : DeliveryLog → ℤ → ℤ → Db → Db
  abort_attempt_for_migration log chat new_chat db =
      update_delivery_log_status log.id failed
        (repair_from_delivery w.second_repair chat (some new_chat) db)

  abbrev pub abort_if : DeliveryLog → ℤ → Option ℤ → Db → Db
  abort_if log chat none db = db
  abort_if log chat (some new_chat) db = abort_attempt_for_migration log chat new_chat db

  -- The fallback message for photos that failed.
  unfoldable pub after_fallback : DeliveryLog → ℤ → Option SendResult → Db → Db
  unfolding abort_attempt_for_migration
  after_fallback log chat none db = db
  after_fallback log chat (some r) db =
      if r.ok then db else abort_if log chat (migrate_target r.failure) db

  unfoldable pub after_photos : DeliveryLog → ℤ → SendPhotosResult → Option ℤ → Db → Db
  unfolding after_fallback
  after_photos log chat r (some new_chat) db = abort_attempt_for_migration log chat new_chat db
  after_photos log chat r none db =
      if ltb 0 r.failed_photos then after_fallback log chat w.fallback db else db

  abbrev pub photos_phase : DeliveryLog → ℤ → Option SendPhotosResult → Db → Db
  photos_phase log chat none db = db
  photos_phase log chat (some r) db = after_photos log chat r (migrate_target r.failure) db

  -- What follows a text that was delivered.
  unfoldable pub send_images : DeliveryLog → EmailAddress → ℤ → Db → Db
  unfolding after_photos
  send_images log alias chat db =
      if not alias.privacy_mode_enabled && ltb 0 w.images
      then photos_phase log chat w.photos db
      else db

  -- From the send to the end of the attempt.
  unfoldable pub finish_attempt :
      DeliveryLog → EmailAddress → ℤ → Option ℕ → ℕ → FinalStatus → Db → Db
  unfolding persist_attempt refund_if_closed send_images
  finish_attempt log alias chat thread attempts status db =
      let recorded = persist_attempt log chat thread attempts status db in
      let refunded = refund_if_closed log status recorded in
      let repaired = repair_from_delivery w.repair chat (migrate_target send.failure) refunded in
      if send.ok then send_images log alias chat repaired else repaired

  unfoldable pub attempt_on_route : DeliveryLog → AttemptRoute → Db → Db
  unfolding finish_attempt close_permanently_failed
  attempt_on_route log (unavailable status) db = close_permanently_failed log db
  attempt_on_route log (route alias chat thread) db =
      if w.raw_email_read
      then finish_attempt log alias chat thread (count_attempts_by_log db log.id)
          (final_status_after
            (count_counted_failed_attempts_by_log db log.id uncounted_retry_error_classes))
          db
      else close_permanently_failed log db

  unfoldable pub retry_delivery : DeliveryLog → Db → Db
  unfolding attempt_on_route close_permanently_failed
  retry_delivery log db =
      if not (is_truthy log.raw_email_path)
        || leb max_retries
            (count_counted_failed_attempts_by_log db log.id uncounted_retry_error_classes)
      then close_permanently_failed log db
      else attempt_on_route log (read_attempt_route db log.email_address_id) db
