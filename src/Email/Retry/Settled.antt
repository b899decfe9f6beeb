-- ===== src/Email/Retry/Settled.antt =====
-- The ways through `retryDelivery` (src/email/retry.ts) and how they leave the delivery.
use mathlib.Core.Bool.{false≢true}
use email_to_telegram.Base.{
  ℕ, ℤ, true, false, not, ◌&&◌, Option, none, some, leb, ltb, is_truthy, ◌≡◌, arith, subst,
  if-split, Bool-cases, inl, inr,
}
use email_to_telegram.Store.Rows.{
  Db, EmailAddress, DeliveryLog, FinalStatus, failed, delivered, permanently_failed,
}
use email_to_telegram.Store.Logs.{insert_delivery_attempt, count_attempts_by_log}
use email_to_telegram.Email.Outcome.{
  SendResult, SendPhotosResult, AttemptRoute, route, unavailable, read_attempt_route,
  migrate_target, repair_from_delivery,
}
use email_to_telegram.Email.Outcome.Frame.{repair_from_delivery-LeavesMail, status_in}
use email_to_telegram.Email.Retry.{
  max_retries, RetryWorld, final_status_after, new_attempt, persist_attempt, refund_if_closed,
  abort_attempt_for_migration, abort_if, after_fallback, after_photos, photos_phase, send_images,
  finish_attempt, attempt_on_route, retry_delivery,
}
use email_to_telegram.Email.Retry.Budget.{
  SettledAs, counted_failures, settled-closed, leaves-settled, settled-written, open-budget,
  insert-attempt_logs,
}
use email_to_telegram.Email.Retry.Left.{IsLeftAs, settled-IsLeftAs}

-- The delivery is written, whatever its status.
abbrev IsWritten : RetryWorld → DeliveryLog → Db → Db → Type 0
IsWritten w log db db' = (s : FinalStatus) × SettledAs w.month_of log db db' s

-- The delivery is left with some status.
abbrev pub IsSettled : RetryWorld → DeliveryLog → Db → Db → Type 0
IsSettled w log db db' = (s : FinalStatus) × IsLeftAs w.month_of log db db' s

sent-delivered :
    (w : RetryWorld) (counted : ℕ) → w.send.ok ≡ true → final_status_after w counted ≡ delivered
unfolding final_status_after
sent-delivered w counted e = ground (arith, e)

module _ (w : RetryWorld) (log : DeliveryLog) (db : Db) where
  open w use {send, month_of}

  pub abort-settled :
      (chat new_chat : ℤ) (db' : Db)
      → SettledAs month_of log db db' delivered
      → SettledAs month_of log db (abort_attempt_for_migration w log chat new_chat db') failed
  unfolding abort_attempt_for_migration refund_if_closed
  abort-settled chat new_chat db' h =
      let moved =
        leaves-settled month_of log db db' _ delivered
          (repair_from_delivery-LeavesMail w.second_repair chat (some new_chat) db') h in
      settled-written w log failed db
        (repair_from_delivery w.second_repair chat (some new_chat) db') moved.logged moved.usage
        (λ e. elim moved.budget [ inl closed ↦ absurd (false≢true closed) | inr few ↦ few ])

  abort_if-IsWritten :
      (chat : ℤ) (target : Option ℤ) (db' : Db)
      → SettledAs month_of log db db' delivered
      → IsWritten w log db (abort_if w log chat target db')
  abort_if-IsWritten chat none db' h = (delivered, h)
  abort_if-IsWritten chat (some new_chat) db' h = (failed, abort-settled chat new_chat db' h)

  fallback-IsWritten :
      (chat : ℤ) (r : Option SendResult) (db' : Db)
      → SettledAs month_of log db db' delivered
      → IsWritten w log db (after_fallback w log chat r db')
  unfolding after_fallback
  fallback-IsWritten chat none db' h = (delivered, h)
  fallback-IsWritten chat (some r) db' h = elim (Bool-cases r.ok) [
    | inl e ↦ rw e (delivered, h)
    | inr e ↦ rw e (abort_if-IsWritten chat (migrate_target r.failure) db' h)
  ]

  photos-IsWritten :
      (chat : ℤ) (r : SendPhotosResult) (target : Option ℤ) (db' : Db)
      → SettledAs month_of log db db' delivered
      → IsWritten w log db (after_photos w log chat r target db')
  unfolding after_photos
  photos-IsWritten chat r (some new_chat) db' h = (failed, abort-settled chat new_chat db' h)
  photos-IsWritten chat r none db' h = elim (Bool-cases (ltb 0 r.failed_photos)) [
    | inl e ↦ rw e (fallback-IsWritten chat w.fallback db' h)
    | inr e ↦ rw e (delivered, h)
  ]

  phase-IsWritten :
      (chat : ℤ) (r : Option SendPhotosResult) (db' : Db)
      → SettledAs month_of log db db' delivered
      → IsWritten w log db (photos_phase w log chat r db')
  phase-IsWritten chat none db' h = (delivered, h)
  phase-IsWritten chat (some r) db' h = photos-IsWritten chat r (migrate_target r.failure) db' h

  images-IsWritten :
      (alias : EmailAddress) (chat : ℤ) (db' : Db)
      → SettledAs month_of log db db' delivered
      → IsWritten w log db (send_images w log alias chat db')
  unfolding send_images
  images-IsWritten alias chat db' h =
      elim (Bool-cases (not alias.privacy_mode_enabled && ltb 0 w.images)) [
        | inl e ↦ rw e (phase-IsWritten chat w.photos db' h)
        | inr e ↦ rw e (delivered, h)
      ]

  finish-IsWritten :
      (alias : EmailAddress) (chat : ℤ) (thread : Option ℕ) (n : ℕ) {old : FinalStatus}
      → status_in db.delivery_logs log.id ≡ some old
      → leb max_retries (counted_failures db log.id) ≡ false
      → IsWritten w log db (
          finish_attempt w log alias chat thread n
            (final_status_after w (counted_failures db log.id))
            db)
  unfolding finish_attempt persist_attempt
  finish-IsWritten alias chat thread n {old} h left =
      let s = final_status_after w (counted_failures db log.id) in
      let before = insert_delivery_attempt (new_attempt w log chat thread n) db in
      let tables = insert-attempt_logs (new_attempt w log chat thread n) db in
      let written =
        settled-written w log s db before {old = old} (rw tables.0 h) tables.1
          (open-budget w log chat thread n db left) in
      let repaired =
        leaves-settled month_of log db _ _ s
          (repair_from_delivery-LeavesMail w.repair chat (migrate_target send.failure) _) written in
      if-split (IsWritten w log db) send.ok
        (λ e. images-IsWritten alias chat _ (
          subst (SettledAs month_of log db _) (sent-delivered w (counted_failures db log.id) e)
            repaired))
        (λ e. (s, repaired))

  route-IsWritten :
      (r : AttemptRoute) {old : FinalStatus}
      → status_in db.delivery_logs log.id ≡ some old
      → leb max_retries (counted_failures db log.id) ≡ false
      → IsWritten w log db (attempt_on_route w log r db)
  unfolding attempt_on_route
  route-IsWritten (unavailable status) h left = (permanently_failed, settled-closed w log db h)
  route-IsWritten (route alias chat thread) h left =
      if-split (IsWritten w log db) w.raw_email_read
        (λ e. finish-IsWritten alias chat thread (count_attempts_by_log db log.id) h left)
        (λ e. (permanently_failed, settled-closed w log db h))

  retry_delivery-IsWritten :
      {old : FinalStatus}
      → status_in db.delivery_logs log.id ≡ some old
      → IsWritten w log db (retry_delivery w log db)
  unfolding retry_delivery
  retry_delivery-IsWritten h = elim (Bool-cases (is_truthy log.raw_email_path)) [
    | inl p ↦ elim (Bool-cases (leb max_retries (counted_failures db log.id))) [
      | inl e ↦ rw (p, e) (permanently_failed, settled-closed w log db h)
      | inr e ↦ rw (p, e) (route-IsWritten (read_attempt_route db log.email_address_id) h e)
    ]
    | inr p ↦ rw p (permanently_failed, settled-closed w log db h)
  ]

  -- Whatever Telegram answers, an attempt at a delivery whose log is there leaves it settled: the
  -- log has a status; where that is `permanently_failed`, the count of accepted mails is one less,
  -- if it was not 0, for the user that the mail was charged to in the month that it came in, and no
  -- other counter of any user changes; and where it is not, no counter changes and fewer than
  -- `max_retries` failures are counted.
  pub retry_delivery-IsSettled :
      {old : FinalStatus}
      → status_in db.delivery_logs log.id ≡ some old
      → IsSettled w log db (retry_delivery w log db)
  retry_delivery-IsSettled h =
      let (s, settled) = retry_delivery-IsWritten h in
      (s, settled-IsLeftAs month_of log db _ s settled)
