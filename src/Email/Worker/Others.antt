-- ===== src/Email/Worker/Others.antt =====
-- An attempt at one delivery (`retryDelivery`, src/email/retry.ts) and the rows of another.
use email_to_telegram.Base.{
  ℕ, ℤ, not, ◌&&◌, ◌||◌, Option, none, some, ◌≢◌, refl, if-split, leb, ltb, is_truthy,
}
use email_to_telegram.Store.Rows.{
  Db, EmailAddress, DeliveryLog, FinalStatus, failed, permanently_failed,
}
use email_to_telegram.Email.Outcome.{
  SendResult, SendPhotosResult, AttemptRoute, route, unavailable, read_attempt_route,
  migrate_target, repair_from_delivery, RepairInput,
}
use email_to_telegram.Email.Outcome.Frame.{repair_from_delivery-LeavesMail}
use email_to_telegram.Email.Retry.{
  RetryWorld, close_permanently_failed, new_attempt, persist_attempt, refund_if_closed,
  abort_attempt_for_migration, abort_if, after_fallback, after_photos, photos_phase, send_images,
  finish_attempt, attempt_on_route, retry_delivery, is_permanently_failed, max_retries,
}
use email_to_telegram.Email.Retry.Budget.{counted_failures}
use email_to_telegram.Email.Worker.Frame.{
  IsUntouched, IsUntouched-refl, IsUntouched-trans, LeavesMail→IsUntouched, refund-IsUntouched,
  status-IsUntouched, attempt-IsUntouched,
}

module _ (w : RetryWorld) (log : DeliveryLog) (id : ℕ) (apart : log.id ≢ id) where
  repair-IsUntouched :
      (input : RepairInput) (chat : ℤ) (target : Option ℤ) (db : Db)
      → IsUntouched id db (repair_from_delivery input chat target db)
  repair-IsUntouched input chat target db =
      LeavesMail→IsUntouched id db _ (repair_from_delivery-LeavesMail input chat target db)

  abort-IsUntouched :
      (chat new_chat : ℤ) (db : Db)
      → IsUntouched id db (abort_attempt_for_migration w log chat new_chat db)
  unfolding abort_attempt_for_migration
  abort-IsUntouched chat new_chat db =
      IsUntouched-trans id db _ _ (repair-IsUntouched w.second_repair chat (some new_chat) db)
        (status-IsUntouched id log.id apart failed _)

  abort_if-IsUntouched :
      (chat : ℤ) (target : Option ℤ) (db : Db) → IsUntouched id db (abort_if w log chat target db)
  abort_if-IsUntouched chat none db = IsUntouched-refl id db
  abort_if-IsUntouched chat (some new_chat) db = abort-IsUntouched chat new_chat db

  fallback-IsUntouched :
      (chat : ℤ) (r : Option SendResult) (db : Db)
      → IsUntouched id db (after_fallback w log chat r db)
  unfolding after_fallback
  fallback-IsUntouched chat none db = IsUntouched-refl id db
  fallback-IsUntouched chat (some r) db =
      if-split (IsUntouched id db) r.ok (λ e. IsUntouched-refl id db)
        (λ e. abort_if-IsUntouched chat (migrate_target r.failure) db)

  photos-IsUntouched :
      (chat : ℤ) (r : SendPhotosResult) (target : Option ℤ) (db : Db)
      → IsUntouched id db (after_photos w log chat r target db)
  unfolding after_photos
  photos-IsUntouched chat r (some new_chat) db = abort-IsUntouched chat new_chat db
  photos-IsUntouched chat r none db =
      if-split (IsUntouched id db) (ltb 0 r.failed_photos)
        (λ e. fallback-IsUntouched chat w.fallback db) (λ e. IsUntouched-refl id db)

  phase-IsUntouched :
      (chat : ℤ) (r : Option SendPhotosResult) (db : Db)
      → IsUntouched id db (photos_phase w log chat r db)
  phase-IsUntouched chat none db = IsUntouched-refl id db
  phase-IsUntouched chat (some r) db = photos-IsUntouched chat r (migrate_target r.failure) db

  images-IsUntouched :
      (alias : EmailAddress) (chat : ℤ) (db : Db)
      → IsUntouched id db (send_images w log alias chat db)
  unfolding send_images
  images-IsUntouched alias chat db =
      if-split (IsUntouched id db) (not alias.privacy_mode_enabled && ltb 0 w.images)
        (λ e. phase-IsUntouched chat w.photos db) (λ e. IsUntouched-refl id db)

  refund_if-IsUntouched :
      (s : FinalStatus) (db : Db) → IsUntouched id db (refund_if_closed w log s db)
  unfolding refund_if_closed
  refund_if-IsUntouched s db =
      if-split (IsUntouched id db) (is_permanently_failed s)
        (λ e. refund-IsUntouched id w.month_of log db) (λ e. IsUntouched-refl id db)

  persist-IsUntouched :
      (chat : ℤ) (thread : Option ℕ) (n : ℕ) (s : FinalStatus) (db : Db)
      → IsUntouched id db (persist_attempt w log chat thread n s db)
  unfolding persist_attempt
  persist-IsUntouched chat thread n s db =
      IsUntouched-trans id db _ _
        (attempt-IsUntouched id log.id apart (new_attempt w log chat thread n) db refl)
        (status-IsUntouched id log.id apart s _)

  finish-IsUntouched :
      (alias : EmailAddress) (chat : ℤ) (thread : Option ℕ) (n : ℕ) (s : FinalStatus) (db : Db)
      → IsUntouched id db (finish_attempt w log alias chat thread n s db)
  unfolding finish_attempt
  finish-IsUntouched alias chat thread n s db =
      let repaired = IsUntouched-trans id db _ _ (persist-IsUntouched chat thread n s db) (
        IsUntouched-trans id _ _ _ (refund_if-IsUntouched s _)
          (repair-IsUntouched w.repair chat (migrate_target w.send.failure) _)) in
      if-split (IsUntouched id db) w.send.ok
        (λ e. IsUntouched-trans id db _ _ repaired (images-IsUntouched alias chat _))
        (λ e. repaired)

  close-IsUntouched : (db : Db) → IsUntouched id db (close_permanently_failed w log db)
  unfolding close_permanently_failed
  close-IsUntouched db =
      IsUntouched-trans id db _ _ (status-IsUntouched id log.id apart permanently_failed db)
        (refund-IsUntouched id w.month_of log _)

  route-IsUntouched : (r : AttemptRoute) (db : Db) → IsUntouched id db (attempt_on_route w log r db)
  unfolding attempt_on_route
  route-IsUntouched (unavailable status) db = close-IsUntouched db
  route-IsUntouched (route alias chat thread) db =
      if-split (IsUntouched id db) w.raw_email_read
        (λ e. finish-IsUntouched alias chat thread _ _ db) (λ e. close-IsUntouched db)

  pub retry_delivery-IsUntouched : (db : Db) → IsUntouched id db (retry_delivery w log db)
  unfolding retry_delivery
  retry_delivery-IsUntouched db =
      if-split (IsUntouched id db)
        (not (is_truthy log.raw_email_path) || leb max_retries (counted_failures db log.id))
        (λ e. close-IsUntouched db)
        (λ e. route-IsUntouched (read_attempt_route db log.email_address_id) db)
