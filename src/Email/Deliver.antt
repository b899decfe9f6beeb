-- ===== src/Email/Deliver.antt =====
-- src/email/pipeline/deliver.ts: the first attempt at a queued mail. Files, links, rendering and
-- metrics leave the modelled tables alone; what they return is in `DeliverWorld`.
pub mod Attempt
pub mod Sends
use email_to_telegram.Base.{
  ℕ, ℤ, Bool, true, false, not, ◌&&◌, ◌||◌, Option, none, some, List, [], ◌∷◌, ◌==◌, ltb, or_else,
  is_truthy, if◌then◌else◌,
}
use email_to_telegram.Store.Rows.{
  Db, EmailAddress, DeliveryLog, FinalStatus, failed, delivered, permanently_failed,
}
use email_to_telegram.Store.Users.{is_active, find_alias_by_id}
use email_to_telegram.Store.Usage.{decrement_user_storage_usage}
use email_to_telegram.Store.Logs.{mark_delivery_log_processing, update_delivery_log_status}
use email_to_telegram.Email.Outcome.{
  SendResult, SendPhotosResult, AttemptRoute, route, unavailable, read_attempt_route,
  migrate_target, repair_from_delivery,
}
use email_to_telegram.Email.Inbound.{Attachment, QueuedEmail}
use email_to_telegram.Email.Retry.{
  RetryWorld, disposition, is_permanent, persist_attempt, refund_if_closed, abort_if,
}

-- How `writeAttachment` and `createAttachment` ended for an attachment: it was stored; it was not,
-- and its file is gone; or it was not, and a file may be left.
pub data StoredAs : Type 0 where
  stored dropped left_over : StoredAs

-- What the outside answers, and what other transactions do to the tables before the second and
-- before the third look at the alias. `renders` is false where the rendering threw, `persisted`
-- where the write after the send failed for good.
pub record DeliverWorld : Type 0 where
  pub answers : RetryWorld
  pub now : ℕ
  pub has_api : Bool
  pub stored_as : List StoredAs
  pub renders : Bool
  pub persisted : Bool
  pub before_recheck : Db → Db
  pub before_route : Db → Db

pub data DeliverResult : Type 0 where
  delivered_ok user_deleted send_failed chat_migrated threw : DeliverResult

-- The tables that are left, the result, and the chat that the text was sent to.
pub record DeliverOutcome : Type 0 where
  pub tables : Db
  pub result : DeliverResult
  pub text_sent_to : Option ℤ

abbrev pub unsent : Db → DeliverResult → DeliverOutcome
unsent db r = record { tables = db; result = r; text_sent_to = none }

-- The alias is there, active, and its owner's still.
abbrev pub is_owned : ℕ → Option EmailAddress → Bool
is_owned owner none = false
is_owned owner (some a) = is_active a.status && (a.created_by == owner)

-- `decrementUserStorageUsage`, whose failure is caught.
abbrev pub release : ℕ → Attachment → StoredAs → Db → Db
release owner a dropped db =
    if ltb 0 a.size_bytes
    then or_else (decrement_user_storage_usage owner 0 a.size_bytes db) db
    else db
release owner a _ db = db

-- The loop over the attachments.
unfoldable pub store_attachments : ℕ → List Attachment → List StoredAs → Db → Db
store_attachments owner (a ∷ rest) (s ∷ outcomes) db =
    store_attachments owner rest outcomes (release owner a s db)
store_attachments owner _ _ db = db

module _ (w : DeliverWorld) (job : QueuedEmail) where
  open job use {alias, delivery_log}
  open w use {answers}

  -- `privacy mode requires a durable raw email path`
  abbrev pub rendered : Bool
  rendered = w.renders && (not alias.privacy_mode_enabled || is_truthy delivery_log.raw_email_path)

  abbrev pub failed_status : FinalStatus
  failed_status = if is_permanent (disposition answers) then permanently_failed else failed

  abbrev pub first_status : FinalStatus
  first_status = if answers.send.ok then delivered else failed_status

  -- The chat that another took the place of, as told by the send of the fallback message.
  abbrev pub fallback_target : Option SendResult → Option ℤ
  fallback_target none = none
  fallback_target (some r) = if r.ok then none else migrate_target r.failure

  abbrev pub photos_target : SendPhotosResult → Option ℤ → Option ℤ
  photos_target r (some new_chat) = some new_chat
  photos_target r none = if ltb 0 r.failed_photos then fallback_target answers.fallback else none

  abbrev pub sent_photos_target : Option SendPhotosResult → Option ℤ
  sent_photos_target none = none
  sent_photos_target (some r) = photos_target r (migrate_target r.failure)

  -- The chat to move to, where one of the secondary sends names one.
  unfoldable pub secondary_target : Option ℤ
  secondary_target =
      if not alias.privacy_mode_enabled && ltb 0 answers.images
      then sent_photos_target answers.photos
      else none

  abbrev pub secondary_result : Option ℤ → DeliverResult
  secondary_result none = delivered_ok
  secondary_result (some new_chat) = chat_migrated

  -- The end of an attempt whose text was sent, after the write of its outcome.
  unfoldable pub after_text : ℤ → Db → Db × DeliverResult
  unfolding secondary_target
  after_text chat db =
      let refunded = refund_if_closed answers delivery_log first_status db in
      if answers.send.ok
      then (
        abort_if answers delivery_log chat secondary_target db,
        secondary_result secondary_target,
      )
      else (
        repair_from_delivery answers.repair chat (migrate_target answers.send.failure) refunded,
        send_failed,
      )

  -- From the send on.
  unfoldable pub send_on_route : ℤ → Option ℕ → Db → Db × DeliverResult
  unfolding after_text
  send_on_route chat thread db =
      if w.persisted
      then after_text chat (persist_attempt answers delivery_log chat thread 0 first_status db)
      else (update_delivery_log_status delivery_log.id failed db, threw)

  abbrev pub sent : ℤ → Db × DeliverResult → DeliverOutcome
  sent chat (db, r) = record { tables = db; result = r; text_sent_to = some chat }

  abbrev pub deliver_on : AttemptRoute → Db → DeliverOutcome
  deliver_on (unavailable status) db = unsent db user_deleted
  deliver_on (route a chat thread) db =
      if a.created_by == alias.created_by
      then sent chat (send_on_route chat thread db)
      else unsent db user_deleted

  -- The recheck and the read of the route, each after what others did.
  unfoldable pub deliver_prepared : Db → DeliverOutcome
  unfolding send_on_route
  deliver_prepared db =
      let seen = w.before_recheck db in
      let routed = w.before_route seen in
      if is_owned alias.created_by (find_alias_by_id seen alias.id)
      then deliver_on (read_attempt_route routed alias.id) routed
      else unsent seen user_deleted

  -- The tables after the first transaction.
  unfoldable pub prepare : Db → Db
  unfolding store_attachments
  prepare db =
      store_attachments alias.created_by job.parsed.attachments w.stored_as
        (mark_delivery_log_processing w.now delivery_log.id db)

  unfoldable pub deliver_queued_email : Db → DeliverOutcome
  unfolding deliver_prepared prepare
  deliver_queued_email db =
      if not (is_owned alias.created_by (find_alias_by_id db alias.id))
      then unsent db user_deleted
      else if not rendered
      then unsent (update_delivery_log_status delivery_log.id failed db) threw
      else if w.has_api
      then deliver_prepared (prepare db)
      else unsent (prepare db) delivered_ok
