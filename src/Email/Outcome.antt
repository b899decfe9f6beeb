-- ===== src/Email/Outcome.antt =====
-- What the delivery and the retry of a mail share: src/email/deliveryRoute.ts,
-- src/billing/usageRefund.ts, and the results of the sender (src/telegram/sender.ts).
pub mod Frame
pub mod Charge
use email_to_telegram.Base.{
  ℕ, ℤ, String, Bool, true, false, Option, none, some, List, [], or_else, if◌then◌else◌,
}
use email_to_telegram.Store.Rows.{
  Db, EmailAddress, AliasStatus, DeliveryLog, DeliveryAttempt, AttemptStatus, FinalStatus,
}
use email_to_telegram.Store.Users.{is_active, find_alias_by_id}
use email_to_telegram.Store.Usage.{decrement_user_usage_month}
use email_to_telegram.Telegram.ChatMigration.{
  ChatMigrationMeta, repair_chat_migration, prefetch_metadata,
}
use email_to_telegram.Telegram.Errors.{
  TelegramSendFailure, TelegramErrorClass, ErrorInput, message, structured,
}

-- `SendResult`
pub record SendResult : Type 0 where
  pub ok : Bool
  pub telegram_message_id : Option ℕ
  pub error : Option String
  pub failure : Option TelegramSendFailure

-- `SendPhotosResult`: the failed photos are counted.
pub record SendPhotosResult : Type 0 where
  pub failed_photos : ℕ
  pub failure : Option TelegramSendFailure

-- `readAttemptRoute`: the alias with the chat and topic of the attempt, or the status seen.
pub data AttemptRoute : Type 0 where
  route : EmailAddress → ℤ → Option ℕ → AttemptRoute
  unavailable : Option AliasStatus → AttemptRoute

abbrev pub route_of : Option EmailAddress → AttemptRoute
route_of none = unavailable none
route_of (some alias) =
    if is_active alias.status
    then route alias alias.chat_id alias.message_thread_id
    else unavailable (some alias.status)

unfoldable pub read_attempt_route : Db → ℕ → AttemptRoute
read_attempt_route db alias = route_of (find_alias_by_id db alias)

-- `result.failure ?? result.error`
abbrev pub error_from : Option TelegramSendFailure → Option String → ErrorInput
error_from none error = message error
error_from (some failure) error = structured failure

abbrev pub error_of : SendResult → ErrorInput
error_of r = error_from r.failure r.error

-- `failure?.migrateToChatId ?? null`
abbrev pub migrate_target : Option TelegramSendFailure → Option ℤ
migrate_target none = none
migrate_target (some f) = f.migrate_to_chat_id

-- The month that a mail was received in.
abbrev pub MonthOf : Type 0
MonthOf = ℕ → String

-- `refundAcceptedEmail`: an error is logged and changes nothing.
abbrev pub refund_user : Option ℕ → String → Db → Db
refund_user none month db = db
refund_user (some user) month db =
    or_else
      (decrement_user_usage_month user month (record { delivered = 1; rejected = 0; egress = 0 })
        db)
      db

unfoldable pub refund_accepted_email : MonthOf → DeliveryLog → Db → Db
refund_accepted_email month_of log db = refund_user log.user_id (month_of log.received_at) db

-- What Telegram tells of a chat that took another's place, and the id of the repair's audit.
pub record RepairInput : Type 0 where
  pub operation_id : ℕ
  pub chat_answer : Option ChatMigrationMeta

-- `repairChatMigration` from a delivery, whose failure is caught.
unfoldable pub repair_from_delivery : RepairInput → ℤ → Option ℤ → Db → Db
repair_from_delivery input old_chat none db = db
repair_from_delivery input old_chat (some new_chat) db =
    (repair_chat_migration input.operation_id old_chat new_chat none
      (prefetch_metadata db new_chat none input.chat_answer) db).0
