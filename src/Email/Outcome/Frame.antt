-- ===== src/Email/Outcome/Frame.antt =====
-- Which tables the refund (src/billing/usageRefund.ts) and the repair of a migration
-- (src/telegram/chatMigration.ts) leave alone, and the status of a log after a write.
use mathlib.Core.Option
use email_to_telegram.Base.{
  ℕ, ℤ, Option, none, some, List, [], ◌∷◌, ◌≡◌, refl, ap, ◌∙◌, arith, ◌==◌, find?,
  find?-update_self,
}
use email_to_telegram.Store.Rows.{Db, DeliveryLog, FinalStatus, EmailAddress}
use email_to_telegram.Store.Logs.{update_delivery_log_status, set_status}
use email_to_telegram.Store.Usage.{decrement_user_usage_month}
use email_to_telegram.Store.Routing.{insert_alias_move_event}
use email_to_telegram.Telegram.ChatMigration.{
  ChatMigrationMeta, repair_chat_migration, register_target, upsert_chat, audit_migration,
  deactivate_chat,
}
use email_to_telegram.Email.Outcome.{
  RepairInput, repair_from_delivery, refund_accepted_email, MonthOf,
}

-- The tables of the mail itself: the logs, the attempts, the monthly counters.
pub record LeavesMail (db db' : Db) : Type 0 where
  pub logs : db'.delivery_logs ≡ db.delivery_logs
  pub attempts : db'.delivery_attempts ≡ db.delivery_attempts
  pub usage : db'.usage_months ≡ db.usage_months

LeavesMail-refl : (db : Db) → LeavesMail db db
LeavesMail-refl db = record { logs = refl; attempts = refl; usage = refl }

LeavesMail-trans : (a b c : Db) → LeavesMail a b → LeavesMail b c → LeavesMail a c
LeavesMail-trans a b c g h = record {
  logs = h.logs ∙ g.logs;
  attempts = h.attempts ∙ g.attempts;
  usage = h.usage ∙ g.usage;
}

audit-LeavesMail :
    (operation : ℕ) (old_chat new_chat : ℤ) (rows : List EmailAddress) (db : Db)
    → LeavesMail db (audit_migration operation old_chat new_chat rows db)
unfolding audit_migration insert_alias_move_event
audit-LeavesMail operation old_chat new_chat [] db = LeavesMail-refl db
audit-LeavesMail operation old_chat new_chat (a ∷ rest) db =
    let ih = audit-LeavesMail operation old_chat new_chat rest _ in
    record { logs = ih.logs; attempts = ih.attempts; usage = ih.usage }

register-LeavesMail :
    (old_chat new_chat : ℤ) (meta fetched : Option ChatMigrationMeta) (db : Db)
    → LeavesMail db (register_target old_chat new_chat meta fetched db)
unfolding register_target upsert_chat
register-LeavesMail old_chat new_chat none fetched db = ground arith
register-LeavesMail old_chat new_chat (some meta) fetched db = record {
  logs = refl;
  attempts = refl;
  usage = refl;
}

repair-LeavesMail :
    (operation : ℕ) (old_chat new_chat : ℤ) (meta fetched : Option ChatMigrationMeta) (db : Db)
    → LeavesMail db (repair_chat_migration operation old_chat new_chat meta fetched db).0
unfolding repair_chat_migration deactivate_chat
repair-LeavesMail operation old_chat new_chat meta fetched db =
    let reg = register-LeavesMail old_chat new_chat meta fetched db in
    let aud = audit-LeavesMail operation old_chat new_chat _ _ in
    record {
      logs = aud.logs ∙ reg.logs;
      attempts = aud.attempts ∙ reg.attempts;
      usage = aud.usage ∙ reg.usage;
    }

pub repair_from_delivery-LeavesMail :
    (input : RepairInput) (old_chat : ℤ) (target : Option ℤ) (db : Db)
    → LeavesMail db (repair_from_delivery input old_chat target db)
unfolding repair_from_delivery
repair_from_delivery-LeavesMail input old_chat none db = LeavesMail-refl db
repair_from_delivery-LeavesMail input old_chat (some new_chat) db =
    repair-LeavesMail input.operation_id old_chat new_chat none _ db

-- The status of a log, where there is one.
abbrev pub status_in : List DeliveryLog → ℕ → Option FinalStatus
status_in logs id = Option.map (λ l. l.final_status) (find? (λ (l : DeliveryLog). l.id == id) logs)

abbrev replaced : FinalStatus → Option FinalStatus → Option FinalStatus
replaced s none = none
replaced s (some t) = some s

update-status :
    (id : ℕ) (s : FinalStatus) (db : Db)
    → status_in (update_delivery_log_status id s db).delivery_logs id
      ≡ replaced s (status_in db.delivery_logs id)
unfolding update_delivery_log_status
update-status id s db =
    rw
      (find?-update_self (λ (l : DeliveryLog). l.id == id) (set_status s) db.delivery_logs
        (λ l. refl))
      (ground arith)

-- A log that is there has the status that was written last.
pub update-status_some :
    (id : ℕ) (s : FinalStatus) (db : Db) {old : FinalStatus}
    → status_in db.delivery_logs id ≡ some old
    → status_in (update_delivery_log_status id s db).delivery_logs id ≡ some s
update-status_some id s db h = update-status id s db ∙ ap (replaced s) h

pub update_status-usage :
    (id : ℕ) (s : FinalStatus) (db : Db)
    → (update_delivery_log_status id s db).usage_months ≡ db.usage_months
unfolding update_delivery_log_status
update_status-usage id s db = refl

-- A refund touches the counters alone.
pub refund-logs :
    (month_of : MonthOf) (log : DeliveryLog) (db : Db)
    → (refund_accepted_email month_of log db).delivery_logs ≡ db.delivery_logs
unfolding refund_accepted_email decrement_user_usage_month
refund-logs month_of log db = ground arith

pub refund-attempts :
    (month_of : MonthOf) (log : DeliveryLog) (db : Db)
    → (refund_accepted_email month_of log db).delivery_attempts ≡ db.delivery_attempts
unfolding refund_accepted_email decrement_user_usage_month
refund-attempts month_of log db = ground arith
