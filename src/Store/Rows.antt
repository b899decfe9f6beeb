-- ===== src/Store/Rows.antt =====
-- src/db/schema: the rows of the tables that the modelled operations read and write. A UUID is the
-- number that it stands for, a Telegram user id a number, a time the milliseconds since the epoch.
use email_to_telegram.Base.{ℕ, ℤ, String, Bool, Option, List}
use email_to_telegram.Billing.Plans.{PlanCode, SubscriptionStatus}
use email_to_telegram.Telegram.Errors.{TelegramErrorClass}
use email_to_telegram.Email.AllowRules.{AllowRule}

-- `users`, without the name and locale.
pub record User : Type 0 where
  pub id : ℕ
  pub plan_code : PlanCode
  pub subscription_status : SubscriptionStatus
  pub stripe_customer_id : Option String
  pub stripe_subscription_id : Option String
  pub trial_ends_at : Option ℕ
  pub current_period_start : Option ℕ
  pub current_period_end : Option ℕ
  pub paid_through_at : Option ℕ
  pub updated_at : ℕ

-- `user_usage_months`: the primary key is the user and the month, `YYYY-MM`.
pub record UserUsageMonth : Type 0 where
  pub user_id : ℕ
  pub month : String
  pub delivered_count : ℕ
  pub rejected_count : ℕ
  pub egress_bytes : ℕ

pub record UserStorageUsage : Type 0 where
  pub user_id : ℕ
  pub raw_email_bytes : ℕ
  pub attachment_bytes : ℕ

pub data AliasStatus : Type 0 where
  active paused deleted : AliasStatus

-- `email_addresses`, without the label and the times.
pub record EmailAddress : Type 0 where
  pub id : ℕ
  pub local_part : String
  pub full_address : String
  pub domain_id : Option ℕ
  pub chat_id : ℤ
  pub message_thread_id : Option ℕ
  pub created_by : ℕ
  pub render_mode : String
  pub privacy_mode_enabled : Bool
  pub body_dedup_enabled : Bool
  pub status : AliasStatus
  pub routing_version : ℕ

-- `allow_rules`: the alias that a rule belongs to, and the rule.
pub record AllowRuleRow : Type 0 where
  pub email_address_id : ℕ
  pub rule : AllowRule

pub data DomainStatus : Type 0 where
  active pending disabled : DomainStatus

pub record InboundDomain : Type 0 where
  pub id : ℕ
  pub domain : String
  pub status : DomainStatus

pub data FinalStatus : Type 0 where
  received processing retrying failed delivered permanently_failed : FinalStatus

-- The encryption of a stored file or of a log's metadata.
pub record StorageEncryption : Type 0 where
  pub encryption_mode : String
  pub wrapped_dek : Option String
  pub kek_key_id : Option String
  pub encrypted_at : Option ℕ

pub record DeliveryLogMetadata : Type 0 where
  pub envelope_from : Option String
  pub header_from : Option String
  pub subject : Option String
  pub metadata_ciphertext : Option String
  pub metadata_encryption : StorageEncryption

pub record DeliveryLog : Type 0 where
  pub id : ℕ
  pub email_address_id : ℕ
  pub user_id : Option ℕ
  pub message_id_header : Option String
  pub body_sha256 : Option String
  pub body_dedup_applied : Bool
  pub metadata : DeliveryLogMetadata
  pub received_at : ℕ
  pub processing_started_at : Option ℕ
  pub raw_size_bytes : ℕ
  pub raw_email_path : Option String
  pub raw_email_encryption : StorageEncryption
  pub has_attachments : Bool
  pub final_status : FinalStatus

pub data AttemptStatus : Type 0 where
  attempt_succeeded attempt_failed : AttemptStatus

pub record DeliveryAttempt : Type 0 where
  pub delivery_log_id : ℕ
  pub attempt_no : ℕ
  pub target_chat_id : ℤ
  pub target_thread_id : Option ℕ
  pub telegram_message_id : Option ℕ
  pub status : AttemptStatus
  pub error_text : Option String
  pub error_class : Option TelegramErrorClass

-- `chats`
pub record Chat : Type 0 where
  pub id : ℤ
  pub title : String
  pub chat_type : String
  pub is_active : Bool

pub data AuthzPath : Type 0 where
  admin orphan migration : AuthzPath

-- `alias_move_events`: the audit of a move or a migration. Every row written here succeeded.
pub record AliasMoveEvent : Type 0 where
  pub operation_id : ℕ
  pub alias_id : ℕ
  pub alias_owner_id : ℕ
  pub actor_id : Option ℕ
  pub authz_path : AuthzPath
  pub old_chat_id : ℤ
  pub new_chat_id : ℤ
  pub old_thread_id : Option ℕ
  pub new_thread_id : Option ℕ

-- The tables.
pub record Db : Type 0 where
  pub users : List User
  pub usage_months : List UserUsageMonth
  pub storage_usage : List UserStorageUsage
  pub aliases : List EmailAddress
  pub allow_rules : List AllowRuleRow
  pub inbound_domains : List InboundDomain
  pub delivery_logs : List DeliveryLog
  pub delivery_attempts : List DeliveryAttempt
  pub chats : List Chat
  pub move_events : List AliasMoveEvent
