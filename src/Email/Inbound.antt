-- ===== src/Email/Inbound.antt =====
-- src/email/pipeline/types.ts, src/email/types.ts and src/email/inboundRouting.ts: what the
-- acceptance of a mail is given and returns, and how the alias of a recipient is found.
use email_to_telegram.Base.{
  ℕ, String, Bool, Option, none, some, List, if◌then◌else◌, is_truthy, TextOps,
}
use email_to_telegram.Billing.Plans.{EffectivePlans}
use email_to_telegram.Billing.Limits.{LimitCode}
use email_to_telegram.Email.AllowRules.{SenderAuth, AllowEvaluationReason}
use email_to_telegram.Store.Rows.{
  Db, EmailAddress, InboundDomain, DeliveryLog, DeliveryLogMetadata, StorageEncryption,
}
use email_to_telegram.Store.Users.{
  is_active_domain, find_alias_by_local_part, find_alias_in_domain, find_inbound_domain_by_domain,
}

pub record Attachment : Type 0 where
  pub filename : String
  pub content_type : String
  pub size_bytes : ℕ
  pub sha256 : String

-- What `parseEmail` makes of the raw mail.
pub record ParsedEmail : Type 0 where
  pub message_id : Option String
  pub body_sha256 : Option String
  pub header_from_email : Option String
  pub header_from_domain : Option String
  pub attachments : List Attachment
  pub raw_size_bytes : ℕ

-- `PipelineInput`, without what is only passed on to the delivery.
pub record PipelineInput : Type 0 where
  pub raw_email_length : ℕ
  pub raw_email_path : Option String
  pub local_part : String
  pub recipient_domain : Option String
  pub raw_email_encryption : StorageEncryption

-- What the step is told from outside: the mode and the plans, the clock, and what the parser, the
-- sender authentication, the metadata encryption and the UUID source return for this mail.
pub record Env : Type 0 where
  pub ops : TextOps
  pub hosted : Bool
  pub plans : EffectivePlans
  pub now : ℕ
  pub month : String
  pub parsed : ParsedEmail
  pub sender_auth : SenderAuth
  pub metadata : DeliveryLogMetadata
  pub log_id : ℕ

pub data RejectReason : Type 0 where
  alias_not_found duplicate rate_limited : RejectReason
  sender_denied : AllowEvaluationReason → RejectReason
  limit : LimitCode → RejectReason

-- `PipelineResult` of a rejection.
pub record Rejection : Type 0 where
  pub reason : RejectReason
  pub user_id : Option ℕ
  pub month : Option String
  pub sender_rejection : Option (ℕ × Option String)

pub record QueuedEmail : Type 0 where
  pub alias : EmailAddress
  pub parsed : ParsedEmail
  pub delivery_log : DeliveryLog

pub data QueueInboundResult : Type 0 where
  queued : QueuedEmail → String → ℕ → QueueInboundResult
  rejected : Rejection → QueueInboundResult

-- The kinds that the transaction returns.
pub data Decision : Type 0 where
  inbound_limit : LimitCode → Decision
  is_dup over_rate : Decision
  accepted : DeliveryLog → ℕ → Decision

-- `findAliasForInbound`
find_in_domain : TextOps → Db → String → Option InboundDomain → Option EmailAddress
find_in_domain ops db local_part none = none
find_in_domain ops db local_part (some domain) =
    if is_active_domain domain.status then find_alias_in_domain db local_part domain.id else none

find_hosted : TextOps → Db → String → Option String → Option EmailAddress
unfolding find_in_domain
find_hosted ops db local_part none = none
find_hosted ops db local_part (some domain) =
    if is_truthy (some domain)
    then find_in_domain ops db local_part (find_inbound_domain_by_domain ops db domain)
    else none

unfoldable pub find_alias_for_inbound :
    TextOps → Bool → Db → String → Option String → Option EmailAddress
unfolding find_hosted
find_alias_for_inbound ops hosted db local_part domain =
    if hosted then find_hosted ops db local_part domain else find_alias_by_local_part db local_part
