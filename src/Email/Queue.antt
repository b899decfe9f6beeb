-- ===== src/Email/Queue.antt =====
-- src/email/pipeline/queue.ts: an inbound mail is accepted into durable processing, or rejected. The body of the locked transaction is one step on the tables.
pub mod Accepted
pub mod Bounds
pub mod Once
use email_to_telegram.Base.{
  ℕ, ◌+◌, ◌-◌, ◌*◌, String, Bool, true, false, not, Option, none, some, List, [], ◌∷◌, map, leb,
  or_else, if◌then◌else◌, is_truthy, TextOps,
}
use email_to_telegram.Billing.Plans.{EffectivePlans}
use email_to_telegram.Billing.Limits.{
  LimitCode, LimitResult, within_limit, inactive, over_limit, subscription_inactive,
  monthly_email_limit, storage_limit, InboundPlan, resolve_inbound_plan,
  check_inbound_limit_for_plan,
}
use email_to_telegram.Email.AllowRules.{
  SenderAuth, AllowEvaluation, allowed, denied, AllowEvaluationReason, sender_not_allowed,
  evaluate_allow_rules, has_authenticated_rule_candidate,
}
use email_to_telegram.Email.Inbound.{
  Attachment, ParsedEmail, PipelineInput, Env, RejectReason, Rejection, QueuedEmail,
  QueueInboundResult, Decision, alias_not_found, duplicate, rate_limited, sender_denied, limit,
  queued, rejected, inbound_limit, is_dup, over_rate, accepted, find_alias_for_inbound,
}
use email_to_telegram.Store.Rows.{
  Db, EmailAddress, InboundDomain, DeliveryLog, DeliveryLogMetadata, StorageEncryption, received,
}
use email_to_telegram.Store.Users.{
  is_active, is_active_domain, find_alias_by_local_part, find_alias_in_domain,
  find_inbound_domain_by_domain, list_allow_rules,
}
use email_to_telegram.Store.Usage.{
  increment_user_usage_month, increment_user_storage_usage, get_user_usage_month,
  delivered_count_of,
}
use email_to_telegram.Store.Logs.{
  is_duplicate, count_recent_deliveries_by_alias, create_delivery_log,
}

-- The sum over `parsed.attachments`.
unfoldable pub reserved_attachment_bytes : List Attachment → ℕ
reserved_attachment_bytes [] = 0
reserved_attachment_bytes (a ∷ rest) = a.size_bytes + reserved_attachment_bytes rest

-- `isQuotaNotificationReason`
abbrev pub is_quota_notification_reason : LimitCode → Bool
is_quota_notification_reason monthly_email_limit = true
is_quota_notification_reason storage_limit = true
is_quota_notification_reason subscription_inactive = true
is_quota_notification_reason _ = false

abbrev pub is_nil : List Attachment → Bool
is_nil [] = true
is_nil (a ∷ rest) = false

abbrev pub plain_rejection : RejectReason → QueueInboundResult
plain_rejection reason =
    rejected (record { reason = reason; user_id = none; month = none; sender_rejection = none })

abbrev pub not_found : QueueInboundResult
not_found = plain_rejection alias_not_found

module _ (env : Env) (input : PipelineInput) (alias : EmailAddress) where
  open env use {hosted, plans, now, month, parsed}

  -- `received_at` has the default `now()` in the source; here it is the clock of the checks.
  abbrev pub new_log : DeliveryLog
  new_log = record {
    id = env.log_id;
    email_address_id = alias.id;
    user_id = some alias.created_by;
    message_id_header = parsed.message_id;
    body_sha256 = parsed.body_sha256;
    body_dedup_applied = alias.body_dedup_enabled;
    metadata = env.metadata;
    received_at = now;
    processing_started_at = none;
    raw_size_bytes = parsed.raw_size_bytes;
    raw_email_path = input.raw_email_path;
    raw_email_encryption = input.raw_email_encryption;
    has_attachments = not (is_nil parsed.attachments);
    final_status = received;
  }

  -- The charges of an accepted mail: the month's count and the storage.
  unfoldable pub charge : Db → Db
  charge db =
      increment_user_storage_usage alias.created_by input.raw_email_length
        (reserved_attachment_bytes parsed.attachments)
        (increment_user_usage_month alias.created_by month
          (record { delivered = 1; rejected = 0; egress = 0 }) db)

  -- A violated unique index is a duplicate.
  unfoldable pub insert_log : Db → Db × Decision
  unfolding charge
  insert_log db =
      let (db', created) = create_delivery_log new_log db in
      if created
      then (
        charge db',
        accepted new_log
            (delivered_count_of (get_user_usage_month (charge db') alias.created_by month)),
      )
      else (db, is_dup)

  unfoldable pub check_rate : ℕ → Db → Db × Decision
  unfolding insert_log
  check_rate per_hour db =
      if leb per_hour (count_recent_deliveries_by_alias db alias.id (now - 60 * 60 * 1000))
      then (db, over_rate)
      else insert_log db

  unfoldable pub check_duplicate : ℕ → Db → Db × Decision
  unfolding check_rate
  check_duplicate per_hour db =
      if is_duplicate db parsed.message_id parsed.body_sha256 alias.id alias.body_dedup_enabled
      then (db, is_dup)
      else check_rate per_hour db

  -- A rejection for a quota counts as lost mail; one for the message's size does not.
  unfoldable pub refuse : LimitCode → Db → Db × Decision
  refuse code db = (
    if is_quota_notification_reason code
        then increment_user_usage_month alias.created_by month
            (record { delivered = 0; rejected = 1; egress = 0 }) db
        else db,
    inbound_limit code,
  )

  unfoldable pub decide_limit : ℕ → Db → LimitResult → Db × Decision
  unfolding check_duplicate refuse
  decide_limit per_hour db within_limit = check_duplicate per_hour db
  decide_limit per_hour db inactive = refuse subscription_inactive db
  decide_limit per_hour db (over_limit code most used) = refuse code db

  abbrev pub inbound_plan : Db → InboundPlan
  inbound_plan db = resolve_inbound_plan plans now hosted db (some alias.created_by)

  -- The transaction of `queueAllowedInboundEmail`.
  unfoldable pub queue_transaction : Db → Db × Decision
  unfolding decide_limit
  queue_transaction db =
      let inbound = inbound_plan db in
      decide_limit inbound.plan.limits.alias_emails_per_hour db (
        check_inbound_limit_for_plan db inbound (some input.raw_email_length)
          (some (input.raw_email_length + reserved_attachment_bytes parsed.attachments)) month)

  abbrev pub result_of : Decision → QueueInboundResult
  result_of is_dup = plain_rejection duplicate
  result_of over_rate = plain_rejection rate_limited
  result_of (inbound_limit code) = rejected (record {
    reason = limit code;
    user_id = some alias.created_by;
    month = some month;
    sender_rejection = none;
  })
  result_of (accepted log count) =
      queued (record { alias = alias; parsed = parsed; delivery_log = log }) month count

  unfoldable pub queue_allowed_inbound_email : Db → Db × QueueInboundResult
  unfolding queue_transaction
  queue_allowed_inbound_email db =
      let (db', decision) = queue_transaction db in (db', result_of decision)

  -- The sender is authenticated only where some rule names it.
  abbrev pub sender_auth_for : Db → Option SenderAuth
  sender_auth_for db =
      if has_authenticated_rule_candidate env.ops (list_allow_rules db alias.id)
        parsed.header_from_email parsed.header_from_domain
      then some env.sender_auth
      else none

  abbrev pub sender_rejection_of : AllowEvaluationReason → Option (ℕ × Option String)
  sender_rejection_of sender_not_allowed = some (alias.id, parsed.header_from_domain)
  sender_rejection_of _ = none

  unfoldable pub decide_sender : Db → AllowEvaluation → Db × QueueInboundResult
  unfolding queue_allowed_inbound_email
  decide_sender db allowed = queue_allowed_inbound_email db
  decide_sender db (denied reason) = (
    db,
    rejected (record {
      reason = sender_denied reason;
      user_id = none;
      month = none;
      sender_rejection = sender_rejection_of reason;
    }),
  )

module _ (env : Env) (input : PipelineInput) where
  unfoldable pub queue_for : Db → Option EmailAddress → Db × QueueInboundResult
  unfolding decide_sender
  queue_for db none = (db, not_found)
  queue_for db (some alias) =
      if is_active alias.status
      then decide_sender env input alias db (
          evaluate_allow_rules env.ops (list_allow_rules db alias.id)
            (sender_auth_for env input alias db))
      else (db, not_found)

  unfoldable pub queue_inbound_email : Db → Db × QueueInboundResult
  unfolding queue_for find_alias_for_inbound
  queue_inbound_email db =
      queue_for db
        (find_alias_for_inbound env.ops env.hosted db input.local_part input.recipient_domain)
