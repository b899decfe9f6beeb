-- ===== src/Examples/Data.antt =====
-- A tenant with one alias, one allow rule and one chat, and a mail for it.
use email_to_telegram.Base.{ℤ, negsuc, true, false, none, some, [], ◌∷◌, TextOps}
use email_to_telegram.Billing.Plans.{
  PlanCode, SubscriptionStatus, EffectivePlans, build_effective_plans,
}
use email_to_telegram.Email.AllowRules.{AllowRule, SenderAuth, pass}
use email_to_telegram.Email.Inbound.{ParsedEmail, PipelineInput, Env}
use email_to_telegram.Store.Rows.{
  User, AliasStatus, EmailAddress, DomainStatus, StorageEncryption, DeliveryLogMetadata, Chat, Db,
}

-- ASCII texts in lower case, with no space at either end.
abbrev pub lower_ops : TextOps
lower_ops = record { to_lower = λ s. s; trim = λ s. s }

abbrev pub owner : User
owner = record {
  id = 7;
  plan_code = PlanCode.pro;
  subscription_status = SubscriptionStatus.active;
  stripe_customer_id = none;
  stripe_subscription_id = none;
  trial_ends_at = none;
  current_period_start = none;
  current_period_end = none;
  paid_through_at = none;
  updated_at = 0;
}

abbrev pub old_group : ℤ
old_group = negsuc 41

abbrev pub new_group : ℤ
new_group = negsuc 99

abbrev pub news : EmailAddress
news = record {
  id = 1;
  local_part = "news";
  full_address = "news@in.io";
  domain_id = some 3;
  chat_id = old_group;
  message_thread_id = some 5;
  created_by = 7;
  render_mode = "plain";
  privacy_mode_enabled = false;
  body_dedup_enabled = true;
  status = AliasStatus.active;
  routing_version = 0;
}

abbrev pub alerts : EmailAddress
alerts = record news { id = 2; local_part = "alerts"; full_address = "alerts@in.io" }

abbrev pub ann_rule : AllowRule
ann_rule = record { match_type = "exact_email"; match_value = "ann@b.io" }

abbrev pub group_chat : Chat
group_chat = record { id = old_group; title = "Team"; chat_type = "group"; is_active = true }

abbrev pub tables : Db
tables = record {
  users = owner ∷ [];
  usage_months = [];
  storage_usage = [];
  aliases = news ∷ alerts ∷ [];
  allow_rules =
      record { email_address_id = 1; rule = ann_rule }
      ∷ record { email_address_id = 2; rule = ann_rule }
      ∷ [];
  inbound_domains = record { id = 3; domain = "in.io"; status = DomainStatus.active } ∷ [];
  delivery_logs = [];
  delivery_attempts = [];
  chats = group_chat ∷ [];
  move_events = [];
}

abbrev pub unencrypted : StorageEncryption
unencrypted = record {
  encryption_mode = "none";
  wrapped_dek = none;
  kek_key_id = none;
  encrypted_at = none;
}

abbrev pub ann : SenderAuth
ann = record {
  header_from_email = some "ann@b.io";
  header_from_domain = some "b.io";
  authenticated_domains = "b.io" ∷ [];
  status = pass;
}

abbrev pub hello : ParsedEmail
hello = record {
  message_id = some "<1@b.io>";
  body_sha256 = some "h1";
  header_from_email = some "ann@b.io";
  header_from_domain = some "b.io";
  attachments =
      record {
        filename = "a.pdf";
        content_type = "application/pdf";
        size_bytes = 500;
        sha256 = "x";
      }
      ∷ [];
  raw_size_bytes = 900;
}

abbrev pub hello_input : PipelineInput
hello_input = record {
  raw_email_length = 900;
  raw_email_path = some "raw/1";
  local_part = "news";
  recipient_domain = some "in.io";
  raw_email_encryption = unencrypted;
}

abbrev pub alerts_input : PipelineInput
alerts_input = record hello_input { local_part = "alerts"; raw_email_path = some "raw/2" }

abbrev pub no_metadata : DeliveryLogMetadata
no_metadata = record {
  envelope_from = none;
  header_from = none;
  subject = none;
  metadata_ciphertext = none;
  metadata_encryption = unencrypted;
}

abbrev pub default_plans : EffectivePlans
default_plans = build_effective_plans (λ code. none)

abbrev pub hello_env : Env
hello_env = record {
  ops = lower_ops;
  hosted = true;
  plans = default_plans;
  now = 10000000;
  month = "2026-07";
  parsed = hello;
  sender_auth = ann;
  metadata = no_metadata;
  log_id = 1;
}

-- The same mail, an hour later.
abbrev pub again_env : Env
again_env = record hello_env { now = 13600001; log_id = 2 }
