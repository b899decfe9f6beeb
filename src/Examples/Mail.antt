-- ===== src/Examples/Mail.antt =====
-- The theorems on the acceptance of a mail, at a mail that is accepted and at one that is not.
use email_to_telegram.Base.{some, refl, ◌≡◌, ◌≢◌, ◌≤◌, ◌+◌, ◌-◌, ◌*◌, true, [], ◌∷◌, ◌↔◌}
use email_to_telegram.Billing.Limits.{
  check_inbound_limit_for_plan, resolve_inbound_plan, get_effective_plan, effective_plan_code,
  within_limit, InboundPlan,
}
use email_to_telegram.Billing.Plans.{
  PlanCode, build_effective_plans, plan_defaults, get_plan_definition,
}
use email_to_telegram.Email.AllowRules.{
  evaluate_allow_rules, has_authenticated_rule_candidate, matches_rule_identity, normalize_email,
  normalize_domain, evaluate_authenticated, matches_authenticated_rule, allowed, denied,
  sender_auth_temperror, temperror, SenderAuth,
}
use email_to_telegram.Email.Inbound.{
  QueuedEmail, queued, duplicate, PipelineInput, Env, find_alias_for_inbound,
}
use email_to_telegram.Email.Queue.{
  queue_inbound_email, new_log, charge, plain_rejection, inbound_plan, reserved_attachment_bytes,
  insert_log, check_rate, check_duplicate, refuse, decide_limit, queue_transaction,
  queue_allowed_inbound_email, decide_sender, queue_for,
}
use email_to_telegram.Store.Logs.{
  create_delivery_log, count_recent_deliveries_by_alias, find_delivery_log_by_body_hash,
  find_delivery_log_by_message_id, is_duplicate,
}
use email_to_telegram.Store.Users.{
  find_alias_by_local_part, find_inbound_domain_by_domain, find_alias_in_domain, list_allow_rules,
  find_user_by_id,
}
use email_to_telegram.Store.Usage.{
  increment_user_storage_usage, increment_user_usage_month, get_user_storage_usage,
  get_user_usage_month,
}
use email_to_telegram.Store.Rows.{Db, User, EmailAddress}
use email_to_telegram.Email.Queue.Bounds.{queued-within_quota, queued-within_rate}
use email_to_telegram.Email.Queue.Once.{queued-once, rejected-IsUncharged, IsUncharged}
use email_to_telegram.Email.AllowRules.Laws.{evaluate-allowed_iff, IsAuthorised}
use email_to_telegram.Email.AllowRules.Temporary.{IsNamed, evaluate-temperror_iff}
use email_to_telegram.Billing.Limits.Laws.{inbound-within_iff, HasRoom}
use email_to_telegram.Store.Usage.Laws.{delivered_in}
use email_to_telegram.Examples.Data.{
  lower_ops, default_plans, owner, ann, ann_rule, alerts, alerts_input, again_env, tables,
  hello_env, hello_input, news,
}

-- What is left when a mail is queued for an alias, and the job.
abbrev left_by : Env → PipelineInput → EmailAddress → Db → Db
left_by env input alias db =
    charge env input alias (create_delivery_log (new_log env input alias) db).0

abbrev job_for : Env → PipelineInput → EmailAddress → QueuedEmail
job_for env input alias = record {
  alias = alias;
  parsed = env.parsed;
  delivery_log = new_log env input alias;
}

abbrev tables_after : Db
tables_after = left_by hello_env hello_input news tables

hello_queued :
    queue_inbound_email hello_env hello_input tables
    ≡ (tables_after, queued (job_for hello_env hello_input news) "2026-07" 1)
unfolding queue_inbound_email find_inbound_domain_by_domain find_alias_in_domain
    evaluate_allow_rules list_allow_rules has_authenticated_rule_candidate matches_rule_identity
    normalize_email normalize_domain increment_user_storage_usage check_inbound_limit_for_plan
    resolve_inbound_plan find_user_by_id get_effective_plan build_effective_plans plan_defaults
    reserved_attachment_bytes get_user_storage_usage get_user_usage_month effective_plan_code
    get_plan_definition evaluate_authenticated matches_authenticated_rule charge check_duplicate
    check_rate decide_limit decide_sender find_alias_for_inbound insert_log
    queue_allowed_inbound_email queue_for queue_transaction refuse count_recent_deliveries_by_alias
    create_delivery_log find_delivery_log_by_body_hash find_delivery_log_by_message_id is_duplicate
    increment_user_usage_month find_alias_by_local_part
hello_queued = refl

-- The same mail, to another alias.
alerts_queued : queue_inbound_email again_env alerts_input tables_after ≡ (
  left_by again_env alerts_input alerts tables_after,
  queued (job_for again_env alerts_input alerts) "2026-07" 2,
)
unfolding queue_inbound_email find_inbound_domain_by_domain find_alias_in_domain
    evaluate_allow_rules list_allow_rules has_authenticated_rule_candidate matches_rule_identity
    normalize_email normalize_domain increment_user_storage_usage check_inbound_limit_for_plan
    resolve_inbound_plan find_user_by_id get_effective_plan build_effective_plans plan_defaults
    reserved_attachment_bytes get_user_storage_usage get_user_usage_month effective_plan_code
    get_plan_definition evaluate_authenticated matches_authenticated_rule charge check_duplicate
    check_rate decide_limit decide_sender find_alias_for_inbound insert_log
    queue_allowed_inbound_email queue_for queue_transaction refuse count_recent_deliveries_by_alias
    create_delivery_log find_delivery_log_by_body_hash find_delivery_log_by_message_id is_duplicate
    increment_user_usage_month find_alias_by_local_part
alerts_queued = refl

hello_again : (queue_inbound_email again_env hello_input tables_after).1 ≡ plain_rejection duplicate
unfolding queue_inbound_email find_inbound_domain_by_domain find_alias_in_domain
    evaluate_allow_rules list_allow_rules has_authenticated_rule_candidate matches_rule_identity
    normalize_email normalize_domain increment_user_storage_usage check_inbound_limit_for_plan
    resolve_inbound_plan find_user_by_id get_effective_plan build_effective_plans plan_defaults
    reserved_attachment_bytes get_user_storage_usage get_user_usage_month effective_plan_code
    get_plan_definition evaluate_authenticated matches_authenticated_rule charge check_duplicate
    check_rate decide_limit decide_sender find_alias_for_inbound insert_log
    queue_allowed_inbound_email queue_for queue_transaction refuse count_recent_deliveries_by_alias
    create_delivery_log find_delivery_log_by_body_hash find_delivery_log_by_message_id is_duplicate
    increment_user_usage_month find_alias_by_local_part
hello_again = refl

queued-within_quota_example :
    (user : User) × (find_user_by_id tables_after 7 ≡ some user)
    × (2 ≡ delivered_in tables_after user.id "2026-07" + 1)
    × (delivered_in (left_by again_env alerts_input alerts tables_after) user.id "2026-07" ≡ 2)
    × (2 ≤ (get_effective_plan default_plans 13600001 user).limits.delivered_emails_month)
queued-within_quota_example =
    queued-within_quota again_env alerts_input tables_after refl alerts_queued

queued-within_rate_example :
    count_recent_deliveries_by_alias tables_after 1 (10000000 - 60 * 60 * 1000)
    ≤ (inbound_plan hello_env hello_input news tables).plan.limits.alias_emails_per_hour
queued-within_rate_example = queued-within_rate hello_env hello_input tables hello_queued

queued-once_example : alerts.id ≢ news.id
queued-once_example =
    queued-once hello_env again_env hello_input alerts_input tables "<1@b.io>" (λ e. cc) refl refl
      hello_queued alerts_queued

rejected-IsUncharged_example :
    IsUncharged tables_after (queue_inbound_email again_env hello_input tables_after).0
rejected-IsUncharged_example = rejected-IsUncharged again_env hello_input tables_after hello_again

evaluate-allowed_iff_example :
    (evaluate_allow_rules lower_ops (ann_rule ∷ []) (some ann) ≡ allowed)
    ↔ IsAuthorised lower_ops (ann_rule ∷ []) ann
evaluate-allowed_iff_example = evaluate-allowed_iff lower_ops (λ s. refl) (ann_rule ∷ []) ann

abbrev ann_later : SenderAuth
ann_later = record ann { status = temperror }

evaluate-temperror_iff_example :
    (evaluate_allow_rules lower_ops (ann_rule ∷ []) (some ann_later) ≡ denied sender_auth_temperror)
    ↔ (IsNamed lower_ops (ann_rule ∷ []) ann_later × (temperror ≡ temperror))
evaluate-temperror_iff_example = evaluate-temperror_iff lower_ops (ann_rule ∷ []) ann_later

abbrev hosted_plan : InboundPlan
hosted_plan = record { hosted = true; user = some owner; plan = default_plans PlanCode.pro }

inbound-within_iff_example :
    (check_inbound_limit_for_plan tables hosted_plan (some 900) (some 1400) "2026-07"
      ≡ within_limit)
    ↔ HasRoom tables (some owner) (default_plans PlanCode.pro) (some 900) (some 1400) "2026-07"
inbound-within_iff_example =
    inbound-within_iff tables hosted_plan (some 900) (some 1400) "2026-07" refl
