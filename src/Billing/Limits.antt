-- ===== src/Billing/Limits.antt =====
-- src/billing/limits.ts: the plan that governs a user, and the quota checks. `hosted` is the
-- configured mode (`shouldEnforceHostedLimits`), `plans` the effective plans, `now` the clock.
pub mod Laws
use email_to_telegram.Base.{
  ℕ, ◌+◌, ◌*◌, ◌≤◌, String, Bool, true, false, Option, none, some, leb, ltb, if◌then◌else◌, or_else,
  is_some, ◌&&◌,
}
use email_to_telegram.Billing.Plans.{
  PlanCode, SubscriptionStatus, PlanDefinition, EffectivePlans, get_plan_definition,
}
use email_to_telegram.Store.Rows.{Db, User, UserUsageMonth, UserStorageUsage}
use email_to_telegram.Store.Users.{
  find_user_by_id, count_active_aliases_by_user, count_allow_rules_by_user,
}
use email_to_telegram.Store.Usage.{
  get_user_usage_month, get_user_storage_usage, stored_bytes, delivered_count_of, egress_bytes_of,
}

pub data LimitCode : Type 0 where
  subscription_inactive alias_limit allow_rule_limit monthly_email_limit storage_limit : LimitCode
  message_size_limit egress_limit : LimitCode

-- `LimitResult`: a refusal has its limit and what is used, where the source gives them.
pub data LimitResult : Type 0 where
  within_limit : LimitResult
  inactive : LimitResult
  over_limit : LimitCode → ℕ → ℕ → LimitResult

abbrev pub past_due_grace_ms : ℕ
past_due_grace_ms = 7 * 24 * 60 * 60 * 1000

-- `paidThroughAt && now - paidThroughAt <= grace`
abbrev pub in_grace : ℕ → Option ℕ → Bool
in_grace now none = false
in_grace now (some t) = leb now (t + past_due_grace_ms)

-- The switch on the status, for a paid plan.
paid_plan_code : ℕ → PlanCode → SubscriptionStatus → Option ℕ → PlanCode
paid_plan_code now code SubscriptionStatus.trialing paid = code
paid_plan_code now code SubscriptionStatus.active paid = code
paid_plan_code now code SubscriptionStatus.past_due paid =
    if in_grace now paid then code else PlanCode.free
paid_plan_code now code _ paid = PlanCode.free

unfoldable pub effective_plan_code : ℕ → PlanCode → SubscriptionStatus → Option ℕ → PlanCode
unfolding paid_plan_code
effective_plan_code now PlanCode.free status paid = PlanCode.free
effective_plan_code now PlanCode.business status paid = PlanCode.business
effective_plan_code now PlanCode.personal status paid =
    paid_plan_code now PlanCode.personal status paid
effective_plan_code now PlanCode.pro status paid = paid_plan_code now PlanCode.pro status paid
effective_plan_code now PlanCode.team status paid = paid_plan_code now PlanCode.team status paid

-- `userId == null ? null : findUserById(userId)`
abbrev pub find_owner : Db → Option ℕ → Option User
find_owner db none = none
find_owner db (some id) = find_user_by_id db id

pub record InboundPlan : Type 0 where
  pub hosted : Bool
  pub user : Option User
  pub plan : PlanDefinition

-- The check of a count against a limit.
abbrev pub check_count : LimitCode → ℕ → ℕ → LimitResult
check_count code limit used = if leb limit used then over_limit code limit used else within_limit

-- The last check: the month's count.
check_month : PlanDefinition → ℕ → LimitResult
check_month plan used = check_count monthly_email_limit plan.limits.delivered_emails_month used

-- A delta that is absent or 0 is not checked.
check_storage : PlanDefinition → ℕ → Option ℕ → ℕ → LimitResult
unfolding check_month
check_storage plan current none used = check_month plan used
check_storage plan current (some delta) used =
    if ltb 0 delta && ltb plan.limits.storage_bytes (current + delta)
    then over_limit storage_limit plan.limits.storage_bytes current
    else check_month plan used

check_message : PlanDefinition → ℕ → Option ℕ → Option ℕ → ℕ → LimitResult
unfolding check_storage
check_message plan current none delta used = check_storage plan current delta used
check_message plan current (some size) delta used =
    if ltb plan.limits.max_message_bytes size
    then over_limit message_size_limit plan.limits.max_message_bytes size
    else check_storage plan current delta used

check_inbound_user : Db → Option User → PlanDefinition → Option ℕ → Option ℕ → String → LimitResult
unfolding check_message
check_inbound_user db none plan size delta month = inactive
check_inbound_user db (some user) plan size delta month =
    check_message plan (stored_bytes (get_user_storage_usage db user.id)) size delta
      (delivered_count_of (get_user_usage_month db user.id month))

unfoldable pub check_inbound_limit_for_plan :
    Db → InboundPlan → Option ℕ → Option ℕ → String → LimitResult
unfolding check_inbound_user
check_inbound_limit_for_plan db inbound size delta month =
    if inbound.hosted
    then check_inbound_user db inbound.user inbound.plan size delta month
    else within_limit

module _ (plans : EffectivePlans) (now : ℕ) where
  unfoldable pub get_effective_plan : User → PlanDefinition
  unfolding effective_plan_code get_plan_definition
  get_effective_plan user =
      get_plan_definition plans
        (effective_plan_code now user.plan_code user.subscription_status user.paid_through_at)

  abbrev pub check_alias_user : Db → Option User → LimitResult
  check_alias_user db none = inactive
  check_alias_user db (some user) =
      check_count alias_limit (get_effective_plan user).limits.aliases
        (count_active_aliases_by_user db user.id)

  abbrev pub check_allow_rule_user : Db → Option User → LimitResult
  check_allow_rule_user db none = inactive
  check_allow_rule_user db (some user) =
      check_count allow_rule_limit (get_effective_plan user).limits.allow_rules
        (count_allow_rules_by_user db user.id)

  unfoldable pub check_alias_create_limit : Bool → Db → Option ℕ → LimitResult
  check_alias_create_limit hosted db user =
      if hosted then check_alias_user db (find_owner db user) else within_limit

  unfoldable pub check_allow_rule_create_limit : Bool → Db → Option ℕ → LimitResult
  check_allow_rule_create_limit hosted db user =
      if hosted then check_allow_rule_user db (find_owner db user) else within_limit

  abbrev pub plan_of_owner : Option User → PlanDefinition
  plan_of_owner none = get_plan_definition plans PlanCode.free
  plan_of_owner (some user) = get_effective_plan user

  unfoldable pub resolve_inbound_plan : Bool → Db → Option ℕ → InboundPlan
  resolve_inbound_plan hosted db user =
      if hosted
      then record {
        hosted = true;
        user = find_owner db user;
        plan = plan_of_owner (find_owner db user);
      }
      else record { hosted = false; user = none; plan = get_plan_definition plans PlanCode.free }

  unfoldable pub check_inbound_limit :
      Bool → Db → Option ℕ → Option ℕ → Option ℕ → String → LimitResult
  unfolding check_inbound_limit_for_plan resolve_inbound_plan
  check_inbound_limit hosted db user size delta month =
      check_inbound_limit_for_plan db (resolve_inbound_plan hosted db user) size delta month

  check_egress_user : Db → Option User → ℕ → String → LimitResult
  check_egress_user db none egress month = inactive
  check_egress_user db (some user) egress month =
      let limit = (get_effective_plan user).limits.egress_bytes_month in
      let current = egress_bytes_of (get_user_usage_month db user.id month) in
      if ltb limit (current + egress) then over_limit egress_limit limit current else within_limit

  check_egress_id : Db → Option ℕ → ℕ → String → LimitResult
  unfolding check_egress_user
  check_egress_id db none egress month = inactive
  check_egress_id db (some id) egress month =
      if leb egress 0
      then within_limit
      else check_egress_user db (find_user_by_id db id) egress month

  unfoldable pub check_egress_limit : Bool → Db → Option ℕ → ℕ → String → LimitResult
  unfolding check_egress_id
  check_egress_limit hosted db user egress month =
      if hosted then check_egress_id db user egress month else within_limit

  -- `hasActiveHostedUser`
  unfoldable pub has_active_hosted_user : Bool → Db → Option ℕ → Bool
  has_active_hosted_user hosted db user = if hosted then is_some (find_owner db user) else true
