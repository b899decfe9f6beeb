-- ===== src/Billing/Plans.antt =====
-- src/billing/plans.ts: the plan table, its operator overrides, and the effective plans.
use email_to_telegram.Base.{ℕ, ◌*◌, String, Option, none, some, List, [], ◌∷◌, map, or_else}

pub data PlanCode : Type 0 where
  free personal pro team business : PlanCode

pub data SubscriptionStatus : Type 0 where
  free trialing active paused past_due canceled unpaid incomplete incomplete_expired :
      SubscriptionStatus

pub record PlanLimits : Type 0 where
  pub aliases : ℕ
  pub allow_rules : ℕ
  pub delivered_emails_month : ℕ
  pub egress_bytes_month : ℕ
  pub storage_bytes : ℕ
  pub max_message_bytes : ℕ
  pub retention_days : ℕ
  pub custom_domains : ℕ
  pub alias_emails_per_hour : ℕ

pub record PlanDefinition : Type 0 where
  pub code : PlanCode
  pub name : String
  pub monthly_price_usd : Option ℕ
  pub yearly_price_usd : Option ℕ
  pub limits : PlanLimits

abbrev mib : ℕ
mib = 1024 * 1024

abbrev gib : ℕ
gib = 1024 * mib

unfoldable pub plan_defaults : PlanCode → PlanDefinition
plan_defaults PlanCode.free = record {
  code = PlanCode.free;
  name = "Free";
  monthly_price_usd = some 0;
  yearly_price_usd = some 0;
  limits = record {
    aliases = 3;
    allow_rules = 10;
    delivered_emails_month = 200;
    egress_bytes_month = gib;
    storage_bytes = 100 * mib;
    max_message_bytes = 5 * mib;
    retention_days = 7;
    custom_domains = 0;
    alias_emails_per_hour = 60;
  };
}
plan_defaults PlanCode.personal = record {
  code = PlanCode.personal;
  name = "Personal";
  monthly_price_usd = some 5;
  yearly_price_usd = some 48;
  limits = record {
    aliases = 10;
    allow_rules = 50;
    delivered_emails_month = 1_000;
    egress_bytes_month = 10 * gib;
    storage_bytes = gib;
    max_message_bytes = 10 * mib;
    retention_days = 30;
    custom_domains = 0;
    alias_emails_per_hour = 60;
  };
}
plan_defaults PlanCode.pro = record {
  code = PlanCode.pro;
  name = "Pro";
  monthly_price_usd = some 12;
  yearly_price_usd = some 120;
  limits = record {
    aliases = 50;
    allow_rules = 500;
    delivered_emails_month = 10_000;
    egress_bytes_month = 100 * gib;
    storage_bytes = 10 * gib;
    max_message_bytes = 25 * mib;
    retention_days = 90;
    custom_domains = 0;
    alias_emails_per_hour = 60;
  };
}
plan_defaults PlanCode.team = record {
  code = PlanCode.team;
  name = "Team";
  monthly_price_usd = some 29;
  yearly_price_usd = some 290;
  limits = record {
    aliases = 200;
    allow_rules = 2_000;
    delivered_emails_month = 100_000;
    egress_bytes_month = 500 * gib;
    storage_bytes = 50 * gib;
    max_message_bytes = 25 * mib;
    retention_days = 180;
    custom_domains = 3;
    alias_emails_per_hour = 60;
  };
}
plan_defaults PlanCode.business = record {
  code = PlanCode.business;
  name = "Business";
  monthly_price_usd = none;
  yearly_price_usd = none;
  limits = record {
    aliases = 1_000;
    allow_rules = 10_000;
    delivered_emails_month = 1_000_000;
    egress_bytes_month = 5_000 * gib;
    storage_bytes = 500 * gib;
    max_message_bytes = 25 * mib;
    retention_days = 365;
    custom_domains = 25;
    alias_emails_per_hour = 60;
  };
}

abbrev pub plan_codes : List PlanCode
plan_codes =
    PlanCode.free ∷ PlanCode.personal ∷ PlanCode.pro ∷ PlanCode.team ∷ PlanCode.business ∷ []

-- `Partial<PlanLimits>`: a key that is absent is `none`.
pub record PlanLimitsPatch : Type 0 where
  pub aliases : Option ℕ
  pub allow_rules : Option ℕ
  pub delivered_emails_month : Option ℕ
  pub egress_bytes_month : Option ℕ
  pub storage_bytes : Option ℕ
  pub max_message_bytes : Option ℕ
  pub retention_days : Option ℕ
  pub custom_domains : Option ℕ
  pub alias_emails_per_hour : Option ℕ

abbrev pub PlanLimitOverrides : Type 0
PlanLimitOverrides = PlanCode → Option PlanLimitsPatch

-- `{ ...limits, ...patch }`
abbrev spread_limits : PlanLimits → Option PlanLimitsPatch → PlanLimits
spread_limits l none = l
spread_limits l (some p) = record {
  aliases = or_else p.aliases l.aliases;
  allow_rules = or_else p.allow_rules l.allow_rules;
  delivered_emails_month = or_else p.delivered_emails_month l.delivered_emails_month;
  egress_bytes_month = or_else p.egress_bytes_month l.egress_bytes_month;
  storage_bytes = or_else p.storage_bytes l.storage_bytes;
  max_message_bytes = or_else p.max_message_bytes l.max_message_bytes;
  retention_days = or_else p.retention_days l.retention_days;
  custom_domains = or_else p.custom_domains l.custom_domains;
  alias_emails_per_hour = or_else p.alias_emails_per_hour l.alias_emails_per_hour;
}

-- The module's `effectivePlans` variable.
abbrev pub EffectivePlans : Type 0
EffectivePlans = PlanCode → PlanDefinition

unfoldable pub build_effective_plans : PlanLimitOverrides → EffectivePlans
build_effective_plans overrides code =
    let defaults = plan_defaults code in
    record defaults { limits = spread_limits defaults.limits (overrides code) }

-- The assignment to `effectivePlans`: the old value is dropped.
unfoldable pub apply_plan_limit_overrides : PlanLimitOverrides → EffectivePlans → EffectivePlans
apply_plan_limit_overrides overrides _ = build_effective_plans overrides

unfoldable pub get_plan_definition : EffectivePlans → PlanCode → PlanDefinition
get_plan_definition plans code = plans code

unfoldable pub list_plan_definitions : EffectivePlans → List PlanDefinition
list_plan_definitions plans = map plans plan_codes
