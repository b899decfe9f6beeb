-- ===== src/Email/AllowRules.antt =====
-- src/email/allowRuleEvaluator.ts: whether the authenticated sender of a mail may write to an
-- alias.
pub mod Laws
pub mod Temporary
use email_to_telegram.Base.{
  String, Bool, true, false, ◌&&◌, ◌||◌, not, Option, none, some, List, [], ◌∷◌, map, any, str_eq,
  if◌then◌else◌, includes, is_some, is_text, opt_str_eq, TextOps,
}

pub record AllowRule : Type 0 where
  pub match_type : String
  pub match_value : String

pub data AuthStatus : Type 0 where
  pass fail temperror permerror : AuthStatus

pub record SenderAuth : Type 0 where
  pub header_from_email : Option String
  pub header_from_domain : Option String
  pub authenticated_domains : List String
  pub status : AuthStatus

pub data AllowEvaluationReason : Type 0 where
  sender_not_allowed sender_auth_failed sender_auth_temperror : AllowEvaluationReason

-- `AllowEvaluationResult`: `allowed`, or not with a reason.
pub data AllowEvaluation : Type 0 where
  allowed : AllowEvaluation
  denied : AllowEvaluationReason → AllowEvaluation

pub data AllowMatchType : Type 0 where
  exact_email domain : AllowMatchType

abbrev pub normalize_match_type : String → Option AllowMatchType
normalize_match_type value =
    if str_eq value "exact_email"
    then some AllowMatchType.exact_email
    else if str_eq value "domain"
    then some AllowMatchType.domain
    else none

abbrev pub is_temperror : AuthStatus → Bool
is_temperror temperror = true
is_temperror _ = false

module _ (ops : TextOps) where
  open ops use {to_lower, trim}

  unfoldable pub normalize_email : Option String → Option String
  normalize_email none = none
  normalize_email (some value) =
      let normalized = to_lower (trim value) in
      if not (str_eq normalized "") && includes normalized "@" then some normalized else none

  unfoldable pub normalize_domain : Option String → Option String
  normalize_domain none = none
  normalize_domain (some value) =
      let normalized = to_lower (trim value) in
      if str_eq normalized "" then none else some normalized

  -- The comparison that a rule's type chooses.
  abbrev pub matches_as : Option AllowMatchType → String → Option String → Option String → Bool
  matches_as none value email dom = false
  matches_as (some AllowMatchType.exact_email) value email dom = is_text email value
  matches_as (some AllowMatchType.domain) value email dom = is_text dom value

  unfoldable pub matches_rule_identity : AllowRule → Option String → Option String → Bool
  matches_rule_identity rule email dom =
      matches_as (normalize_match_type rule.match_type) (to_lower rule.match_value)
        (normalize_email email) (normalize_domain dom)

  unfoldable pub has_authenticated_rule_candidate :
      List AllowRule → Option String → Option String → Bool
  has_authenticated_rule_candidate rules email dom =
      any (λ rule. matches_rule_identity rule email dom) rules

  -- `new Set(domains.map(normalizeDomain)).has(domain)`
  abbrev pub has_domain : String → List String → Bool
  has_domain dom domains = any (λ d. opt_str_eq (normalize_domain (some d)) (some dom)) domains

  unfoldable pub matches_authenticated_rule : List AllowRule → SenderAuth → Bool
  matches_authenticated_rule rules auth = elim (normalize_domain auth.header_from_domain) [
    | none ↦ false
    | some dom ↦
        has_domain dom auth.authenticated_domains
        && any
            (λ rule. matches_rule_identity rule (normalize_email auth.header_from_email) (some dom))
            rules
  ]

  -- The part of `evaluateAllowRules` after its check that there is an authentication.
  unfoldable pub evaluate_authenticated : List AllowRule → SenderAuth → AllowEvaluation
  unfolding matches_authenticated_rule
  evaluate_authenticated rules auth =
      if not (has_authenticated_rule_candidate rules auth.header_from_email auth.header_from_domain)
      then denied sender_not_allowed
      else if is_temperror auth.status
      then denied sender_auth_temperror
      else if matches_authenticated_rule rules auth
      then allowed
      else denied sender_auth_failed

  unfoldable pub evaluate_allow_rules : List AllowRule → Option SenderAuth → AllowEvaluation
  unfolding evaluate_authenticated
  evaluate_allow_rules [] auth = denied sender_not_allowed
  evaluate_allow_rules (rule ∷ rules) none = denied sender_not_allowed
  evaluate_allow_rules (rule ∷ rules) (some auth) = evaluate_authenticated (rule ∷ rules) auth
