-- ===== src/Email/AllowRules/Temporary.antt =====
-- When authentication failed for the moment (src/email/allowRuleEvaluator.ts).
use mathlib.Core.List.{Memᴰ}
use email_to_telegram.Base.{
  any-witness, any_of_mem, Bool, true, not, some, List, [], ◌∷◌, ◌≡◌, arith, TextOps, ◌↔◌,
  if◌then◌else◌,
}
use email_to_telegram.Email.AllowRules.{
  AllowRule, SenderAuth, allowed, denied, sender_not_allowed, sender_auth_failed,
  sender_auth_temperror, AuthStatus, temperror, evaluate_allow_rules,
  has_authenticated_rule_candidate, matches_authenticated_rule, is_temperror, normalize_email,
  normalize_domain, matches_rule_identity,
}
use email_to_telegram.Email.AllowRules.Laws.{Fits, matches→Fits, Fits→matches}

temperror-parts :
    (candidate temporary matched : Bool)
    → ((if not candidate
          then denied sender_not_allowed
          else if temporary
          then denied sender_auth_temperror
          else if matched
          then allowed
          else denied sender_auth_failed)
        ≡ denied sender_auth_temperror)
      ↔ ((candidate ≡ true) × (temporary ≡ true))
temperror-parts candidate temporary matched = ground arith

is_temperror→eq : (a : AuthStatus) → is_temperror a ≡ true → a ≡ temperror
is_temperror→eq a h = ground arith

-- Some rule of the alias names the address that the mail claims to come from, or its domain.
abbrev pub IsNamed : TextOps → List AllowRule → SenderAuth → Type 0
IsNamed ops rules auth =
    (rule : AllowRule) × Memᴰ rule rules
    × Fits ops rule (normalize_email ops auth.header_from_email)
        (normalize_domain ops auth.header_from_domain)

candidate_iff :
    (ops : TextOps) (rules : List AllowRule) (auth : SenderAuth)
    → (has_authenticated_rule_candidate ops rules auth.header_from_email auth.header_from_domain
        ≡ true)
      ↔ IsNamed ops rules auth
unfolding has_authenticated_rule_candidate matches_rule_identity
candidate_iff ops rules auth = (
  λ h.
      let (rule, listed, hit) = any-witness _ rules h in
      (rule, listed, matches→Fits ops rule _ _ hit),
  λ (rule, listed, fits). any_of_mem _ listed (Fits→matches ops rule _ _ fits),
)

-- A temporary failure is reported exactly where authentication failed for the moment and some rule
-- of the alias names the address of the From header, as an exact address, or its domain.
pub evaluate-temperror_iff :
    (ops : TextOps) (rules : List AllowRule) (auth : SenderAuth)
    → (evaluate_allow_rules ops rules (some auth) ≡ denied sender_auth_temperror)
      ↔ (IsNamed ops rules auth × (auth.status ≡ temperror))
unfolding evaluate_allow_rules
evaluate-temperror_iff ops [] auth = (λ h. cc, λ h. elim h.0.1 [ ])
evaluate-temperror_iff ops (r ∷ rs) auth =
    let (to, from) =
      temperror-parts
        (has_authenticated_rule_candidate ops (r ∷ rs) auth.header_from_email
          auth.header_from_domain)
        (is_temperror auth.status) (matches_authenticated_rule ops (r ∷ rs) auth) in
    let (named, candidate) = candidate_iff ops (r ∷ rs) auth in
    (λ h. let p = to h in (named p.0, is_temperror→eq _ p.1), λ h. from (candidate h.0, rw h.1))
