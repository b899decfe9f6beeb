-- ===== src/Email/AllowRules/Laws.antt =====
-- What an accepted sender has shown (src/email/allowRuleEvaluator.ts).
use mathlib.Core.List.{Memᴰ}
use mathlib.Core.Bool.{and-eq-true_iff}
use text.Mathlib.TextEquality.{eq_iff}
use email_to_telegram.Base.{
  String, Bool, true, false, ◌&&◌, not, Option, none, some, List, [], ◌∷◌, any, ◌≡◌, ◌≢◌, refl,
  arith, TextOps, ◌⊎◌, inl, inr, ◌↔◌, Bool-cases, Option-cases, any-witness, any_of_mem, is_text,
  opt_str_eq, str_eq, includes,
}
use email_to_telegram.Email.AllowRules.{
  AllowRule, SenderAuth, allowed, AuthStatus, temperror, evaluate_allow_rules,
  evaluate_authenticated, normalize_email, normalize_domain, matches_rule_identity,
  has_authenticated_rule_candidate, matches_authenticated_rule, has_domain, is_temperror,
  normalize_match_type, matches_as,
}

is_text→eq : (o : Option String) (s : String) → is_text o s ≡ true → o ≡ some s
is_text→eq none s h = cc
is_text→eq (some t) s h = ground (arith, eq_iff t s)

eq→is_text : (s : String) → is_text (some s) s ≡ true
eq→is_text s = (eq_iff s s).1 refl

not_temperror : (a : AuthStatus) → is_temperror a ≡ false → a ≢ temperror
not_temperror a h = ground arith

temperror-false : (a : AuthStatus) → a ≢ temperror → is_temperror a ≡ false
temperror-false a h = ground arith

-- Normalising a text that is normalised changes nothing, as for `s.trim().toLowerCase()`.
abbrev pub IsStable : TextOps → Type 0
IsStable ops =
    (s : String) → ops.to_lower (ops.trim (ops.to_lower (ops.trim s))) ≡ ops.to_lower (ops.trim s)

module _ (ops : TextOps) where
  -- What a rule says of an address and its domain, both normalised.
  abbrev pub Fits : AllowRule → Option String → Option String → Type 0
  Fits rule email dom =
      ((rule.match_type ≡ "exact_email") × (email ≡ some (ops.to_lower rule.match_value)))
      ⊎ ((rule.match_type ≡ "domain") × (dom ≡ some (ops.to_lower rule.match_value)))

  -- The sender proved a domain, the header's own, and a rule of the alias names it or the address.
  pub record IsAuthorised (rules : List AllowRule) (auth : SenderAuth) : Type 0 where
    pub settled : auth.status ≢ temperror
    pub domain : String
    pub header_domain : normalize_domain ops auth.header_from_domain ≡ some domain
    pub proved : String
    pub authenticated : Memᴰ proved auth.authenticated_domains
    pub same_domain : normalize_domain ops (some proved) ≡ some domain
    pub rule : AllowRule
    pub listed : Memᴰ rule rules
    pub fits : Fits rule (normalize_email ops auth.header_from_email) (some domain)

  pub matches→Fits :
      (rule : AllowRule) (email dom : Option String)
      → matches_as ops
          (normalize_match_type rule.match_type)
          (ops.to_lower rule.match_value)
          email
          dom
        ≡ true
      → Fits rule email dom
  matches→Fits rule email dom h = elim (Bool-cases (str_eq rule.match_type "exact_email")) [
    | inl e ↦ inl ((eq_iff _ _).0 e, is_text→eq _ _ (rw e at h))
    | inr e ↦ elim (Bool-cases (str_eq rule.match_type "domain")) [
      | inl d ↦ inr ((eq_iff _ _).0 d, is_text→eq _ _ (rw (e, d) at h))
      | inr d ↦ let absurd_match : false ≡ true = rw (e, d) at h in cc
    ]
  ]

  pub Fits→matches :
      (rule : AllowRule) (email dom : Option String)
      → Fits rule email dom
      → matches_as ops
          (normalize_match_type rule.match_type)
          (ops.to_lower rule.match_value)
          email
          dom
        ≡ true
  Fits→matches rule email dom (inl (t, e)) = rw (t, e) (eq→is_text _)
  Fits→matches rule email dom (inr (t, e)) = rw (t, e) (eq→is_text _)

module _ (ops : TextOps) (stable : IsStable ops) where
  open ops use {to_lower, trim}

  abbrev keeps_email : String → Bool
  keeps_email s = not (str_eq s "") && includes s "@"

  normalize_email_twice :
      (e : Option String) → normalize_email ops (normalize_email ops e) ≡ normalize_email ops e
  unfolding normalize_email
  normalize_email_twice none = refl
  normalize_email_twice (some v) = elim (Bool-cases (keeps_email (to_lower (trim v)))) [
    | inl e ↦ rw e (rw (stable v, normalize_email) (rw e))
    | inr e ↦ rw e
  ]

  normalize_domain_twice :
      (e : Option String) → normalize_domain ops (normalize_domain ops e) ≡ normalize_domain ops e
  unfolding normalize_domain
  normalize_domain_twice none = refl
  normalize_domain_twice (some v) = elim (Bool-cases (str_eq (to_lower (trim v)) "")) [
    | inl e ↦ rw e
    | inr e ↦ rw e (rw (stable v, normalize_domain) (rw e))
  ]

  matches_again :
      (rule : AllowRule) (email dom : Option String)
      → matches_rule_identity ops rule (normalize_email ops email) (normalize_domain ops dom)
        ≡ matches_rule_identity ops rule email dom
  unfolding matches_rule_identity
  matches_again rule email dom = rw (normalize_email_twice email, normalize_domain_twice dom)

  opt_same : (o : Option String) (s : String) → opt_str_eq o (some s) ≡ true → o ≡ some s
  opt_same none s h = cc
  opt_same (some t) s h = ground (arith, eq_iff t s)

  matched→IsAuthorised :
      (rules : List AllowRule) (auth : SenderAuth)
      → auth.status ≢ temperror
      → matches_authenticated_rule ops rules auth ≡ true
      → IsAuthorised ops rules auth
  unfolding matches_authenticated_rule matches_rule_identity
  matched→IsAuthorised rules auth t h =
      elim (Option-cases (normalize_domain ops auth.header_from_domain)) [
        | inl e ↦ let absurd_match : false ≡ true = rw (e, matches_authenticated_rule) at h in cc
        | inr (dom, e) ↦
            let both : (has_domain ops dom auth.authenticated_domains
                  && any
                      (λ rule.
                        matches_rule_identity ops rule (normalize_email ops auth.header_from_email)
                          (some dom))
                      rules)
                ≡ true =
              rw (e, matches_authenticated_rule) at h in
            let (known, ruled) = (and-eq-true_iff _ _).0 both in
            let (d, d_in, d_same) = any-witness _ auth.authenticated_domains known in
            let (rule, r_in, r_fits) = any-witness _ rules ruled in
            record {
              settled = t;
              domain = dom;
              header_domain = e;
              proved = d;
              authenticated = d_in;
              same_domain = opt_same _ dom d_same;
              rule = rule;
              listed = r_in;
              fits =
                  rw (normalize_email_twice auth.header_from_email, twice dom e) at
                    (matches→Fits ops rule _ _ r_fits);
            }
      ]
    where
      twice :
          (dom : String)
          → normalize_domain ops auth.header_from_domain ≡ some dom
          → normalize_domain ops (some dom) ≡ some dom
      twice dom e = rw e at (normalize_domain_twice auth.header_from_domain)

  IsAuthorised→fits_some :
      {rules : List AllowRule} {auth : SenderAuth}
      → (a : IsAuthorised ops rules auth)
      → matches_rule_identity ops a.rule
          (normalize_email ops auth.header_from_email)
          (normalize_domain ops auth.header_from_domain)
        ≡ true
  unfolding matches_rule_identity
  IsAuthorised→fits_some {auth} a =
      rw
        (
          normalize_email_twice auth.header_from_email,
          normalize_domain_twice auth.header_from_domain,
        )
        (rw a.header_domain (Fits→matches ops a.rule _ _ a.fits))

  IsAuthorised→candidate :
      {rules : List AllowRule} {auth : SenderAuth}
      → IsAuthorised ops rules auth
      → has_authenticated_rule_candidate ops rules auth.header_from_email auth.header_from_domain
        ≡ true
  unfolding has_authenticated_rule_candidate
  IsAuthorised→candidate {auth} a =
      any_of_mem _ a.listed (rw matches_again at (IsAuthorised→fits_some a))

  IsAuthorised→matched :
      {rules : List AllowRule} {auth : SenderAuth}
      → IsAuthorised ops rules auth
      → matches_authenticated_rule ops rules auth ≡ true
  unfolding matches_authenticated_rule
  IsAuthorised→matched {rules} {auth} a =
      rw (a.header_domain, matches_authenticated_rule)
        ((and-eq-true_iff _ _).1 (
          any_of_mem _ a.authenticated (rw a.same_domain (eq→is_text a.domain)),
          any_of_mem _ a.listed (rw a.header_domain at (IsAuthorised→fits_some a)),
        ))

  evaluate→IsAuthorised :
      (rules : List AllowRule) (auth : SenderAuth)
      → evaluate_authenticated ops rules auth ≡ allowed
      → IsAuthorised ops rules auth
  unfolding evaluate_authenticated
  evaluate→IsAuthorised rules auth h =
      matched→IsAuthorised rules auth (not_temperror _ (ground arith)) (ground arith)

  IsAuthorised→evaluate :
      (rules : List AllowRule) (auth : SenderAuth)
      → IsAuthorised ops rules auth
      → evaluate_authenticated ops rules auth ≡ allowed
  unfolding evaluate_authenticated
  IsAuthorised→evaluate rules auth a =
      rw (IsAuthorised→candidate a, temperror-false _ a.settled, IsAuthorised→matched a)

  -- A mail is let in exactly when its sender is authorised: authentication did not fail for the
  -- moment, it proved the domain of the From header, and a rule of the alias names that domain or
  -- the address. The texts' normalisation is assumed to be stable.
  pub evaluate-allowed_iff :
      (rules : List AllowRule) (auth : SenderAuth)
      → (evaluate_allow_rules ops rules (some auth) ≡ allowed) ↔ IsAuthorised ops rules auth
  unfolding evaluate_allow_rules
  evaluate-allowed_iff [] auth = (λ h. cc, λ a. elim a.listed [ ])
  evaluate-allowed_iff (r ∷ rs) auth =
      (evaluate→IsAuthorised (r ∷ rs) auth, IsAuthorised→evaluate (r ∷ rs) auth)
