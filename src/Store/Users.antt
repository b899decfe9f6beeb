-- ===== src/Store/Users.antt =====
-- src/db/repos/users.ts, aliases.ts, allowRules.ts and inboundDomains.ts: the reads that quota
-- checks, routing and billing make.
use email_to_telegram.Base.{
  ℕ, String, Bool, true, false, not, ◌&&◌, Option, none, some, List, map, filter, find?, count,
  ◌==◌, str_eq, opt_eq, is_text, any, TextOps,
}
use email_to_telegram.Store.Rows.{Db, User, EmailAddress, AliasStatus, InboundDomain, DomainStatus}
use email_to_telegram.Email.AllowRules.{AllowRule}

unfoldable pub find_user_by_id : Db → ℕ → Option User
find_user_by_id db id = find? (λ u. u.id == id) db.users

unfoldable pub find_user_by_stripe_customer_id : Db → String → Option User
find_user_by_stripe_customer_id db customer =
    find? (λ u. is_text u.stripe_customer_id customer) db.users

unfoldable pub find_user_by_stripe_subscription_id : Db → String → Option User
find_user_by_stripe_subscription_id db subscription =
    find? (λ u. is_text u.stripe_subscription_id subscription) db.users

abbrev pub is_active : AliasStatus → Bool
is_active AliasStatus.active = true
is_active AliasStatus.paused = false
is_active AliasStatus.deleted = false

abbrev pub is_deleted : AliasStatus → Bool
is_deleted AliasStatus.active = false
is_deleted AliasStatus.paused = false
is_deleted AliasStatus.deleted = true

unfoldable pub find_alias_by_id : Db → ℕ → Option EmailAddress
find_alias_by_id db id = find? (λ a. a.id == id) db.aliases

-- `findAliasByLocalPartAndDomainId`
unfoldable pub find_alias_in_domain : Db → String → ℕ → Option EmailAddress
find_alias_in_domain db local_part domain =
    find? (λ a. str_eq a.local_part local_part && opt_eq a.domain_id (some domain)) db.aliases

unfoldable pub count_active_aliases_by_user : Db → ℕ → ℕ
count_active_aliases_by_user db user =
    count (λ a. (a.created_by == user) && not (is_deleted a.status)) db.aliases

unfoldable pub list_allow_rules : Db → ℕ → List AllowRule
list_allow_rules db alias =
    map (λ r. r.rule) (filter (λ r. r.email_address_id == alias) db.allow_rules)

-- The join: a rule counts when its alias is the user's and not deleted.
unfoldable pub count_allow_rules_by_user : Db → ℕ → ℕ
count_allow_rules_by_user db user =
    count
      (λ r.
        any
          (λ a.
            (a.id == r.email_address_id) && ((a.created_by == user) && not (is_deleted a.status)))
          db.aliases)
      db.allow_rules

-- `findAliasByLocalPart`: among the aliases without a domain.
unfoldable pub find_alias_by_local_part : Db → String → Option EmailAddress
find_alias_by_local_part db local_part =
    find? (λ a. str_eq a.local_part local_part && opt_eq a.domain_id none) db.aliases

abbrev pub is_active_domain : DomainStatus → Bool
is_active_domain DomainStatus.active = true
is_active_domain DomainStatus.pending = false
is_active_domain DomainStatus.disabled = false

unfoldable pub find_inbound_domain_by_domain : TextOps → Db → String → Option InboundDomain
find_inbound_domain_by_domain ops db domain =
    find? (λ d. str_eq d.domain (ops.to_lower domain)) db.inbound_domains
