-- ===== src/Billing/Notices.antt =====
-- src/billing/quotaNotifier.ts with src/db/repos/quotaNotifications.ts: the notices about a quota. A
-- notice is the message that is handed to Telegram, by what its text is made of.
pub mod Once
use email_to_telegram.Base.{
  ℕ, ◌+◌, ◌*◌, ◌/◌, String, Bool, true, false, not, ◌&&◌, ◌||◌, Option, none, some, List, [], ◌∷◌,
  ◌++◌, ◌==◌, ltb, leb, str_eq, insert_new, if◌then◌else◌,
}
use email_to_telegram.Billing.Plans.{EffectivePlans, PlanDefinition}
use email_to_telegram.Billing.Limits.{get_effective_plan}
use email_to_telegram.Store.Rows.{Db, User}
use email_to_telegram.Store.Users.{find_user_by_id}

pub data QuotaNoticeReason : Type 0 where
  monthly_email_limit storage_limit subscription_inactive approaching_monthly_limit :
      QuotaNoticeReason

abbrev pub reason_no : QuotaNoticeReason → ℕ
reason_no monthly_email_limit = 0
reason_no storage_limit = 1
reason_no subscription_inactive = 2
reason_no approaching_monthly_limit = 3

-- `user_quota_notifications`
pub record UserQuotaNotification : Type 0 where
  pub user_id : ℕ
  pub reason : QuotaNoticeReason
  pub month : String

-- The primary key.
abbrev pub is_claim : ℕ → QuotaNoticeReason → String → UserQuotaNotification → Bool
is_claim user reason month c =
    (c.user_id == user) && ((reason_no c.reason == reason_no reason) && str_eq c.month month)

-- The claims, and whether this one was won.
unfoldable pub claim_quota_notification :
    ℕ → QuotaNoticeReason → String → List UserQuotaNotification → List UserQuotaNotification × Bool
claim_quota_notification user reason month claims =
    insert_new (is_claim user reason month)
      (record { user_id = user; reason = reason; month = month }) claims

pub record Notice : Type 0 where
  pub user_id : ℕ
  pub reason : QuotaNoticeReason
  pub month : String
  pub plan : PlanDefinition
  pub used : Option ℕ

-- A call, with the tables and the clock that it reads.
pub record NoticeCall : Type 0 where
  pub db : Db
  pub now : ℕ
  pub has_api : Bool
  pub hosted : Bool
  pub user_id : ℕ
  pub month : String

-- `Math.ceil(limit * 0.8)`, which is exact far beyond any limit.
abbrev pub approaching_threshold : ℕ → ℕ
approaching_threshold limit = (4 * limit + 4) / 5

-- The calls, one after the other.
pub data NoticeEvent : Type 0 where
  exhausted : NoticeCall → QuotaNoticeReason → NoticeEvent
  approaching : NoticeCall → ℕ → NoticeEvent

abbrev pub with_notice : Option Notice → List Notice → List Notice
with_notice none sent = sent
with_notice (some n) sent = n ∷ sent

module _ (plans : EffectivePlans) where
  abbrev pub exhausted_notice : NoticeCall → QuotaNoticeReason → Option User → Option Notice
  exhausted_notice c reason none = none
  exhausted_notice c reason (some user) = some (record {
    user_id = c.user_id;
    reason = reason;
    month = c.month;
    plan = get_effective_plan plans c.now user;
    used = none;
  })

  -- `notifyQuotaExhausted`. A send that fails is not repeated.
  unfoldable pub notify_quota_exhausted :
      NoticeCall
      → QuotaNoticeReason
      → List UserQuotaNotification
      → List UserQuotaNotification × Option Notice
  notify_quota_exhausted c reason claims =
      let (claims', won) = claim_quota_notification c.user_id reason c.month claims in
      if not c.has_api
      then (claims, none)
      else if won
      then (claims', exhausted_notice c reason (find_user_by_id c.db c.user_id))
      else (claims', none)

  abbrev pub approaching_notice : NoticeCall → ℕ → User → Notice
  approaching_notice c used user = record {
    user_id = c.user_id;
    reason = approaching_monthly_limit;
    month = c.month;
    plan = get_effective_plan plans c.now user;
    used = some used;
  }

  abbrev pub approach :
      NoticeCall
      → ℕ
      → Option User
      → List UserQuotaNotification
      → List UserQuotaNotification × Option Notice
  approach c used none claims = (claims, none)
  approach c used (some user) claims =
      let limit = (get_effective_plan plans c.now user).limits.delivered_emails_month in
      let (claims', won) =
        claim_quota_notification c.user_id approaching_monthly_limit c.month claims in
      if ltb used (approaching_threshold limit) || leb limit used
      then (claims, none)
      else if won
      then (claims', some (approaching_notice c used user))
      else (claims', none)

  -- `notifyApproachingMonthlyLimit`, with the count that the queue returned.
  unfoldable pub notify_approaching_monthly_limit :
      NoticeCall → ℕ → List UserQuotaNotification → List UserQuotaNotification × Option Notice
  notify_approaching_monthly_limit c used claims =
      if not c.has_api || not c.hosted
      then (claims, none)
      else approach c used (find_user_by_id c.db c.user_id) claims

  abbrev pub notify :
      NoticeEvent → List UserQuotaNotification → List UserQuotaNotification × Option Notice
  notify (exhausted c reason) claims = notify_quota_exhausted c reason claims
  notify (approaching c used) claims = notify_approaching_monthly_limit c used claims

  -- The notices that the calls send.
  unfoldable pub notices : List NoticeEvent → List UserQuotaNotification → List Notice
  notices [] claims = []
  notices (e ∷ events) claims = let r = notify e claims in with_notice r.1 (notices events r.0)
