-- ===== src/Billing/Notices/Once.antt =====
-- How often src/billing/quotaNotifier.ts writes to a user.
use text.Mathlib.TextEquality.{eq_iff}
use email_to_telegram.Base.{
  ℕ, ◌+◌, ◌≤◌, String, Bool, false, not, ◌&&◌, ◌||◌, Option, none, some, List, [], ◌∷◌, ◌++◌, ◌≡◌,
  refl, ◌∙◌, arith, ◌==◌, ltb, leb, str_eq, any, count, if-split, if◌then◌else◌, Bool-cases, ◌⊎◌,
  inl, inr,
}
use email_to_telegram.Billing.Plans.{EffectivePlans}
use email_to_telegram.Billing.Limits.{get_effective_plan}
use email_to_telegram.Store.Rows.{User}
use email_to_telegram.Store.Users.{find_user_by_id}
use email_to_telegram.Billing.Notices.{
  QuotaNoticeReason, reason_no, UserQuotaNotification, is_claim, claim_quota_notification, Notice,
  NoticeCall, approaching_threshold, exhausted_notice, notify_quota_exhausted, approaching_notice,
  approach, notify_approaching_monthly_limit, NoticeEvent, exhausted, approaching, notify,
  with_notice, notices, approaching_monthly_limit,
}

-- A notice to the user, for the reason and the month.
abbrev pub is_notice : ℕ → QuotaNoticeReason → String → Notice → Bool
is_notice user reason month n =
    (n.user_id == user) && ((reason_no n.reason == reason_no reason) && str_eq n.month month)

-- Whether the key is claimed, and whether a step's notice is for it, as numbers.
abbrev pub claimed : ℕ → QuotaNoticeReason → String → List UserQuotaNotification → ℕ
claimed user reason month claims = if any (is_claim user reason month) claims then 1 else 0

abbrev pub noticed : ℕ → QuotaNoticeReason → String → Option Notice → ℕ
noticed user reason month none = 0
noticed user reason month (some n) = if is_notice user reason month n then 1 else 0

any-same :
    (u user : ℕ) (why reason : QuotaNoticeReason) (m month : String)
    (claims : List UserQuotaNotification)
    → u ≡ user
    → reason_no why ≡ reason_no reason
    → m ≡ month
    → any (is_claim user reason month) claims ≡ any (is_claim u why m) claims
any-same u user why reason m month [] same_user same_reason same_month = refl
any-same u user why reason m month (c ∷ claims) same_user same_reason same_month =
    let ih = any-same u user why reason m month claims same_user same_reason same_month in
    rw (same_user, same_reason, same_month) (ground (arith, ih))

any-append_one {ℓ} :
    {A : Type ℓ} (p : A → Bool) (xs : List A) (y : A) → any p (xs ++ y ∷ []) ≡ (any p xs || p y)
any-append_one p [] y = ground arith
any-append_one p (x ∷ xs) y = ground (arith, any-append_one p xs y)

module _ (user : ℕ) (reason : QuotaNoticeReason) (month : String) where
  -- What is claimed and noticed after a step, against what was claimed before it.
  abbrev IsPaid : List UserQuotaNotification → List UserQuotaNotification × Option Notice → Type 0
  IsPaid claims r =
      noticed user reason month r.1 + claimed user reason month claims
      ≤ claimed user reason month r.0

  -- A claim that is won, with the notice of its own key.
  won-IsPaid :
      (u : ℕ) (why : QuotaNoticeReason) (m : String) (claims : List UserQuotaNotification)
      → any (is_claim u why m) claims ≡ false
      → (n : Notice) → n.user_id ≡ u
      → n.reason ≡ why
      → n.month ≡ m
      → IsPaid claims (claims ++ record { user_id = u; reason = why; month = m } ∷ [], some n)
  won-IsPaid u why m claims unclaimed n same_user same_reason same_month =
      elim (Bool-cases
        (is_claim user reason month (record { user_id = u; reason = why; month = m }))) [
          | inl own ↦
              let before : any (is_claim user reason month) claims ≡ false =
                any-same u user why reason m month claims (ground (arith, own))
                  (ground (arith, own)) ((eq_iff m month).0 (ground (arith, own)))
                ∙ unclaimed in
              rw
                (
                  any-append_one (is_claim user reason month) claims
                      (record { user_id = u; reason = why; month = m }),
                  before,
                  own,
                )
                (ground arith)
          | inr other ↦
              let unnoticed : is_notice user reason month n ≡ false =
                rw (same_user, same_reason, same_month) other in
              rw
                (
                  any-append_one (is_claim user reason month) claims
                      (record { user_id = u; reason = why; month = m }),
                  other,
                  unnoticed,
                )
                (ground arith)
        ]

  kept-IsPaid : (claims : List UserQuotaNotification) → IsPaid claims (claims, none)
  kept-IsPaid claims = omega arith

  -- A claim that is won for a user who is gone.
  lost-IsPaid :
      (claims : List UserQuotaNotification) (c : UserQuotaNotification)
      → IsPaid claims (claims ++ c ∷ [], none)
  lost-IsPaid claims c = rw (any-append_one (is_claim user reason month) claims c) (ground arith)

  module _ (plans : EffectivePlans) where
    exhausted-IsPaid :
        (c : NoticeCall) (why : QuotaNoticeReason) (claims : List UserQuotaNotification)
        → IsPaid claims (notify_quota_exhausted plans c why claims)
    unfolding notify_quota_exhausted claim_quota_notification
    exhausted-IsPaid c why claims =
        if-split
          (λ (r : List UserQuotaNotification × Bool). IsPaid claims (
            if not c.has_api
            then (claims, none)
            else if r.1
            then (r.0, exhausted_notice plans c why (find_user_by_id c.db c.user_id))
            else (r.0, none)))
          (any (is_claim c.user_id why c.month) claims)
          (λ used.
            if-split (λ (r : List UserQuotaNotification × Option Notice). IsPaid claims r)
              (not c.has_api) (λ silent. kept-IsPaid claims) (λ there. kept-IsPaid claims))
          (λ unused.
            if-split (λ (r : List UserQuotaNotification × Option Notice). IsPaid claims r)
              (not c.has_api) (λ silent. kept-IsPaid claims)
              (λ there. by_user unused (find_user_by_id c.db c.user_id)))
      where
        new_claim : UserQuotaNotification
        new_claim = record { user_id = c.user_id; reason = why; month = c.month }

        by_user :
            any (is_claim c.user_id why c.month) claims ≡ false
            → (o : Option User)
            → IsPaid claims (claims ++ new_claim ∷ [], exhausted_notice plans c why o)
        by_user unused none = lost-IsPaid claims new_claim
        by_user unused (some u) =
            won-IsPaid c.user_id why c.month claims unused
              (record {
                user_id = c.user_id;
                reason = why;
                month = c.month;
                plan = get_effective_plan plans c.now u;
                used = none;
              })
              refl refl refl

    approach-IsPaid :
        (c : NoticeCall) (used : ℕ) (o : Option User) (claims : List UserQuotaNotification)
        → IsPaid claims (approach plans c used o claims)
    unfolding claim_quota_notification
    approach-IsPaid c used none claims = kept-IsPaid claims
    approach-IsPaid c used (some u) claims =
        let limit = (get_effective_plan plans c.now u).limits.delivered_emails_month in
        let outside = ltb used (approaching_threshold limit) || leb limit used in
        if-split
          (λ (r : List UserQuotaNotification × Bool). IsPaid claims (
            if outside
            then (claims, none)
            else if r.1
            then (r.0, some (approaching_notice plans c used u))
            else (r.0, none)))
          (any (is_claim c.user_id approaching_monthly_limit c.month) claims)
          (λ spent.
            if-split (λ (r : List UserQuotaNotification × Option Notice). IsPaid claims r) outside
              (λ out. kept-IsPaid claims) (λ within. kept-IsPaid claims))
          (λ unused.
            if-split (λ (r : List UserQuotaNotification × Option Notice). IsPaid claims r) outside
              (λ out. kept-IsPaid claims)
              (λ within.
                won-IsPaid c.user_id approaching_monthly_limit c.month claims unused
                  (approaching_notice plans c used u) refl refl refl))

    notify-IsPaid :
        (e : NoticeEvent) (claims : List UserQuotaNotification)
        → IsPaid claims (notify plans e claims)
    unfolding notify_approaching_monthly_limit
    notify-IsPaid (exhausted c why) claims = exhausted-IsPaid c why claims
    notify-IsPaid (approaching c used) claims =
        if-split (λ (r : List UserQuotaNotification × Option Notice). IsPaid claims r)
          (not c.has_api || not c.hosted) (λ silent. kept-IsPaid claims)
          (λ there. approach-IsPaid c used (find_user_by_id c.db c.user_id) claims)

    count-with_notice :
        (o : Option Notice) (sent : List Notice)
        → count (is_notice user reason month) (with_notice o sent)
          ≡ noticed user reason month o + count (is_notice user reason month) sent
    count-with_notice none sent = omega arith
    count-with_notice (some n) sent = ground arith

    notices-paid :
        (events : List NoticeEvent) (claims : List UserQuotaNotification)
        → count (is_notice user reason month) (notices plans events claims)
            + claimed user reason month claims
          ≤ 1
    unfolding notices
    notices-paid [] claims = ground arith
    notices-paid (e ∷ events) claims =
        let r = notify plans e claims in
        omega (
          arith,
          count-with_notice r.1 (notices plans events r.0),
          notify-IsPaid e claims,
          notices-paid events r.0,
        )

    -- A user is told of a quota at most once for a reason and a month, whatever is rejected and
    -- accepted and however the plan changes, and not at all where the claim was there before. No claim
    -- is deleted between the calls.
    pub notices-once :
        (events : List NoticeEvent) (claims : List UserQuotaNotification)
        → (count (is_notice user reason month) (notices plans events claims) ≤ 1)
          × ((any (is_claim user reason month) claims ≡ false)
              ⊎ (count (is_notice user reason month) (notices plans events claims) ≡ 0))
    notices-once events claims =
        let paid = notices-paid events claims in
        (
          omega (arith, paid),
          elim (Bool-cases (any (is_claim user reason month) claims)) [
            | inl e ↦ inr (ground (arith, paid, e))
            | inr e ↦ inl e
          ],
        )
