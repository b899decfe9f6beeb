-- ===== src/Store/Usage/Laws.antt =====
-- src/db/repos/usage.ts: what a read of the counters finds after a write.
use text.Mathlib.TextEquality.{eq_iff}
use email_to_telegram.Base.{
  ℕ, ◌+◌, ◌-◌, String, true, false, ◌≡◌, ◌≢◌, refl, ap, arith, ◌==◌, str_eq, any, find?-upsert_self,
  find?-upsert_other, find?-update_self, find?-update_other, find?-none-any, ==_refl, ==_iff, ◌∙◌,
  ◌⊎◌, inl, inr, Bool-cases, or_else,
}
use email_to_telegram.Store.Rows.{Db, UserUsageMonth}
use email_to_telegram.Store.Usage.{
  is_usage, UsageDelta, get_user_usage_month, increment_user_usage_month,
  decrement_user_usage_month, add_usage, subtract_usage, new_usage, delivered_count_of,
}

-- The count of accepted mails of a user in a month; 0 where there is no row.
abbrev pub delivered_in : Db → ℕ → String → ℕ
delivered_in db user month = delivered_count_of (get_user_usage_month db user month)

is_usage_self :
    (user : ℕ) (month : String) (d : UsageDelta)
    → is_usage user month (new_usage user month d) ≡ true
is_usage_self user month d = rw (==_refl user, (eq_iff month month).1 refl)

is_usage-apart :
    (user user' : ℕ) (month month' : String)
    → (user ≢ user') ⊎ (month ≢ month')
    → (u : UserUsageMonth) → is_usage user month u ≡ true
    → is_usage user' month' u ≡ false
is_usage-apart user user' month month' apart u h =
    ground (arith, eq_iff u.month month, eq_iff u.month month', apart)

module _ (user : ℕ) (month : String) (d : UsageDelta) (db : Db) where
  pub delivered-increment_self :
      delivered_in (increment_user_usage_month user month d db) user month
      ≡ delivered_in db user month + d.delivered
  unfolding increment_user_usage_month get_user_usage_month
  delivered-increment_self =
      rw
        (find?-upsert_self (is_usage user month) (add_usage d) (new_usage user month d)
          db.usage_months (is_usage_self user month d) (λ u. refl))
        (ground arith)

  pub delivered-increment_other :
      (user' : ℕ) (month' : String)
      → (user ≢ user') ⊎ (month ≢ month')
      → delivered_in (increment_user_usage_month user month d db) user' month'
        ≡ delivered_in db user' month'
  unfolding increment_user_usage_month get_user_usage_month
  delivered-increment_other user' month' apart = ap delivered_count_of (
      find?-upsert_other (is_usage user month) (is_usage user' month') (add_usage d)
        (new_usage user month d) db.usage_months (is_usage-apart user user' month month' apart)
        (is_usage_self user month d) (λ u. refl))

  -- A decrement that finds no row changes nothing, and there was nothing to take away.
  pub delivered-decrement_self :
      delivered_in (or_else (decrement_user_usage_month user month d db) db) user month
      ≡ delivered_in db user month - d.delivered
  unfolding decrement_user_usage_month get_user_usage_month
  delivered-decrement_self = elim (Bool-cases (any (is_usage user month) db.usage_months)) [
    | inl e ↦
        rw
          (
            e,
            find?-update_self (is_usage user month) (subtract_usage d) db.usage_months (λ u. refl),
          )
          (ground arith)
    | inr e ↦ rw (e, find?-none-any (is_usage user month) db.usage_months e) (omega arith)
  ]

  pub delivered-decrement_other :
      (user' : ℕ) (month' : String)
      → (user ≢ user') ⊎ (month ≢ month')
      → delivered_in (or_else (decrement_user_usage_month user month d db) db) user' month'
        ≡ delivered_in db user' month'
  unfolding decrement_user_usage_month get_user_usage_month
  delivered-decrement_other user' month' apart =
      elim (Bool-cases (any (is_usage user month) db.usage_months)) [
        | inl e ↦ rw (
          e,
          find?-update_other (is_usage user month) (is_usage user' month') (subtract_usage d)
              db.usage_months (is_usage-apart user user' month month' apart) (λ u. refl),
        )
        | inr e ↦ rw e
      ]

-- An update that counts no mail leaves every count as it was.
pub delivered-increment_none :
    (user : ℕ) (month : String) (d : UsageDelta) (db : Db) (user' : ℕ) (month' : String)
    → d.delivered ≡ 0
    → delivered_in (increment_user_usage_month user month d db) user' month'
      ≡ delivered_in db user' month'
delivered-increment_none user month d db user' month' z = elim (Bool-cases (user == user')) [
  | inl u ↦ elim (Bool-cases (str_eq month month')) [
    | inl m ↦
        rw (← (==_iff user user').0 u, ← (eq_iff month month').0 m)
          (delivered-increment_self user month d db ∙ omega (arith, z))
    | inr m ↦
        delivered-increment_other user month d db user' month'
          (inr (λ e. let t = (eq_iff month month').1 e in cc))
  ]
  | inr u ↦
      delivered-increment_other user month d db user' month'
        (inl (λ e. let t = (==_iff user user').1 e in cc))
]
