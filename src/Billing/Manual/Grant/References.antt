-- ===== src/Billing/Manual/Grant/References.antt =====
-- The payment references, and what a refusal of src/billing/manual.ts leaves as it was.
use text.Mathlib.TextEquality.{eq_iff}
use email_to_telegram.Base.{
  ℕ, suc, ◌≤◌, String, Bool, true, false, some, List, [], ◌∷◌, ◌++◌, ◌≡◌, refl, arith, any, find?,
  is_some, count, if-split, Bool-cases, inl, inr, TextOps, if◌then◌else◌, ◌==◌, str_eq, subst,
}
use email_to_telegram.Billing.Webhooks.{BillingTables, ManualBillingEvent, update_user}
use email_to_telegram.Billing.Manual.{
  GrantInput, GrantResult, granted, replayed, refused, race_lost,
}
use email_to_telegram.Billing.Manual.Grant.{
  is_paid_by, find_or_create_user_by_id, grant_manual_user_plan, new_user,
}
use email_to_telegram.Billing.Manual.Grant.Granted.{with_user}
use email_to_telegram.Billing.Manual.Grant.Outcomes.{Outcome, grant-Outcome}
use email_to_telegram.Store.Rows.{User}
use email_to_telegram.Store.Users.{find_user_by_id}

with_user-manual_events :
    (input : GrantInput) (now : ℕ) (t : BillingTables)
    → (with_user input now t).manual_events ≡ t.manual_events
unfolding find_or_create_user_by_id
with_user-manual_events input now t =
    if-split (λ (t' : BillingTables). t'.manual_events ≡ t.manual_events)
      (is_some (find_user_by_id t.db input.telegram_user_id)) (λ there. refl) (λ missing. refl)

find?-append_hit {ℓ} :
    {A : Type ℓ} (p : A → Bool) (xs ys : List A) {x : A}
    → find? p xs ≡ some x
    → find? p (xs ++ ys) ≡ some x
find?-append_hit p [] ys h = cc
find?-append_hit p (y ∷ xs) ys h = elim (Bool-cases (p y)) [
  | inl e ↦ rw e (rw e at h)
  | inr e ↦ rw e (find?-append_hit p xs ys (rw e at h))
]

with_user-found :
    (input : GrantInput) (now : ℕ) (t : BillingTables) (user : ℕ) {u : User}
    → find_user_by_id t.db user ≡ some u
    → find_user_by_id (with_user input now t).db user ≡ some u
unfolding find_or_create_user_by_id find_user_by_id
with_user-found input now t user {u} h =
    if-split (λ (t' : BillingTables). find_user_by_id t'.db user ≡ some u)
      (is_some (find_user_by_id t.db input.telegram_user_id)) (λ there. h)
      (λ missing.
        find?-append_hit (λ (x : User). x.id == user) t.db.users
          (new_user input.telegram_user_id now ∷ []) h)

-- The manual events, and the users' rows that were there, are as they were.
pub record IsUntouched (t t' : BillingTables) : Type 0 where
  pub events : t'.manual_events ≡ t.manual_events
  pub users :
      (user : ℕ) (u : User)
      → find_user_by_id t.db user ≡ some u
      → find_user_by_id t'.db user ≡ some u

abbrev pub is_refused : GrantResult → Bool
is_refused (granted s) = false
is_refused (replayed reconciled s) = false
is_refused (refused code) = true
is_refused race_lost = true

Outcome-IsUntouched :
    {input : GrantInput} {id now : ℕ} {t : BillingTables} {r : BillingTables × GrantResult}
    → Outcome input id now t r
    → is_refused r.1 ≡ true
    → IsUntouched t r.0
Outcome-IsUntouched (Outcome.rejected code) h = record { events = refl; users = λ user u e. e }
Outcome-IsUntouched {input} {id} {now} {t} (Outcome.conflicting code) h = record {
  events = with_user-manual_events input now t;
  users = λ user u e. with_user-found input now t user e;
}
Outcome-IsUntouched Outcome.lost h = record { events = refl; users = λ user u e. e }
Outcome-IsUntouched (Outcome.repeated s) h = cc
Outcome-IsUntouched (Outcome.reconciled s) h = cc
Outcome-IsUntouched (Outcome.recorded unused) h = cc

-- A grant that is refused, for whatever reason, records nothing and changes no row of a user.
pub grant-IsUntouched :
    (ops : TextOps) (length_of : String → ℕ) (raw : GrantInput) (id now : ℕ) (t : BillingTables)
    → let r = grant_manual_user_plan ops length_of raw id now t in
      is_refused r.1 ≡ true → IsUntouched t r.0
grant-IsUntouched ops length_of raw id now t =
    Outcome-IsUntouched (grant-Outcome ops length_of raw id now t)

-- Every payment reference is in at most one manual event.
unfoldable pub HasOneEventEach : BillingTables → Type 0
HasOneEventEach t = (reference : String) → count (is_paid_by reference) t.manual_events ≤ 1

count-none {ℓ} : {A : Type ℓ} (p : A → Bool) (xs : List A) → any p xs ≡ false → count p xs ≡ 0
count-none p [] h = refl
count-none p (x ∷ xs) h = ground (arith, count-none p xs, h)

new_event-once :
    (new reference : String) (events : List ManualBillingEvent)
    → any (is_paid_by new) events ≡ false
    → count (is_paid_by reference) events ≤ 1
    → (if str_eq new reference
        then suc (count (is_paid_by reference) events)
        else count (is_paid_by reference) events)
      ≤ 1
new_event-once new reference events unused one = elim (Bool-cases (str_eq new reference)) [
  | inl e ↦
      let absent : count (is_paid_by reference) events ≡ 0 =
        subst (λ s. count (is_paid_by s) events ≡ 0) ((eq_iff new reference).0 e)
          (count-none (is_paid_by new) events unused) in
      rw e (omega (arith, absent))
  | inr e ↦ rw e one
]

Outcome-HasOneEventEach :
    {input : GrantInput} {id now : ℕ} {t : BillingTables} {r : BillingTables × GrantResult}
    → Outcome input id now t r
    → HasOneEventEach t
    → HasOneEventEach r.0
unfolding HasOneEventEach update_user
Outcome-HasOneEventEach (Outcome.rejected code) one reference = one reference
Outcome-HasOneEventEach {input} {id} {now} {t} (Outcome.conflicting code) one reference =
    rw (with_user-manual_events input now t) (one reference)
Outcome-HasOneEventEach Outcome.lost one reference = one reference
Outcome-HasOneEventEach {input} {id} {now} {t} (Outcome.repeated s) one reference =
    rw (with_user-manual_events input now t) (one reference)
Outcome-HasOneEventEach {input} {id} {now} {t} (Outcome.reconciled s) one reference =
    rw (with_user-manual_events input now t) (one reference)
Outcome-HasOneEventEach {input} {id} {now} {t} (Outcome.recorded unused) one reference =
    rw (with_user-manual_events input now t) (
      new_event-once input.payment_reference reference t.manual_events
        (subst (λ es. any (is_paid_by input.payment_reference) es ≡ false)
          (with_user-manual_events input now t) unused)
        (one reference))

-- A payment is recorded once, whoever it is recorded for: a grant keeps it so that a payment
-- reference is in at most one manual event, however it ends.
pub grant-HasOneEventEach :
    (ops : TextOps) (length_of : String → ℕ) (raw : GrantInput) (id now : ℕ) (t : BillingTables)
    → HasOneEventEach t
    → HasOneEventEach (grant_manual_user_plan ops length_of raw id now t).0
grant-HasOneEventEach ops length_of raw id now t =
    Outcome-HasOneEventEach (grant-Outcome ops length_of raw id now t)
