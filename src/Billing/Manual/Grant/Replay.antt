-- ===== src/Billing/Manual/Grant/Replay.antt =====
-- The same grant made again, in `grantManualUserPlan` of src/billing/manual.ts.
use text.Mathlib.TextEquality.{eq_iff}
use mathlib.Core.Option
use mathlib.Core.Bool.{false≢true}
use email_to_telegram.Base.{
  ℕ, String, Bool, true, false, Option, none, some, ◌≡◌, refl, ap, ◌∙◌, Bool-cases, inl, inr,
  TextOps, sym, ◌↔◌, ◌&&◌, List, [], ◌∷◌, ◌++◌, arith, any, find?, ◌==◌, ==_refl, find?-update_self,
  opt_str_eq,
}
use email_to_telegram.Billing.Webhooks.{BillingTables, ManualBillingEvent, update_user}
use email_to_telegram.Billing.Manual.{
  GrantInput, GrantResult, replayed, plan_no, status_no, normalize_plan_input, validate_plan_input,
}
use email_to_telegram.Billing.Manual.Grant.{
  is_paid_by, patched, event_of, summarize, payload_matches_event, user_matches_stored_event,
  find_or_create_user_by_id, find_by_user_and_reference, replay, same_flag, grant_to,
  grant_transaction, grant_manual_user_plan,
}
use email_to_telegram.Billing.Manual.Grant.Row.{
  HasGrant, opt_eq_refl, patched-HasGrant, matches-HasGrant, HasGrant-matches,
}
use email_to_telegram.Billing.Manual.Grant.Granted.{
  with_user, after_grant, is_granted, grant-IsNewGrant,
}
use email_to_telegram.Store.Rows.{User}
use email_to_telegram.Store.Users.{find_user_by_id}

opt_str_eq_refl : (o : Option String) → opt_str_eq o o ≡ true
opt_str_eq_refl none = refl
opt_str_eq_refl (some s) = (eq_iff s s).1 refl

same_flag_refl : (b : Bool) → same_flag b b ≡ true
same_flag_refl true = refl
same_flag_refl false = refl

event-matches :
    (input : GrantInput) (id : ℕ) → payload_matches_event (event_of input id) input ≡ true
event-matches input id =
    rw
      (
        ==_refl (plan_no input.plan_code),
        ==_refl (status_no input.subscription_status),
        opt_eq_refl input.paid_through_at,
        same_flag_refl input.kept_stripe_link,
        opt_str_eq_refl input.note,
      )
      refl

module _ (input : GrantInput) (id now : ℕ) (t : BillingTables) where
  pub after-found :
      (user : User)
      → find_user_by_id (with_user input now t).db input.telegram_user_id ≡ some user
      → find_user_by_id (after_grant input id now t).db input.telegram_user_id
        ≡ some (patched input now user)
  unfolding find_user_by_id update_user
  after-found user found =
      find?-update_self (λ (u : User). u.id == input.telegram_user_id) (patched input now)
        (with_user input now t).db.users (λ u. refl)
      ∙ ap (λ o. Option.map (patched input now) o) found

valid-grant :
    (ops : TextOps) (length_of : String → ℕ) (raw : GrantInput) (id now : ℕ) (t : BillingTables)
    → validate_plan_input length_of (normalize_plan_input ops raw) ≡ none
    → grant_manual_user_plan ops length_of raw id now t
      ≡ grant_transaction (normalize_plan_input ops raw) id now t
unfolding grant_manual_user_plan
valid-grant ops length_of raw id now t valid = rw (grant_manual_user_plan, valid) refl

-- The same grant again, from `before` to `after`: it is answered as a replay of the first one, it adds
-- no event, and the user's row has what was granted. It is written, and reported as corrected, exactly
-- where it had something else; otherwise no table changes.
pub record IsReplayed (input : GrantInput) (id : ℕ) (drifted : User) (before after : BillingTables)
    (r : GrantResult) : Type 0 where
  pub corrected : Bool
  pub answer : r ≡ replayed corrected (summarize input id)
  pub events : after.manual_events ≡ before.manual_events
  pub row : User
  pub found : find_user_by_id after.db input.telegram_user_id ≡ some row
  pub has_grant : HasGrant input row
  pub corrected_iff : (corrected ≡ false) ↔ HasGrant input drifted
  pub unchanged : corrected ≡ false → after ≡ before

module _ (input : GrantInput) (id now : ℕ) (t : BillingTables) (u : User) where
  -- The event of the first grant is found.
  replay-IsReplayed :
      find_user_by_id t.db input.telegram_user_id ≡ some u
      → let r = replay input now t u (event_of input id) in IsReplayed input id u t r.0 r.1
  unfolding update_user find_user_by_id
  replay-IsReplayed found = elim (Bool-cases (user_matches_stored_event u (event_of input id))) [
    | inl same ↦
        rw (event-matches input id, same)
          (record {
            corrected = false;
            answer = refl;
            events = refl;
            row = u;
            found = found;
            has_grant = matches-HasGrant input id u same;
            corrected_iff = (λ e. matches-HasGrant input id u same, λ g. refl);
            unchanged = λ e. refl;
          })
    | inr other ↦
        rw (event-matches input id, other)
          (record {
            corrected = true;
            answer = refl;
            events = refl;
            row = patched input now u;
            found =
                find?-update_self (λ (u : User). u.id == input.telegram_user_id) (patched input now)
                  t.db.users (λ u. refl)
                ∙ ap (λ o. Option.map (patched input now) o) found;
            has_grant = patched-HasGrant input now u;
            corrected_iff = (
              λ e. absurd (false≢true (sym e)),
              λ g. absurd (false≢true (sym other ∙ HasGrant-matches input id u g)),
            );
            unchanged = λ e. absurd (false≢true (sym e));
          })
  ]

  to-IsReplayed :
      (id' : ℕ)
      → find_user_by_id t.db input.telegram_user_id ≡ some u
      → find_by_user_and_reference t input.telegram_user_id input.payment_reference
        ≡ some (event_of input id)
      → let r = grant_to input id' now t t (some u) in IsReplayed input id u t r.0 r.1
  to-IsReplayed id' found event = rw (grant_to, event) (replay-IsReplayed found)

  transaction-IsReplayed :
      (id' : ℕ)
      → find_user_by_id t.db input.telegram_user_id ≡ some u
      → find_by_user_and_reference t input.telegram_user_id input.payment_reference
        ≡ some (event_of input id)
      → let r = grant_transaction input id' now t in IsReplayed input id u t r.0 r.1
  unfolding grant_transaction find_or_create_user_by_id
  transaction-IsReplayed id' found event = rw (found, found) (to-IsReplayed id' found event)

find?-skip :
    (p : ManualBillingEvent → Bool) (newer older : List ManualBillingEvent) {e : ManualBillingEvent}
    → any p newer ≡ false
    → find? p older ≡ some e
    → find? p (newer ++ older) ≡ some e
find?-skip p [] older none_new h = h
find?-skip p (x ∷ newer) older none_new h = elim (Bool-cases (p x)) [
  | inl hit ↦ let t : true ≡ false = rw hit at none_new in cc
  | inr miss ↦ rw miss (find?-skip p newer older (rw miss at none_new) h)
]

any-both :
    (p q : ManualBillingEvent → Bool) (xs : List ManualBillingEvent)
    → any q xs ≡ false
    → any (λ x. p x && q x) xs ≡ false
any-both p q [] h = refl
any-both p q (x ∷ xs) h = ground (arith, h, any-both p q xs)

later-event :
    (input : GrantInput) (id now : ℕ) (t later : BillingTables) (newer : List ManualBillingEvent)
    → later.manual_events ≡ newer ++ (after_grant input id now t).manual_events
    → any (is_paid_by input.payment_reference) newer ≡ false
    → find_by_user_and_reference later input.telegram_user_id input.payment_reference
      ≡ some (event_of input id)
unfolding find_by_user_and_reference update_user
later-event input id now t later newer e fresh = rw e (
    find?-skip _ newer (after_grant input id now t).manual_events
      (any-both (λ e. e.telegram_user_id == input.telegram_user_id)
        (is_paid_by input.payment_reference) newer fresh)
      (rw
        (
          ==_refl input.telegram_user_id,
          (eq_iff input.payment_reference input.payment_reference).1 refl,
        )
        refl))

-- A grant that went through is not granted twice. The same input again, at any time, is answered as
-- a replay with the first one's summary and adds no event, and it leaves the user with the plan, the
-- status and the paid time granted. Where the row still had them, and nothing of Stripe unless its
-- link was kept, no table changes; where it had drifted, the row is written and reported as corrected.
-- In between, the tables may have become any others in which the user is still there and the first
-- grant's events are, below any that came with other references.
pub grant-replay :
    (ops : TextOps) (length_of : String → ℕ) (raw : GrantInput) (id now id' now' : ℕ)
    (t later : BillingTables) (newer : List ManualBillingEvent) {drifted : User}
    → let input = normalize_plan_input ops raw in
      let first = grant_manual_user_plan ops length_of raw id now t in
      let again = grant_manual_user_plan ops length_of raw id' now' later in
      is_granted first.1 ≡ true
      → later.manual_events ≡ newer ++ first.0.manual_events
      → any (is_paid_by input.payment_reference) newer ≡ false
      → find_user_by_id later.db input.telegram_user_id ≡ some drifted
      → IsReplayed input id drifted later again.0 again.1
grant-replay ops length_of raw id now id' now' t later newer {drifted} h kept fresh found =
    let input = normalize_plan_input ops raw in
    let (valid, g) = grant-IsNewGrant ops length_of raw id now t h in
    rw (valid-grant ops length_of raw id' now' later valid) (
      transaction-IsReplayed input id now' later drifted id' found
        (later-event input id now t later newer (rw g.tables_lem at kept) fresh))
