-- ===== src/Billing/Events/Replay.antt =====
-- Events that Stripe delivers more than once (src/billing/webhooks.ts).
use text.Mathlib.TextEquality.{eq_iff}
use email_to_telegram.Base.{
  ℕ, String, Bool, true, false, not, ◌&&◌, ◌||◌, Option, some, List, [], ◌∷◌, ◌++◌, ◌≡◌, refl, sym,
  ap, ◌∙◌, ◌↔◌, arith, any, str_eq, Bool-cases, inl, inr,
}
use email_to_telegram.Billing.Webhooks.{
  BillingTables, StripeEvent, duplicate, StripePriceIds, update_user, WebhookResult,
}
use email_to_telegram.Billing.Events.{
  apply_event, record_event, if_new, process_stripe_webhook_event, run_webhook, StripeDelivery,
  run_webhooks,
}

-- The event is among those that are recorded.
abbrev pub is_recorded : String → BillingTables → Bool
is_recorded id t = any (λ e. str_eq e id) t.webhook_events

-- One of the deliveries of the event went through.
abbrev pub has_gone_through : String → List StripeDelivery → Bool
has_gone_through id deliveries = any (λ d. str_eq d.event_id id && not d.throws) deliveries

abbrev is_duplicate_answer : WebhookResult → Bool
is_duplicate_answer duplicate = true
is_duplicate_answer _ = false

any_last :
    (p : String → Bool) (id : String) (ids : List String)
    → any p (ids ++ id ∷ []) ≡ (any p ids || p id)
any_last p id [] = ground arith
any_last p id (x ∷ ids) = ground (arith, any_last p id ids)

str_eq_trans : (a b c : String) → str_eq a b ≡ true → str_eq b c ≡ str_eq a c
str_eq_trans a b c h = rw ((eq_iff a b).0 h) refl

-- An event stays recorded, and one more is recorded.
recorded-record :
    (new id : String) (t : BillingTables)
    → is_recorded id (record_event new t).0 ≡ (is_recorded id t || str_eq new id)
recorded-record new id t = elim (Bool-cases (any (λ e. str_eq e new) t.webhook_events)) [
  | inl e ↦ rw e (already t.webhook_events e)
  | inr e ↦ rw e (any_last (λ e. str_eq e id) new t.webhook_events)
]
  where
    already :
        (ids : List String)
        → any (λ e. str_eq e new) ids ≡ true
        → any (λ e. str_eq e id) ids ≡ (any (λ e. str_eq e id) ids || str_eq new id)
    already [] h = cc
    already (x ∷ ids) h = elim (Bool-cases (str_eq x new)) [
      | inl e ↦ rw (str_eq_trans x new id e) (ground arith)
      | inr e ↦ ground (arith, already ids (rw e at h))
    ]

module _ (prices : Option StripePriceIds) (now : ℕ) where
  apply-events :
      (event : StripeEvent) (t : BillingTables)
      → (apply_event prices now event t).0.webhook_events ≡ t.webhook_events
  unfolding apply_event update_user
  apply-events event t = ground arith

  apply-result :
      (event : StripeEvent) (t : BillingTables)
      → is_duplicate_answer (apply_event prices now event t).1 ≡ false
  unfolding apply_event
  apply-result event t = ground arith

  if_new-recorded :
      (id : String) (event : StripeEvent) (r : BillingTables × Bool)
      → is_recorded id (if_new prices now event r).0 ≡ is_recorded id r.0
  if_new-recorded id event (t, true) = rw (apply-events event t) refl
  if_new-recorded id event (t, false) = refl

  run-recorded :
      (throws : Bool) (new id : String) (event : StripeEvent) (t : BillingTables)
      → is_recorded id (run_webhook prices now throws new event t).0
        ≡ (is_recorded id t || (str_eq new id && not throws))
  unfolding run_webhook process_stripe_webhook_event
  run-recorded true new id event t = ground arith
  run-recorded false new id event t =
      if_new-recorded id event (record_event new t)
      ∙ recorded-record new id t
      ∙ ap (λ b. is_recorded id t || b) (and_true (str_eq new id))
    where
      and_true : (b : Bool) → b ≡ (b && true)
      and_true b = ground arith

  again-recorded :
      (id : String) (event : StripeEvent) (t : BillingTables)
      → is_recorded id t ≡ true
      → run_webhook prices now false id event t ≡ (t, some duplicate)
  unfolding run_webhook process_stripe_webhook_event
  again-recorded id event t h = rw h refl

  first-recorded :
      (id : String) (event : StripeEvent) (t : BillingTables)
      → is_recorded id t ≡ false
      → (run_webhook prices now false id event t).1 ≡ some duplicate
      → is_recorded id t ≡ true
  unfolding run_webhook process_stripe_webhook_event
  first-recorded id event t h e =
      let answered : some (apply_event prices now event (record_new id t)).1 ≡ some duplicate =
        unfold run_webhook in rw h at e in
      absurd (not_duplicate _ (apply-result event (record_new id t)) answered)
    where
      record_new : String → BillingTables → BillingTables
      record_new id t = record t { webhook_events = t.webhook_events ++ id ∷ [] }

      not_duplicate :
          (r : WebhookResult) → is_duplicate_answer r ≡ false → some r ≡ some duplicate → ⊥
      not_duplicate r h e = ground (arith, h, e)

run_webhooks-recorded :
    (prices : Option StripePriceIds) (id : String) (deliveries : List StripeDelivery)
    (t : BillingTables)
    → is_recorded id (run_webhooks prices deliveries t)
      ≡ (is_recorded id t || has_gone_through id deliveries)
unfolding run_webhooks
run_webhooks-recorded prices id [] t = ground arith
run_webhooks-recorded prices id (d ∷ rest) t =
    run_webhooks-recorded prices id rest _
    ∙ rw (run-recorded prices d.now d.throws d.event_id id d.event t) (ground arith)

-- After any deliveries of any events, some of which threw, a delivery that does not throw is answered
-- as a duplicate exactly where its event was recorded at the start or an earlier delivery of it went
-- through, whatever that one held and was answered; and then it changes nothing. So an event that was
-- not recorded and whose deliveries all threw is no duplicate.
pub process-replay :
    (prices : Option StripePriceIds) (now : ℕ) (id : String) (event : StripeEvent)
    (deliveries : List StripeDelivery) (t : BillingTables)
    → let before = run_webhooks prices deliveries t in
      let again = run_webhook prices now false id event before in
      ((again.1 ≡ some duplicate) ↔ ((is_recorded id t || has_gone_through id deliveries) ≡ true))
      × (again.1 ≡ some duplicate → again.0 ≡ before)
process-replay prices now id event deliveries t =
    let before = run_webhooks prices deliveries t in
    let same = run_webhooks-recorded prices id deliveries t in
    let known : (run_webhook prices now false id event before).1 ≡ some duplicate
        → is_recorded id before ≡ true =
      λ e. elim (Bool-cases (is_recorded id before)) [
        | inl h ↦ h
        | inr h ↦ first-recorded prices now id event before h e
      ] in
    (
      (
        λ e. sym same ∙ known e,
        λ h. ap (λ r. r.1) (again-recorded prices now id event before (same ∙ h)),
      ),
      λ e. ap (λ r. r.0) (again-recorded prices now id event before (known e)),
    )
