-- ===== src/Email/Deliver/Attempt.antt =====
-- How the first attempt (src/email/pipeline/deliver.ts) leaves a delivery.
use email_to_telegram.Base.{
  ℕ, ◌<◌, ℤ, true, false, Option, none, some, ◌≡◌, refl, sym, subst, ◌⊎◌, inl, inr, arith, if-split,
  if◌then◌else◌,
}
use email_to_telegram.Store.Rows.{
  Db, DeliveryLog, FinalStatus, failed, delivered, permanently_failed,
}
use email_to_telegram.Store.Logs.{insert_delivery_attempt, update_delivery_log_status}
use email_to_telegram.Telegram.Errors.{
  TelegramErrorClass, forbidden, chat_not_found, classify_telegram_error, disposition_of,
  retry_disposition_for_error,
}
use email_to_telegram.Email.Outcome.{migrate_target, error_of}
use email_to_telegram.Email.Retry.Left.{IsLeftAs, settled-IsLeftAs}
use email_to_telegram.Email.Outcome.Frame.{status_in, repair_from_delivery-LeavesMail}
use email_to_telegram.Email.Inbound.{QueuedEmail}
use email_to_telegram.Email.Retry.{
  max_retries, is_permanent, disposition, new_attempt, persist_attempt, refund_if_closed, abort_if,
}
use email_to_telegram.Email.Retry.Budget.{
  SettledAs, counted_failures, counted-insert, insert-attempt_logs, settled-written, leaves-settled,
}
use email_to_telegram.Email.Retry.Settled.{abort-settled}
use email_to_telegram.Email.Deliver.{
  DeliverWorld, DeliverResult, delivered_ok, send_failed, chat_migrated, threw, first_status,
  failed_status, secondary_target, secondary_result, after_text, send_on_route,
}

-- Telegram says that the chat is not open to the bot, or not there.
abbrev pub IsHopeless : TelegramErrorClass → Type 0
IsHopeless c = (c ≡ forbidden) ⊎ (c ≡ chat_not_found)

-- The class of the failed text.
abbrev pub text_class : DeliverWorld → TelegramErrorClass
text_class w = classify_telegram_error w.answers.ops (error_of w.answers.send)

-- What a result says of what happened and of the status that is left.
abbrev pub Agrees : DeliverWorld → DeliverResult → FinalStatus → Type 0
Agrees w delivered_ok s = (w.persisted ≡ true) × (w.answers.send.ok ≡ true) × (s ≡ delivered)
Agrees w chat_migrated s = (w.persisted ≡ true) × (w.answers.send.ok ≡ true) × (s ≡ failed)
Agrees w threw s = (w.persisted ≡ false) × (s ≡ failed)
Agrees w send_failed s =
    (w.persisted ≡ true)
    × (w.answers.send.ok ≡ false)
    × (((s ≡ permanently_failed) × IsHopeless (text_class w))
        ⊎ ((s ≡ failed) × ¬ IsHopeless (text_class w)))
Agrees w _ s = ⊥

-- An attempt that settles the delivery, with a result that says how.
abbrev SettlesAs : DeliverWorld → DeliveryLog → Db → Db × DeliverResult → Type 0
SettlesAs w log db (after, r) =
    (s : FinalStatus) × SettledAs w.answers.month_of log db after s × Agrees w r s

abbrev pub SettlesFirst : DeliverWorld → DeliveryLog → Db → Db × DeliverResult → Type 0
SettlesFirst w log db (after, r) =
    (s : FinalStatus) × IsLeftAs w.answers.month_of log db after s × Agrees w r s

permanent→IsHopeless :
    (c : TelegramErrorClass) → is_permanent (disposition_of c) ≡ true → IsHopeless c
permanent→IsHopeless c h = ground (arith, h)

soft→not_IsHopeless :
    (c : TelegramErrorClass) → is_permanent (disposition_of c) ≡ false → ¬ IsHopeless c
soft→not_IsHopeless c h (inl e) = let t = rw e at h in cc
soft→not_IsHopeless c h (inr e) = let t = rw e at h in cc

module _ (w : DeliverWorld) (job : QueuedEmail) (db : Db) where
  open w use {answers}
  open job use {delivery_log}

  ok-delivered : answers.send.ok ≡ true → first_status w job ≡ delivered
  ok-delivered e = ground (arith, e)

  not_ok-Agrees :
      w.persisted ≡ true → answers.send.ok ≡ false → Agrees w send_failed (first_status w job)
  unfolding retry_disposition_for_error
  not_ok-Agrees kept e =
      let c = text_class w in
      (
        kept,
        e,
        subst
            (λ b.
              ((if b then delivered else failed_status w job) ≡ permanently_failed) × IsHopeless c
              ⊎ ((if b then delivered else failed_status w job) ≡ failed) × ¬ IsHopeless c)
            (sym e)
            (if-split
              (λ s. ((s ≡ permanently_failed) × IsHopeless c) ⊎ ((s ≡ failed) × ¬ IsHopeless c))
              (is_permanent (disposition answers)) (λ p. inl (refl, permanent→IsHopeless c p))
              (λ p. inr (refl, soft→not_IsHopeless c p))),
      )

  secondary-SettlesAs :
      (chat : ℤ) (target : Option ℤ) (after : Db)
      → SettledAs answers.month_of delivery_log db after delivered
      → w.persisted ≡ true
      → answers.send.ok ≡ true
      → SettlesAs w delivery_log db
          (abort_if answers delivery_log chat target after, secondary_result w job target)
  secondary-SettlesAs chat none after h kept e = (delivered, h, (kept, e, refl))
  secondary-SettlesAs chat (some new_chat) after h kept e =
      (failed, abort-settled answers delivery_log db chat new_chat after h, (kept, e, refl))

  text-SettlesAs :
      (chat : ℤ) (after : Db)
      → SettledAs answers.month_of delivery_log db
          (refund_if_closed answers delivery_log (first_status w job) after)
          (first_status w job)
      → w.persisted ≡ true
      → SettlesAs w delivery_log db (after_text w job chat after)
  unfolding after_text refund_if_closed
  text-SettlesAs chat after h kept =
      if-split (SettlesAs w delivery_log db) answers.send.ok
        (λ e.
          secondary-SettlesAs chat (secondary_target w job) after
            (subst
              (λ s.
                SettledAs answers.month_of delivery_log db
                  (refund_if_closed answers delivery_log s after) s)
              (ok-delivered e) h)
            kept e)
        (λ e. (
          first_status w job,
          leaves-settled answers.month_of delivery_log db _ _ (first_status w job)
              (repair_from_delivery-LeavesMail answers.repair chat
                (migrate_target answers.send.failure) _)
              h,
          not_ok-Agrees kept e,
        ))

  -- One failure uses up no budget.
  first-budget :
      (chat : ℤ) (thread : Option ℕ)
      → counted_failures db delivery_log.id ≡ 0
      → counted_failures
          (insert_delivery_attempt (new_attempt answers delivery_log chat thread 0) db)
          delivery_log.id
        < max_retries
  first-budget chat thread fresh =
      let grown =
        counted-insert (new_attempt answers delivery_log chat thread 0) delivery_log.id db in
      ground (arith, grown, fresh)

  -- The outcome could not be written: the log goes back to the retry worker.
  unwritten :
      {old : FinalStatus}
      → status_in db.delivery_logs delivery_log.id ≡ some old
      → counted_failures db delivery_log.id ≡ 0
      → SettledAs answers.month_of delivery_log db
          (update_delivery_log_status delivery_log.id failed db)
          failed
  unfolding refund_if_closed
  unwritten h fresh =
      settled-written answers delivery_log failed db db h refl (λ kept. ground (arith, fresh))

  send_on_route-SettlesAs :
      (chat : ℤ) (thread : Option ℕ) {old : FinalStatus}
      → status_in db.delivery_logs delivery_log.id ≡ some old
      → counted_failures db delivery_log.id ≡ 0
      → SettlesAs w delivery_log db (send_on_route w job chat thread db)
  unfolding send_on_route persist_attempt
  send_on_route-SettlesAs chat thread {old} h fresh =
      let before = insert_delivery_attempt (new_attempt answers delivery_log chat thread 0) db in
      let tables = insert-attempt_logs (new_attempt answers delivery_log chat thread 0) db in
      if-split (SettlesAs w delivery_log db) w.persisted
        (λ e.
          text-SettlesAs chat _
            (settled-written answers delivery_log (first_status w job) db before {old = old}
              (rw tables.0 h) tables.1 (λ kept. first-budget chat thread fresh))
            e)
        (λ e. (failed, unwritten h fresh, (e, refl)))

  -- From the send on, the first attempt at a delivery whose log is there and has no counted failure
  -- leaves it settled, and the result says how. The log is `delivered` with `delivered_ok`, where the
  -- text was sent. With `send_failed`, where it was not, the log is `permanently_failed` and one mail
  -- is taken off its user's count exactly where Telegram's error is of the class `forbidden` or
  -- `chat_not_found`, and `failed` for any other. It is `failed` as well with `chat_migrated`, after
  -- a text that was sent, and with `threw`, where the outcome was not written.
  pub send_on_route-SettlesFirst :
      (chat : ℤ) (thread : Option ℕ) {old : FinalStatus}
      → status_in db.delivery_logs delivery_log.id ≡ some old
      → counted_failures db delivery_log.id ≡ 0
      → SettlesFirst w delivery_log db (send_on_route w job chat thread db)
  send_on_route-SettlesFirst chat thread h fresh =
      let (s, settled, agrees) = send_on_route-SettlesAs chat thread h fresh in
      (s, settled-IsLeftAs answers.month_of delivery_log db _ s settled, agrees)
