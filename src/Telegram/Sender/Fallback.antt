-- ===== src/Telegram/Sender/Fallback.antt =====
-- `sendTelegramMessage` of src/telegram/sender.ts: the rich send and the classic one in its place.
use email_to_telegram.Base.{
  ℕ, ◌+◌, ◌≤◌, String, Bool, true, false, not, ◌&&◌, ◌||◌, none, some, ◌≡◌, refl, sym, ◌∙◌, ◌⊎◌,
  inl, inr, arith, TextOps, if-split, ◌==◌, subst, is_truthy,
}
use email_to_telegram.Telegram.Errors.{TelegramSendFailure, SendError, describe_send_error}
use email_to_telegram.Telegram.Sender.{
  Answer, delivered, thrown, RetryOutcome, SendMethod, send_message, send_rich_message, SendOptions,
  Sending, failed_result, sent_result, send_with_retries, should_use_classic_fallback, after_rich,
  has_code, classic_send, send_telegram_message, is_disabled,
}
use email_to_telegram.Email.Outcome.{SendResult}
use email_to_telegram.Telegram.Sender.Retries.{IsRetried, Ends, send_with_retries-IsRetried}

-- Telegram refused the request for good, without a hint of another chat.
pub record IsRejected (f : TelegramSendFailure) : Type 0 where
  pub settled : f.transient ≡ false
  pub same_chat : f.migrate_to_chat_id ≡ none
  pub code_lem : (f.code ≡ some 404) ⊎ (f.code ≡ some 400)

-- A message that was sent, or a failure with its details.
abbrev pub IsSettled : SendResult → Type 0
IsSettled result =
    ((id : ℕ) × (result ≡ sent_result id))
    ⊎ ((f : TelegramSendFailure) × (result ≡ failed_result (some f)))

pub record IsComplete (s : Sending) : Type 0 where
  pub settled : IsSettled s.result
  pub calls-le : s.rich_calls + s.classic_calls ≤ 4
  pub called : 1 ≤ s.rich_calls + s.classic_calls

module _ (ops : TextOps) where
  -- At most one of the two methods is called, unless the rich one was called once and refused.
  abbrev pub HasOneTransport : (SendMethod → ℕ → Answer) → Sending → Type 0
  HasOneTransport answer s =
      (s.classic_calls ≡ 0)
      ⊎ (s.rich_calls ≡ 0)
      ⊎ ((s.rich_calls ≡ 1)
          × ((e : SendError) × (answer send_rich_message 0 ≡ thrown e)
              × IsRejected (describe_send_error ops e)))

  ended-IsSettled :
      (a : Answer) (is_last : Bool) (result : SendResult)
      → Ends ops a is_last result
      → IsSettled result
  ended-IsSettled (delivered id) is_last result (ok, message, error, failure) = inl (
    id,
    λ i. record {
      ok = ok i;
      telegram_message_id = message i;
      error = error i;
      failure = failure i;
    },
  )
  ended-IsSettled (thrown e) is_last result (ok, message, error, failure, last) = inr (
    describe_send_error ops e,
    λ i. record {
      ok = ok i;
      telegram_message_id = message i;
      error = error i;
      failure = failure i;
    },
  )

  retried-IsSettled :
      {answer : ℕ → Answer} {out : RetryOutcome}
      → IsRetried ops answer 0 3 out
      → IsSettled out.result
  retried-IsSettled {answer} {out} r =
      ended-IsSettled (answer r.last) (out.attempts == 3) out.result r.ended

  classic-IsComplete :
      (answer : ℕ → Answer) (unavailable : Bool) (rich_calls : ℕ)
      → rich_calls ≤ 1
      → IsComplete (classic_send ops answer unavailable rich_calls)
  classic-IsComplete answer unavailable rich_calls le =
      let r = send_with_retries-IsRetried ops answer in
      record {
        settled = retried-IsSettled r;
        calls-le = omega (arith, r.within, le);
        called = omega (arith, r.attempts_lem);
      }

  module _ (is_destination : String → Bool) where
    fallback-IsRejected :
        (f : TelegramSendFailure)
        → should_use_classic_fallback ops is_destination (some f) ≡ true
        → IsRejected f
    fallback-IsRejected f h = record {
      settled = ground arith;
      same_chat = ground arith;
      code_lem = ground arith;
    }

    -- A last answer whose failure the fallback takes.
    ended-IsRejected :
        (a : Answer) (is_last : Bool) (result : SendResult)
        → Ends ops a is_last result
        → result.ok ≡ false
        → should_use_classic_fallback ops is_destination result.failure ≡ true
        → (e : SendError) × (a ≡ thrown e) × IsRejected (describe_send_error ops e)
    ended-IsRejected (delivered id) is_last result ends failed h =
        let sent : true ≡ false = sym ends.0 ∙ failed in cc
    ended-IsRejected (thrown e) is_last result (ok, message, error, failure, last) failed h = (
      e,
      refl,
      fallback-IsRejected (describe_send_error ops e)
          (subst (λ f. should_use_classic_fallback ops is_destination f ≡ true) failure h),
    )

    first-IsRejected :
        {answer : ℕ → Answer} {out : RetryOutcome}
        → IsRetried ops answer 0 3 out
        → out.result.ok ≡ false
        → (out.attempts == 1) ≡ true
        → should_use_classic_fallback ops is_destination out.result.failure ≡ true
        → (e : SendError) × (answer 0 ≡ thrown e) × IsRejected (describe_send_error ops e)
    first-IsRejected {answer} {out} r failed once h =
        let at_first : r.last ≡ 0 = ground (arith, r.attempts_lem) in
        ended-IsRejected (answer 0) (out.attempts == 3) out.result
          (subst (λ i. Ends ops (answer i) (out.attempts == 3) out.result) at_first r.ended) failed
          h

    after_rich-HasOneTransport :
        (answer : SendMethod → ℕ → Answer) (unavailable : Bool)
        → HasOneTransport answer (
            after_rich ops is_destination
              (answer send_message)
              unavailable
              (send_with_retries ops (answer send_rich_message)))
    after_rich-HasOneTransport answer unavailable =
        let rich = send_with_retries ops (answer send_rich_message) in
        if-split (λ (s : Sending). HasOneTransport answer s)
          (rich.result.ok
            || (not (rich.attempts == 1)
                || not (should_use_classic_fallback ops is_destination rich.result.failure)))
          (λ kept. inl refl)
          (λ replaced. inr (
            inr (
              ground arith,
              first-IsRejected (send_with_retries-IsRetried ops (answer send_rich_message))
                  (ground arith) (ground arith) (ground arith),
            )))

    -- A text goes out by one method of the Bot API: the classic one is called after the rich one only
    -- where that was called once and refused for good with the code 404 or 400, so that it cannot
    -- have arrived.
    pub send_telegram_message-HasOneTransport :
        (answer : SendMethod → ℕ → Answer) (unavailable : Bool) (opts : SendOptions)
        → HasOneTransport answer (send_telegram_message ops is_destination answer unavailable opts)
    unfolding send_telegram_message
    send_telegram_message-HasOneTransport answer unavailable opts =
        if-split (λ (s : Sending). HasOneTransport answer s)
          (is_truthy opts.rich_html && not (is_disabled opts || unavailable))
          (λ rich. after_rich-HasOneTransport answer unavailable) (λ classic. inr (inl refl))

    after_rich-IsComplete :
        (answer : SendMethod → ℕ → Answer) (unavailable : Bool)
        → IsComplete (
            after_rich ops is_destination
              (answer send_message)
              unavailable
              (send_with_retries ops (answer send_rich_message)))
    after_rich-IsComplete answer unavailable =
        let rich = send_with_retries ops (answer send_rich_message) in
        let r = send_with_retries-IsRetried ops (answer send_rich_message) in
        if-split (λ (s : Sending). IsComplete s)
          (rich.result.ok
            || (not (rich.attempts == 1)
                || not (should_use_classic_fallback ops is_destination rich.result.failure)))
          (λ kept. record {
            settled = retried-IsSettled r;
            calls-le = omega (arith, r.within);
            called = omega (arith, r.attempts_lem);
          })
          (λ replaced.
            classic-IsComplete (answer send_message)
              (unavailable || (not rich.result.ok && has_code 404 rich.result.failure))
              rich.attempts (ground arith))

    -- A send makes one to four calls, whatever Telegram answers, and comes to a message's id or to a
    -- failure whose details and description are given.
    pub send_telegram_message-IsComplete :
        (answer : SendMethod → ℕ → Answer) (unavailable : Bool) (opts : SendOptions)
        → IsComplete (send_telegram_message ops is_destination answer unavailable opts)
    unfolding send_telegram_message
    send_telegram_message-IsComplete answer unavailable opts =
        if-split (λ (s : Sending). IsComplete s)
          (is_truthy opts.rich_html && not (is_disabled opts || unavailable))
          (λ rich. after_rich-IsComplete answer unavailable)
          (λ classic. classic-IsComplete (answer send_message) unavailable 0 (omega arith))
