-- ===== src/Telegram/Sender.antt =====
-- src/telegram/sender.ts: a text sent with retries, rich or classic, and photos sent in groups. What
-- the Bot API answers is an argument; the pauses and the metrics are left out.
pub mod Retries
pub mod Fallback
pub mod Photos
use email_to_telegram.Base.{
  ℕ, suc, ◌+◌, String, Bool, true, false, not, ◌&&◌, ◌||◌, Option, none, some, List, [], ◌∷◌, ◌==◌,
  is_just, is_some, is_truthy, if◌then◌else◌, TextOps,
}
use email_to_telegram.Telegram.Errors.{
  TelegramSendFailure, SendError, structured, bad_request, class_no, describe_send_error,
  classify_telegram_error,
}
use email_to_telegram.Email.Outcome.{SendResult}

-- What one call of the Bot API comes to: a message's id, or what was thrown, the timeout included.
pub data Answer : Type 0 where
  delivered : ℕ → Answer
  thrown : SendError → Answer

pub data SendMethod : Type 0 where
  send_message send_rich_message : SendMethod

pub record SendOptions : Type 0 where
  pub rich_html : Option String
  pub rich_messages_enabled : Option Bool

-- `RetryOutcome`
pub record RetryOutcome : Type 0 where
  pub result : SendResult
  pub attempts : ℕ

-- The result with the latch `richMessageMethodUnavailable` and the calls that each method took.
pub record Sending : Type 0 where
  pub result : SendResult
  pub unavailable : Bool
  pub rich_calls : ℕ
  pub classic_calls : ℕ

abbrev pub retry_delays_ms : List ℕ
retry_delays_ms = 1000 ∷ 2000 ∷ 4000 ∷ []

-- `lastFailure?.description ?? "unknown error"`
abbrev pub description_of : Option TelegramSendFailure → String
description_of none = "unknown error"
description_of (some f) = f.description

abbrev pub failed_result : Option TelegramSendFailure → SendResult
failed_result failure = record {
  ok = false;
  telegram_message_id = none;
  error = some (description_of failure);
  failure = failure;
}

abbrev pub sent_result : ℕ → SendResult
sent_result id = record { ok = true; telegram_message_id = some id; error = none; failure = none }

-- The two conditions under which the loop breaks off.
abbrev pub is_final_failure : TelegramSendFailure → Bool
is_final_failure f = is_some f.migrate_to_chat_id || (is_some f.code && not f.transient)

-- `opts.richMessagesEnabled === false`
abbrev pub is_disabled : SendOptions → Bool
is_disabled opts = elim opts.rich_messages_enabled [ none ↦ false | some on ↦ not on ]

abbrev pub has_code : ℕ → Option TelegramSendFailure → Bool
has_code code none = false
has_code code (some f) = is_just f.code code

module _ (ops : TextOps) where
  -- The loop of `sendWithRetries`: a try for each of the delays, from the `attempt`th on.
  unfoldable pub send_attempts :
      (ℕ → Answer) → List ℕ → ℕ → Option TelegramSendFailure → RetryOutcome
  send_attempts answer [] attempt last = record { result = failed_result last; attempts = attempt }
  send_attempts answer (d ∷ delays) attempt last = elim (answer attempt) [
    | delivered id ↦ record { result = sent_result id; attempts = suc attempt }
    | thrown e ↦
        let failure = describe_send_error ops e in
        let rest = send_attempts answer delays (suc attempt) (some failure) in
        if is_final_failure failure
        then record { result = failed_result (some failure); attempts = suc attempt }
        else rest
  ]

  unfoldable pub send_with_retries : (ℕ → Answer) → RetryOutcome
  send_with_retries answer = send_attempts answer retry_delays_ms 0 none

  abbrev pub classic_send : (ℕ → Answer) → Bool → ℕ → Sending
  classic_send answer unavailable rich_calls =
      let outcome = send_with_retries answer in
      record {
        result = outcome.result;
        unavailable = unavailable;
        rich_calls = rich_calls;
        classic_calls = outcome.attempts;
      }

  -- `isDestinationOrAuthFailure` is a regular expression of the runtime.
  module _ (is_destination_or_auth_failure : String → Bool) where
    abbrev pub should_use_classic_fallback : Option TelegramSendFailure → Bool
    should_use_classic_fallback none = false
    should_use_classic_fallback (some f) =
        if f.transient || is_some f.migrate_to_chat_id
        then false
        else is_just f.code 404
          || (is_just f.code 400
              && (class_no (classify_telegram_error ops (structured f)) == class_no bad_request
                  && not (is_destination_or_auth_failure f.description)))

    -- What becomes of a rich send: its result, or the classic one in its place.
    abbrev pub after_rich : (ℕ → Answer) → Bool → RetryOutcome → Sending
    after_rich classic unavailable rich =
        let latch = unavailable || (not rich.result.ok && has_code 404 rich.result.failure) in
        if rich.result.ok
          || (not (rich.attempts == 1) || not (should_use_classic_fallback rich.result.failure))
        then record {
          result = rich.result;
          unavailable = latch;
          rich_calls = rich.attempts;
          classic_calls = 0;
        }
        else classic_send classic latch rich.attempts

    unfoldable pub send_telegram_message : (SendMethod → ℕ → Answer) → Bool → SendOptions → Sending
    send_telegram_message answer unavailable opts =
        if is_truthy opts.rich_html && not (is_disabled opts || unavailable)
        then after_rich (answer send_message) unavailable
            (send_with_retries (answer send_rich_message))
        else classic_send (answer send_message) unavailable 0
