-- ===== src/Examples/Sending.antt =====
-- The theorems on the sender, at a message that the rich method refuses and at two photos.
use email_to_telegram.Base.{
  ℕ, zero, suc, refl, Option, none, some, [], ◌∷◌, String, Bool, false, arith,
}
use email_to_telegram.Telegram.Errors.{SendError, bot_api, plain, describe_send_error}
use email_to_telegram.Telegram.Sender.{
  Answer, delivered, thrown, SendMethod, send_message, send_rich_message, SendOptions,
  send_with_retries, send_telegram_message,
}
use email_to_telegram.Telegram.Sender.Retries.{IsRetried, send_with_retries-IsRetried}
use email_to_telegram.Telegram.Sender.Fallback.{
  HasOneTransport, send_telegram_message-HasOneTransport,
}
use email_to_telegram.Telegram.Sender.Photos.{PhotoItem, send_telegram_photos}
use email_to_telegram.Telegram.Sender.Photos.Laws.{IsAccounted, send_telegram_photos-IsAccounted}
use email_to_telegram.Telegram.Sender.Photos.Migrated.{IsCut, send_telegram_photos-IsCut}
use email_to_telegram.Examples.Data.{lower_ops, new_group}

-- The rich method refuses the text, the classic one times out once.
abbrev answers : SendMethod → ℕ → Answer
answers send_rich_message n = thrown (bot_api 400 "bad request: can't parse entities" none)
answers send_message zero = thrown (plain "sendMessage timed out")
answers send_message (suc n) = delivered 12

abbrev rich_options : SendOptions
rich_options = record { rich_html = some "<b>hi</b>"; rich_messages_enabled = none }

abbrev never : String → Bool
never description = false

send_with_retries-IsRetried_example :
    IsRetried lower_ops
      (answers send_message)
      0
      3
      (send_with_retries lower_ops (answers send_message))
send_with_retries-IsRetried_example = send_with_retries-IsRetried lower_ops (answers send_message)

send_telegram_message-HasOneTransport_example :
    HasOneTransport lower_ops answers
      (send_telegram_message lower_ops never answers false rich_options)
send_telegram_message-HasOneTransport_example =
    send_telegram_message-HasOneTransport lower_ops never answers false rich_options

abbrev photo : String → PhotoItem
photo id = record {
  id = id;
  storage_path = id;
  filename = id;
  encryption_mode = none;
  wrapped_dek = none;
  kek_key_id = none;
}

abbrev migrated_answer : SendError
migrated_answer = bot_api 400 "group chat was upgraded to a supergroup chat" (some new_group)

abbrev photo_answers : ℕ → Option SendError
photo_answers n = some migrated_answer

send_telegram_photos-IsAccounted_example :
    IsAccounted
      (photo "a" ∷ photo "b" ∷ [])
      (send_telegram_photos lower_ops photo_answers (some 12) (photo "a" ∷ photo "b" ∷ []))
send_telegram_photos-IsAccounted_example =
    send_telegram_photos-IsAccounted lower_ops photo_answers (some 12) (photo "a" ∷ photo "b" ∷ [])

send_telegram_photos-IsCut_example :
    IsCut 0
      (send_telegram_photos lower_ops photo_answers (some 12) (photo "a" ∷ photo "b" ∷ [])).state
unfolding describe_send_error
send_telegram_photos-IsCut_example =
    send_telegram_photos-IsCut lower_ops photo_answers (some 12) 0 (photo "a" ∷ photo "b" ∷ [])
      migrated_answer (omega arith) refl refl
