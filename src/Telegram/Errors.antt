-- ===== src/Telegram/Errors.antt =====
-- src/telegram/errorClassifier.ts: the class of a failed send, and what it does to the delivery.
pub mod Laws
use email_to_telegram.Base.{
  ℕ, ◌≤◌, String, Bool, true, false, not, ◌&&◌, ◌||◌, Option, none, some, List, [], ◌∷◌, any, ◌==◌,
  leb, ℤ, if◌then◌else◌, is_some, is_just, includes, str_eq, or_else, TextOps,
}

pub data TelegramErrorClass : Type 0 where
  flood_wait forbidden chat_not_found migrated bad_request timeout network server other unknown :
      TelegramErrorClass

pub data RetryDisposition : Type 0 where
  fail_permanently retry_uncounted retry_counted : RetryDisposition

-- A chat's id, whose sign tells groups from users; only equality is asked of it here.
pub record TelegramSendFailure : Type 0 where
  pub code : Option ℕ
  pub description : String
  pub transient : Bool
  pub migrate_to_chat_id : Option ℤ

-- `===` of two classes, by the place in the declaration.
abbrev pub class_no : TelegramErrorClass → ℕ
class_no flood_wait = 0
class_no forbidden = 1
class_no chat_not_found = 2
class_no migrated = 3
class_no bad_request = 4
class_no timeout = 5
class_no network = 6
class_no server = 7
class_no other = 8
class_no unknown = 9

abbrev pub includes_class : List TelegramErrorClass → TelegramErrorClass → Bool
includes_class classes c = any (λ d. class_no d == class_no c) classes

abbrev pub uncounted_retry_error_classes : List TelegramErrorClass
uncounted_retry_error_classes = flood_wait ∷ timeout ∷ network ∷ server ∷ migrated ∷ []

abbrev pub transient_send_error_classes : List TelegramErrorClass
transient_send_error_classes = flood_wait ∷ timeout ∷ network ∷ server ∷ []

-- A thrown error: one with the fields of a Bot API failure, or any other, by its message.
pub data SendError : Type 0 where
  bot_api : ℕ → String → Option ℤ → SendError
  plain : String → SendError

-- What the classifier is called with: a message or null, or a structured failure.
pub data ErrorInput : Type 0 where
  message : Option String → ErrorInput
  structured : TelegramSendFailure → ErrorInput

-- The disposition of a class.
abbrev pub disposition_of : TelegramErrorClass → RetryDisposition
disposition_of c =
    if class_no c == class_no forbidden || class_no c == class_no chat_not_found
    then fail_permanently
    else if includes_class uncounted_retry_error_classes c
    then retry_uncounted
    else retry_counted

module _ (ops : TextOps) where
  open ops use {to_lower}

  -- The tests of `classifyString`, on the lower-case message.
  classify_normalized : String → TelegramErrorClass
  classify_normalized normalized =
      if str_eq normalized ""
      then unknown
      else if includes normalized "upgraded to a supergroup"
      then migrated
      else if includes normalized "flood"
          || (includes normalized "too many requests" || includes normalized "retry after")
      then flood_wait
      else if includes normalized "forbidden" || includes normalized "blocked"
      then forbidden
      else if includes normalized "chat not found" || includes normalized "thread not found"
      then chat_not_found
      else if includes normalized "bad request"
      then bad_request
      else if includes normalized "timeout" || includes normalized "timed out"
      then timeout
      else if includes normalized "network"
          || (includes normalized "econn" || includes normalized "fetch")
      then network
      else if includes normalized "internal server"
          || (includes normalized "bad gateway" || includes normalized "service unavailable")
      then server
      else other

  classify_string : Option String → TelegramErrorClass
  unfolding classify_normalized
  classify_string error = classify_normalized (to_lower (or_else error ""))

  abbrev at_least : ℕ → Option ℕ → Bool
  at_least n none = false
  at_least n (some code) = leb n code

  classify_structured : Option ℕ → String → Option ℤ → TelegramErrorClass
  unfolding classify_string
  classify_structured code description migrate_to_chat_id =
      let normalized = to_lower description in
      if is_some migrate_to_chat_id || includes normalized "upgraded to a supergroup"
      then migrated
      else if is_just code 429
      then flood_wait
      else if is_just code 403
      then forbidden
      else if is_just code 400
      then (if includes normalized "chat not found" || includes normalized "thread not found"
          then chat_not_found
          else bad_request)
      else if at_least 500 code
      then server
      else classify_string (some description)

  unfoldable pub describe_send_error : SendError → TelegramSendFailure
  unfolding classify_structured classify_string
  describe_send_error (bot_api code description migrate) = record {
    code = some code;
    description = description;
    migrate_to_chat_id = migrate;
    transient =
        includes_class transient_send_error_classes
          (classify_structured (some code) description migrate);
  }
  describe_send_error (plain description) = record {
    code = none;
    description = description;
    migrate_to_chat_id = none;
    transient = includes_class transient_send_error_classes (classify_string (some description));
  }

  unfoldable pub classify_telegram_error : ErrorInput → TelegramErrorClass
  unfolding classify_structured classify_string
  classify_telegram_error (message error) = classify_string error
  classify_telegram_error (structured f) =
      classify_structured f.code f.description f.migrate_to_chat_id

  unfoldable pub retry_disposition_for_error : ErrorInput → RetryDisposition
  retry_disposition_for_error error = disposition_of (classify_telegram_error error)
