-- ===== src/Examples/Retries.antt =====
-- The theorems on the retry of a delivery, at a delivery whose message cannot be parsed.
use email_to_telegram.Base.{none, some, refl, [], ◌∷◌, true, false}
use email_to_telegram.Store.Rows.{Db, DeliveryLog}
use email_to_telegram.Email.Outcome.{SendResult, RepairInput}
use email_to_telegram.Email.Retry.{RetryWorld, retry_delivery}
use email_to_telegram.Email.Retry.Settled.{IsSettled, retry_delivery-IsSettled}
use email_to_telegram.Examples.Data.{lower_ops, tables, hello_env, hello_input, news}
use email_to_telegram.Email.Queue.{new_log}

abbrev pub hello_log : DeliveryLog
hello_log = new_log hello_env hello_input news

abbrev pub queued_tables : Db
queued_tables = record tables { delivery_logs = hello_log ∷ [] }

abbrev unparseable : SendResult
unparseable = record {
  ok = false;
  telegram_message_id = none;
  error = some "bad request: can't parse entities";
  failure = none;
}

abbrev no_repair : RepairInput
no_repair = record { operation_id = 20; chat_answer = none }

abbrev pub poison : RetryWorld
poison = record {
  ops = lower_ops;
  month_of = λ time. "2026-07";
  raw_email_read = true;
  images = 0;
  send = unparseable;
  photos = none;
  fallback = none;
  repair = no_repair;
  second_repair = no_repair;
}

-- The owner has three accepted mails in the month; the raw mail is gone, which closes the delivery.
abbrev gone_log : DeliveryLog
gone_log = record hello_log { raw_email_path = none }

abbrev charged_tables : Db
charged_tables = record tables {
  delivery_logs = gone_log ∷ [];
  usage_months =
      record {
        user_id = 7;
        month = "2026-07";
        delivered_count = 3;
        rejected_count = 1;
        egress_bytes = 0;
      }
      ∷ [];
}

retry_delivery-IsSettled_example :
    IsSettled poison gone_log charged_tables (retry_delivery poison gone_log charged_tables)
retry_delivery-IsSettled_example = retry_delivery-IsSettled poison gone_log charged_tables refl
