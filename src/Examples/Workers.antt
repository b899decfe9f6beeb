-- ===== src/Examples/Workers.antt =====
-- The theorems on the runs of the retry worker and on what starts them.
use email_to_telegram.Base.{refl, ◌≡◌, arith, List, [], ◌∷◌, true, false, not, any}
use email_to_telegram.Store.Rows.{Db, delivered}
use email_to_telegram.Email.Runner.{
  RunnerEvent, ticked, stop_called, run_settled, should_stop, watched,
}
use email_to_telegram.Email.Runner.History.{history, is_idle, is_stop, watched-history}
use email_to_telegram.Email.Worker.{WorkerWorld, run_retry_worker}
use email_to_telegram.Email.Worker.Frame.{IsUntouched}
use email_to_telegram.Email.Worker.Final.{run_retry_worker-IsUntouched}
use email_to_telegram.Email.Worker.Closes.{IsOpen, IsClosed}
use email_to_telegram.Email.Worker.Rounds.{retry_rounds, Refuses, retry_rounds-IsClosed}
use email_to_telegram.Email.Retry.{disposition}
use email_to_telegram.Store.Logs.{count_attempts_by_log, count_counted_failed_attempts_by_log}
use email_to_telegram.Telegram.Errors.{
  retry_counted, retry_disposition_for_error, classify_telegram_error,
}
use email_to_telegram.Examples.Data.{tables}
use email_to_telegram.Examples.Retries.{poison, hello_log, queued_tables}

-- One log is delivered, another waits for a retry.
abbrev mixed_tables : Db
mixed_tables = record tables {
  delivery_logs = record hello_log { id = 8; final_status = delivered } ∷ hello_log ∷ [];
}

abbrev busy : WorkerWorld
busy = record {
  should_stop = λ id. false;
  is_running = λ id. false;
  throws = λ id. false;
  answers = λ id. poison;
}

run_retry_worker-IsUntouched_example :
    IsUntouched 8 mixed_tables (run_retry_worker busy true true 20000000 mixed_tables)
run_retry_worker-IsUntouched_example =
    run_retry_worker-IsUntouched busy 8 true true 20000000 mixed_tables refl

poison_counted : disposition poison ≡ retry_counted
unfolding retry_disposition_for_error classify_telegram_error
poison_counted = refl

busy-Refuses : Refuses busy 1
busy-Refuses = record {
  idle = refl;
  calm = refl;
  refused = record { not_sent = refl; counted = poison_counted };
}

queued-IsOpen : IsOpen 1 0 queued_tables
unfolding count_attempts_by_log count_counted_failed_attempts_by_log
queued-IsOpen = record { takes = refl; numbered = refl; failures = refl }

retry_rounds-IsClosed_example :
    IsClosed 1 (retry_rounds (busy ∷ busy ∷ busy ∷ []) hello_log queued_tables)
retry_rounds-IsClosed_example =
    retry_rounds-IsClosed hello_log 0 (busy ∷ busy ∷ busy ∷ []) queued_tables queued-IsOpen
      (omega arith) (omega arith) (busy-Refuses, (busy-Refuses, (busy-Refuses, tt)))

-- A tick, one during its run, the end of the run, a second run, a stop within it and a late tick.
abbrev runner_events : List RunnerEvent
runner_events = ticked ∷ run_settled ∷ stop_called ∷ ticked ∷ run_settled ∷ ticked ∷ ticked ∷ []

watched-history_example :
    ((watched runner_events).1 ≡ history runner_events)
    × (((watched runner_events).0.active ≡ not (is_idle (history runner_events)))
        × (should_stop (watched runner_events).0 ≡ any is_stop (history runner_events)))
watched-history_example = watched-history runner_events
