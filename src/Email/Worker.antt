-- ===== src/Email/Worker.antt =====
-- src/email/retry.ts, `runRetryWorker`: one run over the deliveries that need a retry. The tables
-- are those that the recovery of pending files left.
pub mod Frame
pub mod Others
pub mod Final
pub mod Numbers
pub mod Closes
pub mod Rounds
use email_to_telegram.Base.{ℕ, ◌-◌, ◌*◌, Bool, true, false, not, ◌||◌, List, [], ◌∷◌, if◌then◌else◌}
use email_to_telegram.Store.Rows.{Db, DeliveryLog, failed}
use email_to_telegram.Store.Logs.{
  update_delivery_log_status, find_logs_needing_retry, claim_delivery_log_for_retry,
}
use email_to_telegram.Email.Retry.{RetryWorld, retry_delivery}

abbrev pub stale_delivery_ms : ℕ
stale_delivery_ms = 2 * 60 * 1000

abbrev pub processing_stale_ms : ℕ
processing_stale_ms = 10 * 60 * 1000

-- By the id of a log: whether the run is to stop before its claim, whether this process is at work
-- on it, what its attempt is answered, and whether that attempt threw before it wrote anything.
pub record WorkerWorld : Type 0 where
  pub should_stop : ℕ → Bool
  pub is_running : ℕ → Bool
  pub throws : ℕ → Bool
  pub answers : ℕ → RetryWorld

module _ (w : WorkerWorld) where
  -- A claimed delivery; what is thrown resets its status.
  unfoldable pub retry_claimed : DeliveryLog → Db → Db
  retry_claimed log db =
      if w.throws log.id
      then update_delivery_log_status log.id failed db
      else retry_delivery (w.answers log.id) log db

  abbrev pub if_claimed : DeliveryLog → Db × Bool → Db
  if_claimed log (db, true) = retry_claimed log db
  if_claimed log (db, false) = db

  unfoldable pub retry_one : DeliveryLog → Db → Db
  retry_one log db =
      if w.is_running log.id then db else if_claimed log (claim_delivery_log_for_retry log.id db)

  -- The loop over the logs that were read at the start.
  unfoldable pub retry_logs : List DeliveryLog → Db → Db
  retry_logs [] db = db
  retry_logs (log ∷ rest) db =
      let next = retry_logs rest (retry_one log db) in if w.should_stop log.id then db else next

  unfoldable pub run_retry_worker : Bool → Bool → ℕ → Db → Db
  unfolding retry_logs
  run_retry_worker has_api healthy now db =
      if not has_api || not healthy
      then db
      else retry_logs
          (find_logs_needing_retry db (now - stale_delivery_ms) (now - processing_stale_ms)) db
