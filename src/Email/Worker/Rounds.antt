-- ===== src/Email/Worker/Rounds.antt =====
-- Several runs of the worker at one delivery (src/email/retry.ts).
use email_to_telegram.Base.{
  ℕ, ◌+◌, ◌<◌, ◌≤◌, false, List, [], ◌∷◌, ◌≡◌, arith, if-split, inl, inr, length,
  update_where-missed,
}
use email_to_telegram.Store.Rows.{Db, DeliveryLog, retrying}
use email_to_telegram.Store.Logs.{
  claim_delivery_log_for_retry, is_claimable, set_status, count_attempts_by_log,
  count_counted_failed_attempts_by_log,
}
use email_to_telegram.Email.Retry.{max_retries}
use email_to_telegram.Email.Worker.{WorkerWorld, retry_claimed, retry_one}
use email_to_telegram.Email.Worker.Closes.{
  IsOpen, IsClosed, IsRefused, Advances, claiming, retry-Advances,
}

-- The runs' work at one log, one after the other.
unfoldable pub retry_rounds : List WorkerWorld → DeliveryLog → Db → Db
retry_rounds [] log db = db
retry_rounds (w ∷ rounds) log db = retry_rounds rounds log (retry_one w log db)

-- In a run nobody else is at the log, nothing is thrown, and Telegram refuses.
pub record Refuses (w : WorkerWorld) (id : ℕ) : Type 0 where
  pub idle : w.is_running id ≡ false
  pub calm : w.throws id ≡ false
  pub refused : IsRefused (w.answers id)

abbrev pub AllRefuse : List WorkerWorld → ℕ → Type 0
AllRefuse [] id = Unit
AllRefuse (w ∷ rounds) id = Refuses w id × AllRefuse rounds id

module _ (log : DeliveryLog) where
  claim-IsOpen :
      (k : ℕ) (db : Db)
      → IsOpen log.id k db
      → IsOpen log.id k (claim_delivery_log_for_retry log.id db).0
  unfolding claim_delivery_log_for_retry count_attempts_by_log count_counted_failed_attempts_by_log
  claim-IsOpen k db h = record {
    takes = claiming log.id db.delivery_logs h.takes;
    numbered = h.numbered;
    failures = h.failures;
  }

  round-Advances :
      (w : WorkerWorld) (k : ℕ) (db : Db)
      → Refuses w log.id
      → IsOpen log.id k db
      → Advances log.id k (retry_one w log db)
  unfolding retry_one retry_claimed claim_delivery_log_for_retry
  round-Advances w k db r h =
      let tried = retry-Advances (w.answers log.id) log r.refused k _ (claim-IsOpen k db h) in
      rw (r.idle, h.takes, r.calm) tried

  round-IsClosed :
      (w : WorkerWorld) (db : Db) → IsClosed log.id db → IsClosed log.id (retry_one w log db)
  unfolding retry_one claim_delivery_log_for_retry
  round-IsClosed w db h =
      if-split (IsClosed log.id) (w.is_running log.id) (λ e. h)
        (λ e.
          rw
            (
              h.1,
              update_where-missed (is_claimable log.id) (set_status retrying) db.delivery_logs h.1,
            )
            h)

  rounds-IsClosed :
      (rounds : List WorkerWorld) (db : Db)
      → IsClosed log.id db
      → IsClosed log.id (retry_rounds rounds log db)
  unfolding retry_rounds
  rounds-IsClosed [] db h = h
  rounds-IsClosed (w ∷ rounds) db h =
      rounds-IsClosed rounds (retry_one w log db) (round-IsClosed w db h)

  -- A delivery that Telegram keeps refusing, in a way that counts, is closed: from `k` counted
  -- failures, as many further runs as are missing from `max_retries`, or more, leave a row of it
  -- that is permanently failed and none that can be claimed. The log's attempts are assumed to be
  -- numbered up to their count, and the runs to be alone at the log and to throw nothing.
  pub retry_rounds-IsClosed :
      (k : ℕ) (rounds : List WorkerWorld) (db : Db)
      → IsOpen log.id k db
      → k < max_retries
      → max_retries ≤ k + length rounds
      → AllRefuse rounds log.id
      → IsClosed log.id (retry_rounds rounds log db)
  unfolding retry_rounds
  retry_rounds-IsClosed k [] db h few enough r = absurd (omega (arith, few, enough))
  retry_rounds-IsClosed k (w ∷ rounds) db h few enough r = elim (round-Advances w k db r.0 h) [
    | inl closed ↦ rounds-IsClosed rounds (retry_one w log db) closed
    | inr (more, left) ↦
        retry_rounds-IsClosed (k + 1) rounds (retry_one w log db) more left (omega (arith, enough))
          r.1
  ]
