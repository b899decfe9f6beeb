-- ===== src/Email/Worker/Final.antt =====
-- A run of the worker (src/email/retry.ts) and the deliveries that are finished.
use email_to_telegram.Base.{
  ℕ, Bool, true, false, not, ◌&&◌, ◌||◌, List, [], ◌∷◌, ◌≡◌, ◌≢◌, refl, ap, sym, ◌∙◌, filter, any,
  ◌==◌, ==_iff, Bool-cases, inl, inr, if-split, filter-update_other, update_where-missed,
}
use email_to_telegram.Store.Rows.{Db, DeliveryLog, failed, retrying}
use email_to_telegram.Store.Logs.{
  claim_delivery_log_for_retry, is_claimable, claimable, in_statuses, set_status,
}
use email_to_telegram.Email.Worker.{
  WorkerWorld, retry_claimed, if_claimed, retry_one, retry_logs, run_retry_worker,
}
use email_to_telegram.Email.Worker.Frame.{
  rows_of, IsUntouched, IsUntouched-refl, IsUntouched-trans, status-IsUntouched, row_apart,
}
use email_to_telegram.Email.Worker.Others.{retry_delivery-IsUntouched}

-- The log is delivered or permanently failed: it is in none of the statuses that can be claimed.
abbrev pub IsFinished : ℕ → Db → Type 0
IsFinished id db =
    any (λ (l : DeliveryLog). in_statuses claimable l.final_status) (rows_of db id) ≡ false

claimable-rows :
    (id : ℕ) (logs : List DeliveryLog)
    → any
        (λ (l : DeliveryLog). in_statuses claimable l.final_status)
        (filter (λ (l : DeliveryLog). l.id == id) logs)
      ≡ any (is_claimable id) logs
claimable-rows id [] = refl
claimable-rows id (l ∷ logs) = elim (Bool-cases (l.id == id)) [
  | inl e ↦ rw e (ap (λ b. in_statuses claimable l.final_status || b) (claimable-rows id logs))
  | inr e ↦ rw e (claimable-rows id logs)
]

and-left : (a b : Bool) → (a && b) ≡ true → a ≡ true
and-left true b h = refl
and-left false b h = h

module _ (w : WorkerWorld) (id : ℕ) where
  -- A finished log cannot be claimed.
  same-IsUntouched :
      (log : DeliveryLog) (db : Db)
      → log.id ≡ id
      → IsFinished id db
      → IsUntouched id db (if_claimed w log (claim_delivery_log_for_retry log.id db))
  unfolding claim_delivery_log_for_retry
  same-IsUntouched log db e h =
      let refused : any (is_claimable id) db.delivery_logs ≡ false =
        sym (claimable-rows id db.delivery_logs) ∙ h in
      rw (e, refused)
        (record {
          logs = ap (filter (λ (l : DeliveryLog). l.id == id)) (
              update_where-missed (is_claimable id) (set_status retrying) db.delivery_logs refused);
          attempts = refl;
        })

  claimed-IsUntouched :
      (log : DeliveryLog) (db : Db) → log.id ≢ id → IsUntouched id db (retry_claimed w log db)
  unfolding retry_claimed
  claimed-IsUntouched log db apart =
      if-split (IsUntouched id db) (w.throws log.id)
        (λ e. status-IsUntouched id log.id apart failed db)
        (λ e. retry_delivery-IsUntouched (w.answers log.id) log id apart db)

  if_claimed-IsUntouched :
      (log : DeliveryLog) (r : Db × Bool) → log.id ≢ id → IsUntouched id r.0 (if_claimed w log r)
  if_claimed-IsUntouched log (db, true) apart = claimed-IsUntouched log db apart
  if_claimed-IsUntouched log (db, false) apart = IsUntouched-refl id db

  other-IsUntouched :
      (log : DeliveryLog) (db : Db)
      → log.id ≢ id
      → IsUntouched id db (if_claimed w log (claim_delivery_log_for_retry log.id db))
  unfolding claim_delivery_log_for_retry
  other-IsUntouched log db apart =
      IsUntouched-trans id db (claim_delivery_log_for_retry log.id db).0 _
        (record {
          logs =
              filter-update_other (λ (l : DeliveryLog). l.id == id) (is_claimable log.id)
                (set_status retrying) db.delivery_logs
                (λ l h. row_apart id log.id apart l (and-left _ _ h)) (λ l. refl);
          attempts = refl;
        })
        (if_claimed-IsUntouched log (claim_delivery_log_for_retry log.id db) apart)

  one-IsUntouched :
      (log : DeliveryLog) (db : Db) → IsFinished id db → IsUntouched id db (retry_one w log db)
  unfolding retry_one
  one-IsUntouched log db h =
      if-split (IsUntouched id db) (w.is_running log.id) (λ e. IsUntouched-refl id db)
        (λ e. elim (Bool-cases (log.id == id)) [
          | inl s ↦ same-IsUntouched log db ((==_iff log.id id).0 s) h
          | inr s ↦ other-IsUntouched log db (λ eq. let t = (==_iff log.id id).1 eq in cc)
        ])

  logs-IsUntouched :
      (logs : List DeliveryLog) (db : Db)
      → IsFinished id db
      → IsUntouched id db (retry_logs w logs db)
  unfolding retry_logs
  logs-IsUntouched [] db h = IsUntouched-refl id db
  logs-IsUntouched (log ∷ rest) db h =
      let one = one-IsUntouched log db h in
      if-split (IsUntouched id db) (w.should_stop log.id) (λ e. IsUntouched-refl id db)
        (λ e. IsUntouched-trans id db (retry_one w log db) _ one (
          logs-IsUntouched rest (retry_one w log db)
            (ap (any (λ (l : DeliveryLog). in_statuses claimable l.final_status)) one.logs ∙ h)))

  -- A delivery that is finished stays so: whatever a run of the worker does and is answered, a log
  -- that is delivered or permanently failed is left as it was, and no attempt is added to it.
  pub run_retry_worker-IsUntouched :
      (has_api healthy : Bool) (now : ℕ) (db : Db)
      → IsFinished id db
      → IsUntouched id db (run_retry_worker w has_api healthy now db)
  unfolding run_retry_worker
  run_retry_worker-IsUntouched has_api healthy now db h =
      if-split (IsUntouched id db) (not has_api || not healthy) (λ e. IsUntouched-refl id db)
        (λ e. logs-IsUntouched _ db h)
