-- ===== src/Email/Worker/Numbers.antt =====
-- The numbering of attempts (src/email/retry.ts, src/db/repos/deliveryAttempts.ts).
use email_to_telegram.Base.{
  ℕ, ◌+◌, Bool, true, false, not, ◌||◌, List, [], ◌∷◌, ◌++◌, ◌≡◌, refl, arith, any, all, count,
  ◌==◌, leb, count-append, ==_refl,
}
use email_to_telegram.Store.Rows.{Db, DeliveryAttempt}
use email_to_telegram.Store.Logs.{
  same_attempt, insert_delivery_attempt, count_attempts_by_log, is_counted_failure,
}
use email_to_telegram.Telegram.Errors.{uncounted_retry_error_classes}
use email_to_telegram.Email.Retry.Budget.{counted_failures}
use email_to_telegram.Store.Logs.{count_counted_failed_attempts_by_log}

-- The attempts of a log are numbered up to `n`.
abbrev pub all_up_to : ℕ → ℕ → List DeliveryAttempt → Bool
all_up_to id n attempts = all (λ a. not (a.delivery_log_id == id) || leb a.attempt_no n) attempts

-- The attempts of a log are numbered up to their count.
abbrev pub IsNumbered : ℕ → Db → Type 0
IsNumbered id db = all_up_to id (count_attempts_by_log db id) db.delivery_attempts ≡ true

next-unused :
    (new : DeliveryAttempt) (n : ℕ) (attempts : List DeliveryAttempt)
    → new.attempt_no ≡ n + 1
    → all_up_to new.delivery_log_id n attempts ≡ true
    → any (same_attempt new) attempts ≡ false
next-unused new n [] e h = refl
next-unused new n (a ∷ rest) e h = ground (arith, next-unused new n rest e, e, h)

next-up_to :
    (new : DeliveryAttempt) (n : ℕ) (attempts : List DeliveryAttempt)
    → new.attempt_no ≡ n + 1
    → all_up_to new.delivery_log_id n attempts ≡ true
    → all_up_to new.delivery_log_id (n + 1) (attempts ++ new ∷ []) ≡ true
next-up_to new n [] e h = ground (arith, e)
next-up_to new n (a ∷ rest) e h = ground (arith, next-up_to new n rest e, e, h)

module _ (new : DeliveryAttempt) (db : Db) where
  abbrev id : ℕ
  id = new.delivery_log_id

  -- The next attempt is inserted, and the numbering goes on.
  pub next-IsNumbered :
      IsNumbered id db
      → new.attempt_no ≡ count_attempts_by_log db id + 1
      → IsNumbered id (insert_delivery_attempt new db)
        × (counted_failures (insert_delivery_attempt new db) id
            ≡ counted_failures db id
              + count (is_counted_failure uncounted_retry_error_classes id) (new ∷ []))
  unfolding insert_delivery_attempt count_attempts_by_log count_counted_failed_attempts_by_log
  next-IsNumbered h e =
      let unused = next-unused new _ db.delivery_attempts e h in
      rw
        (
          unused,
          count-append (λ (a : DeliveryAttempt). a.delivery_log_id == id) db.delivery_attempts
              (new ∷ []),
          count-append (is_counted_failure uncounted_retry_error_classes id) db.delivery_attempts
              (new ∷ []),
          ==_refl id,
        )
        (next-up_to new _ db.delivery_attempts e h, refl)
