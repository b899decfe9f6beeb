-- ===== src/Telegram/Sender/Retries.antt =====
-- The loop of `sendWithRetries` in src/telegram/sender.ts.
use email_to_telegram.Base.{
  ℕ, suc, ◌+◌, ◌≤◌, ◌<◌, Bool, true, false, not, ◌&&◌, ◌||◌, none, some, List, [], ◌∷◌, ◌≡◌, refl,
  ◌⊎◌, inl, inr, arith, length, Option, TextOps, if-split, lt_or_eq, subst, ◌==◌,
}
use email_to_telegram.Telegram.Errors.{TelegramSendFailure, SendError, describe_send_error}
use email_to_telegram.Email.Outcome.{SendResult}
use email_to_telegram.Telegram.Sender.{
  Answer, delivered, thrown, RetryOutcome, is_final_failure, send_attempts, send_with_retries,
}

abbrev is_missing {ℓ} : {A : Type ℓ} → Option A → Bool
is_missing none = true
is_missing (some x) = false

module _ (ops : TextOps) where
  -- A failure after which another try may help: no other chat is named, and it is transient, or no
  -- answer of the Bot API at all.
  abbrev pub is_worth_retrying : TelegramSendFailure → Bool
  is_worth_retrying f = is_missing f.migrate_to_chat_id && (f.transient || is_missing f.code)

  abbrev pub is_repeated : Answer → Bool
  is_repeated (delivered id) = false
  is_repeated (thrown e) = is_worth_retrying (describe_send_error ops e)

  -- What the last answer makes of the send.
  abbrev pub Ends : Answer → Bool → SendResult → Type 0
  Ends (delivered id) is_last r =
      (r.ok ≡ true) × (r.telegram_message_id ≡ some id) × (r.error ≡ none) × (r.failure ≡ none)
  Ends (thrown e) is_last r =
      let f = describe_send_error ops e in
      (r.ok ≡ false)
      × (r.telegram_message_id ≡ none)
      × (r.error ≡ some f.description)
      × (r.failure ≡ some f)
      × ((is_worth_retrying f ≡ false) ⊎ (is_last ≡ true))

  final-worth : (f : TelegramSendFailure) → is_worth_retrying f ≡ not (is_final_failure f)
  final-worth f = ground arith

  -- The outcome of tries from `first` on, of which there are `limit` at most: a row of failures that
  -- are tried again, and the answer that ends them.
  pub record IsRetried (answer : ℕ → Answer) (first limit : ℕ) (out : RetryOutcome) : Type 0 where
    pub last : ℕ
    pub attempts_lem : out.attempts ≡ suc last
    pub from_first : first ≤ last
    pub repeated : (i : ℕ) → first ≤ i → i < last → is_repeated (answer i) ≡ true
    pub ended : Ends (answer last) (out.attempts == limit) out.result
    pub within : out.attempts ≤ limit

  earlier-IsRetried :
      {answer : ℕ → Answer} {first limit : ℕ} {out : RetryOutcome}
      → is_repeated (answer first) ≡ true
      → IsRetried answer (suc first) limit out
      → IsRetried answer first limit out
  earlier-IsRetried {answer} {first} again r = record {
    last = r.last;
    attempts_lem = r.attempts_lem;
    from_first = omega (arith, r.from_first);
    repeated = λ i from below. elim (lt_or_eq first i from) [
      | inl lt ↦ r.repeated i lt below
      | inr e ↦ subst (λ j. is_repeated (answer j) ≡ true) e again
    ];
    ended = r.ended;
    within = r.within;
  }

  once-IsRetried :
      {answer : ℕ → Answer} {first limit : ℕ} {result : SendResult}
      → Ends (answer first) (suc first == limit) result
      → suc first ≤ limit
      → IsRetried answer first limit (record { result = result; attempts = suc first })
  once-IsRetried {answer} {first} e le = record {
    last = first;
    attempts_lem = refl;
    from_first = omega arith;
    repeated = λ i from below. absurd (omega (arith, from, below));
    ended = e;
    within = le;
  }

  -- One turn of the loop, given what the turns after a failure come to.
  turn-IsRetried :
      (answer : ℕ → Answer) (d : ℕ) (delays : List ℕ) (first limit : ℕ)
      (last : Option TelegramSendFailure)
      → suc first ≤ limit
      → ((e : SendError)
          → answer first ≡ thrown e
          → is_repeated (answer first) ≡ true
          → IsRetried answer first limit
              (send_attempts ops answer delays (suc first) (some (describe_send_error ops e))))
      → (a : Answer) → answer first ≡ a
      → IsRetried answer first limit (send_attempts ops answer (d ∷ delays) first last)
  unfolding send_attempts
  turn-IsRetried answer d delays first limit last le later (delivered id) h =
      rw (h, send_attempts) (once-IsRetried (rw h (refl, refl, refl, refl)) le)
  turn-IsRetried answer d delays first limit last le later (thrown e) h =
      rw (h, send_attempts)
        (if-split (λ (out : RetryOutcome). IsRetried answer first limit out)
          (is_final_failure (describe_send_error ops e))
          (λ final.
            once-IsRetried
              (rw h (
                refl,
                refl,
                refl,
                refl,
                inl (rw (final-worth (describe_send_error ops e), final) refl),
              ))
              le)
          (λ again. later e h (rw (h, final-worth (describe_send_error ops e), again) refl)))

  send_attempts-IsRetried :
      (answer : ℕ → Answer) (d : ℕ) (delays : List ℕ) (first : ℕ)
      (last : Option TelegramSendFailure)
      → IsRetried answer first
          (first + suc (length delays))
          (send_attempts ops answer (d ∷ delays) first last)
  unfolding send_attempts
  send_attempts-IsRetried answer d [] first last =
      turn-IsRetried answer d [] first (first + 1) last (omega arith)
        (λ e h again.
          once-IsRetried (rw h (refl, refl, refl, refl, inr (ground arith))) (omega arith))
        (answer first) refl
  send_attempts-IsRetried answer d (d' ∷ delays) first last =
      turn-IsRetried answer d (d' ∷ delays) first (first + suc (suc (length delays))) last
        (omega arith)
        (λ e h again. earlier-IsRetried again (
          subst
            (λ limit. IsRetried answer (suc first) limit (
              send_attempts ops answer (d' ∷ delays) (suc first)
                (some (describe_send_error ops e))))
            (omega arith)
            (send_attempts-IsRetried answer d' delays (suc first)
              (some (describe_send_error ops e)))))
        (answer first) refl

  -- A send makes one call to three, and another one exactly after a failure that names no other
  -- chat and is transient or has no code, as long as there is one left. Its result is the last
  -- answer's: the message's id, or the failure with its description as the error.
  pub send_with_retries-IsRetried :
      (answer : ℕ → Answer) → IsRetried answer 0 3 (send_with_retries ops answer)
  unfolding send_with_retries
  send_with_retries-IsRetried answer = send_attempts-IsRetried answer 1000 (2000 ∷ 4000 ∷ []) 0 none
