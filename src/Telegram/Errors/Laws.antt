-- ===== src/Telegram/Errors/Laws.antt =====
-- The class, the transient flag and the disposition of one failure
-- (src/telegram/errorClassifier.ts).
use text.Mathlib.TextEquality.{eq_iff}
use email_to_telegram.Base.{
  ℕ, ℤ, String, true, false, none, some, ◌≡◌, refl, arith, TextOps, Bool-cases, includes, str_eq,
  inl, inr,
}
use email_to_telegram.Telegram.Errors.{
  TelegramErrorClass, SendError, bot_api, plain, structured, describe_send_error,
  classify_telegram_error, classify_normalized, classify_string, classify_structured,
  retry_disposition_for_error, retry_uncounted, includes_class, transient_send_error_classes,
  disposition_of,
}

upgraded-nonempty :
    (s : String) → includes s "upgraded to a supergroup" ≡ true → str_eq s "" ≡ false
upgraded-nonempty s h = elim (Bool-cases (str_eq s "")) [
  | inl e ↦ let none_found : false ≡ true = rw ((eq_iff s "").0 e) at h in cc
  | inr e ↦ e
]

transient-uncounted :
    (c : TelegramErrorClass)
    → includes_class transient_send_error_classes c ≡ true
    → disposition_of c ≡ retry_uncounted
transient-uncounted c h = ground arith

module _ (ops : TextOps) where
  open ops use {to_lower}

  -- A failure with no error code is classified by its message alone.
  classify_structured-plain :
      (m : String) → classify_structured ops none m none ≡ classify_string ops (some m)
  unfolding classify_structured classify_string
  classify_structured-plain m =
      elim (Bool-cases (includes (to_lower m) "upgraded to a supergroup")) [
        | inl e ↦ rw (e, upgraded-nonempty _ e, classify_normalized)
        | inr e ↦ rw e
      ]

  -- However an error was thrown, its transient flag is what its class says.
  describe-transient :
      (e : SendError)
      → (describe_send_error ops e).transient
        ≡ includes_class transient_send_error_classes
            (classify_telegram_error ops (structured (describe_send_error ops e)))
  describe-transient (bot_api code description migrate) =
      unfold describe_send_error classify_telegram_error in refl
  describe-transient (plain m) =
      unfold describe_send_error classify_telegram_error in rw (classify_structured-plain m)

  -- A transient failure, however it was thrown, never uses up the retry budget.
  pub describe-transient_uncounted :
      (e : SendError)
      → (describe_send_error ops e).transient ≡ true
      → retry_disposition_for_error ops (structured (describe_send_error ops e)) ≡ retry_uncounted
  unfolding retry_disposition_for_error
  describe-transient_uncounted e h =
      transient-uncounted (classify_telegram_error ops (structured (describe_send_error ops e)))
        (rw (describe-transient e) at h)

  -- A failure with a migration hint is not sent again to the old chat, and neither closes the
  -- delivery nor uses up its budget.
  pub migrate_hint_lem :
      (code : ℕ) (description : String) (chat : ℤ)
      → let f = describe_send_error ops (bot_api code description (some chat)) in
        (f.transient ≡ false) × (retry_disposition_for_error ops (structured f) ≡ retry_uncounted)
  unfolding describe_send_error retry_disposition_for_error classify_telegram_error
  migrate_hint_lem code description chat = (refl, refl)
