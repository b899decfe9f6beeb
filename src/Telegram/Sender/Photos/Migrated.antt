-- ===== src/Telegram/Sender/Photos/Migrated.antt =====
-- The end of a batch at a hint of another chat, in `sendTelegramPhotos` of src/telegram/sender.ts.
use email_to_telegram.Base.{
  ℕ, zero, suc, ◌+◌, ◌*◌, ◌≤◌, ◌<◌, Bool, true, false, Option, none, some, List, [], ◌∷◌, ◌≡◌,
  subst, arith, TextOps, take, drop, length, is_some, if-split, length-append, length-drop,
  Option-cases, inl, inr,
}
use email_to_telegram.Telegram.Errors.{TelegramSendFailure, SendError, describe_send_error}
use email_to_telegram.Telegram.Sender.Photos.{
  PhotoItem, PhotosState, media_group_max, sent_group, failed_group, reply_of, nothing_sent,
  send_groups, send_telegram_photos,
}

abbrev pub has_hint : Option TelegramSendFailure → Bool
has_hint none = false
has_hint (some f) = is_some f.migrate_to_chat_id

-- A failure with a hint is reported, and at most `most` groups were sent.
pub record IsCut (most : ℕ) (s : PhotosState) : Type 0 where
  pub hinted : has_hint s.failure ≡ true
  pub sent-le : length s.sent ≤ most

IsCut-mono : {a b : ℕ} {s : PhotosState} → a ≤ b → IsCut a s → IsCut b s
IsCut-mono le c = record { hinted = c.hinted; sent-le = omega (arith, le, c.sent-le) }

module _ (ops : TextOps) (answer : ℕ → Option SendError) (reply : Option ℕ) where
  send_groups-IsCut :
      (fuel n k : ℕ) (photos : List PhotoItem) (s : PhotosState) (e : SendError)
      → length photos ≤ fuel
      → media_group_max * k < length photos
      → answer (n + k) ≡ some e
      → is_some (describe_send_error ops e).migrate_to_chat_id ≡ true
      → IsCut (length s.sent + k) (send_groups ops answer reply fuel n photos s)
  unfolding send_groups
  send_groups-IsCut zero n k photos s e enough there thrown hint =
      absurd (omega (arith, enough, there))
  send_groups-IsCut (suc fuel) n k [] s e enough there thrown hint = absurd (omega (arith, there))
  send_groups-IsCut (suc fuel) n zero (x ∷ xs) s e enough there thrown hint =
      let at_once : answer n ≡ some e = subst (λ i. answer i ≡ some e) (omega arith) thrown in
      rw (at_once, send_groups, hint) (record { hinted = hint; sent-le = omega arith })
  send_groups-IsCut (suc fuel) n (suc k) (x ∷ xs) s e enough there thrown hint =
      let later : answer (suc n + k) ≡ some e =
        subst (λ i. answer i ≡ some e) (omega arith) thrown in
      let fewer = length-drop media_group_max (x ∷ xs) in
      elim (Option-cases (answer n)) [
        | inl none_thrown ↦
            rw (none_thrown, send_groups)
              (IsCut-mono
                (omega (
                  arith,
                  length-append s.sent ((take media_group_max (x ∷ xs), reply_of reply n) ∷ []),
                ))
                (send_groups-IsCut fuel (suc n) k (drop media_group_max (x ∷ xs))
                  (sent_group (reply_of reply n) (x ∷ xs) s) e (omega (arith, fewer, enough))
                  (omega (arith, fewer, there)) later hint))
        | inr (err, h) ↦
            rw (h, send_groups)
              (if-split (λ (t : PhotosState). IsCut (length s.sent + suc k) t)
                (is_some (describe_send_error ops err).migrate_to_chat_id)
                (λ migrated. record { hinted = migrated; sent-le = omega arith })
                (λ goes_on. IsCut-mono (omega arith) (
                  send_groups-IsCut fuel (suc n) k (drop media_group_max (x ∷ xs))
                    (failed_group (describe_send_error ops err) (x ∷ xs) s) e
                    (omega (arith, fewer, enough)) (omega (arith, fewer, there)) later hint)))
      ]

  -- A hint of another chat ends the batch: where the group with the number `n`, counted from 0, is
  -- there and is answered with a hint, the failure that is reported carries a hint, and at most `n`
  -- groups are sent.
  pub send_telegram_photos-IsCut :
      (n : ℕ) (photos : List PhotoItem) (e : SendError)
      → media_group_max * n < length photos
      → answer n ≡ some e
      → is_some (describe_send_error ops e).migrate_to_chat_id ≡ true
      → IsCut n (send_telegram_photos ops answer reply photos).state
  unfolding send_telegram_photos
  send_telegram_photos-IsCut n photos e there thrown hint = IsCut-mono (omega arith) (
      send_groups-IsCut (length photos) 0 n photos nothing_sent e (omega arith) there
        (subst (λ i. answer i ≡ some e) (omega arith) thrown) hint)
