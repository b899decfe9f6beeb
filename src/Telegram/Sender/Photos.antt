-- ===== src/Telegram/Sender/Photos.antt =====
-- `sendTelegramPhotos` of src/telegram/sender.ts: the photos of a mail, in groups of ten. What each
-- group's send comes to, the opening of its files included, is an argument.
pub mod Laws
pub mod Migrated
use email_to_telegram.Base.{
  ℕ, zero, suc, ◌+◌, ◌≤◌, String, Bool, true, false, Option, none, some, List, [], ◌∷◌, ◌++◌, ◌≡◌,
  refl, ◌⊎◌, inl, inr, arith, TextOps, take, drop, length, count, is_some, if◌then◌else◌, ◌==◌, not,
  all, leb,
}
use email_to_telegram.Telegram.Errors.{TelegramSendFailure, SendError, describe_send_error}

pub record PhotoItem : Type 0 where
  pub id : String
  pub storage_path : String
  pub filename : String
  pub encryption_mode : Option String
  pub wrapped_dek : Option String
  pub kek_key_id : Option String

-- What the loop has done: the groups that were sent, with the message they reply to, the photos that
-- failed, and the failure that is reported.
pub record PhotosState : Type 0 where
  pub sent : List (List PhotoItem × Option ℕ)
  pub failed_photos : List PhotoItem
  pub failure : Option TelegramSendFailure

-- `SendPhotosResult`, with the groups that were sent.
pub record PhotosOutcome : Type 0 where
  pub ok : Bool
  pub state : PhotosState

abbrev pub media_group_max : ℕ
media_group_max = 10

-- `failure ??= chunkFailure`
abbrev pub first_failure : Option TelegramSendFailure → TelegramSendFailure → TelegramSendFailure
first_failure none f = f
first_failure (some g) f = g

abbrev pub reply_of : Option ℕ → ℕ → Option ℕ
reply_of reply zero = reply
reply_of reply (suc n) = none

abbrev pub nothing_sent : PhotosState
nothing_sent = record { sent = []; failed_photos = []; failure = none }

abbrev pub sent_group : Option ℕ → List PhotoItem → PhotosState → PhotosState
sent_group reply photos s = record s { sent = s.sent ++ (take media_group_max photos, reply) ∷ [] }

abbrev pub failed_group : TelegramSendFailure → List PhotoItem → PhotosState → PhotosState
failed_group f photos s = record s {
  failed_photos = s.failed_photos ++ take media_group_max photos;
  failure = some (first_failure s.failure f);
}

-- The chat migrated: the groups that are left fail with this one.
abbrev pub aborted : TelegramSendFailure → List PhotoItem → PhotosState → PhotosState
aborted f photos s = record s {
  failed_photos = (s.failed_photos ++ take media_group_max photos) ++ drop media_group_max photos;
  failure = some f;
}

module _ (ops : TextOps) (answer : ℕ → Option SendError) (reply : Option ℕ) where
  -- The groups from the `n`th on, of the photos that are left. Every turn with photos left takes one
  -- or more of them, so that fuel for as many turns as there are photos is enough.
  unfoldable pub send_groups : ℕ → ℕ → List PhotoItem → PhotosState → PhotosState
  send_groups zero n photos s = s
  send_groups (suc fuel) n [] s = s
  send_groups (suc fuel) n (x ∷ xs) s = elim (answer n) [
    | none ↦
        send_groups fuel (suc n) (drop media_group_max (x ∷ xs))
          (sent_group (reply_of reply n) (x ∷ xs) s)
    | some e ↦
        let f = describe_send_error ops e in
        let rest =
          send_groups fuel (suc n) (drop media_group_max (x ∷ xs)) (failed_group f (x ∷ xs) s) in
        if is_some f.migrate_to_chat_id then aborted f (x ∷ xs) s else rest
  ]

  unfoldable pub send_telegram_photos : List PhotoItem → PhotosOutcome
  send_telegram_photos photos =
      let s = send_groups (length photos) 0 photos nothing_sent in
      record { ok = length s.failed_photos == 0; state = s }

-- The photos of the groups that were sent.
abbrev pub photos_of : List (List PhotoItem × Option ℕ) → List PhotoItem
photos_of [] = []
photos_of (g ∷ groups) = g.0 ++ photos_of groups
