-- ===== src/Telegram/Sender/Photos/Laws.antt =====
-- The loop of `sendTelegramPhotos` in src/telegram/sender.ts.
use mathlib.Core.Logic.{◌↔◌}
use email_to_telegram.Base.{
  ℕ, zero, suc, ◌+◌, ◌≤◌, Bool, true, not, Option, List, [], ◌∷◌, ◌++◌, ◌≡◌, refl, arith, TextOps,
  take, drop, length, count, is_some, ◌==◌, all, leb, ap, if-split, count-append, count-take-drop,
  length-append, length-drop, length-take-le, Option-cases, inl, inr,
}
use email_to_telegram.Telegram.Errors.{TelegramSendFailure, SendError, describe_send_error}
use email_to_telegram.Telegram.Sender.Photos.{
  PhotoItem, PhotosState, PhotosOutcome, media_group_max, photos_of, sent_group, failed_group,
  aborted, reply_of, nothing_sent, send_groups, send_telegram_photos,
}

-- The photos that the state accounts for, and those that are left.
abbrev pub shared : (PhotoItem → Bool) → List PhotoItem → PhotosState → ℕ
shared p rest s = count p (photos_of s.sent) + count p s.failed_photos + count p rest

count-photos_of :
    (p : PhotoItem → Bool) (groups : List (List PhotoItem × Option ℕ)) (g : List PhotoItem)
    (reply : Option ℕ)
    → count p (photos_of (groups ++ (g, reply) ∷ [])) ≡ count p (photos_of groups) + count p g
count-photos_of p [] g reply = omega (arith, count-append p g [])
count-photos_of p (h ∷ groups) g reply = omega (
  arith,
  count-append p h.0 (photos_of (groups ++ (g, reply) ∷ [])),
  count-append p h.0 (photos_of groups),
  count-photos_of p groups g reply,
)

-- A property that every turn of the loop keeps.
record IsKept {ℓ} (Inv : List PhotoItem → PhotosState → Type ℓ) : Type ℓ where
  sent_kept :
      (reply : Option ℕ) (photos : List PhotoItem) (s : PhotosState)
      → Inv photos s
      → Inv (drop media_group_max photos) (sent_group reply photos s)
  failed_kept :
      (f : TelegramSendFailure) (x : PhotoItem) (xs : List PhotoItem) (s : PhotosState)
      → Inv (x ∷ xs) s
      → Inv (drop media_group_max (x ∷ xs)) (failed_group f (x ∷ xs) s)
  aborted_kept :
      (f : TelegramSendFailure) (x : PhotoItem) (xs : List PhotoItem) (s : PhotosState)
      → Inv (x ∷ xs) s
      → Inv [] (aborted f (x ∷ xs) s)

module _ (ops : TextOps) (answer : ℕ → Option SendError) (reply : Option ℕ) where
  send_groups-kept {ℓ} :
      (Inv : List PhotoItem → PhotosState → Type ℓ)
      → IsKept Inv
      → (fuel n : ℕ) (photos : List PhotoItem) (s : PhotosState) → length photos ≤ fuel
      → Inv photos s
      → Inv [] (send_groups ops answer reply fuel n photos s)
  unfolding send_groups
  send_groups-kept Inv k zero n [] s enough i = i
  send_groups-kept Inv k zero n (x ∷ xs) s enough i = absurd (omega (arith, enough))
  send_groups-kept Inv k (suc fuel) n [] s enough i = i
  send_groups-kept Inv k (suc fuel) n (x ∷ xs) s enough i =
      let fewer : length (drop media_group_max (x ∷ xs)) ≤ fuel =
        omega (arith, length-drop media_group_max (x ∷ xs), enough) in
      elim (Option-cases (answer n)) [
        | inl e ↦
            rw (e, send_groups)
              (send_groups-kept Inv k fuel (suc n) (drop media_group_max (x ∷ xs))
                (sent_group (reply_of reply n) (x ∷ xs) s) fewer
                (k.sent_kept (reply_of reply n) (x ∷ xs) s i))
        | inr (err, e) ↦
            rw (e, send_groups)
              (if-split (λ (t : PhotosState). Inv [] t)
                (is_some (describe_send_error ops err).migrate_to_chat_id)
                (λ migrated. k.aborted_kept (describe_send_error ops err) x xs s i)
                (λ goes_on.
                  send_groups-kept Inv k fuel (suc n) (drop media_group_max (x ∷ xs))
                    (failed_group (describe_send_error ops err) (x ∷ xs) s) fewer
                    (k.failed_kept (describe_send_error ops err) x xs s i)))
      ]

shared-IsKept : (p : PhotoItem → Bool) (total : ℕ) → IsKept (λ rest s. shared p rest s ≡ total)
shared-IsKept p total = record {
  sent_kept = λ reply photos s h. omega (
    arith,
    h,
    count-photos_of p s.sent (take media_group_max photos) reply,
    count-take-drop p media_group_max photos,
  );
  failed_kept = λ f x xs s h. omega (
    arith,
    h,
    count-append p s.failed_photos (take media_group_max (x ∷ xs)),
    count-take-drop p media_group_max (x ∷ xs),
  );
  aborted_kept = λ f x xs s h. omega (
    arith,
    h,
    count-append p (s.failed_photos ++ take media_group_max (x ∷ xs))
        (drop media_group_max (x ∷ xs)),
    count-append p s.failed_photos (take media_group_max (x ∷ xs)),
    count-take-drop p media_group_max (x ∷ xs),
  );
}

-- A failure is reported exactly where photos failed, and no group is over the limit.
pub record IsWellFormed (s : PhotosState) : Type 0 where
  pub reported : is_some s.failure ≡ not (length s.failed_photos == 0)
  pub grouped : all (λ g. leb (length g.0) media_group_max) s.sent ≡ true

reports-append :
    (xs : List PhotoItem) (x : PhotoItem) (ys : List PhotoItem)
    → true ≡ not (length (xs ++ take media_group_max (x ∷ ys)) == 0)
reports-append xs x ys = ground (arith, length-append xs (take media_group_max (x ∷ ys)))

all-append_one {ℓ} :
    {A : Type ℓ} (p : A → Bool) (xs : List A) (x : A)
    → all p xs ≡ true
    → p x ≡ true
    → all p (xs ++ x ∷ []) ≡ true
all-append_one p [] x h e = rw e
all-append_one p (y ∷ xs) x h e = ground (arith, all-append_one p xs x)

IsWellFormed-IsKept : IsKept (λ rest s. IsWellFormed s)
IsWellFormed-IsKept = record {
  sent_kept = λ reply photos s w. record {
    reported = w.reported;
    grouped =
        all-append_one (λ g. leb (length g.0) media_group_max) s.sent
          (take media_group_max photos, reply) w.grouped
          (ground (arith, length-take-le media_group_max photos));
  };
  failed_kept =
      λ f x xs s w. record { reported = reports-append s.failed_photos x xs; grouped = w.grouped };
  aborted_kept = λ f x xs s w. record {
    reported = ground (
      arith,
      length-append s.failed_photos (take media_group_max (x ∷ xs)),
      length-append (s.failed_photos ++ take media_group_max (x ∷ xs))
          (drop media_group_max (x ∷ xs)),
    );
    grouped = w.grouped;
  };
}

no_photos_iff : (xs : List PhotoItem) → ((length xs == 0) ≡ true) ↔ (xs ≡ [])
no_photos_iff [] = (λ e. refl, λ e. refl)
no_photos_iff (x ∷ xs) = (λ e. absurd (ground (arith, e)), λ e. ap (λ zs. length zs == 0) e)

-- What a batch comes to: every photo is sent or reported as failed, as often as it was given.
pub record IsAccounted (photos : List PhotoItem) (out : PhotosOutcome) : Type 0 where
  pub each :
      (p : PhotoItem → Bool)
      → count p (photos_of out.state.sent) + count p out.state.failed_photos ≡ count p photos
  pub ok_iff : (out.ok ≡ true) ↔ (out.state.failed_photos ≡ [])
  pub explained : is_some out.state.failure ≡ not out.ok
  pub grouped : all (λ g. leb (length g.0) media_group_max) out.state.sent ≡ true

-- Every photo is in a group that was sent or among the failed ones, each as often as it was given;
-- the batch is reported as ok exactly where none failed, a failure is given exactly where it is not,
-- and a group has at most ten photos.
pub send_telegram_photos-IsAccounted :
    (ops : TextOps) (answer : ℕ → Option SendError) (reply : Option ℕ) (photos : List PhotoItem)
    → IsAccounted photos (send_telegram_photos ops answer reply photos)
unfolding send_telegram_photos
send_telegram_photos-IsAccounted ops answer reply photos = record {
  each = λ p. omega (
    arith,
    send_groups-kept ops answer reply (λ rest s. shared p rest s ≡ count p photos)
        (shared-IsKept p (count p photos)) (length photos) 0 photos nothing_sent (omega arith)
        (omega arith),
  );
  ok_iff =
      no_photos_iff
        (send_groups ops answer reply (length photos) 0 photos nothing_sent).failed_photos;
  explained = well_formed.reported;
  grouped = well_formed.grouped;
}
  where
    well_formed : IsWellFormed (send_groups ops answer reply (length photos) 0 photos nothing_sent)
    well_formed =
        send_groups-kept ops answer reply (λ rest s. IsWellFormed s) IsWellFormed-IsKept
          (length photos) 0 photos nothing_sent (omega arith)
          (record { reported = refl; grouped = refl })
