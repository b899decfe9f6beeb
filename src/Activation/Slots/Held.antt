-- ===== src/Activation/Slots/Held.antt =====
-- The slots of src/activation/noticeQueue.ts against those who hold one.
use email_to_telegram.Base.{
  ℕ, suc, ◌-◌, ◌≤◌, Bool, Option, none, some, List, [], ◌∷◌, ◌++◌, ◌≡◌, refl, ap, ◌⊎◌, inl, inr,
  arith, length, length-append, ltb, if-split,
}
use email_to_telegram.Activation.Slots.{
  Slots, new_slots, Acquired, refused, granted, waiting, acquire, grant_next, release_slot, abort,
}

-- Who holds a slot after `acquire` and after `release_slot`.
abbrev pub held_after : Acquired → ℕ → List ℕ → List ℕ
held_after granted id held = id ∷ held
held_after refused id held = held
held_after waiting id held = held

abbrev pub joined : Option ℕ → List ℕ → List ℕ
joined none held = held
joined (some id) held = id ∷ held

-- The slots that are reached with `limit` of them, and those who hold one. A holder releases its
-- slot in any order, and one that waits may stop waiting.
pub data Reaches (limit : ℕ) : Slots → List ℕ → Type 0 where
  fresh : Reaches limit (new_slots limit) []
  acquired :
      {s : Slots} {held : List ℕ} (aborted : Bool) (id : ℕ)
      → Reaches limit s held
      → Reaches limit (acquire aborted id s).0 (held_after (acquire aborted id s).1 id held)
  released :
      {s : Slots} (before : List ℕ) (id : ℕ) (after : List ℕ)
      → Reaches limit s (before ++ id ∷ after)
      → Reaches limit (release_slot s).0 (joined (release_slot s).1 (before ++ after))
  aborted_at :
      {s : Slots} {held : List ℕ} (id : ℕ) → Reaches limit s held → Reaches limit (abort id s) held

-- The holders are counted, they are not too many, and nobody waits while a slot is free.
pub record IsFair (limit : ℕ) (s : Slots) (held : List ℕ) : Type 0 where
  pub limit_lem : s.limit ≡ limit
  pub active_lem : s.active ≡ length held
  pub held-le : length held ≤ limit
  pub busy : (s.waiters ≡ []) ⊎ (length held ≡ limit)

acquire-IsFair :
    {limit : ℕ} {s : Slots} {held : List ℕ} (aborted : Bool) (id : ℕ)
    → IsFair limit s held
    → IsFair limit (acquire aborted id s).0 (held_after (acquire aborted id s).1 id held)
unfolding acquire
acquire-IsFair {limit} {s} {held} aborted id f =
    if-split (λ (r : Slots × Acquired). IsFair limit r.0 (held_after r.1 id held)) aborted
      (λ stopped. f)
      (λ live.
        if-split (λ (r : Slots × Acquired). IsFair limit r.0 (held_after r.1 id held))
          (ltb s.active s.limit)
          (λ room. record {
            limit_lem = f.limit_lem;
            active_lem = omega (arith, f.active_lem);
            held-le = ground (arith, f.active_lem, f.limit_lem, room);
            busy = elim f.busy [
              | inl e ↦ inl e
              | inr full ↦ absurd (ground (arith, full, f.active_lem, f.limit_lem, room))
            ];
          })
          (λ none_left. record {
            limit_lem = f.limit_lem;
            active_lem = f.active_lem;
            held-le = f.held-le;
            busy = inr (ground (arith, f.held-le, f.active_lem, f.limit_lem, none_left));
          }))

release_slot-IsFair :
    {limit : ℕ} {s : Slots} (before : List ℕ) (id : ℕ) (after : List ℕ)
    → IsFair limit s (before ++ id ∷ after)
    → IsFair limit (release_slot s).0 (joined (release_slot s).1 (before ++ after))
unfolding release_slot
release_slot-IsFair {limit} {s} before id after f = by_waiters s.waiters f.busy
  where
    fewer : length (before ++ id ∷ after) ≡ suc (length (before ++ after))
    fewer = omega (arith, length-append before (id ∷ after), length-append before after)

    by_waiters :
        (waiters : List ℕ)
        → (waiters ≡ []) ⊎ (length (before ++ id ∷ after) ≡ limit)
        → let r = grant_next s.limit (s.active - 1) waiters in
          IsFair limit r.0 (joined r.1 (before ++ after))
    by_waiters [] b = record {
      limit_lem = f.limit_lem;
      active_lem = omega (arith, f.active_lem, fewer);
      held-le = omega (arith, f.held-le, fewer);
      busy = inl refl;
    }
    by_waiters (w ∷ waiters) b = record {
      limit_lem = f.limit_lem;
      active_lem = omega (arith, f.active_lem, fewer);
      held-le = omega (arith, f.held-le, fewer);
      busy = elim b [
        | inl e ↦
            let none_left : suc (length waiters) ≡ 0 = ap length e in
            absurd (omega (arith, none_left))
        | inr full ↦ inr (omega (arith, full, fewer))
      ];
    }

-- However slots are asked for, given back and waited for: at most `limit` are taken, the count is
-- that of the holders, and nobody waits while one is free.
pub reached-IsFair :
    {limit : ℕ} {s : Slots} {held : List ℕ} → Reaches limit s held → IsFair limit s held
unfolding abort
reached-IsFair Reaches.fresh = record {
  limit_lem = refl;
  active_lem = refl;
  held-le = omega arith;
  busy = inl refl;
}
reached-IsFair (Reaches.acquired aborted id r) = acquire-IsFair aborted id (reached-IsFair r)
reached-IsFair (Reaches.released before id after r) =
    release_slot-IsFair before id after (reached-IsFair r)
reached-IsFair (Reaches.aborted_at {s} id r) =
    let f = reached-IsFair r in
    record {
      limit_lem = f.limit_lem;
      active_lem = f.active_lem;
      held-le = f.held-le;
      busy = elim f.busy [ inl e ↦ inl (rw e refl) | inr full ↦ inr full ];
    }
