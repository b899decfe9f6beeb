-- ===== src/Telegram/Session/Pending.antt =====
-- How long an action stays pending in src/telegram/session.ts.
use email_to_telegram.Base.{
  ℕ, ◌+◌, ◌<◌, ◌≤◌, Bool, true, false, not, ◌&&◌, Option, none, some, List, [], ◌∷◌, ◌≡◌, refl, ◌⊎◌,
  inl, inr, arith, ap, ◌∙◌, subst, ltb→lt, is_some, ◌==◌, ltb, leb, all, ==_iff, ==_refl,
  Bool-cases, if-split, if◌then◌else◌, set,
}
use email_to_telegram.Telegram.Session.{
  PendingAction, UserSession, Sessions, session_ttl_ms, is_expired, get_found, get, get_pending,
  set_pending, clear_pending, kept, sweep_sessions, SessionEvent, read, prompted, cleared,
  swept_sessions, handle, handle_all, touch, same_user,
}

-- The event sets or clears the user's pending action.
abbrev pub is_write : ℕ → SessionEvent → Bool
is_write user (read u) = false
is_write user (prompted u pending) = u == user
is_write user (cleared u) = u == user
is_write user swept_sessions = false

-- The clock does not go back, from `from` to `now`.
abbrev pub is_between : ℕ → ℕ → List (ℕ × SessionEvent) → Bool
is_between from now [] = leb from now
is_between from now (e ∷ events) = leb from e.0 && is_between e.0 now events

-- The entry is as it was set, or is gone after its time.
abbrev pub IsKeeping : PendingAction → ℕ → ℕ → Option UserSession → Type 0
IsKeeping pending at now entry =
    (entry ≡ some (record { pending = some pending; last_touched = at }))
    ⊎ ((entry ≡ none) × (at + session_ttl_ms < now))

module _ (user : ℕ) (pending : PendingAction) (at : ℕ) where
  later-IsKeeping :
      {now now' : ℕ} {entry : Option UserSession}
      → now ≤ now'
      → IsKeeping pending at now entry
      → IsKeeping pending at now' entry
  later-IsKeeping le (inl e) = inl e
  later-IsKeeping le (inr (e, gone)) = inr (e, omega (arith, le, gone))

  -- An entry that is found stale may be dropped.
  stale-IsKeeping :
      {now : ℕ} {entry : Option UserSession} (session : UserSession)
      → entry ≡ some session
      → is_expired now session ≡ true
      → IsKeeping pending at now entry
      → IsKeeping pending at now none
  stale-IsKeeping {now} {entry} session found stale (inl e) =
      let same : session ≡ record { pending = some pending; last_touched = at } = cc in
      inr (
        refl,
        ltb→lt (at + session_ttl_ms) now
            (subst (λ (r : UserSession). is_expired now r ≡ true) same stale),
      )
  stale-IsKeeping session found stale (inr (e, gone)) = inr (refl, gone)

  get_found-IsKeeping :
      {now : ℕ} (u : ℕ) (s : Sessions) (found : Option UserSession)
      → s u ≡ found
      → IsKeeping pending at now (s user)
      → IsKeeping pending at now ((get_found now u s found).1 user)
  get_found-IsKeeping u s none e k = k
  get_found-IsKeeping {now} u s (some session) e k =
      if-split (λ (r : UserSession × Sessions). IsKeeping pending at now (r.1 user))
        (is_expired now session)
        (λ stale.
          if-split (λ (o : Option UserSession). IsKeeping pending at now o) (user == u)
            (λ same. stale-IsKeeping session (ap s ((==_iff user u).0 same) ∙ e) stale k)
            (λ other. k))
        (λ fresh. k)

  kept-IsKeeping :
      {now : ℕ} (entry : Option UserSession)
      → IsKeeping pending at now entry
      → IsKeeping pending at now (kept now entry)
  kept-IsKeeping none k = k
  kept-IsKeeping {now} (some session) k =
      if-split (λ (o : Option UserSession). IsKeeping pending at now o) (is_expired now session)
        (λ stale. stale-IsKeeping session refl stale k) (λ fresh. k)

  -- A write to another user's entry.
  set-IsKeeping :
      {now : ℕ} (u : ℕ) (session : UserSession) (s : Sessions)
      → (u == user) ≡ false
      → IsKeeping pending at now (s user)
      → IsKeeping pending at now (set same_user u session s user)
  set-IsKeeping {now} u session s other k =
      let apart : (user == u) ≡ false = ground (arith, other) in rw apart k

  handle-IsKeeping :
      {now : ℕ} (e : SessionEvent) (s : Sessions)
      → is_write user e ≡ false
      → IsKeeping pending at now (s user)
      → IsKeeping pending at now (handle now e s user)
  unfolding handle get_pending set_pending clear_pending sweep_sessions get
  handle-IsKeeping (read u) s quiet k = get_found-IsKeeping u s (s u) refl k
  handle-IsKeeping {now} (prompted u p) s quiet k =
      set-IsKeeping u (touch now (record (get now u s).0 { pending = some p })) (get now u s).1
        quiet (get_found-IsKeeping u s (s u) refl k)
  handle-IsKeeping {now} (cleared u) s quiet k =
      let k' : IsKeeping pending at now ((get now u s).1 user) =
        get_found-IsKeeping u s (s u) refl k in
      if-split (λ (t : Sessions). IsKeeping pending at now (t user))
        (is_some (get now u s).0.pending)
        (λ set_before.
          set-IsKeeping u (touch now (record (get now u s).0 { pending = none })) (get now u s).1
            quiet k')
        (λ unset. k')
  handle-IsKeeping swept_sessions s quiet k = kept-IsKeeping (s user) k

  handle_all-IsKeeping :
      (from now : ℕ) (events : List (ℕ × SessionEvent)) (s : Sessions)
      → is_between from now events ≡ true
      → all (λ e. not (is_write user e.1)) events ≡ true
      → IsKeeping pending at from (s user)
      → IsKeeping pending at now (handle_all events s user)
  unfolding handle_all
  handle_all-IsKeeping from now [] s clock quiet k = later-IsKeeping (ground (arith, clock)) k
  handle_all-IsKeeping from now (e ∷ events) s clock quiet k =
      handle_all-IsKeeping e.0 now events (handle e.0 e.1 s) (ground (arith, clock))
        (ground (arith, quiet))
        (handle-IsKeeping e.1 s (ground (arith, quiet)) (later-IsKeeping (ground (arith, clock)) k))

  found-IsKeeping :
      {now : ℕ} (s : Sessions) (found : Option UserSession)
      → IsKeeping pending at now found
      → (get_found now user s found).0.pending
        ≡ (if ltb (at + session_ttl_ms) now then none else some pending)
  found-IsKeeping {now} s found (inl e) =
      rw e (elim (Bool-cases (ltb (at + session_ttl_ms) now)) [
        | inl h ↦ rw h refl
        | inr h ↦ rw h refl
      ])
  found-IsKeeping {now} s found (inr (e, gone)) =
      rw e (let h : ltb (at + session_ttl_ms) now ≡ true = ground (arith, gone) in rw h refl)

  -- What is set is read back: whatever is read, swept, or set and cleared for others meanwhile, a
  -- user's pending action is the one that was set last, until half an hour has passed, and none
  -- after that. The clock is assumed not to go back.
  pub set-get_pending :
      (now : ℕ) (events : List (ℕ × SessionEvent)) (s : Sessions)
      → is_between at now events ≡ true
      → all (λ e. not (is_write user e.1)) events ≡ true
      → (get_pending now user (handle_all events (set_pending at user pending s))).0
        ≡ (if ltb (at + session_ttl_ms) now then none else some pending)
  unfolding get_pending get set_pending
  set-get_pending now events s clock quiet =
      let s' = handle_all events (set_pending at user pending s) in
      found-IsKeeping s' (s' user) (
        handle_all-IsKeeping at now events (set_pending at user pending s) clock quiet
          (inl (rw (==_refl user) refl)))
