-- ===== src/Utils/RateLimit/Window.antt =====
-- How many calls the limiter of src/utils/rateLimit.ts lets through in any window.
use text.Mathlib.TextEquality.{eq_iff}
use email_to_telegram.Base.{
  ℕ, ◌+◌, ◌≤◌, ◌<◌, String, Bool, true, false, ◌&&◌, List, [], ◌∷◌, ◌++◌, ◌≡◌, subst, arith, length,
  filter, count, leb, str_eq, if◌then◌else◌, Bool-cases, if-split, ◌⊎◌, inl, inr, count-append,
}
use email_to_telegram.Utils.RateLimit.{is_live, rate_limiter, Event, call, sweeping, Answered, run}
use email_to_telegram.Utils.RateLimit.Ledger.{
  Ledger, stamps, ledger_allows, noted, run_ledger, is_clock, run-run_ledger,
}

-- `t` is in the window of `window_ms` that ends at `last`.
abbrev pub in_window : ℕ → ℕ → ℕ → Bool
in_window window_ms last t = leb t last && is_live window_ms last t

-- A call of the key that was let through in the window.
abbrev pub is_granted : ℕ → ℕ → String → Answered → Bool
is_granted window_ms last key a = a.allowed && (str_eq a.key key && in_window window_ms last a.at)

-- The same of the ledger.
abbrev pub is_noted : ℕ → ℕ → String → String × ℕ → Bool
is_noted window_ms last key a = str_eq a.0 key && in_window window_ms last a.1

count-noted :
    (window_ms : ℕ) (ledger : Ledger) (k : String) (at : ℕ) (allowed : Bool) (key : String)
    (last : ℕ)
    → count (is_noted window_ms last key) (noted allowed k at ledger)
      ≡ (if is_granted window_ms last key (record { key = k; at = at; allowed = allowed })
          then 1
          else 0)
        + count (is_noted window_ms last key) ledger
count-noted window_ms ledger k at false key last = omega arith
count-noted window_ms ledger k at true key last =
    ground (arith, count-append (is_noted window_ms last key) ledger ((k, at) ∷ []))

module _ (max window_ms : ℕ) where
  IsWithin : Ledger → Type 0
  IsWithin ledger = (key : String) (last : ℕ) → count (is_noted window_ms last key) ledger ≤ max

  -- What a window that ends at `now` or later sees is live at `now`.
  count-live :
      (ledger : Ledger) (key : String) (last now : ℕ)
      → now ≤ last
      → count (is_noted window_ms last key) ledger
        ≤ length (filter (is_live window_ms now) (stamps key ledger))
  count-live [] key last now le = omega arith
  count-live (a ∷ ledger) key last now le = ground (arith, count-live ledger key last now le)

  noted-IsWithin :
      (ledger : Ledger) (key : String) (now : ℕ)
      → IsWithin ledger
      → IsWithin (noted (ledger_allows max window_ms ledger key now) key now ledger)
  unfolding IsWithin
  noted-IsWithin ledger key now w k last =
      if-split (λ (h : Ledger). count (is_noted window_ms last k) h ≤ max)
        (ledger_allows max window_ms ledger key now)
        (λ room. if_room room (Bool-cases (is_noted window_ms last k (key, now))))
        (λ full. w k last)
    where
      if_room :
          ledger_allows max window_ms ledger key now ≡ true
          → (is_noted window_ms last k (key, now) ≡ true)
            ⊎ (is_noted window_ms last k (key, now) ≡ false)
          → count (is_noted window_ms last k) (ledger ++ (key, now) ∷ []) ≤ max
      if_room room (inl hit) =
          let same : key ≡ k = (eq_iff key k).0 (ground (arith, hit)) in
          let seen : count (is_noted window_ms last k) ledger < max = ground (
            arith,
            count-live ledger k last now (ground (arith, hit)),
            subst (λ j. ledger_allows max window_ms ledger j now ≡ true) same room,
          ) in
          rw (count-append (is_noted window_ms last k) ledger ((key, now) ∷ []), hit)
            (omega (arith, seen))
      if_room room (inr miss) =
          rw (count-append (is_noted window_ms last k) ledger ((key, now) ∷ []), miss)
            (omega (arith, w k last))

  run_ledger-within :
      (events : List Event) (ledger : Ledger) (key : String) (last : ℕ)
      → IsWithin ledger
      → count (is_granted window_ms last key) (run_ledger max window_ms events ledger)
          + count (is_noted window_ms last key) ledger
        ≤ max
  unfolding IsWithin run_ledger
  run_ledger-within [] ledger key last w = omega (arith, w key last)
  run_ledger-within (call k at ∷ events) ledger key last w =
      let allowed = ledger_allows max window_ms ledger k at in
      ground (
        arith,
        count-noted window_ms ledger k at allowed key last,
        run_ledger-within events (noted allowed k at ledger) key last
            (noted-IsWithin ledger k at w),
      )
  run_ledger-within (sweeping at ∷ events) ledger key last w =
      run_ledger-within events ledger key last w

  -- In no window of `window_ms`, wherever it ends, are more than `max` calls of a key let through, as
  -- long as the clock does not go back.
  pub run-within :
      (events : List Event) (key : String) (last : ℕ)
      → is_clock 0 events ≡ true
      → count (is_granted window_ms last key) (run events (rate_limiter max window_ms)) ≤ max
  unfolding IsWithin
  run-within events key last clock =
      rw (run-run_ledger max window_ms events clock)
        (omega (arith, run_ledger-within events [] key last (λ k t. omega arith)))
