-- ===== src/Utils/RateLimit/Ledger.antt =====
-- A limiter that forgets nothing, against which the one of src/utils/rateLimit.ts is measured.
use text.Mathlib.TextEquality.{eq_iff}
use email_to_telegram.Base.{
  ℕ, ◌≤◌, String, Bool, true, false, not, ◌&&◌, Option, none, some, List, [], ◌∷◌, ◌++◌, ◌≡◌, refl,
  ap, sym, ◌∙◌, arith, filter-filter, filter-append_lem, filter-none, length, filter, all, leb,
  or_else, str_eq, set, if◌then◌else◌, Bool-cases, inl, inr,
}
use email_to_telegram.Utils.RateLimit.{
  RateLimiter, is_live, rate_limiter, live_stamps, check, swept, sweep, Event, call, sweeping,
  Answered, run,
}

-- Every call that was let through, oldest first.
abbrev pub Ledger : Type 0
Ledger = List (String × ℕ)

abbrev pub stamps : String → Ledger → List ℕ
stamps key [] = []
stamps key (a ∷ ledger) =
    let rest = stamps key ledger in if str_eq a.0 key then a.1 ∷ rest else rest

-- A call is let through where fewer than `max` were in the window that ends now.
abbrev pub ledger_allows : ℕ → ℕ → Ledger → String → ℕ → Bool
ledger_allows max window_ms ledger key now =
    not (leb max (length (filter (is_live window_ms now) (stamps key ledger))))

abbrev pub noted : Bool → String → ℕ → Ledger → Ledger
noted allowed key now ledger = if allowed then ledger ++ (key, now) ∷ [] else ledger

unfoldable pub run_ledger : ℕ → ℕ → List Event → Ledger → List Answered
run_ledger max window_ms [] ledger = []
run_ledger max window_ms (call key now ∷ events) ledger =
    let allowed = ledger_allows max window_ms ledger key now in
    record { key = key; at = now; allowed = allowed }
    ∷ run_ledger max window_ms events (noted allowed key now ledger)
run_ledger max window_ms (sweeping now ∷ events) ledger = run_ledger max window_ms events ledger

abbrev pub time_of : Event → ℕ
time_of (call key now) = now
time_of (sweeping now) = now

-- The clock does not go back.
abbrev pub is_clock : ℕ → List Event → Bool
is_clock now [] = true
is_clock now (e ∷ events) = leb now (time_of e) && is_clock (time_of e) events

live-later :
    (window_ms now later t : ℕ)
    → now ≤ later
    → is_live window_ms later t ≡ true
    → is_live window_ms now t ≡ true
live-later window_ms now later t le h = ground arith

stamps-append_hit :
    (key : String) (ledger : Ledger) (k : String) (now : ℕ)
    → str_eq k key ≡ true
    → stamps key (ledger ++ (k, now) ∷ []) ≡ stamps key ledger ++ now ∷ []
stamps-append_hit key [] k now h = rw h
stamps-append_hit key (a ∷ ledger) k now h = elim (Bool-cases (str_eq a.0 key)) [
  | inl e ↦ rw e (ap (λ ts. a.1 ∷ ts) (stamps-append_hit key ledger k now h))
  | inr e ↦ rw e (stamps-append_hit key ledger k now h)
]

stamps-append_miss :
    (key : String) (ledger : Ledger) (k : String) (now : ℕ)
    → str_eq k key ≡ false
    → stamps key (ledger ++ (k, now) ∷ []) ≡ stamps key ledger
stamps-append_miss key [] k now h = rw h
stamps-append_miss key (a ∷ ledger) k now h = elim (Bool-cases (str_eq a.0 key)) [
  | inl e ↦ rw e (ap (λ ts. a.1 ∷ ts) (stamps-append_miss key ledger k now h))
  | inr e ↦ rw e (stamps-append_miss key ledger k now h)
]

-- What a later window sees of an entry that is cut down to the window of `now`.
seen_later :
    (window_ms now later : ℕ) (ts us : List ℕ)
    → now ≤ later
    → filter (is_live window_ms later) ts ≡ filter (is_live window_ms later) us
    → filter (is_live window_ms later) (filter (is_live window_ms now) ts)
      ≡ filter (is_live window_ms later) us
seen_later window_ms now later ts us le h =
    filter-filter (is_live window_ms now) (is_live window_ms later)
      (λ t. live-later window_ms now later t le) ts
    ∙ h

abbrev pub Store : Type 0
Store = String → Option (List ℕ)

module _ (max window_ms : ℕ) where
  abbrev pub limiter : Store → RateLimiter
  limiter store = record { max = max; window_ms = window_ms; store = store }

  -- The store keeps what the windows from now on see of the ledger.
  pub Tracks : ℕ → Store → Ledger → Type 0
  Tracks now store ledger =
      (key : String) (later : ℕ)
      → now ≤ later
      → filter (is_live window_ms later) (or_else (store key) [])
        ≡ filter (is_live window_ms later) (stamps key ledger)

  -- The entry of a key that is called.
  abbrev pub entry : Bool → Store → String → ℕ → List ℕ
  entry allowed store key at =
      let ts = live_stamps (limiter store) key at in if allowed then ts ++ at ∷ [] else ts

  check_lem :
      (store : Store) (ledger : Ledger) (key : String) (at : ℕ)
      → live_stamps (limiter store) key at ≡ filter (is_live window_ms at) (stamps key ledger)
      → let allowed = ledger_allows max window_ms ledger key at in
        check (limiter store) key at
        ≡ (limiter (set str_eq key (entry allowed store key at) store), allowed)
  unfolding check
  check_lem store ledger key at same =
      elim (Bool-cases (leb max (length (live_stamps (limiter store) key at)))) [
        | inl full ↦
            let full' : leb max (length (filter (is_live window_ms at) (stamps key ledger)))
                ≡ true =
              rw same at full in
            rw (check, full, full') refl
        | inr room ↦
            let room' : leb max (length (filter (is_live window_ms at) (stamps key ledger)))
                ≡ false =
              rw same at room in
            rw (check, room, room') refl
      ]

  entry_lem :
      (store : Store) (ledger : Ledger) (key : String) (at : ℕ) (allowed : Bool) (later : ℕ)
      → at ≤ later
      → filter (is_live window_ms later) (or_else (store key) [])
        ≡ filter (is_live window_ms later) (stamps key ledger)
      → filter (is_live window_ms later) (entry allowed store key at)
        ≡ filter (is_live window_ms later) (stamps key (noted allowed key at ledger))
  entry_lem store ledger key at false later le h =
      seen_later window_ms at later (or_else (store key) []) (stamps key ledger) le h
  entry_lem store ledger key at true later le h =
      rw
        (
          filter-append_lem (is_live window_ms later) (live_stamps (limiter store) key at)
              (at ∷ []),
          stamps-append_hit key ledger key at ((eq_iff key key).1 refl),
          filter-append_lem (is_live window_ms later) (stamps key ledger) (at ∷ []),
        )
        (ap (λ xs. xs ++ filter (is_live window_ms later) (at ∷ []))
          (seen_later window_ms at later (or_else (store key) []) (stamps key ledger) le h))

  other_entry :
      (ledger : Ledger) (key k : String) (at : ℕ) (allowed : Bool) (later : ℕ)
      → str_eq k key ≡ false
      → filter (is_live window_ms later) (stamps k ledger)
        ≡ filter (is_live window_ms later) (stamps k (noted allowed key at ledger))
  other_entry ledger key k at false later miss = refl
  other_entry ledger key k at true later miss =
      ap (λ ts. filter (is_live window_ms later) ts)
        (sym
          (stamps-append_miss k ledger key at (ground (arith, eq_iff k key, eq_iff key k, miss))))

  Tracks-check :
      {now : ℕ} (store : Store) (ledger : Ledger) (key : String) (at : ℕ)
      → now ≤ at
      → Tracks now store ledger
      → (allowed : Bool)
      → Tracks at (set str_eq key (entry allowed store key at) store) (noted allowed key at ledger)
  unfolding Tracks
  Tracks-check store ledger key at le t allowed k later le' = elim (Bool-cases (str_eq k key)) [
    | inl hit ↦ rw hit (
        rw ((eq_iff k key).0 hit)
          (entry_lem store ledger key at allowed later le' (t key later (omega (arith, le, le')))))
    | inr miss ↦
        rw miss
          (t k later (omega (arith, le, le')) ∙ other_entry ledger key k at allowed later miss)
  ]

  Tracks-sweep :
      {now : ℕ} (store : Store) (ledger : Ledger) (at : ℕ)
      → now ≤ at
      → Tracks now store ledger
      → Tracks at (λ key. swept window_ms at (store key)) ledger
  unfolding Tracks
  Tracks-sweep store ledger at le t key later le' =
      by_entry (store key) (t key later (omega (arith, le, le')))
    where
      by_entry :
          (o : Option (List ℕ))
          → filter (is_live window_ms later) (or_else o [])
            ≡ filter (is_live window_ms later) (stamps key ledger)
          → filter (is_live window_ms later) (or_else (swept window_ms at o) [])
            ≡ filter (is_live window_ms later) (stamps key ledger)
      by_entry none h = h
      by_entry (some ts) h = elim (Bool-cases (all (λ u. not (is_live window_ms at u)) ts)) [
        | inl dead ↦ rw dead (
            sym (
              filter-none (is_live window_ms later) (is_live window_ms at)
                (λ u. live-later window_ms at later u le') ts dead)
            ∙ h)
        | inr alive ↦ rw alive h
      ]

  run-Tracks :
      (events : List Event) (now : ℕ) (store : Store) (ledger : Ledger)
      → is_clock now events ≡ true
      → Tracks now store ledger
      → run events (limiter store) ≡ run_ledger max window_ms events ledger
  unfolding run run_ledger sweep Tracks
  run-Tracks [] now store ledger clock t = refl
  run-Tracks (call key at ∷ events) now store ledger clock t =
      let le : now ≤ at = ground (arith, clock) in
      let allowed = ledger_allows max window_ms ledger key at in
      rw (run, check_lem store ledger key at (t key at le))
        (ap (λ rest. record { key = key; at = at; allowed = allowed } ∷ rest)
          (run-Tracks events at (set str_eq key (entry allowed store key at) store)
            (noted allowed key at ledger) (ground (arith, clock))
            (Tracks-check store ledger key at le t allowed)))
  run-Tracks (sweeping at ∷ events) now store ledger clock t =
      run-Tracks events at (λ key. swept window_ms at (store key)) ledger (ground (arith, clock))
        (Tracks-sweep store ledger at (ground (arith, clock)) t)

  -- The limiter answers as one that forgets nothing: whatever was called and swept, as long as the
  -- clock does not go back, a call is let through exactly where fewer than `max` calls of its key
  -- were let through within the window that ends at it.
  pub run-run_ledger :
      (events : List Event)
      → is_clock 0 events ≡ true
      → run events (rate_limiter max window_ms) ≡ run_ledger max window_ms events []
  unfolding Tracks
  run-run_ledger events clock = run-Tracks events 0 (λ key. none) [] clock (λ key later le. refl)
