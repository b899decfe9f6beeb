-- ===== src/Utils/InFlight/Running.antt =====
-- The tracker of src/utils/inFlight.ts against the operations that are running.
use text.Mathlib.TextEquality.{eq_iff}
use email_to_telegram.Base.{
  ℕ, suc, ◌+◌, ◌-◌, ◌<◌, String, Bool, true, false, not, ◌&&◌, Option, none, some, List, [], ◌∷◌,
  ◌++◌, ◌≡◌, refl, sym, subst, ◌⊎◌, inl, inr, arith, ◌==◌, ltb, or_else, str_eq, is_text, length,
  count, length-append, count-append, Bool-cases, if-split, if◌then◌else◌,
}
use email_to_telegram.Utils.InFlight.{
  InFlightTracker, in_flight_tracker, add_key, begin, remove_key, finish, drain, time_out,
}

-- The trackers that are reached, with the keys of the operations that run. They end in any order.
pub data Reaches : InFlightTracker → List (Option String) → Type 0 where
  fresh : Reaches in_flight_tracker []
  began :
      {t : InFlightTracker} {running : List (Option String)} (key : Option String)
      → Reaches t running
      → Reaches (begin key t) (key ∷ running)
  finished :
      {t : InFlightTracker} (before : List (Option String)) (key : Option String)
      (after : List (Option String))
      → Reaches t (before ++ key ∷ after)
      → Reaches (finish key t).0 (before ++ after)
  drained :
      {t : InFlightTracker} {running : List (Option String)} (waiter : ℕ)
      → Reaches t running
      → Reaches (drain waiter t).0 running
  timed_out :
      {t : InFlightTracker} {running : List (Option String)} (waiter : ℕ)
      → Reaches t running
      → Reaches (time_out waiter t) running

-- How many of the operations that run are for the key. An empty key is not tracked.
abbrev pub runs_for : String → List (Option String) → ℕ
runs_for key running = if str_eq key "" then 0 else count (λ k. is_text k key) running

-- The count is that of the operations that run, every key's count is that of its operations, and
-- somebody waits only while something runs.
pub record IsTracking (t : InFlightTracker) (running : List (Option String)) : Type 0 where
  pub count_lem : t.count ≡ length running
  pub active_lem : (key : String) → or_else (t.active_keys key) 0 ≡ runs_for key running
  pub awaited : (t.waiters ≡ []) ⊎ (0 < length running)

str_eq-miss : (s t : String) → str_eq s t ≡ false → str_eq t s ≡ false
str_eq-miss s t h = ground (arith, eq_iff s t, eq_iff t s, h)

add_key_hit :
    (k : String) (keys : String → Option ℕ) (running : List (Option String))
    → or_else (keys k) 0 ≡ runs_for k running
    → or_else (add_key (some k) keys k) 0 ≡ runs_for k (some k ∷ running)
add_key_hit k keys running h =
    if-split (λ (m : String → Option ℕ). or_else (m k) 0 ≡ runs_for k (some k ∷ running))
      (str_eq k "") (λ empty. ground (arith, h, empty))
      (λ named. rw ((eq_iff k k).1 refl) (ground (arith, h, named)))

add_key_miss :
    (k : String) (keys : String → Option ℕ) (running : List (Option String)) (key : String)
    → str_eq key k ≡ false
    → or_else (keys key) 0 ≡ runs_for key running
    → or_else (add_key (some k) keys key) 0 ≡ runs_for key (some k ∷ running)
add_key_miss k keys running key miss h =
    let apart = str_eq-miss key k miss in
    if-split (λ (m : String → Option ℕ). or_else (m key) 0 ≡ runs_for key (some k ∷ running))
      (str_eq k "") (λ empty. ground (arith, h, apart))
      (λ named. rw miss (ground (arith, h, apart)))

add_key_lem :
    (k : Option String) (keys : String → Option ℕ) (running : List (Option String)) (key : String)
    → ((j : String) → or_else (keys j) 0 ≡ runs_for j running)
    → or_else (add_key k keys key) 0 ≡ runs_for key (k ∷ running)
add_key_lem none keys running key h = h key
add_key_lem (some k) keys running key h = elim (Bool-cases (str_eq key k)) [
  | inl hit ↦
      subst (λ j. or_else (add_key (some k) keys j) 0 ≡ runs_for j (some k ∷ running))
        (sym ((eq_iff key k).0 hit)) (add_key_hit k keys running (h k))
  | inr miss ↦ add_key_miss k keys running key miss (h key)
]

runs_for-split :
    (k : Option String) (before after : List (Option String)) (key : String)
    → runs_for key (before ++ k ∷ after)
      ≡ (if is_text k key && not (str_eq key "") then 1 else 0) + runs_for key (before ++ after)
runs_for-split k before after key = ground (
  arith,
  count-append (λ j. is_text j key) before (k ∷ after),
  count-append (λ j. is_text j key) before after,
)

remove_key_hit :
    (k : String) (keys : String → Option ℕ) (before after : List (Option String))
    → or_else (keys k) 0 ≡ runs_for k (before ++ some k ∷ after)
    → or_else (remove_key (some k) keys k) 0 ≡ runs_for k (before ++ after)
remove_key_hit k keys before after h =
    let same : str_eq k k ≡ true = (eq_iff k k).1 refl in
    let parts = runs_for-split (some k) before after k in
    if-split (λ (m : String → Option ℕ). or_else (m k) 0 ≡ runs_for k (before ++ after))
      (str_eq k "") (λ empty. ground (arith, h, empty))
      (λ named.
        if-split (λ (m : String → Option ℕ). or_else (m k) 0 ≡ runs_for k (before ++ after))
          (ltb 0 (or_else (keys k) 1 - 1))
          (λ more. rw same (ground (arith, h, named, more, same, parts)))
          (λ last. rw same (ground (arith, h, named, last, same, parts))))

remove_key_miss :
    (k : String) (keys : String → Option ℕ) (before after : List (Option String)) (key : String)
    → str_eq key k ≡ false
    → or_else (keys key) 0 ≡ runs_for key (before ++ some k ∷ after)
    → or_else (remove_key (some k) keys key) 0 ≡ runs_for key (before ++ after)
remove_key_miss k keys before after key miss h =
    let apart = str_eq-miss key k miss in
    let rest : or_else (keys key) 0 ≡ runs_for key (before ++ after) =
      ground (arith, h, apart, runs_for-split (some k) before after key) in
    if-split (λ (m : String → Option ℕ). or_else (m key) 0 ≡ runs_for key (before ++ after))
      (str_eq k "") (λ empty. rest)
      (λ named.
        if-split (λ (m : String → Option ℕ). or_else (m key) 0 ≡ runs_for key (before ++ after))
          (ltb 0 (or_else (keys k) 1 - 1)) (λ more. rw miss rest) (λ last. rw miss rest))

remove_key_lem :
    (k : Option String) (keys : String → Option ℕ) (before after : List (Option String))
    (key : String)
    → ((j : String) → or_else (keys j) 0 ≡ runs_for j (before ++ k ∷ after))
    → or_else (remove_key k keys key) 0 ≡ runs_for key (before ++ after)
remove_key_lem none keys before after key h =
    omega (arith, h key, runs_for-split none before after key)
remove_key_lem (some k) keys before after key h = elim (Bool-cases (str_eq key k)) [
  | inl hit ↦
      subst (λ j. or_else (remove_key (some k) keys j) 0 ≡ runs_for j (before ++ after))
        (sym ((eq_iff key k).0 hit)) (remove_key_hit k keys before after (h k))
  | inr miss ↦ remove_key_miss k keys before after key miss (h key)
]

begin-IsTracking :
    {t : InFlightTracker} {running : List (Option String)} (key : Option String)
    → IsTracking t running
    → IsTracking (begin key t) (key ∷ running)
unfolding begin
begin-IsTracking {t} {running} key w = record {
  count_lem = omega (arith, w.count_lem);
  active_lem = λ j. add_key_lem key t.active_keys running j w.active_lem;
  awaited = inr (omega arith);
}

finish-IsTracking :
    {t : InFlightTracker} (before : List (Option String)) (key : Option String)
    (after : List (Option String))
    → IsTracking t (before ++ key ∷ after)
    → IsTracking (finish key t).0 (before ++ after)
unfolding finish
finish-IsTracking {t} before key after w =
    let fewer : length (before ++ key ∷ after) ≡ suc (length (before ++ after)) =
      omega (arith, length-append before (key ∷ after), length-append before after) in
    let keys : (j : String)
        → or_else (remove_key key t.active_keys j) 0 ≡ runs_for j (before ++ after) =
      λ j. remove_key_lem key t.active_keys before after j w.active_lem in
    if-split (λ (r : InFlightTracker × List ℕ). IsTracking r.0 (before ++ after)) (t.count - 1 == 0)
      (λ idle. record {
        count_lem = omega (arith, w.count_lem, fewer);
        active_lem = keys;
        awaited = inl refl;
      })
      (λ busy. record {
        count_lem = omega (arith, w.count_lem, fewer);
        active_lem = keys;
        awaited = inr (ground (arith, w.count_lem, fewer, busy));
      })

drain-IsTracking :
    {t : InFlightTracker} {running : List (Option String)} (waiter : ℕ)
    → IsTracking t running
    → IsTracking (drain waiter t).0 running
unfolding drain
drain-IsTracking {t} {running} waiter w =
    if-split (λ (r : InFlightTracker × Bool). IsTracking r.0 running) (t.count == 0) (λ idle. w)
      (λ busy. record {
        count_lem = w.count_lem;
        active_lem = w.active_lem;
        awaited = inr (ground (arith, w.count_lem, busy));
      })

time_out-IsTracking :
    {t : InFlightTracker} {running : List (Option String)} (waiter : ℕ)
    → IsTracking t running
    → IsTracking (time_out waiter t) running
unfolding time_out
time_out-IsTracking {t} {running} waiter w = record {
  count_lem = w.count_lem;
  active_lem = w.active_lem;
  awaited = elim w.awaited [ inl e ↦ inl (rw e refl) | inr lt ↦ inr lt ];
}

-- Whatever starts, ends in whatever order, waits and times out: the count is that of the operations
-- that run, the count of a key is that of the operations that run for it, and nobody is left waiting
-- when nothing runs.
pub reached-IsTracking :
    {t : InFlightTracker} {running : List (Option String)}
    → Reaches t running
    → IsTracking t running
reached-IsTracking Reaches.fresh = record {
  count_lem = refl;
  active_lem = λ key. ground arith;
  awaited = inl refl;
}
reached-IsTracking (Reaches.began key r) = begin-IsTracking key (reached-IsTracking r)
reached-IsTracking (Reaches.finished before key after r) =
    finish-IsTracking before key after (reached-IsTracking r)
reached-IsTracking (Reaches.drained waiter r) = drain-IsTracking waiter (reached-IsTracking r)
reached-IsTracking (Reaches.timed_out waiter r) = time_out-IsTracking waiter (reached-IsTracking r)
