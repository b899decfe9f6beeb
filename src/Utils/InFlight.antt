-- ===== src/Utils/InFlight.antt =====
-- src/utils/inFlight.ts: the count of running operations, the keys that they are for, and those who
-- wait for the count to reach zero. A waiter is a number, and a promise that settles is in the result.
pub mod Running
use email_to_telegram.Base.{
  ℕ, suc, ◌+◌, ◌-◌, String, Bool, true, false, Option, none, some, List, [], ◌∷◌, ◌++◌, ◌==◌, ltb,
  or_else, str_eq, set, delete, is_truthy, if◌then◌else◌,
}

pub record InFlightTracker : Type 0 where
  pub count : ℕ
  pub active_keys : String → Option ℕ
  pub waiters : List ℕ

abbrev pub in_flight_tracker : InFlightTracker
in_flight_tracker = record { count = 0; active_keys = λ key. none; waiters = [] }

abbrev pub is_active_key : InFlightTracker → String → Bool
is_active_key t key = ltb 0 (or_else (t.active_keys key) 0)

-- The part of `runInternal` before `fn`.
abbrev pub add_key : Option String → (String → Option ℕ) → String → Option ℕ
add_key none keys = keys
add_key (some key) keys =
    if str_eq key "" then keys else set str_eq key (or_else (keys key) 0 + 1) keys

unfoldable pub begin : Option String → InFlightTracker → InFlightTracker
begin key t = record t { count = t.count + 1; active_keys = add_key key t.active_keys }

abbrev pub remove_key : Option String → (String → Option ℕ) → String → Option ℕ
remove_key none keys = keys
remove_key (some key) keys =
    let remaining = or_else (keys key) 1 - 1 in
    if str_eq key ""
    then keys
    else if ltb 0 remaining
    then set str_eq key remaining keys
    else delete str_eq key keys

-- Its `finally` block, with the waiters that are resolved.
unfoldable pub finish : Option String → InFlightTracker → InFlightTracker × List ℕ
finish key t =
    let left = record t { count = t.count - 1; active_keys = remove_key key t.active_keys } in
    if left.count == 0 then (record left { waiters = [] }, t.waiters) else (left, [])

-- Whether the promise resolves at once.
unfoldable pub drain : ℕ → InFlightTracker → InFlightTracker × Bool
drain waiter t =
    if t.count == 0 then (t, true) else (record t { waiters = t.waiters ++ waiter ∷ [] }, false)

abbrev pub remove_waiter : ℕ → List ℕ → List ℕ
remove_waiter waiter [] = []
remove_waiter waiter (w ∷ waiters) =
    let rest = remove_waiter waiter waiters in if w == waiter then waiters else w ∷ rest

-- The timeout of a waiter, which rejects.
unfoldable pub time_out : ℕ → InFlightTracker → InFlightTracker
time_out waiter t = record t { waiters = remove_waiter waiter t.waiters }
