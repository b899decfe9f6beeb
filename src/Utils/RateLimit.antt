-- ===== src/Utils/RateLimit.antt =====
-- src/utils/rateLimit.ts: at most so many calls for a key within a window. The clock's readings are
-- arguments, and the timer of the sweep is the sequence of sweeps.
pub mod Ledger
pub mod Window
use email_to_telegram.Base.{
  ℕ, ◌+◌, ◌-◌, String, Bool, true, false, not, Option, none, some, List, [], ◌∷◌, ◌++◌, length,
  filter, all, leb, ltb, or_else, str_eq, set, if◌then◌else◌,
}

pub record RateLimiter : Type 0 where
  pub max : ℕ
  pub window_ms : ℕ
  pub store : String → Option (List ℕ)

-- `t > cutoff`, with `now - windowMs` on the other side: the source's may be negative.
abbrev pub is_live : ℕ → ℕ → ℕ → Bool
is_live window_ms now t = ltb now (t + window_ms)

abbrev pub rate_limiter : ℕ → ℕ → RateLimiter
rate_limiter max window_ms = record { max = max; window_ms = window_ms; store = λ key. none }

abbrev pub live_stamps : RateLimiter → String → ℕ → List ℕ
live_stamps l key now = filter (is_live l.window_ms now) (or_else (l.store key) [])

unfoldable pub check : RateLimiter → String → ℕ → RateLimiter × Bool
check l key now =
    let timestamps = live_stamps l key now in
    if leb l.max (length timestamps)
    then (record l { store = set str_eq key timestamps l.store }, false)
    else (record l { store = set str_eq key (timestamps ++ now ∷ []) l.store }, true)

-- The sweep's look at one entry.
abbrev pub swept : ℕ → ℕ → Option (List ℕ) → Option (List ℕ)
swept window_ms now none = none
swept window_ms now (some timestamps) =
    if all (λ t. not (is_live window_ms now t)) timestamps then none else some timestamps

unfoldable pub sweep : RateLimiter → ℕ → RateLimiter
sweep l now = record l { store = λ key. swept l.window_ms now (l.store key) }

unfoldable pub destroy : RateLimiter → RateLimiter
destroy l = record l { store = λ key. none }

-- What happens to a limiter, with the clock's reading.
pub data Event : Type 0 where
  call : String → ℕ → Event
  sweeping : ℕ → Event

-- A call with its answer.
pub record Answered : Type 0 where
  pub key : String
  pub at : ℕ
  pub allowed : Bool

unfoldable pub run : List Event → RateLimiter → List Answered
run [] l = []
run (call key now ∷ events) l =
    let (l', allowed) = check l key now in
    record { key = key; at = now; allowed = allowed } ∷ run events l'
run (sweeping now ∷ events) l = run events (sweep l now)
