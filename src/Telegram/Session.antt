-- ===== src/Telegram/Session.antt =====
-- src/telegram/session.ts: what the bot waits for from a user, for half an hour. The clock's readings
-- are arguments, and the timer of the sweep is the sequence of sweeps.
pub mod Pending
use email_to_telegram.Base.{
  ℕ, ◌+◌, ◌*◌, ℤ, String, Bool, true, false, Option, none, some, List, [], ◌∷◌, ◌==◌, ltb, set,
  delete, is_some, if◌then◌else◌,
}

pub data PendingAction : Type 0 where
  new_email : ℤ → String → Option ℕ → PendingAction
  allow_rule : ℕ → String → PendingAction
  alias_label : ℕ → Option ℤ → Option ℕ → PendingAction

pub record UserSession : Type 0 where
  pub pending : Option PendingAction
  pub last_touched : ℕ

abbrev pub Sessions : Type 0
Sessions = ℕ → Option UserSession

abbrev pub session_ttl_ms : ℕ
session_ttl_ms = 30 * 60 * 1000

abbrev pub same_user : ℕ → ℕ → Bool
same_user a b = a == b

-- `now - lastTouched > SESSION_TTL_MS`, without the difference, which may be negative.
abbrev pub is_expired : ℕ → UserSession → Bool
is_expired now session = ltb (session.last_touched + session_ttl_ms) now

abbrev pub new_session : ℕ → UserSession
new_session now = record { pending = none; last_touched = now }

-- `get` of the entry that was found, with the store after an eviction.
abbrev pub get_found : ℕ → ℕ → Sessions → Option UserSession → UserSession × Sessions
get_found now user s none = (new_session now, s)
get_found now user s (some session) =
    if is_expired now session then (new_session now, delete same_user user s) else (session, s)

unfoldable pub get : ℕ → ℕ → Sessions → UserSession × Sessions
get now user s = get_found now user s (s user)

unfoldable pub get_pending : ℕ → ℕ → Sessions → Option PendingAction × Sessions
get_pending now user s = let (session, s') = get now user s in (session.pending, s')

abbrev pub touch : ℕ → UserSession → UserSession
touch now session = record session { last_touched = now }

unfoldable pub set_pending : ℕ → ℕ → PendingAction → Sessions → Sessions
set_pending now user pending s =
    let (session, s') = get now user s in
    set same_user user (touch now (record session { pending = some pending })) s'

unfoldable pub clear_pending : ℕ → ℕ → Sessions → Sessions
clear_pending now user s =
    let (session, s') = get now user s in
    if is_some session.pending
    then set same_user user (touch now (record session { pending = none })) s'
    else s'

abbrev pub kept : ℕ → Option UserSession → Option UserSession
kept now none = none
kept now (some session) = if is_expired now session then none else some session

unfoldable pub sweep_sessions : ℕ → Sessions → Sessions
sweep_sessions now s = λ user. kept now (s user)

pub data SessionEvent : Type 0 where
  read : ℕ → SessionEvent
  prompted : ℕ → PendingAction → SessionEvent
  cleared : ℕ → SessionEvent
  swept_sessions : SessionEvent

unfoldable pub handle : ℕ → SessionEvent → Sessions → Sessions
handle now (read user) s = (get_pending now user s).1
handle now (prompted user pending) s = set_pending now user pending s
handle now (cleared user) s = clear_pending now user s
handle now swept_sessions s = sweep_sessions now s

unfoldable pub handle_all : List (ℕ × SessionEvent) → Sessions → Sessions
handle_all [] s = s
handle_all (e ∷ events) s = handle_all events (handle e.0 e.1 s)
