-- ===== src/Examples/Limits.antt =====
-- The theorems on the rate limiter, the tracker, the slots, the queue of notices and
-- the sessions, at short runs.
use email_to_telegram.Base.{
  ℕ, ◌≡◌, ◌≤◌, ◌+◌, refl, false, none, some, List, [], ◌∷◌, count, ltb, if◌then◌else◌,
}
use email_to_telegram.Utils.RateLimit.{Event, call, sweeping, run, rate_limiter}
use email_to_telegram.Utils.RateLimit.Ledger.{run_ledger, run-run_ledger}
use email_to_telegram.Utils.RateLimit.Window.{is_granted, run-within}
use email_to_telegram.Utils.InFlight.{begin, finish, in_flight_tracker}
use email_to_telegram.Utils.InFlight.Running
use email_to_telegram.Utils.InFlight.Running.{IsTracking, reached-IsTracking}
use email_to_telegram.Telegram.Session.{
  allow_rule, SessionEvent, read, cleared, swept_sessions, handle_all, set_pending, get_pending,
  session_ttl_ms,
}
use email_to_telegram.Telegram.Session.Pending.{set-get_pending}
use email_to_telegram.Activation.Slots.{acquire, new_slots}
use email_to_telegram.Activation.Slots.Held
use email_to_telegram.Activation.Slots.Held.{IsFair, reached-IsFair}
use email_to_telegram.Activation.NoticeQueue.{
  notice_bounds, ActivationNoticeRequest, raw, new_queue, admit,
}
use email_to_telegram.Activation.NoticeQueue.Unsettled
use email_to_telegram.Activation.NoticeQueue.Unsettled.{IsBounded, reached-IsBounded}

-- Three calls within a window of 10 with room for two, a sweep, and a fourth call after it.
abbrev calls : List Event
calls = call "a" 1 ∷ call "a" 5 ∷ call "a" 7 ∷ sweeping 12 ∷ call "a" 12 ∷ []

run-run_ledger_example : run calls (rate_limiter 2 10) ≡ run_ledger 2 10 calls []
run-run_ledger_example = run-run_ledger 2 10 calls refl

run-within_example : count (is_granted 10 12 "a") (run calls (rate_limiter 2 10)) ≤ 2
run-within_example = run-within 2 10 calls "a" 12 refl

-- Of the two operations the second ends first.
reached-IsTracking_example :
    IsTracking
      (finish (some "b") (begin (some "b") (begin (some "a") in_flight_tracker))).0
      (some "a" ∷ [])
reached-IsTracking_example = reached-IsTracking (
    Running.Reaches.finished [] (some "b") (some "a" ∷ [])
      (Running.Reaches.began (some "b") (Running.Reaches.began (some "a") Running.Reaches.fresh)))

abbrev session_events : List (ℕ × SessionEvent)
session_events = (60, read 7) ∷ (70, cleared 8) ∷ (80, swept_sessions) ∷ []

set-get_pending_example :
    (get_pending 90 7
      (handle_all session_events (set_pending 50 7 (allow_rule 1 "news") (λ user. none)))).0
    ≡ (if ltb (50 + session_ttl_ms) 90 then none else some (allow_rule 1 "news"))
set-get_pending_example =
    set-get_pending 7 (allow_rule 1 "news") 50 90 session_events (λ user. none) refl refl

reached-IsFair_example : IsFair 1 (acquire false 5 (acquire false 4 (new_slots 1)).0).0 (
    Held.held_after
      (acquire false 5 (acquire false 4 (new_slots 1)).0).1
      5
      (Held.held_after (acquire false 4 (new_slots 1)).1 4 []))
reached-IsFair_example =
    reached-IsFair
      (Held.Reaches.acquired false 5 (Held.Reaches.acquired false 4 Held.Reaches.fresh))

abbrev bounced : ActivationNoticeRequest
bounced = record {
  stage = raw;
  alias_id = 1;
  header_from_domain = some "b.io";
  envelope_from = none;
  raw_mime = some 900;
}

reached-IsBounded_example :
    IsBounded notice_bounds
      (admit notice_bounds new_queue bounced 10).0
      (Unsettled.with_job (admit notice_bounds new_queue bounced 10).1 [])
reached-IsBounded_example =
    reached-IsBounded (Unsettled.Reaches.admitted bounced 10 Unsettled.Reaches.fresh)
