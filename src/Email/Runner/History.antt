-- ===== src/Email/Runner/History.antt =====
-- When the runner of src/email/retry.ts starts a run, told from what happened before alone.
use email_to_telegram.Base.{
  ℕ, ◌+◌, Bool, true, false, not, ◌&&◌, List, [], ◌∷◌, ◌≡◌, ◌∙◌, sym, ap, inl, inr, refl, arith,
  ◌==◌, any, count, if◌then◌else◌, Bool-cases,
}
use email_to_telegram.Email.Runner.{
  Mark, run_started, run_ended, stop_requested, Watched, tick, stop, settle_run, should_stop,
  RunnerEvent, ticked, stop_called, run_settled, watched,
}

abbrev pub is_start : Mark → Bool
is_start run_started = true
is_start run_ended = false
is_start stop_requested = false

abbrev pub is_end : Mark → Bool
is_end run_started = false
is_end run_ended = true
is_end stop_requested = false

abbrev pub is_stop : Mark → Bool
is_stop run_started = false
is_stop run_ended = false
is_stop stop_requested = true

-- Every run that began has ended.
abbrev pub is_idle : List Mark → Bool
is_idle marks = count is_start marks == count is_end marks

abbrev pub extended : RunnerEvent → List Mark → List Mark
extended ticked marks =
    if is_idle marks && not (any is_stop marks) then run_started ∷ marks else marks
extended stop_called marks = stop_requested ∷ marks
extended run_settled marks = if is_idle marks then marks else run_ended ∷ marks

-- The marks that the events should leave.
abbrev pub history : List RunnerEvent → List Mark
history [] = []
history (e ∷ events) = extended e (history events)

abbrev one_if : Bool → ℕ
one_if true = 1
one_if false = 0

-- What the runner's state says of the marks.
record Agrees (w : Watched) : Type 0 where
  open_runs : count is_start w.1 ≡ count is_end w.1 + one_if w.0.active
  told : should_stop w.0 ≡ any is_stop w.1

idle-not_active :
    (active : Bool) (starts ends : ℕ)
    → starts ≡ ends + one_if active
    → (starts == ends) ≡ not active
idle-not_active true starts ends h = ground (arith, h)
idle-not_active false starts ends h = ground (arith, h)

tick-Agrees : (w : Watched) → Agrees w → Agrees (tick w) × ((tick w).1 ≡ extended ticked w.1)
unfolding tick
tick-Agrees w a =
    let runs = a.open_runs in
    let stops = a.told in
    let idle = idle-not_active w.0.active (count is_start w.1) (count is_end w.1) runs in
    elim (Bool-cases w.0.stopped) [
      | inl told ↦
          rw (told, idle, sym stops, told)
            (record { open_runs = runs; told = rw told at stops }, ground arith)
      | inr quiet ↦ elim (Bool-cases w.0.active) [
        | inl busy ↦
            rw (quiet, busy, idle, busy)
              (record { open_runs = rw busy at runs; told = rw quiet at stops }, refl)
        | inr free ↦
            let none_open : count is_start w.1 ≡ count is_end w.1 + 0 = rw free at runs in
            rw (quiet, free, idle, sym stops, free, quiet)
              (record { open_runs = omega arith; told = rw quiet at stops }, refl)
      ]
    ]

stop-Agrees : (w : Watched) → Agrees w → Agrees (stop w)
unfolding stop
stop-Agrees w a = record { open_runs = a.open_runs; told = refl }

settle-Agrees :
    (w : Watched) → Agrees w → Agrees (settle_run w) × ((settle_run w).1 ≡ extended run_settled w.1)
unfolding settle_run
settle-Agrees w a =
    let runs = a.open_runs in
    let idle = idle-not_active w.0.active (count is_start w.1) (count is_end w.1) runs in
    elim (Bool-cases w.0.active) [
      | inl busy ↦
          let one_open : count is_start w.1 ≡ count is_end w.1 + 1 = rw busy at runs in
          rw (busy, idle, busy) (record { open_runs = omega arith; told = a.told }, refl)
      | inr free ↦
          rw (free, idle, free) (record { open_runs = rw free at runs; told = a.told }, refl)
    ]

watched-Agrees :
    (events : List RunnerEvent) → Agrees (watched events) × ((watched events).1 ≡ history events)
unfolding watched stop
watched-Agrees [] = (record { open_runs = refl; told = refl }, refl)
watched-Agrees (ticked ∷ events) =
    let before = watched-Agrees events in
    let now = tick-Agrees (watched events) before.0 in
    (now.0, now.1 ∙ ap (extended ticked) before.1)
watched-Agrees (stop_called ∷ events) =
    let before = watched-Agrees events in
    (stop-Agrees (watched events) before.0, ap (extended stop_called) before.1)
watched-Agrees (run_settled ∷ events) =
    let before = watched-Agrees events in
    let now = settle-Agrees (watched events) before.0 in
    (now.0, now.1 ∙ ap (extended run_settled) before.1)

-- Whatever ticks, stops and ends of runs came, a tick began a run exactly where every run before it
-- had ended and no stop was requested, so that no two runs overlap and no due tick is lost. The runner
-- holds a run exactly where one has not ended, and a run is told to stop exactly after a stop.
pub watched-history :
    (events : List RunnerEvent)
    → ((watched events).1 ≡ history events)
      × (((watched events).0.active ≡ not (is_idle (history events)))
          × (should_stop (watched events).0 ≡ any is_stop (history events)))
watched-history events =
    let (a, same) = watched-Agrees events in
    (
      same,
      (
        flip (watched events).0.active (
            sym (ap is_idle same)
            ∙ idle-not_active (watched events).0.active (count is_start (watched events).1)
                (count is_end (watched events).1) a.open_runs),
        a.told ∙ ap (any is_stop) same,
      ),
    )
  where
    flip : (active : Bool) {idle : Bool} → idle ≡ not active → active ≡ not idle
    flip true h = rw h refl
    flip false h = rw h refl
