-- ===== src/Email/Runner.antt =====
-- src/email/retry.ts, `createRetryRunner`: it keeps two runs of the retry worker from overlapping.
pub mod History
use email_to_telegram.Base.{Bool, true, false, List, [], ◌∷◌, ◌||◌, if◌then◌else◌}

-- `active` says whether the promise of a run is kept, which goes where it settles.
pub record RetryRunner : Type 0 where
  pub active : Bool
  pub stopped : Bool

abbrev pub retry_runner : RetryRunner
retry_runner = record { active = false; stopped = false }

-- What an observer sees: a run began, it settled, the runner was told to stop.
pub data Mark : Type 0 where
  run_started : Mark
  run_ended : Mark
  stop_requested : Mark

-- The marks seen so far, of which the newest comes first.
abbrev pub Watched : Type 0
Watched = RetryRunner × List Mark

unfoldable pub tick : Watched → Watched
tick (r, marks) =
    if r.stopped || r.active then (r, marks) else (record r { active = true }, run_started ∷ marks)

unfoldable pub stop : Watched → Watched
stop (r, marks) = (record r { stopped = true }, stop_requested ∷ marks)

-- The end of the run, whether or not it threw; without a run nothing ends.
unfoldable pub settle_run : Watched → Watched
settle_run (r, marks) =
    if r.active then (record r { active = false }, run_ended ∷ marks) else (r, marks)

abbrev pub should_stop : RetryRunner → Bool
should_stop r = r.stopped

pub data RunnerEvent : Type 0 where
  ticked : RunnerEvent
  stop_called : RunnerEvent
  run_settled : RunnerEvent

abbrev pub runner_step : RunnerEvent → Watched → Watched
runner_step ticked w = tick w
runner_step stop_called w = stop w
runner_step run_settled w = settle_run w

-- The events come newest first.
unfoldable pub watched : List RunnerEvent → Watched
watched [] = (retry_runner, [])
watched (e ∷ events) = runner_step e (watched events)
