-- ===== src/Activation/NoticeQueue.antt =====
-- `ActivationNoticeQueue` and its jobs (src/activation/noticeQueue.ts) with their bounds
-- (src/activation/bounds.ts). A buffer is its length, the clock's readings are arguments, and so is
-- what the runner of a job and the work of an authentication come to.
pub mod Unsettled
pub mod Phases
use email_to_telegram.Base.{
  ℕ, ◌+◌, ◌-◌, ◌*◌, min, String, Bool, true, false, not, ◌&&◌, ◌||◌, Option, none, some, or_else,
  is_truthy, ltb, leb, ◌⊎◌, inl, inr, if◌then◌else◌,
}

-- The bounds that are numbers of jobs, bytes or milliseconds in the queue.
pub record NoticeBounds : Type 0 where
  pub max_admitted_jobs : ℕ
  pub max_concurrent_authentications : ℕ
  pub max_held_mime_bytes : ℕ
  pub max_job_age_at_start_ms : ℕ
  pub job_deadline_ms : ℕ
  pub authentication_budget_ms : ℕ

abbrev pub notice_bounds : NoticeBounds
notice_bounds = record {
  max_admitted_jobs = 8;
  max_concurrent_authentications = 2;
  max_held_mime_bytes = 4 * 1024 * 1024;
  max_job_age_at_start_ms = 60000;
  job_deadline_ms = 20000;
  authentication_budget_ms = 8000;
}

pub data ActivationNoticeStage : Type 0 where
  raw preflight : ActivationNoticeStage

pub data ActivationNoticeResult : Type 0 where
  sent gated not_claimed dropped stale failed : ActivationNoticeResult

pub record ActivationNoticeRequest : Type 0 where
  pub stage : ActivationNoticeStage
  pub alias_id : ℕ
  pub header_from_domain : Option String
  pub envelope_from : Option String
  pub raw_mime : Option ℕ

pub record ActivationNoticeJob : Type 0 where
  pub stage : ActivationNoticeStage
  pub alias_id : ℕ
  pub header_from_domain : Option String
  pub envelope_from : Option String
  pub mime : Option ℕ
  pub admitted_at : ℕ

pub record ActivationNoticeQueue : Type 0 where
  pub closed : Bool
  pub admitted_jobs : ℕ
  pub held_mime : ℕ

abbrev pub new_queue : ActivationNoticeQueue
new_queue = record { closed = false; admitted_jobs = 0; held_mime = 0 }

abbrev pub fitting : NoticeBounds → ℕ → Option ℕ → Option ℕ
fitting b held none = none
fitting b held (some bytes) =
    if ltb 0 bytes && leb (held + bytes) b.max_held_mime_bytes then some bytes else none

-- The MIME that is worth holding and fits.
abbrev pub mime_of : NoticeBounds → ℕ → ActivationNoticeRequest → Option ℕ
mime_of b held request =
    if is_truthy request.header_from_domain then fitting b held request.raw_mime else none

abbrev pub job_of :
    NoticeBounds → ActivationNoticeQueue → ActivationNoticeRequest → ℕ → ActivationNoticeJob
job_of b q request now = record {
  stage = request.stage;
  alias_id = request.alias_id;
  header_from_domain = request.header_from_domain;
  envelope_from = request.envelope_from;
  mime = mime_of b q.held_mime request;
  admitted_at = now;
}

abbrev pub mime_bytes : ActivationNoticeJob → ℕ
mime_bytes job = or_else job.mime 0

-- The job that was admitted, if one was.
unfoldable pub admit :
    NoticeBounds
    → ActivationNoticeQueue
    → ActivationNoticeRequest
    → ℕ
    → ActivationNoticeQueue × Option ActivationNoticeJob
admit b q request now =
    let job = job_of b q request now in
    if q.closed || leb b.max_admitted_jobs q.admitted_jobs then (q, none) else (
      record q { admitted_jobs = q.admitted_jobs + 1; held_mime = q.held_mime + mime_bytes job },
      some job,
    )

-- The `finally` of an admitted job.
unfoldable pub settle : ActivationNoticeJob → ActivationNoticeQueue → ActivationNoticeQueue
settle job q = record q {
  admitted_jobs = q.admitted_jobs - 1;
  held_mime = q.held_mime - mime_bytes job;
}

-- `shutdown`, up to the wait. `closed` also stands for the signal, which is aborted with it.
unfoldable pub shutdown : ActivationNoticeQueue → ActivationNoticeQueue
shutdown q = record q { closed = true }

pub record JobContext : Type 0 where
  pub deadline_at : ℕ

abbrev pub job_context : NoticeBounds → ℕ → JobContext
job_context b now = record { deadline_at = now + b.job_deadline_ms }

pub data StopReason : Type 0 where
  by_shutdown by_deadline : StopReason

-- What `beginPhase` throws, where it throws.
unfoldable pub begin_phase : JobContext → Bool → ℕ → Option StopReason
begin_phase ctx aborted now =
    if aborted then some by_shutdown else if leb ctx.deadline_at now then some by_deadline else none

unfoldable pub can_start_phase : JobContext → Bool → ℕ → Bool
can_start_phase ctx aborted now = not aborted && ltb now ctx.deadline_at

-- What the runner of a job comes to.
pub data Ran : Type 0 where
  returned : ActivationNoticeResult → Ran
  phase_stopped other_error : Ran

abbrev pub ran_result : Ran → ActivationNoticeResult
ran_result (returned result) = result
ran_result phase_stopped = dropped
ran_result other_error = failed

-- Whether the job's runner is called, and the result that is recorded.
abbrev pub starts : NoticeBounds → ActivationNoticeQueue → ActivationNoticeJob → ℕ → Bool
starts b q job now = not (q.closed || ltb (job.admitted_at + b.max_job_age_at_start_ms) now)

unfoldable pub run_job :
    NoticeBounds
    → ActivationNoticeQueue
    → ActivationNoticeJob
    → ℕ
    → (JobContext → Ran)
    → ℕ
    → ActivationNoticeResult
run_job b q job created runner now =
    if starts b q job now then ran_result (runner (job_context b created)) else dropped

pub data AuthenticationOutcome {ℓ} (T : Type ℓ) : Type ℓ where
  authenticated : T → AuthenticationOutcome T
  over_budget was_stopped raised : AuthenticationOutcome T

-- How a wait for a slot and the work end: the slot was not given, or the first of the work's end and
-- the stop. The flag says whether the shutdown's signal was aborted at a stop.
pub data AuthenticationRace {ℓ} (T : Type ℓ) : Type ℓ where
  no_slot : Bool → AuthenticationRace T
  stopped_first : Bool → AuthenticationRace T
  worked : T → AuthenticationRace T
  work_failed : AuthenticationRace T

abbrev pub authentication_budget : NoticeBounds → JobContext → ℕ → ℕ
authentication_budget b ctx now = min b.authentication_budget_ms (ctx.deadline_at - now)

abbrev pub stop_of {ℓ} : {T : Type ℓ} → Bool → AuthenticationOutcome T
stop_of aborted = if aborted then was_stopped else over_budget

abbrev pub race_of {ℓ} : {T : Type ℓ} → AuthenticationRace T → AuthenticationOutcome T
race_of (no_slot aborted) = stop_of aborted
race_of (stopped_first aborted) = stop_of aborted
race_of (worked value) = authenticated value
race_of work_failed = raised

-- `authenticate`: the reason that `beginPhase` throws, or the outcome.
unfoldable pub authenticate {ℓ} :
    {T : Type ℓ}
    → JobContext
    → Bool
    → ℕ
    → AuthenticationRace T
    → StopReason ⊎ AuthenticationOutcome T
authenticate ctx aborted now race = elim (begin_phase ctx aborted now) [
  | some reason ↦ inl reason
  | none ↦ inr (race_of race)
]
