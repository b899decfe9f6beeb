-- ===== src/Activation/NoticeQueue/Phases.antt =====
-- When a job of src/activation/noticeQueue.ts may do something.
use email_to_telegram.Base.{
  ℕ, ◌+◌, ◌≤◌, ◌<◌, Bool, true, false, ◌||◌, Option, none, some, ◌≡◌, ap, sym, if-split, arith, leb,
}
use email_to_telegram.Activation.NoticeQueue.{
  NoticeBounds, ActivationNoticeRequest, ActivationNoticeJob, ActivationNoticeQueue, admit,
  job_context, begin_phase, starts,
}

admit-admitted_at :
    (b : NoticeBounds) (q : ActivationNoticeQueue) (request : ActivationNoticeRequest)
    (job : ActivationNoticeJob) (now : ℕ)
    → (admit b q request now).1 ≡ some job
    → job.admitted_at ≡ now
unfolding admit
admit-admitted_at b q request job now =
    if-split
      (λ (r : ActivationNoticeQueue × Option ActivationNoticeJob).
        r.1 ≡ some job → job.admitted_at ≡ now)
      (q.closed || leb b.max_admitted_jobs q.admitted_jobs) (λ refused h. cc)
      (λ room h.
        sym (
          ap (λ (o : Option ActivationNoticeJob). elim o [ none ↦ now | some j ↦ j.admitted_at ])
            h))

-- A phase of a job begins before its age at the start and its deadline have passed: an admitted
-- job, whose context was made no later than its start was decided, begins no phase at
-- `max_job_age_at_start_ms + job_deadline_ms` after its admission or later, nor after a shutdown.
pub begin_phase-within :
    (b : NoticeBounds) (q q' : ActivationNoticeQueue) (request : ActivationNoticeRequest)
    (job : ActivationNoticeJob) (admitted created decided now : ℕ) (aborted : Bool)
    → (admit b q request admitted).1 ≡ some job
    → created ≤ decided
    → starts b q' job decided ≡ true
    → begin_phase (job_context b created) aborted now ≡ none
    → (now < admitted + b.max_job_age_at_start_ms + b.job_deadline_ms) × (aborted ≡ false)
unfolding admit begin_phase
begin_phase-within b q q' request job admitted created decided now aborted taken order started
      begun =
    let at = admit-admitted_at b q request job admitted taken in
    (ground (arith, at, order, started, begun), ground (arith, begun))
