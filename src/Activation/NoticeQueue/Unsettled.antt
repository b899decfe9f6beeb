-- ===== src/Activation/NoticeQueue/Unsettled.antt =====
-- The queue of src/activation/noticeQueue.ts against the jobs that have not settled.
use email_to_telegram.Base.{
  ℕ, suc, ◌+◌, ◌≤◌, Bool, true, not, ◌||◌, Option, none, some, or_else, is_truthy, leb, List, [],
  ◌∷◌, ◌++◌, ◌≡◌, refl, arith, length, length-append, all, is_some, if-split,
}
use email_to_telegram.Activation.NoticeQueue.{
  NoticeBounds, ActivationNoticeRequest, ActivationNoticeJob, ActivationNoticeQueue, new_queue,
  mime_of, mime_bytes, admit, settle, shutdown,
}

abbrev pub with_job :
    Option ActivationNoticeJob → List ActivationNoticeJob → List ActivationNoticeJob
with_job none jobs = jobs
with_job (some job) jobs = job ∷ jobs

-- The queues that are reached, with the jobs that are admitted and not settled, in any order.
pub data Reaches (b : NoticeBounds)
    : ActivationNoticeQueue → List ActivationNoticeJob → Type 0 where
  fresh : Reaches b new_queue []
  admitted :
      {q : ActivationNoticeQueue} {jobs : List ActivationNoticeJob}
      (request : ActivationNoticeRequest) (now : ℕ)
      → Reaches b q jobs
      → Reaches b (admit b q request now).0 (with_job (admit b q request now).1 jobs)
  settled :
      {q : ActivationNoticeQueue} (before : List ActivationNoticeJob) (job : ActivationNoticeJob)
      (after : List ActivationNoticeJob)
      → Reaches b q (before ++ job ∷ after)
      → Reaches b (settle job q) (before ++ after)
  stopped :
      {q : ActivationNoticeQueue} {jobs : List ActivationNoticeJob}
      → Reaches b q jobs
      → Reaches b (shutdown q) jobs

-- The raw MIME that the jobs hold.
abbrev pub total_mime : List ActivationNoticeJob → ℕ
total_mime [] = 0
total_mime (job ∷ jobs) = mime_bytes job + total_mime jobs

total_mime-append :
    (xs ys : List ActivationNoticeJob) → total_mime (xs ++ ys) ≡ total_mime xs + total_mime ys
total_mime-append [] ys = omega arith
total_mime-append (x ∷ xs) ys = omega (arith, total_mime-append xs ys)

-- A job holds MIME only for a From domain.
abbrev pub is_warranted : ActivationNoticeJob → Bool
is_warranted job = not (is_some job.mime) || is_truthy job.header_from_domain

-- The counters are those of the jobs, and within the bounds.
pub record IsBounded (b : NoticeBounds) (q : ActivationNoticeQueue)
    (jobs : List ActivationNoticeJob) : Type 0 where
  pub jobs_lem : q.admitted_jobs ≡ length jobs
  pub mime_lem : q.held_mime ≡ total_mime jobs
  pub jobs-le : length jobs ≤ b.max_admitted_jobs
  pub mime-le : total_mime jobs ≤ b.max_held_mime_bytes
  pub warranted : all is_warranted jobs ≡ true

fits :
    (b : NoticeBounds) (held : ℕ) (request : ActivationNoticeRequest)
    → held ≤ b.max_held_mime_bytes
    → held + or_else (mime_of b held request) 0 ≤ b.max_held_mime_bytes
fits b held request le = ground (arith, le)

admit-IsBounded :
    {b : NoticeBounds} {q : ActivationNoticeQueue} {jobs : List ActivationNoticeJob}
    (request : ActivationNoticeRequest) (now : ℕ)
    → IsBounded b q jobs
    → IsBounded b (admit b q request now).0 (with_job (admit b q request now).1 jobs)
unfolding admit
admit-IsBounded {b} {q} {jobs} request now w =
    if-split
      (λ (r : ActivationNoticeQueue × Option ActivationNoticeJob).
        IsBounded b r.0 (with_job r.1 jobs))
      (q.closed || leb b.max_admitted_jobs q.admitted_jobs) (λ refused. w)
      (λ room. record {
        jobs_lem = omega (arith, w.jobs_lem);
        mime_lem = omega (arith, w.mime_lem);
        jobs-le = ground (arith, room, w.jobs_lem);
        mime-le =
            omega (
              arith,
              w.mime_lem,
              fits b q.held_mime request (omega (arith, w.mime_lem, w.mime-le)),
            );
        warranted = ground (arith, w.warranted);
      })

all-split {ℓ} :
    {A : Type ℓ} (p : A → Bool) (xs : List A) (y : A) (ys : List A)
    → all p (xs ++ y ∷ ys) ≡ true
    → all p (xs ++ ys) ≡ true
all-split p [] y ys h = ground (arith, h)
all-split p (x ∷ xs) y ys h = ground (arith, all-split p xs y ys, h)

settle-IsBounded :
    {b : NoticeBounds} {q : ActivationNoticeQueue} (before : List ActivationNoticeJob)
    (job : ActivationNoticeJob) (after : List ActivationNoticeJob)
    → IsBounded b q (before ++ job ∷ after)
    → IsBounded b (settle job q) (before ++ after)
unfolding settle
settle-IsBounded before job after w =
    let fewer : length (before ++ job ∷ after) ≡ suc (length (before ++ after)) =
      omega (arith, length-append before (job ∷ after), length-append before after) in
    let less : total_mime (before ++ job ∷ after) ≡ mime_bytes job + total_mime (before ++ after) =
      omega (arith, total_mime-append before (job ∷ after), total_mime-append before after) in
    record {
      jobs_lem = omega (arith, w.jobs_lem, fewer);
      mime_lem = omega (arith, w.mime_lem, less);
      jobs-le = omega (arith, w.jobs-le, fewer);
      mime-le = omega (arith, w.mime-le, less);
      warranted = all-split is_warranted before job after w.warranted;
    }

-- Whatever is admitted, settles in whatever order and is shut down: the queue's counters are those
-- of the jobs that have not settled, there are at most `max_admitted_jobs` of them, they hold at most
-- `max_held_mime_bytes`, and one that holds MIME has a From domain to authenticate.
pub reached-IsBounded :
    {b : NoticeBounds} {q : ActivationNoticeQueue} {jobs : List ActivationNoticeJob}
    → Reaches b q jobs
    → IsBounded b q jobs
unfolding shutdown
reached-IsBounded Reaches.fresh = record {
  jobs_lem = refl;
  mime_lem = refl;
  jobs-le = omega arith;
  mime-le = omega arith;
  warranted = refl;
}
reached-IsBounded (Reaches.admitted request now r) =
    admit-IsBounded request now (reached-IsBounded r)
reached-IsBounded (Reaches.settled before job after r) =
    settle-IsBounded before job after (reached-IsBounded r)
reached-IsBounded (Reaches.stopped r) =
    let w = reached-IsBounded r in
    record {
      jobs_lem = w.jobs_lem;
      mime_lem = w.mime_lem;
      jobs-le = w.jobs-le;
      mime-le = w.mime-le;
      warranted = w.warranted;
    }
