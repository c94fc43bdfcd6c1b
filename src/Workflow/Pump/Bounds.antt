-- ===== src/Workflow/Pump/Bounds.antt =====
-- The capacity of the pump of packages/core/src/workflow/pump.ts, and the attempts of its jobs.
use jawstack.Base.{
  ℕ, ◌+◌, Bool, true, not, ◌&&◌, Option, none, some, List, [], ◌∷◌, ◌==◌, ltb, leb, length, all,
  when_some, if◌then◌else◌, ◌≡◌, ◌≤◌, refl, arith, and-left, and-right, and-intro, if-both,
}
use jawstack.Workflow.Pump.{
  Job, is_pending, Tally, Turn, Turned, sweep, keep, attempt_job, collect_job,
}
use jawstack.Workflow.Pump.Admission.{Ports, Pump, set_job, set_jobs, is_job}
use jawstack.Workflow.Pump.Admits.{is_fresh}
use jawstack.Workflow.Pump.Drains.{Around, drain_until_idle}
use jawstack.Workflow.Pump.Passes.{drain_until_idle-keeps}
use jawstack.Workflow.Pump.Sweeps.{sweep-keeps}

-- A pending job has attempts left, a failed one has had its three.
abbrev pub job_ok : Job → Bool
job_ok job = if is_pending job then ltb job.attempts 3 else job.attempts == 3

abbrev pub jobs_ok : ℕ → List Job → Bool
jobs_ok maximum jobs = leb (length jobs) maximum && all job_ok jobs

-- Admission.
length-set_job : (job : Job) (jobs : List Job) → length (set_job job jobs) ≤ length jobs + 1
length-set_job job [] = omega arith
length-set_job job (old ∷ jobs) =
    let rest = length-set_job job jobs in
    if-both (λ s. length s ≤ length (old ∷ jobs) + 1) (is_job job.consumer job.event.event_id old) _
      _ (λ _. omega arith) (λ _. omega arith)

length-set_jobs :
    (needed jobs : List Job) → length (set_jobs needed jobs) ≤ length jobs + length needed
length-set_jobs [] jobs = omega arith
length-set_jobs (job ∷ needed) jobs =
    let first = length-set_job job jobs in
    let rest = length-set_jobs needed (set_job job jobs) in omega arith

set_job-ok :
    (job : Job) (jobs : List Job)
    → job_ok job ≡ true
    → all job_ok jobs ≡ true
    → all job_ok (set_job job jobs) ≡ true
set_job-ok job [] h k = and-intro (job_ok job) true h refl
set_job-ok job (old ∷ jobs) h k =
    let rest = and-right (job_ok old) (all job_ok jobs) k in
    if-both (λ s. all job_ok s ≡ true) (is_job job.consumer job.event.event_id old) _ _
      (λ _. and-intro (job_ok job) (all job_ok jobs) h rest)
      (λ _.
        and-intro (job_ok old) (all job_ok (set_job job jobs))
          (and-left (job_ok old) (all job_ok jobs) k) (set_job-ok job jobs h rest))

fresh-ok : (job : Job) → is_fresh job ≡ true → job_ok job ≡ true
fresh-ok job h = ground (arith, h)

set_jobs-ok :
    (needed jobs : List Job)
    → all is_fresh needed ≡ true
    → all job_ok jobs ≡ true
    → all job_ok (set_jobs needed jobs) ≡ true
set_jobs-ok [] jobs fresh k = k
set_jobs-ok (job ∷ needed) jobs fresh k =
    set_jobs-ok needed (set_job job jobs) (and-right (is_fresh job) (all is_fresh needed) fresh)
      (set_job-ok job jobs (fresh-ok job (and-left (is_fresh job) (all is_fresh needed) fresh)) k)

-- The turns of the loops.
attempt_job-ok :
    (turn : Turn) (job : Job) (tally : Tally)
    → is_pending job ≡ true
    → job_ok job ≡ true
    → when_some (attempt_job turn job tally).kept job_ok ≡ true
unfolding attempt_job
attempt_job-ok turn job tally taken h = ground (arith, taken, h)

collect_job-ok :
    (turn : Turn) (job : Job) (tally : Tally)
    → not (is_pending job) ≡ true
    → job_ok job ≡ true
    → when_some (collect_job turn job tally).kept job_ok ≡ true
unfolding collect_job
collect_job-ok turn job tally taken h = ground (arith, taken, h)

-- The loops.
abbrev Shrinks : List Job → List Job → Type 0
Shrinks jobs after =
    (length after ≤ length jobs) × (all job_ok jobs ≡ true → all job_ok after ≡ true)

keep-ok :
    (kept : Option Job) (after : List Job)
    → when_some kept job_ok ≡ true
    → all job_ok after ≡ true
    → all job_ok (keep kept after) ≡ true
keep-ok none after h k = k
keep-ok (some job) after h k = and-intro (job_ok job) (all job_ok after) h k

length-keep : (kept : Option Job) (after : List Job) → length (keep kept after) ≤ length after + 1
length-keep none after = omega arith
length-keep (some job) after = omega arith

module _ (limit : ℕ) (takes : Job → Bool) (turns : Job → Turn) (body : Turn → Job → Tally → Turned)
    (ok_after : (turn : Turn) (job : Job) (tally : Tally)
      → takes job ≡ true
      → job_ok job ≡ true
      → when_some (body turn job tally).kept job_ok ≡ true) where
  sweep-Shrinks :
      (jobs : List Job) (work : ℕ) (tally : Tally)
      → Shrinks jobs (sweep limit takes turns body jobs work tally).jobs
  sweep-Shrinks =
      sweep-keeps limit takes turns body Shrinks (λ jobs. (omega arith, λ h. h))
        (λ job rest after (shorter, oks). (
          omega arith,
          λ h.
              and-intro (job_ok job) (all job_ok after) (and-left (job_ok job) (all job_ok rest) h)
                (oks (and-right (job_ok job) (all job_ok rest) h)),
        ))
        (λ job tally rest after taken (shorter, oks).
          let kept = (body (turns job) job tally).kept in
          let one = length-keep kept after in
          (
            omega arith,
            λ h.
                keep-ok kept after
                  (ok_after (turns job) job tally taken (and-left (job_ok job) (all job_ok rest) h))
                  (oks (and-right (job_ok job) (all job_ok rest) h)),
          ))

  sweep-jobs_ok :
      (maximum : ℕ) (jobs : List Job) (work : ℕ) (tally : Tally)
      → jobs_ok maximum jobs ≡ true
      → jobs_ok maximum (sweep limit takes turns body jobs work tally).jobs ≡ true
  sweep-jobs_ok maximum jobs work tally h =
      let (shorter, oks) = sweep-Shrinks jobs work tally in
      let short = and-left (leb (length jobs) maximum) (all job_ok jobs) h in
      and-intro (leb (length (sweep limit takes turns body jobs work tally).jobs) maximum) _
        (ground (arith, short, shorter))
        (oks (and-right (leb (length jobs) maximum) (all job_ok jobs) h))

-- If a pump has no more jobs than its capacity, each pending one with fewer than three attempts and each
-- failed one with three, it is so after `drainUntilIdle` too, however many passes that makes, whatever the
-- outbox, the ports, the handlers and the signal do, and also where it throws.
pub drain_keeps_bounds :
    (ports : Ports) (limit maximum : ℕ) (arounds : ℕ → Around) (pump : Pump)
    → jobs_ok ports.max_jobs pump.jobs ≡ true
    → jobs_ok ports.max_jobs (drain_until_idle ports limit maximum arounds pump).pump.jobs ≡ true
drain_keeps_bounds ports limit maximum arounds pump =
    drain_until_idle-keeps ports limit (λ jobs. jobs_ok ports.max_jobs jobs ≡ true)
      (λ needed jobs fresh room h.
        let longer = length-set_jobs needed jobs in
        and-intro (leb (length (set_jobs needed jobs)) ports.max_jobs) _
          (ground (arith, longer, room))
          (set_jobs-ok needed jobs fresh
            (and-right (leb (length jobs) ports.max_jobs) (all job_ok jobs) h)))
      arounds
      (λ i.
        sweep-jobs_ok limit is_pending (arounds i).attempts attempt_job attempt_job-ok
          ports.max_jobs)
      (λ i.
        sweep-jobs_ok limit (λ job. not (is_pending job)) (arounds i).collections collect_job
          collect_job-ok ports.max_jobs)
      maximum pump
