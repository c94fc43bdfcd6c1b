-- ===== src/Workflow/Pump/Kept.antt =====
-- No job gets lost in a pass of packages/core/src/workflow/pump.ts.
use jawstack.Base.{
  or-cases, or-left, or-right, and-intro, ℕ, Bool, true, false, not, ◌&&◌, Option, none, some, List,
  [], ◌∷◌, Text, any, ◌≡◌, arith, inl, inr, Option-cases, if-both, ◌⊎◌,
}
use jawstack.Workflow.Pump.{
  Job, is_pending, Tally, no_tally, Turn, Turned, Swept, Reply, answered, thrown, is_deferred, keep,
  sweep, attempt_job, collect_job,
}
use jawstack.Workflow.Pump.Admission.{
  Ports, Pump, Admitted, admit_all, set_job, set_jobs, is_job, boundary_ok,
}
use jawstack.Workflow.Pump.Admits.{admit_all-keeps}
use jawstack.Workflow.Pump.Drains.{
  Around, Passed, pass, after_admission, after_attempts, after_collecting, attempt_loop,
  collect_loop,
}
use jawstack.Workflow.Pump.Sweeps.{sweep-keeps}

-- An answer that settles a job.
abbrev pub is_settling : Reply → Bool
is_settling (answered status) = not (is_deferred status)
is_settling thrown = false

module _ (consumer event_id : Text) where
  abbrev pub has_job : List Job → Bool
  has_job jobs = any (is_job consumer event_id) jobs

  abbrev pub has_settled : (Job → Bool) → (Job → Turn) → List Job → Bool
  has_settled takes turns jobs =
      any (λ job. is_job consumer event_id job && takes job && is_settling (turns job).reply) jobs

  set_job-has :
      (job : Job) (jobs : List Job) → has_job jobs ≡ true → has_job (set_job job jobs) ≡ true
  set_job-has job [] h = cc
  set_job-has job (old ∷ jobs) h =
      if-both (λ s. has_job s ≡ true) (is_job job.consumer job.event.event_id old) _ _
        (λ same. elim (or-cases (is_job consumer event_id old) (has_job jobs) h) [
          | inl here ↦
              or-left (is_job consumer event_id job) (has_job jobs) (ground (arith, same, here))
          | inr there ↦ or-right (is_job consumer event_id job) (has_job jobs) there
        ])
        (λ _. elim (or-cases (is_job consumer event_id old) (has_job jobs) h) [
          | inl here ↦ or-left (is_job consumer event_id old) (has_job (set_job job jobs)) here
          | inr there ↦
              or-right (is_job consumer event_id old) (has_job (set_job job jobs))
                (set_job-has job jobs there)
        ])

  set_jobs-has :
      (needed jobs : List Job) → has_job jobs ≡ true → has_job (set_jobs needed jobs) ≡ true
  set_jobs-has [] jobs h = h
  set_jobs-has (job ∷ needed) jobs h =
      set_jobs-has needed (set_job job jobs) (set_job-has job jobs h)

  -- A turn keeps its job or settles it.
  abbrev stays : Turn → Turned → Bool
  stays turn turned = elim turned.kept [
    | none ↦ is_settling turn.reply
    | some job ↦ is_job consumer event_id job
  ]

  attempt_job-stays :
      (turn : Turn) (job : Job) (tally : Tally)
      → is_job consumer event_id job ≡ true
      → stays turn (attempt_job turn job tally) ≡ true
  unfolding attempt_job
  attempt_job-stays turn job tally h = ground (arith, h)

  collect_job-stays :
      (turn : Turn) (job : Job) (tally : Tally)
      → is_job consumer event_id job ≡ true
      → stays turn (collect_job turn job tally) ≡ true
  unfolding collect_job
  collect_job-stays turn job tally h = ground (arith, h)

  module _ (limit : ℕ) (takes : Job → Bool) (turns : Job → Turn)
      (body : Turn → Job → Tally → Turned)
      (body-stays : (turn : Turn) (job : Job) (tally : Tally)
        → is_job consumer event_id job ≡ true
        → stays turn (body turn job tally) ≡ true) where
    abbrev Held : List Job → List Job → Type 0
    Held jobs after =
        has_job jobs ≡ true → (has_job after ≡ true) ⊎ (has_settled takes turns jobs ≡ true)

    -- What holds of the rest holds with the job in front.
    later-Held :
        (job : Job) (kept : Option Job) (rest after : List Job)
        → (has_job after ≡ true) ⊎ (has_settled takes turns rest ≡ true)
        → (has_job (keep kept after) ≡ true) ⊎ (has_settled takes turns (job ∷ rest) ≡ true)
    later-Held job none rest after (inl there) = inl there
    later-Held job (some k) rest after (inl there) =
        inl (or-right (is_job consumer event_id k) (has_job after) there)
    later-Held job kept rest after (inr settled) =
        inr (or-right _ (has_settled takes turns rest) settled)

    here-Held :
        (job : Job) (kept : Option Job) (rest after : List Job)
        → takes job ≡ true
        → is_job consumer event_id job ≡ true
        → elim kept [ none ↦ is_settling (turns job).reply | some k ↦ is_job consumer event_id k ]
          ≡ true
        → (has_job (keep kept after) ≡ true) ⊎ (has_settled takes turns (job ∷ rest) ≡ true)
    here-Held job none rest after taken here done = inr (
        or-left _ (has_settled takes turns rest) (
          and-intro (is_job consumer event_id job && takes job) _
            (and-intro (is_job consumer event_id job) (takes job) here taken) done))
    here-Held job (some k) rest after taken here same =
        inl (or-left (is_job consumer event_id k) (has_job after) same)

    turned-Held :
        (job : Job) (tally : Tally) (rest after : List Job)
        → takes job ≡ true
        → Held rest after
        → Held (job ∷ rest) (keep (body (turns job) job tally).kept after)
    turned-Held job tally rest after taken held h =
        elim (or-cases (is_job consumer event_id job) (has_job rest) h) [
          | inl here ↦
              here-Held job (body (turns job) job tally).kept rest after taken here
                (body-stays (turns job) job tally here)
          | inr there ↦ later-Held job (body (turns job) job tally).kept rest after (held there)
        ]

    sweep-Held :
        (jobs : List Job) (work : ℕ) (tally : Tally)
        → Held jobs (sweep limit takes turns body jobs work tally).jobs
    sweep-Held =
        sweep-keeps limit takes turns body Held (λ jobs h. inl h)
          (λ job rest after held h.
            elim (or-cases (is_job consumer event_id job) (has_job rest) h) [
              | inl here ↦ inl (or-left (is_job consumer event_id job) (has_job after) here)
              | inr there ↦ later-Held job (some job) rest after (held there)
            ])
          turned-Held

  module _ (ports : Ports) (limit : ℕ) (around : Around) where
    -- Where the job of the consumer and the event is after the admission `a` of a pass.
    abbrev pub Accounted : Admitted → List Job → Type 0
    Accounted a after =
        (has_job after ≡ true)
        ⊎ ((has_settled is_pending around.attempts a.pump.jobs ≡ true)
            ⊎ (has_settled (λ job. not (is_pending job)) around.collections
                  (attempt_loop ports limit around a).jobs
                ≡ true))

    collecting-has :
        (a : Admitted) (s : Swept)
        → has_job s.jobs ≡ true
        → has_job (after_collecting ports limit around a s).pump.jobs ≡ true
    collecting-has a s h = elim (Option-cases s.stop) [
      | inl goes ↦ rw goes h
      | inr (stop, ended) ↦ rw ended h
    ]

    collecting-Held :
        (a : Admitted) (s : Swept)
        → (has_job (collect_loop ports limit around s).jobs ≡ true)
          ⊎ (has_settled (λ job. not (is_pending job)) around.collections s.jobs ≡ true)
        → (has_job
              (after_collecting ports limit around a (collect_loop ports limit around s)).pump.jobs
            ≡ true)
          ⊎ (has_settled (λ job. not (is_pending job)) around.collections s.jobs ≡ true)
    collecting-Held a s (inl there) =
        inl (collecting-has a (collect_loop ports limit around s) there)
    collecting-Held a s (inr settled) = inr settled

    attempted-Held :
        (a : Admitted) (s : Swept)
        → has_job s.jobs ≡ true
        → (has_job (after_attempts ports limit around a s).pump.jobs ≡ true)
          ⊎ (has_settled (λ job. not (is_pending job)) around.collections s.jobs ≡ true)
    attempted-Held a s h = elim (Option-cases s.stop) [
      | inl goes ↦ rw goes (
          collecting-Held a s (
            sweep-Held limit (λ job. not (is_pending job)) around.collections collect_job
              collect_job-stays s.jobs s.work s.tally h))
      | inr (stop, ended) ↦ rw ended (inl h)
    ]

    attempts-Accounted :
        (a : Admitted)
        → (has_job (attempt_loop ports limit around a).jobs ≡ true)
          ⊎ (has_settled is_pending around.attempts a.pump.jobs ≡ true)
        → Accounted a
            (after_attempts ports limit around a (attempt_loop ports limit around a)).pump.jobs
    attempts-Accounted a (inr settled) = inr (inl settled)
    attempts-Accounted a (inl there) =
        elim (attempted-Held a (attempt_loop ports limit around a) there) [
          | inl kept ↦ inl kept
          | inr settled ↦ inr (inr settled)
        ]

    admitted-Accounted :
        (a : Admitted)
        → has_job a.pump.jobs ≡ true
        → Accounted a (after_admission ports limit around a).pump.jobs
    admitted-Accounted a h = elim (Option-cases a.stop) [
      | inl goes ↦ rw goes (
          attempts-Accounted a (
            sweep-Held limit is_pending around.attempts attempt_job attempt_job-stays a.pump.jobs 0
              a.tally h))
      | inr (stop, ended) ↦ rw ended (inl h)
    ]

    -- Only an answer settles a job: if there is a job of a consumer for an event, then after a pass,
    -- however it ends, there is one still, unless the handler answers a pending one of its jobs in that
    -- pass, or the collection a failed one, with anything but "deferred".
    pub pass_loses_no_job :
        (pump : Pump)
        → has_job pump.jobs ≡ true
        → Accounted
            (admit_all ports limit around.views pump no_tally)
            (pass ports limit around pump).pump.jobs
    unfolding pass
    pass_loses_no_job pump h =
        let R = λ (p : Passed).
          Accounted (admit_all ports limit around.views pump no_tally) p.pump.jobs in
        if-both R around.is_aborted _ _ (λ _. inl h)
          λ _.
            if-both R (boundary_ok ports pump around.first_rows) _ _
              (λ _. admitted-Accounted (admit_all ports limit around.views pump no_tally) (
                admit_all-keeps ports (λ jobs. has_job jobs ≡ true)
                  (λ needed jobs _ _ held. set_jobs-has needed jobs held) limit around.views pump
                  no_tally h))
              (λ _. inl h)
