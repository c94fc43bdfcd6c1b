-- ===== src/Workflow/Pump/Passes.antt =====
-- What a pass and a drain of packages/core/src/workflow/pump.ts keep, from what their loops keep.
use jawstack.Base.{
  ℕ, zero, suc, ◌+◌, ◌-◌, true, false, not, ◌&&◌, ◌||◌, List, leb, length, all, ◌≡◌, ◌≤◌, inl, inr,
  Option-cases, if-both,
}
use jawstack.Workflow.Pump.{
  Job, is_pending, Tally, no_tally, Swept, sweep, attempt_job, collect_job,
}
use jawstack.Workflow.Pump.Admission.{Ports, Pump, Admitted, admit_all, set_jobs, boundary_ok}
use jawstack.Workflow.Pump.Admits.{is_fresh, admit_all-keeps}
use jawstack.Workflow.Pump.Drains.{
  emptied, is_idle_at, Around, Passed, pass, drain, after_admission, after_attempts,
  after_collecting, attempt_loop, collect_loop, drain_passes, drain_until_idle, after_pass, Emptied,
  DrainResult, Answer, finished, stopped,
}

module _ (ports : Ports) (limit : ℕ) (Q : List Job → Type 0)
    (grow : (needed jobs : List Job)
      → all is_fresh needed ≡ true
      → length jobs + length needed ≤ ports.max_jobs
      → Q jobs
      → Q (set_jobs needed jobs)) where
  module _ (around : Around)
      (attempts : (jobs : List Job) (work : ℕ) (tally : Tally)
        → Q jobs
        → Q (sweep limit is_pending around.attempts attempt_job jobs work tally).jobs)
      (collects : (jobs : List Job) (work : ℕ) (tally : Tally)
        → Q jobs
        → Q
            (sweep limit
              (λ job. not (is_pending job))
              around.collections
              collect_job
              jobs
              work
              tally).jobs) where
    collecting-keeps :
        (a : Admitted) (s : Swept)
        → Q s.jobs
        → Q (after_collecting ports limit around a s).pump.jobs
    collecting-keeps a s h = elim (Option-cases s.stop) [
      | inl goes ↦ rw goes h
      | inr (stop, ended) ↦ rw ended h
    ]

    attempted-keeps :
        (a : Admitted) (s : Swept) → Q s.jobs → Q (after_attempts ports limit around a s).pump.jobs
    attempted-keeps a s h = elim (Option-cases s.stop) [
      | inl goes ↦ rw goes (
          collecting-keeps a (collect_loop ports limit around s) (collects s.jobs s.work s.tally h))
      | inr (stop, ended) ↦ rw ended h
    ]

    admitted-keeps :
        (a : Admitted) → Q a.pump.jobs → Q (after_admission ports limit around a).pump.jobs
    admitted-keeps a h = elim (Option-cases a.stop) [
      | inl goes ↦
          rw goes (
            attempted-keeps a (attempt_loop ports limit around a)
              (attempts a.pump.jobs 0 a.tally h))
      | inr (stop, ended) ↦ rw ended h
    ]

    pub pass-keeps : (pump : Pump) → Q pump.jobs → Q (pass ports limit around pump).pump.jobs
    unfolding pass
    pass-keeps pump h =
        let R = λ (p : Passed). Q p.pump.jobs in
        if-both R around.is_aborted _ _ (λ _. h)
          λ _.
            if-both R (boundary_ok ports pump around.first_rows) _ _
              (λ _.
                admitted-keeps (admit_all ports limit around.views pump no_tally)
                  (admit_all-keeps ports Q grow limit around.views pump no_tally h))
              (λ _. h)

    pub drain-keeps : (pump : Pump) → Q pump.jobs → Q (drain ports limit around pump).pump.jobs
    drain-keeps pump h =
        if-both (λ (p : Passed). Q p.pump.jobs) (leb 1 limit && leb limit 100) _ _
          (λ _. pass-keeps pump h) (λ _. h)

  -- Over all passes of a drain.
  module _ (arounds : ℕ → Around)
      (attempts : (i : ℕ) (jobs : List Job) (work : ℕ) (tally : Tally)
        → Q jobs
        → Q (sweep limit is_pending (arounds i).attempts attempt_job jobs work tally).jobs)
      (collects : (i : ℕ) (jobs : List Job) (work : ℕ) (tally : Tally)
        → Q jobs
        → Q
            (sweep limit
              (λ job. not (is_pending job))
              (arounds i).collections
              collect_job
              jobs
              work
              tally).jobs) where
    after_pass-keeps :
        (around : Around) (next : DrainResult → Pump → Emptied) (done : ℕ) (passed : Passed)
        → Q passed.pump.jobs
        → ((result : DrainResult) → Q (next result passed.pump).pump.jobs)
        → Q (after_pass ports limit around next done passed).pump.jobs
    after_pass-keeps around next done passed h later = by_answer passed.answer
      where
        by_answer :
            (answer : Answer)
            → Q
                (after_pass ports limit around next done
                  (record { answer = answer; pump = passed.pump })).pump.jobs
        by_answer (stopped stop) = h
        by_answer (finished result) =
            if-both (λ (e : Emptied). Q e.pump.jobs)
              (is_idle_at result passed.pump around.idle_rows
                || not result.has_more
                || result.backpressured)
              _ _ (λ _. h) (λ _. later result)

    drain_passes-keeps :
        (left done : ℕ) (pump : Pump)
        → Q pump.jobs
        → Q (drain_passes ports limit left done arounds pump).pump.jobs
    unfolding drain_passes
    drain_passes-keeps zero done pump h =
        let held = drain-keeps (arounds done) (attempts done) (collects done) pump h in
        after_pass-keeps (arounds done) (emptied done false true) done
          (drain ports limit (arounds done) pump) held (λ _. held)
    drain_passes-keeps (suc left) done pump h =
        let held = drain-keeps (arounds done) (attempts done) (collects done) pump h in
        after_pass-keeps (arounds done)
          (λ result after. drain_passes ports limit left (done + 1) arounds after) done
          (drain ports limit (arounds done) pump) held
          (λ _.
            drain_passes-keeps left (done + 1) (drain ports limit (arounds done) pump).pump held)

    pub drain_until_idle-keeps :
        (maximum : ℕ) (pump : Pump)
        → Q pump.jobs
        → Q (drain_until_idle ports limit maximum arounds pump).pump.jobs
    unfolding drain_until_idle
    drain_until_idle-keeps maximum pump h =
        if-both (λ (e : Emptied). Q e.pump.jobs) (leb 1 maximum && leb maximum 100) _ _
          (λ _. drain_passes-keeps (maximum - 1) 1 pump h) (λ _. h)
