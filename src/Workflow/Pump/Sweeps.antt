-- ===== src/Workflow/Pump/Sweeps.antt =====
-- What the loops over the jobs of packages/core/src/workflow/pump.ts keep.
use jawstack.Base.{
  and-left, if-both, ℕ, ◌+◌, Bool, true, ◌&&◌, List, [], ◌∷◌, leb, length, ◌≡◌, inl, inr,
  Option-cases,
}
use jawstack.Workflow.Pump.{Job, Tally, Turn, Turned, Swept, sweep, after_turn, keep}

abbrev keeps_most : List Job → Swept → Bool
keeps_most jobs s = leb (length s.jobs) (length jobs)

module _ (limit : ℕ) (takes : Job → Bool) (turns : Job → Turn)
    (body : Turn → Job → Tally → Turned) where
  -- A property of the result of a loop, from its cases at a job: the pass ends before the job, the job is
  -- left for later, it has its turn and the loop goes on, or its turn ends the pass.
  module _ (P : List Job → List Job → Type 0) (same : (jobs : List Job) → P jobs jobs)
      (skips : (job : Job) (rest after : List Job) → P rest after → P (job ∷ rest) (job ∷ after))
      (turned : (job : Job) (tally : Tally) (rest after : List Job)
        → takes job ≡ true
        → P rest after
        → P (job ∷ rest) (keep (body (turns job) job tally).kept after)) where
    turn-keeps :
        (job : Job) (tally : Tally) (rest : List Job) (work : ℕ) (next : Tally → Swept)
        → takes job ≡ true
        → ((t : Tally) → P rest (next t).jobs)
        → P
            (job ∷ rest)
            (after_turn limit takes turns body next rest work (body (turns job) job tally)).jobs
    turn-keeps job tally rest work next taken later =
        elim (Option-cases (body (turns job) job tally).stop) [
          | inl goes ↦
              rw goes (turned job tally rest _ taken (later (body (turns job) job tally).tally))
          | inr (stop, ended) ↦ rw ended (turned job tally rest rest taken (same rest))
        ]

    pub sweep-keeps :
        (jobs : List Job) (work : ℕ) (tally : Tally)
        → P jobs (sweep limit takes turns body jobs work tally).jobs
    unfolding sweep
    sweep-keeps [] work tally = same []
    sweep-keeps (job ∷ rest) work tally =
        let R = λ (s : Swept). P (job ∷ rest) s.jobs in
        if-both R (turns job).is_aborted _ _ (λ _. same (job ∷ rest))
          λ _.
            if-both R (leb limit work) _ _ (λ _. same (job ∷ rest))
              λ _.
                if-both R (takes job && leb job.due_at (turns job).now) _ _
                  (λ due.
                    turn-keeps job tally rest (work + 1)
                      (sweep limit takes turns body rest (work + 1))
                      (and-left (takes job) (leb job.due_at (turns job).now) due)
                      (λ t. sweep-keeps rest (work + 1) t))
                  (λ _. skips job rest _ (sweep-keeps rest work tally))
