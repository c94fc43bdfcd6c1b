-- ===== src/Workflow/Pump/Admits.antt =====
-- What the admission of packages/core/src/workflow/pump.ts keeps of the jobs.
use jawstack.Base.{
  resource_invalid_state, ℕ, zero, suc, ◌+◌, Bool, true, false, not, ◌&&◌, Option, List, [], ◌∷◌,
  Text, ◌==◌, ltb, length, all, find, is_some, when_some, get_elem?, Result, ok, err, ◌≡◌, ◌≤◌,
  refl, arith, inl, inr, Bool-cases, Option-cases, require, ◌>>=◌, ◌>>◌, resource_conflict,
}
use jawstack.Workflow.Failures.{Envelope}
use jawstack.Workflow.Pump.{Stop, aborted, refused, Job, is_pending, Tally}
use jawstack.Workflow.Pump.Admission.{
  Admitted, after_step, count_admitted, add_needed, new_job, is_wanted, Ports, Pump, View, Step,
  exhausted, blocked, admits, stops, Needed, CheckState, needed_jobs, set_jobs, admit, admit_needed,
  admit_parsed, admit_all, is_job, boundary_ok,
}

-- A job that has just been admitted.
abbrev pub is_fresh : Job → Bool
is_fresh job = is_pending job && job.attempts == 0

abbrev fresh_in : Result Needed → Bool
fresh_in (err code) = true
fresh_in (ok n) = all is_fresh n.needed

module _ (ports : Ports) where
  add_needed-fresh :
      (passes : Bool) (checked : Result CheckState) (later : Result Needed) (is_known : Bool)
      (job : Job)
      → is_fresh job ≡ true
      → fresh_in later ≡ true
      → fresh_in (
          require passes resource_conflict
          >> (checked >>= λ state. later >>= λ rest. ok (add_needed ports is_known state job rest)))
        ≡ true
  add_needed-fresh false checked later is_known job fresh h = refl
  add_needed-fresh true (err code) later is_known job fresh h = refl
  add_needed-fresh true (ok state) (err code) is_known job fresh h = refl
  add_needed-fresh true (ok state) (ok rest) is_known job fresh h =
      elim (Bool-cases (not is_known && is_wanted state)) [
        | inl wanted ↦ ground (arith, wanted, fresh, h)
        | inr other ↦ ground (arith, other, h)
      ]

  needed_jobs-fresh :
      (jobs : List Job) (view : View) (event : Envelope) (names : List Text)
      → fresh_in (needed_jobs ports jobs view event names) ≡ true
  unfolding needed_jobs
  needed_jobs-fresh jobs view event [] = refl
  needed_jobs-fresh jobs view event (name ∷ names) =
      let old = find (is_job name event.event_id) jobs in
      add_needed-fresh (when_some old (λ job. job.fingerprint == ports.fingerprint event))
        (view.check name) (needed_jobs ports jobs view event names) (is_some old)
        (new_job name event (ports.fingerprint event) (view.checked_at name)) refl
        (needed_jobs-fresh jobs view event names)

  -- What a step of the admission does.
  data Admits (pump : Pump) : Step → Type 0 where
    is_exhausted : Admits pump exhausted
    is_blocked : Admits pump blocked
    halts : (stop : Stop) → Admits pump (stops stop)
    grows :
        (needed : List Job) (cursor : ℕ) (boundary : Option Text) (ignored : ℕ)
        → all is_fresh needed ≡ true
        → length pump.jobs + length needed ≤ ports.max_jobs
        → Admits pump (
            admits
              (record { jobs = set_jobs needed pump.jobs; cursor = cursor; boundary = boundary })
              ignored)

  admit_needed-Admits :
      (pump : Pump) (view : View) (raw : Envelope) (names : List Text) (n : Needed)
      → all is_fresh n.needed ≡ true
      → Admits pump (admit_needed ports pump view raw names n)
  admit_needed-Admits pump view raw names n fresh =
      elim (Bool-cases (ltb ports.max_jobs (length pump.jobs + length n.needed))) [
        | inl over ↦ rw over is_blocked
        | inr room ↦ elim (Bool-cases view.is_changed) [
          | inl changed ↦ rw room (rw changed (halts _))
          | inr same ↦ rw room (rw same (grows n.needed _ _ _ fresh (ground (arith, room))))
        ]
      ]

  needed-Admits :
      (pump : Pump) (view : View) (raw : Envelope) (names : List Text) (r : Result Needed)
      → fresh_in r ≡ true
      → Admits pump (elim r [
        | err code ↦ stops (refused code)
        | ok n ↦ admit_needed ports pump view raw names n
      ])
  needed-Admits pump view raw names (err code) h = halts (refused code)
  needed-Admits pump view raw names (ok n) h = admit_needed-Admits pump view raw names n h

  admit_parsed-Admits :
      (pump : Pump) (view : View) (raw : Envelope) (parsed : Result Envelope)
      → Admits pump (admit_parsed ports pump view raw parsed)
  admit_parsed-Admits pump view raw (err code) = halts (refused code)
  admit_parsed-Admits pump view raw (ok event) =
      needed-Admits pump view raw (ports.subscribers event.event_type) _
        (needed_jobs-fresh pump.jobs view event (ports.subscribers event.event_type))

  admit-Admits : (pump : Pump) (view : View) → Admits pump (admit ports pump view)
  unfolding admit
  admit-Admits pump view = elim (Option-cases (get_elem? view.rows pump.cursor)) [
    | inl nothing ↦ rw (nothing, admit) is_exhausted
    | inr (raw, found) ↦ elim (Bool-cases view.is_aborted) [
      | inl stop ↦ rw (found, admit) (rw stop (halts aborted))
      | inr goes ↦ elim (Bool-cases (boundary_ok ports pump view.rows)) [
        | inl good ↦
            rw (found, admit)
              (rw goes (rw good (admit_parsed-Admits pump view raw (ports.parse raw))))
        | inr bad ↦ rw (found, admit) (rw goes (rw bad (halts (refused resource_invalid_state))))
      ]
    ]
  ]

  -- What each addition of fresh jobs within the capacity keeps, the admission keeps.
  module _ (Q : List Job → Type 0)
      (grow : (needed jobs : List Job)
        → all is_fresh needed ≡ true
        → length jobs + length needed ≤ ports.max_jobs
        → Q jobs
        → Q (set_jobs needed jobs)) where
    after_step-keeps :
        (pump : Pump) (step : Step) (next : Pump → ℕ → Admitted) (tally : Tally)
        → Admits pump step
        → ((after : Pump) (n : ℕ) → Q after.jobs → Q (next after n).pump.jobs)
        → Q pump.jobs
        → Q (after_step ports pump tally next step).pump.jobs
    after_step-keeps pump step next tally is_exhausted later h = h
    after_step-keeps pump step next tally is_blocked later h = h
    after_step-keeps pump step next tally (halts stop) later h = h
    after_step-keeps pump step next tally (grows needed c b n fresh room) later h =
        later _ n (grow needed pump.jobs fresh room h)

    pub admit_all-keeps :
        (n : ℕ) (views : ℕ → View) (pump : Pump) (tally : Tally)
        → Q pump.jobs
        → Q (admit_all ports n views pump tally).pump.jobs
    unfolding admit_all
    admit_all-keeps zero views pump tally h = h
    admit_all-keeps (suc n) views pump tally h =
        after_step-keeps pump (admit ports pump (views 0))
          (λ after ignored.
            admit_all ports n (λ i. views (i + 1)) after (count_admitted tally ignored))
          tally (admit-Admits pump (views 0))
          (λ after ignored held. admit_all-keeps n (λ i. views (i + 1)) after _ held) h
