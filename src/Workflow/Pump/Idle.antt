-- ===== src/Workflow/Pump/Idle.antt =====
-- What packages/core/src/workflow/pump.ts means by idle.
use jawstack.Base.{
  ℕ, zero, suc, ◌+◌, ◌-◌, Bool, true, false, not, ◌&&◌, ◌||◌, List, [], ◌∷◌, ◌==◌, ==-refl, leb,
  length, ◌≡◌, ◌≤◌, refl, ap, arith, sym, inl, inr, Option-cases, Bool-cases, if-both, and-intro,
  ◌∙◌,
}
use jawstack.Workflow.Pump.{Job, is_pending, no_tally, Swept}
use jawstack.Workflow.Pump.Admission.{Ports, Pump, Admitted, admit_all, boundary_ok}
use jawstack.Workflow.Pump.Drains.{
  Around, Passed, pass, drain, after_admission, after_attempts, after_collecting, attempt_loop,
  collect_loop, drain_passes, drain_until_idle, after_pass, Emptied, Drained, DrainResult, drained,
  drain_stopped, Answer, finished, stopped, count_pending, emptied, is_idle_at,
}

-- A pass reports the jobs that it leaves.
abbrev reports : Passed → Bool
reports p = elim p.answer [
  | stopped stop ↦ true
  | finished r ↦
      r.pending == count_pending p.pump.jobs
      && r.terminal == length p.pump.jobs - count_pending p.pump.jobs
]

-- An idle drain has admitted all and has no jobs left.
abbrev idle_ok : (ℕ → Around) → Emptied → Bool
idle_ok arounds e = elim e.answer [
  | drain_stopped stop ↦ true
  | drained d ↦
      not d.is_idle
      || (length e.pump.jobs == 0 && leb (length (arounds d.passes).idle_rows) e.pump.cursor)
]

pending-length : (jobs : List Job) → count_pending jobs ≤ length jobs
pending-length [] = omega arith
pending-length (job ∷ jobs) =
    let rest = pending-length jobs in
    if-both (λ n. n ≤ length (job ∷ jobs)) (is_pending job) _ _ (λ _. omega arith)
      (λ _. omega arith)

module _ (ports : Ports) (limit : ℕ) where
  module _ (around : Around) where
    collecting-reports :
        (a : Admitted) (s : Swept) → reports (after_collecting ports limit around a s) ≡ true
    collecting-reports a s = elim (Option-cases s.stop) [
      | inl goes ↦ rw goes (
          and-intro (count_pending s.jobs == count_pending s.jobs) _
            (==-refl (count_pending s.jobs)) (==-refl (length s.jobs - count_pending s.jobs)))
      | inr (stop, ended) ↦ rw ended refl
    ]

    attempted-reports :
        (a : Admitted) (s : Swept) → reports (after_attempts ports limit around a s) ≡ true
    attempted-reports a s = elim (Option-cases s.stop) [
      | inl goes ↦ rw goes (collecting-reports a (collect_loop ports limit around s))
      | inr (stop, ended) ↦ rw ended refl
    ]

    admitted-reports : (a : Admitted) → reports (after_admission ports limit around a) ≡ true
    admitted-reports a = elim (Option-cases a.stop) [
      | inl goes ↦ rw goes (attempted-reports a (attempt_loop ports limit around a))
      | inr (stop, ended) ↦ rw ended refl
    ]

    pass-reports : (pump : Pump) → reports (pass ports limit around pump) ≡ true
    unfolding pass
    pass-reports pump =
        let R = λ (p : Passed). reports p ≡ true in
        if-both R around.is_aborted _ _ (λ _. refl)
          λ _.
            if-both R (boundary_ok ports pump around.first_rows) _ _
              (λ _. admitted-reports (admit_all ports limit around.views pump no_tally)) (λ _. refl)

    drain-reports : (pump : Pump) → reports (drain ports limit around pump) ≡ true
    drain-reports pump =
        if-both (λ (p : Passed). reports p ≡ true) (leb 1 limit && leb limit 100) _ _
          (λ _. pass-reports pump) (λ _. refl)

  module _ (arounds : ℕ → Around) where
    emptied-ok :
        (done : ℕ) (result : DrainResult) (pump : Pump)
        → reports (record { answer = finished result; pump = pump }) ≡ true
        → idle_ok arounds
            (emptied done (is_idle_at result pump (arounds done).idle_rows) false result pump)
          ≡ true
    emptied-ok done result pump h =
        let shorter = pending-length pump.jobs in
        elim (Bool-cases (is_idle_at result pump (arounds done).idle_rows)) [
          | inl idle ↦ rw idle (ground (arith, h, idle, shorter))
          | inr busy ↦ rw busy refl
        ]

    after_pass-ok :
        (done : ℕ) (next : DrainResult → Pump → Emptied) (answer : Answer) (pump : Pump)
        → reports (record { answer = answer; pump = pump }) ≡ true
        → ((result : DrainResult) → idle_ok arounds (next result pump) ≡ true)
        → idle_ok arounds (
            after_pass ports limit
              (arounds done)
              next
              done
              (record { answer = answer; pump = pump }))
          ≡ true
    after_pass-ok done next (stopped stop) pump h later = refl
    after_pass-ok done next (finished result) pump h later =
        if-both (λ (e : Emptied). idle_ok arounds e ≡ true)
          (is_idle_at result pump (arounds done).idle_rows
            || not result.has_more
            || result.backpressured)
          _ _ (λ _. emptied-ok done result pump h) (λ _. later result)

    drain_passes-ok :
        (left done : ℕ) (pump : Pump)
        → idle_ok arounds (drain_passes ports limit left done arounds pump) ≡ true
    unfolding drain_passes
    drain_passes-ok zero done pump =
        let p = drain ports limit (arounds done) pump in
        after_pass-ok done (emptied done false true) p.answer p.pump
          (drain-reports (arounds done) pump) (λ result. refl)
    drain_passes-ok (suc left) done pump =
        let p = drain ports limit (arounds done) pump in
        after_pass-ok done (λ result after. drain_passes ports limit left (done + 1) arounds after)
          p.answer p.pump (drain-reports (arounds done) pump)
          (λ result. drain_passes-ok left (done + 1) p.pump)

    drain-ok :
        (maximum : ℕ) (pump : Pump)
        → idle_ok arounds (drain_until_idle ports limit maximum arounds pump) ≡ true
    unfolding drain_until_idle
    drain-ok maximum pump =
        if-both (λ (e : Emptied). idle_ok arounds e ≡ true) (leb 1 maximum && leb maximum 100) _ _
          (λ _. drain_passes-ok (maximum - 1) 1 pump) (λ _. refl)

    -- Where `drainUntilIdle` answers that the pump is idle, no job is left, and everything that was in the
    -- outbox when it looked after its last pass has been admitted.
    pub idle_means_done :
        (maximum : ℕ) (pump : Pump) (d : Drained)
        → (drain_until_idle ports limit maximum arounds pump).answer ≡ drained d
        → d.is_idle ≡ true
        → (length (drain_until_idle ports limit maximum arounds pump).pump.jobs ≡ 0)
          × (length (arounds d.passes).idle_rows
              ≤ (drain_until_idle ports limit maximum arounds pump).pump.cursor)
    idle_means_done maximum pump d answered idle =
        let e = drain_until_idle ports limit maximum arounds pump in
        let ok_at =
          ap (λ a. idle_ok arounds (record { answer = a; pump = e.pump })) (sym answered)
          ∙ drain-ok maximum pump in
        (ground (arith, ok_at, idle), ground (arith, ok_at, idle))
