-- ===== src/Workflow/Pump/Drains.antt =====
-- packages/core/src/workflow/pump.ts: `pass`, `drain` and `drainUntilIdle`. Passes follow one another: a pass
-- waits for the one before it, and a handler cannot start one.
use jawstack.Base.{
  ℕ, zero, suc, ◌+◌, ◌-◌, Bool, true, false, not, ◌&&◌, ◌||◌, Option, none, some, List, [], ◌∷◌,
  Instant, leb, ltb, ◌==◌, length, any, if◌then◌else◌, resource_invalid_state, command_rejected,
}
use jawstack.Workflow.Failures.{Envelope}
use jawstack.Workflow.Pump.{
  Job, is_pending, Tally, no_tally, Stop, aborted, refused, Turn, Swept, sweep, attempt_job,
  collect_job,
}
use jawstack.Workflow.Pump.Admission.{Ports, Pump, View, Admitted, boundary_ok, admit_all}

-- What happens around the steps of a pass. The outbox is looked at in each of them: at the start, around
-- each admission, at the end, and, in `drainUntilIdle`, once more after the pass.
pub record Around : Type 0 where
  pub is_aborted : Bool
  pub first_rows : List Envelope
  pub views : ℕ → View
  pub attempts : Job → Turn
  pub collections : Job → Turn
  pub last_rows : List Envelope
  pub ended_at : Instant
  pub idle_rows : List Envelope

-- WorkflowDrainResult
pub record DrainResult : Type 0 where
  pub tally : Tally
  pub pending : ℕ
  pub terminal : ℕ
  pub has_more : Bool
  pub backpressured : Bool
  pub next_attempt_at : Option Instant

pub data Answer : Type 0 where
  finished : (result : DrainResult) → Answer
  stopped : (stop : Stop) → Answer

pub record Passed : Type 0 where
  pub answer : Answer
  pub pump : Pump

abbrev pub count_pending : List Job → ℕ
count_pending [] = 0
count_pending (job ∷ jobs) = if is_pending job then count_pending jobs + 1 else count_pending jobs

abbrev sooner : Instant → Option Instant → Option Instant
sooner at none = some at
sooner at (some other) = some (if leb at other then at else other)

abbrev pub next_due : List Job → Option Instant
next_due [] = none
next_due (job ∷ jobs) = sooner job.due_at (next_due jobs)

abbrev pub drain_result : Around → Pump → Tally → Bool → DrainResult
drain_result around pump tally is_blocked =
    let pending = count_pending pump.jobs in
    record {
      tally = tally;
      pending = pending;
      terminal = length pump.jobs - pending;
      has_more =
          ltb pump.cursor (length around.last_rows)
          || any (λ job. leb job.due_at around.ended_at) pump.jobs;
      backpressured = is_blocked;
      next_attempt_at = next_due pump.jobs;
    }

abbrev ends_by : Stop → Pump → Passed
ends_by stop pump = record { answer = stopped stop; pump = pump }

abbrev pub with_jobs : Pump → List Job → Pump
with_jobs pump jobs = record pump { jobs = jobs }

-- drainUntilIdle
pub record Drained : Type 0 where
  pub passes : ℕ
  pub is_idle : Bool
  pub is_exhausted : Bool
  pub result : DrainResult

pub data DrainAnswer : Type 0 where
  drained : (answer : Drained) → DrainAnswer
  drain_stopped : (stop : Stop) → DrainAnswer

pub record Emptied : Type 0 where
  pub answer : DrainAnswer
  pub pump : Pump

abbrev pub is_idle_at : DrainResult → Pump → List Envelope → Bool
is_idle_at result pump rows =
    result.pending == 0 && result.terminal == 0 && leb (length rows) pump.cursor

abbrev pub emptied : ℕ → Bool → Bool → DrainResult → Pump → Emptied
emptied passes is_idle is_exhausted result pump = record {
  answer =
      drained (record {
        passes = passes;
        is_idle = is_idle;
        is_exhausted = is_exhausted;
        result = result;
      });
  pump = pump;
}

module _ (ports : Ports) (limit : ℕ) where
  module _ (around : Around) where
    abbrev pub attempt_loop : Admitted → Swept
    attempt_loop a = sweep limit is_pending around.attempts attempt_job a.pump.jobs 0 a.tally

    abbrev pub collect_loop : Swept → Swept
    collect_loop s =
        sweep limit (λ job. not (is_pending job)) around.collections collect_job s.jobs s.work
          s.tally

    abbrev pub after_collecting : Admitted → Swept → Passed
    after_collecting a s = elim s.stop [
      | some stop ↦ ends_by stop (with_jobs a.pump s.jobs)
      | none ↦
          let pump = with_jobs a.pump s.jobs in
          record { answer = finished (drain_result around pump s.tally a.is_blocked); pump = pump }
    ]

    abbrev pub after_attempts : Admitted → Swept → Passed
    after_attempts a s = elim s.stop [
      | some stop ↦ ends_by stop (with_jobs a.pump s.jobs)
      | none ↦ after_collecting a (collect_loop s)
    ]

    abbrev pub after_admission : Admitted → Passed
    after_admission a = elim a.stop [
      | some stop ↦ ends_by stop a.pump
      | none ↦ after_attempts a (attempt_loop a)
    ]

    unfoldable pub pass : Pump → Passed
    unfolding admit_all sweep
    pass pump =
        if around.is_aborted
        then ends_by aborted pump
        else if boundary_ok ports pump around.first_rows
        then after_admission (admit_all ports limit around.views pump no_tally)
        else ends_by (refused resource_invalid_state) pump

    -- `drain`, whose signal is the one that the pass gets.
    abbrev pub drain : Pump → Passed
    drain pump =
        if leb 1 limit && leb limit 100 then pass pump else ends_by (refused command_rejected) pump

  -- After a pass: the end, or `next`.
  abbrev pub after_pass : Around → (DrainResult → Pump → Emptied) → ℕ → Passed → Emptied
  after_pass around next done passed = elim passed.answer [
    | stopped stop ↦ record { answer = drain_stopped stop; pump = passed.pump }
    | finished result ↦
        let is_idle = is_idle_at result passed.pump around.idle_rows in
        if is_idle || not result.has_more || result.backpressured
        then emptied done is_idle false result passed.pump
        else next result passed.pump
  ]

  -- The loop, with the number of passes left after the next one, and that of the next one.
  unfoldable pub drain_passes : ℕ → ℕ → (ℕ → Around) → Pump → Emptied
  unfolding pass
  drain_passes zero done arounds pump =
      after_pass (arounds done) (emptied done false true) done (drain (arounds done) pump)
  drain_passes (suc left) done arounds pump =
      after_pass (arounds done) (λ result after. drain_passes left (done + 1) arounds after) done
        (drain (arounds done) pump)

  unfoldable pub drain_until_idle : ℕ → (ℕ → Around) → Pump → Emptied
  unfolding drain_passes
  drain_until_idle maximum arounds pump =
      if leb 1 maximum && leb maximum 100
      then drain_passes (maximum - 1) 1 arounds pump
      else record { answer = drain_stopped (refused command_rejected); pump = pump }
