-- ===== src/Workflow/Pump/Tests.antt =====
-- A pump with one event for one consumer, and the theorems on pump.ts applied to it.
use jawstack.Base.{length, ◌≤◌, ◌*◌, ℕ, ◌+◌, true, false, none, some, [], ◌∷◌, ◌≡◌, ok, refl}
use jawstack.Workflow.Delivery.{was_processed}
use jawstack.Workflow.Failures.{Envelope}
use jawstack.Workflow.Pump.{attempt_job, collect_job, pending, answered, thrown, no_tally}
use jawstack.Workflow.Pump.Admission.{Ports, Pump, available, admit_all}
use jawstack.Workflow.Pump.Bounds.{jobs_ok, drain_keeps_bounds}
use jawstack.Workflow.Pump.Drains.{Drained, drained, Around, drain_until_idle, Emptied, pass}
use jawstack.Workflow.Pump.Idle.{idle_means_done}
use jawstack.Workflow.Pump.Kept.{Accounted, pass_loses_no_job}

abbrev fact : Envelope
fact = record {
  event_id = 10;
  event_type = 5;
  occurred_at = 100;
  causation_id = none;
  body = 6;
  delivery = none;
}

abbrev ports : Ports
ports = record {
  parse = λ e. ok e;
  fingerprint = λ e. e.event_id;
  subscribers = λ t. 1 ∷ [];
  max_jobs = 10;
}

abbrev fresh : Pump
fresh = record { jobs = []; cursor = 0; boundary = none }

-- The handler throws, an hour passes between two passes, and the failure is collected.
abbrev around : ℕ → Around
around i = record {
  is_aborted = false;
  first_rows = fact ∷ [];
  views = λ k. record {
    is_aborted = false;
    rows = fact ∷ [];
    check = λ name. ok available;
    checked_at = λ name. 200;
    is_changed = false;
  };
  attempts = λ job. record {
    is_aborted = false;
    now = i * 3600000;
    reply = thrown;
    is_aborted_after = false;
    later = i * 3600000;
  };
  collections = λ job. record {
    is_aborted = false;
    now = i * 3600000;
    reply = answered was_processed;
    is_aborted_after = false;
    later = i * 3600000;
  };
  last_rows = fact ∷ [];
  ended_at = (i + 1) * 3600000;
  idle_rows = fact ∷ [];
}

abbrev drained_fact : Emptied
drained_fact = drain_until_idle ports 50 20 around fresh

-- After three attempts the failure is collected, and nothing is left.
collected_at_third : drained_fact.pump ≡ record { jobs = []; cursor = 1; boundary = some 10 }
unfolding drain_until_idle attempt_job collect_job
collected_at_third = refl

drain_keeps_bounds_example : jobs_ok 10 (drain_until_idle ports 50 20 around fresh).pump.jobs ≡ true
drain_keeps_bounds_example = drain_keeps_bounds ports 50 20 around fresh refl

abbrev waiting : Pump
waiting = record {
  jobs =
      (record {
        consumer = 1;
        event = fact;
        fingerprint = 10;
        attempts = 1;
        due_at = 1200;
        status = pending;
      })
      ∷ [];
  cursor = 1;
  boundary = some 10;
}

pass_loses_no_job_example :
    Accounted 1 10 ports 50
      (around 1)
      (admit_all ports 50 (around 1).views waiting no_tally)
      (pass ports 50 (around 1) waiting).pump.jobs
pass_loses_no_job_example = pass_loses_no_job 1 10 ports 50 (around 1) waiting refl

-- What the drain answers: the third of its passes collects the failure.
abbrev third : Drained
third = record {
  passes = 3;
  is_idle = true;
  is_exhausted = false;
  result = record {
    tally = record no_tally { attempted = 1; has_failed = 1; collected = 1 };
    pending = 0;
    terminal = 0;
    has_more = false;
    backpressured = false;
    next_attempt_at = none;
  };
}

third-answer : drained_fact.answer ≡ drained third
unfolding drain_until_idle attempt_job collect_job
third-answer = refl

idle_means_done_example : (length drained_fact.pump.jobs ≡ 0) × (1 ≤ drained_fact.pump.cursor)
idle_means_done_example = idle_means_done ports 50 around 20 fresh third third-answer refl
