-- ===== src/Workflow/Failures/Tests.antt =====
-- A failed delivery, and the theorem on the ledger of failure-memory.ts applied to it.
use jawstack.Base.{some, true, none, List, [], ◌∷◌, ◌≡◌, ◌≤◌, ◌+◌, arith, get}
use jawstack.Workflow.Failures.{Envelope, FailureRecord, pending, replay}
use jawstack.Workflow.Failures.Ledger.{Memory}
use jawstack.Workflow.Failures.Ledger.Budget.{
  recoveries_at, run, Proposal, replayed, recoveries_counted,
}
use jawstack.Workflow.Failures.Protocol.{Protocol}

abbrev protocol : Protocol
protocol = record {
  consumers = (record { name = 1; event_types = 5 ∷ []; recovery = replay }) ∷ [];
  envelope_ok = λ e. true;
  normalize = λ e. some 6;
  event_ok = λ e. true;
  record_fits = λ row. true;
  item_fits = λ row. true;
  failed_delivery_id = λ c e. c + e;
  envelope_fingerprint = λ e. e.event_id;
}

abbrev original : Envelope
original = record {
  event_id = 10;
  event_type = 5;
  occurred_at = 100;
  causation_id = none;
  body = 6;
  delivery = none;
}

abbrev collected : FailureRecord
collected = record {
  id = 11;
  version = 1;
  consumer = 1;
  original = original;
  fingerprint = 10;
  first_collected_at = 200;
  collections =
      (record {
        generation = 0;
        event_id = 10;
        collected_at = 200;
        reconciled_at = none;
        resolution = pending;
      })
      ∷ [];
  recoveries = [];
  resolved_generation = none;
}

abbrev empty : Memory
empty = record { failures = []; projections = []; outbox = [] }

abbrev proposals : List Proposal
proposals = (record { expected_version = none; row = collected; event = none }) ∷ []

empty-recoveries_at : recoveries_at empty 11 ≤ 3
unfolding get
empty-recoveries_at = omega arith

recoveries_counted_example :
    (recoveries_at (run protocol 1000 empty proposals) 11
      ≡ recoveries_at empty 11 + replayed protocol 1000 empty proposals 11)
    × (recoveries_at (run protocol 1000 empty proposals) 11 ≤ 3)
recoveries_counted_example = recoveries_counted protocol 1000 empty proposals 11 empty-recoveries_at
