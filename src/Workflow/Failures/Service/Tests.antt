-- ===== src/Workflow/Failures/Service/Tests.antt =====
-- A failed delivery that failures.ts collects and replays, and the theorem on its decisions applied to it.
use jawstack.Base.{
  ◌≤◌, length, set, text_key, true, false, none, some, [], ◌∷◌, ◌≡◌, ok, refl, get, ◌+◌,
}
use jawstack.Workflow.Failures.{Envelope, FailureRecord, replay, failed}
use jawstack.Workflow.Failures.Ledger.{commit_failure, Memory}
use jawstack.Workflow.Failures.Protocol.{Protocol, IsSettled, record_ok}
use jawstack.Workflow.Failures.Service.{replay_failure, collect, Answered}
use jawstack.Workflow.Failures.Service.Changes.{service-Allowed, Allowed, replays_as, decide_of}
use jawstack.Workflow.Failures.Service.Decisions.{Asked}
use jawstack.Workflow.Failures.Service.Once.{alone}
use jawstack.Workflow.Failures.Service.Published.{replay_publishes_once}
use jawstack.Workflow.Failures.Service.Update.{Around}

abbrev protocol : Protocol
protocol = record {
  consumers = (record { name = 1; event_types = 5 ∷ []; recovery = replay }) ∷ [];
  envelope_ok = λ e. true;
  normalize = λ e. some 6;
  event_ok = λ e. true;
  record_fits = λ row. true;
  item_fits = λ row. true;
  failed_delivery_id = λ c e. c + e;
  envelope_fingerprint = λ e. e.event_id;
}

abbrev original : Envelope
original = record {
  event_id = 10;
  event_type = 5;
  occurred_at = 100;
  causation_id = none;
  body = 6;
  delivery = none;
}

protocol-IsSettled : IsSettled protocol
protocol-IsSettled e body came normal good = (normal, refl)

-- As it is delivered, with a payload that is not in normal form.
abbrev raw : Envelope
raw = record original { body = 9 }

abbrev empty : Memory
empty = record { failures = []; projections = []; outbox = [] }

abbrev undisturbed : Around
undisturbed = record {
  before_read = λ i memory. memory;
  before_commit = λ i memory. memory;
  is_lost = λ i. false;
  now = λ i. 200 + i;
}

-- Collected, and found not to be of the hook's doing.
abbrev after_collect : Answered
after_collect = collect protocol 100 undisturbed undisturbed (λ row. ok failed) empty 1 raw

-- The record then.
abbrev failed_row : FailureRecord
failed_row = record {
  id = 11;
  version = 2;
  consumer = 1;
  original = original;
  fingerprint = 10;
  first_collected_at = 200;
  collections =
      (record {
        generation = 0;
        event_id = 10;
        collected_at = 200;
        reconciled_at = some 200;
        resolution = failed;
      })
      ∷ [];
  recoveries = [];
  resolved_generation = none;
}

stored : get text_key after_collect.memory.failures 11 ≡ some failed_row
unfolding collect get record_ok commit_failure set
stored = refl

abbrev asked : Asked
asked = record {
  subject = 3;
  request_id = 7;
  event_id = 20;
  permits = λ s. true;
  eligible = λ row. true;
}

failed_row-ok : record_ok protocol failed_row ≡ true
unfolding record_ok
failed_row-ok = refl

service-Allowed_example :
    Allowed protocol
      (some failed_row)
      (decide_of protocol (λ i. 300 + i) (replays_as asked) 0 none (some failed_row))
service-Allowed_example =
    service-Allowed protocol protocol-IsSettled (λ i. 300 + i) (replays_as asked) 0 none
      (some failed_row) failed_row-ok refl

-- Every commit loses its answer.
abbrev replayed : Answered
replayed =
    replay_failure protocol 100 (alone (λ i. true) (λ i. 300 + i)) asked after_collect.memory 11

replay_publishes_once_example :
    length replayed.memory.outbox ≤ length after_collect.memory.outbox + 1
replay_publishes_once_example =
    replay_publishes_once protocol 100 (λ i. true) (λ i. 300 + i) 11 asked after_collect.memory
