-- ===== src/Workflow/Failures/Service/Authorize.antt =====
-- packages/core/src/workflow/failures.ts: `authorize` and `validateCollection`.
use jawstack.Base.{
  ℕ, ◌-◌, Bool, false, ◌&&◌, ◌||◌, Option, none, some, Text, ◌==◌, and_some, when_some, length,
  get_elem?, is_some, if◌then◌else◌, Result, ok, err, ◌>>=◌, ◌>>◌, require, command_rejected,
  resource_conflict,
}
use jawstack.Workflow.Failures.{Metadata, Envelope, FailureRecord, same_envelope}
use jawstack.Workflow.Failures.Ledger.{Memory}
use jawstack.Workflow.Failures.Protocol.{Protocol, wire, subscribed, replays, replay_envelope}
use jawstack.Workflow.Failures.Service.Update.{read}

pub record Authorized : Type 0 where
  pub row : FailureRecord
  pub generation : ℕ
  pub target : Bool

module _ (protocol : Protocol) (maximum : ℕ) where
  abbrev same_answer : Envelope → Result Envelope → Bool
  same_answer e (ok x) = same_envelope e x
  same_answer e (err code) = false

  -- The recovery that the metadata names is the record's last one and was published as this event.
  abbrev pub is_current : Metadata → Envelope → FailureRecord → Bool
  is_current m e row =
      row.consumer == m.consumer
      && replays protocol row.consumer
      && m.generation == length row.recoveries
      && and_some (get_elem? row.recoveries (m.generation - 1))
          (λ r. same_answer e (replay_envelope protocol row r))

  abbrev pub current_record : Metadata → Envelope → Option FailureRecord → Result FailureRecord
  current_record m e none = err command_rejected
  current_record m e (some row) = require (is_current m e row) command_rejected >> ok row

  abbrev pub recovery_metadata : Envelope → Result Metadata
  recovery_metadata e = elim e.delivery [ none ↦ err command_rejected | some m ↦ ok m ]

  -- authorize
  unfoldable pub authorize : Memory → Text → Envelope → Bool → Result Authorized
  unfolding wire subscribed read
  authorize memory consumer input allow_foreign = do
    e ← wire protocol input
    require (subscribed protocol consumer e) command_rejected
    m ← recovery_metadata e
    require (allow_foreign || m.consumer == consumer) command_rejected
    found ← read protocol maximum memory m.failure_id
    row ← current_record m e found
    ok (record { row = row; generation = m.generation; target = row.consumer == consumer })

  abbrev is_same_original : Option FailureRecord → Envelope → Bool
  is_same_original previous e = when_some previous (λ p. same_envelope p.original e)

  -- validateCollection
  unfoldable pub validate_collection : Memory → Text → Envelope → Result (Unit {0})
  unfolding wire subscribed authorize
  validate_collection memory consumer input = do
    e ← wire protocol input
    require (subscribed protocol consumer e) command_rejected
    if is_some e.delivery then (authorize memory consumer e false >>= λ _. ok tt) else (do
      previous ← read protocol maximum memory (protocol.failed_delivery_id consumer e.event_id)
      require (is_same_original previous e) resource_conflict)
