-- ===== src/Workflow/Failures/Service.antt =====
-- packages/core/src/workflow/failures.ts: `createWorkflowFailureService` over the memory store. The
-- authorizers of operations have let the caller through; what a hook answers is data of a call.
pub mod Update
pub mod Authorize
pub mod Decisions
pub mod Histories
pub mod Accepted
pub mod Replayed
pub mod Generations
pub mod Changes
pub mod Once
pub mod Published
mod Tests
use jawstack.Base.{
  runtime_internal, auth_forbidden, ℕ, zero, suc, ◌+◌, ◌-◌, Bool, true, false, not, ◌&&◌, ◌||◌,
  Option, none, some, List, [], ◌∷◌, ◌++◌, map, Text, Instant, ltb, leb, ◌==◌, max, and_some,
  when_some, any, find, length, get_elem?, is_some, if◌then◌else◌, Result, ok, err, ◌>>=◌, ◌>>◌,
  require, RuntimeErrorCode, command_rejected, resource_conflict, resource_invalid_state,
  resource_not_found, runtime_unavailable,
}
use jawstack.Workflow.Failures.{
  Resolution, pending, Collection, Recovery, Metadata, Envelope, FailureRecord, same_envelope,
}
use jawstack.Workflow.Failures.Ledger.{Summary, summary, Memory, read_old, commit_failure}
use jawstack.Workflow.Failures.Protocol.{
  Protocol, wire, subscribed, replays, parse, replay_envelope, find_collection, is_pending,
  is_settled,
}
use jawstack.Workflow.Failures.Service.Authorize.{Authorized, authorize}
use jawstack.Workflow.Failures.Service.Decisions.{
  Asked, decide_reconcile, decide_collect, decide_complete, decide_replay,
}
use jawstack.Workflow.Failures.Service.Update.{read, update, Around, Updated, update_from}

-- What a call answers, and the memory after it.
pub record Answered : Type 0 where
  pub answer : Result Summary
  pub memory : Memory

abbrev summary_of : Option FailureRecord → Option Summary
summary_of none = none
summary_of (some row) = some (summary row)

module _ (protocol : Protocol) (maximum : ℕ) where
  abbrev pub answered : Updated → Answered
  answered u = record { answer = u.answer >>= λ row. ok (summary row); memory = u.memory }

  abbrev pub refused : RuntimeErrorCode → Memory → Answered
  refused code memory = record { answer = err code; memory = memory }

  -- The end of `collect`, by the hook's answer.
  abbrev pub reconcile : Around → Text → ℕ → Memory → Result Resolution → Answered
  reconcile around id generation memory (err code) = refused code memory
  reconcile around id generation memory (ok resolution) = answered (
      update protocol maximum around id (decide_reconcile protocol around.now generation resolution)
        memory)

  abbrev pub after_collected :
      Around → (FailureRecord → Result Resolution) → Text → ℕ → Updated → Answered
  after_collected around hook id generation u = elim u.answer [
    | err code ↦ refused code u.memory
    | ok row ↦ elim (find_collection row.collections generation) [
      | none ↦ refused runtime_internal u.memory
      | some c ↦
          if is_pending c.resolution
          then reconcile around id generation u.memory (hook row)
          else answered u
    ]
  ]

  abbrev authorized_for : Memory → Text → Envelope → Result (Option Authorized)
  authorized_for memory consumer e =
      if is_some e.delivery
      then (authorize protocol maximum memory consumer e false >>= λ a. ok (some a))
      else ok none

  abbrev pub collect_as :
      Around
      → Around
      → (FailureRecord → Result Resolution)
      → Text
      → Envelope
      → Memory
      → Result (Option Authorized)
      → Answered
  collect_as first second hook consumer e memory (err code) = refused code memory
  collect_as first second hook consumer e memory (ok none) =
      let id = protocol.failed_delivery_id consumer e.event_id in
      after_collected second hook id 0 (
        update protocol maximum first id (decide_collect protocol first.now false 0 id consumer e)
          memory)
  collect_as first second hook consumer e memory (ok (some a)) =
      after_collected second hook a.row.id a.generation (
        update protocol maximum first a.row.id
          (decide_collect protocol first.now true a.generation a.row.id consumer e) memory)

  abbrev checked_wire : Text → Envelope → Result Envelope
  checked_wire consumer input = do
    e ← wire protocol input
    require (subscribed protocol consumer e) command_rejected
    ok e

  abbrev collect_wire :
      Around
      → Around
      → (FailureRecord → Result Resolution)
      → Text
      → Memory
      → Result Envelope
      → Answered
  collect_wire first second hook consumer memory (err code) = refused code memory
  collect_wire first second hook consumer memory (ok e) =
      collect_as first second hook consumer e memory (authorized_for memory consumer e)

  -- `collect`: what happens around its two updates, and what `reconcileFailure` answers for a record
  -- ("notApplicable" where the consumer has no such hook).
  unfoldable pub collect :
      Around → Around → (FailureRecord → Result Resolution) → Memory → Text → Envelope → Answered
  unfolding wire subscribed authorize update_from decide_collect decide_reconcile
  collect first second hook memory consumer input =
      collect_wire first second hook consumer memory (checked_wire consumer input)

  abbrev complete_as : Around → Memory → Result Authorized → Answered
  complete_as around memory (err code) = refused code memory
  complete_as around memory (ok a) = answered (
      update protocol maximum around a.row.id (decide_complete protocol around.now a.generation)
        memory)

  -- `complete`, which gives no value back
  unfoldable pub complete : Around → Memory → Text → Envelope → Answered
  unfolding authorize update_from decide_complete
  complete around memory consumer input =
      complete_as around memory (authorize protocol maximum memory consumer input false)

  abbrev pub replay_read : Around → Asked → Memory → Text → Result (Option FailureRecord) → Answered
  replay_read around asked memory id (err code) = refused code memory
  replay_read around asked memory id (ok first) =
      if asked.permits (summary_of first)
      then answered
          (update protocol maximum around id (decide_replay protocol around.now asked) memory)
      else refused auth_forbidden memory

  -- `replay`, by the caller's permission and the first look at the record.
  unfoldable pub replay_failure : Around → Asked → Memory → Text → Answered
  unfolding read update_from decide_replay
  replay_failure around asked memory id =
      replay_read around asked memory id (read protocol maximum memory id)
