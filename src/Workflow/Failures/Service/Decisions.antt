-- ===== src/Workflow/Failures/Service/Decisions.antt =====
-- packages/core/src/workflow/failures.ts: what the updates of a record decide.
use jawstack.Base.{
  ℕ, ◌+◌, Bool, not, ◌||◌, Option, none, some, [], ◌∷◌, ◌++◌, map, Text, Instant, ltb, leb, ◌==◌,
  max, and_some, any, length, if◌then◌else◌, Result, err, ◌>>=◌, ◌>>◌, require, command_rejected,
  resource_conflict, resource_invalid_state, resource_not_found, auth_forbidden,
}
use jawstack.Workflow.Failures.{
  Resolution, pending, Collection, Recovery, Envelope, FailureRecord, same_envelope,
}
use jawstack.Workflow.Failures.Ledger.{Summary}
use jawstack.Workflow.Failures.Protocol.{
  Protocol, replays, replay_envelope, find_collection, is_pending, is_settled,
}
use jawstack.Workflow.Failures.Service.Update.{changes, unchanged, Decide, Decided}

abbrev pub open_collection : ℕ → Text → Instant → Collection
open_collection generation event_id at = record {
  generation = generation;
  event_id = event_id;
  collected_at = at;
  reconciled_at = none;
  resolution = pending;
}

abbrev pub collected : FailureRecord → Collection → FailureRecord
collected old c = record old {
  version = old.version + 1;
  collections = old.collections ++ (c ∷ []);
}

abbrev pub settle_one : ℕ → Resolution → Instant → Collection → Collection
settle_one generation resolution at c =
    if c.generation == generation
    then record c { resolution = resolution; reconciled_at = some at }
    else c

abbrev pub or_zero : Option ℕ → ℕ
or_zero none = 0
or_zero (some n) = n

abbrev pub reconciled : FailureRecord → ℕ → Resolution → Instant → FailureRecord
reconciled old generation resolution at = record old {
  version = old.version + 1;
  collections = map (settle_one generation resolution at) old.collections;
  resolved_generation =
      if is_settled resolution
      then some (max (or_zero old.resolved_generation) generation)
      else old.resolved_generation;
}

abbrev pub completed : FailureRecord → ℕ → FailureRecord
completed old generation = record old {
  version = old.version + 1;
  resolved_generation = some generation;
}

abbrev pub recovering : FailureRecord → Recovery → FailureRecord
recovering old r = record old { version = old.version + 1; recoveries = old.recoveries ++ (r ∷ []) }

-- A replay is asked for by a subject, with a request id and an event id that is drawn for it; `permits`
-- is what the authorizer of operations answers about the record that is found first, `eligible` what the
-- hook answers about a record.
pub record Asked : Type 0 where
  pub subject : Text
  pub request_id : Text
  pub event_id : Text
  pub permits : Option Summary → Bool
  pub eligible : FailureRecord → Bool

module _ (protocol : Protocol) (times : ℕ → Instant) where
  abbrev pub first_record : Text → Text → Envelope → Instant → FailureRecord
  first_record id consumer e at = record {
    id = id;
    version = 1;
    consumer = consumer;
    original = e;
    fingerprint = protocol.envelope_fingerprint e;
    first_collected_at = at;
    collections = open_collection 0 e.event_id at ∷ [];
    recoveries = [];
    resolved_generation = none;
  }

  -- The first `decide` of `collect`; `authorized` tells whether the event is a recovery.
  unfoldable pub decide_collect : Bool → ℕ → Text → Text → Envelope → Decide
  decide_collect authorized generation id consumer e i candidate none =
      if authorized
      then err resource_invalid_state
      else changes (first_record id consumer e (times i)) none candidate
  decide_collect authorized generation id consumer e i candidate (some old) = do
    require (authorized || same_envelope old.original e) resource_conflict
    if any (λ c. c.generation == generation) old.collections
        then unchanged candidate
        else changes (collected old (open_collection generation e.event_id (times i))) none
            candidate

  -- Its second one, after the hook's answer.
  unfoldable pub decide_reconcile : ℕ → Resolution → Decide
  decide_reconcile generation resolution i candidate none = err resource_invalid_state
  decide_reconcile generation resolution i candidate (some old) =
      elim (find_collection old.collections generation) [
        | none ↦ err resource_invalid_state
        | some stage ↦
            if is_pending stage.resolution
            then changes (reconciled old generation resolution (times i)) none candidate
            else unchanged candidate
      ]

  -- The `decide` of `complete`.
  unfoldable pub decide_complete : ℕ → Decide
  decide_complete generation i candidate none = err resource_invalid_state
  decide_complete generation i candidate (some old) =
      if and_some old.resolved_generation (λ g. leb generation g)
      then unchanged candidate
      else changes (completed old generation) none candidate

  abbrev pub drawn : Asked → ℕ → FailureRecord → Recovery
  drawn asked i old = record {
    generation = length old.recoveries + 1;
    event_id = asked.event_id;
    requested_at = times i;
    requested_by = asked.subject;
    request_id = asked.request_id;
  }

  abbrev pub candidate_for : Asked → ℕ → Option Recovery → FailureRecord → Recovery
  candidate_for asked i (some r) old = r
  candidate_for asked i none old = drawn asked i old

  abbrev is_resolved : FailureRecord → Bool
  is_resolved old = and_some old.resolved_generation (λ g. g == length old.recoveries)

  -- The rest of the `decide` of `replay`, for the latest collection.
  abbrev pub request_replay :
      Asked → ℕ → Option Recovery → FailureRecord → Collection → Result Decided
  request_replay asked i candidate old latest =
      if and_some candidate (λ r. leb r.generation (length old.recoveries))
      then unchanged candidate
      else (do
        require (not (is_pending latest.resolution)) resource_conflict
        require (ltb (length old.recoveries) 3) command_rejected
        require (asked.eligible old) auth_forbidden
        let r = candidate_for asked i candidate old
        event ← replay_envelope protocol (recovering old r) r
        changes (recovering old r) (some event) (some r))

  unfoldable pub decide_replay : Asked → Decide
  decide_replay asked i candidate none = err resource_not_found
  decide_replay asked i candidate (some old) = do
    require (replays protocol old.consumer) command_rejected
    if any (λ r. r.request_id == asked.request_id) old.recoveries then unchanged candidate else (do
      require (not (is_resolved old)) command_rejected
      elim (find_collection old.collections (length old.recoveries)) [
        | none ↦ unchanged candidate
        | some latest ↦ request_replay asked i candidate old latest
      ])
