-- ===== src/Workflow/Failures/Ledger.antt =====
-- packages/core/src/workflow/failure-records.ts and failure-memory.ts: which changes of a history are
-- accepted, and their commit to memory.
pub mod Budget
use jawstack.Base.{
  ℕ, suc, ◌+◌, Bool, true, false, not, ◌&&◌, ◌||◌, Option, none, some, List, [], ◌∷◌, ◌++◌, Text,
  Instant, ◌==◌, leb, ltb, when_some, and_some, all, any, find, length, take, last, is_some,
  if◌then◌else◌, Result, ok, err, ◌>>=◌, ◌>>◌, require, resource_conflict, resource_invalid_state,
  runtime_unavailable, get, set, text_key, same_flag,
}
use jawstack.Workflow.Failures.{
  Resolution, Collection, Recovery, Envelope, FailureRecord, same_collection, same_recovery,
  same_envelope, same_list, same_option, same_resolution,
}
use jawstack.Workflow.Failures.Protocol.{
  replays, find_collection, Protocol, is_pending, wire, parse, replay_envelope,
}

pub data Status : Type 0 where
  resolved replay_queued reconciling has_failed : Status

-- FailureSummary. `original` stands for the fields that it takes from the original envelope.
pub record Summary : Type 0 where
  pub id : Text
  pub version : ℕ
  pub consumer : Text
  pub original : Envelope
  pub first_collected_at : Instant
  pub generation : ℕ
  pub status : Status
  pub resolution : Option Resolution
  pub recoveries : List Recovery
  pub collections : List Collection

abbrev pub is_resolved_at : Option ℕ → ℕ → Bool
is_resolved_at none g = false
is_resolved_at (some r) g = r == g

abbrev status_of : FailureRecord → Option Collection → Status
status_of row collection =
    if is_resolved_at row.resolved_generation (length row.recoveries)
    then resolved
    else elim collection [
      | none ↦ replay_queued
      | some c ↦ if is_pending c.resolution then reconciling else has_failed
    ]

-- summary
abbrev pub summary : FailureRecord → Summary
summary row =
    let collection = find_collection row.collections (length row.recoveries) in
    record {
      id = row.id;
      version = row.version;
      consumer = row.consumer;
      original = row.original;
      first_collected_at = row.first_collected_at;
      generation = length row.recoveries;
      status = status_of row collection;
      resolution = elim collection [ none ↦ none | some c ↦ some c.resolution ];
      recoveries = row.recoveries;
      collections = row.collections;
    }

abbrev status_number : Status → ℕ
status_number resolved = 0
status_number replay_queued = 1
status_number reconciling = 2
status_number has_failed = 3

abbrev same_optional_resolution : Option Resolution → Option Resolution → Bool
same_optional_resolution none none = true
same_optional_resolution (some a) (some b) = same_resolution a b
same_optional_resolution _ _ = false

abbrev same_summary : Summary → Summary → Bool
same_summary a b =
    a.id == b.id
    && a.version == b.version
    && a.consumer == b.consumer
    && same_envelope a.original b.original
    && a.first_collected_at == b.first_collected_at
    && a.generation == b.generation
    && status_number a.status == status_number b.status
    && same_optional_resolution a.resolution b.resolution
    && same_list same_recovery a.recoveries b.recoveries
    && same_list same_collection a.collections b.collections

abbrev pub version_of : Option FailureRecord → ℕ
version_of none = 0
version_of (some p) = p.version

abbrev pub recovery_count : Option FailureRecord → ℕ
recovery_count none = 0
recovery_count (some p) = length p.recoveries

-- The first record of a delivery.
abbrev first_ok : FailureRecord → Bool
first_ok next =
    length next.recoveries == 0
    && length next.collections == 1
    && all (λ c. is_pending c.resolution) next.collections
    && not (is_some next.resolved_generation)

abbrev pub not_before : Option ℕ → Option ℕ → Bool
not_before previous next = when_some previous (λ p. and_some next (λ n. leb p n))

-- What a change keeps of the record and of its histories.
abbrev pub keeps : FailureRecord → FailureRecord → Bool
keeps previous next =
    next.id == previous.id
    && next.consumer == previous.consumer
    && next.first_collected_at == previous.first_collected_at
    && same_envelope next.original previous.original
    && next.fingerprint == previous.fingerprint
    && leb (length previous.recoveries) (length next.recoveries)
    && leb (length next.recoveries) (length previous.recoveries + 1)
    && same_list same_recovery (take (length previous.recoveries) next.recoveries)
        previous.recoveries
    && leb (length previous.collections) (length next.collections)
    && leb (length next.collections) (length previous.collections + 1)
    && not_before previous.resolved_generation next.resolved_generation

-- The loop over the earlier collections.
abbrev pub collection_kept : FailureRecord → Collection → Bool
collection_kept next c = and_some (find_collection next.collections c.generation) λ u.
    u.event_id == c.event_id
    && u.collected_at == c.collected_at
    && (is_pending c.resolution || same_collection u c)

abbrev pub last_added_ok : FailureRecord → FailureRecord → Bool
last_added_ok previous next =
    not (ltb (length previous.collections) (length next.collections))
    || and_some (last next.collections)
        (λ c. is_pending c.resolution && c.generation == length previous.recoveries)

unfoldable pub history_ok : Option FailureRecord → FailureRecord → Bool
history_ok none next = first_ok next
history_ok (some previous) next =
    keeps previous next
    && all (collection_kept next) previous.collections
    && last_added_ok previous next

module _ (protocol : Protocol) where
  -- What a change that adds a recovery wants of the record before it.
  unfoldable pub may_recover : FailureRecord → FailureRecord → Bool
  may_recover previous next =
      and_some (find_collection previous.collections (length previous.recoveries))
        (λ c. not (is_pending c.resolution))
      && not (is_resolved_at previous.resolved_generation (length previous.recoveries))
      && replays protocol next.consumer
      && same_list same_collection next.collections previous.collections
      && same_option next.resolved_generation previous.resolved_generation

  abbrev pub same_wires : Result Envelope → Result Envelope → Bool
  same_wires (ok a) (ok b) = same_envelope a b
  same_wires _ _ = false

  unfoldable pub replay_matches : FailureRecord → Option Envelope → Bool
  replay_matches next none = false
  replay_matches next (some e) =
      and_some (last next.recoveries)
        (λ r. same_wires (wire protocol e) (replay_envelope protocol next r))

  unfoldable pub recovery_added_ok : Option FailureRecord → FailureRecord → Option Envelope → Bool
  unfolding may_recover replay_matches
  recovery_added_ok previous next event =
      if ltb (recovery_count previous) (length next.recoveries)
      then and_some previous (λ p. may_recover p next) && replay_matches next event
      else not (is_some event)

  -- validateChange
  unfoldable pub validate_change :
      Option FailureRecord → FailureRecord → Option Envelope → Result (Unit {0})
  unfolding history_ok recovery_added_ok
  validate_change previous next event = do
    require (next.version == version_of previous + 1) resource_conflict
    require (history_ok previous next) resource_conflict
    require (recovery_added_ok previous next event) resource_conflict

-- The maps and the outbox that the memory store writes. A projection row is found by the id of its
-- record, whose first collection, part of the row's key, never changes.
pub record Memory : Type 0 where
  pub failures : List (Text × FailureRecord)
  pub projections : List (Text × Summary)
  pub outbox : List Envelope

module _ (protocol : Protocol) (maximum : ℕ) where
  abbrev pub wire_option : Option Envelope → Result (Option Envelope)
  wire_option none = ok none
  wire_option (some e) = wire protocol e >>= λ event. ok (some event)

  abbrev pub parse_option : Option FailureRecord → Result (Option FailureRecord)
  parse_option none = ok none
  parse_option (some row) = parse protocol row >>= λ old. ok (some old)

  abbrev pub read_old : Memory → Text → Result (Option FailureRecord)
  read_old memory id = parse_option (get text_key memory.failures id)

  abbrev pub same_version : Option FailureRecord → Option ℕ → Bool
  same_version none none = true
  same_version (some old) (some v) = old.version == v
  same_version _ _ = false

  -- What the commit checks of the old record's projection, or of the room for a new one.
  abbrev pub place_ok : Memory → Text → Option FailureRecord → Result (Unit {0})
  place_ok memory id none = do
    require (ltb (length memory.failures) maximum) runtime_unavailable
    require (not (is_some (get text_key memory.projections id))) resource_conflict
  place_ok memory id (some old) =
      require (and_some (get text_key memory.projections id) (λ s. same_summary s (summary old)))
        resource_invalid_state

  abbrev pub is_new_event : Memory → Option Envelope → Bool
  is_new_event memory event =
      when_some event (λ e. not (any (λ x. x.event_id == e.event_id) memory.outbox))

  abbrev pub events_of : Option Envelope → List Envelope
  events_of none = []
  events_of (some e) = e ∷ []

  abbrev pub written : Memory → FailureRecord → Option Envelope → Memory
  written memory next event = record {
    failures = set text_key memory.failures next.id next;
    projections = set text_key memory.projections next.id (summary next);
    outbox = memory.outbox ++ events_of event;
  }

  -- `commit` of the memory store. `assertFailureWritable` keeps hooks from calling it, and
  -- `assertPublication` only rejects containers whose methods were
  -- replaced.
  unfoldable pub commit_failure :
      Memory → Option ℕ → FailureRecord → Option Envelope → Result Memory
  unfolding validate_change
  commit_failure memory expected_version input replay = do
    next ← parse protocol input
    event ← wire_option replay
    old ← read_old memory next.id
    require (same_version old expected_version) resource_conflict
    validate_change protocol old next event
    place_ok memory next.id old
    require (is_new_event memory event) resource_conflict
    ok (written memory next event)
