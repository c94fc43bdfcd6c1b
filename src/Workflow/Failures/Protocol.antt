-- ===== src/Workflow/Failures/Protocol.antt =====
-- packages/core/src/workflow/failure-records.ts: `createFailureProtocol`.
use jawstack.Base.{
  distinct, same_flag, ℕ, ◌+◌, Bool, true, false, not, ◌&&◌, ◌||◌, Option, none, some, List, ◌≡◌,
  [], ◌∷◌, map, Text, Instant, ◌==◌, leb, when_some, and_some, all, find, length, get_elem?,
  includes, is_some, if◌then◌else◌, Result, ok, err, resource_invalid_state, command_validation,
}
use jawstack.Workflow.Failures.{
  Resolution, pending, superseded, succeeded, Collection, Recovery, Envelope, FailureRecord,
  RecoveryMode, replay, application, Consumer,
}

abbrev pub is_pending : Resolution → Bool
is_pending pending = true
is_pending _ = false

-- `["succeeded", "superseded"].includes(…)`
abbrev pub is_settled : Resolution → Bool
is_settled succeeded = true
is_settled superseded = true
is_settled _ = false

abbrev pub is_replay : RecoveryMode → Bool
is_replay replay = true
is_replay application = false

-- Each request of a replay follows the collection before it and the request before it.
abbrev request_ok : FailureRecord → ℕ → Instant → Recovery → Bool
request_ok row i earlier r =
    r.generation == i + 1
    && not (r.event_id == row.original.event_id)
    && and_some (get_elem? row.collections i) (λ c.
      not (is_pending c.resolution || is_settled c.resolution)
      && and_some c.reconciled_at (λ t. leb t r.requested_at))
    && leb earlier r.requested_at

abbrev pub requests_ok : FailureRecord → ℕ → Instant → List Recovery → Bool
requests_ok row i earlier [] = true
requests_ok row i earlier (r ∷ rest) =
    request_ok row i earlier r && requests_ok row (i + 1) r.requested_at rest

-- Each collection is of the event that was delivered in its generation.
abbrev pub stage_ok : FailureRecord → ℕ → Text → Instant → Collection → Bool
stage_ok row i event_id since c =
    c.generation == i
    && leb c.generation (length row.recoveries)
    && c.event_id == event_id
    && leb since c.collected_at
    && (not (is_settled c.resolution) || and_some row.resolved_generation (λ g. leb c.generation g))

abbrev pub stages_ok : FailureRecord → ℕ → Text → Instant → List Recovery → List Collection → Bool
stages_ok row i event_id since recoveries [] = true
stages_ok row i event_id since [] (c ∷ []) = stage_ok row i event_id since c
stages_ok row i event_id since [] (c ∷ d ∷ rest) = false
stages_ok row i event_id since (r ∷ recoveries) (c ∷ rest) =
    stage_ok row i event_id since c
    && stages_ok row (i + 1) r.event_id r.requested_at recoveries rest

-- collectionSchema and recoverySchema
abbrev pub collection_ok : Collection → Bool
collection_ok c =
    leb c.generation 3
    && same_flag (is_pending c.resolution) (not (is_some c.reconciled_at))
    && when_some c.reconciled_at (λ t. leb c.collected_at t)

abbrev pub recovery_ok : Recovery → Bool
recovery_ok r = leb 1 r.generation && leb r.generation 3

abbrev first_collected : FailureRecord → Bool
first_collected row =
    and_some (get_elem? row.collections 0) (λ c. row.first_collected_at == c.collected_at)

abbrev pub find_collection : List Collection → ℕ → Option Collection
find_collection cs generation = find (λ c. c.generation == generation) cs

-- What the protocol is configured with and calls: the consumers; what `wire` asks of an envelope as
-- it comes (its schema, its source, the size of its payload); `normalizePayload`, which answers the
-- rest of the payload or throws; what `wire` asks of a normalized event (its size and the
-- application's `validateEvent`); whether the JSON texts of a record, and of its row in a table, are
-- within 128 KiB; and two digests. `normalize` and `event_ok` are given the event without its recovery
-- metadata.
pub record Protocol : Type 0 where
  pub consumers : List Consumer
  pub envelope_ok : Envelope → Bool
  pub normalize : Envelope → Option Text
  pub event_ok : Envelope → Bool
  pub record_fits : FailureRecord → Bool
  pub item_fits : FailureRecord → Bool
  pub failed_delivery_id : Text → Text → Text
  pub envelope_fingerprint : Envelope → Text

-- The payloads that `normalizePayload` answers are in normal form, which the one in
-- packages/core/src/workflow/definition.ts makes sure of, and the envelopes that `wire` makes with them
-- keep to the schema and the sizes that it asks of what comes in.
abbrev pub IsSettled : Protocol → Type 0
IsSettled protocol =
    (e : Envelope) (body : Text)
    → protocol.envelope_ok e ≡ true
    → protocol.normalize (record e { delivery = none }) ≡ some body
    → protocol.event_ok (record e { body = body; delivery = none }) ≡ true
    → (protocol.normalize (record e { body = body; delivery = none }) ≡ some body)
      × (protocol.envelope_ok (record e { body = body }) ≡ true)

module _ (protocol : Protocol) where
  -- consumer
  abbrev pub consumer_named : Text → Option Consumer
  consumer_named name = find (λ c. c.name == name) protocol.consumers

  abbrev pub replays : Text → Bool
  replays name = and_some (consumer_named name) (λ c. is_replay c.recovery)

  abbrev pub wire_normal : Envelope → Option Text → Result Envelope
  wire_normal e none = err command_validation
  wire_normal e (some body) =
      if protocol.event_ok (record e { body = body; delivery = none })
      then ok (record e { body = body })
      else err command_validation

  -- wire
  unfoldable pub wire : Envelope → Result Envelope
  wire e =
      if protocol.envelope_ok e && when_some e.delivery (λ m. replays m.consumer)
      then wire_normal e (protocol.normalize (record e { delivery = none }))
      else err command_validation

  -- subscription
  unfoldable pub subscribed : Text → Envelope → Bool
  subscribed name e = and_some (consumer_named name) (λ c. includes e.event_type c.event_types)

  -- The checks of `parse` on a record whose original event has come through `wire`.
  unfoldable pub record_ok : FailureRecord → Bool
  unfolding wire subscribed
  record_ok row =
      protocol.item_fits row
      && leb 1 row.version
      && leb 1 (length row.collections)
      && leb (length row.collections) 4
      && leb (length row.recoveries) 3
      && all collection_ok row.collections
      && all recovery_ok row.recoveries
      && subscribed row.consumer row.original
      && not (is_some row.original.delivery)
      && row.id == protocol.failed_delivery_id row.consumer row.original.event_id
      && row.fingerprint == protocol.envelope_fingerprint row.original
      && first_collected row
      && when_some row.resolved_generation (λ g. leb g (length row.recoveries))
      && distinct (map (λ r. r.event_id) row.recoveries)
      && distinct (map (λ r. r.request_id) row.recoveries)
      && requests_ok row 0 row.first_collected_at row.recoveries
      && stages_ok row 0 row.original.event_id row.first_collected_at row.recoveries row.collections

  abbrev pub parse_wired : FailureRecord → Result Envelope → Result FailureRecord
  parse_wired row (err code) = err resource_invalid_state
  parse_wired row (ok original) =
      if record_ok (record row { original = original })
      then ok (record row { original = original })
      else err resource_invalid_state

  -- parse
  abbrev pub parse : FailureRecord → Result FailureRecord
  parse row =
      if protocol.record_fits row
      then parse_wired row (wire row.original)
      else err resource_invalid_state

  -- What `replayEnvelope` hands to `wire`.
  abbrev pub replay_draft : FailureRecord → Recovery → Envelope
  replay_draft row r = record (row.original) {
    event_id = r.event_id;
    occurred_at = r.requested_at;
    causation_id = some row.original.event_id;
    delivery = some (record {
      original_event_id = row.original.event_id;
      generation = r.generation;
      consumer = row.consumer;
      failure_id = row.id;
    });
  }

  -- replayEnvelope
  abbrev pub replay_envelope : FailureRecord → Recovery → Result Envelope
  replay_envelope row r = wire (replay_draft row r)
