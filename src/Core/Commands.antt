-- ===== src/Core/Commands.antt =====
-- packages/core/src/index.ts: the records of commands. `J` is what the source types as `unknown`.
-- Their fields `data` are `details`, `columns` and `result` here.
use jawstack.Base.{ℕ, Bool, Option, List, Text, Instant, Result, RuntimeErrorCode}
use jawstack.Core.Types.{Actor, ResourceState, Context}

pub record EventDeclaration : Type 0 where
  pub event_type : Text
  pub schema_version : ℕ

module _ (J : Type 0) where
  pub record ActivityDraft : Type 0 where
    pub activity_type : Text
    pub title : Text
    pub summary : Option Text
    pub details : Option J

  pub record EventDraft : Type 0 where
    pub event_type : Text
    pub schema_version : ℕ
    pub payload : J

  pub record ActivityRecord : Type 0 where
    pub activity_id : Text
    pub resource_type : Text
    pub resource_id : Text
    pub activity_type : Text
    pub title : Text
    pub summary : Option Text
    pub details : Option J
    pub actor : Actor
    pub tenant_id : Option Text
    pub correlation_id : Text
    pub causation_id : Text
    pub occurred_at : Instant

  -- JawStackEvent, whose envelope version is always 1
  pub record Event : Type 0 where
    pub event_id : Text
    pub event_type : Text
    pub schema_version : ℕ
    pub source : Text
    pub resource_type : Text
    pub resource_id : Text
    pub tenant_id : Option Text
    pub actor : Actor
    pub correlation_id : Text
    pub causation_id : Text
    pub occurred_at : Instant
    pub payload : J

  pub record ProjectionWrite : Type 0 where
    pub projection_name : Text
    pub item_id : Text
    pub sort : Text
    pub columns : J
    pub delete : Bool

  -- CommandDecision; without `projections` the list is empty.
  pub record CommandDecision : Type 0 where
    pub next_state : J
    pub activity : List ActivityDraft
    pub events : List EventDraft
    pub projections : List ProjectionWrite
    pub response : J

  -- `input` is the schema's `safeParse`.
  pub record CommandDefinition : Type 0 where
    pub name : Text
    pub roles : List Text
    pub emits : List EventDeclaration
    pub create : Bool
    pub input : J → Option J
    pub decide : Context J → J → Result CommandDecision

  pub record ResourceDefinition : Type 0 where
    pub name : Text
    pub commands : List CommandDefinition

  -- CommandRequest, with the identifiers that the executor draws when the request has none.
  pub record CommandRequest : Type 0 where
    pub request_id : Text
    pub correlation_id : Text
    pub resource_type : Text
    pub resource_id : Option Text
    pub command_name : Text
    pub input : J
    pub idempotency_key : Option Text
    pub request_context : J

  pub record ApiSuccess : Type 0 where
    pub result : J
    pub request_id : Text
    pub correlation_id : Text

  pub data ExecutionResult : Type 0 where
    success : ApiSuccess → ExecutionResult
    failure : RuntimeErrorCode → Text → Text → ExecutionResult

  -- What `createIdempotencyFingerprint` puts into the text that it compares.
  pub record Fingerprint : Type 0 where
    pub resource_type : Text
    pub resource_id : Option Text
    pub command_name : Text
    pub input : J

  pub record IdempotencyCommit : Type 0 where
    pub key : Text
    pub fingerprint : Fingerprint
    pub response : ApiSuccess

  -- CommandCommitInput; its `response` is not read by the stores.
  pub record CommitInput : Type 0 where
    pub resource_type : Text
    pub resource_id : Text
    pub expected_version : Option ℕ
    pub next : ResourceState J
    pub create : Bool
    pub activity : List ActivityRecord
    pub outbox : List Event
    pub projections : List ProjectionWrite
    pub idempotency : Option IdempotencyCommit
