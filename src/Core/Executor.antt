-- ===== src/Core/Executor.antt =====
-- packages/core/src/index.ts: `executeCommand` and its helpers.
pub mod Conflicts
pub mod Kept
pub mod Recorded
pub mod Replay
pub mod Events
mod Tests
use jawstack.Base.{
  ℕ, ◌+◌, Bool, true, false, not, ◌&&◌, Option, none, some, List, [], ◌∷◌, Text, Instant, ◌==◌, any,
  all, find, includes, Result, RuntimeErrorCode, ok, err, ◌>>=◌, ◌>>◌, require, get, text_key,
  auth_missing, auth_forbidden, command_rejected, command_validation, idempotency_conflict,
  resource_not_found, if◌then◌else◌,
}
use jawstack.Core.Commands.{
  ActivityDraft, EventDraft, EventDeclaration, ActivityRecord, Event, CommandDecision,
  CommandDefinition, ResourceDefinition, CommandRequest, ApiSuccess, ExecutionResult, success,
  failure, Fingerprint, IdempotencyCommit, CommitInput,
}
use jawstack.Core.Store.{Store, same_fingerprint, commit, resource_key}
use jawstack.Core.Types.{AuthContext, Actor, ResourceState, Context}

-- assertAuthContext; roles are a list by their type.
abbrev pub assert_auth_context : AuthContext → Result (Unit {0})
assert_auth_context auth = require (not (auth.subject == 0)) auth_missing

-- actorFromAuth
abbrev pub actor_from_auth : AuthContext → Actor
actor_from_auth auth = record { subject = auth.subject; display_name = auth.display_name }

-- What `buildActivityRecords` and `buildEvents` share of their input.
pub record Origin : Type 0 where
  pub source : Text
  pub resource_type : Text
  pub resource_id : Text
  pub auth : AuthContext
  pub now : Instant
  pub correlation_id : Text
  pub causation_id : Text

module _ {J : Type 0} where
  abbrev pub is_declared : List EventDeclaration → EventDraft J → Bool
  is_declared emits e =
      any (λ d. d.event_type == e.event_type && d.schema_version == e.schema_version) emits

  abbrev is_nonempty : List (EventDraft J) → Bool
  is_nonempty [] = false
  is_nonempty (e ∷ rest) = true

  -- assertDecision; the decision is an object and its activity a list by their types.
  abbrev pub assert_decision : CommandDecision J → CommandDefinition J → Result (Unit {0})
  assert_decision decision command = do
    require (is_nonempty decision.events) command_rejected
    require (all (is_declared command.emits) decision.events) command_rejected

  -- buildActivityRecords, from the `i`-th identifier on
  abbrev pub build_activity_records :
      Origin → (ℕ → Text) → ℕ → List (ActivityDraft J) → List (ActivityRecord J)
  build_activity_records origin ids i [] = []
  build_activity_records origin ids i (draft ∷ drafts) =
      record {
        activity_id = ids i;
        resource_type = origin.resource_type;
        resource_id = origin.resource_id;
        activity_type = draft.activity_type;
        title = draft.title;
        summary = draft.summary;
        details = draft.details;
        actor = actor_from_auth origin.auth;
        tenant_id = origin.auth.tenant_id;
        correlation_id = origin.correlation_id;
        causation_id = origin.causation_id;
        occurred_at = origin.now;
      }
      ∷ build_activity_records origin ids (i + 1) drafts

  -- buildEvents, from the `i`-th identifier on
  abbrev pub build_events : Origin → (ℕ → Text) → ℕ → List (EventDraft J) → List (Event J)
  build_events origin ids i [] = []
  build_events origin ids i (draft ∷ drafts) =
      record {
        event_id = ids i;
        event_type = draft.event_type;
        schema_version = draft.schema_version;
        source = origin.source;
        resource_type = origin.resource_type;
        resource_id = origin.resource_id;
        tenant_id = origin.auth.tenant_id;
        actor = actor_from_auth origin.auth;
        correlation_id = origin.correlation_id;
        causation_id = origin.causation_id;
        occurred_at = origin.now;
        payload = draft.payload;
      }
      ∷ build_events origin ids (i + 1) drafts

  abbrev version_after : Option (ResourceState J) → ℕ
  version_after none = 1
  version_after (some p) = p.version + 1

  abbrev creation : Option (ResourceState J) → Origin → Instant × Text
  creation none origin = (origin.now, origin.auth.subject)
  creation (some p) origin = (p.created_at, p.created_by)

  -- buildNextResourceState
  abbrev pub build_next_resource_state : Origin → Option (ResourceState J) → J → ResourceState J
  build_next_resource_state origin previous next = record {
    resource_type = origin.resource_type;
    resource_id = origin.resource_id;
    version = version_after previous;
    state = next;
    created_at = (creation previous origin).0;
    updated_at = origin.now;
    created_by = (creation previous origin).1;
    updated_by = origin.auth.subject;
    tenant_id = origin.auth.tenant_id;
  }

  abbrev version_of : Option (ResourceState J) → Option ℕ
  version_of none = none
  version_of (some p) = some p.version

-- CommandExecutorOptions. `resolve` is the auth provider's; the generators give their `i`-th value:
-- `drawn` to the command's `decide`, the others to the executor. `same_input` compares the stable
-- JSON texts of two parsed inputs.
pub record Options (J : Type 0) : Type 0 where
  pub resources : List (ResourceDefinition J)
  pub resolve : J → Result AuthContext
  pub now : Instant
  pub source : Text
  pub drawn : ℕ → Text
  pub activity_ids : ℕ → Text
  pub event_ids : ℕ → Text
  pub new_resource_id : Text
  pub same_input : J → J → Bool

-- What the executor has decided before it commits.
pub data Prepared (J : Type 0) : Type 0 where
  replayed : ApiSuccess J → Prepared J
  writes : CommitInput J → ApiSuccess J → Prepared J

-- Who asks, for which command, with what input.
pub record Admitted (J : Type 0) : Type 0 where
  pub auth : AuthContext
  pub command : CommandDefinition J
  pub input : J

module _ {J : Type 0} (options : Options J) where
  -- registry.getResource and findCommand
  abbrev find_resource : Text → Result (ResourceDefinition J)
  find_resource name = elim (find (λ r. r.name == name) options.resources) [
    | none ↦ err command_rejected
    | some r ↦ ok r
  ]

  abbrev find_command : ResourceDefinition J → Text → Result (CommandDefinition J)
  find_command resource name = elim (find (λ c. c.name == name) resource.commands) [
    | none ↦ err command_rejected
    | some c ↦ ok c
  ]

  abbrev parse_input : CommandDefinition J → J → Result J
  parse_input command input = elim (command.input input) [
    | none ↦ err command_validation
    | some i ↦ ok i
  ]

  abbrev pub fingerprint_of : CommandRequest J → J → Fingerprint J
  fingerprint_of request input = record {
    resource_type = request.resource_type;
    resource_id = request.resource_id;
    command_name = request.command_name;
    input = input;
  }

  -- `repository.getIdempotency`, and what is made of its answer
  abbrev pub recorded : Store J → CommandRequest J → J → Result (Option (ApiSuccess J))
  recorded store request input = elim request.idempotency_key [
    | none ↦ ok none
    | some key ↦ elim (get text_key store.idempotency key) [
      | none ↦ ok none
      | some existing ↦
          if same_fingerprint options.same_input existing.fingerprint (fingerprint_of request input)
          then ok (some existing.response)
          else err idempotency_conflict
    ]
  ]

  abbrev pub resource_id_for : CommandDefinition J → CommandRequest J → Result Text
  resource_id_for command request = elim request.resource_id [
    | none ↦
        if command.create && not (options.new_resource_id == 0)
        then ok options.new_resource_id
        else err command_rejected
    | some id ↦ if id == 0 then err command_rejected else ok id
  ]

  abbrev pub previous_for :
      Store J → CommandDefinition J → CommandRequest J → Text → Result (Option (ResourceState J))
  previous_for store command request id =
      if command.create
      then ok none
      else elim (get resource_key store.resources (request.resource_type, id)) [
        | none ↦ err resource_not_found
        | some row ↦ ok (some row)
      ]

  abbrev pub context_of :
      CommandRequest J → AuthContext → Option (ResourceState J) → Text → Context J
  context_of request auth previous id = record {
    auth = auth;
    previous = previous;
    resource_id = id;
    request_id = request.request_id;
    correlation_id = request.correlation_id;
    now = options.now;
    ids = options.drawn;
  }

  abbrev pub origin_of : CommandRequest J → AuthContext → Text → Origin
  origin_of request auth id = record {
    source = options.source;
    resource_type = request.resource_type;
    resource_id = id;
    auth = auth;
    now = options.now;
    correlation_id = request.correlation_id;
    causation_id = request.request_id;
  }

  abbrev api_success : CommandRequest J → J → ApiSuccess J
  api_success request response = record {
    result = response;
    request_id = request.request_id;
    correlation_id = request.correlation_id;
  }

  abbrev pub idempotency_of : CommandRequest J → J → ApiSuccess J → Option (IdempotencyCommit J)
  idempotency_of request input answer = elim request.idempotency_key [
    | none ↦ none
    | some key ↦
        some (record { key = key; fingerprint = fingerprint_of request input; response = answer })
  ]

  abbrev pub commit_input :
      CommandRequest J
      → CommandDefinition J
      → AuthContext
      → J
      → Text
      → Option (ResourceState J)
      → CommandDecision J
      → CommitInput J
  commit_input request command auth input id previous decision = record {
    resource_type = request.resource_type;
    resource_id = id;
    expected_version = version_of previous;
    next = build_next_resource_state (origin_of request auth id) previous decision.next_state;
    create = command.create;
    activity =
        build_activity_records (origin_of request auth id) options.activity_ids 0 decision.activity;
    outbox = build_events (origin_of request auth id) options.event_ids 0 decision.events;
    projections = decision.projections;
    idempotency = idempotency_of request input (api_success request decision.response);
  }

  -- The end of `executeCommand` before its commit, for a request that no recorded answer settles.
  unfoldable pub decide_new :
      Store J → CommandRequest J → CommandDefinition J → AuthContext → J → Result (Prepared J)
  decide_new store request command auth input = do
    id ← resource_id_for command request
    previous ← previous_for store command request id
    decision ← command.decide (context_of request auth previous id) input
    assert_decision decision command
    ok (
        writes (commit_input request command auth input id previous decision)
          (api_success request decision.response))

  -- The checks of `executeCommand` that read no store.
  unfoldable pub admit : CommandRequest J → Result (Admitted J)
  admit request = do
    auth ← options.resolve request.request_context
    assert_auth_context auth
    resource ← find_resource request.resource_type
    command ← find_command resource request.command_name
    require (any (λ role. includes role auth.roles) command.roles) auth_forbidden
    input ← parse_input command request.input
    require (elim request.idempotency_key [ none ↦ true | some k ↦ not (k == 0) ]) command_rejected
    ok (record { auth = auth; command = command; input = input })

  abbrev pub answer_or_decide :
      Store J → CommandRequest J → Admitted J → Option (ApiSuccess J) → Result (Prepared J)
  answer_or_decide store request admitted (some a) = ok (replayed a)
  answer_or_decide store request admitted none =
      decide_new store request admitted.command admitted.auth admitted.input

  -- `executeCommand` up to its commit. It reads twice: the recorded answer in `noted`, the row later in
  -- `store`; others may have committed between the two, and may commit before its own commit.
  unfoldable pub prepare : Store J → Store J → CommandRequest J → Result (Prepared J)
  unfolding admit decide_new
  prepare noted store request = do
    admitted ← admit request
    answer ← recorded noted request admitted.input
    answer_or_decide store request admitted answer

  -- runtimeErrorToApiError
  abbrev failed : CommandRequest J → RuntimeErrorCode → ExecutionResult J
  failed request code = failure code request.request_id request.correlation_id

  abbrev pub finish_commit :
      Store J → CommandRequest J → ApiSuccess J → Result (Store J) → ExecutionResult J × Store J
  finish_commit store request answer (ok after) = (success answer, after)
  finish_commit store request answer (err e) = (failed request e, store)

  abbrev pub finish_prepared :
      Store J → CommandRequest J → Result (Prepared J) → ExecutionResult J × Store J
  finish_prepared store request (err e) = (failed request e, store)
  finish_prepared store request (ok (replayed a)) = (success a, store)
  finish_prepared store request (ok (writes c a)) =
      finish_commit store request a (commit options.same_input store c)

  -- `executeCommand`, where nobody else commits between its reads and its commit
  unfoldable pub execute_command : Store J → CommandRequest J → ExecutionResult J × Store J
  unfolding prepare commit
  execute_command store request = finish_prepared store request (prepare store store request)
