-- ===== src/Content/Publishing.antt =====
-- apps/content-operations/src/domain/publication-commands.ts: scheduling and publishing.
pub mod Commands
pub mod Preserve
pub mod Transitions
pub mod Refines
pub mod Cycle
pub mod Leases
pub mod Runs
pub mod Accepts
pub mod Retry
pub mod Grants
mod Tests
use jawstack.Base.{
  and_some, ℕ, ◌+◌, Bool, true, false, ◌&&◌, ◌||◌, Option, none, some, List, [], ◌∷◌, Text, Instant,
  leb, ltb, ◌==◌, if◌then◌else◌, Result, ok, err, ◌>>=◌, ◌>>◌, require, resource_conflict,
  runtime_internal,
}
use jawstack.Content.Facts.{
  Payload, Fact, fact, request, attempt, outcome, was_published, was_failed,
  publication_attempt_view, publication_lease_expired,
}
use jawstack.Content.Schema.{publication_lease_ms, publication_attempts}
use jawstack.Content.StateSchema.{is_scheduled}
use jawstack.Content.Types.{
  ObjectKey, ContentStatus, Phase, FailureCode, Claim, AttemptStatus, Attempt, Intent,
  DeliveryFailure, Publication, ContentState, execution_interrupted, is_publishing, is_running,
  is_succeeded, is_terminal_code, Artifact,
}
use jawstack.Core.Types.{ResourceState, Context}

abbrev pub Stored : Type 0
Stored = ResourceState ContentState

abbrev pub is_approved_status : ContentStatus → Bool
is_approved_status ContentStatus.approved = true
is_approved_status _ = false

pub record PublicationRef : Type 0 where
  pub publication_id : Text
  pub generation : ℕ

pub record Fence : Type 0 where
  pub target : PublicationRef
  pub attempt_id : Text
  pub fencing_token : Text

-- `approved`, `scheduled`, `active` and `fenced`: what a command requires of the stored content.
unfoldable pub approved : Stored → Text → Text → Result (Unit {0})
approved previous review_id revision_id =
    require
      (and_some previous.state.approval (λ a. a.review_id == review_id)
        && previous.state.revision_id == revision_id)
      resource_conflict

unfoldable pub current_schedule : Stored → Text → Text → Result (Unit {0})
current_schedule previous revision_id generation =
    require
      (is_scheduled previous.state.status
        && previous.state.revision_id == revision_id
        && and_some previous.state.schedule (λ s. s.generation == generation))
      resource_conflict

abbrev is_target : PublicationRef → Publication → Bool
is_target ref p = p.intent.publication_id == ref.publication_id && p.generation == ref.generation

unfoldable pub active : Stored → PublicationRef → Result Publication
active previous ref = elim previous.state.publication [
  | none ↦ err resource_conflict
  | some p ↦
      if is_publishing previous.state.status && is_target ref p then ok p else err resource_conflict
]

abbrev pub holds : Publication → Fence → Instant → Bool
holds p fence now =
    is_running p.phase
    && and_some p.claim (λ c.
      c.attempt_id == fence.attempt_id
      && c.fencing_token == fence.fencing_token
      && leb c.started_at now
      && ltb now c.lease_until)

unfoldable pub fenced : Stored → Fence → Instant → Result Publication
unfolding active
fenced previous fence now = do
  p ← active previous fence.target
  require (holds p fence now) resource_conflict
  ok p

-- `!` on a value that the code takes to be there; a `TypeError` becomes "runtime.internal".
abbrev pub demand {ℓ} : {A : Type ℓ} → Option A → Result A
demand none = err runtime_internal
demand (some a) = ok a

abbrev pub attempt_payload : Stored → Publication → Attempt → Result Payload
attempt_payload previous p a = do
  view ← publication_attempt_view a
  ok (
      attempt (record {
        content_id = previous.resource_id;
        publication_id = p.intent.publication_id;
        source_version = previous.version + 1;
        attempt = view;
      }))

abbrev request_payload : Stored → Publication → Payload
request_payload previous p = request (record {
  content_id = previous.resource_id;
  publication_id = p.intent.publication_id;
  generation = p.generation;
  source_version = previous.version + 1;
  intent = p.intent;
})

abbrev outcome_at : Publication → Result Instant
outcome_at p = elim p.delivery_failure [
  | some f ↦ ok f.at
  | none ↦ elim p.last_attempt [ none ↦ err runtime_internal | some a ↦ demand a.finished_at ]
]

abbrev outcome_code : Publication → Option FailureCode
outcome_code p = elim p.delivery_failure [
  | some f ↦ some execution_interrupted
  | none ↦ elim p.last_attempt [ none ↦ none | some a ↦ a.failure_code ]
]

unfoldable pub outcome_payload : Stored → Publication → Result Payload
outcome_payload previous p = do
  at ← outcome_at p
  ok (
      outcome (record {
        content_id = previous.resource_id;
        publication_id = p.intent.publication_id;
        generation = p.generation;
        source_version = previous.version + 1;
        revision_id = p.intent.snapshot.revision_id;
        author_id = p.intent.snapshot.author_id;
        title = p.intent.snapshot.title;
        outcome = if is_succeeded p.phase then was_published else was_failed;
        outcome_at = at;
        artifact = p.artifact;
        failure_code = outcome_code p;
      }))

abbrev pub expired_attempt : Attempt → Instant → Attempt
expired_attempt a now = record a {
  status = AttemptStatus.expired;
  finished_at = some now;
  failure_code = none;
}

-- `publication.claim ? { ...publication.lastAttempt!, status: "expired", … } : publication.lastAttempt`
abbrev pub closed_attempt : Publication → Instant → Result (Option Attempt)
closed_attempt p now = elim p.claim [
  | none ↦ ok p.last_attempt
  | some c ↦ elim p.last_attempt [
    | none ↦ err runtime_internal
    | some a ↦ ok (some (expired_attempt a now))
  ]
]

-- expire
unfoldable pub expire : Stored → Publication → Instant → Result (List Fact)
expire previous p now = elim p.claim [
  | none ↦ ok []
  | some c ↦ (do
    a ← demand p.last_attempt
    payload ← attempt_payload previous p (expired_attempt a now)
    event ← fact publication_lease_expired payload
    ok (event ∷ []))
]

-- The new publication of each command.
abbrev pub requested : Intent → Publication
requested intent = record {
  intent = intent;
  generation = 1;
  phase = Phase.queued;
  delivery_failure = none;
  attempts_in_generation = 0;
  claim = none;
  last_attempt = none;
  artifact = none;
}

abbrev pub new_claim : Text → Text → Instant → Claim
new_claim attempt_id token now = record {
  attempt_id = attempt_id;
  fencing_token = token;
  started_at = now;
  lease_until = now + publication_lease_ms;
}

abbrev pub new_attempt : Context ContentState → Publication → Claim → Attempt
new_attempt context p claim = record {
  generation = p.generation;
  claim = claim;
  status = AttemptStatus.claimed;
  finished_at = none;
  failure_code = none;
  source_event_id = context.request_id;
  correlation_id = context.correlation_id;
}

abbrev pub claimed_publication : Publication → Attempt → Publication
claimed_publication p a = record p {
  phase = Phase.running;
  attempts_in_generation = p.attempts_in_generation + 1;
  claim = some a.claim;
  last_attempt = some a;
}

pub record ArtifactInput : Type 0 where
  pub object_key : ObjectKey
  pub sha256 : Text
  pub size : ℕ

abbrev pub finished_attempt : Attempt → Instant → Attempt
finished_attempt a now = record a { status = AttemptStatus.succeeded; finished_at = some now }

abbrev pub artifact_of : ArtifactInput → Instant → Artifact
artifact_of input now = record {
  object_key = input.object_key;
  sha256 = input.sha256;
  size = input.size;
  completed_at = now;
}

abbrev pub completed_publication : Publication → Attempt → ArtifactInput → Instant → Publication
completed_publication p a input now = record p {
  phase = Phase.succeeded;
  claim = none;
  last_attempt = some (finished_attempt a now);
  artifact = some (artifact_of input now);
}

abbrev pub failed_attempt : Attempt → FailureCode → Instant → Attempt
failed_attempt a code now = record a {
  status = AttemptStatus.failed;
  finished_at = some now;
  failure_code = some code;
}

abbrev pub is_terminal : Publication → FailureCode → Bool
is_terminal p code = is_terminal_code code || leb publication_attempts p.attempts_in_generation

abbrev pub failed_publication : Publication → Attempt → FailureCode → Instant → Publication
failed_publication p a code now = record p {
  phase = if is_terminal p code then Phase.failed else Phase.queued;
  claim = none;
  last_attempt = some (failed_attempt a code now);
}

abbrev pub stalled_publication : Publication → Option Attempt → DeliveryFailure → Publication
stalled_publication p closed failure = record p {
  phase = Phase.stalled;
  claim = none;
  last_attempt = closed;
  delivery_failure = some failure;
}

abbrev pub retried_publication : Publication → Option Attempt → Publication
retried_publication p closed = record p {
  generation = p.generation + 1;
  phase = Phase.queued;
  delivery_failure = none;
  attempts_in_generation = 0;
  claim = none;
  last_attempt = closed;
}
