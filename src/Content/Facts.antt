-- ===== src/Content/Facts.antt =====
-- apps/content-operations/src/shared/contracts.ts: the facts that content commands emit, and the
-- schema of each, with the budgets of bytes as a test of what they measure.
use jawstack.Base.{
  and_some, when_some, includes, ℕ, ◌+◌, Bool, true, false, not, ◌&&◌, Option, Text, Instant, ltb,
  leb, ◌==◌, if◌then◌else◌, is_some, Result, ok, err, runtime_internal, command_validation,
}
use jawstack.Content.ReviewSchema.{
  day, is_pending_review, is_decided, is_pending_slot, is_ready_slot, is_expired_slot, slot_ok,
  review_ok,
}
use jawstack.Content.Schema.{
  fixture_ids, version_ok, publication_lease_ms, same_bool, same_key, generation_ok, intent_ok,
  artifact_ok, publication_object_key,
}
use jawstack.Content.StateSchema.{is_draft, is_scheduled}
use jawstack.Content.Types.{
  ContentState, ContentStatus, ReviewStatus, AssetStatus, AssetSlot, Review, Schedule, FailureCode,
  AttemptStatus, Attempt, Intent, Artifact, is_claimed, is_failed_attempt, is_expired_attempt,
  is_succeeded_attempt,
}

-- `keyof typeof contentEventSchemas`; the names are those after the dot.
pub data EventType : Type 0 where
  review_reminder_recorded created draft_edited review_requested review_decided : EventType
  review_superseded draft_reopened archived snapshot_applied : EventType
  asset_registered asset_ready asset_removed asset_expired asset_snapshot_applied : EventType
  scheduled rescheduled schedule_cancelled publication_requested publication_retried : EventType
  publication_claimed publication_attempt_succeeded publication_attempt_failed : EventType
  publication_lease_expired publication_failed published : EventType

pub record LifecycleFact : Type 0 where
  pub content_id : Text
  pub author_id : Text
  pub revision_id : Text
  pub title : Text
  pub status : ContentStatus
  pub source_version : ℕ

pub record ReminderFact : Type 0 where
  pub content_id : Text
  pub review_id : Text
  pub review : Review
  pub reminded_at : Instant

pub record ScheduleFact : Type 0 where
  pub content_id : Text
  pub revision_id : Text
  pub source_version : ℕ
  pub status : ContentStatus
  pub schedule : Option Schedule

pub record RequestFact : Type 0 where
  pub content_id : Text
  pub publication_id : Text
  pub generation : ℕ
  pub source_version : ℕ
  pub intent : Intent

-- The view of an attempt without its fencing token.
pub record AttemptView : Type 0 where
  pub generation : ℕ
  pub attempt_id : Text
  pub started_at : Instant
  pub lease_until : Instant
  pub status : AttemptStatus
  pub finished_at : Option Instant
  pub failure_code : Option FailureCode
  pub source_event_id : Text
  pub correlation_id : Text

pub record AttemptFact : Type 0 where
  pub content_id : Text
  pub publication_id : Text
  pub source_version : ℕ
  pub attempt : AttemptView

pub data Outcome : Type 0 where
  was_published was_failed : Outcome

pub record OutcomeFact : Type 0 where
  pub content_id : Text
  pub publication_id : Text
  pub generation : ℕ
  pub source_version : ℕ
  pub revision_id : Text
  pub author_id : Text
  pub title : Text
  pub outcome : Outcome
  pub outcome_at : Instant
  pub artifact : Option Artifact
  pub failure_code : Option FailureCode

pub data Payload : Type 0 where
  lifecycle : LifecycleFact → Payload
  review_state : Review → Payload
  asset_state : AssetSlot → Payload
  reminder : ReminderFact → Payload
  schedule_change : ScheduleFact → Payload
  request : RequestFact → Payload
  attempt : AttemptFact → Payload
  outcome : OutcomeFact → Payload

-- What the byte budgets of the schemas measure: a state, and the payload of a fact.
pub data Sized : Type 0 where
  state_size : ContentState → Sized
  fact_size : Payload → Sized

-- The refinements `jsonBytes(value) <= limits.eventBytes`, which these schemas of facts have.
abbrev pub within_budget : (Sized → Bool) → Payload → Bool
within_budget fits (lifecycle f) = fits (fact_size (lifecycle f))
within_budget fits (review_state r) = fits (fact_size (review_state r))
within_budget fits (asset_state a) = fits (fact_size (asset_state a))
within_budget fits (request f) = fits (fact_size (request f))
within_budget fits _ = true

pub record Fact : Type 0 where
  pub event_type : EventType
  pub payload : Payload

abbrev pub reminder_ok : ReminderFact → Bool
reminder_ok f =
    review_ok f.review
    && f.content_id == f.review.content_id
    && f.review_id == f.review.review_id
    && is_pending_review f.review.status
    && and_some f.review.last_reminder_day (λ d. d == day f.reminded_at)
    && leb f.review.due_at f.reminded_at

abbrev is_approved : ContentStatus → Bool
is_approved ContentStatus.approved = true
is_approved _ = false

abbrev pub schedule_ok : ScheduleFact → Bool
schedule_ok f =
    same_bool (is_scheduled f.status) (is_some f.schedule)
    && when_some f.schedule (λ s. s.revision_id == f.revision_id)

abbrev pub request_ok : RequestFact → Bool
request_ok f =
    generation_ok f.generation
    && intent_ok f.intent
    && f.content_id == f.intent.content_id
    && f.publication_id == f.intent.publication_id

abbrev view_finish_ok : AttemptView → Instant → Bool
view_finish_ok v at =
    leb v.started_at at
    && (if is_expired_attempt v.status then leb v.lease_until at else ltb at v.lease_until)

abbrev pub view_ok : AttemptView → Bool
view_ok v =
    generation_ok v.generation
    && v.lease_until == v.started_at + publication_lease_ms
    && same_bool (is_claimed v.status) (not (is_some v.finished_at))
    && same_bool (is_failed_attempt v.status) (is_some v.failure_code)
    && when_some v.finished_at (view_finish_ok v)

abbrev view_of : Attempt → AttemptView
view_of a = record {
  generation = a.generation;
  attempt_id = a.claim.attempt_id;
  started_at = a.claim.started_at;
  lease_until = a.claim.lease_until;
  status = a.status;
  finished_at = a.finished_at;
  failure_code = a.failure_code;
  source_event_id = a.source_event_id;
  correlation_id = a.correlation_id;
}

-- publicationAttemptView; a `ZodError` becomes "runtime.internal" in the executor.
unfoldable pub publication_attempt_view : Attempt → Result AttemptView
publication_attempt_view a = if view_ok (view_of a) then ok (view_of a) else err runtime_internal

abbrev is_published : Outcome → Bool
is_published was_published = true
is_published was_failed = false

abbrev pub outcome_ok : OutcomeFact → Bool
outcome_ok f =
    generation_ok f.generation
    && when_some f.artifact artifact_ok
    && (if is_published f.outcome
        then and_some f.artifact (λ a.
          same_key a.object_key (publication_object_key f.content_id f.publication_id)
          && a.completed_at == f.outcome_at)
          && not (is_some f.failure_code)
        else not (is_some f.artifact) && is_some f.failure_code)

abbrev source_version : Payload → ℕ
source_version (lifecycle f) = f.source_version
source_version (reminder f) = f.review.source_version
source_version (review_state r) = r.source_version
source_version (asset_state a) = a.source_version
source_version (schedule_change f) = f.source_version
source_version (request f) = f.source_version
source_version (attempt f) = f.source_version
source_version (outcome f) = f.source_version

abbrev author_ok : Payload → Bool
author_ok (lifecycle f) = includes f.author_id fixture_ids
author_ok (outcome f) = includes f.author_id fixture_ids
author_ok _ = true

-- The parts of `contentEventSchemas`, but for the version of the content.
abbrev facts_ok : EventType → Payload → Bool
facts_ok review_reminder_recorded (reminder f) = reminder_ok f
facts_ok created (lifecycle f) = is_draft f.status
facts_ok draft_edited (lifecycle f) = is_draft f.status
facts_ok draft_reopened (lifecycle f) = is_draft f.status
facts_ok archived (lifecycle f) = elim f.status [ ContentStatus.archived ↦ true | _ ↦ false ]
facts_ok review_requested (review_state r) = review_ok r && is_pending_review r.status
facts_ok review_decided (review_state r) = review_ok r && is_decided r.status
facts_ok review_superseded (review_state r) =
    review_ok r && elim r.status [ ReviewStatus.superseded ↦ true | _ ↦ false ]
facts_ok snapshot_applied (review_state r) = review_ok r
facts_ok asset_registered (asset_state a) = slot_ok a && is_pending_slot a.status
facts_ok asset_ready (asset_state a) = slot_ok a && is_ready_slot a.status
facts_ok asset_removed (asset_state a) =
    slot_ok a && elim a.status [ AssetStatus.removed ↦ true | _ ↦ false ]
facts_ok asset_expired (asset_state a) = slot_ok a && is_expired_slot a.status
facts_ok asset_snapshot_applied (asset_state a) = slot_ok a
facts_ok scheduled (schedule_change f) = schedule_ok f && is_scheduled f.status
facts_ok rescheduled (schedule_change f) = schedule_ok f && is_scheduled f.status
facts_ok schedule_cancelled (schedule_change f) = schedule_ok f && is_approved f.status
facts_ok publication_requested (request f) = request_ok f && f.generation == 1
facts_ok publication_retried (request f) = request_ok f && ltb 1 f.generation
facts_ok publication_claimed (attempt f) = view_ok f.attempt && is_claimed f.attempt.status
facts_ok publication_attempt_succeeded (attempt f) =
    view_ok f.attempt && is_succeeded_attempt f.attempt.status
facts_ok publication_attempt_failed (attempt f) =
    view_ok f.attempt && is_failed_attempt f.attempt.status
facts_ok publication_lease_expired (attempt f) =
    view_ok f.attempt && is_expired_attempt f.attempt.status
facts_ok publication_failed (outcome f) = outcome_ok f && not (is_published f.outcome)
facts_ok published (outcome f) = outcome_ok f && is_published f.outcome
facts_ok _ _ = false

-- contentEventSchemas
unfoldable pub payload_ok : EventType → Payload → Bool
payload_ok event_type payload =
    version_ok (source_version payload) && author_ok payload && facts_ok event_type payload

-- `fact` of resources.ts
unfoldable pub fact : EventType → Payload → Result Fact
fact event_type payload =
    if payload_ok event_type payload
    then ok (record { event_type = event_type; payload = payload })
    else err command_validation
