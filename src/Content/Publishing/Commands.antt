-- ===== src/Content/Publishing/Commands.antt =====
-- apps/content-operations/src/domain/publication-commands.ts: the decisions of the commands.
use jawstack.Base.{
  and_some, when_some, ℕ, ◌+◌, Bool, true, false, not, ◌&&◌, ◌||◌, none, some, List, [], ◌∷◌, Text,
  Instant, leb, ltb, ◌==◌, includes, Result, ◌>>=◌, ◌>>◌, require, command_rejected,
  command_validation, resource_conflict,
}
use jawstack.Content.Facts.{
  Sized, Payload, EventType, fact, schedule_change, scheduled, rescheduled, schedule_cancelled,
  publication_requested, publication_retried, publication_claimed, publication_attempt_succeeded,
  publication_attempt_failed, publication_failed, published,
}
use jawstack.Content.Publishing.{
  Stored, is_approved_status, PublicationRef, Fence, approved, current_schedule, active, fenced,
  demand, attempt_payload, request_payload, outcome_payload, closed_attempt, expire, requested,
  new_claim, new_attempt, claimed_publication, ArtifactInput, finished_attempt,
  completed_publication, is_terminal, failed_attempt, failed_publication, stalled_publication,
  retried_publication,
}
use jawstack.Content.Recovery.{publication_recovery}
use jawstack.Content.Resource.{
  editor, publisher, due_worker, collector, stored_content, new_id, finish, Decision,
}
use jawstack.Content.Schema.{publication_attempts, same_key, publication_object_key}
use jawstack.Content.Types.{
  ContentStatus, Schedule, FailureCode, Publication, ContentState, is_queued, is_running, is_failed,
  is_stalled, is_succeeded,
}
use jawstack.Core.Types.{Context}

pub record ScheduleInput : Type 0 where
  pub expected_version : ℕ
  pub review_id : Text
  pub revision_id : Text
  pub scheduled_at : Instant
  pub time_zone : Text

abbrev schedule_of : ScheduleInput → Text → Text → Schedule
schedule_of input revision_id generation = record {
  scheduled_at = input.scheduled_at;
  generation = generation;
  revision_id = revision_id;
  time_zone = input.time_zone;
}

abbrev pub with_publication : ContentState → Publication → ContentState
with_publication s p = record s { publication = some p }

-- The identifiers that the attempt of a claim must differ from.
abbrev used_ids : Stored → Publication → List Text
used_ids previous p =
    previous.resource_id
    ∷ previous.state.revision_id
    ∷ p.intent.publication_id
    ∷ elim p.claim [ none ↦ [] | some c ↦ c.fencing_token ∷ [] ]

abbrev pub is_fresh : Stored → Publication → Text → Bool
is_fresh previous p attempt_id =
    not (and_some p.last_attempt (λ a. a.claim.attempt_id == attempt_id))
    && not (includes attempt_id (used_ids previous p))

module _ (fits : Sized → Bool) (context : Context ContentState) where
  -- What `schedule` and `reschedule` share, past their own checks.
  unfoldable pub set_schedule : Stored → ScheduleInput → EventType → Result Decision
  set_schedule previous input event = do
    require (ltb context.now input.scheduled_at) command_validation
    generation ← new_id context 0 (some previous.state)
    let schedule = schedule_of input previous.state.revision_id generation
    let next = record (previous.state) {
      status = ContentStatus.scheduled;
      schedule = some schedule;
    }
    finish fits context (some previous) next event [] none (
        some (
          schedule_change (record {
            content_id = previous.resource_id;
            revision_id = next.revision_id;
            source_version = previous.version + 1;
            status = next.status;
            schedule = some schedule;
          })))

  unfoldable pub schedule : ScheduleInput → Result Decision
  unfolding set_schedule
  schedule input = do
    previous ← stored_content fits context input.expected_version editor
    approved previous input.review_id input.revision_id
    require (is_approved_status previous.state.status) command_rejected
    set_schedule previous input scheduled

  unfoldable pub reschedule : ScheduleInput → Text → Result Decision
  unfolding set_schedule
  reschedule input generation = do
    previous ← stored_content fits context input.expected_version editor
    approved previous input.review_id input.revision_id
    current_schedule previous input.revision_id generation
    set_schedule previous input rescheduled

  unfoldable pub cancel_schedule : ℕ → Text → Text → Result Decision
  cancel_schedule expected_version revision_id generation = do
    previous ← stored_content fits context expected_version editor
    current_schedule previous revision_id generation
    finish fits context (some previous)
        (record (previous.state) { status = ContentStatus.approved; schedule = none })
        schedule_cancelled [] none
        (some (
          schedule_change (record {
            content_id = previous.resource_id;
            revision_id = previous.state.revision_id;
            source_version = previous.version + 1;
            status = ContentStatus.approved;
            schedule = none;
          })))

  -- `request`
  unfoldable pub request_publication : Stored → Result Decision
  request_publication previous = do
    publication_id ← new_id context 0 (some previous.state)
    review ← demand previous.state.review
    approval ← demand previous.state.approval
    let p = requested (record {
      publication_id = publication_id;
      content_id = previous.resource_id;
      requested_at = context.now;
      snapshot = review.submitted;
      approval = approval;
      schedule = previous.state.schedule;
    })
    finish fits context (some previous)
        (record (previous.state) {
          status = ContentStatus.publishing;
          schedule = none;
          publication = some p;
        })
        publication_requested [] none (some (request_payload previous p))

  unfoldable pub publish_now : ℕ → Text → Text → Result Decision
  publish_now expected_version review_id revision_id = do
    previous ← stored_content fits context expected_version editor
    approved previous review_id revision_id
    require
        (elim previous.state.status [
          | ContentStatus.approved ↦ true
          | ContentStatus.scheduled ↦ true
          | _ ↦ false
        ])
        command_rejected
    request_publication previous

  unfoldable pub request_due_publication : ℕ → Text → Text → Result Decision
  request_due_publication expected_version revision_id generation = do
    previous ← stored_content fits context expected_version due_worker
    current_schedule previous revision_id generation
    due ← demand previous.state.schedule
    require (leb due.scheduled_at context.now) command_rejected
    request_publication previous

  unfoldable pub claim_publication : ℕ → PublicationRef → Text → Result Decision
  claim_publication expected_version ref attempt_id = do
    previous ← stored_content fits context expected_version publisher
    p ← active previous ref
    require (is_queued p.phase || is_running p.phase) command_rejected
    require (when_some p.claim (λ c. leb c.lease_until context.now)) resource_conflict
    require (ltb p.attempts_in_generation publication_attempts) command_rejected
    require (is_fresh previous p attempt_id) resource_conflict
    token ← new_id context 0 (some previous.state)
    require (not (token == attempt_id)) command_rejected
    let attempt = new_attempt context p (new_claim attempt_id token context.now)
    let next = claimed_publication p attempt
    payload ← attempt_payload previous next attempt
    expired ← expire previous p context.now
    finish fits context (some previous) (with_publication previous.state next) publication_claimed
        expired none (some payload)

  unfoldable pub complete_publication : ℕ → Fence → ArtifactInput → Result Decision
  complete_publication expected_version fence input = do
    previous ← stored_content fits context expected_version publisher
    p ← fenced previous fence context.now
    require
        (same_key input.object_key
          (publication_object_key previous.resource_id p.intent.publication_id))
        command_rejected
    last ← demand p.last_attempt
    let next = completed_publication p last input context.now
    outcome ← outcome_payload previous next
    payload ← attempt_payload previous next (finished_attempt last context.now)
    succeeded ← fact publication_attempt_succeeded payload
    finish fits context (some previous)
        (record (previous.state) { status = ContentStatus.published; publication = some next })
        published (succeeded ∷ []) none (some outcome)

  -- The end of `failPublication`, by whether the failure is terminal.
  unfoldable pub fail_finish : Stored → Publication → Bool → Payload → Result Decision
  fail_finish previous next false payload =
      finish fits context (some previous) (with_publication previous.state next)
        publication_attempt_failed [] none (some payload)
  fail_finish previous next true payload = do
    outcome ← outcome_payload previous next
    failed ← fact publication_attempt_failed payload
    finish fits context (some previous) (with_publication previous.state next) publication_failed
        (failed ∷ []) none (some outcome)

  unfoldable pub fail_publication : ℕ → Fence → FailureCode → Result Decision
  fail_publication expected_version fence code = do
    previous ← stored_content fits context expected_version publisher
    p ← fenced previous fence context.now
    last ← demand p.last_attempt
    let next = failed_publication p last code context.now
    payload ← attempt_payload previous next (failed_attempt last code context.now)
    fail_finish previous next (is_terminal p code) payload

  abbrev pub is_matching_claim : Publication → Text → Bool
  is_matching_claim p source_event_id = when_some p.claim λ c.
      and_some p.last_attempt (λ a. a.source_event_id == source_event_id)
      && leb c.lease_until context.now

  unfoldable pub reconcile_publication_failure : ℕ → PublicationRef → Text → Text → Result Decision
  reconcile_publication_failure expected_version ref failure_id source_event_id = do
    previous ← stored_content fits context expected_version collector
    p ← active previous ref
    require (not (is_failed p.phase || is_stalled p.phase || is_succeeded p.phase))
        resource_conflict
    require (is_matching_claim p source_event_id) resource_conflict
    closed ← closed_attempt p context.now
    let next =
        stalled_publication p closed
          (record { failure_id = failure_id; source_event_id = source_event_id; at = context.now })
    outcome ← outcome_payload previous next
    expired ← expire previous p context.now
    finish fits context (some previous) (with_publication previous.state next) publication_failed
        expired none (some outcome)

  unfoldable pub retry_publication : ℕ → PublicationRef → Result Decision
  retry_publication expected_version ref = do
    previous ← stored_content fits context expected_version editor
    p ← active previous ref
    let recovery = publication_recovery p context.now
    require (not recovery.live_lease) resource_conflict
    require recovery.has_recoverable_work command_rejected
    require (ltb 0 recovery.remaining_generations) command_rejected
    closed ← closed_attempt p context.now
    let next = retried_publication p closed
    expired ← expire previous p context.now
    finish fits context (some previous) (with_publication previous.state next) publication_retried
        expired none (some (request_payload previous next))
