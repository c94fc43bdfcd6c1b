-- ===== src/Content/Lifecycle.antt =====
-- apps/content-operations/src/domain/resources.ts: the commands of a draft and of its review.
pub mod Assets
use jawstack.Base.{
  ℕ, ◌+◌, Bool, true, false, not, ◌&&◌, ◌||◌, Option, none, some, List, [], ◌∷◌, Text, Instant, ltb,
  leb, ◌==◌, any, and_some, when_some, if◌then◌else◌, Result, ok, err, ◌>>=◌, ◌>>◌, require,
  command_rejected, command_validation, resource_conflict, runtime_internal,
}
use jawstack.Content.Facts.{
  Sized, created, draft_edited, review_requested, review_reminder_recorded, review_decided,
  draft_reopened, archived, reminder,
}
use jawstack.Content.Publishing.{Stored, demand}
use jawstack.Content.Resource.{
  owner_or_editor, editor, due_worker, actor, stored_content, new_id, finish, Decision, supersede,
}
use jawstack.Content.ReviewSchema.{
  day, is_pending_slot, is_pending_review, review_ok, ready_attachments,
}
use jawstack.Content.StateSchema.{is_draft, is_in_review}
use jawstack.Content.Types.{ContentStatus, ReviewStatus, Review, Approval, ContentState}
use jawstack.Core.Types.{Context}

pub record TextInput : Type 0 where
  pub title : Text
  pub body : Text

pub record SubmitInput : Type 0 where
  pub expected_version : ℕ
  pub assigned_editor_id : Text
  pub due_at : Instant

pub record ReviewRef : Type 0 where
  pub review_id : Text
  pub revision_id : Text

-- Which of the two commands that end a review: "approve" or "requestChanges".
pub data Verdict : Type 0 where
  approves returns : Verdict

abbrev pub draft_of : Text → Text → TextInput → Text → ContentState
draft_of content_id author_id input revision_id = record {
  content_id = content_id;
  author_id = author_id;
  title = input.title;
  body = input.body;
  revision_id = revision_id;
  status = ContentStatus.draft;
  attachments = [];
  review = none;
  approval = none;
  schedule = none;
  publication = none;
}

abbrev pub edited : ContentState → TextInput → Text → ContentState
edited s input revision_id = record s {
  title = input.title;
  body = input.body;
  revision_id = revision_id;
}

abbrev pub is_changed : ContentState → TextInput → Bool
is_changed s input = not (s.title == input.title) || not (s.body == input.body)

abbrev pub submission : Stored → SubmitInput → Text → Text → Instant → Review
submission previous input content_id review_id now = record {
  review_id = review_id;
  content_id = content_id;
  assigned_editor_id = input.assigned_editor_id;
  due_at = input.due_at;
  last_reminder_day = none;
  submitted = record {
    content_id = content_id;
    revision_id = previous.state.revision_id;
    author_id = previous.state.author_id;
    title = previous.state.title;
    body = previous.state.body;
    attachments = ready_attachments previous.state.attachments;
    submitted_at = now;
  };
  status = ReviewStatus.pending;
  source_version = previous.version + 1;
  decision = none;
}

abbrev pub status_after : Verdict → ContentStatus
status_after approves = ContentStatus.approved
status_after returns = ContentStatus.draft

abbrev pub outcome_of : Verdict → ReviewStatus
outcome_of approves = ReviewStatus.approved
outcome_of returns = ReviewStatus.changes_requested

abbrev pub decided : Stored → Review → Verdict → Text → Instant → Text → Review
decided previous current verdict subject at note = record current {
  status = outcome_of verdict;
  source_version = previous.version + 1;
  decision = some (record { actor_id = subject; at = at; note = some note });
}

abbrev pub approval_by : Verdict → Stored → Review → Text → Instant → Option Approval
approval_by approves previous current subject at = some (record {
  review_id = current.review_id;
  revision_id = previous.state.revision_id;
  approved_by = subject;
  approved_at = at;
})
approval_by returns previous current subject at = none

-- `["inReview", "approved", "scheduled"].includes(…)`
abbrev pub may_reopen : ContentStatus → Bool
may_reopen ContentStatus.in_review = true
may_reopen ContentStatus.approved = true
may_reopen ContentStatus.scheduled = true
may_reopen _ = false

abbrev pub may_archive : ContentStatus → Bool
may_archive ContentStatus.publishing = false
may_archive ContentStatus.archived = false
may_archive _ = true

abbrev pub names_review : ContentState → Review → ReviewRef → Bool
names_review s r ref = r.review_id == ref.review_id && s.revision_id == ref.revision_id

abbrev pub reminder_due : Review → Instant → Bool
reminder_due r now = leb r.due_at now && when_some r.last_reminder_day (λ d. ltb d (day now))

-- A review that is missing and one that is not pending are refused alike.
abbrev pub pending_review : Stored → Result Review
pending_review previous = elim previous.state.review [
  | none ↦ err command_rejected
  | some r ↦
      require (is_in_review previous.state.status && is_pending_review r.status) command_rejected
      >> ok r
]

module _ (fits : Sized → Bool) (context : Context ContentState) where
  unfoldable pub create : TextInput → Result Decision
  create input = do
    identity ← actor context.auth
    revision_id ← new_id context 0 none
    finish fits context none (draft_of context.resource_id identity.subject input revision_id)
        created [] none none

  -- The revision of an edit: a new one if the text has changed.
  abbrev pub revision_for : ContentState → TextInput → Result Text
  revision_for s input = if is_changed s input then new_id context 0 (some s) else ok s.revision_id

  unfoldable pub edit_draft : ℕ → TextInput → Result Decision
  edit_draft expected_version input = do
    previous ← stored_content fits context expected_version owner_or_editor
    require (is_draft previous.state.status) command_rejected
    revision_id ← revision_for previous.state input
    finish fits context (some previous) (edited previous.state input revision_id) draft_edited []
        none none

  unfoldable pub submit : SubmitInput → Result Decision
  submit input = do
    previous ← stored_content fits context input.expected_version owner_or_editor
    require (is_draft previous.state.status) command_rejected
    require (not (any (λ slot. is_pending_slot slot.status) previous.state.attachments))
        command_rejected
    require (ltb context.now input.due_at) command_validation
    review_id ← new_id context 0 (some previous.state)
    let review = submission previous input context.resource_id review_id context.now
    require (review_ok review) command_validation
    finish fits context (some previous)
        (record (previous.state) { status = ContentStatus.in_review; review = some review })
        review_requested [] none none

  unfoldable pub record_review_reminder : ℕ → ReviewRef → Result Decision
  record_review_reminder expected_version ref = do
    previous ← stored_content fits context expected_version due_worker
    current ← pending_review previous
    require (names_review previous.state current ref) resource_conflict
    require (reminder_due current context.now) command_rejected
    let review = record current {
      last_reminder_day = some (day context.now);
      source_version = previous.version + 1;
    }
    finish fits context (some previous) (record (previous.state) { review = some review })
        review_reminder_recorded [] none
        (some (
          reminder (record {
            content_id = context.resource_id;
            review_id = review.review_id;
            review = review;
            reminded_at = context.now;
          })))

  -- `approve` and `requestChanges`
  unfoldable pub decide_review : Verdict → ℕ → ReviewRef → Text → Result Decision
  decide_review verdict expected_version ref note = do
    previous ← stored_content fits context expected_version editor
    current ← pending_review previous
    require (names_review previous.state current ref) resource_conflict
    identity ← actor context.auth
    finish fits context (some previous)
        (record (previous.state) {
          status = status_after verdict;
          review = some (decided previous current verdict identity.subject context.now note);
          approval = approval_by verdict previous current identity.subject context.now;
        })
        review_decided [] none none

  unfoldable pub reopen_draft : ℕ → Result Decision
  reopen_draft expected_version = do
    previous ← stored_content fits context expected_version owner_or_editor
    require (may_reopen previous.state.status) command_rejected
    closed ← supersede context previous
    revision_id ← new_id context 0 (some previous.state)
    finish fits context (some previous)
        (record (previous.state) {
          status = ContentStatus.draft;
          revision_id = revision_id;
          review = closed.review;
          approval = none;
          schedule = none;
        })
        draft_reopened closed.facts none none

  unfoldable pub archive : ℕ → Result Decision
  archive expected_version = do
    previous ← stored_content fits context expected_version editor
    require (may_archive previous.state.status) command_rejected
    closed ← supersede context previous
    finish fits context (some previous)
        (record (previous.state) {
          status = ContentStatus.archived;
          review = closed.review;
          schedule = none;
        })
        archived closed.facts none none
