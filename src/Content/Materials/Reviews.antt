-- ===== src/Content/Materials/Reviews.antt =====
-- apps/content-operations/src/domain/resources.ts: `createReviewTaskResource`.
pub mod Equal
pub mod History
use jawstack.Base.{
  ℕ, ◌+◌, Bool, true, false, not, ◌&&◌, ◌||◌, Option, none, some, List, [], ◌∷◌, ◌++◌, Text,
  Instant, ltb, leb, ◌==◌, and_some, when_some, includes, if◌then◌else◌, Result, ok, err, ◌>>=◌,
  ◌>>◌, require, auth_forbidden, command_validation, command_rejected, resource_conflict,
  resource_invalid_state,
}
use jawstack.Content.Facts.{Fact, fact, snapshot_applied, review_state}
use jawstack.Content.Projections.{moves_by}
use jawstack.Content.Resource.{ServiceIdentity, is_local, review_task}
use jawstack.Content.ReviewSchema.{is_pending_review, review_ok, same_snapshot}
use jawstack.Content.Schema.{version_ok}
use jawstack.Content.Types.{ReviewStatus, ReviewDecision, Review}
use jawstack.Core.Types.{AuthContext, ResourceState, Context}

abbrev pub review_projector_identity : ServiceIdentity
review_projector_identity = record { subject = 16; role = 16 }

-- `internal`
abbrev pub internal : ServiceIdentity → AuthContext → Result (Unit {0})
internal identity auth =
    require
      (auth.subject == identity.subject && includes identity.role auth.roles && is_local auth.mode)
      auth_forbidden

pub data TaskProjection : Type 0 where
  task_list task_pending : TaskProjection
  task_editor : Text → TaskProjection

pub record TaskRow : Type 0 where
  pub name : TaskProjection
  pub item_id : Text
  pub sort_at : Instant
  pub content_id : Text
  pub title : Text
  pub status : ReviewStatus
  pub assigned_editor_id : Text
  pub due_at : Instant
  pub source_version : ℕ
  pub delete : Bool

abbrev task_row : Review → TaskProjection → TaskRow
task_row r name = record {
  name = name;
  item_id = r.review_id;
  sort_at = r.due_at;
  content_id = r.content_id;
  title = r.submitted.title;
  status = r.status;
  assigned_editor_id = r.assigned_editor_id;
  due_at = r.due_at;
  source_version = r.source_version;
  delete = false;
}

-- reviewRows
abbrev pub review_rows : Review → List TaskRow
review_rows r =
    task_row r task_list
    ∷ task_row r (task_editor r.assigned_editor_id)
    ∷ (if is_pending_review r.status then task_row r task_pending ∷ [] else [])

abbrev same_projection : TaskProjection → TaskProjection → Bool
same_projection task_list task_list = true
same_projection task_pending task_pending = true
same_projection (task_editor a) (task_editor b) = a == b
same_projection _ _ = false

abbrev same_task_row : TaskRow → TaskRow → Bool
same_task_row a b =
    same_projection a.name b.name && a.item_id == b.item_id && a.sort_at == b.sort_at

abbrev mark_delete : TaskRow → TaskRow
mark_delete r = record r { delete = true }

-- reviewProjectionPlan
abbrev pub review_projection_plan : Option Review → Review → List TaskRow
review_projection_plan none next = moves_by same_task_row mark_delete [] (review_rows next)
review_projection_plan (some p) next =
    moves_by same_task_row mark_delete (review_rows p) (review_rows next)

pub record TaskDecision : Type 0 where
  pub next_state : Review
  pub events : List Fact
  pub projections : List TaskRow
  pub source_version : ℕ

-- `isDeepStrictEqual` on the parts of a review
abbrev pub status_number : ReviewStatus → ℕ
status_number ReviewStatus.pending = 0
status_number ReviewStatus.approved = 1
status_number ReviewStatus.changes_requested = 2
status_number ReviewStatus.superseded = 3

abbrev pub same_text_option : Option Text → Option Text → Bool
same_text_option none none = true
same_text_option (some a) (some b) = a == b
same_text_option _ _ = false

abbrev pub same_decision : Option ReviewDecision → Option ReviewDecision → Bool
same_decision none none = true
same_decision (some a) (some b) =
    a.actor_id == b.actor_id && a.at == b.at && same_text_option a.note b.note
same_decision _ _ = false

-- The requirements on a snapshot after an earlier one, in their order.
abbrev pub is_newer : Review → Review → Bool
is_newer previous snapshot = ltb previous.source_version snapshot.source_version

abbrev pub same_submission : Review → Review → Bool
same_submission previous snapshot =
    previous.content_id == snapshot.content_id
    && previous.assigned_editor_id == snapshot.assigned_editor_id
    && previous.due_at == snapshot.due_at
    && same_snapshot previous.submitted snapshot.submitted

abbrev pub keeps_reminder : Review → Review → Bool
keeps_reminder previous snapshot =
    when_some previous.last_reminder_day (λ d. and_some snapshot.last_reminder_day (λ e. leb d e))

abbrev pub keeps_outcome : Review → Review → Bool
keeps_outcome previous snapshot =
    is_pending_review previous.status
    || status_number previous.status == status_number snapshot.status
      && same_decision previous.decision snapshot.decision
      && same_text_option previous.last_reminder_day snapshot.last_reminder_day

-- They hold all four.
abbrev pub follows : Review → Review → Bool
follows previous snapshot =
    is_newer previous snapshot
    && same_submission previous snapshot
    && keeps_reminder previous snapshot
    && keeps_outcome previous snapshot

abbrev pub stored_review_ok : Context Review → ResourceState Review → Bool
stored_review_ok context p =
    review_ok p.state
    && p.state.review_id == context.resource_id
    && p.resource_type == review_task
    && p.resource_id == context.resource_id
    && version_ok p.version

abbrev pub is_expected : Option ℕ → ℕ → Bool
is_expected none version = false
is_expected (some v) version = version == v

-- The checks of the stored review.
abbrev pub check_previous :
    Context Review → Option (ResourceState Review) → Review → Option ℕ → Result (Option Review)
check_previous context none snapshot expected_version = ok none
check_previous context (some p) snapshot expected_version = do
  require (stored_review_ok context p) resource_invalid_state
  require (is_expected expected_version p.version) resource_conflict
  require (is_newer p.state snapshot) command_rejected
  require (same_submission p.state snapshot) command_rejected
  require (keeps_reminder p.state snapshot) command_rejected
  require (keeps_outcome p.state snapshot) command_rejected
  ok (some p.state)

-- `decide`; the byte budget of a stored review is left out.
unfoldable pub decide_review_task : Context Review → Review → Option ℕ → Result TaskDecision
decide_review_task context snapshot expected_version = do
  internal review_projector_identity context.auth
  require (context.resource_id == snapshot.review_id) command_validation
  previous ← check_previous context context.previous snapshot expected_version
  event ← fact snapshot_applied (review_state snapshot)
  ok (record {
    next_state = snapshot;
    events = event ∷ [];
    projections = review_projection_plan previous snapshot;
    source_version = snapshot.source_version;
  })

-- `isDeepStrictEqual` on two reviews
abbrev pub same_review : Review → Review → Bool
same_review a b =
    a.review_id == b.review_id
    && a.content_id == b.content_id
    && a.assigned_editor_id == b.assigned_editor_id
    && a.due_at == b.due_at
    && same_text_option a.last_reminder_day b.last_reminder_day
    && same_snapshot a.submitted b.submitted
    && status_number a.status == status_number b.status
    && a.source_version == b.source_version
    && same_decision a.decision b.decision
