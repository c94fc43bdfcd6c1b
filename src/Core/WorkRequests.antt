-- ===== src/Core/WorkRequests.antt =====
-- packages/core/src/index.ts: the commands of the work request resource. The two texts that are put
-- together from parts, the id of a comment and the sort key of the list, are functions of these parts.
pub mod History
mod Tests
use jawstack.Base.{
  ℕ, ◌-◌, Option, none, some, List, [], ◌∷◌, ◌++◌, Text, Instant, Result, ok, err, ◌>>=◌,
  resource_not_found,
}
use jawstack.Core.Commands.{EventDeclaration}
use jawstack.Core.Executor.{actor_from_auth}
use jawstack.Core.Types.{Actor, ResourceState, Context}

pub data WorkRequestStatus : Type 0 where
  opened in_review blocked closed : WorkRequestStatus

pub record WorkRequestComment : Type 0 where
  pub comment_id : Text
  pub body : Text
  pub author : Actor
  pub created_at : Instant

pub record WorkRequestState : Type 0 where
  pub title : Text
  pub description : Option Text
  pub status : WorkRequestStatus
  pub assignee_id : Option Text
  pub updated_at : Instant
  pub comments : List WorkRequestComment

-- The commands with their inputs.
pub data WorkRequestCommand : Type 0 where
  creates : (title : Text) (description : Option Text) → WorkRequestCommand
  assigns : (assignee_id : Text) → WorkRequestCommand
  changes_status : (status : WorkRequestStatus) → WorkRequestCommand
  comments_on : (body : Text) → WorkRequestCommand
  closes : (reason : Option Text) → WorkRequestCommand

-- The payloads of the events, all of schema version 1.
pub data WorkRequestEvent : Type 0 where
  created : (title : Text) (description : Option Text) (actor : Actor) → WorkRequestEvent
  assigned : (assignee_id : Text) → WorkRequestEvent
  status_changed : (previous_status status : WorkRequestStatus) → WorkRequestEvent
  comment_added : (comment_id body : Text) → WorkRequestEvent
  was_closed : (reason : Option Text) → WorkRequestEvent

-- The activities, each with the data or the summary that it has.
pub data WorkRequestActivity : Type 0 where
  created_with : (title : Text) → WorkRequestActivity
  assigned_to : (assignee_id : Text) → WorkRequestActivity
  status_changed_from : (previous_status status : WorkRequestStatus) → WorkRequestActivity
  comment_added_as : (comment_id : Text) → WorkRequestActivity
  closed_for : (summary : Option Text) → WorkRequestActivity

-- A row of the projection "workRequest.list".
pub record WorkRequestRow : Type 0 where
  pub item_id : Text
  pub sort : Text
  pub title : Text
  pub status : WorkRequestStatus
  pub updated_at : Instant
  pub assignee_id : Option Text

pub record WorkRequestResponse : Type 0 where
  pub resource_id : Text
  pub status : WorkRequestStatus
  pub assignee_id : Option Text
  pub comment_id : Option Text

pub record WorkRequestDecision : Type 0 where
  pub next_state : WorkRequestState
  pub activity : List WorkRequestActivity
  pub events : List WorkRequestEvent
  pub projections : List WorkRequestRow
  pub response : WorkRequestResponse

-- Number.MAX_SAFE_INTEGER
abbrev max_safe_integer : ℕ
max_safe_integer = 9007199254740991

abbrev get_previous_work_request_state :
    Option (ResourceState WorkRequestState) → Result WorkRequestState
get_previous_work_request_state none = err resource_not_found
get_previous_work_request_state (some row) = ok row.state

module _ (sort_text : ℕ → Text → Text) (comment_text : Text → Text) where
  -- The times are canonical and so finite.
  abbrev pub work_request_projection_sort : Instant → Text → Text
  work_request_projection_sort updated_at resource_id =
      sort_text (max_safe_integer - updated_at) resource_id

  abbrev pub work_request_list_projection : Text → WorkRequestState → WorkRequestRow
  work_request_list_projection resource_id state = record {
    item_id = resource_id;
    sort = work_request_projection_sort state.updated_at resource_id;
    title = state.title;
    status = state.status;
    updated_at = state.updated_at;
    assignee_id = state.assignee_id;
  }

  -- The parts that all decisions have in common.
  abbrev pub decision :
      Text
      → WorkRequestState
      → WorkRequestActivity
      → WorkRequestEvent
      → Option Text
      → Option Text
      → WorkRequestDecision
  decision resource_id next activity event assignee_id comment_id = record {
    next_state = next;
    activity = activity ∷ [];
    events = event ∷ [];
    projections = work_request_list_projection resource_id next ∷ [];
    response = record {
      resource_id = resource_id;
      status = next.status;
      assignee_id = assignee_id;
      comment_id = comment_id;
    };
  }

  module _ (context : Context WorkRequestState) where
    abbrev pub create_work_request : Text → Option Text → WorkRequestDecision
    create_work_request title description =
        decision context.resource_id
          (record {
            title = title;
            description = description;
            status = opened;
            assignee_id = none;
            updated_at = context.now;
            comments = [];
          })
          (created_with title) (created title description (actor_from_auth context.auth)) none none

    abbrev pub assign_work_request : Text → WorkRequestState → WorkRequestDecision
    assign_work_request assignee_id current =
        decision context.resource_id
          (record current { assignee_id = some assignee_id; updated_at = context.now })
          (assigned_to assignee_id) (assigned assignee_id) (some assignee_id) none

    abbrev pub change_work_request_status :
        WorkRequestStatus → WorkRequestState → WorkRequestDecision
    change_work_request_status status current =
        decision context.resource_id (record current { status = status; updated_at = context.now })
          (status_changed_from current.status status) (status_changed current.status status) none
          none

    abbrev pub new_comment : Text → WorkRequestComment
    new_comment body = record {
      comment_id = comment_text context.request_id;
      body = body;
      author = actor_from_auth context.auth;
      created_at = context.now;
    }

    abbrev pub comment_work_request : Text → WorkRequestState → WorkRequestDecision
    comment_work_request body current =
        let comment = new_comment body in
        decision context.resource_id
          (record current {
            updated_at = comment.created_at;
            comments = current.comments ++ (comment ∷ []);
          })
          (comment_added_as comment.comment_id) (comment_added comment.comment_id body) none
          (some comment.comment_id)

    abbrev pub close_work_request : Option Text → WorkRequestState → WorkRequestDecision
    close_work_request reason current =
        decision context.resource_id (record current { status = closed; updated_at = context.now })
          (closed_for reason) (was_closed reason) none none

    abbrev with_current : (WorkRequestState → WorkRequestDecision) → Result WorkRequestDecision
    with_current decide =
        get_previous_work_request_state context.previous >>= λ current. ok (decide current)

    unfoldable pub decide_work_request : WorkRequestCommand → Result WorkRequestDecision
    decide_work_request (creates title description) = ok (create_work_request title description)
    decide_work_request (assigns assignee_id) = with_current (assign_work_request assignee_id)
    decide_work_request (changes_status status) = with_current (change_work_request_status status)
    decide_work_request (comments_on body) = with_current (comment_work_request body)
    decide_work_request (closes reason) = with_current (close_work_request reason)
