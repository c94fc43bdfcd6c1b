-- ===== src/Content/Materials/Worker.antt =====
-- apps/content-operations/src/application/workers.ts: `materialize`, for reviews.
pub mod Converges
use jawstack.Base.{
  ℕ, suc, zero, ◌+◌, Bool, true, false, not, ◌&&◌, Option, none, some, List, [], ◌∷◌, Text, Instant,
  ltb, leb, ◌==◌, take, if◌then◌else◌, Result, ok, err, ◌>>=◌, ◌>>◌, require, RuntimeErrorCode,
  resource_conflict, resource_not_found, resource_invalid_state,
}
use jawstack.Content.Materials.Reviews.{
  review_projector_identity, decide_review_task, TaskDecision, same_review,
}
use jawstack.Content.Resource.{review_task}
use jawstack.Content.ReviewSchema.{review_ok}
use jawstack.Content.Schema.{version_ok}
use jawstack.Content.Types.{Review}
use jawstack.Core.Types.{AuthMode, AuthContext, ResourceState, Context}

abbrev pub TaskState : Type 0
TaskState = ResourceState Review

pub data Outcome : Type 0 where
  applied : TaskState → Outcome
  ignored : Outcome

-- How an attempt ends: for good, or in a conflict after which the worker reads again.
pub data Attempt : Type 0 where
  ends : Result Outcome → Attempt
  again : Attempt

-- What the worker's commands are sent with.
pub record Request : Type 0 where
  pub event_id : Text
  pub correlation_id : Text
  pub now : Instant
  pub ids : ℕ → Text

abbrev projector_auth : AuthContext
projector_auth = record {
  subject = review_projector_identity.subject;
  display_name = none;
  roles = review_projector_identity.role ∷ [];
  tenant_id = none;
  mode = AuthMode.dev;
}

abbrev pub worker_context : Request → Review → Option TaskState → Context Review
worker_context request snapshot previous = record {
  auth = projector_auth;
  previous = previous;
  resource_id = snapshot.review_id;
  request_id = request.event_id;
  correlation_id = request.correlation_id;
  now = request.now;
  ids = request.ids;
}

-- The row that the executor writes.
abbrev pub written_row : Request → Review → Option TaskState → TaskState
written_row request snapshot none = record {
  resource_type = review_task;
  resource_id = snapshot.review_id;
  version = 1;
  state = snapshot;
  created_at = request.now;
  updated_at = request.now;
  created_by = review_projector_identity.subject;
  updated_by = review_projector_identity.subject;
  tenant_id = none;
}
written_row request snapshot (some p) = record p {
  version = p.version + 1;
  state = snapshot;
  updated_at = request.now;
  updated_by = review_projector_identity.subject;
}

-- `dispatch` of "createSnapshot" or "applySnapshot", by the row that the worker has read. `found` is the
-- row that the executor finds.
unfoldable pub dispatch : Request → Review → Option TaskState → Option TaskState → Result TaskState
dispatch request snapshot none (some found) = err resource_conflict
dispatch request snapshot none none = do
  d ← decide_review_task (worker_context request snapshot none) snapshot none
  ok (written_row request d.next_state none)
dispatch request snapshot (some read) none = err resource_not_found
dispatch request snapshot (some read) (some found) = do
  d ← decide_review_task (worker_context request snapshot (some found)) snapshot (some read.version)
  ok (written_row request d.next_state (some found))

abbrev pub after_dispatch : Result TaskState → Attempt
after_dispatch (ok row) = ends (ok (applied row))
after_dispatch (err resource_conflict) = again
after_dispatch (err code) = ends (err code)

abbrev pub read_ok : Review → TaskState → Bool
read_ok snapshot p =
    review_ok p.state
    && p.resource_type == review_task
    && p.resource_id == snapshot.review_id
    && version_ok p.version
    && p.state.review_id == snapshot.review_id

unfoldable pub attempt : Request → Review → Option TaskState → Option TaskState → Attempt
unfolding dispatch
attempt request snapshot none found = after_dispatch (dispatch request snapshot none found)
attempt request snapshot (some read) found =
    if not (read_ok snapshot read)
    then ends (err resource_invalid_state)
    else if ltb snapshot.source_version read.state.source_version
    then ends (ok ignored)
    else if read.state.source_version == snapshot.source_version
    then ends (if same_review read.state snapshot then ok ignored else err resource_conflict)
    else after_dispatch (dispatch request snapshot (some read) found)

abbrev pub next_of : Result Outcome → Attempt → Result Outcome
next_of later (ends r) = r
next_of later again = later

-- `materialize`: each view is the row that an attempt reads and the one that its command finds. The
-- idempotency key of a command names the version that was read, which an accepted command ends.
abbrev pub attempts : Request → Review → List (Option TaskState × Option TaskState) → Result Outcome
attempts request snapshot [] = err resource_conflict
attempts request snapshot ((read, found) ∷ views) =
    next_of (attempts request snapshot views) (attempt request snapshot read found)

unfoldable pub materialize_review :
    Request → Review → List (Option TaskState × Option TaskState) → Result Outcome
unfolding attempt
materialize_review request snapshot views = attempts request snapshot (take 3 views)

-- A delivery that no other writer disturbs.
abbrev pub undisturbed : Option TaskState → List (Option TaskState × Option TaskState)
undisturbed row = (row, row) ∷ (row, row) ∷ (row, row) ∷ []

abbrev pub row_after : Option TaskState → Result Outcome → Option TaskState
row_after row (ok (applied p)) = some p
row_after row (ok ignored) = row
row_after row (err code) = row

unfoldable pub deliver_reviews : Option TaskState → List (Request × Review) → Option TaskState
unfolding materialize_review
deliver_reviews row [] = row
deliver_reviews row ((request, snapshot) ∷ rest) =
    deliver_reviews (row_after row (materialize_review request snapshot (undisturbed row))) rest
