-- ===== src/Core/WorkRequests/Tests.antt =====
-- A work request, and the theorem on its history applied to it.
use jawstack.Base.{ok, ℕ, none, [], ◌∷◌, List, ◌≡◌, ◌+◌}
use jawstack.Core.Types.{ResourceState, Context, test}
use jawstack.Core.WorkRequests.{
  WorkRequestState, WorkRequestCommand, opened, assigns, comments_on, closes,
}
use jawstack.Core.WorkRequests.History.{Call, Creation, history, told, history-told}

abbrev row : ResourceState WorkRequestState
row = record {
  resource_type = 1;
  resource_id = 2;
  version = 1;
  state = record {
    title = 3;
    description = none;
    status = opened;
    assignee_id = none;
    updated_at = 100;
    comments = [];
  };
  created_at = 100;
  updated_at = 100;
  created_by = 4;
  updated_by = 4;
  tenant_id = none;
}

abbrev context : ℕ → Context WorkRequestState
context i = record {
  auth = record { subject = 5; display_name = none; roles = []; tenant_id = none; mode = test };
  previous = none;
  resource_id = 2;
  request_id = i;
  correlation_id = i;
  now = 100 + i;
  ids = λ n. n;
}

abbrev call : ℕ → WorkRequestCommand → Call
call i command = record { context = context i; row = row; command = command }

abbrev creation : Creation
creation = record { context = context 0; title = 3; description = none }

abbrev calls : List Call
calls =
    call 1 (comments_on 7) ∷ call 2 (assigns 8) ∷ call 3 (comments_on 9) ∷ call 4 (closes none) ∷ []

history-told_example :
    history (λ n r. n + r) (λ r. 1000 + r) creation calls
    ≡ ok (told (λ n r. n + r) (λ r. 1000 + r) creation calls)
history-told_example = history-told (λ n r. n + r) (λ r. 1000 + r) creation calls
