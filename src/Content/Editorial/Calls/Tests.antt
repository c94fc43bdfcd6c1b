-- ===== src/Content/Editorial/Calls/Tests.antt =====
-- A content item in review that is approved and published, and the theorems on the editorial state
-- machine of apps/content-operations/src/domain/resources.ts applied to it.
use jawstack.Base.{
  ◌∙◌, arith, some-inj, inr, sym, ap, inl, ◌+◌, Bool, true, none, some, List, [], ◌∷◌, Instant, ◌≡◌,
  refl,
}
use jawstack.Content.Editorial.{Changed}
use jawstack.Content.Editorial.Calls.{
  reads, row_after, Call, decides_review, publishes_now, run, never_draft, decide_call,
  decide_call-Changed,
}
use jawstack.Content.Editorial.Calls.Frozen.{archived_is_final}
use jawstack.Content.Editorial.Calls.Projected.{review_task_converges, Occurs}
use jawstack.Content.Editorial.Calls.Published.{shows, published_as_approved}
use jawstack.Content.Facts.{Sized, fact, payload_ok}
use jawstack.Content.Lifecycle.{ReviewRef, approves, decide_review}
use jawstack.Content.Materials.Worker.{Request, deliver_reviews, TaskState}
use jawstack.Content.Projections.{content_projection_plan, content_rows, moves, same_row}
use jawstack.Content.Publishing.{Stored, requested, approved}
use jawstack.Content.Publishing.Accepts.{accepted, accepted-ok}
use jawstack.Content.Publishing.Commands.{publish_now, request_publication}
use jawstack.Content.Resource.{stored_content, identity_for, stored_ok, actor, finish, new_id}
use jawstack.Content.ReviewSchema.{review_ok, same_attachments, ready_attachments, sort_attachments}
use jawstack.Content.Schema.{
  publication_ok, intent_ok, stalled_check, phase_check, lifecycle_check, count_check,
  current_check, claim_check, unclaimed_check, failed_check, terminal_check, artifact_check,
}
use jawstack.Content.StateSchema.{
  content_ok, slots_check, review_check, signoff_check, snapshot_check, approval_check,
  schedule_check, publication_check,
}
use jawstack.Content.Types.{
  ContentStatus, ReviewStatus, Snapshot, Review, Publication, ContentState,
}
use jawstack.Core.Types.{AuthMode, Context}

abbrev snapshot : Snapshot
snapshot = record {
  content_id = 100;
  revision_id = 101;
  author_id = 1;
  title = 5;
  body = 6;
  attachments = [];
  submitted_at = 1000;
}

abbrev review : Review
review = record {
  review_id = 102;
  content_id = 100;
  assigned_editor_id = 3;
  due_at = 172801000;
  last_reminder_day = none;
  submitted = snapshot;
  status = ReviewStatus.pending;
  source_version = 3;
  decision = none;
}

abbrev content : ContentState
content = record {
  content_id = 100;
  author_id = 1;
  title = 5;
  body = 6;
  revision_id = 101;
  status = ContentStatus.in_review;
  attachments = [];
  review = some review;
  approval = none;
  schedule = none;
  publication = none;
}

abbrev row : Stored
row = record {
  resource_type = 1;
  resource_id = 100;
  version = 3;
  state = content;
  created_at = 500;
  updated_at = 1000;
  created_by = 1;
  updated_by = 1;
  tenant_id = none;
}

abbrev editor_at : Instant → Context ContentState
editor_at now = record {
  auth = record {
    subject = 3;
    display_name = none;
    roles = 2 ∷ [];
    tenant_id = none;
    mode = AuthMode.dev;
  };
  previous = some row;
  resource_id = 100;
  request_id = 900;
  correlation_id = 901;
  now = now;
  ids = λ i. 200 + i;
}

abbrev fits : Sized → Bool
fits s = true

abbrev the_review : ReviewRef
the_review = record { review_id = 102; revision_id = 101 }

abbrev approval_call : Call
approval_call = decides_review approves 3 the_review 7

abbrev calls : List (Context ContentState × Call)
calls = (editor_at 2000, approval_call) ∷ (editor_at 3000, publishes_now 4 102 101) ∷ []

abbrev intended : Publication
intended = requested (record {
  publication_id = 200;
  content_id = 100;
  requested_at = 3000;
  snapshot = snapshot;
  approval = record { review_id = 102; revision_id = 101; approved_by = 3; approved_at = 2000 };
  schedule = none;
})

content-content_ok : content_ok content ≡ true
unfolding content_ok review_ok slots_check review_check signoff_check snapshot_check
    same_attachments ready_attachments sort_attachments approval_check publication_check
    schedule_check
content-content_ok = refl

approval_accepted : accepted (decide_call fits (editor_at 2000) approval_call) ≡ true
unfolding decide_call decide_review stored_content identity_for stored_ok content_ok review_ok
    slots_check review_check signoff_check snapshot_check same_attachments ready_attachments
    sort_attachments approval_check publication_check schedule_check actor fact payload_ok
    content_projection_plan content_rows moves same_row finish
approval_accepted = refl

calls-never_draft : never_draft fits row calls ≡ true
unfolding never_draft decide_review publish_now request_publication approved stored_content
    identity_for stored_ok content_ok review_ok publication_ok intent_ok stalled_check phase_check
    lifecycle_check count_check current_check claim_check unclaimed_check failed_check
    terminal_check artifact_check slots_check review_check signoff_check snapshot_check
    same_attachments ready_attachments sort_attachments approval_check publication_check
    schedule_check actor fact payload_ok content_projection_plan content_rows moves same_row finish
    new_id
calls-never_draft = refl

calls-published : (run fits row calls).state.publication ≡ some intended
unfolding run decide_review publish_now request_publication approved stored_content identity_for
    stored_ok content_ok review_ok publication_ok intent_ok stalled_check phase_check
    lifecycle_check count_check current_check claim_check unclaimed_check failed_check
    terminal_check artifact_check slots_check review_check signoff_check snapshot_check
    same_attachments ready_attachments sort_attachments approval_check publication_check
    schedule_check actor fact payload_ok content_projection_plan content_rows moves same_row finish
    new_id
calls-published = refl

decide_call-Changed_example :
    Changed
      (editor_at 2000)
      (accepted-ok (decide_call fits (editor_at 2000) approval_call) approval_accepted).0
decide_call-Changed_example =
    decide_call-Changed fits (editor_at 2000) approval_call
      (accepted-ok (decide_call fits (editor_at 2000) approval_call) approval_accepted).1

published_as_approved_example : shows intended content ≡ true
published_as_approved_example =
    published_as_approved fits row intended calls content-content_ok calls-never_draft
      calls-published

abbrev archived_row : Stored
archived_row = record row { state = record content { status = ContentStatus.archived } }

archived_is_final_example : run fits archived_row calls ≡ archived_row
archived_is_final_example = archived_is_final fits archived_row calls refl

-- The review after its approval.
abbrev approved_review : Review
approved_review = record review {
  status = ReviewStatus.approved;
  source_version = 4;
  decision = some (record { actor_id = 3; at = 2000; note = some 7 });
}

abbrev one_call : List (Context ContentState × Call)
one_call = (editor_at 2000, approval_call) ∷ []

approval-review :
    (row_after fits row
      (decide_call fits (reads fits (editor_at 2000) row) approval_call)).state.review
    ≡ some approved_review
unfolding decide_call decide_review stored_content identity_for stored_ok content_ok review_ok
    slots_check review_check signoff_check snapshot_check same_attachments ready_attachments
    sort_attachments approval_check publication_check schedule_check actor fact payload_ok
    content_projection_plan content_rows moves same_row finish
approval-review = refl

one_review : (r : Review) → Occurs fits row one_call r → r.review_id ≡ 102
one_review r (inl here) = ap (λ (x : Review). x.review_id) (sym (some-inj here))
one_review r (inr there) =
    ap (λ (x : Review). x.review_id) (sym (some-inj (sym approval-review ∙ there)))

abbrev sent : Request
sent = record { event_id = 300; correlation_id = 301; now = 5000; ids = λ i. 400 + i }

-- The approval comes before the request, which comes twice.
review_task_converges_example :
    (after : TaskState) × (deliver_reviews none
        ((sent, approved_review) ∷ (sent, review) ∷ (sent, review) ∷ [])
      ≡ some after)
    × (after.state ≡ approved_review)
review_task_converges_example =
    review_task_converges fits 102 row one_call sent approved_review
      ((sent, review) ∷ (sent, review) ∷ []) content-content_ok one_review (inr approval-review)
      (inl refl, (inl refl, tt)) (omega arith)
