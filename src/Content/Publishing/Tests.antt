-- ===== src/Content/Publishing/Tests.antt =====
-- A publication in progress, and each theorem of publication-commands.ts applied to it.
use jawstack.Base.{
  sym, ap, ◌∙◌, ℕ, Bool, true, Option, none, some, [], ◌∷◌, Text, Instant, ◌≡◌, refl, ◌≤◌, ◌+◌, ok,
  err, Result, arith, resource_conflict,
}
use jawstack.Content.Facts.{Sized, fact, payload_ok, publication_attempt_view}
use jawstack.Content.Projections.{content_projection_plan, content_rows, moves, same_row}
use jawstack.Content.Publishing.{
  Stored, PublicationRef, Fence, ArtifactInput, requested, active, expire, claimed_publication,
  new_attempt, new_claim,
}
use jawstack.Content.Publishing.Accepts.{accepted, accepted-ok}
use jawstack.Content.Publishing.Commands.{
  claim_publication, complete_publication, fail_publication, retry_publication,
}
use jawstack.Content.Publishing.Cycle.{Transition-publication_ok}
use jawstack.Content.Publishing.Grants.{claim-granted}
use jawstack.Content.Publishing.Leases.{too_late, claims_exclusive, only_claimant}
use jawstack.Content.Publishing.Retry.{retry-eligible}
use jawstack.Content.Publishing.Runs.{claims_bounded, granted, decide, decide-Moved, claim_with}
use jawstack.Content.Publishing.Transitions.{Moved, claim, claims}
use jawstack.Content.Recovery.{publication_recovery}
use jawstack.Content.Resource.{
  Decision, stored_content, identity_for, stored_ok, actor, finish, new_id, service_actor,
  publisher, editor,
}
use jawstack.Content.ReviewSchema.{
  review_ok, slot_ok, same_attachments, ready_attachments, sort_attachments,
}
use jawstack.Content.Schema.{
  publication_ok, intent_ok, claim_ok, attempt_ok, artifact_ok, stalled_check, phase_check,
  lifecycle_check, count_check, current_check, claim_check, unclaimed_check, failed_check,
  terminal_check, artifact_check,
}
use jawstack.Content.StateSchema.{
  content_ok, slots_check, review_check, signoff_check, snapshot_check, approval_check,
  schedule_check, publication_check,
}
use jawstack.Content.Types.{
  ContentStatus, ReviewStatus, Snapshot, Review, Approval, Intent, Publication, ContentState,
  FailureCode,
}
use jawstack.Core.Types.{AuthMode, AuthContext, Context}

abbrev snapshot : Snapshot
snapshot = record {
  content_id = 100;
  revision_id = 101;
  author_id = 1;
  title = 5;
  body = 6;
  attachments = [];
  submitted_at = 1000;
}

abbrev review : Review
review = record {
  review_id = 102;
  content_id = 100;
  assigned_editor_id = 3;
  due_at = 172801000;
  last_reminder_day = none;
  submitted = snapshot;
  status = ReviewStatus.approved;
  source_version = 3;
  decision = some (record { actor_id = 3; at = 2000; note = some 7 });
}

abbrev approval : Approval
approval = record { review_id = 102; revision_id = 101; approved_by = 3; approved_at = 2000 }

abbrev intent : Intent
intent = record {
  publication_id = 103;
  content_id = 100;
  requested_at = 3000;
  snapshot = snapshot;
  approval = approval;
  schedule = none;
}

abbrev queued : Publication
queued = requested intent

abbrev content : ContentState
content = record {
  content_id = 100;
  author_id = 1;
  title = 5;
  body = 6;
  revision_id = 101;
  status = ContentStatus.publishing;
  attachments = [];
  review = some review;
  approval = some approval;
  schedule = none;
  publication = some queued;
}

abbrev row : ContentState → ℕ → Stored
row s version = record {
  resource_type = 1;
  resource_id = 100;
  version = version;
  state = s;
  created_at = 500;
  updated_at = 3000;
  created_by = 1;
  updated_by = 3;
  tenant_id = none;
}

abbrev service : Text → AuthContext
service n = record {
  subject = n;
  display_name = none;
  roles = n ∷ [];
  tenant_id = none;
  mode = AuthMode.dev;
}

abbrev publisher_at : ContentState → ℕ → Instant → Text → Context ContentState
publisher_at s version now token = record {
  auth = service 13;
  previous = some (row s version);
  resource_id = 100;
  request_id = 900;
  correlation_id = 901;
  now = now;
  ids = λ i. token;
}

abbrev fits : Sized → Bool
fits s = true

abbrev generation_1 : PublicationRef
generation_1 = record { publication_id = 103; generation = 1 }

-- The first claim, at 4 s.
-- The first claim, at 4 s.
abbrev decision_of : Result Decision → Option Decision
decision_of (ok d) = some d
decision_of (err e) = none

-- The first claim, at 4 s.
abbrev first : Context ContentState
first = publisher_at content 4 4000 201

abbrev running : Publication
running = claimed_publication queued (new_attempt first queued (new_claim 200 201 4000))

abbrev claimed_content : ContentState
claimed_content = record content { publication = some running }

first_claim : accepted (claim_publication fits first 4 generation_1 200) ≡ true
unfolding claim_publication stored_content identity_for stored_ok content_ok review_ok
    publication_ok intent_ok stalled_check phase_check lifecycle_check count_check current_check
    claim_check unclaimed_check failed_check terminal_check artifact_check slots_check review_check
    signoff_check snapshot_check same_attachments ready_attachments slot_ok sort_attachments
    artifact_ok attempt_ok claim_ok approval_check publication_check schedule_check actor
    service_actor fact payload_ok publication_attempt_view content_projection_plan content_rows
    moves same_row active expire finish new_id
first_claim = refl

abbrev claimed_state : Result Decision → ContentState
claimed_state (ok d) = d.next_state
claimed_state (err e) = content

first_state : claimed_state (claim_publication fits first 4 generation_1 200) ≡ claimed_content
unfolding claim_publication stored_content identity_for stored_ok content_ok review_ok
    publication_ok intent_ok stalled_check phase_check lifecycle_check count_check current_check
    claim_check unclaimed_check failed_check terminal_check artifact_check slots_check review_check
    signoff_check snapshot_check same_attachments ready_attachments slot_ok sort_attachments
    artifact_ok attempt_ok claim_ok approval_check publication_check schedule_check actor
    service_actor fact payload_ok publication_attempt_view content_projection_plan content_rows
    moves same_row active expire finish new_id
first_state = refl

-- The second claim, at the end of the first one's lease.
abbrev second : Context ContentState
second = publisher_at claimed_content 5 94000 203

second_claim : accepted (claim_publication fits second 5 generation_1 202) ≡ true
unfolding claim_publication stored_content identity_for stored_ok content_ok review_ok
    publication_ok intent_ok stalled_check phase_check lifecycle_check count_check current_check
    claim_check unclaimed_check failed_check terminal_check artifact_check slots_check review_check
    signoff_check snapshot_check same_attachments ready_attachments slot_ok sort_attachments
    artifact_ok attempt_ok claim_ok approval_check publication_check schedule_check actor
    service_actor fact payload_ok publication_attempt_view content_projection_plan content_rows
    moves same_row active expire finish new_id
second_claim = refl

queued-publication_ok : publication_ok queued ≡ true
unfolding publication_ok intent_ok stalled_check phase_check lifecycle_check count_check
    current_check claim_check unclaimed_check failed_check terminal_check artifact_check
queued-publication_ok = refl

claims_bounded_example :
    0 + granted fits (row content 4) ((first, claim_with 4 generation_1 200) ∷ []) ≤ 12
claims_bounded_example =
    claims_bounded fits (row content 4) queued ((first, claim_with 4 generation_1 200) ∷ []) refl
      queued-publication_ok

claims_exclusive_example : 4000 + 90000 ≤ 94000
claims_exclusive_example =
    let d1 = accepted-ok (claim_publication fits first 4 generation_1 200) first_claim in
    let d2 = accepted-ok (claim_publication fits second 5 generation_1 202) second_claim in
    claims_exclusive fits first second 4 5 generation_1 generation_1 200 202 (row claimed_content 5)
      d1.1 refl (sym first_state ∙ ap claimed_state d1.1) d2.1

Transition-publication_ok_example : publication_ok running ≡ true
Transition-publication_ok_example =
    Transition-publication_ok {context = first} {p = queued}
      (claims 200 201 refl refl (ground arith) refl) refl (ground arith) queued-publication_ok

decide-Moved_example :
    Moved first claim generation_1
      (accepted-ok (claim_publication fits first 4 generation_1 200) first_claim).0
unfolding decide
decide-Moved_example =
    decide-Moved fits first (claim_with 4 generation_1 200)
      (accepted-ok (claim_publication fits first 4 generation_1 200) first_claim).1

second_load : stored_content fits second 5 publisher ≡ ok (row claimed_content 5)
unfolding stored_content identity_for stored_ok content_ok review_ok publication_ok intent_ok
    stalled_check phase_check lifecycle_check count_check current_check claim_check unclaimed_check
    failed_check terminal_check artifact_check slots_check review_check signoff_check snapshot_check
    same_attachments ready_attachments slot_ok sort_attachments artifact_ok attempt_ok claim_ok
    approval_check publication_check schedule_check actor service_actor
second_load = refl

second_active : active (row claimed_content 5) generation_1 ≡ ok running
unfolding active
second_active = refl

-- The first worker, after its lease.
abbrev late : Fence
late = record { target = generation_1; attempt_id = 200; fencing_token = 201 }

only_claimant_example :
    ((input : ArtifactInput)
      → complete_publication fits second 5 late input ≡ err resource_conflict)
    × ((code : FailureCode) → fail_publication fits second 5 late code ≡ err resource_conflict)
only_claimant_example =
    let d = accepted-ok (claim_publication fits first 4 generation_1 200) first_claim in
    only_claimant fits first second 4 5 generation_1 200 late (row claimed_content 5) d.1
      second_load (sym first_state ∙ ap claimed_state d.1) (too_late (omega arith))

new_token : new_id second 0 (some claimed_content) ≡ ok 203
unfolding new_id
new_token = refl

claim-granted_example : accepted (claim_publication fits second 5 generation_1 202) ≡ true
claim-granted_example =
    claim-granted fits second 5 generation_1 202 203 (row claimed_content 5) running second_load
      second_active refl refl (ground arith) refl new_token refl (ground arith) refl refl

-- An editor's retry, at the same time.
abbrev editor_later : Context ContentState
editor_later = record second {
  auth = record {
    subject = 3;
    display_name = none;
    roles = 2 ∷ [];
    tenant_id = none;
    mode = AuthMode.dev;
  };
}

editor_load : stored_content fits editor_later 5 editor ≡ ok (row claimed_content 5)
unfolding stored_content identity_for stored_ok content_ok review_ok publication_ok intent_ok
    stalled_check phase_check lifecycle_check count_check current_check claim_check unclaimed_check
    failed_check terminal_check artifact_check slots_check review_check signoff_check snapshot_check
    same_attachments ready_attachments slot_ok sort_attachments artifact_ok attempt_ok claim_ok
    approval_check publication_check schedule_check actor service_actor
editor_load = refl

retry-eligible_example :
    accepted (retry_publication fits editor_later 5 generation_1)
    ≡ (publication_recovery running 94000).eligible
retry-eligible_example =
    retry-eligible fits editor_later 5 generation_1 (row claimed_content 5) running editor_load
      second_active refl (λ closed. (refl, refl))
