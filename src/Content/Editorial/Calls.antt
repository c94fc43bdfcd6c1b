-- ===== src/Content/Editorial/Calls.antt =====
-- Any call of a command of a content item, and sequences of them
-- (apps/content-operations/src/domain/resources.ts and publication-commands.ts). `create` is left out:
-- the executor refuses it where the item exists.
pub mod Frozen
pub mod Published
pub mod Projected
mod Tests
use jawstack.Base.{
  ℕ, ◌+◌, Bool, true, false, not, ◌&&◌, some, List, [], ◌∷◌, Text, ◌≡◌, Result, ok, err,
}
use jawstack.Content.Editorial.{Changed}
use jawstack.Content.Editorial.Drafts.{
  edit-Changed, submit-Changed, reminder-Changed, decide_review-Changed, reopen-Changed,
  archive-Changed,
}
use jawstack.Content.Editorial.Releases.{
  schedule-Changed, reschedule-Changed, cancel-Changed, publish_now-Changed, request_due-Changed,
  claim-Changed, complete-Changed, fail-Changed, reconcile-Changed, retry-Changed,
}
use jawstack.Content.Editorial.Slots.{register-Changed, complete_upload-Changed, retire-Changed}
use jawstack.Content.Facts.{Sized}
use jawstack.Content.Lifecycle.{
  TextInput, SubmitInput, ReviewRef, Verdict, edit_draft, submit, record_review_reminder,
  decide_review, reopen_draft, archive,
}
use jawstack.Content.Lifecycle.Assets.{
  RegisterInput, ObjectReference, Retirement, register_asset, complete_upload, retire_asset,
}
use jawstack.Content.Publishing.{Stored, PublicationRef, Fence, ArtifactInput}
use jawstack.Content.Publishing.Commands.{
  ScheduleInput, schedule, reschedule, cancel_schedule, publish_now, request_due_publication,
  claim_publication, complete_publication, fail_publication, reconcile_publication_failure,
  retry_publication,
}
use jawstack.Content.Resource.{Decision}
use jawstack.Content.StateSchema.{is_draft}
use jawstack.Content.Types.{ContentState, FailureCode}
use jawstack.Core.Types.{Context}

-- The first number of a call is its expected version, unless its input holds one.
pub data Call : Type 0 where
  edits_draft : ℕ → TextInput → Call
  submits_draft : SubmitInput → Call
  records_reminder : ℕ → ReviewRef → Call
  decides_review : Verdict → ℕ → ReviewRef → Text → Call
  reopens_draft : ℕ → Call
  archives_item : ℕ → Call
  registers_asset : RegisterInput → Call
  completes_upload : ℕ → Text → ObjectReference → Call
  retires_asset : Retirement → ℕ → Text → Call
  schedules : ScheduleInput → Call
  reschedules : ScheduleInput → Text → Call
  cancels_schedule : ℕ → Text → Text → Call
  publishes_now : ℕ → Text → Text → Call
  requests_due : ℕ → Text → Text → Call
  claims_publication : ℕ → PublicationRef → Text → Call
  completes_publication : ℕ → Fence → ArtifactInput → Call
  fails_publication : ℕ → Fence → FailureCode → Call
  reconciles_failure : ℕ → PublicationRef → Text → Text → Call
  retries_publication : ℕ → PublicationRef → Call

module _ (fits : Sized → Bool) where
  unfoldable pub decide_call : Context ContentState → Call → Result Decision
  decide_call context (edits_draft v input) = edit_draft fits context v input
  decide_call context (submits_draft input) = submit fits context input
  decide_call context (records_reminder v ref) = record_review_reminder fits context v ref
  decide_call context (decides_review verdict v ref note) =
      decide_review fits context verdict v ref note
  decide_call context (reopens_draft v) = reopen_draft fits context v
  decide_call context (archives_item v) = archive fits context v
  decide_call context (registers_asset input) = register_asset fits context input
  decide_call context (completes_upload v id object) = complete_upload fits context v id object
  decide_call context (retires_asset how v id) = retire_asset fits context how v id
  decide_call context (schedules input) = schedule fits context input
  decide_call context (reschedules input generation) = reschedule fits context input generation
  decide_call context (cancels_schedule v r g) = cancel_schedule fits context v r g
  decide_call context (publishes_now v review r) = publish_now fits context v review r
  decide_call context (requests_due v r g) = request_due_publication fits context v r g
  decide_call context (claims_publication v ref id) = claim_publication fits context v ref id
  decide_call context (completes_publication v fence input) =
      complete_publication fits context v fence input
  decide_call context (fails_publication v fence code) = fail_publication fits context v fence code
  decide_call context (reconciles_failure v ref f s) =
      reconcile_publication_failure fits context v ref f s
  decide_call context (retries_publication v ref) = retry_publication fits context v ref

  -- Every accepted command of a content item, in whatever context, found a stored row, and makes one of
  -- the moves of the editorial state machine on its state, to a state that `contentStateSchema` accepts.
  pub decide_call-Changed :
      (context : Context ContentState) (call : Call) {d : Decision}
      → decide_call context call ≡ ok d
      → Changed context d
  unfolding decide_call
  decide_call-Changed context (edits_draft v input) h = edit-Changed fits context v input h
  decide_call-Changed context (submits_draft input) h = submit-Changed fits context input h
  decide_call-Changed context (records_reminder v ref) h = reminder-Changed fits context v ref h
  decide_call-Changed context (decides_review verdict v ref note) h =
      decide_review-Changed fits context verdict v ref note h
  decide_call-Changed context (reopens_draft v) h = reopen-Changed fits context v h
  decide_call-Changed context (archives_item v) h = archive-Changed fits context v h
  decide_call-Changed context (registers_asset input) h = register-Changed fits context input h
  decide_call-Changed context (completes_upload v id object) h =
      complete_upload-Changed fits context v id object h
  decide_call-Changed context (retires_asset how v id) h = retire-Changed fits context how v id h
  decide_call-Changed context (schedules input) h = schedule-Changed fits context input h
  decide_call-Changed context (reschedules input generation) h =
      reschedule-Changed fits context input generation h
  decide_call-Changed context (cancels_schedule v r g) h = cancel-Changed fits context v r g h
  decide_call-Changed context (publishes_now v review r) h =
      publish_now-Changed fits context v review r h
  decide_call-Changed context (requests_due v r g) h = request_due-Changed fits context v r g h
  decide_call-Changed context (claims_publication v ref id) h =
      claim-Changed fits context v ref id h
  decide_call-Changed context (completes_publication v fence input) h =
      complete-Changed fits context v fence input h
  decide_call-Changed context (fails_publication v fence code) h =
      fail-Changed fits context v fence code h
  decide_call-Changed context (reconciles_failure v ref f s) h =
      reconcile-Changed fits context v ref f s h
  decide_call-Changed context (retries_publication v ref) h = retry-Changed fits context v ref h

  abbrev reads : Context ContentState → Stored → Context ContentState
  reads context row = record context { previous = some row }

  abbrev pub row_after : Stored → Result Decision → Stored
  row_after row (ok d) = record row { version = row.version + 1; state = d.next_state }
  row_after row (err e) = row

  -- The row after a sequence of calls, each deciding on the row that the accepted ones before it wrote.
  unfoldable pub run : Stored → List (Context ContentState × Call) → Stored
  unfolding decide_call
  run row [] = row
  run row ((context, call) ∷ rest) = run (row_after row (decide_call (reads context row) call)) rest

  -- No row that a sequence of calls writes, and not the first one, is a draft.
  unfoldable pub never_draft : Stored → List (Context ContentState × Call) → Bool
  unfolding decide_call
  never_draft row [] = not (is_draft row.state.status)
  never_draft row ((context, call) ∷ rest) =
      not (is_draft row.state.status)
      && never_draft (row_after row (decide_call (reads context row) call)) rest
