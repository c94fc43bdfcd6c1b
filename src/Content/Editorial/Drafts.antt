-- ===== src/Content/Editorial/Drafts.antt =====
-- The commands of a draft and of its review in apps/content-operations/src/domain/resources.ts make
-- moves of the editorial state machine.
use jawstack.Base.{
  Bool, ℕ, ◌≡◌, ok, true, not, refl, sym, subst, arith, >>=-elim, require-elim, some, Text, any,
  ltb,
}
use jawstack.Content.Editorial.{
  Turns, is_pending_review, Move, edits, submits, reminds, approves, returns, reopens, archives,
  Changed,
}
use jawstack.Content.Editorial.Reviewed.{
  submission-Turns, reminder-Turns, supersede-Turns, verdict-Turns,
}
use jawstack.Content.Facts.{Sized}
use jawstack.Content.Lifecycle.{
  TextInput, SubmitInput, ReviewRef, Verdict, edit_draft, revision_for, edited, submit, submission,
  record_review_reminder, reminder_due, pending_review, names_review, decide_review, decided,
  approval_by, status_after, reopen_draft, may_reopen, archive, may_archive,
}
use jawstack.Content.Publishing.{Stored}
use jawstack.Content.Resource.{
  Policy, owner_or_editor, editor, due_worker, actor, stored_content, new_id, Decision, supersede,
}
use jawstack.Content.Resource.Laws.{stored_content-Loaded, finish-next_state}
use jawstack.Content.ReviewSchema.{is_pending_slot, review_ok}
use jawstack.Content.StateSchema.{content_ok, is_draft, is_in_review}
use jawstack.Content.Types.{Review, ContentState, ContentStatus}
use jawstack.Core.Types.{Context}

module _ (fits : Sized → Bool) (context : Context ContentState) where
  -- A load and a finish make a change.
  pub changed :
      (version : ℕ) (policy : Policy) (previous : Stored) {d : Decision} {next : ContentState}
      → stored_content fits context version policy ≡ ok previous
      → (d.next_state ≡ next) × (content_ok next ≡ true)
      → Move previous.state next
      → Changed context d
  changed version policy previous {d} {next} load same by = record {
    stored = previous;
    read = (stored_content-Loaded fits context version policy previous load).found;
    by = subst (Move previous.state) (sym same.0) by;
    valid = subst (λ s. content_ok s ≡ true) (sym same.0) same.1;
  }

  pending_review-eq-ok :
      (previous : Stored) (r : Review)
      → pending_review previous ≡ ok r
      → (is_in_review previous.state.status ≡ true)
        × (previous.state.review ≡ some r)
        × (is_pending_review r.status ≡ true)
  pending_review-eq-ok previous r h = ground (arith, h)

  pub edit-Changed :
      (version : ℕ) (input : TextInput) {d : Decision}
      → edit_draft fits context version input ≡ ok d
      → Changed context d
  unfolding edit_draft
  edit-Changed version input h =
      >>=-elim (stored_content fits context version owner_or_editor) _ h λ previous load h1.
        require-elim (is_draft previous.state.status) _ _ h1 λ draft h2.
          >>=-elim (revision_for fits context previous.state input) _ h2 λ revision_id _ h3.
            changed version owner_or_editor previous load
              (finish-next_state fits context (some previous)
                (edited previous.state input revision_id) _ _ _ _ h3)
              (edits input revision_id draft)

  pub submit-Changed :
      (input : SubmitInput) {d : Decision} → submit fits context input ≡ ok d → Changed context d
  unfolding submit
  submit-Changed input h =
      >>=-elim (stored_content fits context input.expected_version owner_or_editor) _ h
        λ previous load h1. require-elim (is_draft previous.state.status) _ _ h1 λ draft h2.
          require-elim (not (any (λ slot. is_pending_slot slot.status) previous.state.attachments))
            _ _ h2
            λ _ h3. require-elim (ltb context.now input.due_at) _ _ h3 λ _ h4.
              >>=-elim (new_id context 0 (some previous.state)) _ h4 λ review_id drawn h5.
                let r = submission previous input context.resource_id review_id context.now in
                require-elim (review_ok r) _ _ h5 λ _ h6.
                  changed input.expected_version owner_or_editor previous load
                    (finish-next_state fits context (some previous)
                      (record (previous.state) {
                        status = ContentStatus.in_review;
                        review = some r;
                      })
                      _ _ _ _ h6)
                    (submits r draft refl
                      (submission-Turns fits context previous input review_id drawn))

  pub reminder-Changed :
      (version : ℕ) (ref : ReviewRef) {d : Decision}
      → record_review_reminder fits context version ref ≡ ok d
      → Changed context d
  unfolding record_review_reminder
  reminder-Changed version ref h =
      >>=-elim (stored_content fits context version due_worker) _ h λ previous load h1.
        >>=-elim (pending_review previous) _ h1 λ current found h2.
          require-elim (names_review previous.state current ref) _ _ h2 λ _ h3.
            require-elim (reminder_due current context.now) _ _ h3 λ due h4.
              changed version due_worker previous load
                (finish-next_state fits context (some previous) _ _ _ _ _ h4)
                (let (in_review, held, pending) = pending_review-eq-ok previous current found in
                  reminds _ in_review (
                    reminder-Turns fits context version due_worker previous current load held
                      pending due))

  verdict-Move :
      (verdict : Verdict) (previous : Stored) (current : Review) (subject note : Text)
      → is_in_review previous.state.status ≡ true
      → Turns previous.state.review
          (some (decided previous current verdict subject context.now note))
      → Move previous.state (record (previous.state) {
        status = status_after verdict;
        review = some (decided previous current verdict subject context.now note);
        approval = approval_by verdict previous current subject context.now;
      })
  verdict-Move Verdict.approves previous current subject note found turns =
      approves (decided previous current Verdict.approves subject context.now note) _ found refl
        turns
  verdict-Move Verdict.returns previous current subject note found turns =
      returns (decided previous current Verdict.returns subject context.now note) found turns

  pub decide_review-Changed :
      (verdict : Verdict) (version : ℕ) (ref : ReviewRef) (note : Text) {d : Decision}
      → decide_review fits context verdict version ref note ≡ ok d
      → Changed context d
  unfolding decide_review
  decide_review-Changed verdict version ref note h =
      >>=-elim (stored_content fits context version editor) _ h λ previous load h1.
        >>=-elim (pending_review previous) _ h1 λ current found h2.
          require-elim (names_review previous.state current ref) _ _ h2 λ _ h3.
            >>=-elim (actor context.auth) _ h3 λ identity _ h4.
              changed version editor previous load
                (finish-next_state fits context (some previous) _ _ _ _ _ h4)
                (let (in_review, held, pending) = pending_review-eq-ok previous current found in
                  verdict-Move verdict previous current identity.subject note in_review (
                    verdict-Turns fits context verdict version previous current identity.subject
                      note load held pending))

  pub reopen-Changed :
      (version : ℕ) {d : Decision} → reopen_draft fits context version ≡ ok d → Changed context d
  unfolding reopen_draft
  reopen-Changed version h =
      >>=-elim (stored_content fits context version owner_or_editor) _ h λ previous load h1.
        require-elim (may_reopen previous.state.status) _ _ h1 λ allowed h2.
          >>=-elim (supersede context previous) _ h2 λ closed done h3.
            >>=-elim (new_id context 0 (some previous.state)) _ h3 λ revision_id _ h4.
              changed version owner_or_editor previous load
                (finish-next_state fits context (some previous) _ _ _ _ _ h4)
                (reopens revision_id closed.review allowed
                  (supersede-Turns fits context version owner_or_editor previous closed load done))

  pub archive-Changed :
      (version : ℕ) {d : Decision} → archive fits context version ≡ ok d → Changed context d
  unfolding archive
  archive-Changed version h =
      >>=-elim (stored_content fits context version editor) _ h λ previous load h1.
        require-elim (may_archive previous.state.status) _ _ h1 λ allowed h2.
          >>=-elim (supersede context previous) _ h2 λ closed done h3.
            changed version editor previous load
              (finish-next_state fits context (some previous) _ _ _ _ _ h3)
              (archives closed.review allowed
                (supersede-Turns fits context version editor previous closed load done))
