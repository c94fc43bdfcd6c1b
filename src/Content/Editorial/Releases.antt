-- ===== src/Content/Editorial/Releases.antt =====
-- The commands of apps/content-operations/src/domain/publication-commands.ts make moves of the
-- editorial state machine.
use jawstack.Base.{
  ℕ, ◌≡◌, ok, true, false, not, ◌||◌, ◌==◌, leb, ltb, arith, >>=-elim, require-elim, some, Text,
  Bool, when_some,
}
use jawstack.Content.Editorial.{
  content_ok, plans, unplans, requests, works, publishes, Changed, is_releasable,
}
use jawstack.Content.Editorial.Drafts.{changed}
use jawstack.Content.Facts.{
  Sized, EventType, Payload, fact, publication_attempt_succeeded, publication_attempt_failed,
}
use jawstack.Content.Publishing.{
  attempt_payload, is_approved_status, Stored, PublicationRef, Fence, ArtifactInput, approved,
  current_schedule, active, fenced, demand, is_terminal, failed_attempt, failed_publication,
  outcome_payload, expire, closed_attempt, completed_publication, finished_attempt,
  stalled_publication, claimed_publication, new_attempt, new_claim,
}
use jawstack.Content.Publishing.Commands.{
  set_schedule, ScheduleInput, schedule, reschedule, cancel_schedule, request_publication,
  publish_now, request_due_publication, claim_publication, complete_publication, fail_publication,
  fail_finish, reconcile_publication_failure, retry_publication, with_publication, is_fresh,
  is_matching_claim,
}
use jawstack.Content.Publishing.Refines.{active-eq-ok, fenced-elim}
use jawstack.Content.Recovery.{publication_recovery}
use jawstack.Content.Resource.{
  Policy, editor, publisher, due_worker, collector, stored_content, new_id, Decision,
}
use jawstack.Content.Resource.Laws.{finish-next_state}
use jawstack.Content.Schema.{publication_attempts, same_key, publication_object_key}
use jawstack.Content.StateSchema.{is_scheduled}
use jawstack.Content.Types.{
  ContentStatus, ContentState, Publication, FailureCode, is_queued, is_running, is_failed,
  is_stalled, is_succeeded,
}
use jawstack.Core.Types.{Context}

scheduled-releasable : (s : ContentStatus) → is_scheduled s ≡ true → is_releasable s ≡ true
scheduled-releasable s h = ground arith

approved-releasable : (s : ContentStatus) → is_approved_status s ≡ true → is_releasable s ≡ true
approved-releasable s h = ground arith

current_schedule-scheduled :
    (previous : Stored) (revision_id generation : Text) {u : Unit {0}}
    → current_schedule previous revision_id generation ≡ ok u
    → is_scheduled previous.state.status ≡ true
unfolding current_schedule
current_schedule-scheduled previous revision_id generation h = ground arith

module _ (fits : Sized → Bool) (context : Context ContentState) where
  set_schedule-Changed :
      (version : ℕ) (previous : Stored) (input : ScheduleInput) (event : EventType) {d : Decision}
      → stored_content fits context version editor ≡ ok previous
      → is_releasable previous.state.status ≡ true
      → set_schedule fits context previous input event ≡ ok d
      → Changed context d
  unfolding set_schedule
  set_schedule-Changed version previous input event load free h =
      require-elim (ltb context.now input.scheduled_at) _ _ h λ _ h1.
        >>=-elim (new_id context 0 (some previous.state)) _ h1 λ generation _ h2.
          changed fits context version editor previous load
            (finish-next_state fits context (some previous) _ _ _ _ _ h2) (plans _ free)

  pub schedule-Changed :
      (input : ScheduleInput) {d : Decision}
      → schedule fits context input ≡ ok d
      → Changed context d
  unfolding schedule
  schedule-Changed input h =
      >>=-elim (stored_content fits context input.expected_version editor) _ h λ previous load h1.
        >>=-elim (approved previous input.review_id input.revision_id) _ h1 λ _ _ h2.
          require-elim (is_approved_status previous.state.status) _ _ h2 λ free h3.
            set_schedule-Changed input.expected_version previous input _ load
              (approved-releasable previous.state.status free) h3

  pub reschedule-Changed :
      (input : ScheduleInput) (generation : Text) {d : Decision}
      → reschedule fits context input generation ≡ ok d
      → Changed context d
  unfolding reschedule
  reschedule-Changed input generation h =
      >>=-elim (stored_content fits context input.expected_version editor) _ h λ previous load h1.
        >>=-elim (approved previous input.review_id input.revision_id) _ h1 λ _ _ h2.
          >>=-elim (current_schedule previous input.revision_id generation) _ h2 λ _ current h3.
            set_schedule-Changed input.expected_version previous input _ load
              (scheduled-releasable previous.state.status
                (current_schedule-scheduled previous input.revision_id generation current))
              h3

  pub cancel-Changed :
      (version : ℕ) (revision_id generation : Text) {d : Decision}
      → cancel_schedule fits context version revision_id generation ≡ ok d
      → Changed context d
  unfolding cancel_schedule
  cancel-Changed version revision_id generation h =
      >>=-elim (stored_content fits context version editor) _ h λ previous load h1.
        >>=-elim (current_schedule previous revision_id generation) _ h1 λ _ current h2.
          changed fits context version editor previous load
            (finish-next_state fits context (some previous) _ _ _ _ _ h2)
            (unplans (current_schedule-scheduled previous revision_id generation current))

  request-Changed :
      (version : ℕ) (policy : Policy) (previous : Stored) {d : Decision}
      → stored_content fits context version policy ≡ ok previous
      → is_releasable previous.state.status ≡ true
      → request_publication fits context previous ≡ ok d
      → Changed context d
  unfolding request_publication
  request-Changed version policy previous load free h =
      >>=-elim (new_id context 0 (some previous.state)) _ h λ publication_id _ h1.
        >>=-elim (demand previous.state.review) _ h1 λ review _ h2.
          >>=-elim (demand previous.state.approval) _ h2 λ approval _ h3.
            changed fits context version policy previous load
              (finish-next_state fits context (some previous) _ _ _ _ _ h3) (requests _ free)

  pub publish_now-Changed :
      (version : ℕ) (review_id revision_id : Text) {d : Decision}
      → publish_now fits context version review_id revision_id ≡ ok d
      → Changed context d
  unfolding publish_now
  publish_now-Changed version review_id revision_id h =
      >>=-elim (stored_content fits context version editor) _ h λ previous load h1.
        >>=-elim (approved previous review_id revision_id) _ h1 λ _ _ h2.
          require-elim (is_releasable previous.state.status) _ _ h2
            λ free h3. request-Changed version editor previous load free h3

  pub request_due-Changed :
      (version : ℕ) (revision_id generation : Text) {d : Decision}
      → request_due_publication fits context version revision_id generation ≡ ok d
      → Changed context d
  unfolding request_due_publication
  request_due-Changed version revision_id generation h =
      >>=-elim (stored_content fits context version due_worker) _ h λ previous load h1.
        >>=-elim (current_schedule previous revision_id generation) _ h1 λ _ current h2.
          >>=-elim (demand previous.state.schedule) _ h2 λ due _ h3.
            require-elim (leb due.scheduled_at context.now) _ _ h3 λ _ h4.
              request-Changed version due_worker previous load
                (scheduled-releasable previous.state.status
                  (current_schedule-scheduled previous revision_id generation current))
                h4

  -- The common end of the commands on an active publication.
  works-Changed :
      (version : ℕ) (policy : Policy) (ref : PublicationRef) (previous : Stored) (p q : Publication)
      {d : Decision}
      → stored_content fits context version policy ≡ ok previous
      → active previous ref ≡ ok p
      → (d.next_state ≡ with_publication previous.state q)
        × (content_ok (with_publication previous.state q) ≡ true)
      → Changed context d
  works-Changed version policy ref previous p q load act same =
      changed fits context version policy previous load same
        (works q (active-eq-ok previous ref p act).1)

  pub claim-Changed :
      (version : ℕ) (ref : PublicationRef) (attempt_id : Text) {d : Decision}
      → claim_publication fits context version ref attempt_id ≡ ok d
      → Changed context d
  unfolding claim_publication
  claim-Changed version ref attempt_id h =
      >>=-elim (stored_content fits context version publisher) _ h λ previous load h1.
        >>=-elim (active previous ref) _ h1 λ p act h2.
          require-elim (is_queued p.phase || is_running p.phase) _ _ h2 λ _ h3.
            require-elim (when_some p.claim (λ c. leb c.lease_until context.now)) _ _ h3 λ _ h4.
              require-elim (ltb p.attempts_in_generation publication_attempts) _ _ h4 λ _ h5.
                require-elim (is_fresh previous p attempt_id) _ _ h5 λ _ h6.
                  >>=-elim (new_id context 0 (some previous.state)) _ h6 λ token _ h7.
                    require-elim (not (token == attempt_id)) _ _ h7 λ _ h8.
                      let a = new_attempt context p (new_claim attempt_id token context.now) in
                      >>=-elim (attempt_payload previous (claimed_publication p a) a) _ h8 λ _ _ h9.
                        >>=-elim (expire previous p context.now) _ h9 λ _ _ h10.
                          works-Changed version publisher ref previous p (claimed_publication p a)
                            load act (finish-next_state fits context (some previous) _ _ _ _ _ h10)

  pub complete-Changed :
      (version : ℕ) (fence : Fence) (input : ArtifactInput) {d : Decision}
      → complete_publication fits context version fence input ≡ ok d
      → Changed context d
  unfolding complete_publication
  complete-Changed version fence input h =
      >>=-elim (stored_content fits context version publisher) _ h λ previous load h1.
        >>=-elim (fenced previous fence context.now) _ h1 λ p held h2.
          require-elim
            (same_key input.object_key
              (publication_object_key previous.resource_id p.intent.publication_id))
            _ _ h2
            λ _ h3. >>=-elim (demand p.last_attempt) _ h3 λ last _ h4.
              let next = completed_publication p last input context.now in
              >>=-elim (outcome_payload previous next) _ h4 λ _ _ h5.
                >>=-elim (attempt_payload previous next (finished_attempt last context.now)) _ h5
                  λ payload _ h6.
                    >>=-elim (fact publication_attempt_succeeded payload) _ h6 λ _ _ h7.
                      fenced-elim fits context previous fence p held λ act _.
                        changed fits context version publisher previous load
                          (finish-next_state fits context (some previous) _ _ _ _ _ h7)
                          (publishes next (active-eq-ok previous fence.target p act).1)

  fail_finish-Changed :
      (version : ℕ) (ref : PublicationRef) (previous : Stored) (p next : Publication)
      (terminal : Bool) (payload : Payload) {d : Decision}
      → stored_content fits context version publisher ≡ ok previous
      → active previous ref ≡ ok p
      → fail_finish fits context previous next terminal payload ≡ ok d
      → Changed context d
  unfolding fail_finish
  fail_finish-Changed version ref previous p next false payload load act h =
      works-Changed version publisher ref previous p next load act
        (finish-next_state fits context (some previous) _ _ _ _ _ h)
  fail_finish-Changed version ref previous p next true payload load act h =
      >>=-elim (outcome_payload previous next) _ h λ _ _ h1.
        >>=-elim (fact publication_attempt_failed payload) _ h1 λ _ _ h2.
          works-Changed version publisher ref previous p next load act
            (finish-next_state fits context (some previous) _ _ _ _ _ h2)

  pub fail-Changed :
      (version : ℕ) (fence : Fence) (code : FailureCode) {d : Decision}
      → fail_publication fits context version fence code ≡ ok d
      → Changed context d
  unfolding fail_publication
  fail-Changed version fence code h =
      >>=-elim (stored_content fits context version publisher) _ h λ previous load h1.
        >>=-elim (fenced previous fence context.now) _ h1 λ p held h2.
          >>=-elim (demand p.last_attempt) _ h2 λ last _ h3.
            let next = failed_publication p last code context.now in
            >>=-elim (attempt_payload previous next (failed_attempt last code context.now)) _ h3
              λ payload _ h4. fenced-elim fits context previous fence p held λ act _.
                fail_finish-Changed version fence.target previous p next (is_terminal p code)
                  payload load act h4

  pub reconcile-Changed :
      (version : ℕ) (ref : PublicationRef) (failure_id source_event_id : Text) {d : Decision}
      → reconcile_publication_failure fits context version ref failure_id source_event_id ≡ ok d
      → Changed context d
  unfolding reconcile_publication_failure
  reconcile-Changed version ref failure_id source_event_id h =
      >>=-elim (stored_content fits context version collector) _ h λ previous load h1.
        >>=-elim (active previous ref) _ h1 λ p act h2.
          require-elim (not (is_failed p.phase || is_stalled p.phase || is_succeeded p.phase)) _ _
            h2
            λ _ h3. require-elim (is_matching_claim fits context p source_event_id) _ _ h3 λ _ h4.
              >>=-elim (closed_attempt p context.now) _ h4 λ closed _ h5.
                let next = stalled_publication p closed (record {
                  failure_id = failure_id;
                  source_event_id = source_event_id;
                  at = context.now;
                }) in
                >>=-elim (outcome_payload previous next) _ h5 λ _ _ h6.
                  >>=-elim (expire previous p context.now) _ h6 λ _ _ h7.
                    works-Changed version collector ref previous p _ load act
                      (finish-next_state fits context (some previous) _ _ _ _ _ h7)

  pub retry-Changed :
      (version : ℕ) (ref : PublicationRef) {d : Decision}
      → retry_publication fits context version ref ≡ ok d
      → Changed context d
  unfolding retry_publication
  retry-Changed version ref h =
      >>=-elim (stored_content fits context version editor) _ h λ previous load h1.
        >>=-elim (active previous ref) _ h1 λ p act h2.
          let recovery = publication_recovery p context.now in
          require-elim (not recovery.live_lease) _ _ h2 λ _ h3.
            require-elim recovery.has_recoverable_work _ _ h3 λ _ h4.
              require-elim (ltb 0 recovery.remaining_generations) _ _ h4 λ _ h5.
                >>=-elim (closed_attempt p context.now) _ h5 λ closed _ h6.
                  >>=-elim (expire previous p context.now) _ h6 λ _ _ h7.
                    works-Changed version editor ref previous p _ load act
                      (finish-next_state fits context (some previous) _ _ _ _ _ h7)
