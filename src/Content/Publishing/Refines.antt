-- ===== src/Content/Publishing/Refines.antt =====
-- Every accepted command of publication-commands.ts on an active publication makes one of the
-- transitions of the publication cycle.

use jawstack.Base.{
  when_some, ℕ, ◌-◌, Bool, true, false, not, ◌||◌, Option, some, Text, leb, ltb, ◌==◌, ◌≡◌, ◌∙◌,
  refl, arith, ok, ==_iff, >>=-elim, require-elim, ap,
}
use jawstack.Content.Facts.{
  Sized, Payload, fact, publication_attempt_succeeded, publication_attempt_failed,
}
use jawstack.Content.Publishing.{
  Stored, PublicationRef, Fence, is_target, active, fenced, holds, demand, new_claim, new_attempt,
  claimed_publication, closed_attempt, retried_publication, stalled_publication, failed_publication,
  completed_publication, ArtifactInput, attempt_payload, outcome_payload, expire, finished_attempt,
  is_terminal, failed_attempt,
}
use jawstack.Content.Publishing.Commands.{
  claim_publication, complete_publication, fail_publication, reconcile_publication_failure,
  retry_publication, with_publication, is_fresh, is_matching_claim, fail_finish,
}
use jawstack.Content.Publishing.Preserve.{publication_ok-IsValid}
use jawstack.Content.Publishing.Transitions.{
  Kind, claim, complete, fail, stall, retry, Transition, claims, completes, fails, stalls, retries,
  Moved,
}
use jawstack.Content.Recovery.{recoverable_work, live_lease, publication_recovery}
use jawstack.Content.Resource.{
  Policy, stored_content, publisher, collector, editor, new_id, Decision,
}
use jawstack.Content.Resource.Laws.{stored_content-Loaded, finish-next_state}
use jawstack.Content.Schema.{
  publication_attempts, publication_generations, same_key, publication_object_key,
}
use jawstack.Content.StateSchema.{content_ok}
use jawstack.Content.StateSchema.Parts.{publication-owner, content_ok-IsContent}
use jawstack.Content.Types.{
  Publication, ContentState, FailureCode, DeliveryFailure, is_queued, is_running, is_failed,
  is_stalled, is_succeeded, is_publishing,
}
use jawstack.Core.Types.{Context}

pub active-eq-ok :
    (previous : Stored) (ref : PublicationRef) (p : Publication)
    → active previous ref ≡ ok p
    → (previous.state.publication ≡ some p)
      × (is_publishing previous.state.status ≡ true)
      × (is_target ref p ≡ true)
unfolding active
active-eq-ok previous ref p h = ground arith

demand-eq-ok {ℓ} : {A : Type ℓ} (o : Option A) (a : A) → demand o ≡ ok a → o ≡ some a
demand-eq-ok o a h = ground arith

module _ (fits : Sized → Bool) (context : Context ContentState) where
  -- The common end of the five proofs.
  moved :
      (version : ℕ) (policy : Policy) (kind : Kind) (ref : PublicationRef) (previous : Stored)
      (p q : Publication) {d : Decision} {next : ContentState}
      → stored_content fits context version policy ≡ ok previous
      → active previous ref ≡ ok p
      → (d.next_state ≡ next) × (content_ok next ≡ true)
      → next.publication ≡ some q
      → Transition context p kind q
      → Moved context kind ref d
  moved version policy kind ref previous p q {next} load act same written by =
      let loaded = stored_content-Loaded fits context version policy previous load in
      let (held, publishing, target) = active-eq-ok previous ref p act in
      record {
        stored = previous;
        before = p;
        after = q;
        read = loaded.found;
        held = held;
        publishing = publishing;
        target = target;
        owned = (==_iff p.intent.content_id context.resource_id).0 (
            ground
              (arith, publication-owner previous.state p loaded.published held, loaded.content_id));
        written = ap (λ (s : ContentState). s.publication) same.0 ∙ written;
        by = by;
        valid =
            let content = content_ok-IsContent next same.1 in
            ground (arith, content.publication, written);
      }

  pub claim-Moved :
      (version : ℕ) (ref : PublicationRef) (attempt_id : Text) {d : Decision}
      → claim_publication fits context version ref attempt_id ≡ ok d
      → Moved context claim ref d
  unfolding claim_publication
  claim-Moved version ref attempt_id {d} h =
      >>=-elim (stored_content fits context version publisher) _ h λ previous load h1.
        >>=-elim (active previous ref) _ h1 λ p act h2.
          require-elim (is_queued p.phase || is_running p.phase) _ _ h2 λ phase h3.
            require-elim (when_some p.claim (λ c. leb c.lease_until context.now)) _ _ h3 λ free h4.
              require-elim (ltb p.attempts_in_generation publication_attempts) _ _ h4 λ budget h5.
                require-elim (is_fresh previous p attempt_id) _ _ h5 λ fresh h6.
                  >>=-elim (new_id context 0 (some previous.state)) _ h6 λ token drawn h7.
                    require-elim (not (token == attempt_id)) _ _ h7 λ differs h8.
                      let a = new_attempt context p (new_claim attempt_id token context.now) in
                      >>=-elim (attempt_payload previous (claimed_publication p a) a) _ h8
                        λ payload _ h9.
                          >>=-elim (expire previous p context.now) _ h9 λ expired _ h10.
                            moved version publisher claim ref previous p (claimed_publication p a)
                              load act
                              (finish-next_state fits context (some previous)
                                (with_publication previous.state (claimed_publication p a)) _ _ _ _
                                h10)
                              refl
                              (claims attempt_id token phase (ground (arith, free))
                                (ground (arith, budget)) (ground (arith, differs)))

  pub fenced-elim {ℓ} :
      {P : Type ℓ} (previous : Stored) (fence : Fence) (p : Publication)
      → fenced previous fence context.now ≡ ok p
      → (active previous fence.target ≡ ok p → holds p fence context.now ≡ true → P)
      → P
  unfolding fenced
  fenced-elim previous fence p h k = >>=-elim (active previous fence.target) _ h λ q act h1.
      require-elim (holds q fence context.now) _ _ h1 λ held h2. k (ground arith) (ground arith)

  pub complete-Moved :
      (version : ℕ) (fence : Fence) (input : ArtifactInput) {d : Decision}
      → complete_publication fits context version fence input ≡ ok d
      → Moved context complete fence.target d
  unfolding complete_publication
  complete-Moved version fence input {d} h =
      >>=-elim (stored_content fits context version publisher) _ h λ previous load h1.
        >>=-elim (fenced previous fence context.now) _ h1 λ p guarded h2.
          require-elim
            (same_key input.object_key
              (publication_object_key previous.resource_id p.intent.publication_id))
            _ _ h2
            λ key h3. >>=-elim (demand p.last_attempt) _ h3 λ last latest h4.
              let q = completed_publication p last input context.now in
              >>=-elim (outcome_payload previous q) _ h4 λ outcome _ h5.
                >>=-elim (attempt_payload previous q (finished_attempt last context.now)) _ h5
                  λ payload _ h6.
                    >>=-elim (fact publication_attempt_succeeded payload) _ h6 λ succeeded _ h7.
                      fenced-elim previous fence p guarded λ act held.
                        let same = finish-next_state fits context (some previous) _ _ _ _ _ h7 in
                        let content = content_ok-IsContent _ same.1 in
                        moved version publisher complete fence.target previous p q load act same
                          refl
                          (completes fence last input held (demand-eq-ok p.last_attempt last latest)
                            (rw
                              (← (stored_content-Loaded fits context version publisher previous
                                load).resource_id)
                              key)
                            (publication_ok-IsValid q content.publication).artifact)

  -- The branches of `failPublication` write the same state.
  fail-next_state :
      (previous : Stored) (q : Publication) (terminal : Bool) (payload : Payload) {d : Decision}
      → fail_finish fits context previous q terminal payload ≡ ok d
      → (d.next_state ≡ with_publication previous.state q)
        × (content_ok (with_publication previous.state q) ≡ true)
  unfolding fail_finish
  fail-next_state previous q false payload h =
      finish-next_state fits context (some previous) _ _ _ _ _ h
  fail-next_state previous q true payload h =
      >>=-elim (outcome_payload previous q) _ h λ outcome _ h1.
        >>=-elim (fact publication_attempt_failed payload) _ h1
          λ failed _ h2. finish-next_state fits context (some previous) _ _ _ _ _ h2

  pub fail-Moved :
      (version : ℕ) (fence : Fence) (code : FailureCode) {d : Decision}
      → fail_publication fits context version fence code ≡ ok d
      → Moved context fail fence.target d
  unfolding fail_publication
  fail-Moved version fence code {d} h =
      >>=-elim (stored_content fits context version publisher) _ h λ previous load h1.
        >>=-elim (fenced previous fence context.now) _ h1 λ p guarded h2.
          >>=-elim (demand p.last_attempt) _ h2 λ last latest h3.
            let q = failed_publication p last code context.now in
            >>=-elim (attempt_payload previous q (failed_attempt last code context.now)) _ h3
              λ payload _ h4. fenced-elim previous fence p guarded λ act held.
                moved version publisher fail fence.target previous p q load act
                  (fail-next_state previous q (is_terminal p code) payload h4) refl
                  (fails fence last code held (demand-eq-ok p.last_attempt last latest))

  pub reconcile-Moved :
      (version : ℕ) (ref : PublicationRef) (failure_id source_event_id : Text) {d : Decision}
      → reconcile_publication_failure fits context version ref failure_id source_event_id ≡ ok d
      → Moved context stall ref d
  unfolding reconcile_publication_failure
  reconcile-Moved version ref failure_id source_event_id {d} h =
      >>=-elim (stored_content fits context version collector) _ h λ previous load h1.
        >>=-elim (active previous ref) _ h1 λ p act h2.
          require-elim (not (is_failed p.phase || is_stalled p.phase || is_succeeded p.phase)) _ _
            h2
            λ phase h3.
              require-elim (is_matching_claim fits context p source_event_id) _ _ h3 λ free h4.
                >>=-elim (closed_attempt p context.now) _ h4 λ closed same h5.
                  let failure : DeliveryFailure = record {
                    failure_id = failure_id;
                    source_event_id = source_event_id;
                    at = context.now;
                  } in
                  let q = stalled_publication p closed failure in
                  >>=-elim (outcome_payload previous q) _ h5 λ outcome _ h6.
                    >>=-elim (expire previous p context.now) _ h6 λ expired _ h7.
                      moved version collector stall ref previous p q load act
                        (finish-next_state fits context (some previous) _ _ _ _ _ h7) refl
                        (stalls closed failure (ground (arith, phase)) (ground (arith, free)) same)

  pub retry-Moved :
      (version : ℕ) (ref : PublicationRef) {d : Decision}
      → retry_publication fits context version ref ≡ ok d
      → Moved context retry ref d
  unfolding retry_publication publication_recovery
  retry-Moved version ref {d} h =
      >>=-elim (stored_content fits context version editor) _ h λ previous load h1.
        >>=-elim (active previous ref) _ h1 λ p act h2.
          require-elim (not (live_lease p context.now)) _ _ h2 λ free h3.
            require-elim (recoverable_work p) _ _ h3 λ work h4.
              require-elim (ltb 0 (publication_generations - p.generation)) _ _ h4 λ budget h5.
                >>=-elim (closed_attempt p context.now) _ h5 λ closed same h6.
                  let q = retried_publication p closed in
                  >>=-elim (expire previous p context.now) _ h6 λ expired _ h7.
                    moved version editor retry ref previous p q load act
                      (finish-next_state fits context (some previous) _ _ _ _ _ h7) refl
                      (retries closed work (ground (arith, free)) (ground (arith, budget)) same)
