-- ===== src/Content/Publishing/Leases.antt =====
-- Who may act on a publication, and until when (publication-commands.ts).
use jawstack.Base.{
  >>=-elim, require-elim, subst, ◌||◌, ltb, leb, ◌==◌, not, when_some, ◌<◌, Option, true, some-inj,
  ℕ, ◌+◌, Bool, false, some, Text, Instant, ◌≡◌, ◌≤◌, arith, ok, err, ap, ◌∙◌, sym,
  resource_conflict,
}
use jawstack.Content.Facts.{Sized}
use jawstack.Content.Publishing.{
  is_target, claimed_publication, new_attempt, new_claim, expire, attempt_payload, Stored,
  PublicationRef, Fence, ArtifactInput, active, fenced,
}
use jawstack.Content.Publishing.Commands.{
  with_publication, is_fresh, claim_publication, complete_publication, fail_publication,
}
use jawstack.Content.Publishing.Refines.{active-eq-ok, claim-Moved}
use jawstack.Content.Publishing.Transitions.{claim, Transition, claims}
use jawstack.Content.Recovery.{live_lease}
use jawstack.Content.Resource.{new_id, Decision, publisher, stored_content}
use jawstack.Content.Resource.Laws.{finish-next_state}
use jawstack.Content.Schema.{publication_attempts, publication_lease_ms}
use jawstack.Content.Types.{is_queued, is_running, Publication, ContentState, FailureCode}
use jawstack.Core.Types.{Context}

claims-lease :
    {context : Context ContentState} {p q : Publication}
    → Transition context p claim q
    → live_lease p context.now ≡ false
      × ((now : Instant) → live_lease q now ≡ false → context.now + publication_lease_ms ≤ now)
claims-lease (claims attempt_id token phase free budget differs) = (free, λ now h. ground arith)

-- Two claims of one publication are never alive at once: when one claim is accepted and the next
-- command on the state it wrote is an accepted claim too, the second one comes no earlier than the
-- end of the first one's lease.
pub claims_exclusive :
    (fits : Sized → Bool) (first second : Context ContentState) (v1 v2 : ℕ) (r1 r2 : PublicationRef)
    (a1 a2 : Text) {d1 d2 : Decision} (written : Stored)
    → claim_publication fits first v1 r1 a1 ≡ ok d1
    → second.previous ≡ some written
    → written.state ≡ d1.next_state
    → claim_publication fits second v2 r2 a2 ≡ ok d2
    → first.now + publication_lease_ms ≤ second.now
claims_exclusive fits first second v1 v2 r1 r2 a1 a2 written h1 read same h2 =
    let m1 = claim-Moved fits first v1 r1 a1 h1 in
    let m2 = claim-Moved fits second v2 r2 a2 h2 in
    let stored : m2.stored ≡ written = some-inj (sym m2.read ∙ read) in
    let publication : m2.before ≡ m1.after = some-inj (
      sym m2.held
      ∙ (ap (λ (s : Stored). s.state.publication) stored
          ∙ (ap (λ (s : ContentState). s.publication) same ∙ m1.written))) in
    (claims-lease m1.by).1 second.now
      (ap (λ (p : Publication). live_lease p second.now) (sym publication) ∙ (claims-lease m2.by).0)

-- How a fence differs from what an accepted claim gave to its worker: another publication, generation,
-- attempt or token; or the time is not within the lease of the claim.
pub data Differs (first : Context ContentState) (ref : PublicationRef) (attempt_id : Text)
    (fence : Fence) (now : Instant) : Type 0 where
  other_publication :
      (fence.target.publication_id ≡ ref.publication_id → ⊥)
      → Differs first ref attempt_id fence now
  other_generation :
      (fence.target.generation ≡ ref.generation → ⊥) → Differs first ref attempt_id fence now
  other_attempt : (fence.attempt_id ≡ attempt_id → ⊥) → Differs first ref attempt_id fence now
  other_token : (fence.fencing_token ≡ first.ids 0 → ⊥) → Differs first ref attempt_id fence now
  too_early : now < first.now → Differs first ref attempt_id fence now
  too_late : first.now + publication_lease_ms ≤ now → Differs first ref attempt_id fence now

-- What an accepted claim wrote.
record Claimed (first : Context ContentState) (ref : PublicationRef) (attempt_id : Text)
    (next : ContentState) : Type 0 where
  before : Publication
  named : is_target ref before ≡ true
  written :
      next.publication
      ≡ some (
          claimed_publication before
            (new_attempt first before (new_claim attempt_id (first.ids 0) first.now)))

new_id-eq-ok :
    (context : Context ContentState) (previous : Option ContentState) (token : Text)
    → new_id context 0 previous ≡ ok token
    → token ≡ context.ids 0
unfolding new_id
new_id-eq-ok context previous token h = ground arith

claim-Claimed :
    (fits : Sized → Bool) (context : Context ContentState) (version : ℕ) (ref : PublicationRef)
    (attempt_id : Text) {d : Decision}
    → claim_publication fits context version ref attempt_id ≡ ok d
    → Claimed context ref attempt_id d.next_state
unfolding claim_publication
claim-Claimed fits context version ref attempt_id {d} h =
    >>=-elim (stored_content fits context version publisher) _ h λ previous load h1.
      >>=-elim (active previous ref) _ h1 λ p act h2.
        require-elim (is_queued p.phase || is_running p.phase) _ _ h2 λ _ h3.
          require-elim (when_some p.claim (λ c. leb c.lease_until context.now)) _ _ h3 λ _ h4.
            require-elim (ltb p.attempts_in_generation publication_attempts) _ _ h4 λ _ h5.
              require-elim (is_fresh previous p attempt_id) _ _ h5 λ _ h6.
                >>=-elim (new_id context 0 (some previous.state)) _ h6 λ token drawn h7.
                  require-elim (not (token == attempt_id)) _ _ h7 λ _ h8.
                    let a = new_attempt context p (new_claim attempt_id token context.now) in
                    >>=-elim (attempt_payload previous (claimed_publication p a) a) _ h8
                      λ payload _ h9. >>=-elim (expire previous p context.now) _ h9 λ expired _ h10.
                        let (same, _) =
                          finish-next_state fits context (some previous)
                            (with_publication previous.state (claimed_publication p a)) _ _ _ _
                            h10 in
                        record {
                          before = p;
                          named = (active-eq-ok previous ref p act).2;
                          written =
                              ap (λ (s : ContentState). s.publication) same
                              ∙ ap
                                  (λ t. some (
                                    claimed_publication p
                                      (new_attempt context p (new_claim attempt_id t context.now))))
                                  (new_id-eq-ok context (some previous.state) token drawn);
                        }

fenced-Differs :
    (first : Context ContentState) (ref : PublicationRef) (attempt_id : Text) (fence : Fence)
    (now : Instant) (stored : Stored)
    → Claimed first ref attempt_id stored.state
    → Differs first ref attempt_id fence now
    → fenced stored fence now ≡ err resource_conflict
unfolding fenced active
fenced-Differs first ref attempt_id fence now stored c (other_publication h) =
    ground (arith, c.written, c.named, h)
fenced-Differs first ref attempt_id fence now stored c (other_generation h) =
    ground (arith, c.written, c.named, h)
fenced-Differs first ref attempt_id fence now stored c (other_attempt h) =
    ground (arith, c.written, c.named, h)
fenced-Differs first ref attempt_id fence now stored c (other_token h) =
    ground (arith, c.written, c.named, h)
fenced-Differs first ref attempt_id fence now stored c (too_early h) =
    ground (arith, c.written, c.named, h)
fenced-Differs first ref attempt_id fence now stored c (too_late h) =
    ground (arith, c.written, c.named, h)

-- After an accepted claim, on the state that it wrote, only the claim's own fence can complete the
-- publication or fail it, and only within its lease: a fence that names another publication,
-- generation or attempt than the claim did, or another token than the one that the claim drew, and
-- any fence before the claim or from the end of its 90 seconds on, gets `resource.conflict` from both
-- commands, whatever artifact or failure code comes with it.
pub only_claimant :
    (fits : Sized → Bool) (first later : Context ContentState) (v1 v2 : ℕ) (ref : PublicationRef)
    (attempt_id : Text) (fence : Fence) (written : Stored) {d : Decision}
    → claim_publication fits first v1 ref attempt_id ≡ ok d
    → stored_content fits later v2 publisher ≡ ok written
    → written.state ≡ d.next_state
    → Differs first ref attempt_id fence later.now
    → ((input : ArtifactInput)
        → complete_publication fits later v2 fence input ≡ err resource_conflict)
      × ((code : FailureCode) → fail_publication fits later v2 fence code ≡ err resource_conflict)
unfolding complete_publication fail_publication
only_claimant fits first later v1 v2 ref attempt_id fence written claimed load same differs =
    let c =
      subst (Claimed first ref attempt_id) (sym same)
        (claim-Claimed fits first v1 ref attempt_id claimed) in
    let no = fenced-Differs first ref attempt_id fence later.now written c differs in
    ((λ input. rw (load, no)), (λ code. rw (load, no)))
