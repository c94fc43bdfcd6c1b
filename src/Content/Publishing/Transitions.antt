-- ===== src/Content/Publishing/Transitions.antt =====
-- The publication cycle as a state machine
-- (apps/content-operations/src/domain/publication-commands.ts).

use jawstack.Base.{true, false, ◌||◌, Option, some, Text, ◌==◌, ◌≡◌, ◌<◌, ok}
use jawstack.Content.Publishing.{
  Stored, PublicationRef, Fence, is_target, holds, new_claim, new_attempt, claimed_publication,
  closed_attempt, retried_publication, stalled_publication, failed_publication,
  completed_publication, artifact_of, ArtifactInput,
}
use jawstack.Content.Recovery.{recoverable_work, live_lease}
use jawstack.Content.Resource.{Decision}
use jawstack.Content.Schema.{
  publication_ok, artifact_ok, same_key, publication_object_key, publication_attempts,
  publication_generations,
}
use jawstack.Content.Types.{
  Attempt, Publication, ContentState, FailureCode, DeliveryFailure, is_queued, is_running,
  is_failed, is_stalled, is_succeeded, is_publishing,
}
use jawstack.Core.Types.{Context}

pub data Kind : Type 0 where
  claim complete fail stall retry : Kind

-- The transitions at a context's time, with the guards that the code checks.
pub data Transition (context : Context ContentState) (p : Publication)
    : Kind → Publication → Type 0 where
  claims :
      (attempt_id token : Text)
      → (is_queued p.phase || is_running p.phase) ≡ true
      → live_lease p context.now ≡ false
      → p.attempts_in_generation < publication_attempts
      → (token == attempt_id) ≡ false
      → Transition context p claim
          (claimed_publication p (new_attempt context p (new_claim attempt_id token context.now)))
  completes :
      (fence : Fence) (last : Attempt) (input : ArtifactInput)
      → holds p fence context.now ≡ true
      → p.last_attempt ≡ some last
      → same_key input.object_key
          (publication_object_key context.resource_id p.intent.publication_id)
        ≡ true
      → artifact_ok (artifact_of input context.now) ≡ true
      → Transition context p complete (completed_publication p last input context.now)
  fails :
      (fence : Fence) (last : Attempt) (code : FailureCode)
      → holds p fence context.now ≡ true
      → p.last_attempt ≡ some last
      → Transition context p fail (failed_publication p last code context.now)
  stalls :
      (closed : Option Attempt) (failure : DeliveryFailure)
      → (is_failed p.phase || is_stalled p.phase || is_succeeded p.phase) ≡ false
      → live_lease p context.now ≡ false
      → closed_attempt p context.now ≡ ok closed
      → Transition context p stall (stalled_publication p closed failure)
  retries :
      (closed : Option Attempt)
      → recoverable_work p ≡ true
      → live_lease p context.now ≡ false
      → p.generation < publication_generations
      → closed_attempt p context.now ≡ ok closed
      → Transition context p retry (retried_publication p closed)

-- What an accepted command did: it found a publication that is being published and is the one that
-- the caller names, and the next state differs in its publication by one transition.
pub record Moved (context : Context ContentState) (kind : Kind) (ref : PublicationRef)
    (d : Decision) : Type 0 where
  pub stored : Stored
  pub before : Publication
  pub after : Publication
  pub read : context.previous ≡ some stored
  pub held : stored.state.publication ≡ some before
  pub publishing : is_publishing stored.state.status ≡ true
  pub target : is_target ref before ≡ true
  pub owned : before.intent.content_id ≡ context.resource_id
  pub written : d.next_state.publication ≡ some after
  pub by : Transition context before kind after
  pub valid : publication_ok after ≡ true
