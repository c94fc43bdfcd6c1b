-- ===== src/Content/Publishing/Preserve.antt =====
-- Each transition of publication-commands.ts keeps `publicationStateSchema`.
use jawstack.Base.{
  when_some, true, false, ◌||◌, Option, some, Text, Instant, leb, ◌==◌, ◌≡◌, refl, ◌≤◌, ◌<◌, arith,
  ok,
}
use jawstack.Content.Publishing.{
  Fence, holds, new_claim, new_attempt, claimed_publication, closed_attempt, retried_publication,
  stalled_publication, failed_publication, completed_publication, ArtifactInput, artifact_of,
}
use jawstack.Content.Recovery.{recoverable_work, live_lease}
use jawstack.Content.Schema.{
  publication_ok, publication_attempts, publication_generations, same_key, publication_object_key,
  intent_ok, generation_ok, claim_ok, attempt_ok, artifact_ok, stalled_check, phase_check,
  lifecycle_check, count_check, current_check, claim_check, unclaimed_check, failed_check,
  terminal_check, artifact_check,
}
use jawstack.Content.Types.{
  Attempt, Publication, ContentState, FailureCode, DeliveryFailure, is_queued, is_running,
  is_failed, is_stalled, is_succeeded,
}
use jawstack.Core.Types.{Context}

-- The parts of `publication_ok`.
pub record IsValid (p : Publication) : Type 0 where
  pub intent : intent_ok p.intent ≡ true
  pub generation : generation_ok p.generation ≡ true
  pub attempts : leb p.attempts_in_generation publication_attempts ≡ true
  pub claim : when_some p.claim claim_ok ≡ true
  pub attempt : when_some p.last_attempt attempt_ok ≡ true
  pub artifact : when_some p.artifact artifact_ok ≡ true
  pub stalled : stalled_check p ≡ true
  pub phase : phase_check p ≡ true
  pub lifecycle : lifecycle_check p ≡ true
  pub count : count_check p ≡ true
  pub current : current_check p ≡ true
  pub claimed : claim_check p ≡ true
  pub unclaimed : unclaimed_check p ≡ true
  pub failed : failed_check p ≡ true
  pub terminal : terminal_check p ≡ true
  pub published : artifact_check p ≡ true

pub publication_ok-IsValid : (p : Publication) → publication_ok p ≡ true → IsValid p
unfolding publication_ok
publication_ok-IsValid p h = ground arith

pub IsValid-publication_ok : (p : Publication) → IsValid p → publication_ok p ≡ true
unfolding publication_ok
IsValid-publication_ok p v = simp (
  v.intent, v.generation, v.attempts, v.claim, v.attempt, v.artifact, v.stalled, v.phase,
  v.lifecycle, v.count, v.current, v.claimed, v.unclaimed, v.failed, v.terminal, v.published,
)

-- Claiming keeps the schema, unless the clock went back before the request.
pub claim-IsValid :
    (context : Context ContentState) (p : Publication) (attempt_id token : Text)
    → IsValid p
    → (is_queued p.phase || is_running p.phase) ≡ true
    → p.attempts_in_generation < publication_attempts
    → (token == attempt_id) ≡ false
    → p.intent.requested_at ≤ context.now
    → IsValid
        (claimed_publication p (new_attempt context p (new_claim attempt_id token context.now)))
claim-IsValid context p attempt_id token v phase budget differs later = record {
  intent = v.intent;
  generation = v.generation;
  attempts = ground arith;
  claim = unfold claim_ok in ground arith;
  attempt = unfold attempt_ok in ground (arith, v.generation);
  artifact = v.artifact;
  stalled = unfold stalled_check in ground (arith, v.stalled);
  phase = unfold phase_check in ground (arith, v.phase);
  lifecycle = unfold lifecycle_check in ground (arith);
  count = unfold count_check in ground (arith);
  current = unfold current_check in ground (arith);
  claimed = unfold claim_check in ground (arith);
  unclaimed = unfold unclaimed_check in ground (arith);
  failed = unfold failed_check in ground (arith);
  terminal = unfold terminal_check in ground (arith);
  published = unfold artifact_check phase_check in ground (arith);
}

module _ (p : Publication) (last : Attempt) (fence : Fence) (now : Instant) (v : IsValid p)
    (held : holds p fence now ≡ true) (latest : p.last_attempt ≡ some last) where
  -- The holder of a live claim completes into a valid state, if its artifact is in bounds and under
  -- the key of the intent.
  pub complete-IsValid :
      (input : ArtifactInput)
      → same_key input.object_key
          (publication_object_key p.intent.content_id p.intent.publication_id)
        ≡ true
      → artifact_ok (artifact_of input now) ≡ true
      → IsValid (completed_publication p last input now)
  complete-IsValid input key size = record {
    intent = v.intent;
    generation = v.generation;
    attempts = v.attempts;
    claim = refl;
    attempt = unfold attempt_ok claim_ok claim_check in ground (arith, v.attempt, v.claimed);
    artifact = size;
    stalled = unfold stalled_check in ground (arith, v.stalled);
    phase = unfold phase_check in ground (arith, v.phase);
    lifecycle = unfold lifecycle_check current_check in ground (arith, v.lifecycle);
    count = unfold count_check in ground (arith, v.count);
    current = unfold current_check in ground (arith, v.current);
    claimed = unfold claim_check in refl;
    unclaimed = unfold unclaimed_check in refl;
    failed = unfold failed_check in refl;
    terminal = unfold terminal_check in refl;
    published = unfold artifact_check in ground arith;
  }

  -- So does a reported failure, with whatever code.
  pub fail-IsValid : (code : FailureCode) → IsValid (failed_publication p last code now)
  fail-IsValid code = record {
    intent = v.intent;
    generation = v.generation;
    attempts = v.attempts;
    claim = refl;
    attempt = unfold attempt_ok claim_ok claim_check in ground (arith, v.attempt, v.claimed);
    artifact = v.artifact;
    stalled = unfold stalled_check in ground (arith, v.stalled);
    phase = unfold phase_check in ground (arith, v.phase);
    lifecycle = unfold lifecycle_check current_check in ground (arith, v.lifecycle);
    count = unfold count_check in ground (arith, v.count);
    current = unfold current_check in ground (arith, v.current);
    claimed = unfold claim_check in refl;
    unclaimed = unfold unclaimed_check in refl;
    failed = unfold failed_check in ground arith;
    terminal = unfold terminal_check in ground arith;
    published = unfold artifact_check phase_check in ground (arith, v.phase, v.published);
  }

module _ (p : Publication) (closed : Option Attempt) (now : Instant) (v : IsValid p)
    (dead : live_lease p now ≡ false) (same : closed_attempt p now ≡ ok closed) where
  closed-attempt_ok : when_some closed attempt_ok ≡ true
  unfolding attempt_ok claim_ok claim_check
  closed-attempt_ok = ground (arith, v.attempt, v.claimed)

  -- Delivery exhaustion stalls a publication whose claim, if any, has run out.
  pub stall-IsValid :
      (failure : DeliveryFailure)
      → (is_failed p.phase || is_stalled p.phase || is_succeeded p.phase) ≡ false
      → IsValid (stalled_publication p closed failure)
  stall-IsValid failure phase = record {
    intent = v.intent;
    generation = v.generation;
    attempts = v.attempts;
    claim = refl;
    attempt = closed-attempt_ok;
    artifact = v.artifact;
    stalled = unfold stalled_check in refl;
    phase = unfold phase_check in ground (arith, v.phase);
    lifecycle = unfold lifecycle_check in ground (arith, v.lifecycle);
    count = unfold count_check in ground (arith, v.count);
    current = unfold current_check in ground (arith, v.current);
    claimed = unfold claim_check in refl;
    unclaimed = unfold unclaimed_check in ground (arith, v.unclaimed);
    failed = unfold failed_check in refl;
    terminal = unfold terminal_check in ground (arith, v.terminal);
    published = unfold artifact_check phase_check in ground (arith, v.published, v.phase);
  }

  -- A manual retry opens the next generation.
  pub retry-IsValid :
      recoverable_work p ≡ true
      → p.generation < publication_generations
      → IsValid (retried_publication p closed)
  retry-IsValid work budget = record {
    intent = v.intent;
    generation = ground (arith, v.generation);
    attempts = refl;
    claim = refl;
    attempt = closed-attempt_ok;
    artifact = v.artifact;
    stalled = unfold stalled_check in refl;
    phase = unfold phase_check artifact_check in ground (arith, v.phase, v.published);
    lifecycle = unfold lifecycle_check in ground (arith, v.lifecycle);
    count = unfold count_check in ground (arith, v.count);
    current = unfold current_check in refl;
    claimed = unfold claim_check in refl;
    unclaimed = unfold unclaimed_check in ground (arith, v.unclaimed);
    failed = unfold failed_check in refl;
    terminal = unfold terminal_check count_check in ground (arith, v.count);
    published = unfold artifact_check phase_check in ground (arith, v.published, v.phase);
  }
