-- ===== src/Content/Recovery.antt =====
-- apps/content-operations/src/shared/publication-recovery.ts: what an operator may still do with a
-- publication.
use jawstack.Base.{
  and_some, ℕ, ◌-◌, Bool, not, ◌&&◌, ◌||◌, Instant, ltb, ◌==◌, if◌then◌else◌, is_some,
}
use jawstack.Content.Schema.{publication_attempts, publication_generations}
use jawstack.Content.Types.{Phase, Publication, stalled, is_failed_attempt, is_failed, is_stalled}

pub record Recovery : Type 0 where
  pub live_lease : Bool
  pub expired_lease : Bool
  pub has_recoverable_work : Bool
  pub remaining_generations : ℕ
  pub remaining_attempts : ℕ
  pub status : Phase
  pub eligible : Bool

abbrev pub live_lease : Publication → Instant → Bool
live_lease state now = and_some state.claim (λ c. ltb now c.lease_until)

abbrev pub recoverable_work : Publication → Bool
recoverable_work state =
    is_failed state.phase
    || is_stalled state.phase
    || and_some state.last_attempt
        (λ a. is_failed_attempt a.status && a.generation == state.generation)
    || is_some state.claim

-- publicationRecovery; subtraction on ℕ is `Math.max(0, …)`.
unfoldable pub publication_recovery : Publication → Instant → Recovery
publication_recovery state now =
    let live = live_lease state now in
    let expired = is_some state.claim && not live in
    let work = recoverable_work state in
    let remaining = publication_generations - state.generation in
    record {
      live_lease = live;
      expired_lease = expired;
      has_recoverable_work = work;
      remaining_generations = remaining;
      remaining_attempts = publication_attempts - state.attempts_in_generation;
      status = if expired then stalled else state.phase;
      eligible = not live && work && ltb 0 remaining;
    }
