-- ===== src/Content/Publishing/Grants.antt =====
-- When a publisher is granted a claim (publication-commands.ts).
use jawstack.Base.{
  ap, sym, ok-inj, >>=-elim, when_some, ◌<◌, ◌≤◌, ◌||◌, leb, ◌>>=◌, ℕ, ◌+◌, Bool, true, false, some,
  ◌≡◌, refl, arith, ok, ltb, Text, ◌==◌,
}
use jawstack.Content.Facts.{
  within_budget, Payload, publication_attempt_view, state_size, Sized, publication_claimed, fact,
  payload_ok,
}
use jawstack.Content.Publishing.{
  attempt_payload, Stored, new_claim, new_attempt, claimed_publication, PublicationRef, active,
  expire,
}
use jawstack.Content.Publishing.Accepts.{
  accepted, accepted-ok, with_publication-content_ok, expire-accepted,
}
use jawstack.Content.Publishing.Commands.{claim_publication, is_fresh, with_publication}
use jawstack.Content.Publishing.Preserve.{
  claim-IsValid, IsValid, publication_ok-IsValid, IsValid-publication_ok,
}
use jawstack.Content.Publishing.Refines.{active-eq-ok}
use jawstack.Content.Recovery.{live_lease}
use jawstack.Content.Resource.{publisher, new_id, stored_content}
use jawstack.Content.Resource.Laws.{stored_content-Loaded, finish_lem}
use jawstack.Content.Schema.{version_ok, publication_attempts}
use jawstack.Content.StateSchema.Parts.{content_ok-IsContent}
use jawstack.Content.Types.{Attempt, Publication, is_queued, is_running, ContentState}
use jawstack.Core.Types.{Context}

module _ (fits : Sized → Bool) (context : Context ContentState) (version : ℕ) (ref : PublicationRef)
    (attempt_id token : Text) (previous : Stored) (p : Publication) where
  claimed-payload :
      version_ok (previous.version + 1) ≡ true
      → IsValid p
      → accepted (
          attempt_payload previous
            (claimed_publication p (new_attempt context p (new_claim attempt_id token context.now)))
            (new_attempt context p (new_claim attempt_id token context.now))
          >>= λ payload. fact publication_claimed payload)
        ≡ true
  unfolding publication_attempt_view fact payload_ok
  claimed-payload next v = ground (arith, v.generation)

  -- The facts of attempts have no budget.
  attempt-within :
      (q : Publication) (a : Attempt) {payload : Payload}
      → attempt_payload previous q a ≡ ok payload
      → within_budget fits payload ≡ true
  attempt-within q a h =
      >>=-elim (publication_attempt_view a) _ h
        λ view _ made. ap (within_budget fits) (sym (ok-inj made))

  -- Work that is queued, or running under a lease that has ended, is granted to the next publisher
  -- that asks with a new attempt id, as long as the generation has attempts left, the drawn token is
  -- new, the clock has not gone back behind the request, and the next version and the size of the
  -- next state are within their limits.
  pub claim-granted :
      stored_content fits context version publisher ≡ ok previous
      → active previous ref ≡ ok p
      → (is_queued p.phase || is_running p.phase) ≡ true
      → live_lease p context.now ≡ false
      → p.attempts_in_generation < publication_attempts
      → is_fresh previous p attempt_id ≡ true
      → new_id context 0 (some previous.state) ≡ ok token
      → (token == attempt_id) ≡ false
      → p.intent.requested_at ≤ context.now
      → version_ok (previous.version + 1) ≡ true
      → fits (
          state_size (
            with_publication previous.state (
              claimed_publication p
                (new_attempt context p (new_claim attempt_id token context.now)))))
        ≡ true
      → accepted (claim_publication fits context version ref attempt_id) ≡ true
  unfolding claim_publication
  claim-granted load act phase free room fresh drawn differs later next small =
      let loaded = stored_content-Loaded fits context version publisher previous load in
      let (held, publishing, _) = active-eq-ok previous ref p act in
      let content = content_ok-IsContent previous.state loaded.content in
      let v = publication_ok-IsValid p (ground (arith, content.publication, held)) in
      let a = new_attempt context p (new_claim attempt_id token context.now) in
      let q = claimed_publication p a in
      let after = claim-IsValid context p attempt_id token v phase room differs later in
      let (events, expired) =
        accepted-ok (expire previous p context.now)
          (expire-accepted previous p context.now v free next) in
      let (main, made) = accepted-ok _ (claimed-payload next v) in
      >>=-elim (attempt_payload previous q a) _ made λ payload viewed fact_made.
        let done =
          finish_lem fits context previous (with_publication previous.state q) publication_claimed
            events payload main
            (with_publication-content_ok previous.state p q loaded.content held publishing
              (IsValid-publication_ok q after) refl refl)
            small (attempt-within q a viewed) next fact_made in
        let lease : when_some p.claim (λ c. leb c.lease_until context.now) ≡ true =
          ground (arith, free) in
        let budget : ltb p.attempts_in_generation publication_attempts ≡ true = ground arith in
        rw (load, act, phase, lease, budget, fresh, drawn, differs, viewed, expired, done) refl
