-- ===== src/Content/Publishing/Retry.antt =====
-- Whether `retryPublication` (publication-commands.ts) accepts, against what
-- shared/publication-recovery.ts reports.
use jawstack.Base.{
  ℕ, ◌+◌, ◌-◌, Bool, true, false, Option, ◌≡◌, refl, arith, ok, ◌∙◌, sym, ltb, ==_iff, Bool-cases,
  inl, inr,
}
use jawstack.Content.Facts.{state_size, fact_size, Sized, fact, payload_ok, publication_retried}
use jawstack.Content.Publishing.{
  Stored, PublicationRef, active, closed_attempt, expire, retried_publication, request_payload,
}
use jawstack.Content.Publishing.Accepts.{
  accepted, accepted-ok, with_publication-content_ok, expire-accepted, closed-accepted,
}
use jawstack.Content.Publishing.Commands.{retry_publication, with_publication}
use jawstack.Content.Publishing.Preserve.{
  IsValid, publication_ok-IsValid, IsValid-publication_ok, retry-IsValid,
}
use jawstack.Content.Publishing.Refines.{active-eq-ok}
use jawstack.Content.Recovery.{live_lease, recoverable_work, publication_recovery}
use jawstack.Content.Resource.{stored_content, editor}
use jawstack.Content.Resource.Laws.{stored_content-Loaded, finish_lem}
use jawstack.Content.Schema.{version_ok, publication_generations}
use jawstack.Content.StateSchema.Parts.{content_ok-IsContent, publication-owner}
use jawstack.Content.Types.{Publication, ContentState, Attempt}
use jawstack.Core.Types.{Context}

module _ (fits : Sized → Bool) (context : Context ContentState) (version : ℕ) (ref : PublicationRef)
    (previous : Stored) (p : Publication)
    (load : stored_content fits context version editor ≡ ok previous)
    (act : active previous ref ≡ ok p) where
  -- The refusals, by the guards.
  retry-refused :
      (publication_recovery p context.now).eligible ≡ false
      → accepted (retry_publication fits context version ref) ≡ false
  unfolding retry_publication publication_recovery
  retry-refused unable = rw (load, act) (ground (arith, unable))

  loaded-IsValid : (p.intent.content_id ≡ previous.resource_id) × IsValid p
  loaded-IsValid =
      let loaded = stored_content-Loaded fits context version editor previous load in
      let content = content_ok-IsContent previous.state loaded.content in
      let held = (active-eq-ok previous ref p act).0 in
      (
        (==_iff p.intent.content_id previous.state.content_id).0
              (publication-owner previous.state p loaded.published held)
            ∙ (loaded.content_id ∙ sym loaded.resource_id),
        publication_ok-IsValid p (ground (arith, content.publication, held)),
      )

  -- The fact that announces the new generation is always valid.
  announced :
      (closed : Option Attempt)
      → version_ok (previous.version + 1) ≡ true
      → IsValid (retried_publication p closed)
      → accepted
          (fact publication_retried (request_payload previous (retried_publication p closed)))
        ≡ true
  unfolding fact payload_ok
  announced closed next v =
      ground (arith, loaded-IsValid.0, v.generation, v.intent, loaded-IsValid.1.generation)

  retry-accepted :
      version_ok (previous.version + 1) ≡ true
      → ((closed : Option Attempt)
          → (fits (state_size (with_publication previous.state (retried_publication p closed)))
              ≡ true)
            × (fits (fact_size (request_payload previous (retried_publication p closed))) ≡ true))
      → live_lease p context.now ≡ false
      → recoverable_work p ≡ true
      → ltb 0 (publication_generations - p.generation) ≡ true
      → accepted (retry_publication fits context version ref) ≡ true
  unfolding retry_publication publication_recovery
  retry-accepted next small dead work room =
      let v = loaded-IsValid.1 in
      let loaded = stored_content-Loaded fits context version editor previous load in
      let (held, publishing, _) = active-eq-ok previous ref p act in
      let (closed, same) =
        accepted-ok (closed_attempt p context.now)
          (closed-accepted previous p context.now v dead) in
      let q = retried_publication p closed in
      let after = retry-IsValid p closed context.now v dead same work (ground (arith, room)) in
      let (events, expired) =
        accepted-ok (expire previous p context.now)
          (expire-accepted previous p context.now v dead next) in
      let (main, made) = accepted-ok _ (announced closed next after) in
      let done =
        finish_lem fits context previous (with_publication previous.state q) publication_retried
          events (request_payload previous q) main
          (with_publication-content_ok previous.state p q loaded.content held publishing
            (IsValid-publication_ok q after) refl refl)
          (small closed).0 (small closed).1 next made in
      rw (load, act, dead, work, room, same, expired, done) refl

  -- On a row that loads and whose publication is the one named, `retryPublication` accepts exactly
  -- when `publicationRecovery` says that the publication is eligible, as long as the next version
  -- and the sizes of the next state and of the fact are within their limits.
  pub retry-eligible :
      version_ok (previous.version + 1) ≡ true
      → ((closed : Option Attempt)
          → (fits (state_size (with_publication previous.state (retried_publication p closed)))
              ≡ true)
            × (fits (fact_size (request_payload previous (retried_publication p closed))) ≡ true))
      → accepted (retry_publication fits context version ref)
        ≡ (publication_recovery p context.now).eligible
  unfolding publication_recovery
  retry-eligible next small = elim (Bool-cases (publication_recovery p context.now).eligible) [
    | inl able ↦
        retry-accepted next small (ground (arith, able)) (ground (arith, able))
          (ground (arith, able))
        ∙ sym able
    | inr unable ↦ retry-refused unable ∙ sym unable
  ]
