-- ===== src/Content/Editorial/Reviewed.antt =====
-- How the commands of apps/content-operations/src/domain/resources.ts change the review of a content item.
use jawstack.Base.{
  ok-inj, ℕ, ◌+◌, Bool, true, not, Option, none, some, Text, ◌==◌, when_some, ◌≡◌, refl, sym, ap,
  ◌∙◌, ◌<◌, arith, ok, >>=-elim, require-elim, Bool-cases, inl, inr,
}
use jawstack.Content.Editorial.{Turns, stays, advances, begins}
use jawstack.Content.Facts.{Sized, fact, review_superseded, review_state}
use jawstack.Content.Lifecycle.{SubmitInput, Verdict, submission, decided, reminder_due}
use jawstack.Content.Publishing.{Stored}
use jawstack.Content.Resource.{
  close_review, Policy, editor, actor, stored_content, stored_ok, new_id, Superseded, supersede,
  superseded_by,
}
use jawstack.Content.Resource.Laws.{stored_content-Loaded}
use jawstack.Content.ReviewSchema.{day, is_pending_review, review_ok}
use jawstack.Content.ReviewSchema.Equal.{same_snapshot_refl}
use jawstack.Content.Types.{Review, ContentState}
use jawstack.Core.Types.{Context}

module _ (fits : Sized → Bool) (context : Context ContentState) where
  -- A stored review is no newer than its row.
  review-version :
      (version : ℕ) (policy : Policy) (previous : Stored) (r : Review)
      → stored_content fits context version policy ≡ ok previous
      → previous.state.review ≡ some r
      → r.source_version < previous.version + 1
  unfolding stored_ok
  review-version version policy previous r load held =
      let loaded = stored_content-Loaded fits context version policy previous load in
      ground (arith, loaded.valid, held)

  fresh-review :
      (review_id : Text) (previous : Stored) (o : Option Review)
      → previous.state.review ≡ o
      → new_id context 0 (some previous.state) ≡ ok review_id
      → when_some o (λ r. not (r.review_id == review_id)) ≡ true
  unfolding new_id
  fresh-review review_id previous none held drawn = refl
  fresh-review review_id previous (some r) held drawn = ground (arith, held, drawn)

  pub submission-Turns :
      (previous : Stored) (input : SubmitInput) (review_id : Text)
      → new_id context 0 (some previous.state) ≡ ok review_id
      → Turns previous.state.review
          (some (submission previous input context.resource_id review_id context.now))
  submission-Turns previous input review_id drawn =
      begins (submission previous input context.resource_id review_id context.now) refl
        (fresh-review review_id previous previous.state.review refl drawn)

  pub reminder-Turns :
      (version : ℕ) (policy : Policy) (previous : Stored) (r : Review)
      → stored_content fits context version policy ≡ ok previous
      → previous.state.review ≡ some r
      → is_pending_review r.status ≡ true
      → reminder_due r context.now ≡ true
      → Turns previous.state.review (
          some (record r {
            last_reminder_day = some (day context.now);
            source_version = previous.version + 1;
          }))
  reminder-Turns version policy previous r load held pending due =
      let newer = review-version version policy previous r load held in
      advances r _ held refl refl
        (ground (arith, newer, same_snapshot_refl r.submitted, pending, due))

  pub verdict-Turns :
      (verdict : Verdict) (version : ℕ) (previous : Stored) (r : Review) (subject note : Text)
      → stored_content fits context version editor ≡ ok previous
      → previous.state.review ≡ some r
      → is_pending_review r.status ≡ true
      → Turns previous.state.review (some (decided previous r verdict subject context.now note))
  verdict-Turns verdict version previous r subject note load held pending =
      let newer = review-version version editor previous r load held in
      advances r _ held refl refl (ground (arith, newer, same_snapshot_refl r.submitted, pending))

  close_review-Turns :
      (previous : Stored) (r : Review) (closed : Superseded)
      → previous.state.review ≡ some r
      → r.source_version < previous.version + 1
      → close_review context previous r ≡ ok closed
      → Turns previous.state.review closed.review
  unfolding close_review
  close_review-Turns previous r closed held newer h =
      elim (Bool-cases (is_pending_review r.status)) [
        | inl pending ↦ >>=-elim (actor context.auth) _ (rw pending at h) λ identity _ h1.
            let next = superseded_by identity.subject context previous r in
            require-elim (review_ok next) _ _ h1 λ _ h2.
              >>=-elim (fact review_superseded (review_state next)) _ h2 λ event _ h3.
                advances r next held (sym (ap (λ (c : Superseded). c.review) (ok-inj h3))) refl
                  (ground (arith, newer, same_snapshot_refl r.submitted, pending))
        | inr done ↦
            stays (sym (ap (λ (c : Superseded). c.review) (ok-inj (rw done at h))) ∙ sym held)
      ]

  pub supersede-Turns :
      (version : ℕ) (policy : Policy) (previous : Stored) (closed : Superseded)
      → stored_content fits context version policy ≡ ok previous
      → supersede context previous ≡ ok closed
      → Turns previous.state.review closed.review
  unfolding supersede
  supersede-Turns version policy previous closed load h = by_review previous.state.review refl
    where
      by_review :
          (o : Option Review)
          → previous.state.review ≡ o
          → Turns previous.state.review closed.review
      by_review none held =
          stays (sym (ap (λ (c : Superseded). c.review) (ok-inj (rw held at h))) ∙ sym held)
      by_review (some r) held =
          close_review-Turns previous r closed held
            (review-version version policy previous r load held) (rw held at h)
