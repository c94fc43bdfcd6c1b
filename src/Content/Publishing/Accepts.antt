-- ===== src/Content/Publishing/Accepts.antt =====
-- What the commands of publication-commands.ts need to be accepted: facts and states that are valid.
use jawstack.Base.{◌+◌, Bool, true, false, some, Instant, ◌≡◌, refl, arith, Result, ok, err}
use jawstack.Content.Facts.{fact, payload_ok, publication_attempt_view}
use jawstack.Content.Publishing.{Stored, closed_attempt, expire}
use jawstack.Content.Publishing.Commands.{with_publication}
use jawstack.Content.Publishing.Preserve.{IsValid}
use jawstack.Content.Recovery.{live_lease}
use jawstack.Content.Schema.{version_ok, publication_ok, attempt_ok, claim_ok, claim_check}
use jawstack.Content.StateSchema.{
  content_ok, slots_check, review_check, signoff_check, snapshot_check, approval_check,
  schedule_check, publication_check,
}
use jawstack.Content.StateSchema.Parts.{content_ok-IsContent, IsContent-content_ok}
use jawstack.Content.Types.{Publication, ContentState, is_publishing, is_succeeded}

abbrev pub accepted {ℓ} : {A : Type ℓ} → Result A → Bool
accepted (ok a) = true
accepted (err e) = false

-- A publication that is still under way may be replaced by a valid one with the same intent.
pub with_publication-content_ok :
    (s : ContentState) (p q : Publication)
    → content_ok s ≡ true
    → s.publication ≡ some p
    → is_publishing s.status ≡ true
    → publication_ok q ≡ true
    → q.intent ≡ p.intent
    → is_succeeded q.phase ≡ false
    → content_ok (with_publication s q) ≡ true
with_publication-content_ok s p q valid held publishing after same unfinished =
    let v = content_ok-IsContent s valid in
    IsContent-content_ok (with_publication s q) (record {
      author = v.author;
      approver = v.approver;
      few = v.few;
      slots = v.slots;
      review = v.review;
      publication = after;
      owned = unfold slots_check in v.owned;
      reviewed = unfold review_check in v.reviewed;
      signed_off = unfold signoff_check in v.signed_off;
      submitted = unfold snapshot_check in ground (arith, v.submitted);
      approved = unfold approval_check in v.approved;
      scheduled = unfold schedule_check in v.scheduled;
      published = unfold publication_check in ground (arith, v.published, same);
    })

module _ (previous : Stored) (p : Publication) (now : Instant) (v : IsValid p)
    (dead : live_lease p now ≡ false) where
  -- An expired claim can be closed: its attempt is there, and so is the fact that reports it.
  pub expire-accepted :
      version_ok (previous.version + 1) ≡ true → accepted (expire previous p now) ≡ true
  unfolding expire publication_attempt_view fact payload_ok claim_ok claim_check attempt_ok
  expire-accepted next = ground (arith, v.attempt, v.claimed)

  pub closed-accepted : accepted (closed_attempt p now) ≡ true
  unfolding claim_check
  closed-accepted = ground (arith, v.claimed)

pub accepted-ok {ℓ} : {A : Type ℓ} (r : Result A) → accepted r ≡ true → (a : A) × (r ≡ ok a)
accepted-ok (ok a) h = (a, refl)
accepted-ok (err e) h = cc
