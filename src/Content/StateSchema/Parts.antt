-- ===== src/Content/StateSchema/Parts.antt =====
-- The parts of `contentStateSchema`, and which of them a change of the publication touches.
use jawstack.Base.{when_some, includes, true, ◌≡◌, some, leb, length, all, arith, ◌==◌}
use jawstack.Content.ReviewSchema.{retained_assets, slot_ok, review_ok}
use jawstack.Content.Schema.{approval_ok, fixture_ids, publication_ok}
use jawstack.Content.StateSchema.{
  content_ok, slots_check, review_check, signoff_check, snapshot_check, approval_check,
  schedule_check, publication_check,
}
use jawstack.Content.Types.{Publication, ContentState}

pub record IsContent (s : ContentState) : Type 0 where
  pub author : includes s.author_id fixture_ids ≡ true
  pub approver : when_some s.approval approval_ok ≡ true
  pub few : leb (length s.attachments) retained_assets ≡ true
  pub slots : all slot_ok s.attachments ≡ true
  pub review : when_some s.review review_ok ≡ true
  pub publication : when_some s.publication publication_ok ≡ true
  pub owned : slots_check s ≡ true
  pub reviewed : review_check s ≡ true
  pub signed_off : signoff_check s ≡ true
  pub submitted : snapshot_check s ≡ true
  pub approved : approval_check s ≡ true
  pub scheduled : schedule_check s ≡ true
  pub published : publication_check s ≡ true

pub content_ok-IsContent : (s : ContentState) → content_ok s ≡ true → IsContent s
unfolding content_ok
content_ok-IsContent s h = ground arith

pub IsContent-content_ok : (s : ContentState) → IsContent s → content_ok s ≡ true
unfolding content_ok
IsContent-content_ok s v = simp (
  v.author, v.approver, v.few, v.slots, v.review, v.publication, v.owned, v.reviewed, v.signed_off,
  v.submitted, v.approved, v.scheduled, v.published,
)

-- The intent of a publication names its content item.
pub publication-owner :
    (s : ContentState) (p : Publication)
    → publication_check s ≡ true
    → s.publication ≡ some p
    → (p.intent.content_id == s.content_id) ≡ true
unfolding publication_check
publication-owner s p valid held = ground arith
