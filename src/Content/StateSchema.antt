-- ===== src/Content/StateSchema.antt =====
-- apps/content-operations/src/shared/contracts.ts: the schema of a content item's whole state.
pub mod Parts
use jawstack.Base.{
  and_some, distinct, when_some, includes, Bool, true, false, not, ◌&&◌, ◌||◌, map, leb, ◌==◌,
  if◌then◌else◌, is_some, length, all, any, keep,
}
use jawstack.Content.ReviewSchema.{
  retained_assets, is_pending_review, is_approved_review, active_asset, is_pending_slot, slot_ok,
  ready_attachments, sort_attachments, same_attachments, same_snapshot, same_approval, review_ok,
}
use jawstack.Content.Schema.{active_assets, approval_ok, fixture_ids, same_bool, publication_ok}
use jawstack.Content.Types.{
  ContentStatus, Review, Approval, Publication, ContentState, is_publishing, is_succeeded,
}

-- Which statuses `contentStateSchema` groups.
abbrev pub is_in_review : ContentStatus → Bool
is_in_review ContentStatus.in_review = true
is_in_review _ = false

abbrev pub is_draft : ContentStatus → Bool
is_draft ContentStatus.draft = true
is_draft _ = false

abbrev pub is_scheduled : ContentStatus → Bool
is_scheduled ContentStatus.scheduled = true
is_scheduled _ = false

abbrev pub is_signed_off : ContentStatus → Bool
is_signed_off ContentStatus.approved = true
is_signed_off ContentStatus.scheduled = true
is_signed_off ContentStatus.publishing = true
is_signed_off ContentStatus.published = true
is_signed_off _ = false

abbrev pub has_intent : ContentStatus → Bool
has_intent ContentStatus.publishing = true
has_intent ContentStatus.published = true
has_intent _ = false

abbrev pub may_keep_intent : ContentStatus → Bool
may_keep_intent ContentStatus.publishing = true
may_keep_intent ContentStatus.published = true
may_keep_intent ContentStatus.archived = true
may_keep_intent _ = false

-- The refinements of `contentStateSchema`, in their order.
module _ (s : ContentState) where
  unfoldable pub slots_check : Bool
  slots_check =
      all (λ slot. slot.content_id == s.content_id) s.attachments
      && distinct (map (λ slot. slot.asset_id) s.attachments)
      && leb (length (keep active_asset s.attachments)) active_assets

  unfoldable pub review_check : Bool
  review_check =
      when_some s.review (λ r. r.content_id == s.content_id)
      && (not (is_in_review s.status) || and_some s.review (λ r. is_pending_review r.status))
      && (is_in_review s.status || not (and_some s.review (λ r. is_pending_review r.status)))

  unfoldable pub signoff_check : Bool
  signoff_check =
      (not (is_signed_off s.status)
        || is_some s.approval && and_some s.review (λ r. is_approved_review r.status))
      && (not (is_draft s.status || is_in_review s.status) || not (is_some s.approval))

  abbrev pub submitted_matches : Review → Bool
  submitted_matches r =
      r.submitted.revision_id == s.revision_id
      && r.submitted.title == s.title
      && r.submitted.body == s.body
      && r.submitted.author_id == s.author_id
      && not (any (λ slot. is_pending_slot slot.status) s.attachments)
      && same_attachments (sort_attachments r.submitted.attachments)
          (ready_attachments s.attachments)

  unfoldable pub snapshot_check : Bool
  snapshot_check =
      if is_in_review s.status || is_signed_off s.status || is_some s.publication
      then and_some s.review submitted_matches
      else true

  abbrev approval_matches : Approval → Review → Bool
  approval_matches a r =
      is_approved_review r.status
      && a.review_id == r.review_id
      && a.revision_id == r.submitted.revision_id
      && a.revision_id == s.revision_id
      && and_some r.decision (λ d. a.approved_by == d.actor_id && a.approved_at == d.at)

  unfoldable pub approval_check : Bool
  approval_check = when_some s.approval (λ a. and_some s.review (approval_matches a))

  unfoldable pub schedule_check : Bool
  schedule_check =
      same_bool (is_scheduled s.status) (is_some s.schedule)
      && when_some s.schedule (λ c. c.revision_id == s.revision_id)

  abbrev pub intent_matches : Publication → Bool
  intent_matches p =
      and_some s.approval (λ a. same_approval p.intent.approval a)
      && and_some s.review (λ r. same_snapshot p.intent.snapshot r.submitted)
      && may_keep_intent s.status
      && p.intent.content_id == s.content_id
      && same_bool (is_publishing s.status) (not (is_succeeded p.phase))

  unfoldable pub publication_check : Bool
  publication_check =
      (not (has_intent s.status) || is_some s.publication) && when_some s.publication intent_matches

-- contentStateSchema, but for its byte budget
unfoldable pub content_ok : ContentState → Bool
content_ok s =
    includes s.author_id fixture_ids
    && when_some s.approval approval_ok
    && leb (length s.attachments) retained_assets
    && all slot_ok s.attachments
    && when_some s.review review_ok
    && when_some s.publication publication_ok
    && slots_check s
    && review_check s
    && signoff_check s
    && snapshot_check s
    && approval_check s
    && schedule_check s
    && publication_check s
