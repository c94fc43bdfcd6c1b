-- ===== src/Content/ReviewSchema.antt =====
-- apps/content-operations/src/shared/contracts.ts and assets.ts: the schemas of reviews and of
-- attachment slots. Byte budgets are in `Content.Resource`.
pub mod Equal
use Prim.Native.Nat.{◌/◌}
use jawstack.Base.{
  and_some, distinct, when_some, ℕ, ◌+◌, ◌*◌, Bool, true, false, not, ◌&&◌, ◌||◌, none, some, List,
  [], ◌∷◌, map, Text, Instant, ltb, leb, ◌==◌, if◌then◌else◌, is_some, length, all, keep, includes,
}
use jawstack.Content.Schema.{
  snapshot_ok, asset_bytes, version_ok, editor_ids, fixture_ids, same_bool, same_key,
  asset_object_key,
}
use jawstack.Content.Types.{
  ReviewStatus, AssetStatus, AssetSlot, Verified, ReadyAttachment, Snapshot, Review, Approval,
}

-- `limits`
abbrev pub retained_assets : ℕ
retained_assets = 32

abbrev pub upload_lifetime_ms : ℕ
upload_lifetime_ms = 60 * 60 * 1000

-- `slice(0, 10)` of an instant: its UTC day.
abbrev pub day : Instant → ℕ
day t = t / 86_400_000

abbrev pub is_blank : Text → Bool
is_blank t = t == 0

abbrev pub is_pending_review : ReviewStatus → Bool
is_pending_review ReviewStatus.pending = true
is_pending_review _ = false

abbrev pub is_approved_review : ReviewStatus → Bool
is_approved_review ReviewStatus.approved = true
is_approved_review _ = false

abbrev pub is_decided : ReviewStatus → Bool
is_decided ReviewStatus.approved = true
is_decided ReviewStatus.changes_requested = true
is_decided _ = false

-- `activeAsset`
abbrev pub is_active_status : AssetStatus → Bool
is_active_status AssetStatus.pending = true
is_active_status AssetStatus.ready = true
is_active_status _ = false

abbrev pub active_asset : AssetSlot → Bool
active_asset slot = is_active_status slot.status

abbrev pub is_retired : AssetStatus → Bool
is_retired AssetStatus.removed = true
is_retired AssetStatus.expired = true
is_retired _ = false

abbrev pub is_pending_slot : AssetStatus → Bool
is_pending_slot AssetStatus.pending = true
is_pending_slot _ = false

abbrev pub is_ready_slot : AssetStatus → Bool
is_ready_slot AssetStatus.ready = true
is_ready_slot _ = false

abbrev pub is_expired_slot : AssetStatus → Bool
is_expired_slot AssetStatus.expired = true
is_expired_slot _ = false

-- The last two refinements of `assetSlotSchema`: the verified object and the retirement time.
abbrev verified_ok : AssetSlot → Verified → Bool
verified_ok slot v =
    v.size == slot.expected_size && leb slot.registered_at v.at && ltb v.at slot.upload_expires_at

abbrev retirement_ok : AssetSlot → Instant → Bool
retirement_ok slot at =
    leb slot.registered_at at
    && when_some slot.verified (λ v. leb v.at at)
    && (not (is_expired_slot slot.status) || leb slot.upload_expires_at at)

-- assetSlotSchema
unfoldable pub slot_ok : AssetSlot → Bool
slot_ok slot =
    leb 1 slot.expected_size
    && leb slot.expected_size asset_bytes
    && includes slot.uploader_id fixture_ids
    && version_ok slot.source_version
    && same_key slot.object_key (asset_object_key slot.content_id slot.asset_id)
    && not (slot.asset_id == slot.content_id)
    && slot.upload_expires_at == slot.registered_at + upload_lifetime_ms
    && same_bool (is_retired slot.status) (is_some slot.retired_at)
    && (not (is_ready_slot slot.status) || is_some slot.verified)
    && (not (is_pending_slot slot.status || is_expired_slot slot.status)
        || not (is_some slot.verified))
    && when_some slot.verified (verified_ok slot)
    && when_some slot.retired_at (retirement_ok slot)

-- The body of `readyAttachments` for one slot; a ready slot has been verified, so the defaults for
-- a slot that has not are never read from a valid state.
abbrev ready_attachment : AssetSlot → ReadyAttachment
ready_attachment slot = record {
  content_id = slot.content_id;
  asset_id = slot.asset_id;
  object_key = slot.object_key;
  filename = slot.filename;
  media_type = slot.media_type;
  size = elim slot.verified [ none ↦ 0 | some v ↦ v.size ];
  sha256 = elim slot.verified [ none ↦ 0 | some v ↦ v.sha256 ];
}

-- `sort((a, b) => a.assetId.localeCompare(b.assetId))`, for identifiers numbered in that order.
insert_attachment : ReadyAttachment → List ReadyAttachment → List ReadyAttachment
insert_attachment a [] = a ∷ []
insert_attachment a (b ∷ bs) =
    let rest = insert_attachment a bs in if leb a.asset_id b.asset_id then a ∷ b ∷ bs else b ∷ rest

unfoldable pub sort_attachments : List ReadyAttachment → List ReadyAttachment
unfolding insert_attachment
sort_attachments [] = []
sort_attachments (a ∷ as') = insert_attachment a (sort_attachments as')

unfoldable pub ready_attachments : List AssetSlot → List ReadyAttachment
unfolding sort_attachments
ready_attachments slots =
    sort_attachments (map ready_attachment (keep (λ slot. is_ready_slot slot.status) slots))

-- Equality of JSON texts, field by field.
abbrev pub same_attachment : ReadyAttachment → ReadyAttachment → Bool
same_attachment a b =
    a.content_id == b.content_id
    && a.asset_id == b.asset_id
    && same_key a.object_key b.object_key
    && a.filename == b.filename
    && a.media_type == b.media_type
    && a.size == b.size
    && a.sha256 == b.sha256

unfoldable pub same_attachments : List ReadyAttachment → List ReadyAttachment → Bool
same_attachments [] [] = true
same_attachments (a ∷ as') (b ∷ bs) = same_attachment a b && same_attachments as' bs
same_attachments _ _ = false

abbrev pub same_snapshot : Snapshot → Snapshot → Bool
same_snapshot s t =
    s.content_id == t.content_id
    && s.revision_id == t.revision_id
    && s.author_id == t.author_id
    && s.title == t.title
    && s.body == t.body
    && same_attachments s.attachments t.attachments
    && s.submitted_at == t.submitted_at

abbrev pub same_approval : Approval → Approval → Bool
same_approval a b =
    a.review_id == b.review_id
    && a.revision_id == b.revision_id
    && a.approved_by == b.approved_by
    && a.approved_at == b.approved_at

-- The first refinement of `reviewTaskStateSchema`: the reminder lies in the review interval.
abbrev reminder_ok : Review → ℕ → Bool
reminder_ok r d = leb (day r.due_at) d && when_some r.decision (λ e. leb d (day e.at))

-- reviewTaskStateSchema
unfoldable pub review_ok : Review → Bool
review_ok r =
    snapshot_ok r.submitted
    && includes r.assigned_editor_id editor_ids
    && version_ok r.source_version
    && when_some r.decision (λ e. includes e.actor_id fixture_ids)
    && when_some r.last_reminder_day (reminder_ok r)
    && r.content_id == r.submitted.content_id
    && ltb r.submitted.submitted_at r.due_at
    && same_bool (is_pending_review r.status) (not (is_some r.decision))
    && (not (is_decided r.status)
        || and_some r.decision
            (λ e. includes e.actor_id editor_ids && and_some e.note (λ n. not (is_blank n))))
    && when_some r.decision (λ e. leb r.submitted.submitted_at e.at)
