-- ===== src/Content/Lifecycle/Assets.antt =====
-- apps/content-operations/src/domain/resources.ts: the commands of a draft's attachments.
use jawstack.Base.{
  ℕ, ◌+◌, Bool, true, not, ◌&&◌, Option, none, some, List, [], ◌∷◌, ◌++◌, map, Text, Instant, ltb,
  leb, ◌==◌, find, keep, length, if◌then◌else◌, Result, ok, err, ◌>>=◌, ◌>>◌, require,
  command_rejected, runtime_internal,
}
use jawstack.Content.Facts.{
  Sized, EventType, asset_registered, asset_ready, asset_removed, asset_expired,
}
use jawstack.Content.Publishing.{Stored}
use jawstack.Content.Resource.{
  Policy, owner_or_editor, upload_verifier, asset_janitor, actor, stored_content, new_id, finish,
  Decision,
}
use jawstack.Content.ReviewSchema.{
  retained_assets, upload_lifetime_ms, active_asset, is_pending_slot,
}
use jawstack.Content.Schema.{active_assets, same_key, asset_object_key}
use jawstack.Content.StateSchema.{is_draft}
use jawstack.Content.Types.{ObjectKey, AssetStatus, AssetSlot, ContentState}
use jawstack.Core.Types.{Context}

pub record RegisterInput : Type 0 where
  pub expected_version : ℕ
  pub filename : Text
  pub media_type : Text
  pub expected_size : ℕ

-- objectReferenceSchema
pub record ObjectReference : Type 0 where
  pub content_id : Text
  pub asset_id : Text
  pub object_key : ObjectKey
  pub media_type : Text
  pub size : ℕ
  pub sha256 : Text

-- Which of the two commands that retire a slot: "removeAsset" or "expireAsset".
pub data Retirement : Type 0 where
  removes expires : Retirement

abbrev pub find_slot : ContentState → Text → Option AssetSlot
find_slot s asset_id = find (λ slot. slot.asset_id == asset_id) s.attachments

-- `requireThat` of a slot that may be missing
abbrev pub slot_where : (AssetSlot → Bool) → Option AssetSlot → Result AssetSlot
slot_where test none = err command_rejected
slot_where test (some slot) = require (test slot) command_rejected >> ok slot

-- `attachments.map((old) => (old.assetId === asset.assetId ? asset : old))`
abbrev pub put_slot : AssetSlot → List AssetSlot → List AssetSlot
put_slot asset slots = map (λ old. if old.asset_id == asset.asset_id then asset else old) slots

abbrev pub registered : Stored → RegisterInput → Text → Text → Text → Instant → AssetSlot
registered previous input content_id asset_id subject now = record {
  asset_id = asset_id;
  content_id = content_id;
  filename = input.filename;
  media_type = input.media_type;
  expected_size = input.expected_size;
  object_key = asset_object_key content_id asset_id;
  uploader_id = subject;
  registered_at = now;
  upload_expires_at = now + upload_lifetime_ms;
  status = AssetStatus.pending;
  verified = none;
  retired_at = none;
  source_version = previous.version + 1;
}

abbrev pub has_room : List AssetSlot → Bool
has_room slots =
    ltb (length (keep active_asset slots)) active_assets && ltb (length slots) retained_assets

abbrev pub is_object_of : Text → AssetSlot → ObjectReference → Bool
is_object_of content_id slot object =
    object.content_id == content_id
    && object.asset_id == slot.asset_id
    && same_key object.object_key slot.object_key
    && object.media_type == slot.media_type
    && object.size == slot.expected_size

abbrev pub verified_slot : Stored → AssetSlot → ObjectReference → Instant → AssetSlot
verified_slot previous slot object now = record slot {
  status = AssetStatus.ready;
  verified = some (record { size = object.size; sha256 = object.sha256; at = now });
  source_version = previous.version + 1;
}

abbrev pub retirement_policy : Retirement → Policy
retirement_policy removes = owner_or_editor
retirement_policy expires = asset_janitor

abbrev pub retired_status : Retirement → AssetStatus
retired_status removes = AssetStatus.removed
retired_status expires = AssetStatus.expired

abbrev pub retired_event : Retirement → EventType
retired_event removes = asset_removed
retired_event expires = asset_expired

-- What only `expireAsset` requires.
abbrev pub may_retire : Retirement → AssetSlot → Instant → Bool
may_retire removes slot now = true
may_retire expires slot now = is_pending_slot slot.status && leb slot.upload_expires_at now

abbrev pub retired : Stored → AssetSlot → Retirement → Instant → AssetSlot
retired previous slot how now = record slot {
  status = retired_status how;
  retired_at = some now;
  source_version = previous.version + 1;
}

module _ (fits : Sized → Bool) (context : Context ContentState) where
  unfoldable pub register_asset : RegisterInput → Result Decision
  register_asset input = do
    previous ← stored_content fits context input.expected_version owner_or_editor
    require (is_draft previous.state.status) command_rejected
    require (has_room previous.state.attachments) command_rejected
    asset_id ← new_id context 0 (some previous.state)
    revision_id ← new_id context 1 (some previous.state)
    require (not (asset_id == revision_id)) runtime_internal
    identity ← actor context.auth
    let asset = registered previous input context.resource_id asset_id identity.subject context.now
    finish fits context (some previous)
        (record (previous.state) {
          revision_id = revision_id;
          attachments = previous.state.attachments ++ (asset ∷ []);
        })
        asset_registered [] (some asset) none

  unfoldable pub complete_upload : ℕ → Text → ObjectReference → Result Decision
  complete_upload expected_version asset_id object = do
    previous ← stored_content fits context expected_version upload_verifier
    slot ←
        slot_where (λ s. is_draft previous.state.status && is_pending_slot s.status)
          (find_slot previous.state asset_id)
    require (ltb context.now slot.upload_expires_at) command_rejected
    require (is_object_of context.resource_id slot object) command_rejected
    let asset = verified_slot previous slot object context.now
    finish fits context (some previous)
        (record (previous.state) { attachments = put_slot asset previous.state.attachments })
        asset_ready [] (some asset) none

  -- `removeAsset` and `expireAsset`
  unfoldable pub retire_asset : Retirement → ℕ → Text → Result Decision
  retire_asset how expected_version asset_id = do
    previous ← stored_content fits context expected_version (retirement_policy how)
    slot ←
        slot_where (λ s. is_draft previous.state.status && active_asset s)
          (find_slot previous.state asset_id)
    require (may_retire how slot context.now) command_rejected
    let asset = retired previous slot how context.now
    revision_id ← new_id context 0 (some previous.state)
    finish fits context (some previous)
        (record (previous.state) {
          revision_id = revision_id;
          attachments = put_slot asset previous.state.attachments;
        })
        (retired_event how) [] (some asset) none
