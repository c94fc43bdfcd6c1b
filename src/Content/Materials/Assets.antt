-- ===== src/Content/Materials/Assets.antt =====
-- apps/content-operations/src/domain/asset-resource.ts: `createAssetResource`.
pub mod Final
mod Tests
use jawstack.Base.{
  ℕ, ◌+◌, Bool, true, false, not, ◌&&◌, ◌||◌, Option, none, some, List, [], ◌∷◌, Text, Instant, ltb,
  leb, ◌==◌, and_some, when_some, is_some, if◌then◌else◌, Result, ok, err, ◌>>=◌, ◌>>◌, require,
  command_validation, command_rejected, resource_conflict, resource_invalid_state,
}
use jawstack.Content.Facts.{Fact, asset_snapshot_applied, asset_state}
use jawstack.Content.Materials.Reviews.{internal, same_text_option, is_expected}
use jawstack.Content.Projections.{moves_by}
use jawstack.Content.Resource.{ServiceIdentity, asset_resource}
use jawstack.Content.ReviewSchema.{slot_ok, is_pending_slot, is_ready_slot, is_expired_slot}
use jawstack.Content.Schema.{version_ok, same_key}
use jawstack.Content.Types.{AssetStatus, Verified, AssetSlot}
use jawstack.Core.Types.{ResourceState, Context}

abbrev pub asset_projector_identity : ServiceIdentity
asset_projector_identity = record { subject = 17; role = 17 }

pub data AssetProjection : Type 0 where
  asset_list : AssetProjection
  asset_content : Text → AssetProjection

pub record AssetRow : Type 0 where
  pub name : AssetProjection
  pub item_id : Text
  pub sort_at : Instant
  pub filename : Text
  pub content_id : Text
  pub media_type : Text
  pub status : AssetStatus
  pub source_version : ℕ
  pub size : ℕ
  pub sha256 : Option Text
  pub delete : Bool

abbrev asset_row : AssetSlot → AssetProjection → AssetRow
asset_row slot name = record {
  name = name;
  item_id = slot.asset_id;
  sort_at = slot.registered_at;
  filename = slot.filename;
  content_id = slot.content_id;
  media_type = slot.media_type;
  status = slot.status;
  source_version = slot.source_version;
  size = elim slot.verified [ none ↦ slot.expected_size | some v ↦ v.size ];
  sha256 = elim slot.verified [ none ↦ none | some v ↦ some v.sha256 ];
  delete = false;
}

abbrev pub asset_rows : AssetSlot → List AssetRow
asset_rows slot = asset_row slot asset_list ∷ asset_row slot (asset_content slot.content_id) ∷ []

abbrev same_projection : AssetProjection → AssetProjection → Bool
same_projection asset_list asset_list = true
same_projection (asset_content a) (asset_content b) = a == b
same_projection _ _ = false

abbrev same_asset_row : AssetRow → AssetRow → Bool
same_asset_row a b =
    same_projection a.name b.name && a.item_id == b.item_id && a.sort_at == b.sort_at

abbrev mark_delete : AssetRow → AssetRow
mark_delete r = record r { delete = true }

-- assetProjectionPlan
abbrev pub asset_projection_plan : Option AssetSlot → AssetSlot → List AssetRow
asset_projection_plan none next = moves_by same_asset_row mark_delete [] (asset_rows next)
asset_projection_plan (some p) next =
    moves_by same_asset_row mark_delete (asset_rows p) (asset_rows next)

pub record AssetDecision : Type 0 where
  pub next_state : AssetSlot
  pub events : List Fact
  pub projections : List AssetRow
  pub source_version : ℕ

-- `isDeepStrictEqual(immutable(…), immutable(…))`
abbrev pub same_registration : AssetSlot → AssetSlot → Bool
same_registration a b =
    a.asset_id == b.asset_id
    && a.content_id == b.content_id
    && a.filename == b.filename
    && a.media_type == b.media_type
    && a.expected_size == b.expected_size
    && same_key a.object_key b.object_key
    && a.uploader_id == b.uploader_id
    && a.registered_at == b.registered_at
    && a.upload_expires_at == b.upload_expires_at

abbrev pub same_verified : Option Verified → Option Verified → Bool
same_verified none none = true
same_verified (some a) (some b) = a.size == b.size && a.sha256 == b.sha256 && a.at == b.at
same_verified _ _ = false

abbrev pub asset_status_number : AssetStatus → ℕ
asset_status_number AssetStatus.pending = 0
asset_status_number AssetStatus.ready = 1
asset_status_number AssetStatus.removed = 2
asset_status_number AssetStatus.expired = 3

-- The condition that refuses a snapshot, after the stored slot.
abbrev pub rewrites : AssetSlot → AssetSlot → Bool
rewrites previous snapshot =
    leb snapshot.source_version previous.source_version
    || not (same_registration previous snapshot)
    || is_some previous.verified && not (same_verified previous.verified snapshot.verified)
    || not (is_pending_slot previous.status) && is_pending_slot snapshot.status
    || is_ready_slot previous.status && is_expired_slot snapshot.status
    || is_some previous.retired_at
      && (not (asset_status_number snapshot.status == asset_status_number previous.status)
          || not (same_text_option snapshot.retired_at previous.retired_at)
          || not (same_verified previous.verified snapshot.verified))

abbrev pub stored_asset_ok : Context AssetSlot → ResourceState AssetSlot → Bool
stored_asset_ok context p =
    slot_ok p.state
    && p.state.asset_id == context.resource_id
    && p.resource_type == asset_resource
    && p.resource_id == context.resource_id
    && version_ok p.version

abbrev pub check_previous_asset :
    Context AssetSlot
    → Option (ResourceState AssetSlot)
    → AssetSlot
    → Option ℕ
    → Result (Option AssetSlot)
check_previous_asset context none snapshot expected_version = ok none
check_previous_asset context (some p) snapshot expected_version = do
  require (stored_asset_ok context p) resource_invalid_state
  require (is_expected expected_version p.version) resource_conflict
  require (not (rewrites p.state snapshot)) command_rejected
  ok (some p.state)

-- `decide`; its event is not checked against a schema.
unfoldable pub decide_asset : Context AssetSlot → AssetSlot → Option ℕ → Result AssetDecision
decide_asset context snapshot expected_version = do
  internal asset_projector_identity context.auth
  require (context.resource_id == snapshot.asset_id) command_validation
  previous ← check_previous_asset context context.previous snapshot expected_version
  ok (record {
    next_state = snapshot;
    events = (record { event_type = asset_snapshot_applied; payload = asset_state snapshot }) ∷ [];
    projections = asset_projection_plan previous snapshot;
    source_version = snapshot.source_version;
  })
