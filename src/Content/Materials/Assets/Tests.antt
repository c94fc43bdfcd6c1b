-- ===== src/Content/Materials/Assets/Tests.antt =====
-- A removed upload, and the theorem on the snapshots of an asset applied to it.
use jawstack.Base.{◌+◌, none, some, List, [], ◌∷◌, refl}
use jawstack.Content.Materials.Assets.Final.{
  AssetState, AssetCall, apply_assets, SameSlot, retired_asset_is_final,
}
use jawstack.Content.Types.{asset_original, AssetStatus, AssetSlot}
use jawstack.Core.Types.{AuthMode, Context}

abbrev removed_slot : AssetSlot
removed_slot = record {
  asset_id = 50;
  content_id = 100;
  filename = 8;
  media_type = 9;
  expected_size = 1000;
  object_key = asset_original 100 50;
  uploader_id = 1;
  registered_at = 1000;
  upload_expires_at = 3601000;
  status = AssetStatus.removed;
  verified = none;
  retired_at = some 2000;
  source_version = 3;
}

abbrev removed_row : AssetState
removed_row = record {
  resource_type = 3;
  resource_id = 50;
  version = 2;
  state = removed_slot;
  created_at = 1000;
  updated_at = 2000;
  created_by = 17;
  updated_by = 17;
  tenant_id = none;
}

abbrev projector : Context AssetSlot
projector = record {
  auth = record {
    subject = 17;
    display_name = none;
    roles = 17 ∷ [];
    tenant_id = none;
    mode = AuthMode.dev;
  };
  previous = none;
  resource_id = 50;
  request_id = 900;
  correlation_id = 901;
  now = 5000;
  ids = λ i. 200 + i;
}

-- A snapshot that would bring the upload back, and one that only is newer.
abbrev calls : List AssetCall
calls =
    (
      projector,
      record removed_slot { status = AssetStatus.pending; retired_at = none; source_version = 4 },
      2,
    )
    ∷ (projector, record removed_slot { source_version = 5 }, 2)
    ∷ []

retired_asset_is_final_example : SameSlot removed_slot (apply_assets removed_row calls).state
retired_asset_is_final_example = retired_asset_is_final removed_row calls refl
