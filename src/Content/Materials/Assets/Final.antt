-- ===== src/Content/Materials/Assets/Final.antt =====
-- What the snapshots of an asset that apps/content-operations/src/domain/asset-resource.ts accepts one
-- after another have in common.
use jawstack.Base.{
  not-eq-true, ℕ, ◌+◌, true, false, not, Option, some, List, [], ◌∷◌, ◌==◌, is_some, ◌≡◌, refl, sym,
  ap, ◌∙◌, subst, ◌≤◌, arith, Result, ok, err, >>=-elim, require-elim, ok-inj,
}
use jawstack.Content.Materials.Assets.{
  AssetDecision, decide_asset, check_previous_asset, rewrites, stored_asset_ok, same_registration,
  same_verified, asset_status_number, asset_projector_identity,
}
use jawstack.Content.Materials.Reviews.{internal, same_text_option, is_expected}
use jawstack.Content.Materials.Reviews.Equal.{same_text_option-eq}
use jawstack.Content.ReviewSchema.Equal.{same_key-eq}
use jawstack.Content.Types.{AssetStatus, Verified, AssetSlot}
use jawstack.Core.Types.{ResourceState, Context}

abbrev pub AssetState : Type 0
AssetState = ResourceState AssetSlot

abbrev pub reads_asset : Context AssetSlot → AssetState → Context AssetSlot
reads_asset context row = record context { previous = some row }

abbrev pub asset_row_after : AssetState → Result AssetDecision → AssetState
asset_row_after row (ok d) = record row { version = row.version + 1; state = d.next_state }
asset_row_after row (err code) = row

-- A call of "applySnapshot": its context, its snapshot and the version that it expects.
abbrev pub AssetCall : Type 0
AssetCall = Context AssetSlot × AssetSlot × ℕ

unfoldable pub apply_assets : AssetState → List AssetCall → AssetState
unfolding decide_asset
apply_assets row [] = row
apply_assets row ((context, snapshot, version) ∷ rest) =
    apply_assets
      (asset_row_after row (decide_asset (reads_asset context row) snapshot (some version))) rest

-- The two slots are of one retired upload, and nothing of it has changed but the source's version.
pub record SameSlot (a b : AssetSlot) : Type 0 where
  pub asset_id : b.asset_id ≡ a.asset_id
  pub content_id : b.content_id ≡ a.content_id
  pub filename : b.filename ≡ a.filename
  pub media_type : b.media_type ≡ a.media_type
  pub expected_size : b.expected_size ≡ a.expected_size
  pub object_key : b.object_key ≡ a.object_key
  pub uploader_id : b.uploader_id ≡ a.uploader_id
  pub registered_at : b.registered_at ≡ a.registered_at
  pub upload_expires_at : b.upload_expires_at ≡ a.upload_expires_at
  pub status : b.status ≡ a.status
  pub verified : b.verified ≡ a.verified
  pub retired_at : b.retired_at ≡ a.retired_at
  pub newer : a.source_version ≤ b.source_version

same_verified-eq : (a b : Option Verified) → same_verified a b ≡ true → a ≡ b
same_verified-eq a b h = ground (arith, h)

asset_status-eq :
    (a b : AssetStatus) → (asset_status_number a == asset_status_number b) ≡ true → a ≡ b
asset_status-eq a b h = ground (arith, h)

SameSlot-refl : (a : AssetSlot) → SameSlot a a
SameSlot-refl a = record {
  asset_id = refl;
  content_id = refl;
  filename = refl;
  media_type = refl;
  expected_size = refl;
  object_key = refl;
  uploader_id = refl;
  registered_at = refl;
  upload_expires_at = refl;
  status = refl;
  verified = refl;
  retired_at = refl;
  newer = omega arith;
}

SameSlot-trans : {a b c : AssetSlot} → SameSlot a b → SameSlot b c → SameSlot a c
SameSlot-trans f g = record {
  asset_id = g.asset_id ∙ f.asset_id;
  content_id = g.content_id ∙ f.content_id;
  filename = g.filename ∙ f.filename;
  media_type = g.media_type ∙ f.media_type;
  expected_size = g.expected_size ∙ f.expected_size;
  object_key = g.object_key ∙ f.object_key;
  uploader_id = g.uploader_id ∙ f.uploader_id;
  registered_at = g.registered_at ∙ f.registered_at;
  upload_expires_at = g.upload_expires_at ∙ f.upload_expires_at;
  status = g.status ∙ f.status;
  verified = g.verified ∙ f.verified;
  retired_at = g.retired_at ∙ f.retired_at;
  newer = omega (arith, f.newer, g.newer);
}

rewrites-SameSlot :
    (a b : AssetSlot) → is_some a.retired_at ≡ true → rewrites a b ≡ false → SameSlot a b
rewrites-SameSlot a b retired kept =
    let registered : same_registration a b ≡ true = ground (arith, kept) in
    let status : (asset_status_number b.status == asset_status_number a.status) ≡ true =
      ground (arith, kept, retired) in
    let times : same_text_option b.retired_at a.retired_at ≡ true = ground (arith, kept, retired) in
    let checked : same_verified a.verified b.verified ≡ true = ground (arith, kept, retired) in
    record {
      asset_id = ground (arith, registered);
      content_id = ground (arith, registered);
      filename = ground (arith, registered);
      media_type = ground (arith, registered);
      expected_size = ground (arith, registered);
      object_key = sym (same_key-eq a.object_key b.object_key (ground (arith, registered)));
      uploader_id = ground (arith, registered);
      registered_at = ground (arith, registered);
      upload_expires_at = ground (arith, registered);
      status = asset_status-eq b.status a.status status;
      verified = sym (same_verified-eq a.verified b.verified checked);
      retired_at = same_text_option-eq b.retired_at a.retired_at times;
      newer = ground (arith, kept);
    }

decide_asset-kept :
    (context : Context AssetSlot) (row : AssetState) (snapshot : AssetSlot) (version : ℕ)
    {d : AssetDecision}
    → decide_asset (reads_asset context row) snapshot (some version) ≡ ok d
    → (rewrites row.state snapshot ≡ false) × (d.next_state ≡ snapshot)
unfolding decide_asset
decide_asset-kept context row snapshot version {d} h =
    >>=-elim (internal asset_projector_identity context.auth) _ h λ _ _ h1.
      require-elim (context.resource_id == snapshot.asset_id) _ _ h1 λ _ h2.
        >>=-elim (check_previous_asset (reads_asset context row) (some row) snapshot (some version))
          _ h2
          λ previous checked h3.
            require-elim (stored_asset_ok (reads_asset context row) row) _ _ checked λ _ c1.
              require-elim (is_expected (some version) row.version) _ _ c1 λ _ c2.
                require-elim (not (rewrites row.state snapshot)) _ _ c2 λ kept _. (
                  not-eq-true (rewrites row.state snapshot) kept,
                  sym (ap (λ (x : AssetDecision). x.next_state) (ok-inj h3)),
                )

row_after-SameSlot :
    (row : AssetState) (snapshot : AssetSlot) (r : Result AssetDecision)
    → ((d : AssetDecision)
        → r ≡ ok d
        → (rewrites row.state snapshot ≡ false) × (d.next_state ≡ snapshot))
    → is_some row.state.retired_at ≡ true
    → SameSlot row.state (asset_row_after row r).state
row_after-SameSlot row snapshot (ok d) accepted retired =
    let (kept, same) = accepted d refl in
    subst (SameSlot row.state) (sym same) (rewrites-SameSlot row.state snapshot retired kept)
row_after-SameSlot row snapshot (err code) accepted retired = SameSlot-refl row.state

-- Once an asset is retired, nothing of it changes but the version of its source, which never goes back,
-- whatever snapshots are applied to it, by whom, in whatever order and with whatever expected versions.
pub retired_asset_is_final :
    (row : AssetState) (calls : List AssetCall)
    → is_some row.state.retired_at ≡ true
    → SameSlot row.state (apply_assets row calls).state
unfolding apply_assets
retired_asset_is_final row [] retired = SameSlot-refl row.state
retired_asset_is_final row ((context, snapshot, version) ∷ rest) retired =
    let r = decide_asset (reads_asset context row) snapshot (some version) in
    let here =
      row_after-SameSlot row snapshot r (λ d h. decide_asset-kept context row snapshot version h)
        retired in
    SameSlot-trans here (
      retired_asset_is_final (asset_row_after row r) rest
        (ap (λ t. is_some t) here.retired_at ∙ retired))
