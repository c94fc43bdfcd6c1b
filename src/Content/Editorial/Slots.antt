-- ===== src/Content/Editorial/Slots.antt =====
-- The attachment commands of apps/content-operations/src/domain/resources.ts make moves of the
-- editorial state machine, on drafts only.
use jawstack.Base.{
  ℕ, ◌≡◌, ok, true, not, ◌&&◌, ◌==◌, arith, >>=-elim, require-elim, Option, none, some, Text, ltb,
  Bool,
}
use jawstack.Content.Editorial.{attaches, Changed}
use jawstack.Content.Editorial.Drafts.{changed}
use jawstack.Content.Facts.{Sized}
use jawstack.Content.Lifecycle.Assets.{
  RegisterInput, ObjectReference, Retirement, find_slot, slot_where, has_room, is_object_of,
  verified_slot, retirement_policy, may_retire, retired, put_slot, register_asset, complete_upload,
  retire_asset,
}
use jawstack.Content.Resource.{
  owner_or_editor, upload_verifier, actor, stored_content, new_id, Decision,
}
use jawstack.Content.Resource.Laws.{finish-next_state}
use jawstack.Content.ReviewSchema.{is_pending_slot, active_asset}
use jawstack.Content.StateSchema.{is_draft}
use jawstack.Content.Types.{ContentState, AssetSlot}
use jawstack.Core.Types.{Context}

slot_where-eq-ok :
    (draft : Bool) (test : AssetSlot → Bool) (o : Option AssetSlot) (slot : AssetSlot)
    → slot_where (λ s. draft && test s) o ≡ ok slot
    → draft ≡ true
slot_where-eq-ok draft test none slot h = cc
slot_where-eq-ok draft test (some s) slot h =
    require-elim (draft && test s) _ _ h λ held _. ground (arith, held)

module _ (fits : Sized → Bool) (context : Context ContentState) where
  pub register-Changed :
      (input : RegisterInput) {d : Decision}
      → register_asset fits context input ≡ ok d
      → Changed context d
  unfolding register_asset
  register-Changed input h =
      >>=-elim (stored_content fits context input.expected_version owner_or_editor) _ h
        λ previous load h1. require-elim (is_draft previous.state.status) _ _ h1 λ draft h2.
          require-elim (has_room previous.state.attachments) _ _ h2 λ _ h3.
            >>=-elim (new_id context 0 (some previous.state)) _ h3 λ asset_id _ h4.
              >>=-elim (new_id context 1 (some previous.state)) _ h4 λ revision_id _ h5.
                require-elim (not (asset_id == revision_id)) _ _ h5 λ _ h6.
                  >>=-elim (actor context.auth) _ h6 λ identity _ h7.
                    changed fits context input.expected_version owner_or_editor previous load
                      (finish-next_state fits context (some previous) _ _ _ _ _ h7)
                      (attaches revision_id _ draft)

  pub complete_upload-Changed :
      (version : ℕ) (asset_id : Text) (object : ObjectReference) {d : Decision}
      → complete_upload fits context version asset_id object ≡ ok d
      → Changed context d
  unfolding complete_upload
  complete_upload-Changed version asset_id object h =
      >>=-elim (stored_content fits context version upload_verifier) _ h λ previous load h1.
        >>=-elim
          (slot_where (λ s. is_draft previous.state.status && is_pending_slot s.status)
            (find_slot previous.state asset_id))
          _ h1
          λ slot found h2. require-elim (ltb context.now slot.upload_expires_at) _ _ h2 λ _ h3.
            require-elim (is_object_of context.resource_id slot object) _ _ h3 λ _ h4.
              changed fits context version upload_verifier previous load
                (finish-next_state fits context (some previous) _ _ _ _ _ h4)
                (attaches previous.state.revision_id
                  (put_slot (verified_slot previous slot object context.now)
                    previous.state.attachments)
                  (slot_where-eq-ok (is_draft previous.state.status) (λ s. is_pending_slot s.status)
                    (find_slot previous.state asset_id) slot found))

  pub retire-Changed :
      (how : Retirement) (version : ℕ) (asset_id : Text) {d : Decision}
      → retire_asset fits context how version asset_id ≡ ok d
      → Changed context d
  unfolding retire_asset
  retire-Changed how version asset_id h =
      >>=-elim (stored_content fits context version (retirement_policy how)) _ h λ previous load h1.
        >>=-elim
          (slot_where (λ s. is_draft previous.state.status && active_asset s)
            (find_slot previous.state asset_id))
          _ h1
          λ slot found h2. require-elim (may_retire how slot context.now) _ _ h2 λ _ h3.
            >>=-elim (new_id context 0 (some previous.state)) _ h3 λ revision_id _ h4.
              changed fits context version (retirement_policy how) previous load
                (finish-next_state fits context (some previous) _ _ _ _ _ h4)
                (attaches revision_id
                  (put_slot (retired previous slot how context.now) previous.state.attachments)
                  (slot_where-eq-ok (is_draft previous.state.status) active_asset
                    (find_slot previous.state asset_id) slot found))
