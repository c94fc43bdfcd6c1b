-- ===== src/Content/ReviewSchema/Equal.antt =====
-- Equality of JSON texts of apps/content-operations/src/shared/contracts.ts, field by field, is equality.
use jawstack.Base.{true, List, [], ◌∷◌, ◌≡◌, refl, arith}
use jawstack.Content.ReviewSchema.{same_attachment, same_attachments, same_snapshot}
use jawstack.Content.Schema.{same_key}
use jawstack.Content.Types.{
  ObjectKey, publication_snapshot, asset_original, other, ReadyAttachment, Snapshot,
}

pub same_key-eq : (a b : ObjectKey) → same_key a b ≡ true → a ≡ b
same_key-eq (publication_snapshot c p) (publication_snapshot d q) h = ground (arith, h)
same_key-eq (asset_original c p) (asset_original d q) h = ground (arith, h)
same_key-eq (other a) (other b) h = ground (arith, h)
same_key-eq (publication_snapshot c p) (asset_original d q) h = cc
same_key-eq (publication_snapshot c p) (other b) h = cc
same_key-eq (asset_original c p) (publication_snapshot d q) h = cc
same_key-eq (asset_original c p) (other b) h = cc
same_key-eq (other a) (publication_snapshot d q) h = cc
same_key-eq (other a) (asset_original d q) h = cc

same_attachment-eq : (a b : ReadyAttachment) → same_attachment a b ≡ true → a ≡ b
same_attachment-eq a b h = ground (arith, h, same_key-eq a.object_key b.object_key)

pub same_attachments-eq : (xs ys : List ReadyAttachment) → same_attachments xs ys ≡ true → xs ≡ ys
unfolding same_attachments
same_attachments-eq [] [] h = refl
same_attachments-eq [] (y ∷ ys) h = cc
same_attachments-eq (x ∷ xs) [] h = cc
same_attachments-eq (x ∷ xs) (y ∷ ys) h =
    let here : same_attachment x y ≡ true = ground (arith, h) in
    let there : same_attachments xs ys ≡ true = ground (arith, h) in
    let head = same_attachment-eq x y here in let tail = same_attachments-eq xs ys there in cc

pub same_snapshot-eq : (s t : Snapshot) → same_snapshot s t ≡ true → s ≡ t
same_snapshot-eq s t h =
    let lists : same_attachments s.attachments t.attachments ≡ true = ground (arith, h) in
    let same = same_attachments-eq s.attachments t.attachments lists in ground (arith, h, same)

same_key_refl : (k : ObjectKey) → same_key k k ≡ true
same_key_refl (publication_snapshot c p) = ground arith
same_key_refl (asset_original c p) = ground arith
same_key_refl (other a) = ground arith

pub same_attachments_refl : (xs : List ReadyAttachment) → same_attachments xs xs ≡ true
unfolding same_attachments
same_attachments_refl [] = refl
same_attachments_refl (x ∷ xs) =
    ground (arith, same_key_refl x.object_key, same_attachments_refl xs)

pub same_snapshot_refl : (s : Snapshot) → same_snapshot s s ≡ true
same_snapshot_refl s = ground (arith, same_attachments_refl s.attachments)
