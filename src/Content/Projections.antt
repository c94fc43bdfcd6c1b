-- ===== src/Content/Projections.antt =====
-- apps/content-operations/src/domain/projections.ts: the query rows of a content item.
use jawstack.Base.{
  ℕ, ◌+◌, Bool, true, false, not, ◌&&◌, Option, none, some, List, [], ◌∷◌, ◌++◌, map, Text, Instant,
  ◌==◌, if◌then◌else◌, is_some, any, keep,
}
use jawstack.Content.ReviewSchema.{is_retired, is_pending_slot}
use jawstack.Content.StateSchema.{is_draft, is_in_review}
use jawstack.Content.Types.{ContentStatus, AssetSlot, Schedule, ContentState}
use jawstack.Core.Types.{ResourceState}

pub data ProjectionName : Type 0 where
  list_all calendar due_publication due_review expiring_uploads orphan_assets : ProjectionName
  by_status : ContentStatus → ProjectionName

-- `${at}#${contentId}` and, for attachments, `#${assetId}` after it.
pub record SortKey : Type 0 where
  pub at : Instant
  pub content_id : Text
  pub asset_id : Option Text

-- What a row adds to the common data.
pub data Extra : Type 0 where
  nothing : Extra
  review_due : Text → Text → Instant → Extra
  planned : Schedule → Extra
  slot_of : Text → Text → Extra

pub record Row : Type 0 where
  pub name : ProjectionName
  pub item_id : Text
  pub sort : SortKey
  pub title : Text
  pub status : ContentStatus
  pub author_id : Text
  pub revision_id : Text
  pub version : ℕ
  pub created_at : Instant
  pub updated_at : Instant
  pub extra : Extra
  pub delete : Bool

status_number : ContentStatus → ℕ
status_number ContentStatus.draft = 0
status_number ContentStatus.in_review = 1
status_number ContentStatus.approved = 2
status_number ContentStatus.scheduled = 3
status_number ContentStatus.publishing = 4
status_number ContentStatus.published = 5
status_number ContentStatus.archived = 6

name_number : ProjectionName → ℕ
unfolding status_number
name_number list_all = 0
name_number calendar = 1
name_number due_publication = 2
name_number due_review = 3
name_number expiring_uploads = 4
name_number orphan_assets = 5
name_number (by_status s) = 6 + status_number s

abbrev is_archived : ContentStatus → Bool
is_archived ContentStatus.archived = true
is_archived _ = false

module _ (state : ContentState) (created_at updated_at : Instant) (version : ℕ) where
  row : ProjectionName → Instant → Option Text → Extra → Row
  row name at asset_id extra = record {
    name = name;
    item_id = state.content_id;
    sort = record { at = at; content_id = state.content_id; asset_id = asset_id };
    title = state.title;
    status = state.status;
    author_id = state.author_id;
    revision_id = state.revision_id;
    version = version;
    created_at = created_at;
    updated_at = updated_at;
    extra = extra;
    delete = false;
  }

  review_rows : List Row
  unfolding row
  review_rows =
      if is_in_review state.status
      then elim state.review [
        | none ↦ []
        | some r ↦
            row due_review r.due_at none (review_due r.review_id r.assigned_editor_id r.due_at) ∷ []
      ]
      else []

  schedule_rows : List Row
  unfolding row
  schedule_rows = elim state.schedule [
    | none ↦ []
    | some s ↦
        row calendar s.scheduled_at none (planned s)
        ∷ row due_publication s.scheduled_at none (planned s)
        ∷ []
  ]

  slot_rows : AssetSlot → List Row
  unfolding row
  slot_rows slot =
      (if is_draft state.status && is_pending_slot slot.status
        then row expiring_uploads slot.upload_expires_at (some slot.asset_id)
            (slot_of slot.asset_id state.content_id)
          ∷ []
        else [])
      ++ (if is_retired slot.status && not (is_some slot.verified)
          then elim slot.retired_at [
            | none ↦ []
            | some at ↦
                row orphan_assets at (some slot.asset_id) (slot_of slot.asset_id state.content_id)
                ∷ []
          ]
          else [])

  slots_rows : List AssetSlot → List Row
  unfolding slot_rows
  slots_rows [] = []
  slots_rows (slot ∷ slots) = slot_rows slot ++ slots_rows slots

  -- A retired slot of a valid state has its retirement time, which the row's key shows.
  unfoldable pub content_rows : List Row
  unfolding row review_rows schedule_rows slots_rows
  content_rows =
      if is_archived state.status
      then row (by_status ContentStatus.archived) created_at none nothing ∷ []
      else row list_all created_at none nothing
        ∷ row (by_status state.status) created_at none nothing
        ∷ (review_rows ++ (schedule_rows ++ slots_rows state.attachments))

same_asset : Option Text → Option Text → Bool
same_asset none none = true
same_asset (some a) (some b) = a == b
same_asset _ _ = false

-- `same` of `moves`
unfoldable pub same_row : Row → Row → Bool
unfolding name_number same_asset
same_row a b =
    name_number a.name == name_number b.name
    && a.item_id == b.item_id
    && a.sort.at == b.sort.at
    && a.sort.content_id == b.sort.content_id
    && same_asset a.sort.asset_id b.sort.asset_id

abbrev mark_delete : Row → Row
mark_delete r = record r { delete = true }

-- `moves`, for the rows of any resource
module _ {A : Type 0} (same : A → A → Bool) (mark : A → A) where
  abbrev pub moves_by : List A → List A → List A
  moves_by previous next = map mark (keep (λ old. not (any (same old) next)) previous) ++ next

unfoldable pub moves : List Row → List Row → List Row
unfolding same_row
moves previous next = moves_by same_row mark_delete previous next

unfoldable pub content_projection_plan :
    Option (ResourceState ContentState) → ContentState → Instant → List Row
unfolding moves content_rows
content_projection_plan none next now = moves [] (content_rows next now now 1)
content_projection_plan (some p) next now =
    moves (content_rows p.state p.created_at p.updated_at p.version)
      (content_rows next p.created_at now (p.version + 1))
