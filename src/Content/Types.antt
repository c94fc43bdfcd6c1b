-- ===== src/Content/Types.antt =====
-- apps/content-operations/src/shared/contracts.ts and assets.ts: the stored state of a content item.
-- `null` is `none`. Schemas that only fix the shape of a string have no counterpart.
use jawstack.Base.{ℕ, Bool, true, false, Option, List, Text, Instant}

-- contentStatuses
pub data ContentStatus : Type 0 where
  draft in_review approved scheduled publishing published archived : ContentStatus

-- reviewStatuses
pub data ReviewStatus : Type 0 where
  pending approved changes_requested superseded : ReviewStatus

-- assetStatuses
pub data AssetStatus : Type 0 where
  pending ready removed expired : AssetStatus

-- `publicationObjectKey` and `assetObjectKey` put identifiers, which hold no slash, into a fixed path,
-- so that a key determines them. Any other string is `other`.
pub data ObjectKey : Type 0 where
  publication_snapshot asset_original : Text → Text → ObjectKey
  other : Text → ObjectKey

pub record Verified : Type 0 where
  pub size : ℕ
  pub sha256 : Text
  pub at : Instant

pub record AssetSlot : Type 0 where
  pub asset_id : Text
  pub content_id : Text
  pub filename : Text
  pub media_type : Text
  pub expected_size : ℕ
  pub object_key : ObjectKey
  pub uploader_id : Text
  pub registered_at : Instant
  pub upload_expires_at : Instant
  pub status : AssetStatus
  pub verified : Option Verified
  pub retired_at : Option Instant
  pub source_version : ℕ

pub record ReadyAttachment : Type 0 where
  pub content_id : Text
  pub asset_id : Text
  pub object_key : ObjectKey
  pub filename : Text
  pub media_type : Text
  pub size : ℕ
  pub sha256 : Text

pub record Snapshot : Type 0 where
  pub content_id : Text
  pub revision_id : Text
  pub author_id : Text
  pub title : Text
  pub body : Text
  pub attachments : List ReadyAttachment
  pub submitted_at : Instant

pub record ReviewDecision : Type 0 where
  pub actor_id : Text
  pub at : Instant
  pub note : Option Text

-- `last_reminder_day` is the number of the UTC day.
pub record Review : Type 0 where
  pub review_id : Text
  pub content_id : Text
  pub assigned_editor_id : Text
  pub due_at : Instant
  pub last_reminder_day : Option ℕ
  pub submitted : Snapshot
  pub status : ReviewStatus
  pub source_version : ℕ
  pub decision : Option ReviewDecision

pub record Approval : Type 0 where
  pub review_id : Text
  pub revision_id : Text
  pub approved_by : Text
  pub approved_at : Instant

pub record Schedule : Type 0 where
  pub scheduled_at : Instant
  pub generation : Text
  pub revision_id : Text
  pub time_zone : Text

-- publicationFailureCodes
pub data FailureCode : Type 0 where
  storage_unavailable execution_interrupted artifact_mismatch snapshot_invalid : FailureCode

pub record Claim : Type 0 where
  pub attempt_id : Text
  pub fencing_token : Text
  pub started_at : Instant
  pub lease_until : Instant

pub data AttemptStatus : Type 0 where
  claimed succeeded failed expired : AttemptStatus

pub record Attempt : Type 0 where
  pub generation : ℕ
  pub claim : Claim
  pub status : AttemptStatus
  pub finished_at : Option Instant
  pub failure_code : Option FailureCode
  pub source_event_id : Text
  pub correlation_id : Text

pub record Intent : Type 0 where
  pub publication_id : Text
  pub content_id : Text
  pub requested_at : Instant
  pub snapshot : Snapshot
  pub approval : Approval
  pub schedule : Option Schedule

pub record Artifact : Type 0 where
  pub object_key : ObjectKey
  pub sha256 : Text
  pub size : ℕ
  pub completed_at : Instant

pub data Phase : Type 0 where
  queued running failed stalled succeeded : Phase

pub record DeliveryFailure : Type 0 where
  pub failure_id : Text
  pub source_event_id : Text
  pub at : Instant

pub record Publication : Type 0 where
  pub intent : Intent
  pub generation : ℕ
  pub phase : Phase
  pub delivery_failure : Option DeliveryFailure
  pub attempts_in_generation : ℕ
  pub claim : Option Claim
  pub last_attempt : Option Attempt
  pub artifact : Option Artifact

pub record ContentState : Type 0 where
  pub content_id : Text
  pub author_id : Text
  pub title : Text
  pub body : Text
  pub revision_id : Text
  pub status : ContentStatus
  pub attachments : List AssetSlot
  pub review : Option Review
  pub approval : Option Approval
  pub schedule : Option Schedule
  pub publication : Option Publication

-- Equality of enumerated values.
abbrev pub is_claimed : AttemptStatus → Bool
is_claimed claimed = true
is_claimed _ = false

abbrev pub is_failed_attempt : AttemptStatus → Bool
is_failed_attempt failed = true
is_failed_attempt _ = false

abbrev pub is_expired_attempt : AttemptStatus → Bool
is_expired_attempt expired = true
is_expired_attempt _ = false

abbrev pub is_succeeded_attempt : AttemptStatus → Bool
is_succeeded_attempt succeeded = true
is_succeeded_attempt _ = false

abbrev pub is_queued : Phase → Bool
is_queued queued = true
is_queued _ = false

abbrev pub is_running : Phase → Bool
is_running running = true
is_running _ = false

abbrev pub is_failed : Phase → Bool
is_failed failed = true
is_failed _ = false

abbrev pub is_stalled : Phase → Bool
is_stalled stalled = true
is_stalled _ = false

abbrev pub is_succeeded : Phase → Bool
is_succeeded succeeded = true
is_succeeded _ = false

abbrev pub is_publishing : ContentStatus → Bool
is_publishing publishing = true
is_publishing _ = false

abbrev pub is_terminal_code : FailureCode → Bool
is_terminal_code artifact_mismatch = true
is_terminal_code snapshot_invalid = true
is_terminal_code _ = false
