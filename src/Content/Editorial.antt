-- ===== src/Content/Editorial.antt =====
-- The life of a content item as a state machine: what the commands of
-- apps/content-operations/src/domain/resources.ts and publication-commands.ts may do to its state.
pub mod Reviewed
pub mod Drafts
pub mod Slots
pub mod Releases
pub mod Calls
use jawstack.Base.{
  ◌==◌, not, when_some, ℕ, Bool, true, false, ◌||◌, Option, none, some, List, Text, ◌≡◌,
}
use jawstack.Content.Lifecycle.{TextInput, edited, may_reopen, may_archive}
use jawstack.Content.Materials.Reviews.{follows}
use jawstack.Content.Publishing.{Stored}
use jawstack.Content.Resource.{Decision}
use jawstack.Content.ReviewSchema.{is_pending_review, is_approved_review}
use jawstack.Content.StateSchema.{content_ok, is_draft, is_in_review, is_scheduled}
use jawstack.Content.Types.{
  ContentStatus, AssetSlot, Review, Approval, Schedule, Publication, ContentState, is_publishing,
}
use jawstack.Core.Types.{Context}

-- `["approved", "scheduled"].includes(…)`
abbrev pub is_releasable : ContentStatus → Bool
is_releasable ContentStatus.approved = true
is_releasable ContentStatus.scheduled = true
is_releasable _ = false

-- How the review of a content item changes: it stays, it goes on in a way that its review task accepts,
-- or another one begins.
pub data Turns (before after : Option Review) : Type 0 where
  stays : after ≡ before → Turns before after
  advances :
      (r s : Review)
      → before ≡ some r
      → after ≡ some s
      → s.review_id ≡ r.review_id
      → follows r s ≡ true
      → Turns before after
  begins :
      (s : Review)
      → after ≡ some s
      → when_some before (λ r. not (r.review_id == s.review_id)) ≡ true
      → Turns before after

pub data Move (s : ContentState) : ContentState → Type 0 where
  edits :
      (input : TextInput) (revision_id : Text)
      → is_draft s.status ≡ true
      → Move s (edited s input revision_id)
  attaches :
      (revision_id : Text) (slots : List AssetSlot)
      → is_draft s.status ≡ true
      → Move s (record s { revision_id = revision_id; attachments = slots })
  submits :
      (r : Review)
      → is_draft s.status ≡ true
      → is_pending_review r.status ≡ true
      → Turns s.review (some r)
      → Move s (record s { status = ContentStatus.in_review; review = some r })
  reminds :
      (r : Review)
      → is_in_review s.status ≡ true
      → Turns s.review (some r)
      → Move s (record s { review = some r })
  approves :
      (r : Review) (a : Approval)
      → is_in_review s.status ≡ true
      → is_approved_review r.status ≡ true
      → Turns s.review (some r)
      → Move s (record s { status = ContentStatus.approved; review = some r; approval = some a })
  returns :
      (r : Review)
      → is_in_review s.status ≡ true
      → Turns s.review (some r)
      → Move s (record s { status = ContentStatus.draft; review = some r; approval = none })
  reopens :
      (revision_id : Text) (review : Option Review)
      → may_reopen s.status ≡ true
      → Turns s.review review
      → Move s (record s {
        status = ContentStatus.draft;
        revision_id = revision_id;
        review = review;
        approval = none;
        schedule = none;
      })
  archives :
      (review : Option Review)
      → may_archive s.status ≡ true
      → Turns s.review review
      → Move s (record s { status = ContentStatus.archived; review = review; schedule = none })
  plans :
      (c : Schedule)
      → is_releasable s.status ≡ true
      → Move s (record s { status = ContentStatus.scheduled; schedule = some c })
  unplans :
      is_scheduled s.status ≡ true
      → Move s (record s { status = ContentStatus.approved; schedule = none })
  requests :
      (p : Publication)
      → is_releasable s.status ≡ true
      → Move s
          (record s { status = ContentStatus.publishing; schedule = none; publication = some p })
  works :
      (p : Publication) → is_publishing s.status ≡ true → Move s (record s { publication = some p })
  publishes :
      (p : Publication)
      → is_publishing s.status ≡ true
      → Move s (record s { status = ContentStatus.published; publication = some p })

-- What an accepted command did to the row that it found.
pub record Changed (context : Context ContentState) (d : Decision) : Type 0 where
  pub stored : Stored
  pub read : context.previous ≡ some stored
  pub by : Move stored.state d.next_state
  pub valid : content_ok d.next_state ≡ true
