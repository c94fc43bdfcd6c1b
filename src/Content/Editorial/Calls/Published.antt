-- ===== src/Content/Editorial/Calls/Published.antt =====
-- What a publication of apps/content-operations/src/domain/publication-commands.ts shows of the content
-- item that was approved.
use jawstack.Base.{Bool, true, ◌&&◌, some, List, ◌≡◌, ap, arith, ◌==◌, Option-cases, inl, inr}
use jawstack.Content.Editorial.Calls.{Call, run, never_draft}
use jawstack.Content.Editorial.Calls.Frozen.{run-SameText}
use jawstack.Content.Facts.{Sized}
use jawstack.Content.Publishing.{Stored}
use jawstack.Content.ReviewSchema.{
  same_attachments, sort_attachments, ready_attachments, same_snapshot,
}
use jawstack.Content.ReviewSchema.Equal.{same_attachments-eq}
use jawstack.Content.StateSchema.{
  content_ok, submitted_matches, snapshot_check, publication_check, intent_matches,
}
use jawstack.Content.StateSchema.Parts.{content_ok-IsContent}
use jawstack.Content.Types.{Review, Publication, ContentState}
use jawstack.Core.Types.{Context}

-- The snapshot of a publication is the text and the ready attachments of a state.
abbrev pub shows : Publication → ContentState → Bool
shows p s =
    p.intent.snapshot.author_id == s.author_id
    && p.intent.snapshot.title == s.title
    && p.intent.snapshot.body == s.body
    && p.intent.snapshot.revision_id == s.revision_id
    && same_attachments (sort_attachments p.intent.snapshot.attachments)
        (ready_attachments s.attachments)

same_snapshot-shows :
    (p : Publication) (r : Review) (s : ContentState)
    → same_snapshot p.intent.snapshot r.submitted ≡ true
    → submitted_matches s r ≡ true
    → shows p s ≡ true
same_snapshot-shows p r s copied matches =
    let lists : same_attachments p.intent.snapshot.attachments r.submitted.attachments ≡ true =
      ground (arith, copied) in
    let same =
      ap (λ xs. same_attachments (sort_attachments xs) (ready_attachments s.attachments))
        (same_attachments-eq p.intent.snapshot.attachments r.submitted.attachments lists) in
    ground (arith, copied, matches, same)

-- In a valid state the publication shows the state.
content_ok-shows :
    (s : ContentState) (p : Publication)
    → content_ok s ≡ true
    → s.publication ≡ some p
    → shows p s ≡ true
unfolding snapshot_check publication_check
content_ok-shows s p valid held =
    let content = content_ok-IsContent s valid in
    let intent : intent_matches s p ≡ true = ground (arith, content.published, held) in
    elim (Option-cases s.review) [
      | inl missing ↦ absurd (ground (arith, intent, missing))
      | inr (r, found) ↦
          same_snapshot-shows p r s (ground (arith, intent, found))
            (ground (arith, content.submitted, held, found))
    ]

module _ (fits : Sized → Bool) where
  -- As long as a valid content item is not a draft, every publication that it gets to have shows the
  -- author, title, body, revision and ready attachments that it has now, whatever commands are called on
  -- it, by whom and in whatever contexts.
  pub published_as_approved :
      (row : Stored) (p : Publication) (calls : List (Context ContentState × Call))
      → content_ok row.state ≡ true
      → never_draft fits row calls ≡ true
      → (run fits row calls).state.publication ≡ some p
      → shows p row.state ≡ true
  published_as_approved row p calls valid never held =
      let (valid', same) = run-SameText fits row calls valid never in
      let shown = content_ok-shows (run fits row calls).state p valid' held in
      ground (
        arith,
        shown,
        same.author,
        same.title,
        same.body,
        same.revision,
        ap ready_attachments same.slots,
      )
