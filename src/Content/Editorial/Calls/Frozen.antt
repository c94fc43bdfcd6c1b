-- ===== src/Content/Editorial/Calls/Frozen.antt =====
-- The text and attachments of a content item outside of its drafts
-- (apps/content-operations/src/domain/resources.ts and publication-commands.ts).
use jawstack.Base.{
  Bool, true, false, some-inj, List, [], ◌∷◌, ◌≡◌, refl, sym, ap, ◌∙◌, arith, Result, ok, err,
  subst,
}
use jawstack.Content.Editorial.{
  Move, edits, attaches, submits, reminds, approves, returns, reopens, archives, plans, unplans,
  requests, works, publishes,
}
use jawstack.Content.Editorial.Calls.{
  Call, decide_call, decide_call-Changed, reads, row_after, run, never_draft,
}
use jawstack.Content.Facts.{Sized}
use jawstack.Content.Publishing.{Stored}
use jawstack.Content.Resource.{Decision}
use jawstack.Content.StateSchema.{content_ok, is_draft}
use jawstack.Content.Types.{ContentStatus, ContentState}
use jawstack.Core.Types.{Context}

-- What a reader gets to see of two states is the same.
pub record SameText (s t : ContentState) : Type 0 where
  pub author : t.author_id ≡ s.author_id
  pub title : t.title ≡ s.title
  pub body : t.body ≡ s.body
  pub revision : t.revision_id ≡ s.revision_id
  pub slots : t.attachments ≡ s.attachments

keeps :
    {s t : ContentState}
    → t.author_id ≡ s.author_id
    → t.title ≡ s.title
    → t.body ≡ s.body
    → t.revision_id ≡ s.revision_id
    → t.attachments ≡ s.attachments
    → SameText s t
keeps a b c d e = record { author = a; title = b; body = c; revision = d; slots = e }

SameText-trans : {s t u : ContentState} → SameText s t → SameText t u → SameText s u
SameText-trans a b = record {
  author = b.author ∙ a.author;
  title = b.title ∙ a.title;
  body = b.body ∙ a.body;
  revision = b.revision ∙ a.revision;
  slots = b.slots ∙ a.slots;
}

-- A move from no draft to no draft keeps them.
Move-SameText :
    {s t : ContentState}
    → Move s t
    → is_draft s.status ≡ false
    → is_draft t.status ≡ false
    → SameText s t
Move-SameText (edits input revision_id draft) from to = absurd (ground (arith, draft))
Move-SameText (attaches revision_id slots draft) from to = absurd (ground (arith, draft))
Move-SameText (submits r draft pending turns) from to = keeps refl refl refl refl refl
Move-SameText (reminds r pending turns) from to = keeps refl refl refl refl refl
Move-SameText (approves r a pending done turns) from to = keeps refl refl refl refl refl
Move-SameText (returns r pending turns) from to = absurd (ground arith)
Move-SameText (reopens revision_id review allowed turns) from to = absurd (ground arith)
Move-SameText (archives review allowed turns) from to = keeps refl refl refl refl refl
Move-SameText (plans c free) from to = keeps refl refl refl refl refl
Move-SameText (unplans planned) from to = keeps refl refl refl refl refl
Move-SameText (requests p free) from to = keeps refl refl refl refl refl
Move-SameText (works p publishing) from to = keeps refl refl refl refl refl
Move-SameText (publishes p publishing) from to = keeps refl refl refl refl refl

-- An archived item is not moved.
Move-archived : {s t : ContentState} → Move s t → s.status ≡ ContentStatus.archived → ⊥
Move-archived (edits input revision_id draft) h = ground (arith, draft)
Move-archived (attaches revision_id slots draft) h = ground (arith, draft)
Move-archived (submits r draft pending turns) h = ground (arith, draft)
Move-archived (reminds r pending turns) h = ground (arith, pending)
Move-archived (approves r a pending done turns) h = ground (arith, pending)
Move-archived (returns r pending turns) h = ground (arith, pending)
Move-archived (reopens revision_id review allowed turns) h = ground (arith, allowed)
Move-archived (archives review allowed turns) h = ground (arith, allowed)
Move-archived (plans c free) h = ground (arith, free)
Move-archived (unplans planned) h = ground (arith, planned)
Move-archived (requests p free) h = ground (arith, free)
Move-archived (works p publishing) h = ground (arith, publishing)
Move-archived (publishes p publishing) h = ground (arith, publishing)

module _ (fits : Sized → Bool) where
  refused :
      (row : Stored) (r : Result Decision)
      → ((d : Decision) → r ≡ ok d → ⊥)
      → row_after fits row r ≡ row
  refused row (ok d) never = absurd (never d refl)
  refused row (err e) never = refl

  -- Nothing changes an archived item: whatever calls are made on it, in whatever contexts, the row
  -- stays as it is.
  pub archived_is_final :
      (row : Stored) (calls : List (Context ContentState × Call))
      → row.state.status ≡ ContentStatus.archived
      → run fits row calls ≡ row
  unfolding run
  archived_is_final row [] h = refl
  archived_is_final row ((context, call) ∷ rest) h =
      let same = refused row (decide_call fits (reads fits context row) call) λ d accepted.
        let c = decide_call-Changed fits (reads fits context row) call accepted in
        Move-archived c.by (ap (λ (p : Stored). p.state.status) (sym (some-inj c.read)) ∙ h) in
      ap (λ after. run fits after rest) same ∙ archived_is_final row rest h

  row_after-SameText :
      (row : Stored) (r : Result Decision)
      → ((d : Decision) → r ≡ ok d → (content_ok d.next_state ≡ true) × Move row.state d.next_state)
      → content_ok row.state ≡ true
      → is_draft row.state.status ≡ false
      → is_draft (row_after fits row r).state.status ≡ false
      → (content_ok (row_after fits row r).state ≡ true)
        × SameText row.state (row_after fits row r).state
  row_after-SameText row (ok d) moves valid from to =
      let (valid', by) = moves d refl in (valid', Move-SameText by from to)
  row_after-SameText row (err e) moves valid from to = (valid, keeps refl refl refl refl refl)

  pub call-Move :
      (context : Context ContentState) (row : Stored) (call : Call) (d : Decision)
      → decide_call fits (reads fits context row) call ≡ ok d
      → (content_ok d.next_state ≡ true) × Move row.state d.next_state
  call-Move context row call d accepted =
      let c = decide_call-Changed fits (reads fits context row) call accepted in
      (c.valid, subst (λ (p : Stored). Move p.state d.next_state) (sym (some-inj c.read)) c.by)

  never_draft-head :
      (row : Stored) (calls : List (Context ContentState × Call))
      → never_draft fits row calls ≡ true
      → is_draft row.state.status ≡ false
  unfolding never_draft
  never_draft-head row [] h = ground (arith, h)
  never_draft-head row ((context, call) ∷ rest) h = ground (arith, h)

  -- Calls that never lead to a draft keep the text of a valid state.
  pub run-SameText :
      (row : Stored) (calls : List (Context ContentState × Call))
      → content_ok row.state ≡ true
      → never_draft fits row calls ≡ true
      → (content_ok (run fits row calls).state ≡ true)
        × SameText row.state (run fits row calls).state
  unfolding run never_draft
  run-SameText row [] valid never = (valid, keeps refl refl refl refl refl)
  run-SameText row ((context, call) ∷ rest) valid never =
      let r = decide_call fits (reads fits context row) call in
      let from = never_draft-head row ((context, call) ∷ rest) never in
      let later : never_draft fits (row_after fits row r) rest ≡ true = ground (arith, never) in
      let (valid', same) =
        row_after-SameText row r (call-Move context row call) valid from
          (never_draft-head (row_after fits row r) rest later) in
      let (valid'', same') = run-SameText (row_after fits row r) rest valid' later in
      (valid'', SameText-trans same same')
