-- ===== src/Content/Editorial/Calls/Projected.antt =====
-- The reviews that a content item goes through (apps/content-operations/src/domain/resources.ts), and the
-- review task that is kept of them (application/workers.ts).
use jawstack.Base.{
  Bool, true, not, Option, none, some, some-inj, List, [], ◌∷◌, Text, when_some, length, ◌==◌, ◌≡◌,
  refl, sym, ap, ◌∙◌, subst, ◌<◌, ◌⊎◌, inl, inr, arith, Result, ok, err,
}
use jawstack.Content.Editorial.{
  Move, edits, attaches, submits, reminds, approves, returns, reopens, archives, plans, unplans,
  requests, works, publishes, Turns, stays, advances, begins,
}
use jawstack.Content.Editorial.Calls.{Call, decide_call, reads, row_after}
use jawstack.Content.Editorial.Calls.Frozen.{call-Move}
use jawstack.Content.Facts.{Sized}
use jawstack.Content.Materials.Reviews.{follows}
use jawstack.Content.Materials.Reviews.History.{
  Follows, follows-Follows, Follows-follows, Follows-trans,
}
use jawstack.Content.Materials.Worker.{TaskState, Request, deliver_reviews}
use jawstack.Content.Materials.Worker.Converges.{
  History, AllIn, newest, snapshots, materialize_converges,
}
use jawstack.Content.Publishing.{Stored}
use jawstack.Content.Resource.{Decision}
use jawstack.Content.ReviewSchema.{review_ok}
use jawstack.Content.Schema.{max_safe_integer}
use jawstack.Content.StateSchema.{content_ok}
use jawstack.Content.StateSchema.Parts.{content_ok-IsContent}
use jawstack.Content.Types.{Review, ContentState}
use jawstack.Core.Types.{Context}

Move-Turns : {s t : ContentState} → Move s t → Turns s.review t.review
Move-Turns (edits input revision_id draft) = stays refl
Move-Turns (attaches revision_id slots draft) = stays refl
Move-Turns (submits r draft pending turns) = turns
Move-Turns (reminds r pending turns) = turns
Move-Turns (approves r a pending done turns) = turns
Move-Turns (returns r pending turns) = turns
Move-Turns (reopens revision_id review allowed turns) = turns
Move-Turns (archives review allowed turns) = turns
Move-Turns (plans c free) = stays refl
Move-Turns (unplans planned) = stays refl
Move-Turns (requests p free) = stays refl
Move-Turns (works p publishing) = stays refl
Move-Turns (publishes p publishing) = stays refl

-- A review that does not give way to another one stays or is followed.
Turns-Follows :
    {o : Option Review} {p : Option Review} (r : Review) (id : Text)
    → Turns o p
    → o ≡ some r
    → r.review_id ≡ id
    → ((s : Review) → p ≡ some s → s.review_id ≡ id)
    → (s : Review) × (p ≡ some s) × ((s ≡ r) ⊎ Follows r s)
Turns-Follows r id (stays same) held named all' = (r, same ∙ held, inl refl)
Turns-Follows r id (advances q s before after kept f) held named all' =
    let same : q ≡ r = some-inj (sym before ∙ held) in
    (s, after, inr (subst (λ x. Follows x s) same (follows-Follows q s f)))
Turns-Follows r id (begins s after differs) held named all' =
    let other =
      ap (λ o. when_some o (λ q. not (q.review_id == s.review_id))) (sym held) ∙ differs in
    absurd (ground (arith, other, named, all' s after))

module _ (fits : Sized → Bool) where
  -- The review is that of the row before or after one of the calls.
  abbrev pub Occurs : Stored → List (Context ContentState × Call) → Review → Type 0
  Occurs row [] r = row.state.review ≡ some r
  Occurs row ((context, call) ∷ rest) r =
      (row.state.review ≡ some r)
      ⊎ Occurs (row_after fits row (decide_call fits (reads fits context row) call)) rest r

  Occurs-head :
      (row : Stored) (calls : List (Context ContentState × Call)) (r : Review)
      → row.state.review ≡ some r
      → Occurs row calls r
  Occurs-head row [] r h = h
  Occurs-head row ((context, call) ∷ rest) r h = inl h

  row_after-Turns :
      (row : Stored) (r : Result Decision)
      → ((d : Decision) → r ≡ ok d → (content_ok d.next_state ≡ true) × Move row.state d.next_state)
      → content_ok row.state ≡ true
      → (content_ok (row_after fits row r).state ≡ true)
        × Turns row.state.review (row_after fits row r).state.review
  row_after-Turns row (ok d) moves valid =
      let (valid', by) = moves d refl in (valid', Move-Turns by)
  row_after-Turns row (err e) moves valid = (valid, stays refl)

  -- What occurs after a review is it or follows it.
  Occurs-Follows :
      (id : Text) (row : Stored) (calls : List (Context ContentState × Call)) (r s : Review)
      → content_ok row.state ≡ true
      → ((q : Review) → Occurs row calls q → q.review_id ≡ id)
      → row.state.review ≡ some r
      → Occurs row calls s
      → (s ≡ r) ⊎ Follows r s
  Occurs-Follows id row [] r s valid named held here = inl (some-inj (sym here ∙ held))
  Occurs-Follows id row ((context, call) ∷ rest) r s valid named held (inl here) =
      inl (some-inj (sym here ∙ held))
  Occurs-Follows id row ((context, call) ∷ rest) r s valid named held (inr there) =
      let result = decide_call fits (reads fits context row) call in
      let (valid', turns) = row_after-Turns row result (call-Move fits context row call) valid in
      let (q, found, step) =
        Turns-Follows r id turns held (named r (inl held))
          (λ q found. named q (inr (Occurs-head (row_after fits row result) rest q found))) in
      joined r q s step (
        Occurs-Follows id (row_after fits row result) rest q s valid'
          (λ x inside. named x (inr inside)) found there)
    where
      joined :
          (a b c : Review) → (b ≡ a) ⊎ Follows a b → (c ≡ b) ⊎ Follows b c → (c ≡ a) ⊎ Follows a c
      joined a b c (inl p) (inl q) = inl (q ∙ p)
      joined a b c (inl p) (inr g) = inr (subst (λ x. Follows x c) p g)
      joined a b c (inr f) (inl q) = inr (subst (Follows a) (sym q) f)
      joined a b c (inr f) (inr g) = inr (Follows-trans f g)

  -- Of two reviews that occur one follows the other.
  Occurs-ordered :
      (id : Text) (row : Stored) (calls : List (Context ContentState × Call)) (r s : Review)
      → content_ok row.state ≡ true
      → ((q : Review) → Occurs row calls q → q.review_id ≡ id)
      → Occurs row calls r
      → Occurs row calls s
      → (s ≡ r) ⊎ Follows r s ⊎ Follows s r
  Occurs-ordered id row [] r s valid named a b = inl (some-inj (sym b ∙ a))
  Occurs-ordered id row ((context, call) ∷ rest) r s valid named (inl a) b =
      first (Occurs-Follows id row ((context, call) ∷ rest) r s valid named a b)
    where
      first : (s ≡ r) ⊎ Follows r s → (s ≡ r) ⊎ Follows r s ⊎ Follows s r
      first (inl same) = inl same
      first (inr f) = inr (inl f)
  Occurs-ordered id row ((context, call) ∷ rest) r s valid named (inr a) (inl b) =
      second (Occurs-Follows id row ((context, call) ∷ rest) s r valid named b (inr a))
    where
      second : (r ≡ s) ⊎ Follows s r → (s ≡ r) ⊎ Follows r s ⊎ Follows s r
      second (inl same) = inl (sym same)
      second (inr f) = inr (inr f)
  Occurs-ordered id row ((context, call) ∷ rest) r s valid named (inr a) (inr b) =
      let result = decide_call fits (reads fits context row) call in
      let (valid', _) = row_after-Turns row result (call-Move fits context row call) valid in
      Occurs-ordered id (row_after fits row result) rest r s valid'
        (λ x inside. named x (inr inside)) a b

  Occurs-review_ok :
      (row : Stored) (calls : List (Context ContentState × Call)) (r : Review)
      → content_ok row.state ≡ true
      → Occurs row calls r
      → review_ok r ≡ true
  Occurs-review_ok row [] r valid here =
      ground (arith, (content_ok-IsContent row.state valid).review, here)
  Occurs-review_ok row ((context, call) ∷ rest) r valid (inl here) =
      ground (arith, (content_ok-IsContent row.state valid).review, here)
  Occurs-review_ok row ((context, call) ∷ rest) r valid (inr there) =
      let result = decide_call fits (reads fits context row) call in
      let (valid', _) = row_after-Turns row result (call-Move fits context row call) valid in
      Occurs-review_ok (row_after fits row result) rest r valid' there

  Occurs-History :
      (id : Text) (row : Stored) (calls : List (Context ContentState × Call))
      → content_ok row.state ≡ true
      → ((r : Review) → Occurs row calls r → r.review_id ≡ id)
      → History id (Occurs row calls)
  Occurs-History id row calls valid named = record {
    valid = λ s inside. Occurs-review_ok row calls s valid inside;
    named = named;
    same = λ r s a b equal. as_same r s equal (Occurs-ordered id row calls r s valid named a b);
    follow = λ r s a b less. as_follow r s less (Occurs-ordered id row calls r s valid named a b);
  }
    where
      as_same :
          (r s : Review)
          → r.source_version ≡ s.source_version
          → (s ≡ r) ⊎ Follows r s ⊎ Follows s r
          → r ≡ s
      as_same r s equal (inl same) = sym same
      as_same r s equal (inr (inl f)) = absurd (omega (arith, f.newer))
      as_same r s equal (inr (inr f)) = absurd (omega (arith, f.newer))

      as_follow :
          (r s : Review)
          → r.source_version < s.source_version
          → (s ≡ r) ⊎ Follows r s ⊎ Follows s r
          → follows r s ≡ true
      as_follow r s less (inl same) =
          absurd (omega (arith, ap (λ (x : Review). x.source_version) same))
      as_follow r s less (inr (inl f)) = Follows-follows r s f
      as_follow r s less (inr (inr f)) = absurd (omega (arith, f.newer))

  -- Whatever commands are called on a valid content item, as long as it gets no other review: when the
  -- snapshots of the review that its rows held are delivered to `materialize`, one after another, in any
  -- order and each however often, the review task is there from the first delivery on and its state is
  -- the newest snapshot delivered, as long as the deliveries are fewer than the largest version.
  pub review_task_converges :
      (id : Text) (row : Stored) (calls : List (Context ContentState × Call)) (request : Request)
      (s : Review) (rest : List (Request × Review))
      → content_ok row.state ≡ true
      → ((r : Review) → Occurs row calls r → r.review_id ≡ id)
      → Occurs row calls s
      → AllIn (Occurs row calls) rest
      → length rest < max_safe_integer
      → (after : TaskState) × (deliver_reviews none ((request, s) ∷ rest) ≡ some after)
        × (after.state ≡ newest s (snapshots rest))
  review_task_converges id row calls request s rest valid named here all' room =
      materialize_converges id (Occurs row calls) (Occurs-History id row calls valid named) request
        s rest here all' room
