-- ===== src/Content/Materials/Worker/Converges.antt =====
-- Deliveries of the snapshots of one review to `materialize` of
-- apps/content-operations/src/application/workers.ts, in any order.
use jawstack.Base.{
  length, none, Bool-cases, Result, Option, suc, ==-refl, ℕ, ◌+◌, true, false, some, List, [], ◌∷◌,
  Text, ltb, ◌==◌, if◌then◌else◌, ◌≡◌, refl, sym, ap, ◌∙◌, ◌≤◌, ◌<◌, arith, ok, ◌⊎◌, inl, inr,
}
use jawstack.Content.Facts.{fact, payload_ok, snapshot_applied, review_state}
use jawstack.Content.Materials.Reviews.{
  keeps_outcome, keeps_reminder, same_submission, is_newer, stored_review_ok, decide_review_task,
  follows, same_review,
}
use jawstack.Content.Materials.Reviews.Equal.{
  same_text_option_refl, same_decision_refl, status_number_refl,
}
use jawstack.Content.Materials.Worker.{
  attempts, next_of, deliver_reviews, Outcome, undisturbed, row_after, materialize_review,
  TaskState, applied, ignored, ends, Request, worker_context, written_row, dispatch, read_ok,
  attempt,
}
use jawstack.Content.Resource.{review_task}
use jawstack.Content.ReviewSchema.{review_ok}
use jawstack.Content.ReviewSchema.Equal.{same_snapshot_refl}
use jawstack.Content.Schema.{version_ok, max_safe_integer}
use jawstack.Content.Types.{Review}

-- The newer one of two snapshots, and the newest of several.
abbrev pub later : Review → Review → Review
later a b = if ltb a.source_version b.source_version then b else a

abbrev pub newest : Review → List Review → Review
newest a [] = a
newest a (b ∷ rest) = newest (later a b) rest

-- A stored review task that can take so many more writes.
pub record IsTask (id : Text) (room : ℕ) (p : TaskState) : Type 0 where
  pub valid : review_ok p.state ≡ true
  pub review_id : p.state.review_id ≡ id
  pub resource_type : p.resource_type ≡ review_task
  pub resource_id : p.resource_id ≡ id
  pub positive : 1 ≤ p.version
  pub bounded : p.version + room ≤ max_safe_integer

review_ok-version : (s : Review) → review_ok s ≡ true → version_ok s.source_version ≡ true
unfolding review_ok
review_ok-version s h = ground (arith, h)

review_ok-fact :
    (s : Review)
    → review_ok s ≡ true
    → fact snapshot_applied (review_state s)
      ≡ ok (record { event_type = snapshot_applied; payload = review_state s })
unfolding fact payload_ok
review_ok-fact s h = ground (arith, h, review_ok-version s h)

same_review_refl : (s : Review) → same_review s s ≡ true
same_review_refl s = ground (
  arith,
  same_text_option_refl s.last_reminder_day,
  same_snapshot_refl s.submitted,
  status_number_refl s.status,
  same_decision_refl s.decision,
)

IsTask-read_ok :
    (id : Text) (room : ℕ) (p : TaskState) (s : Review)
    → IsTask id room p
    → s.review_id ≡ id
    → read_ok s p ≡ true
IsTask-read_ok id room p s t named =
    ground
      (arith, t.valid, t.review_id, t.resource_type, t.resource_id, t.positive, t.bounded, named)

attempt-applies :
    (id : Text) (room : ℕ) (p : TaskState) (request : Request) (s : Review)
    → IsTask id room p
    → s.review_id ≡ id
    → review_ok s ≡ true
    → follows p.state s ≡ true
    → attempt request s (some p) (some p) ≡ ends (ok (applied (written_row request s (some p))))
unfolding attempt dispatch decide_review_task
attempt-applies id room p request s t named valid after =
    let read = IsTask-read_ok id room p s t named in
    let stored : stored_review_ok (worker_context request s (some p)) p ≡ true =
      ground (
        arith, t.valid, t.review_id, t.resource_type, t.resource_id, t.positive, t.bounded, named,
      ) in
    let newer : is_newer p.state s ≡ true = ground (arith, after) in
    let older : ltb s.source_version p.state.source_version ≡ false = ground (arith, newer) in
    let differs : (p.state.source_version == s.source_version) ≡ false = ground (arith, newer) in
    let copied : same_submission p.state s ≡ true = ground (arith, after) in
    let reminded : keeps_reminder p.state s ≡ true = ground (arith, after) in
    let closed : keeps_outcome p.state s ≡ true = ground (arith, after) in
    simp (
      read,
      older,
      differs,
      ==-refl s.review_id,
      stored,
      ==-refl p.version,
      newer,
      copied,
      reminded,
      closed,
      review_ok-fact s valid,
    )

attempt-creates :
    (request : Request) (s : Review)
    → review_ok s ≡ true
    → attempt request s none none ≡ ends (ok (applied (written_row request s none)))
unfolding attempt dispatch decide_review_task
attempt-creates request s valid = simp (==-refl s.review_id, review_ok-fact s valid)

attempt-ignores :
    (id : Text) (room : ℕ) (p : TaskState) (request : Request) (s : Review)
    → IsTask id room p
    → s.review_id ≡ id
    → (s.source_version < p.state.source_version) ⊎ (p.state ≡ s)
    → attempt request s (some p) (some p) ≡ ends (ok ignored)
unfolding attempt
attempt-ignores id room p request s t named (inl older) =
    let read = IsTask-read_ok id room p s t named in
    let test : ltb s.source_version p.state.source_version ≡ true = ground arith in
    rw (read, test) refl
attempt-ignores id room p request s t named (inr same) =
    let read = IsTask-read_ok id room p s t named in
    let again' : same_review p.state s ≡ true =
      ap (same_review p.state) (sym same) ∙ same_review_refl p.state in
    let version = ap (λ (r : Review). r.source_version) same in
    ground (arith, read, again', version)

attempts-ends :
    (request : Request) (s : Review) (row : Option TaskState) (r : Result Outcome)
    → attempt request s row row ≡ ends r
    → materialize_review request s (undisturbed row) ≡ r
unfolding materialize_review
attempts-ends request s row r h = ap (next_of (attempts request s ((row, row) ∷ (row, row) ∷ []))) h

-- A history of one review: of two of its snapshots the newer one follows the older one, and each is
-- valid.
pub record History (id : Text) (In : Review → Type 0) : Type 0 where
  pub valid : (s : Review) → In s → review_ok s ≡ true
  pub named : (s : Review) → In s → s.review_id ≡ id
  pub same : (r s : Review) → In r → In s → r.source_version ≡ s.source_version → r ≡ s
  pub follow :
      (r s : Review) → In r → In s → r.source_version < s.source_version → follows r s ≡ true

abbrev pub AllIn : (Review → Type 0) → List (Request × Review) → Type 0
AllIn In [] = Unit
AllIn In ((request, s) ∷ rest) = In s × AllIn In rest

abbrev pub snapshots : List (Request × Review) → List Review
snapshots [] = []
snapshots ((request, s) ∷ rest) = s ∷ snapshots rest

-- The row after one delivery.
record Delivered (id : Text) (In : Review → Type 0) (room : ℕ) (expected : Review)
    (row : Option TaskState) : Type 0 where
  after : TaskState
  found : row ≡ some after
  state : after.state ≡ expected
  task : IsTask id room after
  inside : In after.state

module _ (id : Text) (In : Review → Type 0) (history : History id In) where
  delivered-ignored :
      (room : ℕ) (p : TaskState) (request : Request) (s : Review)
      → IsTask id (suc room) p
      → In p.state
      → In s
      → (s.source_version < p.state.source_version) ⊎ (p.state ≡ s)
      → Delivered id In room p.state
          (row_after (some p) (materialize_review request s (undisturbed (some p))))
  delivered-ignored room p request s t inside here old = record {
    after = p;
    found = ap (row_after (some p)) (
        attempts-ends request s (some p) (ok ignored)
          (attempt-ignores id (suc room) p request s t (history.named s here) old));
    state = refl;
    task = record {
      valid = t.valid;
      review_id = t.review_id;
      resource_type = t.resource_type;
      resource_id = t.resource_id;
      positive = t.positive;
      bounded = omega (arith, t.bounded);
    };
    inside = inside;
  }

  delivered-applied :
      (room : ℕ) (p : TaskState) (request : Request) (s : Review)
      → IsTask id (suc room) p
      → In p.state
      → In s
      → p.state.source_version < s.source_version
      → Delivered id In room s
          (row_after (some p) (materialize_review request s (undisturbed (some p))))
  delivered-applied room p request s t inside here newer = record {
    after = written_row request s (some p);
    found = ap (row_after (some p)) (
        attempts-ends request s (some p) (ok (applied (written_row request s (some p)))) (
          attempt-applies id (suc room) p request s t (history.named s here) (history.valid s here)
            (history.follow p.state s inside here newer)));
    state = refl;
    task = record {
      valid = history.valid s here;
      review_id = history.named s here;
      resource_type = t.resource_type;
      resource_id = t.resource_id;
      positive = omega (arith, t.positive);
      bounded = omega (arith, t.bounded);
    };
    inside = here;
  }

  delivered :
      (room : ℕ) (p : TaskState) (request : Request) (s : Review)
      → IsTask id (suc room) p
      → In p.state
      → In s
      → Delivered id In room
          (later p.state s)
          (row_after (some p) (materialize_review request s (undisturbed (some p))))
  delivered room p request s t inside here =
      elim (Bool-cases (ltb p.state.source_version s.source_version)) [
        | inl newer ↦
            rw newer (delivered-applied room p request s t inside here (ground (arith, newer)))
        | inr older ↦ elim (Bool-cases (ltb s.source_version p.state.source_version)) [
          | inl old ↦
              rw older
                (delivered-ignored room p request s t inside here (inl (ground (arith, old))))
          | inr same ↦ rw older (
              delivered-ignored room p request s t inside here
                (inr (history.same p.state s inside here (ground (arith, older, same)))))
        ]
      ]

  delivered_all :
      (p : TaskState) (rest : List (Request × Review))
      → IsTask id (length rest) p
      → In p.state
      → AllIn In rest
      → (after : TaskState) × (deliver_reviews (some p) rest ≡ some after)
        × (after.state ≡ newest p.state (snapshots rest))
  unfolding deliver_reviews
  delivered_all p [] t inside all' = (p, refl, refl)
  delivered_all p ((request, s) ∷ rest) t inside (here, all') =
      let d = delivered (length rest) p request s t inside here in
      let (after, found, state) = delivered_all d.after rest d.task d.inside all' in
      (
        after,
        ap (λ row. deliver_reviews row rest) d.found ∙ found,
        state ∙ ap (λ r. newest r (snapshots rest)) d.state,
      )

  first-applied :
      (request : Request) (s : Review)
      → In s
      → materialize_review request s (undisturbed none) ≡ ok (applied (written_row request s none))
  first-applied request s here =
      attempts-ends request s none (ok (applied (written_row request s none)))
        (attempt-creates request s (history.valid s here))

  -- In whatever order the snapshots of one history of a review are delivered to `materialize`, one after
  -- another, and however often each is, from the first delivery on the review task is there and its
  -- state is the newest snapshot delivered, as long as the deliveries are fewer than the largest version.
  pub materialize_converges :
      (request : Request) (s : Review) (rest : List (Request × Review))
      → In s
      → AllIn In rest
      → length rest < max_safe_integer
      → (after : TaskState) × (deliver_reviews none ((request, s) ∷ rest) ≡ some after)
        × (after.state ≡ newest s (snapshots rest))
  unfolding deliver_reviews
  materialize_converges request s rest here all' room =
      let first = ap (row_after none) (first-applied request s here) in
      let t : IsTask id (length rest) (written_row request s none) = record {
        valid = history.valid s here;
        review_id = history.named s here;
        resource_type = refl;
        resource_id = history.named s here;
        positive = omega arith;
        bounded = omega (arith, room);
      } in
      let (after, found, state) = delivered_all (written_row request s none) rest t here all' in
      (after, ap (λ row. deliver_reviews row rest) first ∙ found, state)
