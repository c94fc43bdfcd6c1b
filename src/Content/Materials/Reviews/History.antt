-- ===== src/Content/Materials/Reviews/History.antt =====
-- What the accepted snapshots of a review task have in common
-- (apps/content-operations/src/domain/resources.ts).
use jawstack.Base.{◌==◌, ap, ◌∙◌, true, ◌≡◌, sym, ◌<◌, arith, ◌⊎◌, inl, inr, Bool-cases}
use jawstack.Content.Materials.Reviews.{
  same_text_option, same_decision, status_number, keeps_reminder, keeps_outcome, follows,
}
use jawstack.Content.Materials.Reviews.Equal.{
  same_text_option_refl, same_decision_refl, status_number_refl, same_text_option-eq,
  same_decision-eq, status_number-eq,
}
use jawstack.Content.ReviewSchema.{is_pending_review, same_snapshot}
use jawstack.Content.ReviewSchema.Equal.{same_snapshot_refl, same_snapshot-eq}
use jawstack.Content.Types.{Review}

-- The two reviews have one outcome.
pub record SameOutcome (r s : Review) : Type 0 where
  pub status : s.status ≡ r.status
  pub decision : s.decision ≡ r.decision
  pub reminder : s.last_reminder_day ≡ r.last_reminder_day

pub record Follows (r s : Review) : Type 0 where
  pub newer : r.source_version < s.source_version
  pub content_id : s.content_id ≡ r.content_id
  pub editor : s.assigned_editor_id ≡ r.assigned_editor_id
  pub due : s.due_at ≡ r.due_at
  pub submitted : s.submitted ≡ r.submitted
  pub reminder : keeps_reminder r s ≡ true
  pub outcome : (is_pending_review r.status ≡ true) ⊎ SameOutcome r s

keeps_outcome-SameOutcome :
    (r s : Review)
    → keeps_outcome r s ≡ true
    → (is_pending_review r.status ≡ true) ⊎ SameOutcome r s
keeps_outcome-SameOutcome r s h = elim (Bool-cases (is_pending_review r.status)) [
  | inl open' ↦ inl open'
  | inr closed ↦ inr (record {
    status = sym (status_number-eq r.status s.status (ground (arith, h, closed)));
    decision = sym (same_decision-eq r.decision s.decision (ground (arith, h, closed)));
    reminder =
        sym
          (same_text_option-eq r.last_reminder_day s.last_reminder_day (ground (arith, h, closed)));
  })
]

pub follows-Follows : (r s : Review) → follows r s ≡ true → Follows r s
follows-Follows r s h =
    let copied : same_snapshot r.submitted s.submitted ≡ true = ground (arith, h) in
    let kept : keeps_outcome r s ≡ true = ground (arith, h) in
    record {
      newer = ground (arith, h);
      content_id = ground (arith, h);
      editor = ground (arith, h);
      due = ground (arith, h);
      submitted = sym (same_snapshot-eq r.submitted s.submitted copied);
      reminder = ground (arith, h);
      outcome = keeps_outcome-SameOutcome r s kept;
    }

SameOutcome-trans : {r s t : Review} → SameOutcome r s → SameOutcome s t → SameOutcome r t
SameOutcome-trans a b = record {
  status = b.status ∙ a.status;
  decision = b.decision ∙ a.decision;
  reminder = b.reminder ∙ a.reminder;
}

SameOutcome-keeps : (r s : Review) → SameOutcome r s → keeps_outcome r s ≡ true
SameOutcome-keeps r s same =
    let a =
      ap (λ x. status_number r.status == status_number x) same.status
      ∙ status_number_refl r.status in
    let b = ap (same_decision r.decision) same.decision ∙ same_decision_refl r.decision in
    let c =
      ap (same_text_option r.last_reminder_day) same.reminder
      ∙ same_text_option_refl r.last_reminder_day in
    ground (arith, a, b, c)

outcome-keeps :
    (r s : Review)
    → (is_pending_review r.status ≡ true) ⊎ SameOutcome r s
    → keeps_outcome r s ≡ true
outcome-keeps r s (inl pending) = ground (arith, pending)
outcome-keeps r s (inr same) = SameOutcome-keeps r s same

pub Follows-follows : (r s : Review) → Follows r s → follows r s ≡ true
Follows-follows r s f =
    let copied = ap (same_snapshot r.submitted) f.submitted ∙ same_snapshot_refl r.submitted in
    let kept = outcome-keeps r s f.outcome in
    ground (arith, copied, kept, f.newer, f.content_id, f.editor, f.due, f.reminder)

keeps_reminder_trans :
    (r s t : Review)
    → keeps_reminder r s ≡ true
    → keeps_reminder s t ≡ true
    → keeps_reminder r t ≡ true
keeps_reminder_trans r s t a b = ground (arith, a, b)

outcome_trans :
    (r s t : Review)
    → (is_pending_review r.status ≡ true) ⊎ SameOutcome r s
    → (is_pending_review s.status ≡ true) ⊎ SameOutcome s t
    → (is_pending_review r.status ≡ true) ⊎ SameOutcome r t
outcome_trans r s t (inl pending) b = inl pending
outcome_trans r s t (inr same) (inl pending) =
    inl (ap is_pending_review (sym same.status) ∙ pending)
outcome_trans r s t (inr same) (inr same') = inr (SameOutcome-trans same same')

pub Follows-trans : {r s t : Review} → Follows r s → Follows s t → Follows r t
Follows-trans {r} {s} {t} a b = record {
  newer = omega (arith, a.newer, b.newer);
  content_id = b.content_id ∙ a.content_id;
  editor = b.editor ∙ a.editor;
  due = b.due ∙ a.due;
  submitted = b.submitted ∙ a.submitted;
  reminder = keeps_reminder_trans r s t a.reminder b.reminder;
  outcome = outcome_trans r s t a.outcome b.outcome;
}
