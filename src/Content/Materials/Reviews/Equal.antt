-- ===== src/Content/Materials/Reviews/Equal.antt =====
-- Equality of the parts of a review as apps/content-operations/src/domain/resources.ts tests it.
use jawstack.Base.{true, Option, none, some, Text, ◌≡◌, refl, arith, ◌==◌}
use jawstack.Content.Materials.Reviews.{same_text_option, same_decision, status_number}
use jawstack.Content.Types.{ReviewStatus, ReviewDecision}

pub same_text_option-eq : (a b : Option Text) → same_text_option a b ≡ true → a ≡ b
same_text_option-eq a b h = ground (arith, h)

pub same_decision-eq : (a b : Option ReviewDecision) → same_decision a b ≡ true → a ≡ b
same_decision-eq none none h = refl
same_decision-eq none (some b) h = cc
same_decision-eq (some a) none h = cc
same_decision-eq (some a) (some b) h = ground (arith, h, same_text_option-eq a.note b.note)

pub status_number-eq : (a b : ReviewStatus) → (status_number a == status_number b) ≡ true → a ≡ b
status_number-eq a b h = ground (arith, h)

pub same_text_option_refl : (a : Option Text) → same_text_option a a ≡ true
same_text_option_refl a = ground arith

pub same_decision_refl : (a : Option ReviewDecision) → same_decision a a ≡ true
same_decision_refl none = refl
same_decision_refl (some a) = ground (arith, same_text_option_refl a.note)

pub status_number_refl : (a : ReviewStatus) → (status_number a == status_number a) ≡ true
status_number_refl a = ground arith
