-- ===== src/Workflow/Delivery/Tests.antt =====
-- A fact delivered twice, and the theorems on the markers of delivery.ts applied to it.
use jawstack.Base.{
  length, ◌≤◌, true, false, List, [], ◌∷◌, ◌≡◌, refl, ◌+◌, arith, get, set, ok, Instant,
}
use jawstack.Workflow.Delivery.{Call, Fact, deliver, duplicate, was_processed, handle_work, nothing}
use jawstack.Workflow.Delivery.Capacity.{markers_bounded}
use jawstack.Workflow.Delivery.Kept.{deliver_all}
use jawstack.Workflow.Delivery.Once.{delivered_once}

abbrev fact : Fact
fact = record { event_id = 7; fingerprint = 70 }

abbrev other_fact : Fact
other_fact = record { event_id = 8; fingerprint = 80 }

abbrev call_at : Fact → Instant → Call
call_at event time = record {
  consumer = 1;
  fact = event;
  ready = ok true;
  work = handle_work false (ok nothing) false false (ok tt);
  checked_at = time;
  written_at = time + 1;
}

abbrev first : Call
first = call_at fact 1000

abbrev again : Call
again = call_at fact 3000

abbrev between : List Call
between = (call_at other_fact 2000) ∷ []

first_worked : (deliver 2 first []).worked ≡ true
unfolding deliver get set
first_worked = refl

first_answer : (deliver 2 first []).answer ≡ ok was_processed
unfolding deliver get set
first_answer = refl

delivered_once_example :
    let later = deliver 2 again (deliver_all 2 (deliver 2 first []).markers between) in
    (later.answer ≡ ok duplicate) × (later.worked ≡ false)
delivered_once_example =
    delivered_once 2 [] first again was_processed between first_worked first_answer refl refl refl
      refl (omega arith)

-- The second fact finds the map full.
markers_bounded_example : length (deliver_all 1 [] (first ∷ between)) ≤ 1
markers_bounded_example = markers_bounded 1 [] (first ∷ between) (omega arith)
