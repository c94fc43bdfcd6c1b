-- ===== src/Workflow/Failures/Service/Replayed.antt =====
-- The change that `replay` of packages/core/src/workflow/failures.ts decides on is one that `validateChange`
-- of failure-records.ts accepts.
use jawstack.Base.{
  ◌&&◌, command_validation, err, ok-inj, err-ne-ok, if◌then◌else◌, sym, Result, none, subst, Bool,
  Text, when_some, ℕ, ◌+◌, true, false, Option, some, [], ◌∷◌, and_some, length, last, ◌≡◌, refl,
  ap, ◌∙◌, arith, ok, length-append, ltb,
}
use jawstack.Workflow.Failures.{
  Collection, Recovery, Envelope, FailureRecord, same_collection, same_recovery, same_list,
}
use jawstack.Workflow.Failures.Ledger.{
  validate_change, may_recover, replay_matches, recovery_added_ok, same_wires, is_resolved_at,
  not_before,
}
use jawstack.Workflow.Failures.Protocol.{
  Protocol, IsSettled, wire, wire_normal, replays, replay_draft, replay_envelope, find_collection,
  is_pending, record_ok,
}
use jawstack.Workflow.Failures.Service.Accepted.{accepted_of, history_of}
use jawstack.Workflow.Failures.Service.Decisions.{recovering}
use jawstack.Workflow.Failures.Service.Histories.{
  same_envelope_refl, same_collection_refl, same_recovery_refl, same_list_refl, same_option_refl,
  take-length, last-append, record_ok-consecutive, kept_in_self,
}

module _ (protocol : Protocol) (settled : IsSettled protocol) where
  when-eq-ok :
      (b : Bool) (r : Result Envelope) {f : Envelope}
      → (if b then r else err command_validation) ≡ ok f
      → (b ≡ true) × (r ≡ ok f)
  when-eq-ok true r h = (refl, h)
  when-eq-ok false r h = absurd (err-ne-ok h)

  wire_normal-eq-ok :
      (e : Envelope) (o : Option Text) {f : Envelope}
      → wire_normal protocol e o ≡ ok f
      → (body : Text) × (o ≡ some body)
        × (protocol.event_ok (record e { body = body; delivery = none }) ≡ true)
        × (f ≡ record e { body = body })
  wire_normal-eq-ok e none h = absurd (err-ne-ok h)
  wire_normal-eq-ok e (some body) h =
      let (good, same) = when-eq-ok _ (ok (record e { body = body })) h in
      (body, refl, good, sym (ok-inj same))

  -- What `wire` lets through, it lets through again.
  wire-again : (e f : Envelope) → wire protocol e ≡ ok f → wire protocol f ≡ ok f
  unfolding wire
  wire-again e f h =
      let (checked, let_in) =
        when-eq-ok
          (protocol.envelope_ok e && when_some e.delivery (λ m. replays protocol m.consumer)) _ h in
      let (body, normal, good, same) = wire_normal-eq-ok e _ let_in in
      let (again, passes) = settled e body (ground (arith, checked)) normal good in
      let replayed : when_some e.delivery (λ m. replays protocol m.consumer) ≡ true =
        ground (arith, checked) in
      subst (λ x. wire protocol x ≡ ok x) (sym same)
        (rw passes (rw replayed (rw again (rw good refl))))

  drafted :
      (next : FailureRecord) (r : Recovery) (e : Envelope)
      → replay_envelope protocol next r ≡ ok e
      → last next.recoveries ≡ some r
      → replay_matches protocol next (some e) ≡ true
  unfolding replay_matches
  drafted next r e sent is_last =
      let found : and_some (last next.recoveries)
            (λ x. same_wires protocol (wire protocol e) (replay_envelope protocol next x))
          ≡ same_wires protocol (wire protocol e) (replay_envelope protocol next r) =
        ap
          (λ o.
            and_some o
              (λ x. same_wires protocol (wire protocol e) (replay_envelope protocol next x)))
          is_last in
      let again = wire-again (replay_draft protocol next r) e sent in
      found ∙ rw again (rw sent (same_envelope_refl e))

  allowed :
      (old : FailureRecord) (r : Recovery) (latest : Collection)
      → replays protocol old.consumer ≡ true
      → find_collection old.collections (length old.recoveries) ≡ some latest
      → is_pending latest.resolution ≡ false
      → is_resolved_at old.resolved_generation (length old.recoveries) ≡ false
      → may_recover protocol old (recovering old r) ≡ true
  unfolding may_recover
  allowed old r latest consumer found closed unresolved = ground (
    arith,
    consumer,
    found,
    closed,
    unresolved,
    same_option_refl old.resolved_generation,
    same_list_refl same_collection same_collection_refl old.collections,
  )

  not_before_refl : (g : Option ℕ) → not_before g g ≡ true
  not_before_refl g = ground arith

  added_ok :
      (old next : FailureRecord) (e : Envelope)
      → length next.recoveries ≡ length old.recoveries + 1
      → may_recover protocol old next ≡ true
      → replay_matches protocol next (some e) ≡ true
      → recovery_added_ok protocol (some old) next (some e) ≡ true
  unfolding recovery_added_ok
  added_ok old next e longer may matches =
      let more : ltb (length old.recoveries) (length next.recoveries) ≡ true =
        ground (arith, longer) in
      rw more (rw may matches)

  pub recovering-accepted :
      (old : FailureRecord) (r : Recovery) (latest : Collection) (e : Envelope)
      → record_ok protocol old ≡ true
      → replays protocol old.consumer ≡ true
      → find_collection old.collections (length old.recoveries) ≡ some latest
      → is_pending latest.resolution ≡ false
      → is_resolved_at old.resolved_generation (length old.recoveries) ≡ false
      → replay_envelope protocol (recovering old r) r ≡ ok e
      → validate_change protocol (some old) (recovering old r) (some e) ≡ ok tt
  recovering-accepted old r latest e valid consumer found closed unresolved sent =
      let longer = length-append old.recoveries (r ∷ []) in
      let prefix =
        ap (λ t. same_list same_recovery t old.recoveries) (take-length old.recoveries (r ∷ []))
        ∙ same_list_refl same_recovery same_recovery_refl old.recoveries in
      accepted_of protocol (some old) (recovering old r) (some e) refl
        (history_of protocol old (recovering old r)
          (ground (
            arith,
            longer,
            prefix,
            same_envelope_refl old.original,
            not_before_refl old.resolved_generation,
          ))
          (kept_in_self old.collections (record_ok-consecutive protocol old valid)) (ground arith))
        (added_ok old (recovering old r) e longer
          (allowed old r latest consumer found closed unresolved)
          (drafted (recovering old r) r e sent (last-append old.recoveries r)))
