-- ===== src/Workflow/Failures/Service/Changes.antt =====
-- All decisions of packages/core/src/workflow/failures.ts on a record.
use jawstack.Base.{
  command_rejected, auth_forbidden, resource_conflict, resource_invalid_state, resource_not_found,
  ℕ, Bool, true, false, not, ◌||◌, Option, some, none, Text, Instant, and_some, when_some, any,
  length, ◌≡◌, refl, arith, ok, err, Result, RuntimeErrorCode, not-eq-true, if◌then◌else◌, leb, ltb,
  ◌==◌, require, ◌>>◌, ◌>>=◌,
}
use jawstack.Workflow.Failures.{
  Collection, Recovery, Envelope, Resolution, FailureRecord, same_envelope,
}
use jawstack.Workflow.Failures.Ledger.{
  validate_change, is_resolved_at, recovery_count, history_ok, recovery_added_ok,
}
use jawstack.Workflow.Failures.Protocol.{
  Protocol, IsSettled, replays, replay_envelope, find_collection, is_pending, record_ok,
}
use jawstack.Workflow.Failures.Service.Accepted.{
  collected-accepted, reconciled-accepted, completed-accepted,
}
use jawstack.Workflow.Failures.Service.Decisions.{
  Asked, recovering, decide_collect, decide_reconcile, decide_complete, decide_replay, first_record,
  request_replay, candidate_for,
}
use jawstack.Workflow.Failures.Service.Generations.{uncollected-current}
use jawstack.Workflow.Failures.Service.Replayed.{recovering-accepted}
use jawstack.Workflow.Failures.Service.Update.{Decide, Decided, Change}

-- What an operation of the service wants of a record.
pub data Ask : Type 0 where
  collects : (is_recovery : Bool) (generation : ℕ) (id consumer : Text) (e : Envelope) → Ask
  reconciles : (generation : ℕ) (resolution : Resolution) → Ask
  completes : (generation : ℕ) → Ask
  replays_as : (asked : Asked) → Ask

abbrev pub decide_of : Protocol → (ℕ → Instant) → Ask → Decide
decide_of protocol times (collects is_recovery generation id consumer e) =
    decide_collect protocol times is_recovery generation id consumer e
decide_of protocol times (reconciles generation resolution) =
    decide_reconcile protocol times generation resolution
decide_of protocol times (completes generation) = decide_complete protocol times generation
decide_of protocol times (replays_as asked) = decide_replay protocol times asked

-- An event is of a generation that the record has got to.
abbrev pub is_reached : Ask → Option FailureRecord → Bool
is_reached (collects is_recovery generation id consumer e) old = leb generation (recovery_count old)
is_reached _ old = true

-- What a decision may come to: an error, no change, or a change that `validateChange` accepts.
abbrev pub ChangeAllowed : Protocol → Option FailureRecord → Option Change → Type 0
ChangeAllowed protocol old none = Unit
ChangeAllowed protocol old (some change) =
    validate_change protocol old change.row change.event ≡ ok tt

pub data Allowed (protocol : Protocol) (old : Option FailureRecord) : Result Decided → Type 0 where
  refuses : (code : RuntimeErrorCode) → Allowed protocol old (err code)
  decides : (d : Decided) → ChangeAllowed protocol old d.change → Allowed protocol old (ok d)

module _ (protocol : Protocol) (settled : IsSettled protocol) (times : ℕ → Instant) where
  first-accepted :
      (id consumer : Text) (e : Envelope) (at : Instant)
      → validate_change protocol none (first_record protocol times id consumer e at) none ≡ ok tt
  unfolding validate_change history_ok recovery_added_ok
  first-accepted id consumer e at = ground arith

  -- The steps of a decision.
  module _ (old : Option FailureRecord) where
    require-Allowed :
        (b : Bool) (code : RuntimeErrorCode) (rest : Result Decided)
        → (b ≡ true → Allowed protocol old rest)
        → Allowed protocol old (require b code >> rest)
    require-Allowed true code rest h = h refl
    require-Allowed false code rest h = refuses code

    if-Allowed :
        (b : Bool) (x y : Result Decided)
        → (b ≡ true → Allowed protocol old x)
        → (b ≡ false → Allowed protocol old y)
        → Allowed protocol old (if b then x else y)
    if-Allowed true x y h k = h refl
    if-Allowed false x y h k = k refl

    bind-Allowed :
        (r : Result Envelope) (rest : Envelope → Result Decided)
        → ((e : Envelope) → r ≡ ok e → Allowed protocol old (rest e))
        → Allowed protocol old (r >>= rest)
    bind-Allowed (err code) rest h = refuses code
    bind-Allowed (ok e) rest h = h e refl

    find-Allowed :
        (o : Option Collection) (absent : Result Decided) (rest : Collection → Result Decided)
        → Allowed protocol old absent
        → ((c : Collection) → o ≡ some c → Allowed protocol old (rest c))
        → Allowed protocol old (elim o [ none ↦ absent | some c ↦ rest c ])
    find-Allowed none absent rest h k = h
    find-Allowed (some c) absent rest h k = k c refl

  collect-Allowed :
      (is_recovery : Bool) (generation : ℕ) (id consumer : Text) (e : Envelope) (i : ℕ)
      (candidate : Option Recovery) (old : Option FailureRecord)
      → when_some old (record_ok protocol) ≡ true
      → leb generation (recovery_count old) ≡ true
      → Allowed protocol old
          (decide_collect protocol times is_recovery generation id consumer e i candidate old)
  unfolding decide_collect
  collect-Allowed true generation id consumer e i candidate none valid reached =
      refuses resource_invalid_state
  collect-Allowed false generation id consumer e i candidate none valid reached =
      decides _ (first-accepted id consumer e (times i))
  collect-Allowed is_recovery generation id consumer e i candidate (some old) valid reached =
      require-Allowed (some old) (is_recovery || same_envelope old.original e) resource_conflict _
        λ _.
          if-Allowed (some old) (any (λ c. c.generation == generation) old.collections) _ _
            (λ _. decides _ tt)
            λ free. decides _ (
              collected-accepted protocol old generation e.event_id (times i) valid
                (uncollected-current protocol old generation valid reached free))

  reconcile-Allowed :
      (generation : ℕ) (resolution : Resolution) (i : ℕ) (candidate : Option Recovery)
      (old : Option FailureRecord)
      → when_some old (record_ok protocol) ≡ true
      → Allowed protocol old (decide_reconcile protocol times generation resolution i candidate old)
  unfolding decide_reconcile
  reconcile-Allowed generation resolution i candidate none valid = refuses resource_invalid_state
  reconcile-Allowed generation resolution i candidate (some old) valid =
      find-Allowed (some old) (find_collection old.collections generation) _ _
        (refuses resource_invalid_state)
        λ stage found.
          if-Allowed (some old) _ _ _
            (λ open'. decides _ (
              reconciled-accepted protocol old generation resolution (times i) stage valid found
                open'))
            (λ _. decides _ tt)

  complete-Allowed :
      (generation : ℕ) (i : ℕ) (candidate : Option Recovery) (old : Option FailureRecord)
      → when_some old (record_ok protocol) ≡ true
      → Allowed protocol old (decide_complete protocol times generation i candidate old)
  unfolding decide_complete
  complete-Allowed generation i candidate none valid = refuses resource_invalid_state
  complete-Allowed generation i candidate (some old) valid =
      if-Allowed (some old) _ _ _ (λ _. decides _ tt)
        (λ behind. decides _ (completed-accepted protocol old generation valid behind))

  -- The end of a replay, once the latest collection is known.
  request-Allowed :
      (asked : Asked) (i : ℕ) (candidate : Option Recovery) (old : FailureRecord)
      (latest : Collection)
      → record_ok protocol old ≡ true
      → replays protocol old.consumer ≡ true
      → is_resolved_at old.resolved_generation (length old.recoveries) ≡ false
      → find_collection old.collections (length old.recoveries) ≡ some latest
      → Allowed protocol (some old) (request_replay protocol times asked i candidate old latest)
  request-Allowed asked i candidate old latest valid consumer unresolved found =
      let r = candidate_for protocol times asked i candidate old in
      if-Allowed (some old) _ _ _ (λ _. decides _ tt)
        λ _.
          require-Allowed (some old) (not (is_pending latest.resolution)) resource_conflict _
            λ closed.
              require-Allowed (some old) (ltb (length old.recoveries) 3) command_rejected _ λ _.
                require-Allowed (some old) (asked.eligible old) auth_forbidden _ λ _.
                  bind-Allowed (some old) (replay_envelope protocol (recovering old r) r) _
                    λ e sent. decides _ (
                      recovering-accepted protocol settled old r latest e valid consumer found
                        (not-eq-true (is_pending latest.resolution) closed) unresolved sent)

  replay-Allowed :
      (asked : Asked) (i : ℕ) (candidate : Option Recovery) (old : Option FailureRecord)
      → when_some old (record_ok protocol) ≡ true
      → Allowed protocol old (decide_replay protocol times asked i candidate old)
  unfolding decide_replay
  replay-Allowed asked i candidate none valid = refuses resource_not_found
  replay-Allowed asked i candidate (some old) valid =
      require-Allowed (some old) (replays protocol old.consumer) command_rejected _ λ consumer.
        if-Allowed (some old) (any (λ r. r.request_id == asked.request_id) old.recoveries) _ _
          (λ _. decides _ tt)
          λ _.
            require-Allowed (some old)
              (not (and_some old.resolved_generation (λ g. g == length old.recoveries)))
              command_rejected _
              λ unresolved.
                find-Allowed (some old) (find_collection old.collections (length old.recoveries)) _
                  _ (decides _ tt)
                  λ latest found.
                    request-Allowed asked i candidate old latest valid consumer
                      (ground (arith, unresolved)) found

  -- Whatever `collect`, its reconciliation, `complete` or `replay` decides on a record that `parse`
  -- answers, or on none, at any attempt and with any recovery that is drawn already, is an error, no
  -- change, or a change, with its event, that `validateChange` accepts; a collection has to be of a
  -- generation that the record has got to. The payloads that `normalizePayload` answers are in normal
  -- form, and their envelopes come through `wire` again.
  pub service-Allowed :
      (ask : Ask) (i : ℕ) (candidate : Option Recovery) (old : Option FailureRecord)
      → when_some old (record_ok protocol) ≡ true
      → is_reached ask old ≡ true
      → Allowed protocol old (decide_of protocol times ask i candidate old)
  service-Allowed (collects is_recovery g id consumer e) i candidate old valid reached =
      collect-Allowed is_recovery g id consumer e i candidate old valid reached
  service-Allowed (reconciles g resolution) i candidate old valid reached =
      reconcile-Allowed g resolution i candidate old valid
  service-Allowed (completes g) i candidate old valid reached =
      complete-Allowed g i candidate old valid
  service-Allowed (replays_as asked) i candidate old valid reached =
      replay-Allowed asked i candidate old valid
