-- ===== src/Workflow/Failures/Service/Once.antt =====
-- A replay of packages/core/src/workflow/failures.ts publishes at most one event.
use jawstack.Base.{
  resource_conflict, command_rejected, auth_forbidden, resource_not_found, resource_invalid_state,
  ℕ, Bool, true, false, not, Option, none, some, List, [], ◌∷◌, ◌++◌, Text, Instant, leb, ltb, ◌==◌,
  ==-refl, ==-eq, and_some, when_some, any, length, Result, ok, err, ◌>>=◌, ◌>>◌, require,
  RuntimeErrorCode, ◌≡◌, refl, ap, sym, ◌∙◌, subst, inl, inr, ◌⊎◌, Bool-cases, if-both, or-left,
  or-right, get, get-set, text_key, ok-inj, >>=-elim, require-elim,
}
use jawstack.Workflow.Failures.{Collection, Recovery, Envelope, FailureRecord}
use jawstack.Workflow.Failures.Ledger.{
  Memory, commit_failure, read_old, wire_option, validate_change, place_ok, same_version,
  is_new_event, written,
}
use jawstack.Workflow.Failures.Ledger.Budget.{parse-eq-ok}
use jawstack.Workflow.Failures.Protocol.{
  Protocol, parse, replays, replay_envelope, find_collection, is_pending,
}
use jawstack.Workflow.Failures.Service.Decisions.{
  Asked, recovering, candidate_for, decide_replay, request_replay,
}
use jawstack.Workflow.Failures.Service.Update.{Around, Decided, read}

-- Nobody else changes the memory; answers of commits may be lost.
abbrev pub alone : (ℕ → Bool) → (ℕ → Instant) → Around
alone is_lost now = record {
  before_read = λ i memory. memory;
  before_commit = λ i memory. memory;
  is_lost = is_lost;
  now = now;
}

abbrev pub has_request : Text → List Recovery → Bool
has_request request_id rs = any (λ r. r.request_id == request_id) rs

pub has_request-last :
    (q : Text) (rs : List Recovery) (r : Recovery)
    → (r.request_id == q) ≡ true
    → has_request q (rs ++ (r ∷ [])) ≡ true
has_request-last q [] r h = or-left (r.request_id == q) false h
has_request-last q (x ∷ rs) r h =
    or-right (x.request_id == q) (has_request q (rs ++ (r ∷ []))) (has_request-last q rs r h)

module _ (protocol : Protocol) (maximum : ℕ) where
  pub commit_failure-stored :
      (memory after : Memory) (version : Option ℕ) (row : FailureRecord) (event : Option Envelope)
      → commit_failure protocol maximum memory version row event ≡ ok after
      → (stored : FailureRecord) × (get text_key after.failures row.id ≡ some stored)
        × (stored.recoveries ≡ row.recoveries)
  unfolding commit_failure
  commit_failure-stored memory after version row event h =
      >>=-elim (parse protocol row) _ h λ next parsed h1.
        >>=-elim (wire_option protocol maximum event) _ h1 λ sent wired h2.
          >>=-elim (read_old protocol maximum memory next.id) _ h2 λ old found h3.
            require-elim (same_version protocol maximum old version) _ _ h3 λ _ h4.
              >>=-elim (validate_change protocol old next sent) _ h4 λ u validated h5.
                >>=-elim (place_ok protocol maximum memory next.id old) _ h5 λ _ _ h6.
                  require-elim (is_new_event protocol maximum memory sent) _ _ h6 λ _ h7.
                    let (own, same, valid) = parse-eq-ok protocol maximum row parsed in
                    (
                      next,
                      subst (λ m. get text_key m.failures row.id ≡ some next) (ok-inj h7)
                          (subst
                            (λ i.
                              get text_key (written protocol maximum memory next sent).failures i
                              ≡ some next)
                            own (get-set text_key memory.failures next.id next)),
                      same,
                    )

  read-cases :
      (memory : Memory) (id : Text) (row : FailureRecord)
      → get text_key memory.failures id ≡ some row
      → (r : Result FailureRecord) → parse protocol row ≡ r
      → ((code : RuntimeErrorCode) × (read protocol maximum memory id ≡ err code))
        ⊎ ((loaded : FailureRecord) × (read protocol maximum memory id ≡ ok (some loaded))
            × (loaded.recoveries ≡ row.recoveries))
  unfolding read
  read-cases memory id row found (err code) parsed = inl (code, rw (found, read) (rw parsed refl))
  read-cases memory id row found (ok loaded) parsed = elim (Bool-cases (loaded.id == id)) [
    | inr other ↦ inl (resource_invalid_state, rw (found, read) (rw parsed (rw other refl)))
    | inl same ↦ inr (
      loaded,
      rw (found, read) (rw parsed (rw same refl)),
      (parse-eq-ok protocol maximum row parsed).1,
    )
  ]

  -- Reading an id either fails or gives a row with the recoveries that are stored under it.
  pub read-row :
      (memory : Memory) (id : Text) (row : FailureRecord)
      → get text_key memory.failures id ≡ some row
      → ((code : RuntimeErrorCode) × (read protocol maximum memory id ≡ err code))
        ⊎ ((loaded : FailureRecord) × (read protocol maximum memory id ≡ ok (some loaded))
            × (loaded.recoveries ≡ row.recoveries))
  unfolding read
  read-row memory id row found = read-cases memory id row found (parse protocol row) refl

  pub read-id :
      (memory : Memory) (id : Text) (row : FailureRecord)
      → read protocol maximum memory id ≡ ok (some row)
      → row.id ≡ id
  unfolding read
  read-id memory id row h = >>=-elim (read_old protocol maximum memory id) _ h λ old found h1.
      require-elim (when_some old (λ x. x.id == id)) _ _ h1 λ same h2.
        ==-eq row.id id
          (ap (λ o. when_some o (λ (x : FailureRecord). x.id == id)) (sym (ok-inj h2)) ∙ same)

  module _ (times : ℕ → Instant) (asked : Asked) where
    -- A recovery of this request.
    abbrev pub is_mine : Option Recovery → Bool
    is_mine candidate = when_some candidate (λ r. r.request_id == asked.request_id)

    -- What the decision of a replay may be.
    pub data Replays : Option FailureRecord → Result Decided → Type 0 where
      fails : (old : Option FailureRecord) (code : RuntimeErrorCode) → Replays old (err code)
      stays :
          (old : Option FailureRecord) (candidate : Option Recovery)
          → is_mine candidate ≡ true
          → Replays old (ok (record { change = none; candidate = candidate }))
      adds :
          (row : FailureRecord) (r : Recovery) (e : Envelope)
          → (r.request_id == asked.request_id) ≡ true
          → Replays (some row) (
              ok (record {
                change = some (record { row = recovering row r; event = some e });
                candidate = some r;
              }))

    require-Replays :
        (old : Option FailureRecord) (b : Bool) (code : RuntimeErrorCode) (rest : Result Decided)
        → Replays old rest
        → Replays old (require b code >> rest)
    require-Replays old true code rest h = h
    require-Replays old false code rest h = fails _ code

    sent-Replays :
        (row : FailureRecord) (r : Recovery) (sent : Result Envelope)
        → (r.request_id == asked.request_id) ≡ true
        → Replays (some row) (
            sent >>= λ e. ok (record {
              change = some (record { row = recovering row r; event = some e });
              candidate = some r;
            }))
    sent-Replays row r (err code) mine = fails _ code
    sent-Replays row r (ok e) mine = adds row r e mine

    found-Replays :
        (old : Option FailureRecord) (o : Option Collection) (candidate : Option Recovery)
        (rest : Collection → Result Decided)
        → is_mine candidate ≡ true
        → ((c : Collection) → Replays old (rest c))
        → Replays old (elim o [
          | none ↦ ok (record { change = none; candidate = candidate })
          | some c ↦ rest c
        ])
    found-Replays old none candidate rest mine h = stays _ candidate mine
    found-Replays old (some c) candidate rest mine h = h c

    candidate_for-mine :
        (i : ℕ) (candidate : Option Recovery) (row : FailureRecord)
        → is_mine candidate ≡ true
        → ((candidate_for protocol times asked i candidate row).request_id == asked.request_id)
          ≡ true
    candidate_for-mine i none row mine = ==-refl asked.request_id
    candidate_for-mine i (some r) row mine = mine

    request-Replays :
        (i : ℕ) (candidate : Option Recovery) (row : FailureRecord) (latest : Collection)
        → is_mine candidate ≡ true
        → Replays (some row) (request_replay protocol times asked i candidate row latest)
    request-Replays i candidate row latest mine =
        let r = candidate_for protocol times asked i candidate row in
        if-both (Replays (some row))
          (and_some candidate (λ x. leb x.generation (length row.recoveries))) _ _
          (λ _. stays _ candidate mine)
          (λ _.
            require-Replays (some row) (not (is_pending latest.resolution)) resource_conflict _ (
              require-Replays (some row) (ltb (length row.recoveries) 3) command_rejected _ (
                require-Replays (some row) (asked.eligible row) auth_forbidden _ (
                  sent-Replays row r (replay_envelope protocol (recovering row r) r)
                    (candidate_for-mine i candidate row mine)))))

    pub decide-Replays :
        (i : ℕ) (candidate : Option Recovery) (old : Option FailureRecord)
        → is_mine candidate ≡ true
        → Replays old (decide_replay protocol times asked i candidate old)
    unfolding decide_replay
    decide-Replays i candidate none mine = fails none resource_not_found
    decide-Replays i candidate (some row) mine =
        require-Replays (some row) (replays protocol row.consumer) command_rejected _ (
          if-both (Replays (some row)) (has_request asked.request_id row.recoveries) _ _
            (λ _. stays _ candidate mine)
            (λ _.
              require-Replays (some row)
                (not (and_some row.resolved_generation (λ g. g == length row.recoveries)))
                command_rejected _
                (found-Replays (some row) (find_collection row.collections (length row.recoveries))
                  candidate _ mine (λ latest. request-Replays i candidate row latest mine))))

    -- A record with this request is not changed any more.
    pub decide-served :
        (i : ℕ) (candidate : Option Recovery) (row : FailureRecord)
        → has_request asked.request_id row.recoveries ≡ true
        → ((code : RuntimeErrorCode) × (decide_replay protocol times asked i candidate (some row)
              ≡ err code))
          ⊎ (decide_replay protocol times asked i candidate (some row)
              ≡ ok (record { change = none; candidate = candidate }))
    unfolding decide_replay
    decide-served i candidate row served = elim (Bool-cases (replays protocol row.consumer)) [
      | inr controlled ↦ inl (command_rejected, rw controlled refl)
      | inl replayed ↦ inr (rw replayed (rw served refl))
    ]
