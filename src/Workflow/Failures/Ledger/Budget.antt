-- ===== src/Workflow/Failures/Ledger/Budget.antt =====
-- What the ledger of packages/core/src/workflow/failure-memory.ts can publish over any commits.
use jawstack.Base.{
  err-ne-ok, resource_invalid_state, [], ◌∷◌, if◌then◌else◌, Bool-cases, ==-refl, ==_iff, subst,
  refl, err, List, Result, length-append, get-set_other, ok-inj, ◌∙◌, get-set, sym, >>=-elim, ap,
  false, inr, inl, text_key, get, Text, ℕ, ◌+◌, true, Option, none, some, length, ◌≡◌, ◌≤◌, arith,
  ok, require-elim, ◌==◌,
}
use jawstack.Workflow.Failures.{Envelope, FailureRecord}
use jawstack.Workflow.Failures.Ledger.{
  is_new_event, place_ok, same_version, commit_failure, events_of, parse_option, wire_option,
  written, read_old, Memory, parse, wire, replay_matches, validate_change, history_ok,
  recovery_added_ok, version_of, recovery_count,
}
use jawstack.Workflow.Failures.Protocol.{parse_wired, record_ok, Protocol}

abbrev pub count : Option Envelope → ℕ
count none = 0
count (some e) = 1

module _ (protocol : Protocol) where
  history_ok-length :
      (previous : Option FailureRecord) (next : FailureRecord)
      → history_ok previous next ≡ true
      → (recovery_count previous ≤ length next.recoveries)
        × (length next.recoveries ≤ recovery_count previous + 1)
  unfolding history_ok
  history_ok-length none next h = (ground (arith, h), ground (arith, h))
  history_ok-length (some p) next h = (ground (arith, h), ground (arith, h))

  recovery_added_ok-count :
      (previous : Option FailureRecord) (next : FailureRecord) (event : Option Envelope)
      → recovery_added_ok protocol previous next event ≡ true
      → recovery_count previous ≤ length next.recoveries
      → length next.recoveries ≤ recovery_count previous + 1
      → length next.recoveries ≡ recovery_count previous + count event
  unfolding recovery_added_ok replay_matches
  recovery_added_ok-count previous next event h low high = ground (arith, h)

  -- An accepted change moves the version by one, and the number of recoveries by one exactly when it
  -- publishes an event.
  pub validate_change-counts :
      (previous : Option FailureRecord) (next : FailureRecord) (event : Option Envelope)
      → validate_change protocol previous next event ≡ ok tt
      → (next.version ≡ version_of previous + 1)
        × (length next.recoveries ≡ recovery_count previous + count event)
  unfolding validate_change
  validate_change-counts previous next event h =
      require-elim (next.version == version_of previous + 1) _ _ h λ version h1.
        require-elim (history_ok previous next) _ _ h1 λ history h2.
          let added : recovery_added_ok protocol previous next event ≡ true = ground (arith, h2) in
          let (low, high) = history_ok-length previous next history in
          (ground (arith, version), recovery_added_ok-count previous next event added low high)

pub record Proposal : Type 0 where
  pub expected_version : Option ℕ
  pub row : FailureRecord
  pub event : Option Envelope

abbrev pub recoveries_at : Memory → Text → ℕ
recoveries_at memory id = recovery_count (get text_key memory.failures id)

module _ (protocol : Protocol) (maximum : ℕ) where
  parse_wired-eq-ok :
      (row : FailureRecord) (r : Result Envelope) {next : FailureRecord}
      → parse_wired protocol row r ≡ ok next
      → (next.id ≡ row.id) × (next.recoveries ≡ row.recoveries) × (record_ok protocol next ≡ true)
  parse_wired-eq-ok row (ok original) {next} h =
      let same : next ≡ record row { original = original } = ground (arith, h) in
      (
        ap (λ (r : FailureRecord). r.id) same,
        ap (λ (r : FailureRecord). r.recoveries) same,
        subst (λ r. record_ok protocol r ≡ true) (sym same) (ground (arith, h)),
      )
  parse_wired-eq-ok row (err code) h = absurd (err-ne-ok h)

  fits :
      (row : FailureRecord) (r : Result FailureRecord) {next : FailureRecord}
      → (if protocol.record_fits row then r else err resource_invalid_state) ≡ ok next
      → r ≡ ok next
  fits row r h = ground (arith, h)

  -- What `parse` answers has the recoveries that it was given, and passes its checks.
  pub parse-eq-ok :
      (row : FailureRecord) {next : FailureRecord}
      → parse protocol row ≡ ok next
      → (next.id ≡ row.id) × (next.recoveries ≡ row.recoveries) × (record_ok protocol next ≡ true)
  parse-eq-ok row h = parse_wired-eq-ok row (wire protocol row.original) (fits row _ h)

  wire_option-count :
      (event : Option Envelope) {e : Option Envelope}
      → wire_option protocol maximum event ≡ ok e
      → count e ≡ count event
  wire_option-count none h = ap count (sym (ok-inj h))
  wire_option-count (some event) {e} h =
      >>=-elim (wire protocol event) _ h λ x _ h1. ap count (sym (ok-inj h1))

  parse_option-count :
      (stored : Option FailureRecord) {old : Option FailureRecord}
      → parse_option protocol maximum stored ≡ ok old
      → recovery_count old ≡ recovery_count stored
  parse_option-count none h = ap recovery_count (sym (ok-inj h))
  parse_option-count (some row) h =
      >>=-elim (parse protocol row) _ h
        λ x parsed h1. ap recovery_count (sym (ok-inj h1)) ∙ ap length (parse-eq-ok row parsed).1

  -- What an accepted commit does to the recoveries of each record and to the outbox.
  pub record Counted (before after : Memory) (own : Text) (event : Option Envelope) : Type 0 where
    here : recoveries_at after own ≡ recoveries_at before own + count event
    elsewhere : (id : Text) → (own == id) ≡ false → recoveries_at after id ≡ recoveries_at before id
    pub published : length after.outbox ≡ length before.outbox + count event
    bounded : recoveries_at after own ≤ 3

  length-events_of :
      (event : Option Envelope) → length (events_of protocol maximum event) ≡ count event
  length-events_of none = refl
  length-events_of (some e) = refl

  written-Counted :
      (memory : Memory) (row : FailureRecord) (event sent : Option Envelope)
      → length row.recoveries ≡ recoveries_at memory row.id + count sent
      → count sent ≡ count event
      → record_ok protocol row ≡ true
      → Counted memory (written protocol maximum memory row sent) row.id event
  unfolding record_ok
  written-Counted memory row event sent counted same valid = record {
    here =
        ap recovery_count (get-set text_key memory.failures row.id row)
        ∙ omega (arith, counted, same);
    elsewhere =
        λ id apart. ap recovery_count (get-set_other text_key memory.failures row.id id row apart);
    published =
        length-append memory.outbox (events_of protocol maximum sent)
        ∙ omega (arith, length-events_of sent, same);
    bounded =
        let few : length row.recoveries ≤ 3 = ground (arith, valid) in
        omega (arith, few, ap recovery_count (get-set text_key memory.failures row.id row));
  }

  pub commit_failure-Counted :
      (memory after : Memory) (version : Option ℕ) (row : FailureRecord) (event : Option Envelope)
      → commit_failure protocol maximum memory version row event ≡ ok after
      → Counted memory after row.id event
  unfolding commit_failure
  commit_failure-Counted memory after version row event h =
      >>=-elim (parse protocol row) _ h λ next parsed h1.
        >>=-elim (wire_option protocol maximum event) _ h1 λ sent wired h2.
          >>=-elim (read_old protocol maximum memory next.id) _ h2 λ old read h3.
            require-elim (same_version protocol maximum old version) _ _ h3 λ _ h4.
              >>=-elim (validate_change protocol old next sent) _ h4 λ u validated h5.
                >>=-elim (place_ok protocol maximum memory next.id old) _ h5 λ _ _ h6.
                  require-elim (is_new_event protocol maximum memory sent) _ _ h6 λ _ h7.
                    let (own, same, valid) = parse-eq-ok row parsed in
                    let grown : length next.recoveries ≡ recoveries_at memory next.id + count sent =
                      (validate_change-counts protocol old next sent validated).1
                      ∙ ap (λ n. n + count sent)
                          (parse_option-count (get text_key memory.failures next.id) read) in
                    subst (λ m. Counted memory m row.id event) (ok-inj h7)
                      (subst
                        (λ i. Counted memory (written protocol maximum memory next sent) i event)
                        own
                        (written-Counted memory next event sent grown
                          (wire_option-count event wired) valid))

  -- Any proposals, whoever makes them; a refused one leaves the memory.
  abbrev kept : Memory → Result Memory → Memory
  kept memory (ok after) = after
  kept memory (err e) = memory

  unfoldable pub run : Memory → List Proposal → Memory
  run memory [] = memory
  run memory (p ∷ rest) =
      run (kept memory (commit_failure protocol maximum memory p.expected_version p.row p.event))
        rest

  -- The replay events that a proposal published for one record.
  abbrev published_by : Proposal → Text → Result Memory → ℕ
  published_by p id (ok after) = if p.row.id == id then count p.event else 0
  published_by p id (err e) = 0

  unfoldable pub replayed : Memory → List Proposal → Text → ℕ
  replayed memory [] id = 0
  replayed memory (p ∷ rest) id =
      let result = commit_failure protocol maximum memory p.expected_version p.row p.event in
      published_by p id result + replayed (kept memory result) rest id

  step-count :
      (memory : Memory) (p : Proposal) (id : Text) (r : Result Memory)
      → commit_failure protocol maximum memory p.expected_version p.row p.event ≡ r
      → (recoveries_at (kept memory r) id ≡ recoveries_at memory id + published_by p id r)
        × (recoveries_at memory id ≤ 3 → recoveries_at (kept memory r) id ≤ 3)
  step-count memory p id (err e) h = (ground arith, λ low. low)
  step-count memory p id (ok after) h =
      let c = commit_failure-Counted memory after p.expected_version p.row p.event h in
      elim (Bool-cases (p.row.id == id)) [
        | inl same ↦
            subst
              (λ i.
                (recoveries_at after i ≡ recoveries_at memory i + published_by p i (ok after))
                × (recoveries_at memory i ≤ 3 → recoveries_at after i ≤ 3))
              ((==_iff p.row.id id).0 same)
              (c.here ∙ ap (λ n. recoveries_at memory p.row.id + n) (own p), λ low. c.bounded)
        | inr apart ↦ (
          c.elsewhere id apart ∙ ground (arith, apart),
          λ low. omega (arith, c.elsewhere id apart),
        )
      ]
    where
      own : (p : Proposal) → count p.event ≡ published_by p p.row.id (ok after)
      own p = ground (arith, ==-refl p.row.id)

  -- Over any sequence of proposals, the recoveries of a record are those it had and one for each
  -- replay event that was published for it, and never more than three.
  pub recoveries_counted :
      (memory : Memory) (proposals : List Proposal) (id : Text)
      → recoveries_at memory id ≤ 3
      → (recoveries_at (run memory proposals) id
          ≡ recoveries_at memory id + replayed memory proposals id)
        × (recoveries_at (run memory proposals) id ≤ 3)
  unfolding run replayed
  recoveries_counted memory [] id low = (ground arith, low)
  recoveries_counted memory (p ∷ rest) id low =
      let result = commit_failure protocol maximum memory p.expected_version p.row p.event in
      let (step, keeps_low) = step-count memory p id result refl in
      let (total, bounded) = recoveries_counted (kept memory result) rest id (keeps_low low) in
      (omega (arith, step, total), bounded)
