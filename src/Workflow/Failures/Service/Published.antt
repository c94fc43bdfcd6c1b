-- ===== src/Workflow/Failures/Service/Published.antt =====
-- What the attempts of a replay of packages/core/src/workflow/failures.ts publish, when answers get lost.
use jawstack.Base.{
  ℕ, zero, suc, ◌+◌, Bool, true, Option, none, some, Text, Instant, ◌==◌, is_some, length, Result,
  ok, err, ◌≡◌, ◌≤◌, refl, ap, sym, ◌∙◌, subst, arith, inl, inr, if-both, get, text_key,
}
use jawstack.Workflow.Failures.{Recovery, Envelope, FailureRecord}
use jawstack.Workflow.Failures.Ledger.{Memory, commit_failure}
use jawstack.Workflow.Failures.Ledger.Budget.{commit_failure-Counted, parse-eq-ok, count}
use jawstack.Workflow.Failures.Protocol.{Protocol, parse}
use jawstack.Workflow.Failures.Service.{Answered, replay_failure, replay_read}
use jawstack.Workflow.Failures.Service.Decisions.{Asked, recovering, decide_replay}
use jawstack.Workflow.Failures.Service.Once.{
  alone, has_request, has_request-last, commit_failure-stored, read-row, read-id, is_mine, Replays,
  fails, stays, adds, decide-Replays, decide-served,
}
use jawstack.Workflow.Failures.Service.Update.{
  Around, Decided, Updated, read, update_from, final_look, settled, after_read, after_decided,
  after_parse, after_commit, is_retryable,
}

module _ (protocol : Protocol) (maximum : ℕ) (is_lost : ℕ → Bool) (times : ℕ → Instant) (id : Text)
    (asked : Asked) where
  abbrev around : Around
  around = alone is_lost times

  abbrev tries : ℕ → ℕ → Memory → Option Recovery → Updated
  tries = update_from protocol maximum around id (decide_replay protocol times asked)

  -- The last look writes nothing.
  settled-memory :
      (memory : Memory) (final : FailureRecord) (r : Result Decided)
      → (settled protocol maximum around id
          (decide_replay protocol times asked)
          memory
          final
          r).memory
        ≡ memory
  settled-memory memory final (err code) = refl
  settled-memory memory final (ok d) =
      if-both (λ (u : Updated). u.memory ≡ memory) (is_some d.change) _ _ (λ _. refl) (λ _. refl)

  final_look-memory :
      (i : ℕ) (memory : Memory) (candidate : Option Recovery) (r : Result (Option FailureRecord))
      → (final_look protocol maximum around id
          (decide_replay protocol times asked)
          i
          memory
          candidate
          r).memory
        ≡ memory
  final_look-memory i memory candidate (err code) = refl
  final_look-memory i memory candidate (ok none) = refl
  final_look-memory i memory candidate (ok (some final)) =
      settled-memory memory final (decide_replay protocol times asked i candidate (some final))

  -- Once the request is stored, nothing is written any more.
  tries-served :
      (n i : ℕ) (memory : Memory) (candidate : Option Recovery) (row : FailureRecord)
      → get text_key memory.failures id ≡ some row
      → has_request asked.request_id row.recoveries ≡ true
      → (tries n i memory candidate).memory ≡ memory
  unfolding update_from
  tries-served zero i memory candidate row found served =
      final_look-memory i memory candidate (read protocol maximum memory id)
  tries-served (suc n) i memory candidate row found served =
      let retry = tries n (i + 1) in
      let looks = λ (r : Result (Option FailureRecord)).
        (after_read protocol maximum around id (decide_replay protocol times asked) retry i memory
          candidate r).memory in
      let decides = λ (loaded : FailureRecord) (r : Result Decided).
        (after_decided protocol maximum around id (decide_replay protocol times asked) retry i
          memory (some loaded) r).memory in
      elim (read-row protocol maximum memory id row found) [
        | inl (code, failed) ↦ ap looks failed
        | inr (loaded, there, same_recoveries) ↦
            ap looks there
            ∙ elim (decide-served protocol maximum times asked i candidate loaded
                (ap (has_request asked.request_id) same_recoveries ∙ served)) [
                  | inl (code, refused') ↦ ap (decides loaded) refused'
                  | inr same ↦ ap (decides loaded) same
                ]
      ]

  -- At most one event more than before.
  abbrev OneMore : Memory → Memory → Type 0
  OneMore memory after = length after.outbox ≤ length memory.outbox + 1

  same-OneMore : (memory : Memory) → OneMore memory memory
  same-OneMore memory = omega arith

  one-OneMore : (event : Option Envelope) → count event ≤ 1
  one-OneMore none = omega arith
  one-OneMore (some e) = omega arith

  -- One attempt, by what its retry does.
  module _ (retry : Memory → Option Recovery → Updated)
      (retry-OneMore : (memory : Memory) (candidate : Option Recovery)
        → is_mine protocol maximum times asked candidate ≡ true
        → OneMore memory (retry memory candidate).memory)
      (retry-served : (memory : Memory) (candidate : Option Recovery) (row : FailureRecord)
        → get text_key memory.failures id ≡ some row
        → has_request asked.request_id row.recoveries ≡ true
        → (retry memory candidate).memory ≡ memory)
      (i : ℕ) (memory : Memory) where
    commit-OneMore :
        (version : Option ℕ) (next : FailureRecord) (r : Recovery) (event : Option Envelope)
        (res : Result Memory)
        → commit_failure protocol maximum memory version next event ≡ res
        → next.id ≡ id
        → (r.request_id == asked.request_id) ≡ true
        → has_request asked.request_id next.recoveries ≡ true
        → OneMore memory
            (after_commit protocol maximum around id
              (decide_replay protocol times asked)
              retry
              i
              memory
              (some r)
              next
              res).memory
    commit-OneMore version next r event (err code) committed same mine served =
        if-both (λ (u : Updated). OneMore memory u.memory) (is_retryable code) _ _
          (λ _. retry-OneMore memory (some r) mine) (λ _. same-OneMore memory)
    commit-OneMore version next r event (ok written) committed same mine served =
        let more =
          (commit_failure-Counted protocol maximum memory written version next event
            committed).published in
        let one = one-OneMore event in
        let (stored, found, held) =
          commit_failure-stored protocol maximum memory written version next event committed in
        let quiet =
          retry-served written (some r) stored
            (subst (λ x. get text_key written.failures x ≡ some stored) same found)
            (ap (has_request asked.request_id) held ∙ served) in
        if-both (λ (u : Updated). OneMore memory u.memory) (is_lost i) _ _
          (λ _. subst (OneMore memory) (sym quiet) (omega arith)) (λ _. omega arith)

    parse-OneMore :
        (row : FailureRecord) (r : Recovery) (event : Option Envelope) (res : Result FailureRecord)
        → parse protocol (recovering row r) ≡ res
        → row.id ≡ id
        → (r.request_id == asked.request_id) ≡ true
        → OneMore memory
            (after_parse protocol maximum around id
              (decide_replay protocol times asked)
              retry
              i
              memory
              (some row)
              (some r)
              event
              res).memory
    parse-OneMore row r event (err code) parsed same mine = same-OneMore memory
    parse-OneMore row r event (ok next) parsed same mine =
        let (own, held, valid) = parse-eq-ok protocol maximum (recovering row r) parsed in
        commit-OneMore (some row.version) next r event _ refl (own ∙ same) mine (
          ap (has_request asked.request_id) held
          ∙ has_request-last asked.request_id row.recoveries r mine)

    decided-OneMore :
        (old : Option FailureRecord) (res : Result Decided)
        → Replays protocol maximum times asked old res
        → read protocol maximum memory id ≡ ok old
        → OneMore memory
            (after_decided protocol maximum around id
              (decide_replay protocol times asked)
              retry
              i
              memory
              old
              res).memory
    decided-OneMore old res (fails o code) found = same-OneMore memory
    decided-OneMore old res (stays none candidate mine) found = same-OneMore memory
    decided-OneMore old res (stays (some row) candidate mine) found = same-OneMore memory
    decided-OneMore old res (adds row r e mine) found =
        parse-OneMore row r (some e) _ refl (read-id protocol maximum memory id row found) mine

    read-OneMore :
        (candidate : Option Recovery) (res : Result (Option FailureRecord))
        → is_mine protocol maximum times asked candidate ≡ true
        → read protocol maximum memory id ≡ res
        → OneMore memory
            (after_read protocol maximum around id
              (decide_replay protocol times asked)
              retry
              i
              memory
              candidate
              res).memory
    read-OneMore candidate (err code) mine found = same-OneMore memory
    read-OneMore candidate (ok old) mine found =
        decided-OneMore old _ (decide-Replays protocol maximum times asked i candidate old mine)
          found

  tries-OneMore :
      (n i : ℕ) (memory : Memory) (candidate : Option Recovery)
      → is_mine protocol maximum times asked candidate ≡ true
      → OneMore memory (tries n i memory candidate).memory
  unfolding update_from
  tries-OneMore zero i memory candidate mine =
      subst (OneMore memory)
        (sym (final_look-memory i memory candidate (read protocol maximum memory id)))
        (same-OneMore memory)
  tries-OneMore (suc n) i memory candidate mine =
      read-OneMore (tries n (i + 1)) (tries-OneMore n (i + 1)) (tries-served n (i + 1)) i memory
        candidate (read protocol maximum memory id) mine refl

  replay_read-OneMore :
      (memory : Memory) (first : Result (Option FailureRecord))
      → OneMore memory (replay_read protocol maximum around asked memory id first).memory
  replay_read-OneMore memory (err code) = same-OneMore memory
  replay_read-OneMore memory (ok first) =
      if-both (λ (a : Answered). OneMore memory a.memory) (asked.permits _) _ _
        (λ _. tries-OneMore 3 0 memory none refl) (λ _. same-OneMore memory)

  -- However many of its commits lose their answers, `replay` publishes at most one event, as long as
  -- nobody else changes the memory meanwhile.
  pub replay_publishes_once :
      (memory : Memory)
      → length (replay_failure protocol maximum (alone is_lost times) asked memory id).memory.outbox
        ≤ length memory.outbox + 1
  unfolding replay_failure
  replay_publishes_once memory = replay_read-OneMore memory (read protocol maximum memory id)
