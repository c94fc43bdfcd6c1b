-- ===== src/Workflow/Failures/Service/Update.antt =====
-- packages/core/src/workflow/failures.ts: `read`, and `update` with its attempts.
use jawstack.Base.{
  ℕ, zero, suc, ◌+◌, Bool, true, false, Option, none, some, Text, Instant, ◌==◌, when_some, is_some,
  if◌then◌else◌, Result, ok, err, ◌>>=◌, ◌>>◌, require, RuntimeErrorCode, resource_conflict,
  resource_invalid_state, runtime_unavailable,
}
use jawstack.Workflow.Failures.{Recovery, Envelope, FailureRecord}
use jawstack.Workflow.Failures.Ledger.{Memory, read_old, commit_failure}
use jawstack.Workflow.Failures.Protocol.{Protocol, parse}

pub record Change : Type 0 where
  pub row : FailureRecord
  pub event : Option Envelope

-- What a `decide` of an update answers: whether it changes anything, and the recovery that the update has
-- drawn for its attempts.
pub record Decided : Type 0 where
  pub change : Option Change
  pub candidate : Option Recovery

abbrev pub Decide : Type 0
Decide = ℕ → Option Recovery → Option FailureRecord → Result Decided

abbrev pub unchanged : Option Recovery → Result Decided
unchanged candidate = ok (record { change = none; candidate = candidate })

abbrev pub changes : FailureRecord → Option Envelope → Option Recovery → Result Decided
changes row event candidate =
    ok (record { change = some (record { row = row; event = event }); candidate = candidate })

-- What happens around the steps of an update: what others do to the memory before the `i`-th attempt
-- reads it and before it commits, whether the answer of its commit is lost, and the time of its `decide`.
pub record Around : Type 0 where
  pub before_read : ℕ → Memory → Memory
  pub before_commit : ℕ → Memory → Memory
  pub is_lost : ℕ → Bool
  pub now : ℕ → Instant

pub record Updated : Type 0 where
  pub answer : Result FailureRecord
  pub memory : Memory

abbrev pub fails : RuntimeErrorCode → Memory → Updated
fails code memory = record { answer = err code; memory = memory }

abbrev pub is_retryable : RuntimeErrorCode → Bool
is_retryable resource_conflict = true
is_retryable runtime_unavailable = true
is_retryable _ = false

abbrev pub version_in : Option FailureRecord → Option ℕ
version_in none = none
version_in (some row) = some row.version

module _ (protocol : Protocol) (maximum : ℕ) where
  -- read
  unfoldable pub read : Memory → Text → Result (Option FailureRecord)
  read memory id = do
    old ← read_old protocol maximum memory id
    require (when_some old (λ row. row.id == id)) resource_invalid_state
    ok old

  module _ (around : Around) (id : Text) (decide : Decide) where
    -- How an attempt goes on with its next one.
    abbrev pub Retry : Type 0
    Retry = Memory → Option Recovery → Updated

    abbrev pub after_commit :
        Retry → ℕ → Memory → Option Recovery → FailureRecord → Result Memory → Updated
    after_commit retry i memory candidate next (ok written) =
        if around.is_lost i
        then retry written candidate
        else record { answer = ok next; memory = written }
    after_commit retry i memory candidate next (err code) =
        if is_retryable code then retry memory candidate else fails code memory

    abbrev pub after_parse :
        Retry
        → ℕ
        → Memory
        → Option FailureRecord
        → Option Recovery
        → Option Envelope
        → Result FailureRecord
        → Updated
    after_parse retry i memory old candidate event (err code) = fails code memory
    after_parse retry i memory old candidate event (ok next) =
        let found = around.before_commit i memory in
        after_commit retry i found candidate next
          (commit_failure protocol maximum found (version_in old) next event)

    abbrev pub after_decide :
        Retry → ℕ → Memory → Option FailureRecord → Option Change → Option Recovery → Updated
    after_decide retry i memory none none candidate = fails resource_invalid_state memory
    after_decide retry i memory (some old) none candidate = record {
      answer = ok old;
      memory = memory;
    }
    after_decide retry i memory old (some change) candidate =
        after_parse retry i memory old candidate change.event (parse protocol change.row)

    abbrev pub after_decided : Retry → ℕ → Memory → Option FailureRecord → Result Decided → Updated
    after_decided retry i memory old (err code) = fails code memory
    after_decided retry i memory old (ok d) = after_decide retry i memory old d.change d.candidate

    abbrev pub after_read :
        Retry → ℕ → Memory → Option Recovery → Result (Option FailureRecord) → Updated
    after_read retry i memory candidate (err code) = fails code memory
    after_read retry i memory candidate (ok old) =
        after_decided retry i memory old (decide i candidate old)

    -- After the third attempt: a fourth look, and no write.
    abbrev pub settled : Memory → FailureRecord → Result Decided → Updated
    settled memory final (err code) = fails code memory
    settled memory final (ok d) =
        if is_some d.change
        then fails runtime_unavailable memory
        else record { answer = ok final; memory = memory }

    abbrev pub final_look : ℕ → Memory → Option Recovery → Result (Option FailureRecord) → Updated
    final_look i memory candidate (err code) = fails code memory
    final_look i memory candidate (ok none) = fails runtime_unavailable memory
    final_look i memory candidate (ok (some final)) =
        settled memory final (decide i candidate (some final))

    unfoldable pub update_from : ℕ → ℕ → Memory → Option Recovery → Updated
    unfolding read
    update_from zero i memory candidate =
        let found = around.before_read i memory in final_look i found candidate (read found id)
    update_from (suc n) i memory candidate =
        let found = around.before_read i memory in
        after_read (update_from n (i + 1)) i found candidate (read found id)

    -- update
    abbrev pub update : Memory → Updated
    update memory = update_from 3 0 memory none
