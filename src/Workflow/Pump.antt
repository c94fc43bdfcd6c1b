-- ===== src/Workflow/Pump.antt =====
-- packages/core/src/workflow/pump.ts: the jobs of `createWorkflowPump`, and one pass over them. What the
-- ports answer, the times that the clock shows and whether the signal is aborted are data of a pass.
pub mod Admission
pub mod Drains
pub mod Admits
pub mod Sweeps
pub mod Passes
pub mod Bounds
pub mod Kept
pub mod Idle
mod Tests
use jawstack.Base.{
  ℕ, zero, suc, ◌+◌, ◌*◌, Bool, true, false, not, ◌&&◌, ◌||◌, Option, none, some, List, [], ◌∷◌,
  Text, Instant, leb, ltb, length, if◌then◌else◌, RuntimeErrorCode,
}
use jawstack.Workflow.Delivery.{DeliveryStatus, ignored, deferred, was_processed, duplicate}
use jawstack.Workflow.Failures.{Envelope}

pub data JobStatus : Type 0 where
  pending failed : JobStatus

pub record Job : Type 0 where
  pub consumer : Text
  pub event : Envelope
  pub fingerprint : Text
  pub attempts : ℕ
  pub due_at : Instant
  pub status : JobStatus

abbrev pub is_pending : Job → Bool
is_pending job = elim job.status [ pending ↦ true | failed ↦ false ]

-- The counters of a pass.
pub record Tally : Type 0 where
  pub scanned : ℕ
  pub attempted : ℕ
  pub succeeded : ℕ
  pub retried : ℕ
  pub has_failed : ℕ
  pub was_ignored : ℕ
  pub collected : ℕ
  pub collection_failed : ℕ
  pub was_deferred : ℕ

abbrev pub no_tally : Tally
no_tally = record {
  scanned = 0;
  attempted = 0;
  succeeded = 0;
  retried = 0;
  has_failed = 0;
  was_ignored = 0;
  collected = 0;
  collection_failed = 0;
  was_deferred = 0;
}

-- What ends a pass early.
pub data Stop : Type 0 where
  aborted : Stop
  refused : (code : RuntimeErrorCode) → Stop

-- What `handle` or `collect` does with a job: it answers, or it throws.
pub data Reply : Type 0 where
  answered : (status : DeliveryStatus) → Reply
  thrown : Reply

-- The turn of a job: whether the signal is aborted before it, the time that it is compared with, what
-- comes of it, whether the signal is aborted then, and the time then.
pub record Turn : Type 0 where
  pub is_aborted : Bool
  pub now : Instant
  pub reply : Reply
  pub is_aborted_after : Bool
  pub later : Instant

-- What a turn leaves of its job, with the counters and what it ends the pass by.
pub record Turned : Type 0 where
  pub kept : Option Job
  pub tally : Tally
  pub stop : Option Stop

abbrev pub goes_on : Option Job → Tally → Turned
goes_on kept tally = record { kept = kept; tally = tally; stop = none }

abbrev pub is_deferred : DeliveryStatus → Bool
is_deferred deferred = true
is_deferred _ = false

abbrev is_ignored : DeliveryStatus → Bool
is_ignored ignored = true
is_ignored _ = false

-- An attempt that throws: the first two are tried again, the third fails the job.
abbrev pub attempt_thrown : Turn → Job → Tally → Turned
attempt_thrown turn job tally =
    if leb 3 job.attempts
    then goes_on (some (record job { status = failed; due_at = turn.later }))
        (record tally { has_failed = tally.has_failed + 1 })
    else goes_on (some (record job { due_at = turn.later + job.attempts * 1000 }))
        (record tally { retried = tally.retried + 1 })

abbrev pub attempt_answered : Turn → Job → Tally → DeliveryStatus → Turned
attempt_answered turn job tally status =
    if is_deferred status
    then goes_on (some (record job { due_at = turn.later + 1000 }))
        (record tally { was_deferred = tally.was_deferred + 1 })
    else if is_ignored status
    then goes_on none (record tally { was_ignored = tally.was_ignored + 1 })
    else goes_on none (record tally { succeeded = tally.succeeded + 1 })

-- The body of the loop over the pending jobs.
unfoldable pub attempt_job : Turn → Job → Tally → Turned
attempt_job turn job tally =
    let counted = record tally { attempted = tally.attempted + 1 } in
    elim turn.reply [
      | answered status ↦ attempt_answered turn job counted status
      | thrown ↦
          if turn.is_aborted_after
          then record { kept = some job; tally = counted; stop = some aborted }
          else attempt_thrown turn (record job { attempts = job.attempts + 1 }) counted
    ]

-- The body of the loop over the failed ones.
unfoldable pub collect_job : Turn → Job → Tally → Turned
collect_job turn job tally = elim turn.reply [
  | answered status ↦
      if is_deferred status
      then goes_on (some (record job { due_at = turn.later + 1000 }))
          (record tally { was_deferred = tally.was_deferred + 1 })
      else goes_on none (record tally { collected = tally.collected + 1 })
  | thrown ↦
      if turn.is_aborted_after
      then record { kept = some job; tally = tally; stop = some aborted }
      else goes_on (some (record job { due_at = turn.later + 1000 }))
          (record tally { collection_failed = tally.collection_failed + 1 })
]

-- A loop over the jobs, after so many turns in this pass.
pub record Swept : Type 0 where
  pub jobs : List Job
  pub work : ℕ
  pub tally : Tally
  pub stop : Option Stop

abbrev pub ends : List Job → ℕ → Tally → Option Stop → Swept
ends jobs work tally stop = record { jobs = jobs; work = work; tally = tally; stop = stop }

abbrev pub keep : Option Job → List Job → List Job
keep none jobs = jobs
keep (some job) jobs = job ∷ jobs

abbrev pub before : Option Job → Swept → Swept
before kept s = record s { jobs = keep kept s.jobs }

module _ (limit : ℕ) (takes : Job → Bool) (turns : Job → Turn)
    (body : Turn → Job → Tally → Turned) where
  abbrev pub after_turn : (Tally → Swept) → List Job → ℕ → Turned → Swept
  after_turn next rest work turned = elim turned.stop [
    | none ↦ before turned.kept (next turned.tally)
    | some stop ↦ ends (keep turned.kept rest) work turned.tally (some stop)
  ]

  unfoldable pub sweep : List Job → ℕ → Tally → Swept
  sweep [] work tally = ends [] work tally none
  sweep (job ∷ rest) work tally =
      let skipped = sweep rest work tally in
      let turned =
        after_turn (sweep rest (work + 1)) rest (work + 1) (body (turns job) job tally) in
      if (turns job).is_aborted
      then ends (job ∷ rest) work tally (some aborted)
      else if leb limit work
      then ends (job ∷ rest) work tally none
      else if takes job && leb job.due_at (turns job).now
      then turned
      else before (some job) skipped
