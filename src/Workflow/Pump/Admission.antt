-- ===== src/Workflow/Pump/Admission.antt =====
-- packages/core/src/workflow/pump.ts: the admission of the outbox's events.
use jawstack.Base.{
  is_some, ℕ, zero, suc, ◌+◌, Bool, true, false, not, ◌&&◌, Option, none, some, List, [], ◌∷◌, Text,
  Instant, leb, ltb, ◌==◌, length, find, get_elem?, and_some, when_some, if◌then◌else◌, Result, ok,
  err, ◌>>=◌, ◌>>◌, require, resource_invalid_state, resource_conflict,
}
use jawstack.Workflow.Failures.{Envelope}
use jawstack.Workflow.Pump.{Job, pending, Tally, Stop, aborted, refused}

-- What the pump is built with.
pub record Ports : Type 0 where
  pub parse : Envelope → Result Envelope
  pub fingerprint : Envelope → Text
  pub subscribers : Text → List Text
  pub max_jobs : ℕ

-- What `check` of the delivery answers; `available` and "full" are both wanted.
pub data CheckState : Type 0 where
  was_ignored was_processed available full : CheckState

pub record Pump : Type 0 where
  pub jobs : List Job
  pub cursor : ℕ
  pub boundary : Option Text

-- What happens around the admission of one event: whether the signal is aborted before it, the outbox then,
-- the answers of `check` with the times after them, and whether the event has been replaced or changed
-- in the outbox meanwhile.
pub record View : Type 0 where
  pub is_aborted : Bool
  pub rows : List Envelope
  pub check : Text → Result CheckState
  pub checked_at : Text → Instant
  pub is_changed : Bool

-- The map of jobs, by consumer and event id.
abbrev pub is_job : Text → Text → Job → Bool
is_job name event_id job = job.consumer == name && job.event.event_id == event_id

abbrev pub set_job : Job → List Job → List Job
set_job job [] = job ∷ []
set_job job (old ∷ jobs) =
    if is_job job.consumer job.event.event_id old then job ∷ jobs else old ∷ set_job job jobs

abbrev pub set_jobs : List Job → List Job → List Job
set_jobs [] jobs = jobs
set_jobs (job ∷ needed) jobs = set_jobs needed (set_job job jobs)

abbrev pub is_wanted : CheckState → Bool
is_wanted available = true
is_wanted full = true
is_wanted _ = false

abbrev is_ignored : CheckState → Bool
is_ignored was_ignored = true
is_ignored _ = false

pub record Needed : Type 0 where
  pub needed : List Job
  pub ignored : ℕ

abbrev pub new_job : Text → Envelope → Text → Instant → Job
new_job name event fingerprint at = record {
  consumer = name;
  event = event;
  fingerprint = fingerprint;
  attempts = 0;
  due_at = at;
  status = pending;
}

-- What comes of one event: nothing more to look at, an admission, no room, or an error.
pub data Step : Type 0 where
  exhausted blocked : Step
  admits : (pump : Pump) (ignored : ℕ) → Step
  stops : (stop : Stop) → Step

pub record Admitted : Type 0 where
  pub pump : Pump
  pub tally : Tally
  pub is_blocked : Bool
  pub stop : Option Stop

abbrev admitted : Pump → Tally → Bool → Option Stop → Admitted
admitted pump tally is_blocked stop = record {
  pump = pump;
  tally = tally;
  is_blocked = is_blocked;
  stop = stop;
}

abbrev pub count_admitted : Tally → ℕ → Tally
count_admitted tally ignored = record tally {
  scanned = tally.scanned + 1;
  was_ignored = tally.was_ignored + ignored;
}

module _ (ports : Ports) where
  -- checkBoundary
  abbrev pub boundary_ok : Pump → List Envelope → Bool
  boundary_ok pump rows = leb pump.cursor (length rows) && elim pump.cursor [
    | zero ↦ true
    | suc last ↦
        and_some (get_elem? rows last) (λ e. and_some pump.boundary (λ b. ports.fingerprint e == b))
  ]

  -- What one more subscriber adds to what the later ones want.
  abbrev pub add_needed : Bool → CheckState → Job → Needed → Needed
  add_needed is_known state job later = record {
    needed = if not is_known && is_wanted state then job ∷ later.needed else later.needed;
    ignored = if is_ignored state then later.ignored + 1 else later.ignored;
  }

  -- The loop over the subscribers.
  unfoldable pub needed_jobs : List Job → View → Envelope → List Text → Result Needed
  needed_jobs jobs view event [] = ok (record { needed = []; ignored = 0 })
  needed_jobs jobs view event (name ∷ names) =
      let fingerprint = ports.fingerprint event in
      let old = find (is_job name event.event_id) jobs in
      let later = needed_jobs jobs view event names in
      (do
        require (when_some old (λ job. job.fingerprint == fingerprint)) resource_conflict
        state ← view.check name
        rest ← later
        ok (
            add_needed (is_some old) state (new_job name event fingerprint (view.checked_at name))
              rest))

  abbrev pub admit_needed : Pump → View → Envelope → List Text → Needed → Step
  admit_needed pump view raw names n =
      if ltb ports.max_jobs (length pump.jobs + length n.needed)
      then blocked
      else if view.is_changed
      then stops (refused resource_invalid_state)
      else admits
          (record {
            jobs = set_jobs n.needed pump.jobs;
            cursor = pump.cursor + 1;
            boundary = some (ports.fingerprint raw);
          })
          (n.ignored + (if leb 1 (length names) then 0 else 1))

  abbrev pub admit_parsed : Pump → View → Envelope → Result Envelope → Step
  admit_parsed pump view raw (err code) = stops (refused code)
  admit_parsed pump view raw (ok event) =
      let names = ports.subscribers event.event_type in
      elim (needed_jobs pump.jobs view event names) [
        | err code ↦ stops (refused code)
        | ok n ↦ admit_needed pump view raw names n
      ]

  -- The body of the loop over the outbox.
  unfoldable pub admit : Pump → View → Step
  unfolding needed_jobs
  admit pump view = elim (get_elem? view.rows pump.cursor) [
    | none ↦ exhausted
    | some raw ↦
        if view.is_aborted
        then stops aborted
        else if boundary_ok pump view.rows
        then admit_parsed pump view raw (ports.parse raw)
        else stops (refused resource_invalid_state)
  ]

  -- How a step goes on.
  abbrev pub after_step : Pump → Tally → (Pump → ℕ → Admitted) → Step → Admitted
  after_step pump tally next exhausted = admitted pump tally false none
  after_step pump tally next blocked = admitted pump tally true none
  after_step pump tally next (stops stop) = admitted pump tally false (some stop)
  after_step pump tally next (admits after ignored) = next after ignored

  -- The loop, which may admit so many events; the views are those of the events in turn.
  unfoldable pub admit_all : ℕ → (ℕ → View) → Pump → Tally → Admitted
  unfolding admit
  admit_all zero views pump tally = admitted pump tally false none
  admit_all (suc n) views pump tally =
      after_step pump tally
        (λ after ignored. admit_all n (λ i. views (i + 1)) after (count_admitted tally ignored))
        (admit pump (views 0))
