-- ===== src/Workflow/Delivery.antt =====
-- packages/core/src/workflow/delivery.ts: processing markers, and the handling of a delivered fact.
pub mod Capacity
pub mod Kept
pub mod Once
mod Tests
use jawstack.Base.{
  runtime_internal, ℕ, ◌+◌, Bool, true, false, not, ◌&&◌, ◌||◌, Option, none, some, List, Text,
  Instant, ltb, leb, ◌==◌, when_some, length, keep, is_some, Result, ok, err, ◌>>=◌, ◌>>◌, require,
  resource_conflict, runtime_unavailable, get, set, pair_key, if◌then◌else◌,
}

abbrev pub marker_lifetime_ms : ℕ
marker_lifetime_ms = 604_800_000

pub record Marker : Type 0 where
  pub fingerprint : Text
  pub expires_at : Instant

-- A key of the maps: a consumer and the id of an event.
abbrev pub MarkerMap : Type 0
MarkerMap = List ((Text × Text) × Marker)

-- What `access` reads of an event: its id, and the fingerprint of its envelope.
pub record Fact : Type 0 where
  pub event_id : Text
  pub fingerprint : Text

abbrev is_live : Instant → (Text × Text) × Marker → Bool
is_live time row = ltb time row.1.expires_at

abbrev pub expire : MarkerMap → Instant → MarkerMap
expire map time = keep (is_live time) map

-- The rest of `access`, on the map without its expired rows.
abbrev pub find_marker : MarkerMap → Text → Fact → Result (Option Marker)
find_marker map consumer fact = elim (get pair_key map (consumer, fact.event_id)) [
  | none ↦ ok none
  | some old ↦ if old.fingerprint == fact.fingerprint then ok (some old) else err resource_conflict
]

pub data Presence : Type 0 where
  processed available full : Presence

abbrev presence_of : ℕ → ℕ → Option Marker → Presence
presence_of size maximum (some old) = processed
presence_of size maximum none = if leb maximum size then full else available

-- `check` of the memory markers, on one of its maps
unfoldable pub check_marker : ℕ → MarkerMap → Text → Fact → Instant → Result Presence
check_marker maximum map consumer fact time = do
  old ← find_marker (expire map time) consumer fact
  ok (presence_of (length (expire map time)) maximum old)

-- `write`
unfoldable pub write_marker : ℕ → MarkerMap → Text → Fact → Instant → Result MarkerMap
write_marker maximum map consumer fact time = do
  old ← find_marker (expire map time) consumer fact
  require (is_some old || ltb (length (expire map time)) maximum) runtime_unavailable
  ok (
      set pair_key (expire map time) (consumer, fact.event_id)
        (record { fingerprint = fact.fingerprint; expires_at = time + marker_lifetime_ms }))

pub data DeliveryStatus : Type 0 where
  was_processed duplicate ignored deferred : DeliveryStatus

-- What a business handler may return: `undefined`, "ignored", or anything else.
pub data Outcome : Type 0 where
  nothing ignoring invalid : Outcome

-- One call of `handle` or `collect`, with what its ports do in it; no other call runs between its
-- check and its write. `consumer` is the name that the markers get, "collectFailure." with the
-- consumer's for `collect`, which picks the other map. `ready` is what comes before the
-- marker: the signal's first check and `validate`, which tells whether the consumer is the target.
-- `work` is what comes between the two uses of the markers. An abort is the code "runtime.internal".
pub record Call : Type 0 where
  pub consumer : Text
  pub fact : Fact
  pub ready : Result Bool
  pub work : Result DeliveryStatus
  pub checked_at : Instant
  pub written_at : Instant

abbrev outcome_status : Outcome → Result DeliveryStatus
outcome_status nothing = ok was_processed
outcome_status ignoring = ok ignored
outcome_status invalid = err runtime_unavailable

abbrev unless_aborted : Bool → Result (Unit {0})
unless_aborted aborted = require (not aborted) runtime_internal

-- The work of `handle`: the handler, and `complete` for a recovery.
abbrev pub handle_work :
    Bool → Result Outcome → Bool → Bool → Result (Unit {0}) → Result DeliveryStatus
handle_work aborted_before outcome aborted_after is_recovery completed = do
  unless_aborted aborted_before
  o ← outcome
  status ← outcome_status o
  unless_aborted aborted_after
  if is_recovery then completed else ok tt
  ok status

-- The work of `collect`.
abbrev pub collect_work : Bool → Result (Unit {0}) → Bool → Result DeliveryStatus
collect_work aborted_before collected aborted_after = do
  unless_aborted aborted_before
  collected
  unless_aborted aborted_after
  ok was_processed

-- The answer of a call, the markers after it, and whether it got to its work.
pub record Delivered : Type 0 where
  pub answer : Result DeliveryStatus
  pub markers : MarkerMap
  pub worked : Bool

module _ (maximum : ℕ) (c : Call) where
  abbrev pub finish_write : MarkerMap → DeliveryStatus → Result MarkerMap → Delivered
  finish_write map status (err e) = record {
    answer = err e;
    markers = expire map c.written_at;
    worked = true;
  }
  finish_write map status (ok after) = record { answer = ok status; markers = after; worked = true }

  abbrev pub finish_work : MarkerMap → Result DeliveryStatus → Delivered
  finish_work map (err e) = record { answer = err e; markers = map; worked = true }
  finish_work map (ok status) =
      finish_write map status (write_marker maximum map c.consumer c.fact c.written_at)

  abbrev pub after_check : MarkerMap → Result Presence → Delivered
  after_check map (err e) = record { answer = err e; markers = map; worked = false }
  after_check map (ok processed) = record { answer = ok duplicate; markers = map; worked = false }
  after_check map (ok full) = record { answer = ok deferred; markers = map; worked = false }
  after_check map (ok available) = finish_work map c.work

  abbrev pub after_ready : MarkerMap → Result Bool → Delivered
  after_ready map (err e) = record { answer = err e; markers = map; worked = false }
  after_ready map (ok false) = record { answer = ok ignored; markers = map; worked = false }
  after_ready map (ok true) =
      after_check (expire map c.checked_at)
        (check_marker maximum map c.consumer c.fact c.checked_at)

  -- `handle` and `collect`, each on the map of markers that its name picks
  unfoldable pub deliver : MarkerMap → Delivered
  unfolding check_marker write_marker
  deliver map = after_ready map c.ready
