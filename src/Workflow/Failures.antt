-- ===== src/Workflow/Failures.antt =====
-- packages/core/src/workflow/failure-records.ts: the history of a failed delivery.
pub mod Protocol
pub mod Ledger
pub mod Service
mod Tests
use jawstack.Base.{
  ℕ, Bool, true, false, ◌&&◌, Option, none, some, List, [], ◌∷◌, Text, Instant, ◌==◌,
}

pub data Resolution : Type 0 where
  pending not_applicable stalled failed superseded succeeded : Resolution

pub record Collection : Type 0 where
  pub generation : ℕ
  pub event_id : Text
  pub collected_at : Instant
  pub reconciled_at : Option Instant
  pub resolution : Resolution

-- An entry of `recoveries`.
pub record Recovery : Type 0 where
  pub generation : ℕ
  pub event_id : Text
  pub requested_at : Instant
  pub requested_by : Text
  pub request_id : Text

-- recoveryMetadataSchema
pub record Metadata : Type 0 where
  pub original_event_id : Text
  pub generation : ℕ
  pub consumer : Text
  pub failure_id : Text

-- A fact as it is delivered. `body` is the rest of the envelope and of the payload.
pub record Envelope : Type 0 where
  pub event_id : Text
  pub event_type : Text
  pub occurred_at : Instant
  pub causation_id : Option Text
  pub body : Text
  pub delivery : Option Metadata

pub record FailureRecord : Type 0 where
  pub id : Text
  pub version : ℕ
  pub consumer : Text
  pub original : Envelope
  pub fingerprint : Text
  pub first_collected_at : Instant
  pub collections : List Collection
  pub recoveries : List Recovery
  pub resolved_generation : Option ℕ

pub data RecoveryMode : Type 0 where
  replay application : RecoveryMode

pub record Consumer : Type 0 where
  pub name : Text
  pub event_types : List Text
  pub recovery : RecoveryMode

-- `isDeepStrictEqual` on the parts of a record.
abbrev pub number_of : Resolution → ℕ
number_of pending = 0
number_of not_applicable = 1
number_of stalled = 2
number_of failed = 3
number_of superseded = 4
number_of succeeded = 5

abbrev pub same_resolution : Resolution → Resolution → Bool
same_resolution a b = number_of a == number_of b

abbrev pub same_option : Option ℕ → Option ℕ → Bool
same_option none none = true
same_option (some a) (some b) = a == b
same_option _ _ = false

abbrev pub same_collection : Collection → Collection → Bool
same_collection a b =
    a.generation == b.generation
    && a.event_id == b.event_id
    && a.collected_at == b.collected_at
    && same_option a.reconciled_at b.reconciled_at
    && same_resolution a.resolution b.resolution

abbrev pub same_recovery : Recovery → Recovery → Bool
same_recovery a b =
    a.generation == b.generation
    && a.event_id == b.event_id
    && a.requested_at == b.requested_at
    && a.requested_by == b.requested_by
    && a.request_id == b.request_id

abbrev pub same_metadata : Option Metadata → Option Metadata → Bool
same_metadata none none = true
same_metadata (some a) (some b) =
    a.original_event_id == b.original_event_id
    && a.generation == b.generation
    && a.consumer == b.consumer
    && a.failure_id == b.failure_id
same_metadata _ _ = false

abbrev pub same_envelope : Envelope → Envelope → Bool
same_envelope a b =
    a.event_id == b.event_id
    && a.event_type == b.event_type
    && a.occurred_at == b.occurred_at
    && same_option a.causation_id b.causation_id
    && a.body == b.body
    && same_metadata a.delivery b.delivery

module _ {ℓ} {A : Type ℓ} (same : A → A → Bool) where
  abbrev pub same_list : List A → List A → Bool
  same_list [] [] = true
  same_list (a ∷ as') (b ∷ bs) = same a b && same_list as' bs
  same_list _ _ = false
