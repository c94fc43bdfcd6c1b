-- ===== src/Core/Store.antt =====
-- packages/core/src/index.ts: `InMemoryStore` and `InMemoryUnitOfWork`. The keys of its maps join
-- their parts by a character that no part has, so a key is the pair of its parts.
use jawstack.Base.{
  pair_key, ℕ, Bool, true, false, not, ◌&&◌, Option, none, some, List, [], ◌∷◌, ◌++◌, Text, ◌==◌,
  keep, Result, ok, err, ◌>>◌, require, Key, get, set, if◌then◌else◌, idempotency_conflict,
  resource_conflict, resource_not_found, text_key,
}
use jawstack.Core.Commands.{
  ActivityRecord, Event, ProjectionWrite, Fingerprint, IdempotencyCommit, CommitInput,
}
use jawstack.Core.Types.{ResourceState}

abbrev pub ResourceKey : Type 0
ResourceKey = Text × Text

-- resourceKey
abbrev pub resource_key : Key ResourceKey
resource_key = pair_key

module _ (J : Type 0) where
  pub record Store : Type 0 where
    pub resources : List (ResourceKey × ResourceState J)
    pub activity : List (ActivityRecord J)
    pub outbox : List (Event J)
    pub projections : List (ProjectionWrite J)
    pub idempotency : List (Text × IdempotencyCommit J)

abbrev expects : Option ℕ → ℕ → Bool
expects none version = false
expects (some v) version = v == version

module _ {J : Type 0} where
  abbrev same_item : ProjectionWrite J → ProjectionWrite J → Bool
  same_item a b = a.projection_name == b.projection_name && a.item_id == b.item_id

  -- One turn of the loop over `input.projections`, with `deleteProjectionItem`.
  abbrev pub write_projection :
      List (ProjectionWrite J) → ProjectionWrite J → List (ProjectionWrite J)
  write_projection rows p =
      let others = keep (λ r. not (same_item r p)) rows in
      if p.delete then others else others ++ (p ∷ [])

  abbrev pub write_projections :
      List (ProjectionWrite J) → List (ProjectionWrite J) → List (ProjectionWrite J)
  write_projections rows [] = rows
  write_projections rows (p ∷ rest) = write_projections (write_projection rows p) rest

  abbrev pub key_of : CommitInput J → ResourceKey
  key_of c = (c.resource_type, c.resource_id)

  -- The checks of `commit` on the row that it finds.
  abbrev pub check_row : CommitInput J → Option (ResourceState J) → Result (Unit {0})
  check_row c none = require c.create resource_not_found
  check_row c (some row) =
      if c.create
      then err resource_conflict
      else require (expects c.expected_version row.version) resource_conflict

  abbrev pub remember :
      Option (IdempotencyCommit J)
      → List (Text × IdempotencyCommit J)
      → List (Text × IdempotencyCommit J)
  remember none known = known
  remember (some r) known = set text_key known r.key r

  unfoldable pub write : Store J → CommitInput J → Store J
  write store c = record {
    resources = set resource_key store.resources (key_of c) c.next;
    activity = store.activity ++ c.activity;
    outbox = store.outbox ++ c.outbox;
    projections = write_projections store.projections c.projections;
    idempotency = remember c.idempotency store.idempotency;
  }

  abbrev pub known : Store J → Option (IdempotencyCommit J) → Option (IdempotencyCommit J)
  known store none = none
  known store (some r) = get text_key store.idempotency r.key

  unfoldable pub commit_new : Store J → CommitInput J → Result (Store J)
  unfolding write
  commit_new store c = do
    check_row c (get resource_key store.resources (key_of c))
    ok (write store c)

module _ {J : Type 0} (same_input : J → J → Bool) where
  abbrev same_id : Option Text → Option Text → Bool
  same_id none none = true
  same_id (some a) (some b) = a == b
  same_id _ _ = false

  -- Whether two fingerprints are the same text. `same_input` tells whether two parsed inputs have the
  -- same stable JSON text.
  abbrev pub same_fingerprint : Fingerprint J → Fingerprint J → Bool
  same_fingerprint a b =
      a.resource_type == b.resource_type
      && same_id a.resource_id b.resource_id
      && a.command_name == b.command_name
      && same_input a.input b.input

  abbrev pub matches : IdempotencyCommit J → Option (IdempotencyCommit J) → Bool
  matches existing none = false
  matches existing (some r) = same_fingerprint existing.fingerprint r.fingerprint

  -- InMemoryUnitOfWork.commit
  unfoldable pub commit : Store J → CommitInput J → Result (Store J)
  unfolding commit_new
  commit store c = elim (known store c.idempotency) [
    | none ↦ commit_new store c
    | some existing ↦ if matches existing c.idempotency then ok store else err idempotency_conflict
  ]
