-- ===== src/Content/Schema.antt =====
-- apps/content-operations/src/shared/contracts.ts: what the schemas of the publication state check
-- beyond the shape of each field.
use jawstack.Base.{
  all, map, distinct, length, and_some, when_some, [], ◌∷◌, List, includes, ℕ, ◌+◌, ◌*◌, Bool, true,
  false, not, ◌&&◌, ◌||◌, Text, Instant, ltb, leb, ◌==◌, if◌then◌else◌, is_some,
}
use jawstack.Content.Types.{
  ReadyAttachment, Snapshot, Approval, ObjectKey, publication_snapshot, asset_original, other,
  Claim, Attempt, Intent, Artifact, Publication, is_claimed, is_failed_attempt, is_expired_attempt,
  is_succeeded_attempt, is_queued, is_running, is_failed, is_stalled, is_succeeded,
  is_terminal_code,
}

-- `limits`
abbrev pub publication_lease_ms : ℕ
publication_lease_ms = 90_000

abbrev pub publication_attempts : ℕ
publication_attempts = 3

abbrev pub publication_generations : ℕ
publication_generations = 4

abbrev pub publication_artifact_bytes : ℕ
publication_artifact_bytes = 80 * 1024

-- `===` on booleans.
abbrev pub same_bool : Bool → Bool → Bool
same_bool true b = b
same_bool false b = not b

abbrev pub same_key : ObjectKey → ObjectKey → Bool
same_key (publication_snapshot c p) (publication_snapshot d q) = c == d && p == q
same_key (asset_original c p) (asset_original d q) = c == d && p == q
same_key (other a) (other b) = a == b
same_key _ _ = false

-- The fixture identities. 0 is the blank text.
abbrev pub author_1 : Text
author_1 = 1

abbrev pub author_2 : Text
author_2 = 2

abbrev pub editor_1 : Text
editor_1 = 3

abbrev pub editor_2 : Text
editor_2 = 4

abbrev pub editor_ids : List Text
editor_ids = editor_1 ∷ editor_2 ∷ []

-- fixtureIds
abbrev pub fixture_ids : List Text
fixture_ids = author_1 ∷ author_2 ∷ editor_ids

abbrev pub max_safe_integer : ℕ
max_safe_integer = 9_007_199_254_740_991

-- versionSchema
abbrev pub version_ok : ℕ → Bool
version_ok v = leb 1 v && leb v max_safe_integer

-- approvalSchema
abbrev pub approval_ok : Approval → Bool
approval_ok a = includes a.approved_by editor_ids

abbrev pub generation_ok : ℕ → Bool
generation_ok g = leb 1 g && leb g publication_generations

unfoldable pub claim_ok : Claim → Bool
claim_ok c =
    not (c.attempt_id == c.fencing_token) && c.lease_until == c.started_at + publication_lease_ms

abbrev finish_ok : Attempt → Instant → Bool
finish_ok a at =
    leb a.claim.started_at at
    && (if is_expired_attempt a.status
        then leb a.claim.lease_until at
        else ltb at a.claim.lease_until)

unfoldable pub attempt_ok : Attempt → Bool
unfolding claim_ok
attempt_ok a =
    generation_ok a.generation
    && claim_ok a.claim
    && same_bool (is_claimed a.status) (not (is_some a.finished_at))
    && same_bool (is_failed_attempt a.status) (is_some a.failure_code)
    && when_some a.finished_at (finish_ok a)

abbrev pub publication_object_key : Text → Text → ObjectKey
publication_object_key content_id publication_id = publication_snapshot content_id publication_id

abbrev pub asset_object_key : Text → Text → ObjectKey
asset_object_key content_id asset_id = asset_original content_id asset_id

abbrev pub active_assets : ℕ
active_assets = 10

abbrev pub asset_bytes : ℕ
asset_bytes = 10 * 1024 * 1024

-- readyAttachmentSchema
abbrev pub ready_attachment_ok : ReadyAttachment → Bool
ready_attachment_ok a =
    leb 1 a.size
    && leb a.size asset_bytes
    && same_key a.object_key (asset_object_key a.content_id a.asset_id)

-- submittedSnapshotSchema
abbrev pub snapshot_ok : Snapshot → Bool
snapshot_ok s =
    includes s.author_id fixture_ids
    && leb (length s.attachments) active_assets
    && all ready_attachment_ok s.attachments
    && all (λ a. a.content_id == s.content_id) s.attachments
    && distinct (map (λ a. a.asset_id) s.attachments)

unfoldable pub intent_ok : Intent → Bool
intent_ok i =
    snapshot_ok i.snapshot
    && approval_ok i.approval
    && i.content_id == i.snapshot.content_id
    && i.approval.revision_id == i.snapshot.revision_id
    && leb i.snapshot.submitted_at i.approval.approved_at
    && leb i.approval.approved_at i.requested_at
    && when_some i.schedule (λ s. s.revision_id == i.snapshot.revision_id)

unfoldable pub artifact_ok : Artifact → Bool
artifact_ok a = leb 1 a.size && leb a.size publication_artifact_bytes

abbrev pub same_claim : Claim → Claim → Bool
same_claim c d =
    c.attempt_id == d.attempt_id
    && c.fencing_token == d.fencing_token
    && c.started_at == d.started_at
    && c.lease_until == d.lease_until

-- The refinements of `publicationStateSchema`, in their order.
module _ (p : Publication) where
  unfoldable pub stalled_check : Bool
  stalled_check = same_bool (is_stalled p.phase) (is_some p.delivery_failure)

  unfoldable pub phase_check : Bool
  phase_check =
      same_bool (is_running p.phase) (is_some p.claim)
      && same_bool (is_succeeded p.phase) (is_some p.artifact)

  unfoldable pub lifecycle_check : Bool
  lifecycle_check =
      (is_queued p.phase || is_stalled p.phase || not (p.attempts_in_generation == 0))
      && (not (is_queued p.phase)
          || not (ltb 0 p.attempts_in_generation)
          || and_some p.last_attempt (λ a. is_failed_attempt a.status))
      && when_some p.last_attempt (λ a. leb p.intent.requested_at a.claim.started_at)

  unfoldable pub count_check : Bool
  count_check = when_some p.last_attempt λ a.
      leb a.generation p.generation
      && not (a.generation == p.generation && p.attempts_in_generation == 0)

  unfoldable pub current_check : Bool
  current_check =
      not (ltb 0 p.attempts_in_generation)
      || and_some p.last_attempt (λ a. a.generation == p.generation)

  unfoldable pub claim_check : Bool
  claim_check =
      when_some p.claim
        λ c. and_some p.last_attempt (λ a. is_claimed a.status && same_claim c a.claim)

  unfoldable pub unclaimed_check : Bool
  unclaimed_check = is_some p.claim || not (and_some p.last_attempt (λ a. is_claimed a.status))

  unfoldable pub failed_check : Bool
  failed_check =
      not (is_failed p.phase) || and_some p.last_attempt (λ a. is_failed_attempt a.status)

  unfoldable pub terminal_check : Bool
  terminal_check = when_some p.last_attempt λ a.
      if is_failed_attempt a.status && a.generation == p.generation
      then same_bool (is_failed p.phase) (
          and_some a.failure_code is_terminal_code
          || leb publication_attempts p.attempts_in_generation)
      else true

  unfoldable pub artifact_check : Bool
  artifact_check = when_some p.artifact λ f. and_some p.last_attempt λ a.
      is_succeeded_attempt a.status
      && and_some a.finished_at (λ t. f.completed_at == t)
      && same_key f.object_key (publication_object_key p.intent.content_id p.intent.publication_id)

-- publicationStateSchema
unfoldable pub publication_ok : Publication → Bool
publication_ok p =
    intent_ok p.intent
    && generation_ok p.generation
    && leb p.attempts_in_generation publication_attempts
    && when_some p.claim claim_ok
    && when_some p.last_attempt attempt_ok
    && when_some p.artifact artifact_ok
    && stalled_check p
    && phase_check p
    && lifecycle_check p
    && count_check p
    && current_check p
    && claim_check p
    && unclaimed_check p
    && failed_check p
    && terminal_check p
    && artifact_check p
