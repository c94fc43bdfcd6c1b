-- ===== src/Workflow/Failures/Service/Accepted.antt =====
-- The changes that packages/core/src/workflow/failures.ts decides on are changes that `validateChange` of
-- failure-records.ts accepts.
use jawstack.Base.{
  and-intro, ℕ, suc, ◌+◌, true, false, ◌&&◌, Option, none, some, List, [], ◌∷◌, map, Text, Instant,
  ltb, leb, ◌==◌, and_some, all, length, take, ◌≡◌, refl, ap, ◌∙◌, arith, ok, length-append,
}
use jawstack.Workflow.Failures.{
  Resolution, Collection, Recovery, Envelope, FailureRecord, same_recovery, same_list,
}
use jawstack.Workflow.Failures.Ledger.{
  collection_kept, validate_change, history_ok, keeps, last_added_ok, recovery_added_ok, version_of,
}
use jawstack.Workflow.Failures.Protocol.{Protocol, find_collection, is_pending, record_ok}
use jawstack.Workflow.Failures.Service.Decisions.{
  open_collection, collected, reconciled, completed, settle_one,
}
use jawstack.Workflow.Failures.Service.Histories.{
  same_envelope_refl, same_recovery_refl, same_list_refl, take-length_all, last-append,
  record_ok-consecutive, kept_in, kept_in-append, kept_in_self, kept_in-settle, stage-may_settle,
}

length-map {ℓ} : {A : Type ℓ} (f : A → A) (xs : List A) → length (map f xs) ≡ length xs
length-map f [] = refl
length-map f (x ∷ xs) = ap suc (length-map f xs)

module _ (protocol : Protocol) where
  -- The parts of an accepted change.
  pub accepted_of :
      (previous : Option FailureRecord) (next : FailureRecord) (event : Option Envelope)
      → next.version ≡ version_of previous + 1
      → history_ok previous next ≡ true
      → recovery_added_ok protocol previous next event ≡ true
      → validate_change protocol previous next event ≡ ok tt
  unfolding validate_change
  accepted_of previous next event version history added =
      let same : (next.version == version_of previous + 1) ≡ true = ground (arith, version) in
      simp (same, history, added)

  no_recovery :
      (old next : FailureRecord)
      → length next.recoveries ≡ length old.recoveries
      → recovery_added_ok protocol (some old) next none ≡ true
  unfolding recovery_added_ok
  no_recovery old next same =
      let fewer : ltb (length old.recoveries) (length next.recoveries) ≡ false =
        ground (arith, same) in
      rw fewer refl

  -- A change that leaves the recoveries as they are.
  quiet-accepted :
      (old next : FailureRecord)
      → next.version ≡ old.version + 1
      → next.recoveries ≡ old.recoveries
      → history_ok (some old) next ≡ true
      → validate_change protocol (some old) next none ≡ ok tt
  quiet-accepted old next version recoveries history =
      accepted_of (some old) next none version history (no_recovery old next (ap length recoveries))

  recoveries-kept : (rs : List Recovery) → same_list same_recovery (take (length rs) rs) rs ≡ true
  recoveries-kept rs =
      ap (λ t. same_list same_recovery t rs) (take-length_all rs)
      ∙ same_list_refl same_recovery same_recovery_refl rs

  -- The three parts of a history that goes on.
  pub history_of :
      (old next : FailureRecord)
      → keeps old next ≡ true
      → all (kept_in next.collections) old.collections ≡ true
      → last_added_ok old next ≡ true
      → history_ok (some old) next ≡ true
  unfolding history_ok
  history_of old next kept collections added =
      and-intro (keeps old next && all (collection_kept next) old.collections)
        (last_added_ok old next)
        (and-intro (keeps old next) (all (collection_kept next) old.collections) kept collections)
        added

  pub collected-accepted :
      (old : FailureRecord) (generation : ℕ) (event_id : Text) (at : Instant)
      → record_ok protocol old ≡ true
      → generation ≡ length old.recoveries
      → validate_change protocol
          (some old)
          (collected old (open_collection generation event_id at))
          none
        ≡ ok tt
  collected-accepted old generation event_id at valid current =
      let c = open_collection generation event_id at in
      let longer = length-append old.collections (c ∷ []) in
      quiet-accepted old (collected old c) refl refl (
        history_of old (collected old c)
          (ground (arith, longer, same_envelope_refl old.original, recoveries-kept old.recoveries))
          (kept_in-append 0 old.collections (c ∷ []) (record_ok-consecutive protocol old valid))
          (ground (arith, last-append old.collections c, current)))

  pub reconciled-accepted :
      (old : FailureRecord) (generation : ℕ) (resolution : Resolution) (at : Instant)
      (stage : Collection)
      → record_ok protocol old ≡ true
      → find_collection old.collections generation ≡ some stage
      → is_pending stage.resolution ≡ true
      → validate_change protocol (some old) (reconciled old generation resolution at) none ≡ ok tt
  reconciled-accepted old generation resolution at stage valid found open' =
      let same = length-map (settle_one generation resolution at) old.collections in
      let consecutive' = record_ok-consecutive protocol old valid in
      quiet-accepted old (reconciled old generation resolution at) refl refl (
        history_of old (reconciled old generation resolution at)
          (ground (arith, same, same_envelope_refl old.original, recoveries-kept old.recoveries))
          (kept_in-settle 0 generation resolution at old.collections consecutive'
            (stage-may_settle 0 generation old.collections stage consecutive' found open'))
          (ground (arith, same)))

  pub completed-accepted :
      (old : FailureRecord) (generation : ℕ)
      → record_ok protocol old ≡ true
      → and_some old.resolved_generation (λ g. leb generation g) ≡ false
      → validate_change protocol (some old) (completed old generation) none ≡ ok tt
  completed-accepted old generation valid behind =
      quiet-accepted old (completed old generation) refl refl (
        history_of old (completed old generation)
          (ground (arith, behind, same_envelope_refl old.original, recoveries-kept old.recoveries))
          (kept_in_self old.collections (record_ok-consecutive protocol old valid)) (ground arith))
