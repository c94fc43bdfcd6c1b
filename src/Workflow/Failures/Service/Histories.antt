-- ===== src/Workflow/Failures/Service/Histories.antt =====
-- What packages/core/src/workflow/failure-records.ts keeps of the histories of a failed delivery.
use mathlib.Core.List.{append-nil}
use jawstack.Base.{
  and-left, and-right, and-intro, sym, inr, some-inj, inl, Bool-cases, map, subst, ◌∙◌, ℕ, ◌+◌,
  Bool, true, false, not, ◌&&◌, ◌||◌, Option, some, List, [], ◌∷◌, ◌++◌, Text, Instant, ◌==◌,
  ==-refl, and_some, all, length, take, last, ◌≡◌, refl, ap, ◌<◌, arith,
}
use jawstack.Workflow.Failures.{
  Resolution, Collection, Recovery, Metadata, Envelope, FailureRecord, same_envelope,
  same_collection, same_recovery, same_list, same_option, same_metadata, same_resolution,
}
use jawstack.Workflow.Failures.Protocol.{
  Protocol, find_collection, is_pending, record_ok, stages_ok,
}
use jawstack.Workflow.Failures.Service.Decisions.{settle_one}

-- Equality of the parts of a record holds of a part and itself.
pub same_option_refl : (a : Option ℕ) → same_option a a ≡ true
same_option_refl a = ground arith

same_metadata_refl : (a : Option Metadata) → same_metadata a a ≡ true
same_metadata_refl a = ground arith

pub same_envelope_refl : (e : Envelope) → same_envelope e e ≡ true
same_envelope_refl e =
    ground (arith, same_option_refl e.causation_id, same_metadata_refl e.delivery)

same_resolution_refl : (r : Resolution) → same_resolution r r ≡ true
same_resolution_refl r = ground arith

pub same_collection_refl : (c : Collection) → same_collection c c ≡ true
same_collection_refl c =
    ground (arith, same_option_refl c.reconciled_at, same_resolution_refl c.resolution)

pub same_recovery_refl : (r : Recovery) → same_recovery r r ≡ true
same_recovery_refl r = ground arith

pub same_list_refl {ℓ} :
    {A : Type ℓ} (same : A → A → Bool)
    → ((a : A) → same a a ≡ true)
    → (xs : List A) → same_list same xs xs ≡ true
same_list_refl same each [] = refl
same_list_refl same each (x ∷ xs) = ground (arith, each x, same_list_refl same each xs)

pub take-length {ℓ} : {A : Type ℓ} (xs ys : List A) → take (length xs) (xs ++ ys) ≡ xs
take-length [] ys = refl
take-length (x ∷ xs) ys = ap (λ t. x ∷ t) (take-length xs ys)

pub take-length_all {ℓ} : {A : Type ℓ} (xs : List A) → take (length xs) xs ≡ xs
take-length_all [] = refl
take-length_all (x ∷ xs) = ap (λ t. x ∷ t) (take-length_all xs)

pub last-append {ℓ} : {A : Type ℓ} (xs : List A) (x : A) → last (xs ++ (x ∷ [])) ≡ some x
last-append [] x = refl
last-append (y ∷ []) x = refl
last-append (y ∷ z ∷ xs) x = last-append (z ∷ xs) x

-- The collections are those of consecutive generations.
abbrev pub consecutive : ℕ → List Collection → Bool
consecutive i [] = true
consecutive i (c ∷ cs) = c.generation == i && consecutive (i + 1) cs

stages_ok-consecutive :
    (row : FailureRecord) (i : ℕ) (event_id : Text) (since : Instant) (rs : List Recovery)
    (cs : List Collection)
    → stages_ok row i event_id since rs cs ≡ true
    → consecutive i cs ≡ true
stages_ok-consecutive row i event_id since rs [] h = refl
stages_ok-consecutive row i event_id since [] (c ∷ []) h = ground (arith, h)
stages_ok-consecutive row i event_id since [] (c ∷ d ∷ cs) h = cc
stages_ok-consecutive row i event_id since (r ∷ rs) (c ∷ cs) h = ground (
  arith,
  h,
  stages_ok-consecutive row (i + 1) r.event_id r.requested_at rs cs (ground (arith, h)),
)

pub record_ok-consecutive :
    (protocol : Protocol) (row : FailureRecord)
    → record_ok protocol row ≡ true
    → consecutive 0 row.collections ≡ true
unfolding record_ok
record_ok-consecutive protocol row h =
    stages_ok-consecutive row 0 row.original.event_id row.first_collected_at row.recoveries
      row.collections (ground (arith, h))

-- What a change keeps of one collection.
abbrev pub kept_as : Collection → Option Collection → Bool
kept_as c found = and_some found λ u.
    u.event_id == c.event_id
    && u.collected_at == c.collected_at
    && (is_pending c.resolution || same_collection u c)

abbrev pub kept_in : List Collection → Collection → Bool
kept_in cs c = kept_as c (find_collection cs c.generation)

find_collection-skip :
    (u : Collection) (new : List Collection) (g : ℕ)
    → (u.generation == g) ≡ false
    → find_collection (u ∷ new) g ≡ find_collection new g
find_collection-skip u new g apart = ground (arith, apart)

find_collection-here :
    (u : Collection) (new : List Collection) (g : ℕ)
    → (u.generation == g) ≡ true
    → find_collection (u ∷ new) g ≡ some u
find_collection-here u new g same = ground (arith, same)

later-differ :
    (i k : ℕ) (cs : List Collection)
    → i < k
    → consecutive k cs ≡ true
    → all (λ c. not (i == c.generation)) cs ≡ true
later-differ i k [] less h = refl
later-differ i k (c ∷ cs) less h =
    ground (arith, h, later-differ i (k + 1) cs (omega arith) (ground (arith, h)))

kept_in-skip :
    (u : Collection) (new cs : List Collection)
    → all (λ c. not (u.generation == c.generation)) cs ≡ true
    → all (kept_in new) cs ≡ true
    → all (kept_in (u ∷ new)) cs ≡ true
kept_in-skip u new [] differ kept = refl
kept_in-skip u new (c ∷ cs) differ kept =
    let apart : (u.generation == c.generation) ≡ false = ground (arith, differ) in
    let here = and-left (kept_in new c) (all (kept_in new) cs) kept in
    let rest = kept_in-skip u new cs (ground (arith, differ)) (and-right (kept_in new c) _ kept) in
    and-intro (kept_in (u ∷ new) c) (all (kept_in (u ∷ new)) cs)
      (ap (kept_as c) (find_collection-skip u new c.generation apart) ∙ here) rest

-- More collections keep the earlier ones.
pub kept_in-append :
    (i : ℕ) (cs extra : List Collection)
    → consecutive i cs ≡ true
    → all (kept_in (cs ++ extra)) cs ≡ true
kept_in-append i [] extra h = refl
kept_in-append i (c ∷ cs) extra h =
    let rest =
      kept_in-skip c (cs ++ extra) cs
        (later-differ c.generation (i + 1) cs (ground (arith, h)) (ground (arith, h)))
        (kept_in-append (i + 1) cs extra (ground (arith, h))) in
    and-intro (kept_in (c ∷ (cs ++ extra)) c) (all (kept_in (c ∷ (cs ++ extra))) cs)
      (ap (kept_as c) (find_collection-here c (cs ++ extra) c.generation (==-refl c.generation))
        ∙ ground (arith, same_collection_refl c))
      rest

pub kept_in_self : (cs : List Collection) → consecutive 0 cs ≡ true → all (kept_in cs) cs ≡ true
kept_in_self cs h =
    subst (λ new. all (kept_in new) cs ≡ true) (append-nil cs) (kept_in-append 0 cs [] h)

-- Settling the pending collections of a generation keeps all others.
abbrev pub may_settle : ℕ → Collection → Bool
may_settle g c = not (c.generation == g) || is_pending c.resolution

settle_one-generation :
    (g : ℕ) (r : Resolution) (at : Instant) (c : Collection)
    → (settle_one g r at c).generation ≡ c.generation
settle_one-generation g r at c = ground arith

settle_one-kept :
    (g : ℕ) (r : Resolution) (at : Instant) (c : Collection)
    → may_settle g c ≡ true
    → kept_as c (some (settle_one g r at c)) ≡ true
settle_one-kept g r at c h = elim (Bool-cases (c.generation == g)) [
  | inl same ↦ ground (arith, same, h)
  | inr other ↦ ground (arith, other, same_collection_refl c)
]

pub kept_in-settle :
    (i g : ℕ) (r : Resolution) (at : Instant) (cs : List Collection)
    → consecutive i cs ≡ true
    → all (may_settle g) cs ≡ true
    → all (kept_in (map (settle_one g r at) cs)) cs ≡ true
kept_in-settle i g r at [] h open' = refl
kept_in-settle i g r at (c ∷ cs) h open' =
    let u = settle_one g r at c in
    let new = map (settle_one g r at) cs in
    let same = settle_one-generation g r at c in
    let differ =
      later-differ u.generation (i + 1) cs (ground (arith, h, same)) (ground (arith, h)) in
    let rest = kept_in-skip u new cs differ (
      kept_in-settle (i + 1) g r at cs (ground (arith, h))
        (and-right (may_settle g c) (all (may_settle g) cs) open')) in
    let equal = ap (λ n. n == c.generation) same ∙ ==-refl c.generation in
    and-intro (kept_in (u ∷ new) c) (all (kept_in (u ∷ new)) cs)
      (ap (kept_as c) (find_collection-here u new c.generation equal)
        ∙ settle_one-kept g r at c (and-left (may_settle g c) (all (may_settle g) cs) open'))
      rest

differ-may_settle :
    (g : ℕ) (cs : List Collection)
    → all (λ c. not (g == c.generation)) cs ≡ true
    → all (may_settle g) cs ≡ true
differ-may_settle g [] h = refl
differ-may_settle g (c ∷ cs) h =
    and-intro (may_settle g c) (all (may_settle g) cs) (ground (arith, h))
      (differ-may_settle g cs (and-right (not (g == c.generation)) _ h))

-- Where the collection of a generation is pending, all of that generation are.
pub stage-may_settle :
    (i g : ℕ) (cs : List Collection) (stage : Collection)
    → consecutive i cs ≡ true
    → find_collection cs g ≡ some stage
    → is_pending stage.resolution ≡ true
    → all (may_settle g) cs ≡ true
stage-may_settle i g [] stage h found open' = refl
stage-may_settle i g (c ∷ cs) stage h found open' = elim (Bool-cases (c.generation == g)) [
  | inl same ↦
      let here : c ≡ stage = some-inj (sym (find_collection-here c cs g same) ∙ found) in
      let pending' = ap (λ (x : Collection). is_pending x.resolution) here ∙ open' in
      and-intro (may_settle g c) (all (may_settle g) cs) (ground (arith, pending')) (
        differ-may_settle g cs
          (later-differ g (i + 1) cs (ground (arith, h, same)) (ground (arith, h))))
  | inr other ↦ and-intro (may_settle g c) (all (may_settle g) cs) (ground (arith, other)) (
      stage-may_settle (i + 1) g cs stage (ground (arith, h))
        (sym (find_collection-skip c cs g other) ∙ found) open')
]
