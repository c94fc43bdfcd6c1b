-- ===== src/Content/Publishing/Runs.antt =====
-- Any sequence of the commands of publication-commands.ts that act on a publication, each deciding
-- on the row that the accepted ones before it wrote.
use jawstack.Base.{
  some-inj, ℕ, ◌+◌, ◌-◌, ◌*◌, Bool, true, false, some, List, [], ◌∷◌, Text, ◌≡◌, refl, ◌≤◌, arith,
  Result, ok, err, ap, ◌∙◌, sym,
}
use jawstack.Content.Facts.{Sized}
use jawstack.Content.Publishing.{Stored, PublicationRef, Fence, ArtifactInput}
use jawstack.Content.Publishing.Commands.{
  claim_publication, complete_publication, fail_publication, reconcile_publication_failure,
  retry_publication,
}
use jawstack.Content.Publishing.Preserve.{IsValid, publication_ok-IsValid}
use jawstack.Content.Publishing.Refines.{
  claim-Moved, complete-Moved, fail-Moved, reconcile-Moved, retry-Moved,
}
use jawstack.Content.Publishing.Transitions.{
  Kind, claim, complete, fail, stall, retry, Transition, claims, completes, fails, stalls, retries,
  Moved,
}
use jawstack.Content.Resource.{Decision}
use jawstack.Content.Schema.{publication_attempts, publication_generations, publication_ok}
use jawstack.Content.Types.{Publication, ContentState, FailureCode}
use jawstack.Core.Types.{Context}

pub data Command : Type 0 where
  claim_with : ℕ → PublicationRef → Text → Command
  complete_with : ℕ → Fence → ArtifactInput → Command
  fail_with : ℕ → Fence → FailureCode → Command
  reconcile_with : ℕ → PublicationRef → Text → Text → Command
  retry_with : ℕ → PublicationRef → Command

abbrev kind_of : Command → Kind
kind_of (claim_with v ref a) = claim
kind_of (complete_with v fence input) = complete
kind_of (fail_with v fence code) = fail
kind_of (reconcile_with v ref f s) = stall
kind_of (retry_with v ref) = retry

abbrev target_of : Command → PublicationRef
target_of (claim_with v ref a) = ref
target_of (complete_with v fence input) = fence.target
target_of (fail_with v fence code) = fence.target
target_of (reconcile_with v ref f s) = ref
target_of (retry_with v ref) = ref

abbrev is_claim : Command → Bool
is_claim (claim_with v ref a) = true
is_claim _ = false

module _ (fits : Sized → Bool) where
  unfoldable pub decide : Context ContentState → Command → Result Decision
  decide context (claim_with v ref a) = claim_publication fits context v ref a
  decide context (complete_with v fence input) = complete_publication fits context v fence input
  decide context (fail_with v fence code) = fail_publication fits context v fence code
  decide context (reconcile_with v ref f s) = reconcile_publication_failure fits context v ref f s
  decide context (retry_with v ref) = retry_publication fits context v ref

  -- Every accepted command found a publication that is being published and is the one that it names,
  -- and changes it by the one transition of the cycle that goes with the command.
  pub decide-Moved :
      (context : Context ContentState) (c : Command) {d : Decision}
      → decide context c ≡ ok d
      → Moved context (kind_of c) (target_of c) d
  unfolding decide
  decide-Moved context (claim_with v ref a) h = claim-Moved fits context v ref a h
  decide-Moved context (complete_with v fence input) h = complete-Moved fits context v fence input h
  decide-Moved context (fail_with v fence code) h = fail-Moved fits context v fence code h
  decide-Moved context (reconcile_with v ref f s) h = reconcile-Moved fits context v ref f s h
  decide-Moved context (retry_with v ref) h = retry-Moved fits context v ref h

  abbrev written_by : Stored → Decision → Stored
  written_by previous d = record previous { version = previous.version + 1; state = d.next_state }

  -- The row after a decision, and whether a claim was accepted. The call's context reads that row.
  abbrev read_row : Context ContentState → Stored → Context ContentState
  read_row context row = record context { previous = some row }

  abbrev next_row : Stored → Result Decision → Stored
  next_row row (ok d) = written_by row d
  next_row row (err e) = row

  abbrev count : Command → Result Decision → ℕ
  count c (ok d) = elim (is_claim c) [ true ↦ 1 | false ↦ 0 ]
  count c (err e) = 0

  -- How many claims a sequence of calls is granted.
  unfoldable pub granted : Stored → List (Context ContentState × Command) → ℕ
  unfolding decide
  granted row [] = 0
  granted row ((context, c) ∷ rest) =
      let d = decide (read_row context row) c in count c d + granted (next_row row d) rest

-- The attempts that a publication has behind it.
abbrev pub used : Publication → ℕ
used p = publication_attempts * (p.generation - 1) + p.attempts_in_generation

abbrev pub budget : ℕ
budget = publication_attempts * publication_generations

claim_count : Kind → ℕ
claim_count claim = 1
claim_count _ = 0

Transition-used :
    {context : Context ContentState} {p q : Publication} {kind : Kind}
    → Transition context p kind q
    → IsValid p
    → used p + claim_count kind ≤ used q
unfolding claim_count
Transition-used (claims attempt_id token phase free room differs) v = ground (arith, v.generation)
Transition-used (completes fence last input held latest key size) v = ground arith
Transition-used (fails fence last code held latest) v = ground arith
Transition-used (stalls closed failure phase free same) v = ground arith
Transition-used (retries closed work free room same) v = ground (arith, v.generation, v.attempts)

IsValid-used : (p : Publication) → IsValid p → used p ≤ budget
IsValid-used p v = ground (arith, v.generation, v.attempts)

module _ (fits : Sized → Bool) where
  count-ok : (c : Command) (d : Decision) → claim_count (kind_of c) ≡ count fits c (ok d)
  unfolding claim_count
  count-ok (claim_with v ref a) d = refl
  count-ok (complete_with v fence input) d = refl
  count-ok (fail_with v fence code) d = refl
  count-ok (reconcile_with v ref f s) d = refl
  count-ok (retry_with v ref) d = refl

  granted-ok :
      (row : Stored) (p : Publication) (context : Context ContentState) (c : Command)
      (rest : List (Context ContentState × Command)) (d : Decision)
      → row.state.publication ≡ some p
      → publication_ok p ≡ true
      → Moved (read_row fits context row) (kind_of c) (target_of c) d
      → ((after : Publication)
          → d.next_state.publication ≡ some after
          → publication_ok after ≡ true
          → used after + granted fits (written_by fits row d) rest ≤ budget)
      → used p + (count fits c (ok d) + granted fits (written_by fits row d) rest) ≤ budget
  unfolding claim_count
  granted-ok row p context c rest d held valid m later =
      let stored : m.stored ≡ row = some-inj (sym m.read) in
      let before : m.before ≡ p =
        some-inj (sym m.held ∙ (ap (λ (s : Stored). s.state.publication) stored ∙ held)) in
      let step =
        Transition-used m.by (publication_ok-IsValid m.before (ap publication_ok before ∙ valid)) in
      let rest_bound = later m.after m.written m.valid in
      omega (arith, step, rest_bound, ap used before, count-ok c d)

  granted-step :
      (row : Stored) (p : Publication) (context : Context ContentState) (c : Command)
      (rest : List (Context ContentState × Command))
      → row.state.publication ≡ some p
      → publication_ok p ≡ true
      → (r : Result Decision)
      → ((d : Decision) → r ≡ ok d → Moved (read_row fits context row) (kind_of c) (target_of c) d)
      → ((row' : Stored) (p' : Publication)
          → row'.state.publication ≡ some p'
          → publication_ok p' ≡ true
          → used p' + granted fits row' rest ≤ budget)
      → used p + (count fits c r + granted fits (next_row fits row r) rest) ≤ budget
  granted-step row p context c rest held valid (ok d) move later =
      granted-ok row p context c rest d held valid (move d refl)
        (λ after written valid'. later (written_by fits row d) after written valid')
  granted-step row p context c rest held valid (err e) move later =
      omega (arith, later row p held valid)

  -- However the calls come and whoever makes them, a publication is granted at most
  -- `publication_attempts * publication_generations` claims over its life, those it has behind it
  -- included.
  pub claims_bounded :
      (row : Stored) (p : Publication) (calls : List (Context ContentState × Command))
      → row.state.publication ≡ some p
      → publication_ok p ≡ true
      → used p + granted fits row calls ≤ budget
  unfolding granted
  claims_bounded row p [] held valid =
      ground (arith, IsValid-used p (publication_ok-IsValid p valid))
  claims_bounded row p ((context, c) ∷ rest) held valid =
      granted-step row p context c rest held valid (decide fits (read_row fits context row) c)
        (λ d h. decide-Moved fits (read_row fits context row) c h)
        (λ row' p' held' valid'. claims_bounded row' p' rest held' valid')
