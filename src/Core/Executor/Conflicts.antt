-- ===== src/Core/Executor/Conflicts.antt =====
-- Optimistic concurrency of packages/core/src/index.ts: two commands may read one state of a row
-- before either commits.
use jawstack.Base.{
  ok-inj, some-inj, ◌+◌, Bool, true, false, Option, none, some, Text, ◌≡◌, refl, ap, sym, ◌∙◌, ok,
  err, get, get-set, >>=-elim, arith, subst, resource_conflict,
}
use jawstack.Core.Commands.{CommandRequest, ApiSuccess, CommitInput, CommandDecision}
use jawstack.Core.Executor.{
  Options, Admitted, Prepared, replayed, writes, admit, decide_new, prepare, recorded,
  answer_or_decide, resource_id_for, previous_for, assert_decision, commit_input, context_of,
  idempotency_of,
}
use jawstack.Core.Store.{
  Store, commit, commit_new, check_row, write, key_of, known, resource_key, ResourceKey,
}
use jawstack.Core.Types.{ResourceState}

module _ {J : Type 0} where
  abbrev row_at : Store J → ResourceKey → Option (ResourceState J)
  row_at store k = get resource_key store.resources k

  -- What a prepared commit rests on: nothing, for a creation, or the row that was read.
  pub data Basis (store : Store J) (c : CommitInput J) : Type 0 where
    creates : c.create ≡ true → c.next.version ≡ 1 → Basis store c
    updates :
        (row : ResourceState J)
        → c.create ≡ false
        → row_at store (key_of c) ≡ some row
        → c.expected_version ≡ some row.version
        → c.next.version ≡ row.version + 1
        → Basis store c

  module _ (options : Options J) (store : Store J) (request : CommandRequest J) where
    previous-Basis :
        (a : Admitted J) (id : Text) (previous : Option (ResourceState J)) (d : CommandDecision J)
        → previous_for options store a.command request id ≡ ok previous
        → Basis store (commit_input options request a.command a.auth a.input id previous d)
    previous-Basis a id none d h = creates (ground (arith, h)) refl
    previous-Basis a id (some row) d h =
        updates row (ground (arith, h)) (ground (arith, h)) refl refl

    -- What the commit of a decision rests on and remembers.
    Written : Admitted J → Prepared J → Type 0
    Written a (replayed answer) = ⊥
    Written a (writes c answer) =
        Basis store c × (c.idempotency ≡ idempotency_of options request a.input answer)

    decide_new-Written :
        (a : Admitted J) {r : Prepared J}
        → decide_new options store request a.command a.auth a.input ≡ ok r
        → Written a r
    unfolding decide_new Written
    decide_new-Written a h = >>=-elim (resource_id_for options a.command request) _ h λ id _ h1.
        >>=-elim (previous_for options store a.command request id) _ h1 λ previous read h2.
          >>=-elim (a.command.decide (context_of options request a.auth previous id) a.input) _ h2
            λ d _ h3.
              >>=-elim (assert_decision d a.command) _ h3
                λ _ _ h4. subst (Written a) (ok-inj h4) (previous-Basis a id previous d read, refl)

    recorded-none :
        (noted : Store J) (input : J) (answer : ApiSuccess J)
        → recorded options noted request input ≡ ok none
        → known noted (idempotency_of options request input answer) ≡ none
    recorded-none noted input answer h = ground (arith, h)

    pub decide_new-writes :
        (a : Admitted J) (answer : ApiSuccess J)
        → decide_new options store request a.command a.auth a.input ≡ ok (replayed answer)
        → ⊥
    unfolding Written
    decide_new-writes a answer h = decide_new-Written a h

    pub answer-Written :
        (noted : Store J) (a : Admitted J) (found : Option (ApiSuccess J)) {c : CommitInput J}
        {answer : ApiSuccess J}
        → recorded options noted request a.input ≡ ok found
        → answer_or_decide options store request a found ≡ ok (writes c answer)
        → Basis store c
          × (known noted c.idempotency ≡ none)
          × (c.idempotency ≡ idempotency_of options request a.input answer)
    unfolding Written
    answer-Written noted a (some x) {c} {answer} read h = absurd (replayed-ne-writes (ok-inj h))
      where
        replayed-ne-writes : replayed x ≡ writes c answer → ⊥
        replayed-ne-writes q = cc
    answer-Written noted a none {c} {answer} read h =
        let (basis, same) = decide_new-Written a h in
        (basis, ap (known noted) same ∙ recorded-none noted a.input answer read, same)

    pub prepare-Basis :
        (noted : Store J) {c : CommitInput J} {answer : ApiSuccess J}
        → prepare options noted store request ≡ ok (writes c answer)
        → Basis store c × (known noted c.idempotency ≡ none)
    unfolding prepare
    prepare-Basis noted h = >>=-elim (admit options request) _ h λ a _ h1.
        >>=-elim (recorded options noted request a.input) _ h1 λ found read h2.
          let (basis, fresh, _) = answer-Written noted a found read h2 in (basis, fresh)

  refused :
      (store : Store J) (c d : CommitInput J)
      → key_of c ≡ key_of d
      → Basis store c
      → Basis store d
      → check_row c (row_at store (key_of c)) ≡ ok tt
      → check_row d (some c.next) ≡ err resource_conflict
  refused store c d same first (creates fresh one) passed = rw fresh refl
  refused store c d same (creates fresh one) (updates row old read version next) passed =
      ground (arith, ap (row_at store) same ∙ read)
  refused store c d same (updates row1 old1 read1 version1 next1)
        (updates row old read version next) passed =
      let rows = some-inj (sym read1 ∙ (ap (row_at store) same ∙ read)) in
      let versions = ap (λ (r : ResourceState J). r.version) rows in ground (arith, versions)

  commit_new-eq-ok :
      (store : Store J) (c : CommitInput J) {after : Store J}
      → commit_new store c ≡ ok after
      → (check_row c (row_at store (key_of c)) ≡ ok tt) × (row_at after (key_of c) ≡ some c.next)
  unfolding commit_new write
  commit_new-eq-ok store c h = >>=-elim (check_row c (row_at store (key_of c))) _ h λ u passed made.
      (
        passed,
        ap (λ s. row_at s (key_of c)) (sym (ok-inj made))
            ∙ get-set resource_key store.resources (key_of c) c.next,
      )

  pub commit-fresh :
      (same_input : J → J → Bool) (store : Store J) (c : CommitInput J)
      → known store c.idempotency ≡ none
      → commit same_input store c ≡ commit_new store c
  unfolding commit
  commit-fresh same_input store c fresh = ground (arith, fresh)

  -- A commit whose check of the row fails can only be a repetition, which writes nothing.
  commit-refused :
      (same_input : J → J → Bool) (store : Store J) (c : CommitInput J) {after : Store J}
      → check_row c (row_at store (key_of c)) ≡ err resource_conflict
      → commit same_input store c ≡ ok after
      → after ≡ store
  unfolding commit commit_new
  commit-refused same_input store c refusal h = ground (arith, refusal, h)

  -- Of two commands that read the row of one resource in one state of the store, whatever they ask and
  -- whoever asks, at most one writes: if the first one commits on that state, the second one's commit
  -- either is refused or leaves the store as the first one left it. Each has read the recorded answers
  -- in a state of its own, and between this and the row nobody has recorded an answer under the first
  -- one's idempotency key.
  pub no_lost_update :
      (o1 o2 : Options J) (n1 n2 store after final : Store J) (r1 r2 : CommandRequest J)
      (c1 c2 : CommitInput J) (a1 a2 : ApiSuccess J)
      → prepare o1 n1 store r1 ≡ ok (writes c1 a1)
      → prepare o2 n2 store r2 ≡ ok (writes c2 a2)
      → known store c1.idempotency ≡ known n1 c1.idempotency
      → key_of c1 ≡ key_of c2
      → commit o1.same_input store c1 ≡ ok after
      → commit o2.same_input after c2 ≡ ok final
      → final ≡ after
  no_lost_update o1 o2 n1 n2 store after final r1 r2 c1 c2 a1 a2 p1 p2 quiet same first second =
      let (b1, unknown) = prepare-Basis o1 store r1 n1 p1 in
      let fresh = quiet ∙ unknown in
      let (b2, _) = prepare-Basis o2 store r2 n2 p2 in
      let (passed, row) =
        commit_new-eq-ok store c1 (sym (commit-fresh o1.same_input store c1 fresh) ∙ first) in
      commit-refused o2.same_input after c2
        (ap (check_row c2) (ap (row_at after) (sym same) ∙ row)
          ∙ refused store c1 c2 same b1 b2 passed)
        second
