-- ===== src/Core/Executor/Recorded.antt =====
-- Idempotency of packages/core/src/index.ts: what a successful request leaves recorded.
use jawstack.Base.{
  ok-inj, true, Option, none, some, Text, ◌≡◌, refl, ap, sym, ◌∙◌, Result, ok, err, get, get-set,
  text_key, >>=-elim, arith, inl, inr, Option-cases, RuntimeErrorCode, subst,
}
use jawstack.Core.Commands.{
  CommandRequest, ApiSuccess, CommitInput, IdempotencyCommit, Fingerprint, ExecutionResult, success,
  failure,
}
use jawstack.Core.Executor.{
  Options, Admitted, admit, recorded, fingerprint_of, idempotency_of, answer_or_decide,
  finish_commit, prepare, replayed, Prepared, finish_prepared, writes,
}
use jawstack.Core.Executor.Conflicts.{commit-fresh, decide_new-writes, answer-Written}
use jawstack.Core.Executor.Kept.{commit-repeated}
use jawstack.Core.Store.{
  Store, commit, commit_new, check_row, write, key_of, known, remember, resource_key,
  same_fingerprint,
}

-- The answer that is recorded first under a key: one that is there already, or else the one given.
abbrev pub first_answer : {J : Type 0} → Text → Store J → ApiSuccess J → ApiSuccess J
first_answer key now answer = elim (get text_key now.idempotency key) [
  | none ↦ answer
  | some e ↦ e.response
]

module _ {J : Type 0} (o : Options J) (reflexive : (i : J) → o.same_input i i ≡ true)
    (request : CommandRequest J) (key : Text) (named : request.idempotency_key ≡ some key) where
  same_fingerprint_refl : (f : Fingerprint J) → same_fingerprint o.same_input f f ≡ true
  same_fingerprint_refl f = ground (arith, reflexive f.input)

  -- What a store that has recorded an answer holds.
  pub record Recorded (store : Store J) (answer : ApiSuccess J) : Type 0 where
    pub admitted : Admitted J
    pub passed : admit o request ≡ ok admitted
    pub entry : IdempotencyCommit J
    pub held : get text_key store.idempotency key ≡ some entry
    pub matching :
        same_fingerprint o.same_input entry.fingerprint (fingerprint_of o request admitted.input)
        ≡ true
    pub told : entry.response ≡ answer

  pair-inj :
      {x : ApiSuccess J} {y : ApiSuccess J} {a b : Store J}
      → ◌≡◌ {A = ExecutionResult J × Store J} (success x, a) (success y, b)
      → (x ≡ y) × (a ≡ b)
  pair-inj h = (
    success-inj (ap (λ (p : ExecutionResult J × Store J). p.0) h),
    ap (λ (p : ExecutionResult J × Store J). p.1) h,
  )
    where
      success-inj : {x y : ApiSuccess J} → success x ≡ success y → x ≡ y
      success-inj q = cc

  failure-ne :
      {code : RuntimeErrorCode} {m n : Text} {y : ApiSuccess J} {a b : Store J}
      → ◌≡◌ {A = ExecutionResult J × Store J} (failure code m n, a) (success y, b)
      → ⊥
  failure-ne {code} {m} {n} {y} h = clash (ap (λ (p : ExecutionResult J × Store J). p.0) h)
    where
      clash : ◌≡◌ {A = ExecutionResult J} (failure code m n) (success y) → ⊥
      clash q = cc

  replayed-Recorded :
      (store : Store J) (a : Admitted J) (answer : ApiSuccess J)
      → admit o request ≡ ok a
      → recorded o store request a.input ≡ ok (some answer)
      → Recorded store answer
  replayed-Recorded store a answer passed h =
      elim (Option-cases (get text_key store.idempotency key)) [
        | inl new ↦ absurd (ground (arith, named, h, new))
        | inr q ↦ record {
          admitted = a;
          passed = passed;
          entry = q.0;
          held = q.1;
          matching = ground (arith, named, h, q.1);
          told = ground (arith, named, h, q.1);
        }
      ]

  written-Recorded :
      (store : Store J) (a : Admitted J) (c : CommitInput J) (answer : ApiSuccess J)
      {after : Store J}
      → admit o request ≡ ok a
      → known store c.idempotency ≡ none
      → c.idempotency ≡ idempotency_of o request a.input answer
      → commit o.same_input store c ≡ ok after
      → Recorded after answer
  unfolding commit_new write
  written-Recorded store a c answer passed new same h =
      let entry : IdempotencyCommit J = record {
        key = key;
        fingerprint = fingerprint_of o request a.input;
        response = answer;
      } in
      let noted : c.idempotency ≡ some entry = same ∙ ground (arith, named) in
      >>=-elim (check_row c (get resource_key store.resources (key_of c))) _
        (sym (commit-fresh o.same_input store c new) ∙ h)
        λ u _ made. record {
          admitted = a;
          passed = passed;
          entry = entry;
          held =
              ap (λ (s : Store J). get text_key s.idempotency key) (sym (ok-inj made))
              ∙ (ap (λ r. get text_key (remember r store.idempotency) key) noted
                  ∙ get-set text_key store.idempotency key entry);
          matching = same_fingerprint_refl entry.fingerprint;
          told = refl;
        }

  replayed-inj : {a b : ApiSuccess J} → replayed a ≡ replayed b → a ≡ b
  replayed-inj h = cc

  answered-Recorded :
      (noted store : Store J) (a : Admitted J) (found : Option (ApiSuccess J))
      (answer : ApiSuccess J)
      → admit o request ≡ ok a
      → recorded o noted request a.input ≡ ok found
      → answer_or_decide o store request a found ≡ ok (replayed answer)
      → Recorded noted answer
  answered-Recorded noted store a (some x) answer passed read h =
      replayed-Recorded noted a answer passed
        (read ∙ ap (λ y. ok (some y)) (replayed-inj (ok-inj h)))
  answered-Recorded noted store a none answer passed read h =
      absurd (decide_new-writes o store request a answer h)

  -- What a call that has succeeded leaves: the first answer is recorded, and it is the call's own
  -- unless another call has recorded one in between.
  abbrev pub Outcome : Store J → Store J → ApiSuccess J → Store J → Type 0
  Outcome noted now answer after =
      Recorded after (first_answer key now answer)
      × (get text_key now.idempotency key ≡ get text_key noted.idempotency key
          → first_answer key now answer ≡ answer)

  first_answer-some :
      (now : Store J) (answer : ApiSuccess J) (e : IdempotencyCommit J)
      → get text_key now.idempotency key ≡ some e
      → first_answer key now answer ≡ e.response
  first_answer-some now answer e held = rw (held, first_answer) refl

  first_answer-none :
      (now : Store J) (answer : ApiSuccess J)
      → get text_key now.idempotency key ≡ none
      → first_answer key now answer ≡ answer
  first_answer-none now answer new = rw (new, first_answer) refl

  kept-Outcome :
      (noted now : Store J) (answer : ApiSuccess J)
      → ((e : IdempotencyCommit J)
          → get text_key noted.idempotency key ≡ some e
          → get text_key now.idempotency key ≡ some e)
      → Recorded noted answer
      → Outcome noted now answer now
  kept-Outcome noted now answer kept r =
      let held = kept r.entry r.held in
      let same = first_answer-some now answer r.entry held in
      (
        record {
          admitted = r.admitted;
          passed = r.passed;
          entry = r.entry;
          held = held;
          matching = r.matching;
          told = sym same;
        },
        λ _. same ∙ r.told,
      )

  -- A commit that finds an answer recorded, if it succeeds, was for the same request.
  repeated-Recorded :
      (now : Store J) (a : Admitted J) (c : CommitInput J) (answer : ApiSuccess J)
      (e : IdempotencyCommit J) {after : Store J}
      → admit o request ≡ ok a
      → c.idempotency ≡ idempotency_of o request a.input answer
      → get text_key now.idempotency key ≡ some e
      → commit o.same_input now c ≡ ok after
      → Recorded after e.response
  unfolding commit
  repeated-Recorded now a c answer e {after} passed same held h =
      let noted : c.idempotency
          ≡ some (record {
            key = key;
            fingerprint = fingerprint_of o request a.input;
            response = answer;
          }) =
        same ∙ ground (arith, named) in
      let there : known now c.idempotency ≡ some e = ap (known now) noted ∙ held in
      let matching : same_fingerprint o.same_input e.fingerprint (fingerprint_of o request a.input)
          ≡ true =
        ground (arith, there, noted, h) in
      record {
        admitted = a;
        passed = passed;
        entry = e;
        held =
            ap (λ (s : Store J). get text_key s.idempotency key)
              (commit-repeated o.same_input now c e there h)
            ∙ held;
        matching = matching;
        told = refl;
      }

  committed-Outcome :
      (noted now : Store J) (a : Admitted J) (c : CommitInput J) (answer : ApiSuccess J)
      {after : Store J}
      → admit o request ≡ ok a
      → known noted c.idempotency ≡ none
      → c.idempotency ≡ idempotency_of o request a.input answer
      → commit o.same_input now c ≡ ok after
      → Outcome noted now answer after
  committed-Outcome noted now a c answer {after} passed new same h =
      let entry : c.idempotency
          ≡ some (record {
            key = key;
            fingerprint = fingerprint_of o request a.input;
            response = answer;
          }) =
        same ∙ ground (arith, named) in
      elim (Option-cases (get text_key now.idempotency key)) [
        | inl free ↦
            let own = first_answer-none now answer free in
            (
              subst (Recorded after) (sym own)
                  (written-Recorded now a c answer passed (ap (known now) entry ∙ free) same h),
              λ _. own,
            )
        | inr (e, held) ↦ (
          subst (Recorded after) (sym (first_answer-some now answer e held))
              (repeated-Recorded now a c answer e passed same held h),
          λ still.
              absurd
                (none-ne-some e (sym (sym (ap (known noted) entry) ∙ new) ∙ (sym still ∙ held))),
        )
      ]
    where
      none-ne-some :
          (e : IdempotencyCommit J) → ◌≡◌ {A = Option (IdempotencyCommit J)} none (some e) → ⊥
      none-ne-some e q = cc

  finished-Outcome :
      (noted now : Store J) (a : ApiSuccess J) (r : Result (Store J)) (answer : ApiSuccess J)
      (after : Store J)
      → ((after : Store J) → r ≡ ok after → Outcome noted now a after)
      → finish_commit o now request a r ≡ (success answer, after)
      → Outcome noted now answer after
  finished-Outcome noted now a (err e) answer after kept done = absurd (failure-ne done)
  finished-Outcome noted now a (ok s) answer after kept done =
      let (same, final) = pair-inj done in
      subst (λ x. Outcome noted now x after) same
        (subst (λ x. Outcome noted now a x) final (kept s refl))

  pub prepared-Outcome :
      (noted rows now : Store J)
      → ((e : IdempotencyCommit J)
          → get text_key noted.idempotency key ≡ some e
          → get text_key now.idempotency key ≡ some e)
      → (r : Result (Prepared J)) (answer : ApiSuccess J) (after : Store J)
      → prepare o noted rows request ≡ r
      → finish_prepared o now request r ≡ (success answer, after)
      → Outcome noted now answer after
  unfolding prepare
  prepared-Outcome noted rows now kept (err e) answer after h done = absurd (failure-ne done)
  prepared-Outcome noted rows now kept (ok (replayed a)) answer after h done =
      let (same, final) = pair-inj done in
      subst (λ x. Outcome noted now answer x) final
        (>>=-elim (admit o request) _ h λ admitted passed h1.
          >>=-elim (recorded o noted request admitted.input) _ h1 λ found read h2.
            kept-Outcome noted now answer kept (
              answered-Recorded noted rows admitted found answer passed read
                (h2 ∙ ap (λ x. ok (replayed x)) same)))
  prepared-Outcome noted rows now kept (ok (writes c a)) answer after h done =
      >>=-elim (admit o request) _ h λ admitted passed h1.
        >>=-elim (recorded o noted request admitted.input) _ h1 λ found read h2.
          let (_, new, same) = answer-Written o rows request noted admitted found read h2 in
          finished-Outcome noted now a (commit o.same_input now c) answer after
            (λ s made. committed-Outcome noted now admitted c a passed new same made) done
