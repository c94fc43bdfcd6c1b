-- ===== src/Core/Executor/Events.antt =====
-- What a command of packages/core/src/index.ts may emit, and what a failed one leaves.
use jawstack.Base.{
  ok-inj, ℕ, suc, ◌+◌, Bool, true, Option, List, [], ◌∷◌, Text, ◌==◌, ◌≡◌, refl, any, all, ◌&&◌,
  length, Result, ok, err, arith, ap, sym, ◌∙◌, >>=-elim, Option-cases, subst, inl, some, ◌++◌, get,
  inr, none,
}
use jawstack.Core.Commands.{
  CommandRequest, ApiSuccess, CommitInput, EventDraft, EventDeclaration, Event,
}
use jawstack.Core.Executor.{
  Options, Admitted, Prepared, writes, replayed, admit, prepare, is_declared, assert_decision,
  build_events, Origin, answer_or_decide, decide_new, finish_prepared, recorded, resource_id_for,
  commit, previous_for, context_of, execute_command, finish_commit, origin_of, resource_key,
}
use jawstack.Core.Executor.Conflicts.{commit-fresh}
use jawstack.Core.Executor.Kept.{commit-repeated}
use jawstack.Core.Store.{Store, commit_new, write, known, check_row, key_of}

module _ {J : Type 0} where
  -- Whether an event is of a type and version that the command declares.
  abbrev pub emitted : List EventDeclaration → Event J → Bool
  emitted emits e =
      any (λ d. d.event_type == e.event_type && d.schema_version == e.schema_version) emits

  build_events-declared :
      (emits : List EventDeclaration) (origin : Origin) (ids : ℕ → Text) (i : ℕ)
      (drafts : List (EventDraft J))
      → all (is_declared emits) drafts ≡ true
      → all (emitted emits) (build_events origin ids i drafts) ≡ true
  build_events-declared emits origin ids i [] h = refl
  build_events-declared emits origin ids i (draft ∷ drafts) h =
      ground (arith, h, build_events-declared emits origin ids (i + 1) drafts)

  length-build_events :
      (origin : Origin) (ids : ℕ → Text) (i : ℕ) (drafts : List (EventDraft J))
      → length (build_events origin ids i drafts) ≡ length drafts
  length-build_events origin ids i [] = refl
  length-build_events origin ids i (draft ∷ drafts) =
      ap suc (length-build_events origin ids (i + 1) drafts)

  append-nil : (xs : List (Event J)) → xs ++ [] ≡ xs
  append-nil [] = refl
  append-nil (x ∷ xs) = ap (λ ys. x ∷ ys) (append-nil xs)

  -- What a store has gained: events that the command declares, at its end.
  Gains : List EventDeclaration → Store J → Store J → Type 0
  Gains emits store after =
      (events : List (Event J)) × (after.outbox ≡ store.outbox ++ events)
      × (all (emitted emits) events ≡ true)

  Gains-refl : (emits : List EventDeclaration) (store : Store J) → Gains emits store store
  unfolding Gains
  Gains-refl emits store = ([], sym (append-nil store.outbox), refl)

  commit-Gains :
      (same_input : J → J → Bool) (emits : List EventDeclaration) (store : Store J)
      (c : CommitInput J) {after : Store J}
      → all (emitted emits) c.outbox ≡ true
      → commit same_input store c ≡ ok after
      → Gains emits store after
  unfolding commit_new write Gains
  commit-Gains same_input emits store c {after} declared h =
      elim (Option-cases (known store c.idempotency)) [
        | inl new ↦
            >>=-elim (check_row c (get resource_key store.resources (key_of c))) _
              (sym (commit-fresh same_input store c new) ∙ h)
              λ u _ made. (c.outbox, ap (λ (s : Store J). s.outbox) (sym (ok-inj made)), declared)
        | inr q ↦
            subst (Gains emits store) (sym (commit-repeated same_input store c q.0 q.1 h))
              (Gains-refl emits store)
      ]

  module _ (options : Options J) (store : Store J) (request : CommandRequest J) (a : Admitted J)
      (passed : admit options request ≡ ok a) where
    Declares : Prepared J → Type 0
    Declares (replayed answer) = Unit
    Declares (writes c answer) = all (emitted a.command.emits) c.outbox ≡ true

    decide_new-Declares :
        {r : Prepared J}
        → decide_new options store request a.command a.auth a.input ≡ ok r
        → Declares r
    unfolding decide_new Declares
    decide_new-Declares h = >>=-elim (resource_id_for options a.command request) _ h λ id _ h1.
        >>=-elim (previous_for options store a.command request id) _ h1 λ previous read h2.
          >>=-elim (a.command.decide (context_of options request a.auth previous id) a.input) _ h2
            λ d _ h3. >>=-elim (assert_decision d a.command) _ h3 λ u checked h4.
              subst Declares (ok-inj h4) (
                build_events-declared a.command.emits (origin_of options request a.auth id)
                  options.event_ids 0 d.events (ground (arith, checked)))

    answer-Declares :
        (found : Option (ApiSuccess J)) {r : Prepared J}
        → answer_or_decide options store request a found ≡ ok r
        → Declares r
    unfolding Declares
    answer-Declares (some x) h = subst Declares (ok-inj h) tt
    answer-Declares none h = decide_new-Declares h

    prepare-Declares : {r : Prepared J} → prepare options store store request ≡ ok r → Declares r
    unfolding prepare
    prepare-Declares h = >>=-elim (admit options request) _ h λ b admitted h1.
        >>=-elim (recorded options store request b.input) _ h1 λ found _ h2. answer-Declares found (
          ap (λ x. answer_or_decide options store request x found) (ok-inj (sym passed ∙ admitted))
          ∙ h2)

    finish_commit-Gains :
        (c : CommitInput J) (answer : ApiSuccess J)
        → all (emitted a.command.emits) c.outbox ≡ true
        → (r : Result (Store J)) → commit options.same_input store c ≡ r
        → Gains a.command.emits store (finish_commit options store request answer r).1
    finish_commit-Gains c answer declared (err e) h = Gains-refl a.command.emits store
    finish_commit-Gains c answer declared (ok after) h =
        commit-Gains options.same_input a.command.emits store c declared h

    finish-Gains :
        (r : Result (Prepared J))
        → ((p : Prepared J) → r ≡ ok p → Declares p)
        → Gains a.command.emits store (finish_prepared options store request r).1
    unfolding Declares
    finish-Gains (err e) declared = Gains-refl a.command.emits store
    finish-Gains (ok (replayed answer)) declared = Gains-refl a.command.emits store
    finish-Gains (ok (writes c answer)) declared =
        finish_commit-Gains c answer (declared (writes c answer) refl)
          (commit options.same_input store c) refl

    -- What a call of a command that it admits adds to the outbox are events that the command declares,
    -- at the end and none of the earlier ones lost.
    pub execute_command-outbox :
        (events : List (Event J)) × ((execute_command options store request).1.outbox
          ≡ store.outbox ++ events)
        × (all (emitted a.command.emits) events ≡ true)
    unfolding execute_command Gains
    execute_command-outbox =
        finish-Gains (prepare options store store request) (λ p h. prepare-Declares h)
