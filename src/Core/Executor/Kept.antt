-- ===== src/Core/Executor/Kept.antt =====
-- What packages/core/src/index.ts has recorded under an idempotency key, whatever is committed later.
use jawstack.Base.{
  ok-inj, Bool, Option, none, some, List, [], ◌∷◌, Text, ◌==◌, ◌≡◌, refl, ap, sym, ◌∙◌, Result, ok,
  err, get, get-set_other, text_key, >>=-elim, arith, inl, inr, Bool-cases, Option-cases, ==_iff,
}
use jawstack.Core.Commands.{CommitInput, IdempotencyCommit}
use jawstack.Core.Executor.Conflicts.{commit-fresh}
use jawstack.Core.Store.{
  Store, commit, commit_new, check_row, write, key_of, known, remember, resource_key,
}

module _ {J : Type 0} (same_input : J → J → Bool) where
  -- Any commits at all, whoever makes them; a refused one leaves the store.
  abbrev commit_or_keep : Store J → Result (Store J) → Store J
  commit_or_keep store (ok after) = after
  commit_or_keep store (err e) = store

  unfoldable pub commit_all : Store J → List (CommitInput J) → Store J
  commit_all store [] = store
  commit_all store (c ∷ rest) = commit_all (commit_or_keep store (commit same_input store c)) rest

  remember-keeps :
      (store : Store J) (r : Option (IdempotencyCommit J)) (key : Text) (e : IdempotencyCommit J)
      → known store r ≡ none
      → get text_key store.idempotency key ≡ some e
      → get text_key (remember r store.idempotency) key ≡ some e
  remember-keeps store none key e new held = held
  remember-keeps store (some r) key e new held = elim (Bool-cases (r.key == key)) [
    | inl h ↦ absurd (some-ne-none (ap (get text_key store.idempotency) ((==_iff r.key key).0 h)))
    | inr h ↦ get-set_other text_key store.idempotency r.key key r h ∙ held
  ]
    where
      none-ne-some : ◌≡◌ {A = Option (IdempotencyCommit J)} none (some e) → ⊥
      none-ne-some q = cc

      some-ne-none : get text_key store.idempotency r.key ≡ get text_key store.idempotency key → ⊥
      some-ne-none q = none-ne-some (sym new ∙ (q ∙ held))

  -- A repetition, accepted, leaves the store.
  pub commit-repeated :
      (store : Store J) (c : CommitInput J) (e : IdempotencyCommit J) {after : Store J}
      → known store c.idempotency ≡ some e
      → commit same_input store c ≡ ok after
      → after ≡ store
  unfolding commit
  commit-repeated store c e old h = ground (arith, old, h)

  commit-keeps :
      (store : Store J) (c : CommitInput J) (key : Text) (e : IdempotencyCommit J) {after : Store J}
      → get text_key store.idempotency key ≡ some e
      → commit same_input store c ≡ ok after
      → get text_key after.idempotency key ≡ some e
  unfolding commit_new write
  commit-keeps store c key e held h = elim (Option-cases (known store c.idempotency)) [
    | inl new ↦
        >>=-elim (check_row c (get resource_key store.resources (key_of c))) _
          (sym (commit-fresh same_input store c new) ∙ h)
          λ u _ made.
            ap (λ (s : Store J). get text_key s.idempotency key) (sym (ok-inj made))
            ∙ remember-keeps store c.idempotency key e new held
    | inr q ↦
        ap (λ (s : Store J). get text_key s.idempotency key) (commit-repeated store c q.0 q.1 h)
        ∙ held
  ]

  commit_or_keep-keeps :
      (store : Store J) (r : Result (Store J)) (key : Text) (e : IdempotencyCommit J)
      → get text_key store.idempotency key ≡ some e
      → ((after : Store J) → r ≡ ok after → get text_key after.idempotency key ≡ some e)
      → get text_key (commit_or_keep store r).idempotency key ≡ some e
  commit_or_keep-keeps store (ok after) key e held kept = kept after refl
  commit_or_keep-keeps store (err code) key e held kept = held

  pub commit_all-keeps :
      (store : Store J) (cs : List (CommitInput J)) (key : Text) (e : IdempotencyCommit J)
      → get text_key store.idempotency key ≡ some e
      → get text_key (commit_all store cs).idempotency key ≡ some e
  unfolding commit_all
  commit_all-keeps store [] key e held = held
  commit_all-keeps store (c ∷ rest) key e held =
      commit_all-keeps (commit_or_keep store (commit same_input store c)) rest key e (
        commit_or_keep-keeps store (commit same_input store c) key e held
          (λ after h. commit-keeps store c key e held h))
