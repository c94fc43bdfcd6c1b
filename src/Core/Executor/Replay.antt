-- ===== src/Core/Executor/Replay.antt =====
-- Idempotency of packages/core/src/index.ts: what a repeated request gets.
use jawstack.Base.{true, some, List, Text, ◌≡◌, refl, ap, ok, get, text_key, arith}
use jawstack.Core.Commands.{CommandRequest, ApiSuccess, CommitInput, success}
use jawstack.Core.Executor.{
  Options, admit, recorded, execute_command, prepare, replayed, finish_prepared,
}
use jawstack.Core.Executor.Kept.{commit_all, commit_all-keeps}
use jawstack.Core.Executor.Recorded.{first_answer, Recorded, prepared-Outcome}
use jawstack.Core.Store.{Store}

-- The options of a later call: only the registry, the auth provider and the comparison of inputs are
-- those of the earlier one.
abbrev pub again : {J : Type 0} → Options J → Options J → Options J
again earlier later = record later {
  resources = earlier.resources;
  resolve = earlier.resolve;
  same_input = earlier.same_input;
}

-- A request sent again, under other identifiers.
abbrev pub resent : {J : Type 0} → CommandRequest J → Text → Text → CommandRequest J
resent request request_id correlation_id = record request {
  request_id = request_id;
  correlation_id = correlation_id;
}

module _ {J : Type 0} (o : Options J) (reflexive : (i : J) → o.same_input i i ≡ true)
    (request : CommandRequest J) (key : Text) (named : request.idempotency_key ≡ some key) where
  module _ (later : Options J) (store : Store J) (answer : ApiSuccess J)
      (request_id correlation_id : Text)
      (r : Recorded o reflexive request key named store answer) where
    admit-again : admit (again o later) (resent request request_id correlation_id) ≡ ok r.admitted
    unfolding admit
    admit-again = r.passed

    recorded-again :
        recorded (again o later) store (resent request request_id correlation_id) r.admitted.input
        ≡ ok (some answer)
    recorded-again = ground (arith, named, r.held, r.matching, r.told)

    prepare-again :
        prepare (again o later) store store (resent request request_id correlation_id)
        ≡ ok (replayed answer)
    unfolding prepare
    prepare-again = rw (admit-again, recorded-again) refl

    -- A store that has recorded an answer gives it to the request sent again.
    Recorded-replays :
        execute_command (again o later) store (resent request request_id correlation_id)
        ≡ (success answer, store)
    unfolding execute_command
    Recorded-replays =
        ap (finish_prepared (again o later) store (resent request request_id correlation_id))
          prepare-again

  -- A request with an idempotency key has read the recorded answers in one state of the store, the row
  -- in any state, and then, after whatever commits of others since the former, has committed, if it had
  -- anything to, and succeeded. Sending it again under whatever request and correlation identifiers, at
  -- whatever time and after whatever further commits of others, writes nothing and gives the answer
  -- that was recorded first: that of a call with this key that committed in between, if there was one,
  -- which need not be what this call answered, or else this call's own. The registry, the auth provider
  -- and the comparison of inputs are the same both times.
  pub execute_command-replay :
      (later : Options J) (noted rows : Store J) (between : List (CommitInput J))
      (answer : ApiSuccess J) (after : Store J) (commits : List (CommitInput J))
      (request_id correlation_id : Text)
      → finish_prepared o
          (commit_all o.same_input noted between)
          request
          (prepare o noted rows request)
        ≡ (success answer, after)
      → (execute_command
            (again o later)
            (commit_all o.same_input after commits)
            (resent request request_id correlation_id)
          ≡ (
            success (first_answer key (commit_all o.same_input noted between) answer),
            commit_all o.same_input after commits,
          ))
        × (get text_key (commit_all o.same_input noted between).idempotency key
              ≡ get text_key noted.idempotency key
            → first_answer key (commit_all o.same_input noted between) answer ≡ answer)
  execute_command-replay later noted rows between answer after commits request_id correlation_id
        done =
      let now = commit_all o.same_input noted between in
      let (r, own) =
        prepared-Outcome o reflexive request key named noted rows now
          (λ e held. commit_all-keeps o.same_input noted between key e held)
          (prepare o noted rows request) answer after refl done in
      (
        Recorded-replays later (commit_all o.same_input after commits) (first_answer key now answer)
            request_id correlation_id
            (record {
              admitted = r.admitted;
              passed = r.passed;
              entry = r.entry;
              held = commit_all-keeps o.same_input after commits key r.entry r.held;
              matching = r.matching;
              told = r.told;
            }),
        own,
      )
