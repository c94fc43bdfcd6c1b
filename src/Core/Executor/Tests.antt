-- ===== src/Core/Executor/Tests.antt =====
-- A resource that counts, and each theorem on `executeCommand` applied to it.
use jawstack.Base.{
  text_key, ==-refl, set, get, ℕ, ◌+◌, true, false, Option, none, some, List, [], ◌∷◌, ◌++◌, ◌==◌,
  ◌≡◌, refl, ok, all,
}
use jawstack.Core.Commands.{
  Event, CommandDecision, CommandDefinition, CommandRequest, ApiSuccess, success, CommitInput,
}
use jawstack.Core.Executor.{
  finish_prepared, context_of, Options, Admitted, writes, admit, prepare, execute_command,
  decide_new, commit_input, api_success,
}
use jawstack.Core.Executor.Conflicts.{no_lost_update}
use jawstack.Core.Executor.Events.{execute_command-outbox, emitted}
use jawstack.Core.Executor.Kept.{commit_all}
use jawstack.Core.Executor.Recorded.{first_answer}
use jawstack.Core.Executor.Replay.{execute_command-replay, again, resent}
use jawstack.Core.Store.{commit_new, write, Store, commit}
use jawstack.Core.Types.{AuthMode, AuthContext, ResourceState, Context}

abbrev count_of : Option (ResourceState ℕ) → ℕ
count_of none = 0
count_of (some row) = row.state

abbrev add_decision : Context ℕ → ℕ → CommandDecision ℕ
add_decision context n = record {
  next_state = count_of context.previous + n;
  activity = [];
  events = (record { event_type = 7; schema_version = 1; payload = n }) ∷ [];
  projections = [];
  response = n;
}

abbrev add : CommandDefinition ℕ
add = record {
  name = 2;
  roles = 1 ∷ [];
  emits = (record { event_type = 7; schema_version = 1 }) ∷ [];
  create = false;
  input = λ n. some n;
  decide = λ context n. ok (add_decision context n);
}

abbrev caller : AuthContext
caller = record {
  subject = 5;
  display_name = none;
  roles = 1 ∷ [];
  tenant_id = none;
  mode = AuthMode.test;
}

abbrev options : Options ℕ
options = record {
  resources = (record { name = 1; commands = add ∷ [] }) ∷ [];
  resolve = λ c. ok caller;
  now = 1000;
  source = 8;
  drawn = λ i. i;
  activity_ids = λ i. i;
  event_ids = λ i. i;
  new_resource_id = 9;
  same_input = λ a b. a == b;
}

abbrev request : CommandRequest ℕ
request = record {
  request_id = 20;
  correlation_id = 21;
  resource_type = 1;
  resource_id = some 3;
  command_name = 2;
  input = 4;
  idempotency_key = some 30;
  request_context = 0;
}

abbrev three : ResourceState ℕ
three = record {
  resource_type = 1;
  resource_id = 3;
  version = 1;
  state = 10;
  created_at = 1;
  updated_at = 1;
  created_by = 5;
  updated_by = 5;
  tenant_id = none;
}

abbrev store : Store ℕ
store = record {
  resources = ((1, 3), three) ∷ [];
  activity = [];
  outbox = [];
  projections = [];
  idempotency = [];
}

abbrev admitted : Admitted ℕ
admitted = record { auth = caller; command = add; input = 4 }

request-admit : admit options request ≡ ok admitted
unfolding admit
request-admit = refl

abbrev input : CommitInput ℕ
input =
    commit_input options request add caller 4 3 (some three)
      (add_decision (context_of options request caller (some three) 3) 4)

abbrev answer : ApiSuccess ℕ
answer = api_success options request 4

request-prepare : prepare options store store request ≡ ok (writes input answer)
unfolding prepare admit decide_new get
request-prepare = refl

request-commit : commit options.same_input store input ≡ ok (write store input)
unfolding commit commit_new get
request-commit = refl

repeated-commit : commit options.same_input (write store input) input ≡ ok (write store input)
unfolding commit commit_new write get set
repeated-commit = refl

no_lost_update_example : write store input ≡ write store input
no_lost_update_example =
    no_lost_update options options store store store (write store input) (write store input) request
      request input input answer answer request-prepare request-prepare refl refl request-commit
      repeated-commit

request-execute_command :
    execute_command options store request ≡ (success answer, write store input)
unfolding execute_command prepare admit decide_new commit commit_new get
request-execute_command = refl

-- The same request under other identifiers, which has read no recorded answer before the first one's
-- commit, answers with its own identifiers; sent again, it gets the first one's answer.
abbrev other_request : CommandRequest ℕ
other_request = resent request 22 23

abbrev other_answer : ApiSuccess ℕ
other_answer = api_success options other_request 4

other-finish_prepared :
    finish_prepared options
      (commit_all options.same_input store (input ∷ []))
      other_request
      (prepare options store store other_request)
    ≡ (success other_answer, write store input)
unfolding commit_all prepare admit decide_new commit commit_new write get set
other-finish_prepared = refl

execute_command-replay_example :
    (execute_command
        (again options options)
        (commit_all options.same_input (write store input) [])
        (resent other_request 40 41)
      ≡ (
        success (first_answer 30 (commit_all options.same_input store (input ∷ [])) other_answer),
        commit_all options.same_input (write store input) [],
      ))
    × (get text_key (commit_all options.same_input store (input ∷ [])).idempotency 30
          ≡ get text_key store.idempotency 30
        → first_answer 30 (commit_all options.same_input store (input ∷ [])) other_answer
          ≡ other_answer)
execute_command-replay_example =
    execute_command-replay options ==-refl other_request 30 refl options store store (input ∷ [])
      other_answer (write store input) [] 40 41 other-finish_prepared

other-first_answer :
    first_answer 30 (commit_all options.same_input store (input ∷ [])) other_answer ≡ answer
unfolding commit_all commit commit_new write get set
other-first_answer = refl

execute_command-outbox_example :
    (events : List (Event ℕ)) × ((execute_command options store request).1.outbox ≡ [] ++ events)
    × (all (emitted add.emits) events ≡ true)
execute_command-outbox_example = execute_command-outbox options store request admitted request-admit
