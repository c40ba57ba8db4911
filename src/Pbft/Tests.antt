-- ===== src/Pbft/Tests.antt =====
-- One node alone in its domain runs a round: it takes its own proposal, prepare and commit.
use monosulfide.Prelude.{
  Ensures, Bool, ℕ, suc, ◌≡◌, refl, true, false, [], ◌∷◌, none, some, Outcome, ok, panic,
  out_of_fuel, bytes, bytes_eq, nat_eq,
}
use monosulfide.Prelude.Maps.{lookup, insert, delete}
use monosulfide.IdChain.{Node, is_running, is_waiting, is_preparing, present}
use monosulfide.Pbft.{
  Request, PrePrepare, Vote, Domain, Votes, read, request_at, same_node, send, enable,
  new_pbft_consensus,
}
use monosulfide.Pbft.Handlers.{
  Next, confirm, after_execution, executed_state, execute_round, count_commit, commit_ready,
  commit_loop, handle_commit_msgs, handle_commit, broadcast_commit, count_prepare, prepare_ready,
  prepare_loop, handle_prepare_msgs, handle_prepare, verify, join_epoch, leave_epoch,
  answer_proposal, accept_proposal, record_pre_prepare, check_proposal, handle_pre_prepare,
}
use monosulfide.Pbft.Epoch.{Joined, handle_pre_prepare-Joined}
use monosulfide.Pbft.Execution.{Progress}
use monosulfide.Pbft.Steps.{
  Reachable, start, extend, Step, pre_prepare, prepare, commit, InOrder, executed-InOrder,
  Step-executes,
}

abbrev lone_node : Node
lone_node = record {
  node_id = 7 ∷ [];
  shard_id = 0;
  ip_addr = [];
  activating = true;
  sleeping = false;
  silence = 0;
}

abbrev lone_domain : Domain ℕ
lone_domain = record {
  main = λ w. some (7 ∷ []);
  self = λ w. 7 ∷ [];
  running_node = λ w. lone_node;
  activate_self = λ b w. w;
  nodes = λ w. (7 ∷ [], lone_node) ∷ [];
  threshold = λ w. 1;
  global_threshold = λ w. 1;
  epoch_reset = 1 ∷ [];
  get_digest = λ req. req.request_type;
  prepare = λ req w. ok (true, w);
  verify = λ req w. ok (true, w);
  execute = λ req w. ok (suc w);
}

abbrev in_place : Votes → Votes
in_place m = m

abbrev own_request : Request
own_request = record { request_type = 2 ∷ []; vars = [] }

abbrev own_proposal : PrePrepare
own_proposal = record { request = own_request; digest = 2 ∷ []; seq_id = 0; remote_info = 7 ∷ [] }

abbrev own_vote : Vote
own_vote = record { digest = 2 ∷ []; seq_id = 0; remote_info = 7 ∷ [] }

abbrev value_of : Outcome (Next ℕ) → Next ℕ
value_of (ok out) = out
value_of panic = (new_pbft_consensus 0, none)
value_of out_of_fuel = (new_pbft_consensus 0, none)

abbrev proposed : Next ℕ
proposed = value_of (handle_pre_prepare lone_domain in_place (new_pbft_consensus 0) own_proposal)

abbrev prepared_state : Next ℕ
prepared_state = value_of (handle_prepare lone_domain in_place proposed.0 own_vote)

abbrev committed_state : Next ℕ
committed_state = value_of (handle_commit lone_domain in_place prepared_state.0 own_vote)

reached : Reachable lone_domain in_place (λ m kv there. there) 0 [] [] prepared_state
unfolding handle_pre_prepare record_pre_prepare check_proposal join_epoch leave_epoch verify
    accept_proposal answer_proposal handle_prepare handle_prepare_msgs prepare_loop count_prepare
    prepare_ready broadcast_commit handle_commit_msgs read request_at same_node lookup insert send
    is_running is_waiting is_preparing present bytes_eq new_pbft_consensus confirm
reached = extend (extend start (pre_prepare own_proposal refl)) (prepare own_vote refl)

committing : Step lone_domain in_place (λ m kv there. there) prepared_state committed_state
unfolding handle_pre_prepare record_pre_prepare check_proposal join_epoch leave_epoch verify
    accept_proposal answer_proposal handle_prepare handle_prepare_msgs prepare_loop count_prepare
    prepare_ready broadcast_commit handle_commit handle_commit_msgs commit_loop count_commit
    commit_ready execute_round executed_state after_execution read request_at same_node lookup
    insert delete send enable is_running is_waiting is_preparing present bytes_eq new_pbft_consensus
    confirm
committing = commit own_vote refl

-- The round executes the request under number 0.
round_executed : committed_state.0.executed ≡ (0, own_request) ∷ []
unfolding handle_pre_prepare record_pre_prepare check_proposal join_epoch leave_epoch verify
    accept_proposal answer_proposal handle_prepare handle_prepare_msgs prepare_loop count_prepare
    prepare_ready broadcast_commit handle_commit handle_commit_msgs commit_loop count_commit
    commit_ready execute_round executed_state after_execution read request_at same_node lookup
    insert delete send enable is_running is_waiting is_preparing present bytes_eq new_pbft_consensus
    confirm
round_executed = refl

executed-InOrder_example : InOrder committed_state.0.sequence committed_state.0.executed []
unfolding committing
executed-InOrder_example =
    executed-InOrder lone_domain in_place (λ m kv there. there) 0 (own_vote ∷ []) [] committed_state
      (extend reached committing)

Step-executes_example :
    Progress lone_domain
      (own_vote ∷ [])
      prepared_state.0.executed
      prepared_state.0.sequence
      committed_state.0
unfolding handle_prepare committing
Step-executes_example =
    Step-executes lone_domain in_place (λ m kv there. there) 0 [] [] prepared_state committed_state
      reached committing

-- A domain over the state of its one node, which waits at first; `true` is the activated one.
abbrev waiting_domain : Domain Bool
waiting_domain = record {
  main = λ w. some (7 ∷ []);
  self = λ w. 8 ∷ [];
  running_node = λ w. record lone_node { activating = w; sleeping = true };
  activate_self = λ b w. b;
  nodes = λ w. (7 ∷ [], lone_node) ∷ [];
  threshold = λ w. 1;
  global_threshold = λ w. 1;
  epoch_reset = 1 ∷ [];
  get_digest = λ req. 3 ∷ [];
  prepare = λ req w. ok (true, w);
  verify = λ req w. ok (true, w);
  execute = λ req w. ok w;
}

-- A proposal of an epoch reset with a wrong digest.
abbrev forged_reset : PrePrepare
forged_reset = record {
  request = record { request_type = 1 ∷ []; vars = [] };
  digest = 2 ∷ [];
  seq_id = 5;
  remote_info = 7 ∷ [];
}

waiting_domain_activates :
    (w : Bool)
    → is_waiting (waiting_domain.running_node (waiting_domain.activate_self true w)) ≡ false
unfolding is_waiting
waiting_domain_activates w = refl

handle_pre_prepare-Joined_example :
    Ensures
      (Joined waiting_domain in_place waiting_domain_activates
        (new_pbft_consensus false)
        forged_reset)
      (handle_pre_prepare waiting_domain in_place (new_pbft_consensus false) forged_reset)
unfolding is_waiting bytes_eq new_pbft_consensus
handle_pre_prepare-Joined_example =
    handle_pre_prepare-Joined waiting_domain in_place waiting_domain_activates
      (new_pbft_consensus false) forged_reset refl refl refl
