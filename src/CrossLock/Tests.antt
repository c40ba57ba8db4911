-- ===== src/CrossLock/Tests.antt =====
-- An i-shard with two b-shards: the second one is refused, and cannot free the lock of the first.
use monosulfide.Prelude.{
  ℕ, ◌≡◌, refl, true, false, List, [], ◌∷◌, none, some, ok, ◌>>=◌, Ensures, bytes, bytes_eq, nat_eq,
}
use monosulfide.Prelude.Maps.{lookup, insert}
use monosulfide.Content.{Bytes}
use monosulfide.IdChain.{Node}
use monosulfide.Proposals.{lowest_priority}
use monosulfide.CrossLock.{
  CrossLockCom, LockMsg, Event, requested, responded, success_byte, fail_byte, sleep_min,
  block_inner, answer_b, link, handle_request, take_response, handle_response, handle, handle_all,
  request_begin, take_answer, record_ack, request_answered, respond_b,
}
use monosulfide.CrossLock.Lock.{free, lock_run}
use monosulfide.CrossLock.Refine.{Follows, handle_all-Follows}

abbrev node : ℕ → Bytes × Node
node k = (
  k ∷ [],
  record {
    node_id = k ∷ [];
    shard_id = k;
    ip_addr = k ∷ [];
    activating = true;
    sleeping = false;
    silence = 0;
  },
)

abbrev lock_com : ℕ → CrossLockCom
lock_com related = record {
  related_i_shard = related;
  local_id = 1;
  node_map = node 1 ∷ node 2 ∷ node 3 ∷ [];
  running_node = 1 ∷ [];
  acks = [];
  b_main_node = none;
  activating = false;
  success = false;
  sleep_t = sleep_min;
  inner_blocked = false;
  buffer = record { pros = []; priority = λ k. 0; prior_threshold = lowest_priority };
  top_block_hash = [];
  top_hash_to_be_confirmed = [];
  signals = 0;
  delayed = 0;
  sent = [];
}

abbrev from : ℕ → List Bytes → LockMsg
from k contents = record { remote_info = k ∷ []; contents = contents }

abbrev two_requests : List Event
two_requests =
    requested (from 2 []) ∷ requested (from 3 []) ∷ responded (from 3 (fail_byte ∷ [])) ∷ []

second_refused :
    (handle_all (lock_com 0) two_requests >>= λ after. ok after.b_main_node) ≡ ok (some (2 ∷ []))
unfolding handle_all handle handle_request handle_response link answer_b take_response block_inner
    lookup bytes_eq
second_refused = refl

-- A b-shard that one of its two i-shards refuses does not go on.
one_refusal :
    (handle_all
        (request_begin (lock_com 2))
        (requested (from 2 (success_byte ∷ [])) ∷ requested (from 3 (fail_byte ∷ [])) ∷ [])
      >>= λ after. ok (request_answered after).sleep_t)
    ≡ ok 128
unfolding handle_all handle handle_request take_answer record_ack request_begin request_answered
    respond_b lookup insert bytes_eq
one_refusal = refl

handle_all-Follows_example :
    Ensures
      (Follows (1 ∷ []) (lock_run (1 ∷ []) free two_requests))
      (handle_all (lock_com 0) two_requests)
handle_all-Follows_example =
    handle_all-Follows (1 ∷ []) free (lock_com 0) two_requests ((refl, refl), refl, refl, refl)
