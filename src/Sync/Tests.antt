-- ===== src/Sync/Tests.antt =====
-- Runs of the handlers on two shards, and the theorems at concrete inputs.
use monosulfide.Prelude.{
  ℕ, true, false, List, [], ◌∷◌, none, some, ◌≡◌, refl, Outcome, ok, panic, bytes, bytes_eq,
  if◌then◌else◌, Ends, ended, Ensures, Stops, arith, Bool-cases, inl, inr, sym, bytes_eq_iff, ◌>>=◌,
}
use monosulfide.Prelude.Maps.{lookup, insert, delete}
use mathlib.Core.List.{Memᴰ}
use mathlib.Core.List.Memᴰ.{head, tail}
use monosulfide.Content.{Bytes}
use monosulfide.IdChain.{Node}
use monosulfide.Sync.{
  Chains, Inbox, Message, ShardView, fide_ready, fide_rules, fide_takes, fide_read_ack, count_ack,
  settle,
}
use monosulfide.Sync.Accepted.{Result, check_block-Result}
use monosulfide.Crypt.{bytes_to_uint}
use monosulfide.Sync.Blocks.{
  receive, receive_block, check_entry, check_held, find_ready, check_loop, check_block,
  handle_request, acknowledge,
}
use monosulfide.Sync.Once.{AllClean, Acknowledged, handle_request-Acknowledged}
use monosulfide.Sync.Senders.{handle_request-sender}

-- A block is its hash and the hash of its parent; the world is the list of the appended blocks.
abbrev PlainBlock : Type 0
PlainBlock = Bytes × Bytes

abbrev World : Type 0
World = List PlainBlock

abbrev node : ℕ → Node
node n = record {
  node_id = n ∷ [];
  shard_id = 1;
  ip_addr = n ∷ [];
  activating = true;
  sleeping = false;
  silence = 0;
}

abbrev shard_one : ShardView
shard_one = record { sid = 1; main = some (1 ∷ []); threshold = 3 }

abbrev decode_block : Bytes → Outcome PlainBlock
decode_block (h ∷ p ∷ rest) = ok (h ∷ [], p ∷ [])
decode_block _ = panic

abbrev last_hash_of : World → Bytes
last_hash_of [] = 0 ∷ []
last_hash_of ((h, p) ∷ rest) = h

abbrev chains : Chains PlainBlock World
chains = record {
  node_map = λ w. (1 ∷ [], node 1) ∷ (2 ∷ [], node 2) ∷ (3 ∷ [], node 3) ∷ [];
  global_shards = λ w. record { sid = 0; main = none; threshold = 3 } ∷ shard_one ∷ [];
  top_block_hash = λ w sid. last_hash_of w;
  top_hash_to_be_confirmed = λ w sid. false;
  blocks = λ w h. if bytes_eq h (0 ∷ []) then some (0 ∷ [], []) else none;
  decode = decode_block;
  hash = λ b. b.0;
  parent_hash = λ b sid. ok b.1;
  append = λ w sid b. ok (b ∷ w);
}

abbrev keys : List (Bytes × ℕ) → List Bytes
keys [] = []
keys ((h, n) ∷ m) = h ∷ keys m

keys-lookup : (h : Bytes) (m : List (Bytes × ℕ)) (n : ℕ) → lookup h m ≡ some n → Memᴰ h (keys m)
unfolding lookup
keys-lookup h [] n found = ground (arith, found)
keys-lookup h ((k, v) ∷ m) n found = elim (Bool-cases (bytes_eq k h)) [
  | inl same ↦ head (sym ((bytes_eq_iff k h).0 same))
  | inr other ↦ tail (keys-lookup h m n (ground (arith, other, found)))
]

-- The message of the main node with its block, and an acknowledgement of a replica.
abbrev block_msg : Message
block_msg = record { remote_info = 1 ∷ []; contents = (7 ∷ 0 ∷ []) ∷ [] }

abbrev ack_msg : ℕ → Message
ack_msg n = record {
  remote_info = n ∷ [];
  contents = (7 ∷ []) ∷ (0 ∷ 0 ∷ 0 ∷ 0 ∷ 0 ∷ 0 ∷ 0 ∷ 1 ∷ []) ∷ [];
}

abbrev ready_chains : Inbox PlainBlock
ready_chains = record {
  req_cnt = (7 ∷ [], 3) ∷ (9 ∷ [], 1) ∷ [];
  blocks = (7 ∷ [], (7 ∷ [], 0 ∷ [])) ∷ (9 ∷ [], (9 ∷ [], 7 ∷ [])) ∷ [];
  finish = [];
}

fide_ready-Stops :
    (w : World) (inbox : Inbox PlainBlock) (rid : ℕ) (h : Bytes) (block : PlainBlock)
    → Stops (fide_ready chains w inbox rid h block)
unfolding fide_ready
fide_ready-Stops w inbox rid h block = ended _ refl

append-Stops : (w : World) (rid : ℕ) (block : PlainBlock) → Stops (chains.append w rid block)
append-Stops w rid block = ended _ refl

check_block_seven :
    check_block chains (fide_rules chains) keys [] 1 ready_chains
    ≡ ok (
      (7 ∷ [], 0 ∷ []) ∷ [],
      record {
        req_cnt = (9 ∷ [], 1) ∷ [];
        blocks = (9 ∷ [], (9 ∷ [], 7 ∷ [])) ∷ [];
        finish = (7 ∷ [], true) ∷ [];
      },
    )
unfolding check_block check_loop find_ready check_entry check_held settle lookup insert delete
    bytes_eq fide_ready
check_block_seven = refl

check_block-Result_example :
    Ends
      (Result chains (fide_rules chains) keys 1 [] ready_chains)
      (check_block chains (fide_rules chains) keys [] 1 ready_chains)
check_block-Result_example =
    check_block-Result chains (fide_rules chains) keys fide_ready-Stops keys-lookup append-Stops []
      1 ready_chains

-- The block of the main node and its own acknowledgement twice more by one replica: the block is
-- appended, though only two of the nodes of its shard have acknowledged it.
one_replica :
    (handle_request chains (fide_rules chains) keys [] [] block_msg >>= λ first.
    handle_request chains (fide_rules chains) keys first.1 first.2 (ack_msg 2) >>= λ second.
    handle_request chains (fide_rules chains) keys second.1 second.2 (ack_msg 2) >>= λ third.
    ok third.1)
    ≡ ok ((7 ∷ [], 0 ∷ []) ∷ [])
unfolding handle_request receive receive_block acknowledge count_ack check_block check_loop
    find_ready check_entry check_held settle lookup insert delete bytes_eq fide_ready fide_takes
    fide_read_ack bytes_to_uint
one_replica = refl

ready-AllClean : AllClean chains (fide_rules chains) keys ((1, ready_chains) ∷ [])
unfolding lookup
ready-AllClean sid h finished = ground (arith, finished)

known_two : lookup (2 ∷ []) (chains.node_map []) ≡ some (node 2)
unfolding lookup bytes_eq
known_two = refl

known_three : lookup (3 ∷ []) (chains.node_map []) ≡ some (node 3)
unfolding lookup bytes_eq
known_three = refl

handle_request-Acknowledged_example :
    Ensures
      (Acknowledged chains (fide_rules chains) keys [] ((1, ready_chains) ∷ []))
      (handle_request chains (fide_rules chains) keys [] ((1, ready_chains) ∷ []) (ack_msg 2))
handle_request-Acknowledged_example =
    handle_request-Acknowledged chains (fide_rules chains) keys fide_ready-Stops keys-lookup
      append-Stops [] ((1, ready_chains) ∷ []) (ack_msg 2) ready-AllClean

handle_request-sender_example :
    handle_request chains (fide_rules chains) keys [] [] (ack_msg 2)
    ≡ handle_request chains (fide_rules chains) keys [] [] (ack_msg 3)
unfolding bytes_eq
handle_request-sender_example =
    handle_request-sender chains (fide_rules chains) keys [] [] (ack_msg 2) (ack_msg 3) (node 2)
      (node 3) shard_one known_two known_three refl refl refl refl refl
