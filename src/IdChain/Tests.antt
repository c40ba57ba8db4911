-- ===== src/IdChain/Tests.antt =====
-- A map of four running nodes, and one that waits.
use mathlib.Core.List.{Mem}
use mathlib.Core.List.Perm
use monosulfide.Prelude.{
  ℕ, ◌≡◌, ◌≤◌, refl, Bool, true, false, not, ◌&&◌, [], ◌∷◌, none, some, ok, arith, ltb, bytes,
  bytes_eq,
}
use monosulfide.Prelude.Maps.{lookup, insert}
use monosulfide.Content.{Bytes}
use monosulfide.Tx.{Config, modulo}
use monosulfide.Pool.{Pool, remove_txs}
use monosulfide.IdChain.{
  Node, NodeMap, is_running, count, running_node_amount, sub64, threshold_of, threshold,
  activate_all, activate_confirm, string_less, running_keys, get_sorted_key_slice, insert_key,
  sort_keys, select_random_key, Block, IdChain, append_to_chain, register, present, select_main,
  next_rand, choose_main, append_block,
}
use monosulfide.IdChain.Quorum.{running_and, quorums_meet, threshold_reachable}
use monosulfide.IdChain.Rounds.{awake, lookup-append_block}
use monosulfide.IdChain.Select.{select_random_key-perm}

abbrev node_at : ℕ → Bool → Bytes × Node
node_at k active = (
  k ∷ [],
  record {
    node_id = k ∷ [];
    shard_id = 0;
    ip_addr = [];
    activating = active;
    sleeping = not active;
    silence = 0;
  },
)

abbrev five_nodes : NodeMap
five_nodes =
    node_at 1 true ∷ node_at 2 true ∷ node_at 3 true ∷ node_at 4 true ∷ node_at 5 false ∷ []

-- Properties of a node, by the first byte of its key.
abbrev key_below : ℕ → Bytes × Node → Bool
key_below n ([], node) = false
key_below n (k ∷ ks, node) = ltb k n

abbrev key_above : ℕ → Bytes × Node → Bool
key_above n ([], node) = false
key_above n (k ∷ ks, node) = ltb n k

quorums_meet_example :
    (kv : Bytes × Node) × Mem kv five_nodes
    × (running_and (λ n. key_below 4 n && key_above 1 n && not (key_below 2 n)) kv ≡ true)
unfolding threshold threshold_of sub64 running_node_amount count is_running running_and
quorums_meet_example =
    quorums_meet five_nodes (key_below 4) (key_above 1) (key_below 2) (omega arith) (omega arith)
      (omega arith) (omega arith) (omega arith)

threshold_reachable_example :
    threshold five_nodes ≤ count (running_and λ kv. not (key_below 2 kv)) five_nodes
unfolding running_node_amount count is_running running_and
threshold_reachable_example =
    threshold_reachable five_nodes (key_below 2) (omega arith) (omega arith) (omega arith)

abbrev swapped_nodes : NodeMap
swapped_nodes =
    node_at 2 true ∷ node_at 1 true ∷ node_at 3 true ∷ node_at 4 true ∷ node_at 5 false ∷ []

select_random_key-perm_example :
    select_random_key (λ key. key) five_nodes 6 ≡ select_random_key (λ key. key) swapped_nodes 6
select_random_key-perm_example =
    select_random_key-perm (λ key. key) (λ a b e. e) five_nodes swapped_nodes 6 (Perm.swap _ _ _)

abbrev empty_config : Config
empty_config = record {
  shard_amount = 0;
  pyr_enable = false;
  pyr_shard_amount = 0;
  shard_distribution = [];
  shard_route = [];
  default_addr = [];
  fide_enable = false;
  fide_shard_amount = 0;
  storage_optimize = false;
  monoxide_enable = false;
  monoxide_shard_amount = 0;
  max_block_size = 0;
  tx_test = false;
}

abbrev no_pool : Pool
no_pool = record { tx_lists = []; local_index = 0; controls = [] }

abbrev before_block : IdChain
before_block = record {
  node_map = five_nodes;
  round_id = 0;
  view_id = 1;
  rand_num = 3;
  main_node = none;
  chain = record { top_block_hash = []; tx_pool = no_pool; blocks = [] };
}

abbrev empty_block : Block
empty_block = record { hash = 9 ∷ []; txs = []; interface = none }

abbrev after_block : IdChain
after_block = record {
  node_map =
      node_at 1 true ∷ node_at 2 true ∷ node_at 3 true ∷ node_at 4 true ∷ node_at 5 true ∷ [];
  round_id = 1;
  view_id = 0;
  rand_num = 3;
  main_node = some (4 ∷ []);
  chain = record {
    top_block_hash = 9 ∷ [];
    tx_pool = no_pool;
    blocks = (9 ∷ [], empty_block) ∷ [];
  };
}

block_appended :
    append_block empty_config (λ tx. []) (λ id. ok id) (λ key. key) before_block empty_block
    ≡ ok after_block
unfolding append_block append_to_chain remove_txs register activate_all activate_confirm choose_main
    next_rand select_main select_random_key get_sorted_key_slice running_keys is_running sort_keys
    insert_key string_less modulo present lookup insert bytes_eq
block_appended = refl

lookup-append_block_example :
    lookup (5 ∷ []) after_block.node_map ≡ some (awake (node_at 5 false).1)
unfolding lookup bytes_eq
lookup-append_block_example =
    lookup-append_block empty_config (λ tx. []) (λ id. ok id) (λ key. key) before_block after_block
      empty_block (5 ∷ []) (node_at 5 false).1 block_appended refl
