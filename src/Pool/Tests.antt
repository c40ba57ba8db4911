-- ===== src/Pool/Tests.antt =====
-- A pool of one shard, with a registration in it.
use monosulfide.Prelude.{length, List, [], ◌∷◌, false, none, refl, ok, Ensures, Returns, ◌≤◌, ◌≡◌}
use monosulfide.Content.{Bytes}
use monosulfide.Tx.{Transaction, Config, register_tx, s_in_shard, r_in_shard}
use monosulfide.Pool.{Pool, append, remove_txs}
use monosulfide.Pool.Package.{pack}
use monosulfide.Pool.Round.{total, total-pack_le}
use monosulfide.Pool.Cross.{cross_choice, length-cross_choice_le}
use monosulfide.Pool.Update.{Added, Removed, append-Added, remove_txs-Removed}

abbrev plain_config : Config
plain_config = record {
  shard_amount = 1;
  pyr_enable = false;
  pyr_shard_amount = 0;
  shard_distribution = [];
  shard_route = [];
  default_addr = [];
  fide_enable = false;
  fide_shard_amount = 0;
  storage_optimize = false;
  monoxide_enable = false;
  monoxide_shard_amount = 0;
  max_block_size = 10;
  tx_test = false;
}

abbrev registration : Transaction
registration = record {
  sender = 1 ∷ [];
  recipient = 2 ∷ [];
  value = none;
  nonce = 0;
  tx_type = register_tx;
  interface = [];
  time = 0;
}

abbrev by_sender : Transaction → Bytes
by_sender tx = tx.sender

abbrev one_shard : Pool
one_shard = record {
  tx_lists = (((1 ∷ [], registration) ∷ []) ∷ []) ∷ [];
  local_index = 0;
  controls = [];
}

append-Added_example :
    Ensures
      (Added plain_config by_sender one_shard 0 0 registration)
      (append plain_config by_sender one_shard registration)
unfolding s_in_shard r_in_shard
append-Added_example = append-Added plain_config by_sender one_shard registration 0 0 refl refl refl

remove_txs-Removed_example :
    Ensures
      (Removed plain_config by_sender one_shard (registration ∷ []))
      (remove_txs plain_config by_sender one_shard (registration ∷ []))
remove_txs-Removed_example = remove_txs-Removed plain_config by_sender one_shard (registration ∷ [])

abbrev two_groups : List (List Transaction)
two_groups = (registration ∷ registration ∷ []) ∷ (registration ∷ []) ∷ []

total-pack_le_example : Returns (λ chosen. total chosen ≤ 2) (pack 2 two_groups)
total-pack_le_example = total-pack_le 2 two_groups

-- A block of two takes one transaction of each group.
pack_takes_turns : pack 2 two_groups ≡ ok ((registration ∷ []) ∷ (registration ∷ []) ∷ [])
unfolding pack
pack_takes_turns = refl

length-cross_choice_le_example : Returns (λ txs. length txs ≤ 2) (cross_choice 2 two_groups)
length-cross_choice_le_example = length-cross_choice_le 2 two_groups
