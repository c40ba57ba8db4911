-- ===== src/Assign/Tests.antt =====
-- Two nodes by their ports, on two shards.
use monosulfide.Prelude.{
  panic, ℕ, ok, [], ◌∷◌, none, some, ◌≡◌, false, refl, Returns, arith, bytes, bytes_eq,
}
use monosulfide.Prelude.Arrays.{get_or}
use monosulfide.Prelude.Maps.{lookup}
use monosulfide.Content.{Bytes}
use monosulfide.Tx.{modulo}
use monosulfide.IdChain.{Node, NodeMap}
use monosulfide.Assign.{
  Setting, port, after_colon, until_colon, atoi, parse_unsigned, parse_digits, tenth_mod,
  hash_to_range, place, shard_maps,
}
use monosulfide.Assign.Placed.{Distinct, Addressed, no_node, one_more, home, shard_maps-Placed}

abbrev two_shards : Setting
two_shards = record {
  shard_amount = 2;
  real_rand = false;
  enable_spy = false;
  spy_at_shard = 0;
  main_port = [];
  spy_is_main_node = false;
}

abbrev same : Bytes → Bytes
same k = k

-- The address n:cd.
abbrev at_port : ℕ → ℕ → ℕ → Node
at_port n c d = record {
  node_id = n ∷ [];
  shard_id = 0;
  ip_addr = n ∷ b':' ∷ c ∷ d ∷ [];
  activating = false;
  sleeping = false;
  silence = 0;
}

abbrev two_nodes : NodeMap
two_nodes = (1 ∷ [], at_port 1 b'1' b'0') ∷ (2 ∷ [], at_port 2 b'2' b'5') ∷ []

two_nodes-Distinct : Distinct two_nodes
unfolding lookup bytes_eq
two_nodes-Distinct = one_more refl (one_more refl no_node)

two_nodes-Addressed : Addressed two_nodes
unfolding port after_colon until_colon atoi parse_unsigned parse_digits
two_nodes-Addressed = ((b'1' ∷ b'0' ∷ [], 10, refl, refl), ((b'2' ∷ b'5' ∷ [], 25, refl, refl), tt))

-- Port 10 is in shard 1, and port 25 in shard 0.
two_places :
    (place same same same two_shards 0 (at_port 1 b'1' b'0') ≡ ok 1)
    × (place same same same two_shards 0 (at_port 2 b'2' b'5') ≡ ok 0)
unfolding place hash_to_range tenth_mod modulo port after_colon until_colon atoi parse_unsigned
    parse_digits bytes_eq
two_places = (refl, refl)

-- An address without a colon panics, and so does a negative port whose remainder is not 0.
no_places :
    (place same same same two_shards 0 (record (at_port 1 b'1' b'0') { ip_addr = b'1' ∷ b'0' ∷ [] })
      ≡ panic)
    × (place same same same two_shards 0
          (record (at_port 1 b'1' b'0') { ip_addr = b':' ∷ b'-' ∷ b'1' ∷ b'0' ∷ [] })
        ≡ panic)
unfolding place hash_to_range tenth_mod modulo port after_colon until_colon atoi parse_unsigned
    parse_digits bytes_eq
no_places = (refl, refl)

shard_maps-Placed_example :
    Returns
      (λ out.
        (key : Bytes) (t : ℕ)
        → lookup key (get_or out.1 t []) ≡ elim (lookup key two_nodes) [
          | none ↦ none
          | some node ↦ home same same same two_shards 0 node t
        ])
      (shard_maps same same same two_shards 0 two_nodes)
shard_maps-Placed_example =
    shard_maps-Placed same same same two_shards 0 (omega arith) (omega arith) two_nodes
      two_nodes-Distinct two_nodes-Addressed
