-- ===== src/IdChain/Rounds.antt =====
-- The nodes of the map after a block of the identity chain.
use monosulfide.Prelude.{
  bind_ok, ◌≡◌, refl, true, false, List, [], ◌∷◌, some, arith, if◌then◌else◌, Outcome, ok, bytes,
  bytes_eq_iff,
}
use monosulfide.Prelude.Maps.{lookup, lookup-insert}
use monosulfide.Content.{Bytes}
use monosulfide.Tx.{Transaction, Config}
use monosulfide.IdChain.{
  Node, NodeMap, is_running, is_legal, count, running_node_amount, legal_node_amount, activate_all,
  activate_confirm, append_node, fresh_node, register_one, register, IdChain, Block, choose_main,
  append_to_chain, append_block,
}

-- A node after an activation: the sleeping ones run, the others are as they were.
pub awake : Node → Node
awake n = if n.sleeping then record n { activating = true; sleeping = false } else n

-- After ActivateAll and ActivateConfirm as many nodes run as were legal before.
pub running_after_activation :
    (m : NodeMap) → running_node_amount (activate_confirm (activate_all m)) ≡ legal_node_amount m
unfolding running_node_amount legal_node_amount activate_all activate_confirm count is_running
    is_legal
running_after_activation [] = refl
running_after_activation (kv ∷ m) = ground (arith, running_after_activation m)

lookup-activated :
    (k : Bytes) (n : Node) (m : NodeMap)
    → lookup k m ≡ some n
    → lookup k (activate_confirm (activate_all m)) ≡ some (awake n)
unfolding lookup activate_all activate_confirm awake
lookup-activated k n [] h = ground arith
lookup-activated k n ((j, w) ∷ m) h = ground (arith, lookup-activated k n m)

lookup-append_node :
    (k addr id : Bytes) (n : Node) (m : NodeMap)
    → lookup k m ≡ some n
    → lookup k (append_node m addr id) ≡ some n
unfolding append_node
lookup-append_node k addr id n m h =
    ground (arith, h, lookup-insert id k (fresh_node addr id) m, bytes_eq_iff id k)

module _ (reencode : Bytes → Outcome Bytes) where
  lookup-register_one :
      (k : Bytes) (n : Node) (m m' : NodeMap) (tx : Transaction)
      → lookup k m ≡ some n
      → register_one reencode m tx ≡ ok m'
      → lookup k m' ≡ some n
  unfolding register_one
  lookup-register_one k n m m' tx h done =
      let kept : (id : Bytes) → lookup k (append_node m tx.recipient id) ≡ some n =
        λ id. lookup-append_node k tx.recipient id n m h in
      grind arith

  lookup-register :
      (k : Bytes) (n : Node) (m m' : NodeMap) (txs : List Transaction)
      → lookup k m ≡ some n
      → register reencode m txs ≡ ok m'
      → lookup k m' ≡ some n
  unfolding register
  lookup-register k n m m' [] h done = ground (arith, h, done)
  lookup-register k n m m' (tx ∷ txs) h done =
      let (between, one, rest) = bind_ok (register_one reencode m tx) _ m' done in
      lookup-register k n between m' txs (lookup-register_one k n m between tx h one) rest

module _ (conf : Config) (digest : Transaction → Bytes) (reencode : Bytes → Outcome Bytes)
    (modulus : Bytes → Bytes) where
  -- A block whose append returns keeps every node of the map under its key: the node is as it was,
  -- except that a sleeping node now runs.
  pub lookup-append_block :
      (idc idc' : IdChain) (block : Block) (k : Bytes) (n : Node)
      → append_block conf digest reencode modulus idc block ≡ ok idc'
      → lookup k idc.node_map ≡ some n
      → lookup k idc'.node_map ≡ some (awake n)
  unfolding append_block
  lookup-append_block idc idc' block k n done h =
      let (chain, _, after_chain) =
        bind_ok (append_to_chain conf digest idc.chain block) _ idc' done in
      let (m, registered, after_register) =
        bind_ok (register reencode idc.node_map block.txs) _ idc' after_chain in
      let (main, _, last) =
        bind_ok
          (choose_main conf digest reencode modulus (activate_confirm (activate_all m)) idc.rand_num
            block)
          _ idc' after_register in
      ground (
        arith,
        last,
        lookup-activated k n m (lookup-register reencode k n idc.node_map m block.txs h registered),
      )
