-- ===== src/IdChain.antt =====
-- idChain/nodes.go and idChain/IdChain.go with the Append of blockchain/chain.go: the chain of the
-- registered nodes, which chooses the main node. A public key is the text that EncodePublicKey gives
-- for it; a node is found by that key, as the source's pointers all come out of NodeMap.
-- `reencode` stands for DecodePublicKey followed by EncodePublicKey (PEM and X.509 of the library, which
-- panic on other text), and `modulus` for N.String() of a key.
pub mod Quorum
pub mod Chosen
pub mod Rounds
pub mod Select
mod Tests
use monosulfide.Prelude.{
  ℕ, zero, suc, ◌+◌, ◌-◌, ◌/◌, ◌%◌, ◌^◌, Bool, true, false, not, ◌&&◌, ◌||◌, List, [], ◌∷◌, map,
  Option, none, some, length, ltb, leb, ◌==◌, if◌then◌else◌, get_elem?, Outcome, ok, panic, ◌>>=◌,
  deref, bytes,
}
use monosulfide.Prelude.Maps.{lookup, insert}
use monosulfide.Content.{Bytes}
use monosulfide.Crypt.{bytes_to_uint}
use monosulfide.Tx.{Transaction, Config, register_tx, modulo}
use monosulfide.Pool.{Pool, remove_txs}

pub record Node : Type 0 where
  pub node_id : Bytes
  pub shard_id : ℕ
  pub ip_addr : Bytes
  pub activating : Bool
  pub sleeping : Bool
  pub silence : ℕ

abbrev pub NodeMap : Type 0
NodeMap = List (Bytes × Node)

unfoldable pub is_running : Node → Bool
is_running n = not n.sleeping && n.activating

unfoldable pub is_waiting : Node → Bool
is_waiting n = n.sleeping && not n.activating

unfoldable pub is_preparing : Node → Bool
is_preparing n = n.sleeping && n.activating

unfoldable pub is_legal : Node → Bool
is_legal n = n.sleeping || n.activating

pub state : Node → ℕ
state n = if is_running n then 0 else 1

-- a - b on uint64, for operands below 2 ^ 64.
unfoldable pub sub64 : ℕ → ℕ → ℕ
sub64 a b = (a + 2 ^ 64 - b) % 2 ^ 64

-- The loops that count the nodes with a property.
unfoldable pub count : (Bytes × Node → Bool) → NodeMap → ℕ
count p [] = 0
count p (kv ∷ m) = let rest = count p m in if p kv then suc rest else rest

unfoldable pub running_node_amount : NodeMap → ℕ
unfolding count is_running
running_node_amount m = count (λ kv. is_running kv.1) m

unfoldable pub legal_node_amount : NodeMap → ℕ
unfolding count is_legal
legal_node_amount m = count (λ kv. is_legal kv.1) m

-- n - ((n + 2) / 3 - 1) on uint64.
unfoldable pub threshold_of : ℕ → ℕ
threshold_of n = sub64 n (sub64 ((n + 2) % 2 ^ 64 / 3) 1)

unfoldable pub threshold : NodeMap → ℕ
unfolding threshold_of sub64
threshold m = threshold_of (running_node_amount m)

unfoldable pub global_threshold : NodeMap → ℕ
unfolding threshold_of sub64
global_threshold m = threshold_of (legal_node_amount m)

abbrev pub fresh_node : Bytes → Bytes → Node
fresh_node addr id = record {
  node_id = id;
  shard_id = 0;
  ip_addr = addr;
  activating = false;
  sleeping = true;
  silence = 0;
}

-- AppendNode, for a key in its encoded form.
unfoldable pub append_node : NodeMap → Bytes → Bytes → NodeMap
append_node m addr id = elim (lookup id m) [ none ↦ insert id (fresh_node addr id) m | some _ ↦ m ]

unfoldable pub activate_all : NodeMap → NodeMap
activate_all = map λ kv.
    (kv.0, if not kv.1.activating && kv.1.sleeping then record kv.1 { activating = true } else kv.1)

unfoldable pub activate_confirm : NodeMap → NodeMap
activate_confirm = map λ kv.
    (kv.0, if kv.1.activating && kv.1.sleeping then record kv.1 { sleeping = false } else kv.1)

-- bytes of two strings in the order of Go's `<`.
unfoldable pub string_less : Bytes → Bytes → Bool
string_less [] [] = false
string_less [] (y ∷ ys) = true
string_less (x ∷ xs) [] = false
string_less (x ∷ xs) (y ∷ ys) =
    let rest = string_less xs ys in if ltb x y then true else x == y && rest

-- The keys of the running nodes, in the order of the `range`.
unfoldable pub running_keys : NodeMap → List Bytes
running_keys [] = []
running_keys ((k, n) ∷ m) =
    let rest = running_keys m in if is_running n then n.node_id ∷ rest else rest

unfoldable pub get_sorted_key_slice : NodeMap → Option (List Bytes)
unfolding running_keys is_running
get_sorted_key_slice [] = none
get_sorted_key_slice (kv ∷ m) = some (running_keys (kv ∷ m))

module _ (modulus : Bytes → Bytes) where
  -- sort.Sort with the Less of PublicKeySlice, as an insertion sort.
  unfoldable pub insert_key : Bytes → List Bytes → List Bytes
  insert_key k [] = k ∷ []
  insert_key k (j ∷ keys) =
      let rest = insert_key k keys in
      if string_less (modulus j) (modulus k) then j ∷ rest else k ∷ j ∷ keys

  unfoldable pub sort_keys : List Bytes → List Bytes
  sort_keys [] = []
  sort_keys (k ∷ keys) = insert_key k (sort_keys keys)

  -- The order of the `range` over the map is the order of the list.
  unfoldable pub select_random_key : NodeMap → ℕ → Outcome Bytes
  unfolding modulo
  select_random_key m random_index = deref (get_sorted_key_slice m) >>= λ keys.
      modulo random_index (length keys) >>= λ index. deref (get_elem? (sort_keys keys) index)

pub record Block : Type 0 where
  pub hash : Bytes
  pub txs : List Transaction
  pub interface : Option Bytes

pub record Chain : Type 0 where
  pub top_block_hash : Bytes
  pub tx_pool : Pool
  pub blocks : List (Bytes × Block)

pub record IdChain : Type 0 where
  pub node_map : NodeMap
  pub round_id : ℕ
  pub view_id : ℕ
  pub rand_num : ℕ
  pub main_node : Option Bytes
  pub chain : Chain

module _ (conf : Config) (digest : Transaction → Bytes) where
  -- Append of blockchain/chain.go, without the write to the disk.
  unfoldable pub append_to_chain : Chain → Block → Outcome Chain
  append_to_chain c block = remove_txs conf digest c.tx_pool block.txs >>= λ pool. ok (record {
    top_block_hash = block.hash;
    tx_pool = pool;
    blocks = insert block.hash block c.blocks;
  })

-- The loop over the transactions of a block: each registration of a new key adds a node.
pub register_one : (Bytes → Outcome Bytes) → NodeMap → Transaction → Outcome NodeMap
register_one reencode m tx =
    if tx.tx_type == register_tx
    then elim (lookup tx.sender m) [
      | none ↦ reencode tx.sender >>= λ id. ok (append_node m tx.recipient id)
      | some _ ↦ ok m
    ]
    else ok m

pub register : (Bytes → Outcome Bytes) → NodeMap → List Transaction → Outcome NodeMap
register reencode m [] = ok m
register reencode m (tx ∷ txs) = register_one reencode m tx >>= λ m'. register reencode m' txs

-- The key, if it is in the map: NodeMap[key] as a pointer.
unfoldable pub present : NodeMap → Bytes → Option Bytes
present m key = elim (lookup key m) [ none ↦ none | some _ ↦ some key ]

unfoldable pub select_main : (Bytes → Bytes) → NodeMap → ℕ → Outcome (Option Bytes)
unfolding present
select_main modulus m rand = select_random_key modulus m rand >>= λ key. ok (present m key)

-- The random number that the block carries, or the one from before.
pub next_rand : ℕ → Option Bytes → Outcome ℕ
next_rand rand none = ok rand
next_rand rand (some rand_byte) = bytes_to_uint rand_byte

module _ (conf : Config) (digest : Transaction → Bytes) (reencode : Bytes → Outcome Bytes)
    (modulus : Bytes → Bytes) where
  -- The main node after a block, with the random number that chose it: a lone node is main.
  pub choose_main : NodeMap → ℕ → Block → Outcome (Option Bytes × ℕ)
  choose_main ((key, n) ∷ []) rand block = ok (some key, rand)
  choose_main m rand block = next_rand rand block.interface >>= λ rand'.
      select_main modulus m rand' >>= λ main. ok (main, rand')

  unfoldable pub append_block : IdChain → Block → Outcome IdChain
  unfolding choose_main register next_rand
  append_block idc block = append_to_chain conf digest idc.chain block >>= λ chain.
      register reencode idc.node_map block.txs >>= λ registered.
      let m = activate_confirm (activate_all registered) in
      choose_main m idc.rand_num block >>= λ (main, rand). ok (record {
        node_map = m;
        round_id = (idc.round_id + 1) % 2 ^ 64;
        view_id = 0;
        rand_num = rand;
        main_node = main;
        chain = chain;
      })
