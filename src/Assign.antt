-- ===== src/Assign.antt =====
-- RDomain of Opts/Op_EpochReset.go, without the manager of transactions and the log that it starts,
-- with HashToRange of crypt/toolFuncs.go and Port of idChain/nodes.go: at a new epoch each node of the
-- identity chain goes to a shard. `sum256` stands for sha256.Sum256; of a key, `modulus` gives the bytes
-- of N and `exponent` the four bytes of E.
mod Placed
mod Mains
mod Tests
use monosulfide.Prelude.{
  ℕ, zero, ◌+◌, ◌-◌, ◌*◌, ◌/◌, ◌^◌, suc, leb, ◌==◌, Bool, true, false, ◌&&◌, List, [], ◌∷◌, ◌++◌,
  Option, none, some, get_elem?, set, replicate, Outcome, ok, panic, ◌>>=◌, deref, if◌then◌else◌,
  bytes, bytes_eq,
}
use monosulfide.Prelude.Maps.{lookup, insert}
use monosulfide.Prelude.Int.{ℤ, pos, negsuc}
use monosulfide.Content.{Bytes}
use monosulfide.Crypt.{uint_to_bytes}
use monosulfide.Tx.{modulo}
use monosulfide.IdChain.{Node, NodeMap, select_main}

-- The settings that RDomain reads.
pub record Setting : Type 0 where
  pub shard_amount : ℕ
  pub real_rand : Bool
  pub enable_spy : Bool
  pub spy_at_shard : ℕ
  pub main_port : Bytes
  pub spy_is_main_node : Bool

-- An entry of globalShards: NodeMap and mainNode, as its key.
pub record ShardEntry : Type 0 where
  pub node_map : NodeMap
  pub main_node : Option Bytes

-- big.Int.SetBytes: the big-endian value.
pub set_bytes : ℕ → Bytes → ℕ
set_bytes acc [] = acc
set_bytes acc (b ∷ s) = set_bytes (acc * 256 + b) s

-- The first field of strings.Split(s, ":").
unfoldable pub until_colon : Bytes → Bytes
until_colon [] = []
until_colon (c ∷ s) = let rest = until_colon s in if c == b':' then [] else c ∷ rest

-- The second field; without a colon the index is out of range.
unfoldable pub after_colon : Bytes → Outcome Bytes
after_colon [] = panic
after_colon (c ∷ s) = let rest = after_colon s in if c == b':' then ok (until_colon s) else rest

-- Port
unfoldable pub port : Node → Outcome Bytes
port node = after_colon node.ip_addr

-- The loop of strconv.ParseUint to the base 10, which ends at the first number of more than 64 bits;
-- `none` is an error of syntax.
unfoldable pub parse_digits : ℕ → Bytes → Option ℕ
parse_digits n [] = some n
parse_digits n (c ∷ s) =
    let next = n * 10 + (c - b'0') in
    let rest = parse_digits next s in
    if leb b'0' c && leb c b'9' then (if leb (2 ^ 64) next then some (2 ^ 64) else rest) else none

-- -n
abbrev pub minus : ℕ → ℤ
minus zero = pos 0
minus (suc n) = negsuc n

-- The digits behind the sign, of which there is one at least.
unfoldable pub parse_unsigned : Bytes → Option ℕ
parse_unsigned [] = none
parse_unsigned (c ∷ s) = parse_digits 0 (c ∷ s)

abbrev pub at_most : ℕ → ℕ → ℕ
at_most bound n = if leb n bound then n else bound

-- strconv.Atoi on an int of 64 bits, without its error: 0 where the text is no number, and the nearest
-- int where the number is none.
unfoldable pub atoi : Bytes → ℤ
atoi [] = pos 0
atoi (c ∷ s) =
    if c == b'-'
    then elim (parse_unsigned s) [ none ↦ pos 0 | some n ↦ minus (at_most (2 ^ 63) n) ]
    else elim (parse_unsigned (if c == b'+' then s else c ∷ s)) [
      | none ↦ pos 0
      | some n ↦ pos (at_most (2 ^ 63 - 1) n)
    ]

-- (x / 10) % n of Go's int, which takes the sign of x.
unfoldable pub tenth_mod : ℤ → ℕ → Outcome ℤ
tenth_mod (pos x) n = modulo (x / 10) n >>= λ r. ok (pos r)
tenth_mod (negsuc x) n = modulo ((x + 1) / 10) n >>= λ r. ok (minus r)

-- An index of a slice.
abbrev pub index : ℤ → Outcome ℕ
index (pos i) = ok i
index (negsuc i) = panic

module _ (sum256 modulus exponent : Bytes → Bytes) (conf : Setting) (rand : ℕ) where
  -- HashToRange of the number, the key of the node and its port.
  unfoldable pub hash_to_range : Node → Bytes → ℕ → Outcome ℤ
  hash_to_range node p n =
      if conf.real_rand
      then (modulo
            (set_bytes 0
              (sum256 (uint_to_bytes rand ++ modulus node.node_id ++ exponent node.node_id)))
            n
          >>= λ r. ok (pos r))
      else tenth_mod (atoi p) n

  -- The shard of a node, as the index of its map: a negative one panics.
  unfoldable pub place : Node → Outcome ℕ
  place node = port node >>= λ p. hash_to_range node p conf.shard_amount >>= λ shard_id.
      index
        (if bytes_eq p conf.main_port && conf.enable_spy then pos conf.spy_at_shard else shard_id)

  -- The range over NodeMap, with the nodes and the maps of the shards after it.
  unfoldable pub assign : NodeMap → List NodeMap → Outcome (NodeMap × List NodeMap)
  assign [] maps = ok ([], maps)
  assign ((key, node) ∷ rest) maps = place node >>= λ shard_id.
      deref (get_elem? maps shard_id) >>= λ m.
      let placed = record node { shard_id = shard_id } in
      assign rest (set maps shard_id (insert key placed m)) >>= λ (nodes, after).
      ok ((key, placed) ∷ nodes, after)

  unfoldable pub shard_maps : NodeMap → Outcome (NodeMap × List NodeMap)
  shard_maps nodes = assign nodes (replicate conf.shard_amount [])

  -- The first node on the main port, in the order of the range.
  unfoldable pub on_main_port : NodeMap → Option Bytes → Outcome (Option Bytes)
  on_main_port [] main = ok main
  on_main_port ((key, node) ∷ rest) main =
      let later = on_main_port rest main in
      port node >>= λ p. if bytes_eq p conf.main_port then ok (some key) else later

  -- SelectMain of shard `sid`, with its node map.
  unfoldable pub select_shard_main : ℕ → NodeMap → Outcome (Option Bytes)
  select_shard_main sid nodes = select_main modulus nodes rand >>= λ main.
      if conf.enable_spy && (sid == conf.spy_at_shard) && conf.spy_is_main_node
      then on_main_port nodes main
      else ok main

  -- The loop that gives the shards their nodes, from shard `i` on; a shard without nodes is left alone.
  unfoldable pub select_mains : ℕ → List NodeMap → List ShardEntry → Outcome (List ShardEntry)
  select_mains i [] shards = ok shards
  select_mains i ([] ∷ maps) [] = select_mains (suc i) maps []
  select_mains i ((kv ∷ m) ∷ maps) [] = panic
  select_mains i ([] ∷ maps) (shard ∷ shards) =
      select_mains (suc i) maps shards >>= λ rest. ok (shard ∷ rest)
  select_mains i ((kv ∷ m) ∷ maps) (shard ∷ shards) = select_shard_main i (kv ∷ m) >>= λ main.
      select_mains (suc i) maps shards >>= λ rest.
      ok (record { node_map = kv ∷ m; main_node = main } ∷ rest)

  -- The nodes and the shards after RDomain, and the index of the local shard. The log reads the address of
  -- its main node.
  unfoldable pub r_domain :
      Bytes → NodeMap → List ShardEntry → Outcome (NodeMap × List ShardEntry × ℕ)
  r_domain running nodes shards = shard_maps nodes >>= λ (placed, maps).
      deref (lookup running placed) >>= λ self. deref (get_elem? shards self.shard_id) >>= λ _.
      select_mains 0 maps shards >>= λ after. deref (get_elem? after self.shard_id) >>= λ own.
      deref own.main_node >>= λ _. ok (placed, after, self.shard_id)
