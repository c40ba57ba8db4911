-- ===== src/Pyramid.antt =====
-- pyramid/PyrChain.go with the shard of pyramid/PyrShard.go and Block/StdBlock.go: the chain of a
-- shard of Pyramid, which also holds the chains of its i-shards. `hash` stands for crypt.GetDigest of
-- a head, `digest` for the hash of a transaction, `sum256` for sha256.Sum256; `id_top` is the top of the
-- identity chain. The storage is the list of the blocks that AddBlock was given. Light takes the
-- transactions from the block itself, so that later reads of the same block have none.
mod Linked
mod Appends
mod Tests
use monosulfide.Prelude.{
  ℕ, zero, suc, ◌+◌, ◌-◌, ◌/◌, ◌%◌, ◌^◌, Bool, true, false, not, ◌&&◌, List, [], ◌∷◌, ◌++◌, Option,
  none, some, length, ◌==◌, leb, if◌then◌else◌, get_elem?, Outcome, ok, panic, out_of_fuel, ◌>>=◌,
  deref, bytes, bytes_eq, nat_eq,
}
use monosulfide.Prelude.Maps.{lookup, insert}
use monosulfide.Content.{Bytes}
use monosulfide.Merkle.{gen_tx_root}
use monosulfide.Tx.{Transaction, Config, TxList, s_in_shard, r_in_shard}
use monosulfide.Pool.{Pool, at, remove_txs, append, new_tx_pool}
use monosulfide.Pool.Package.{package_inner_txs}
use monosulfide.Pool.Cross.{package_cross_txs}

-- ParentHashes is nil in a block that was not built here.
pub record StdHead : Type 0 where
  pub parent_hashes : Option (List (ℕ × Bytes))
  pub merkle_root : Bytes
  pub state_root : Bytes
  pub nonce : ℕ
  pub timestamp : ℕ
  pub bits : ℕ

pub record StdBlock : Type 0 where
  pub h : StdHead
  pub transactions : List Transaction

pub record Shard : Type 0 where
  pub sid : ℕ
  pub related_i_shard : List ℕ
  pub related_b_shard : List ℕ

pub record PyrChain : Type 0 where
  pub storage : List StdBlock
  pub tx_pool : Pool
  pub owner_shard : Shard
  pub blocks : List (Bytes × StdBlock)
  pub top_block_hash : List (ℕ × Bytes)
  pub nonce : ℕ

-- m[k] of a map of hashes, and of one that may be nil.
abbrev pub hash_at : ℕ → List (ℕ × Bytes) → Bytes
hash_at i m = elim (lookup i m) [ none ↦ [] | some h ↦ h ]

-- What a range over a map that may be nil visits.
abbrev pub listed : Option (List (ℕ × Bytes)) → List (ℕ × Bytes)
listed none = []
listed (some ps) = ps

unfoldable pub light : StdBlock → StdBlock
light block = record block { transactions = [] }

-- Reset: the shards that hold the chain of this one, and those whose chains it holds.
unfoldable pub related_from :
    List (List Bool) → ℕ → ℕ → ℕ → List ℕ × List ℕ → Outcome (List ℕ × List ℕ)
related_from sd sid i zero found = ok found
related_from sd sid i (suc n) (bs, is) = at sd i sid >>= λ above. at sd sid i >>= λ below.
    let other = not (i == sid) in
    related_from sd sid (suc i) n
      (if above && other then bs ++ i ∷ [] else bs, if below && other then is ++ i ∷ [] else is)

unfoldable pub reset : Config → ℕ → Outcome PyrChain
reset conf sid =
    related_from conf.shard_distribution sid 0 conf.pyr_shard_amount ([], []) >>= λ (bs, is).
    new_tx_pool conf sid >>= λ pool. ok (record {
      storage = [];
      tx_pool = pool;
      owner_shard = record { sid = sid; related_i_shard = is; related_b_shard = bs };
      blocks = [];
      top_block_hash = [];
      nonce = 0;
    })

unfoldable pub controls : Config → Shard → ℕ → Outcome Bool
controls conf shard r = at conf.shard_distribution shard.sid r

pub is_b_shard : Shard → Bool
is_b_shard shard = not (length shard.related_i_shard == 0)

-- Threshold, of `amount` nodes; an int that becomes a uint64.
unfoldable pub threshold : ℕ → ℕ
threshold amount = (amount + 1 - (amount + 2) / 3) % 2 ^ 64

-- RecordTx
pub record_tx : Config → (Transaction → Bytes) → PyrChain → Transaction → Outcome PyrChain
record_tx conf digest ch tx =
    append conf digest ch.tx_pool tx >>= λ pool. ok (record ch { tx_pool = pool })

-- _countRelateTxs
unfoldable pub count_relate_txs : Config → PyrChain → List Transaction → Outcome ℕ
count_relate_txs conf ch [] = ok 0
count_relate_txs conf ch (tx ∷ txs) = s_in_shard conf tx >>= λ s. r_in_shard conf tx >>= λ r.
    controls conf ch.owner_shard s >>= λ a.
    (if a then controls conf ch.owner_shard r else ok false) >>= λ both.
    count_relate_txs conf ch txs >>= λ rest. ok (
      if both
      then rest + 1
      else if ch.owner_shard.sid == s
      then rest + 1
      else if ch.owner_shard.sid == r
      then rest + 1
      else rest)

unfoldable pub verify_block :
    (Bytes → Bytes) → (Transaction → Bytes) → Config → PyrChain → StdBlock → Outcome Bool
verify_block sum256 digest conf ch block = count_relate_txs conf ch block.transactions >>= λ _.
    gen_tx_root sum256 digest block.transactions >>= λ root. ok (bytes_eq root block.h.merkle_root)

module _ (id_top : Bytes) (ch : PyrChain) (i : ℕ) where
  -- The loop of printChain, with the nonces that it prints.
  unfoldable pub print_loop : ℕ → StdBlock → Outcome (List ℕ)
  print_loop zero curr = out_of_fuel
  print_loop (suc fuel) curr = elim curr.h.parent_hashes [
    | none ↦ ok []
    | some parents ↦
        let rest = deref (lookup (hash_at i parents) ch.blocks) >>= λ next.
        print_loop fuel next >>= λ nonces. ok (curr.h.nonce ∷ nonces) in
        if bytes_eq (hash_at i parents) id_top then ok (curr.h.nonce ∷ []) else rest
  ]

  unfoldable pub print_chain : Outcome (List ℕ)
  print_chain =
      deref (lookup (hash_at i ch.top_block_hash) ch.blocks) >>= print_loop (length ch.blocks)

unfoldable pub print_all : Bytes → PyrChain → List ℕ → Outcome (List (List ℕ))
print_all id_top ch [] = ok []
print_all id_top ch (i ∷ is) =
    print_chain id_top ch i >>= λ nonces. print_all id_top ch is >>= λ rest. ok (nonces ∷ rest)

module _ (hash : StdBlock → Bytes) (conf : Config) (digest : Transaction → Bytes)
    (id_top : Bytes) where
  -- The range over ParentHashes in Append: the tops on which a cross block stands move to it.
  unfoldable pub move_tops : List (ℕ × Bytes) → StdBlock → PyrChain → Outcome PyrChain
  move_tops [] block ch = ok ch
  move_tops ((j, h) ∷ parents) block ch = controls conf ch.owner_shard j >>= λ mine.
      move_tops parents block (
        if mine && bytes_eq (hash_at j ch.top_block_hash) h
        then record ch { top_block_hash = insert j (hash block) ch.top_block_hash }
        else ch)

  -- What Append does with the transactions of the block.
  unfoldable pub settle_txs : StdBlock → List Transaction → PyrChain → Outcome PyrChain
  settle_txs block [] ch = ok ch
  settle_txs block (tx ∷ txs) ch = remove_txs conf digest ch.tx_pool (tx ∷ txs) >>= λ pool.
      s_in_shard conf tx >>= λ s. r_in_shard conf tx >>= λ r.
      let removed = record ch { tx_pool = pool } in
      if s == r
      then ok removed
      else move_tops (listed block.h.parent_hashes) block removed >>= λ moved.
          print_all id_top moved (ch.owner_shard.related_i_shard ++ ch.owner_shard.sid ∷ [])
          >>= λ _. ok moved

  -- The block under its hash as the top of shard `sid`.
  unfoldable pub store : PyrChain → StdBlock → ℕ → PyrChain
  store ch block sid = record ch {
    storage = ch.storage ++ block ∷ [];
    nonce = (ch.nonce + 1) % 2 ^ 64;
    blocks = insert (hash block) (light block) ch.blocks;
    top_block_hash = insert sid (hash block) ch.top_block_hash;
  }

  unfoldable pub append_block : (Bytes → Bytes) → PyrChain → StdBlock → ℕ → Outcome PyrChain
  append_block sum256 ch block sid = verify_block sum256 digest conf ch block >>= λ is_legal.
      if is_legal then settle_txs block block.transactions (store ch block sid) else ok ch

  -- AppendIShardIBlock: the block goes to the storage after Light has emptied it.
  unfoldable pub append_i_shard_block : PyrChain → StdBlock → ℕ → Outcome PyrChain
  append_i_shard_block ch block shard_id =
      remove_txs conf digest ch.tx_pool block.transactions >>= λ pool.
      let next = record ch {
        tx_pool = pool;
        top_block_hash = insert shard_id (hash block) ch.top_block_hash;
        blocks = insert (hash block) (light block) ch.blocks;
      } in
      print_chain id_top next shard_id >>= λ _.
      ok (record next { storage = next.storage ++ light block ∷ [] })

-- The tops of the related shards, in the loop of GenerateCrossBlock.
pub parents_of : PyrChain → List ℕ → List (ℕ × Bytes) → List (ℕ × Bytes)
parents_of ch [] parents = parents
parents_of ch (i ∷ is) parents = parents_of ch is (insert i (hash_at i ch.top_block_hash) parents)

module _ (sum256 : Bytes → Bytes) (digest : Transaction → Bytes) (state_root : Bytes) where
  unfoldable pub build : PyrChain → List Transaction → ℕ → List (ℕ × Bytes) → Outcome StdBlock
  build ch txs nonce parents = gen_tx_root sum256 digest txs >>= λ root. ok (record {
    h = record {
      parent_hashes = some parents;
      merkle_root = root;
      state_root = state_root;
      nonce = nonce % 2 ^ 64;
      timestamp = 0;
      bits = 0;
    };
    transactions = txs;
  })

  -- GenerateInternalBlock, with `cnt` looks left, and nil where none of them finds a transaction: what
  -- the look after the last wait finds is not read. `pools` are the states of the pool at the looks.
  unfoldable pub generate_internal_block :
      Config → (TxList → TxList) → PyrChain → ℕ → List Pool → Outcome (Option StdBlock)
  generate_internal_block conf visit ch cnt [] = ok none
  generate_internal_block conf visit ch cnt (pool ∷ pools) =
      package_inner_txs conf visit pool >>= λ txs.
      let wait = generate_internal_block conf visit ch (cnt - 1) pools in
      if leb 1 (length txs)
      then (build ch txs (ch.nonce + 1)
            (insert ch.owner_shard.sid (hash_at ch.owner_shard.sid ch.top_block_hash) [])
          >>= λ block. ok (some block))
      else if cnt == 1
      then ok none
      else wait

  -- GenerateCrossBlock, once its transactions are chosen.
  unfoldable pub generate_cross_block : PyrChain → List Transaction → Outcome StdBlock
  generate_cross_block ch txs = build ch txs (ch.nonce + 1 + 10000) (
      insert ch.owner_shard.sid (hash_at ch.owner_shard.sid ch.top_block_hash)
        (parents_of ch ch.owner_shard.related_i_shard []))
