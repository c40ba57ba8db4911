-- ===== src/Monoxide.antt =====
-- monoxide/monoxideChain.go with Block/RelayBlock.go: the blocks of the shards of Monoxide, of which
-- each shard follows its heaviest branch. `hash` stands for crypt.GetDigest of a head, `tx_root` for
-- GenTxRoot, `digest` for the hash of a transaction. Blocks are told by their hash, where the source
-- compares pointers: Blocks has one block for a hash. The nonce of a block is its shard.
mod Branch
mod Ghost
mod Pick
mod Grow
mod Weights
mod Hang
mod Adopt
mod Follow
mod Tests
use monosulfide.Prelude.{
  ℕ, zero, suc, ◌+◌, Bool, true, false, not, List, [], ◌∷◌, ◌++◌, Option, none, some, ltb, ◌==◌,
  Outcome, ok, panic, out_of_fuel, ◌>>=◌, deref, length, if◌then◌else◌, bytes, bytes_eq, nat_eq,
}
use monosulfide.Prelude.Maps.{lookup, insert}
use monosulfide.Content.{Bytes}
use monosulfide.Tx.{Transaction, Config, TxList}
use monosulfide.Pool.{Pool, append, remove_txs, append_relay}
use monosulfide.Pool.Package.{package_txs_from}

pub record RelayHead : Type 0 where
  pub nonce : ℕ
  pub parent_hash : Bytes
  pub confirmed_tx_root : Bytes
  pub out_tx_root : Bytes
  pub timestamp : ℕ

pub record RelayBody : Type 0 where
  pub intra : List Transaction
  pub out : List Transaction

pub record RelayBlock : Type 0 where
  pub h : RelayHead
  pub b : RelayBody

pub record RelayChain : Type 0 where
  pub tx_pool : Pool
  pub blocks : List (Bytes × RelayBlock)
  pub weight : List (Bytes × ℕ)
  pub path : List (Bytes × List Bytes)
  pub top_block_hash : List (ℕ × Bytes)
  pub block_gs : List (ℕ × RelayBlock)

-- Reads of the maps, with the zero value for a missing key.
unfoldable pub weight_in : List (Bytes × ℕ) → Bytes → ℕ
weight_in ws h = elim (lookup h ws) [ none ↦ 0 | some w ↦ w ]

unfoldable pub weight_of : RelayChain → Bytes → ℕ
weight_of ch h = weight_in ch.weight h

unfoldable pub path_of : RelayChain → Bytes → List Bytes
path_of ch h = elim (lookup h ch.path) [ none ↦ [] | some hs ↦ hs ]

unfoldable pub top_of : RelayChain → ℕ → Bytes
top_of ch sid = elim (lookup sid ch.top_block_hash) [ none ↦ [] | some h ↦ h ]

-- currPath[h]
unfoldable pub on_path : List (Bytes × Bool) → Bytes → Bool
on_path curr h = elim (lookup h curr) [ none ↦ false | some b ↦ b ]

-- The body of the loop of findTop over the children, on the largest weight and its hash so far.
unfoldable pub better : RelayChain → List (Bytes × Bool) → Bytes → ℕ × Bytes → ℕ × Bytes
better ch curr h (max_w, tar_h) =
    if ltb max_w (weight_of ch h)
    then (weight_of ch h, h)
    else if weight_of ch h == max_w
    then (if on_path curr h then (max_w, h) else (max_w, tar_h))
    else (max_w, tar_h)

unfoldable pub pick : RelayChain → List (Bytes × Bool) → List Bytes → ℕ × Bytes → Bytes
pick ch curr [] best = best.1
pick ch curr (h ∷ hs) best = pick ch curr hs (better ch curr h best)

module _ (hash : RelayBlock → Bytes) where
  -- The first loop of findTop: the path from the top down to the first block.
  unfoldable pub mark_path :
      ℕ → RelayChain → RelayBlock → RelayBlock → List (Bytes × Bool) → Outcome (List (Bytes × Bool))
  mark_path zero ch genesis temp curr = out_of_fuel
  mark_path (suc fuel) ch genesis temp curr =
      let next = deref (lookup temp.h.parent_hash ch.blocks) >>= λ parent.
      mark_path fuel ch genesis parent (insert (hash temp) true curr) in
      if bytes_eq (hash genesis) (hash temp) then ok curr else next

  -- The second loop of findTop: from a block to the leaf of the heaviest branch, with the block at
  -- which it leaves the path of the top.
  unfoldable pub descend :
      ℕ
      → RelayChain
      → List (Bytes × Bool)
      → RelayBlock
      → Option RelayBlock
      → Outcome (RelayBlock × Option RelayBlock)
  descend zero ch curr temp fork_point = out_of_fuel
  descend (suc fuel) ch curr temp fork_point = elim (path_of ch (hash temp)) [
    | [] ↦ ok (temp, fork_point)
    | h ∷ hs ↦
        let tar_h = pick ch curr (h ∷ hs) (0, hash temp) in
        let fork : Option RelayBlock = elim fork_point [
          | none ↦ if on_path curr tar_h then none else some temp
          | some f ↦ some f
        ] in
        deref (lookup tar_h ch.blocks) >>= λ next. descend fuel ch curr next fork
  ]

  unfoldable pub find_top : RelayChain → ℕ → Outcome (RelayBlock × Option RelayBlock)
  find_top ch sid = deref (lookup (top_of ch sid) ch.blocks) >>= λ temp.
      deref (lookup sid ch.block_gs) >>= λ genesis.
      mark_path (length ch.blocks) ch genesis temp [] >>= λ curr.
      descend (length ch.blocks) ch curr genesis none

  -- The loop of Append that adds one to the weight of a block and of its ancestors but the first.
  unfoldable pub add_weights :
      ℕ → RelayChain → RelayBlock → RelayBlock → List (Bytes × ℕ) → Outcome (List (Bytes × ℕ))
  add_weights zero ch genesis temp ws = out_of_fuel
  add_weights (suc fuel) ch genesis temp ws =
      let next = deref (lookup temp.h.parent_hash ch.blocks) >>= λ parent.
      add_weights fuel ch genesis parent (insert (hash temp) (weight_in ws (hash temp) + 1) ws) in
      if bytes_eq (hash genesis) (hash temp) then ok ws else next

  -- The block under its hash, behind its siblings.
  unfoldable pub add_block : RelayChain → RelayBlock → RelayChain
  add_block ch block = record ch {
    blocks = insert (hash block) block ch.blocks;
    path = insert block.h.parent_hash (path_of ch block.h.parent_hash ++ (hash block ∷ [])) ch.path;
  }

  -- The same with the weights.
  unfoldable pub hang : RelayChain → RelayBlock → Outcome RelayChain
  hang ch block = deref (lookup block.h.nonce ch.block_gs) >>= λ genesis.
      add_weights (length (add_block ch block).blocks) (add_block ch block) genesis block ch.weight
      >>= λ ws. ok (record (add_block ch block) { weight = ws })

  module _ (conf : Config) (digest : Transaction → Bytes) where
    unfoldable pub append_all : Pool → List Transaction → Outcome Pool
    append_all pool [] = ok pool
    append_all pool (tx ∷ txs) = append conf digest pool tx >>= λ next. append_all next txs

    -- The two loops of Append from a block down to the fork: `change` is what is done to the pool
    -- with the transactions of each block.
    unfoldable pub walk :
        (Pool → List Transaction → Outcome Pool)
        → ℕ
        → RelayChain
        → RelayBlock
        → RelayBlock
        → Pool
        → Outcome Pool
    walk change zero ch fork roll_block pool = out_of_fuel
    walk change (suc fuel) ch fork roll_block pool =
        let next = change pool roll_block.b.intra >>= λ changed.
        deref (lookup roll_block.h.parent_hash ch.blocks) >>= λ parent.
        walk change fuel ch fork parent changed in
        if bytes_eq (hash roll_block) (hash fork) then ok pool else next

    -- The pool after the change from the branch of the old top to the one of the new top.
    unfoldable pub switch : RelayChain → ℕ → RelayBlock → RelayBlock → Outcome Pool
    switch ch sid top fork = deref (lookup (top_of ch sid) ch.blocks) >>= λ old.
        walk append_all (length ch.blocks) ch fork old ch.tx_pool >>= λ rolled.
        walk (remove_txs conf digest) (length ch.blocks) ch fork top rolled

    -- The end of Append for a block that is not on the top.
    unfoldable pub choose_branch : RelayChain → ℕ → RelayBlock → Outcome RelayChain
    choose_branch ch sid block = find_top ch sid >>= λ (top, fork_point).
        elim fork_point [
          | some fork ↦ switch ch sid top fork
          | none ↦
              if bytes_eq (hash top) (top_of ch sid)
              then remove_txs conf digest ch.tx_pool block.b.intra
              else panic
        ]
        >>= λ pool.
            ok (record ch {
              tx_pool = pool;
              top_block_hash = insert sid (hash top) ch.top_block_hash;
            })

    -- VerifyBlock; Tx.IsVaildTxSet accepts every list.
    unfoldable pub verify_block : (List Transaction → Outcome Bytes) → RelayBlock → Outcome Bool
    verify_block tx_root block = tx_root block.b.intra >>= λ intra_root.
        if bytes_eq intra_root block.h.confirmed_tx_root
        then (tx_root block.b.out >>= λ out_root. ok (bytes_eq out_root block.h.out_tx_root))
        else ok false

    unfoldable pub append_block :
        (List Transaction → Outcome Bytes) → RelayChain → RelayBlock → Outcome RelayChain
    append_block tx_root ch block = verify_block tx_root block >>= λ is_legal.
        if not is_legal
        then panic
        else hang ch block >>= λ hung.
            let sid = block.h.nonce in
            if bytes_eq block.h.parent_hash (top_of ch sid)
            then (remove_txs conf digest hung.tx_pool block.b.intra >>= λ removed.
                append_relay conf digest removed block.b.intra >>= λ relayed. ok (record hung {
                  tx_pool = relayed;
                  top_block_hash = insert sid (hash block) hung.top_block_hash;
                }))
            else choose_branch hung sid block

-- GenerateBlock: one block for each shard; its outgoing transactions are none.
unfoldable pub generate_blocks :
    (List Transaction → Outcome Bytes)
    → Config
    → (TxList → TxList)
    → ℕ
    → RelayChain
    → ℕ
    → ℕ
    → Outcome (List RelayBlock)
generate_blocks tx_root conf visit now ch sid zero = ok []
generate_blocks tx_root conf visit now ch sid (suc n) =
    package_txs_from conf visit ch.tx_pool sid >>= λ intra. tx_root intra >>= λ intra_root.
    tx_root [] >>= λ out_root. generate_blocks tx_root conf visit now ch (suc sid) n >>= λ rest.
    let block : RelayBlock = record {
      h = record {
        nonce = sid;
        parent_hash = top_of ch sid;
        confirmed_tx_root = intra_root;
        out_tx_root = out_root;
        timestamp = now;
      };
      b = record { intra = intra; out = [] };
    } in
    ok (block ∷ rest)

pub generate_block :
    (List Transaction → Outcome Bytes)
    → Config
    → (TxList → TxList)
    → ℕ
    → RelayChain
    → Outcome (List RelayBlock)
generate_block tx_root conf visit now ch =
    generate_blocks tx_root conf visit now ch 0 conf.monoxide_shard_amount
