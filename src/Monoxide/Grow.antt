-- ===== src/Monoxide/Grow.antt =====
-- After a block beside the top, Append follows the heaviest branch.
use monosulfide.Prelude.{
  ap, Ends-weaken, ℕ, zero, suc, ◌<◌, ◌≡◌, refl, List, [], ◌∷◌, Option, some, none, bytes, bytes_eq,
  bytes_eq_iff, bytes_eq_refl, nat_eq, length, inl, inr, arith, Outcome, panic, if◌then◌else◌, Ends,
  ended, Ends-bind, Ends-test, Halts, Halts-bind, Halts-ok, Returns-Ends,
}
use monosulfide.Prelude.Maps.{lookup, insert, lookup-insert}
use monosulfide.Content.{Bytes}
use monosulfide.Tx.{Config, Transaction}
use monosulfide.Pool.{Pool, remove_txs}
use monosulfide.Pool.Halts.{append-Halts, remove_txs-Halts}
use monosulfide.Monoxide.{RelayBlock, RelayChain, top_of, append_all, walk, switch, choose_branch}
use monosulfide.Monoxide.Branch.{Upto, Upto-next, Tree}
use monosulfide.Monoxide.Ghost.{Ghost, Forked, find_top-Ghost}

pub top_of-insert :
    (sid : ℕ) (h : Bytes) (ch after : RelayChain)
    → after.top_block_hash ≡ insert sid h ch.top_block_hash
    → top_of after sid ≡ h
unfolding top_of
top_of-insert sid h ch after e = ground (arith, e, lookup-insert sid sid h ch.top_block_hash)

module _ (hash : RelayBlock → Bytes) (conf : Config) (digest : Transaction → Bytes) where
  append_all-Halts :
      (pool : Pool) (txs : List Transaction) → Halts (append_all hash conf digest pool txs)
  unfolding append_all
  append_all-Halts pool [] = Halts-ok pool
  append_all-Halts pool (tx ∷ txs) =
      Halts-bind _ _ (append-Halts conf digest pool tx) λ next. append_all-Halts next txs

  walk-Halts :
      (change : Pool → List Transaction → Outcome Pool)
      → ((pool : Pool) (txs : List Transaction) → Halts (change pool txs))
      → (fuel : ℕ) (ch : RelayChain) (genesis fork roll_block : RelayBlock) (pool : Pool)
        (t : Tree hash ch genesis)
      → t.mine (hash roll_block)
      → lookup (hash roll_block) ch.blocks ≡ some roll_block
      → t.height (hash roll_block) < fuel
      → Upto ch (hash genesis) (hash roll_block) (hash fork)
      → Halts (walk hash conf digest change fuel ch fork roll_block pool)
  unfolding walk
  walk-Halts change halts zero ch genesis fork roll_block pool t mine there enough up =
      absurd (omega (arith, enough))
  walk-Halts change halts (suc fuel) ch genesis fork roll_block pool t mine there enough up =
      Ends-test (bytes_eq (hash roll_block) (hash fork)) (λ done. Halts-ok pool)
        λ not_yet. Halts-bind _ _ (halts pool roll_block.b.intra) λ changed.
          elim (Upto-next ch (hash genesis) (hash roll_block) (hash fork) up) [
            | inl at_fork ↦ absurd (
                ground (
                  arith,
                  not_yet,
                  at_fork,
                  bytes_eq_refl (hash fork),
                  bytes_eq_iff (hash roll_block) (hash fork),
                ))
            | inr (b, found, later, rest) ↦
                let same_block : b ≡ roll_block = ground (arith, found, there) in
                let (parent_mine, lower, _) =
                  t.parent (hash roll_block) roll_block mine there later in
                let (parent, known, name) = t.held roll_block.h.parent_hash parent_mine in
                rw known (
                  walk-Halts change halts fuel ch genesis fork parent changed t
                    (rw name parent_mine) (rw name known) (rw name (omega (arith, lower, enough)))
                    (rw (name, ← same_block) rest))
          ]

  switch-Halts :
      (ch : RelayChain) (sid : ℕ) (genesis leaf_block fork : RelayBlock) (t : Tree hash ch genesis)
      → t.mine (top_of ch sid)
      → t.mine (hash leaf_block)
      → lookup (hash leaf_block) ch.blocks ≡ some leaf_block
      → Upto ch (hash genesis) (top_of ch sid) (hash fork)
      → Upto ch (hash genesis) (hash leaf_block) (hash fork)
      → Halts (switch hash conf digest ch sid leaf_block fork)
  unfolding switch
  switch-Halts ch sid genesis leaf_block fork t top_mine mine there up leaf_up =
      let (old, found, name) = t.held (top_of ch sid) top_mine in
      rw found (
        Halts-bind _ _
          (walk-Halts (append_all hash conf digest) append_all-Halts (length ch.blocks) ch genesis
            fork old ch.tx_pool t (rw name top_mine) (rw name found)
            (rw name (t.low (top_of ch sid) top_mine)) (rw name up))
          λ rolled.
            walk-Halts (remove_txs conf digest) (remove_txs-Halts conf digest) (length ch.blocks) ch
              genesis fork leaf_block rolled t mine there (t.low (hash leaf_block) mine) leaf_up)

  -- The pool of choose_branch is found, or a transaction panics.
  branch-Halts :
      (ch : RelayChain) (sid : ℕ) (genesis block leaf_block : RelayBlock) (fork : Option RelayBlock)
      (t : Tree hash ch genesis)
      → t.mine (top_of ch sid)
      → t.mine (hash leaf_block)
      → lookup (hash leaf_block) ch.blocks ≡ some leaf_block
      → Forked hash ch (hash genesis) (top_of ch sid) (hash leaf_block) fork
      → Halts (elim fork [
        | some f ↦ switch hash conf digest ch sid leaf_block f
        | none ↦
            if bytes_eq (hash leaf_block) (top_of ch sid)
            then remove_txs conf digest ch.tx_pool block.b.intra
            else panic
      ])
  branch-Halts ch sid genesis block leaf_block none t top_mine mine there forked =
      rw ((bytes_eq_iff (hash leaf_block) (top_of ch sid)).1 forked)
        (remove_txs-Halts conf digest ch.tx_pool block.b.intra)
  branch-Halts ch sid genesis block leaf_block (some f) t top_mine mine there forked =
      switch-Halts ch sid genesis leaf_block f t top_mine mine there forked.0 forked.1

  -- What choose_branch changes: the pool, and the top, to the leaf of the heaviest branch.
  pub choose_branch-leaf :
      (ch : RelayChain) (sid : ℕ) (block genesis : RelayBlock) (t : Tree hash ch genesis)
      → lookup sid ch.block_gs ≡ some genesis
      → t.mine (top_of ch sid)
      → Ends
          (λ after.
            (pool : Pool) × (h : Bytes) × (after
              ≡ record ch { tx_pool = pool; top_block_hash = insert sid h ch.top_block_hash })
            × Ghost ch (hash genesis) h
            × t.mine h)
          (choose_branch hash conf digest ch sid block)
  unfolding choose_branch
  choose_branch-leaf ch sid block genesis t first top_mine =
      Ends-bind _ (Returns-Ends (find_top-Ghost hash ch sid genesis t first top_mine))
        λ (leaf_block, fork) (ghost, forked, there, mine).
          Ends-bind _
            (branch-Halts ch sid genesis block leaf_block fork t top_mine mine there forked)
            λ pool e. ended _ (pool, hash leaf_block, refl, ghost, mine)

  -- The end of Append for a block that is not on the top: on a tree of blocks that holds the top of
  -- the shard, the way back to the fork and the way on from it end, and the new top is the leaf of the
  -- branch that goes from the first block always to a child that no other outweighs. An address of a
  -- transaction may panic.
  pub choose_branch-Ghost :
      (ch : RelayChain) (sid : ℕ) (block genesis : RelayBlock) (t : Tree hash ch genesis)
      → lookup sid ch.block_gs ≡ some genesis
      → t.mine (top_of ch sid)
      → Ends
          (λ after. Ghost ch (hash genesis) (top_of after sid) × (after.blocks ≡ ch.blocks))
          (choose_branch hash conf digest ch sid block)
  choose_branch-Ghost ch sid block genesis t first top_mine =
      Ends-weaken (choose_branch-leaf ch sid block genesis t first top_mine)
        λ after (pool, h, e, ghost, mine). (
          rw (top_of-insert sid h ch after (ap (λ c. c.top_block_hash) e)) ghost,
          ap (λ c. c.blocks) e,
        )
