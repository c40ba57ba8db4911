-- ===== src/Monoxide/Follow.antt =====
-- The top of a shard is the end of its heaviest branch, before and after each Append.
use monosulfide.Prelude.{
  ℕ, ◌+◌, ◌≡◌, ◌⊎◌, refl, true, false, Bool-cases, arith, not, List, some, bytes, bytes_eq,
  bytes_eq_iff, nat_eq, inl, inr, if◌then◌else◌, Outcome, ok, ◌>>=◌, Ends, ended, panicked,
  Ends-bind, Halts-bind, Halts-ok, Halts-if, Ends-test, Ends-weaken, Halts, Returns-Ends,
}
use monosulfide.Prelude.Maps.{lookup, insert}
use monosulfide.Content.{Bytes}
use monosulfide.Tx.{Config, Transaction}
use monosulfide.Pool.{Pool, remove_txs, append_relay}
use monosulfide.Pool.Halts.{remove_txs-Halts, append_relay-Halts}
use monosulfide.Monoxide.{
  RelayBlock, RelayChain, weight_in, weight_of, path_of, top_of, add_block, verify_block,
  choose_branch, append_block,
}
use monosulfide.Monoxide.Branch.{Upto, Tree}
use monosulfide.Monoxide.Ghost.{Ghost, leaf, heavier}
use monosulfide.Monoxide.Grow.{top_of-insert, choose_branch-leaf}
use monosulfide.Monoxide.Weights.{Down, Raised}
use monosulfide.Monoxide.Hang.{Hangs, hung, down_after, tree_after, hang-Raised}
use monosulfide.Monoxide.Adopt.{Ghost-extend}

module _ (hash : RelayBlock → Bytes) (ch : RelayChain) (pool : Pool) (tops : List (ℕ × Bytes)) where
  relabeled : RelayChain
  relabeled = record ch { tx_pool = pool; top_block_hash = tops }

  Tree-relabeled : (genesis : RelayBlock) → Tree hash ch genesis → Tree hash relabeled genesis
  unfolding relabeled path_of weight_of
  Tree-relabeled genesis t = record {
    mine = t.mine;
    height = t.height;
    first = t.first;
    held = t.held;
    low = t.low;
    parent = t.parent;
    child = t.child;
  }

  Ghost-relabeled : (k top : Bytes) → Ghost ch k top → Ghost relabeled k top
  unfolding relabeled path_of weight_of
  Ghost-relabeled k top (leaf end) = leaf end
  Ghost-relabeled k top (heavier {c = c} best rest) =
      heavier {c = c} best (Ghost-relabeled c top rest)

-- The blocks of the shard are a tree, and its top is the end of the heaviest branch.
pub record Followed (hash : RelayBlock → Bytes) (ch : RelayChain) (genesis : RelayBlock) (sid : ℕ)
    : Type 1 where
  pub tree : Tree hash ch genesis
  pub top_in : tree.mine (top_of ch sid)
  pub heaviest : Ghost ch (hash genesis) (top_of ch sid)

Followed-relabeled :
    (hash : RelayBlock → Bytes) (ch : RelayChain) (genesis : RelayBlock) (sid : ℕ)
    (t : Tree hash ch genesis) (pool : Pool) (h : Bytes)
    → t.mine h
    → Ghost ch (hash genesis) h
    → Followed hash (relabeled hash ch pool (insert sid h ch.top_block_hash)) genesis sid
unfolding relabeled Tree-relabeled
Followed-relabeled hash ch genesis sid t pool h mine ghost =
    let tops = insert sid h ch.top_block_hash in
    let same_top : top_of (relabeled hash ch pool tops) sid ≡ h =
      top_of-insert sid h ch (relabeled hash ch pool tops) refl in
    record {
      tree = Tree-relabeled hash ch pool tops genesis t;
      top_in = rw same_top mine;
      heaviest = rw same_top (Ghost-relabeled hash ch pool tops (hash genesis) h ghost);
    }

-- The weights of `ch` once `block` hangs in it: the block and its ancestors but the first one have one
-- more, and all others the same.
abbrev pub Weighed :
    (RelayBlock → Bytes) → RelayChain → RelayBlock → RelayBlock → List (Bytes × ℕ) → Type 0
Weighed hash ch genesis block ws =
    (k : Bytes)
    → ((weight_in ws k ≡ weight_in ch.weight k + 1)
        × Upto (add_block hash ch block) (hash genesis) (hash block) k
        × (bytes_eq (hash genesis) k ≡ false))
      ⊎ ((weight_in ws k ≡ weight_in ch.weight k)
          × (Upto (add_block hash ch block) (hash genesis) (hash block) k
              → bytes_eq (hash genesis) k ≡ true))

Raised-Weighed :
    (hash : RelayBlock → Bytes) (ch : RelayChain) (genesis block : RelayBlock)
    (ws : List (Bytes × ℕ)) (d : Down hash (add_block hash ch block) genesis)
    → Raised hash (add_block hash ch block) genesis d block ch.weight ws
    → Weighed hash ch genesis block ws
Raised-Weighed hash ch genesis block ws d raised k = elim (raised.2 k) [
  | inr (up, later) ↦ inl (raised.1 k up later, up, later)
  | inl stayed ↦ inr (
    stayed,
    λ up. elim (Bool-cases (bytes_eq (hash genesis) k)) [
      | inl first ↦ first
      | inr later ↦ absurd (omega (arith, stayed, raised.1 k up later))
    ],
  )
]

module _ (hash : RelayBlock → Bytes) (conf : Config) (digest : Transaction → Bytes)
    (tx_root : List Transaction → Outcome Bytes)
    (root_halts : (txs : List Transaction) → Halts (tx_root txs)) where
  verify_block-Halts : (block : RelayBlock) → Halts (verify_block hash conf digest tx_root block)
  unfolding verify_block
  verify_block-Halts block = Halts-bind _ _ (root_halts block.b.intra) λ intra_root.
      Halts-if (bytes_eq intra_root block.h.confirmed_tx_root) _ _
        (Halts-bind _ _ (root_halts block.b.out) λ out_root. Halts-ok _) (Halts-ok false)

  adopt-Followed :
      (ch : RelayChain) (block genesis : RelayBlock) (f : Followed hash ch genesis block.h.nonce)
      (hangs : Hangs hash ch block genesis f.tree)
      → lookup block.h.nonce ch.block_gs ≡ some genesis
      → (ws : List (Bytes × ℕ))
      → Raised hash
          (add_block hash ch block)
          genesis
          (down_after hash ch block genesis f.tree hangs)
          block
          ch.weight
          ws
      → let after = hung hash ch block genesis f.tree hangs ws in
        Ends
          (λ final.
            Followed hash final genesis block.h.nonce × Weighed hash ch genesis block final.weight)
          (if bytes_eq block.h.parent_hash (top_of ch block.h.nonce)
            then (remove_txs conf digest after.tx_pool block.b.intra >>= λ removed.
                append_relay conf digest removed block.b.intra >>= λ relayed. ok (record after {
                  tx_pool = relayed;
                  top_block_hash = insert block.h.nonce (hash block) after.top_block_hash;
                }))
            else choose_branch hash conf digest after block.h.nonce block)
  unfolding relabeled tree_after add_block top_of
  adopt-Followed ch block genesis f hangs first ws raised =
      let after = hung hash ch block genesis f.tree hangs ws in
      let t = tree_after hash ch block genesis f.tree hangs ws raised in
      let weighed =
        Raised-Weighed hash ch genesis block ws (down_after hash ch block genesis f.tree hangs)
          raised in
      Ends-test (bytes_eq block.h.parent_hash (top_of ch block.h.nonce))
        (λ extends.
          let ghost : Ghost ch (hash genesis) block.h.parent_hash =
            rw ((bytes_eq_iff block.h.parent_hash (top_of ch block.h.nonce)).0 extends)
              f.heaviest in
          Ends-bind _ (remove_txs-Halts conf digest after.tx_pool block.b.intra) λ removed e.
            Ends-bind _ (append_relay-Halts conf digest removed block.b.intra) λ relayed e'.
              ended _ (
                Followed-relabeled hash after genesis block.h.nonce t relayed (hash block)
                    (inr refl)
                    (Ghost-extend hash ch genesis f.tree block hangs ws raised (hash genesis) ghost
                      f.tree.first.0),
                weighed,
              ))
        λ beside.
          Ends-weaken
            (choose_branch-leaf hash conf digest after block.h.nonce block genesis t first
              (inl f.top_in))
            λ final (pool, h, e, ghost, mine).
              rw e
                (Followed-relabeled hash after genesis block.h.nonce t pool h mine ghost, weighed)

  -- Append of a new block under a block of the tree of its shard comes to an end, if GenTxRoot does:
  -- where it returns, the blocks of the shard are a tree again, and its top is still the end of the
  -- heaviest branch, the one that goes from the first block always to a child that no other outweighs.
  -- The weights of the block and of its ancestors but the first one grow by one, and no other weight
  -- changes. A block whose roots are wrong, and an address of a transaction, may panic.
  pub append_block-Followed :
      (ch : RelayChain) (block genesis : RelayBlock) (f : Followed hash ch genesis block.h.nonce)
      → Hangs hash ch block genesis f.tree
      → lookup block.h.nonce ch.block_gs ≡ some genesis
      → Ends
          (λ after.
            Followed hash after genesis block.h.nonce × Weighed hash ch genesis block after.weight)
          (append_block hash conf digest tx_root ch block)
  unfolding append_block
  append_block-Followed ch block genesis f hangs first =
      Ends-bind _ (verify_block-Halts block) λ is_legal e.
        Ends-test (not is_legal) (λ wrong. panicked)
          λ legal.
            Ends-bind _ (Returns-Ends (hang-Raised hash ch block genesis f.tree hangs first))
              λ hung_chain (ws, same_chain, raised).
                rw same_chain (adopt-Followed ch block genesis f hangs first ws raised)
