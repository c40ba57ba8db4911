-- ===== src/Mono/Append.antt =====
-- Monosulfide/MonosulfideChain.go, Append: a verified block is written to the maps, adds to the
-- weights of its branch, and becomes the top of its shard or makes the shards choose their branches.
-- `now` is the clock where updataT is written, `later` that of FindBestBranches.
use monosulfide.Prelude.{
  ℕ, zero, suc, ◌+◌, Bool, true, false, not, ◌&&◌, List, [], ◌∷◌, ◌++◌, Option, none, some, length,
  if◌then◌else◌, get_elem?, Outcome, ok, panic, out_of_fuel, ◌>>=◌, deref, bytes, bytes_eq, nat_eq,
}
use monosulfide.Prelude.Maps.{lookup, insert}
use monosulfide.Content.{Bytes}
use monosulfide.Tx.{Transaction, Config}
use monosulfide.Pool.{remove_txs}
use monosulfide.Mono.{FideBlock, MonoChain, CBlockHead, txs, ref, top, anc, verify_block}
use monosulfide.Mono.Branches.{Order, or_zero, find_best_branches}

module _ (hash : FideBlock → Bytes) where
  -- The block under its hash, behind its siblings.
  unfoldable pub hold : MonoChain → FideBlock → MonoChain
  hold ch block = record ch {
    blocks = insert (hash block) block ch.blocks;
    path =
        insert block.h.parent_hash
          (or_zero [] (lookup block.h.parent_hash ch.path) ++ hash block ∷ []) ch.path;
  }

  -- The loop that notes the references of the block, for the `n` shards from `i` on.
  unfoldable pub note_refs : FideBlock → ℕ → ℕ → MonoChain → Outcome MonoChain
  note_refs block i zero ch = ok ch
  note_refs block i (suc n) ch = ref block i >>= λ r.
      note_refs block (suc i) n
        (record ch { refs = insert r (or_zero [] (lookup r ch.refs) ++ hash block ∷ []) ch.refs })

  -- The loop from the block down to the first one.
  unfoldable pub add_weights : ℕ → ℕ → FideBlock → FideBlock → MonoChain → Outcome MonoChain
  add_weights zero now genesis temp ch = out_of_fuel
  add_weights (suc fuel) now genesis temp ch =
      let next = deref (lookup temp.h.parent_hash ch.blocks) >>= λ parent.
      add_weights fuel now genesis parent (record ch {
        weight = insert (hash temp) (or_zero 0 (lookup (hash temp) ch.weight) + 1) ch.weight;
        updata_t = insert (hash temp) now ch.updata_t;
      }) in
      if bytes_eq (hash temp) (hash genesis) then ok ch else next

  -- `good`: the references of the block are on the branches of the tops.
  unfoldable pub refs_on_tops : MonoChain → FideBlock → ℕ → ℕ → Outcome Bool
  refs_on_tops ch block i zero = ok true
  refs_on_tops ch block i (suc n) = anc hash ch (top ch i) >>= λ branch. ref block i >>= λ r.
      refs_on_tops ch block (suc i) n >>= λ rest.
      ok (elim (lookup r branch) [ none ↦ false | some _ ↦ rest ])

  module _ (sub_hash : Option CBlockHead → Bytes) (sum256 : Bytes → Bytes) (order : Order)
      (conf : Config) (digest : Transaction → Bytes)
      (visit_blocks : List (Bytes × FideBlock) → List (Bytes × FideBlock)) where
    -- The end of Append, once the block is written.
    unfoldable pub choose_top : ℕ → FideBlock → MonoChain → Outcome MonoChain
    choose_top later block ch = refs_on_tops ch block 0 conf.fide_shard_amount >>= λ good.
        if bytes_eq block.h.parent_hash (top ch block.h.shard_idx) && good
        then (remove_txs conf digest ch.tx_pool (txs block.b) >>= λ pool. ok (record ch {
          tx_pool = pool;
          top_block_hash = insert block.h.shard_idx (hash block) ch.top_block_hash;
        }))
        else find_best_branches hash order conf digest visit_blocks later ch

    unfoldable pub append_block : ℕ → ℕ → MonoChain → FideBlock → Outcome MonoChain
    append_block now later ch block =
        verify_block sub_hash sum256 hash conf ch block >>= λ is_legal.
        if not is_legal
        then panic
        else note_refs block 0 conf.fide_shard_amount (hold ch block) >>= λ noted.
            deref (get_elem? noted.block_gs block.h.shard_idx) >>= λ genesis.
            add_weights (length noted.blocks) now genesis block noted >>= choose_top later block
