-- ===== src/Mono.antt =====
-- Monosulfide/MonosulfideChain.go with Block/SpiralBlock.go: the blocks of a Monosulfide chain, the
-- ancestors of a block, and the check of its references to the other shards. `hash` and `sub_hash`
-- stand for crypt.GetDigest of a head and of a sub-block's head, and `sum256` for sha256.Sum256. A
-- block is told by its hash, where the source compares pointers: Blocks has one block for a hash.
pub mod Ancestors
pub mod Branches
pub mod Append
mod Registered
mod Settled
mod Measure
mod Turn
mod Ends
mod Tests
mod ForkTests
use monosulfide.Prelude.{
  ℕ, zero, suc, ◌+◌, ◌%◌, ◌^◌, Bool, true, false, not, ◌&&◌, List, [], ◌∷◌, ◌++◌, Option, none,
  some, length, ◌==◌, if◌then◌else◌, get_elem?, Outcome, ok, panic, out_of_fuel, ◌>>=◌, deref,
  bytes, bytes_eq, nat_eq,
}
use monosulfide.Prelude.Maps.{lookup, insert}
use monosulfide.Content.{Bytes}
use monosulfide.Tx.{Transaction, Config, TxList}
use monosulfide.Merkle.{gen_mpt_root}
use monosulfide.Pool
use monosulfide.Pool.{Pool}
use monosulfide.Pool.Package.{package_relay_txs}

pub record CBlockHead : Type 0 where
  pub remote_block_hash : Bytes
  pub tx_root : Bytes

-- CHead is nil in an empty sub-block.
pub record SubBlock : Type 0 where
  pub c_head : Option CBlockHead
  pub c_body : Option (List Transaction)

pub record FideHead : Type 0 where
  pub nonce : ℕ
  pub shard_idx : ℕ
  pub parent_hash : Bytes
  pub intra_tx_root : Bytes
  pub sub_block_root : Bytes
  pub state_root : Bytes
  pub timestamp : ℕ

pub record FideBlock : Type 0 where
  pub h : FideHead
  pub b : List (Option SubBlock)

pub empty_sub_block : SubBlock
empty_sub_block = record { c_head = none; c_body = some [] }

-- Txs of a body.
unfoldable pub txs : List (Option SubBlock) → List Transaction
txs [] = []
txs (none ∷ subs) = txs subs
txs (some sub ∷ subs) = elim sub.c_body [ none ↦ txs subs | some own ↦ own ++ txs subs ]

-- Ref: an index out of range and a nil head panic.
unfoldable pub ref : FideBlock → ℕ → Outcome Bytes
ref block i = deref (get_elem? block.b i) >>= λ slot.
    deref slot >>= λ sub. deref sub.c_head >>= λ head. ok head.remote_block_hash

pub record MonoChain : Type 0 where
  pub tx_pool : Pool
  pub blocks : List (Bytes × FideBlock)
  pub top_block_hash : List (ℕ × Bytes)
  pub block_gs : List FideBlock
  pub nonce : ℕ
  pub weight : List (Bytes × ℕ)
  pub path : List (Bytes × List Bytes)
  pub refs : List (Bytes × List Bytes)
  pub updata_t : List (Bytes × ℕ)

-- ch.TopBlockHash[i]: the empty hash for a missing key.
pub zero_hash : Bytes
zero_hash = []

unfoldable pub top : MonoChain → ℕ → Bytes
top ch i = elim (lookup i ch.top_block_hash) [ none ↦ zero_hash | some h ↦ h ]

module _ (hash : FideBlock → Bytes) where
  -- The loop of Anc from `temp` down to the first block `genesis`; a missing parent is a nil pointer.
  unfoldable pub anc_loop :
      ℕ
      → List (Bytes × FideBlock)
      → FideBlock
      → FideBlock
      → List (Bytes × FideBlock)
      → Outcome (List (Bytes × FideBlock))
  anc_loop zero blocks genesis temp ret = out_of_fuel
  anc_loop (suc fuel) blocks genesis temp ret =
      let next = deref (lookup temp.h.parent_hash blocks) >>= λ parent.
      anc_loop fuel blocks genesis parent (insert (hash temp) temp ret) in
      if bytes_eq (hash temp) (hash genesis) then ok (insert (hash genesis) genesis ret) else next

  unfoldable pub anc : MonoChain → Bytes → Outcome (List (Bytes × FideBlock))
  anc ch h = deref (lookup h ch.blocks) >>= λ block.
      deref (get_elem? ch.block_gs block.h.shard_idx) >>= λ genesis.
      anc_loop (length ch.blocks) ch.blocks genesis block []

  -- AncS: the ancestors of the `n` references of a block from shard `i` on.
  pub ancs : MonoChain → FideBlock → ℕ → ℕ → Outcome (List (List (Bytes × FideBlock)))
  ancs ch block i zero = ok []
  ancs ch block i (suc n) =
      ref block i >>= λ r. anc ch r >>= λ a. ancs ch block (suc i) n >>= λ rest. ok (a ∷ rest)

  -- The loop over j: each reference of a referenced block is an ancestor of the one of this block.
  pub refs_known : FideBlock → ℕ → List (List (Bytes × FideBlock)) → Outcome Bool
  refs_known block j [] = ok true
  refs_known block j (a ∷ rest) = ref block j >>= λ r. elim (lookup r a) [
    | none ↦ ok false
    | some _ ↦ refs_known block (suc j) rest
  ]

  -- The loop over i, for the `n` shards from `i` on.
  pub valid_from : MonoChain → FideBlock → List (List (Bytes × FideBlock)) → ℕ → ℕ → Outcome Bool
  valid_from ch block anc_s i zero = ok true
  valid_from ch block anc_s i (suc n) = ref block i >>= λ r. deref (lookup r ch.blocks) >>= λ ref_i.
      deref (get_elem? ch.block_gs i) >>= λ genesis.
      (if bytes_eq (hash ref_i) (hash genesis) then ok true else refs_known ref_i 0 anc_s)
      >>= λ good. if good then valid_from ch block anc_s (suc i) n else ok false

  unfoldable pub valid : Config → MonoChain → FideBlock → Outcome Bool
  valid conf ch block = ancs ch block 0 conf.fide_shard_amount >>= λ anc_s.
      valid_from ch block anc_s 0 conf.fide_shard_amount

module _ (sub_hash : Option CBlockHead → Bytes) (sum256 : Bytes → Bytes) where
  -- The hashes of the sub-blocks in a slice of `n` entries: more of them panic, a nil entry panics.
  pub sub_hashes : ℕ → List (Option SubBlock) → Outcome (List Bytes)
  sub_hashes n [] = ok (monosulfide.Prelude.replicate n [])
  sub_hashes zero (sub ∷ subs) = panic
  sub_hashes (suc n) (sub ∷ subs) =
      deref sub >>= λ s. sub_hashes n subs >>= λ rest. ok (sub_hash s.c_head ∷ rest)

  unfoldable pub verify_remote_block : Config → FideBlock → Outcome Bool
  verify_remote_block conf block = sub_hashes conf.fide_shard_amount block.b >>= λ hashes.
      gen_mpt_root sum256 hashes >>= λ root. ok (bytes_eq block.h.sub_block_root root)

  unfoldable pub verify_block : (FideBlock → Bytes) → Config → MonoChain → FideBlock → Outcome Bool
  verify_block hash conf ch block = verify_remote_block conf block >>= λ legal.
      valid hash conf ch block >>= λ good. ok (legal && good)

  -- The loop of GenerateBlock: one sub-block for each group of transactions.
  pub make_sub_blocks :
      (List Transaction → Outcome Bytes)
      → MonoChain
      → ℕ
      → ℕ
      → List (List Transaction)
      → Outcome (List (Option SubBlock))
  make_sub_blocks tx_root ch i zero groups = ok []
  make_sub_blocks tx_root ch i (suc n) [] = panic
  make_sub_blocks tx_root ch i (suc n) (group ∷ groups) = tx_root group >>= λ root.
      make_sub_blocks tx_root ch (suc i) n groups >>= λ rest.
      let head : CBlockHead = record { remote_block_hash = top ch i; tx_root = root } in
      let sub : SubBlock = record { c_head = some head; c_body = some group } in
      ok (some sub ∷ rest)

  -- GenerateBlock, with nil for an empty pool. `tx_root` is GenTxRoot, `now` the clock, `finish` the
  -- bytes of "FINISH", and `manager_finished` the flag of the config package.
  unfoldable pub generate_block :
      (List Transaction → Outcome Bytes)
      → Config
      → (TxList → TxList)
      → ℕ
      → Bool
      → Bytes
      → MonoChain
      → Outcome (Option FideBlock)
  generate_block tx_root conf visit now manager_finished finish ch =
      package_relay_txs conf visit ch.tx_pool >>= λ (groups, block_idx).
      if monosulfide.Pool.amount ch.tx_pool == 0
      then ok none
      else make_sub_blocks tx_root ch 0 conf.fide_shard_amount groups >>= λ subs.
          sub_hashes conf.fide_shard_amount subs >>= λ hashes.
          gen_mpt_root sum256 hashes >>= λ root. tx_root (txs subs) >>= λ intra.
          let idle = length (txs subs) == 0 && manager_finished in
          ok (
            some (record {
              h = record {
                nonce = (ch.nonce + 1) % 2 ^ 64;
                shard_idx = block_idx;
                parent_hash = top ch block_idx;
                intra_tx_root = intra;
                sub_block_root = root;
                state_root = if idle then finish else root;
                timestamp = now;
              };
              b = subs;
            }))
