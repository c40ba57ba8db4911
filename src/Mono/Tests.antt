-- ===== src/Mono/Tests.antt =====
-- A chain of two blocks; the hash of a block is its state root here.
use monosulfide.Prelude.{
  ℕ, ◌≡◌, ◌⊎◌, refl, inl, inr, List, [], ◌∷◌, some, arith, Returns, bytes, bytes_eq, bytes_eq_iff,
}
use monosulfide.Prelude.Maps.{lookup}
use monosulfide.Content.{Bytes}
use monosulfide.Mono.{FideHead, FideBlock, MonoChain, anc}
use monosulfide.Mono.Ancestors.{Rooted, Lineage, anc-Lineage}

abbrev head_of : ℕ → Bytes → FideHead
head_of n parent = record {
  nonce = n;
  shard_idx = 0;
  parent_hash = parent;
  intra_tx_root = [];
  sub_block_root = [];
  state_root = n ∷ [];
  timestamp = 0;
}

abbrev first_block : FideBlock
first_block = record { h = head_of 0 []; b = [] }

abbrev second_block : FideBlock
second_block = record { h = head_of 1 (0 ∷ []); b = [] }

abbrev two_blocks : List (Bytes × FideBlock)
two_blocks = (0 ∷ [], first_block) ∷ (1 ∷ [], second_block) ∷ []

abbrev two_chain : MonoChain
two_chain = record {
  tx_pool = record { tx_lists = []; local_index = 0; controls = [] };
  blocks = two_blocks;
  top_block_hash = (0, 1 ∷ []) ∷ [];
  block_gs = first_block ∷ [];
  nonce = 0;
  weight = [];
  path = [];
  refs = [];
  updata_t = [];
}

abbrev root_of : FideBlock → Bytes
root_of b = b.h.state_root

abbrev first_byte : Bytes → ℕ
first_byte [] = 0
first_byte (n ∷ s) = n

one_of_two :
    (k : Bytes) (b : FideBlock)
    → lookup k two_blocks ≡ some b
    → ((k ≡ 0 ∷ []) × (b ≡ first_block)) ⊎ ((k ≡ 1 ∷ []) × (b ≡ second_block))
unfolding lookup
one_of_two k b h = ground (arith, bytes_eq_iff (0 ∷ []) k, bytes_eq_iff (1 ∷ []) k, h)

two_blocks-Rooted : Rooted root_of two_blocks first_block
unfolding lookup bytes_eq
two_blocks-Rooted = record {
  height = first_byte;
  low = λ k b h. elim (one_of_two k b h) [
    | inl (e, same) ↦ rw e (omega arith)
    | inr (e, same) ↦ rw e (omega arith)
  ];
  named = λ k b h. elim (one_of_two k b h) [
    | inl (e, same) ↦ rw (e, same) refl
    | inr (e, same) ↦ rw (e, same) refl
  ];
  parent = λ k b h later. elim (one_of_two k b h) [
    | inl (e, same) ↦ absurd (ground (arith, same, later))
    | inr (e, same) ↦ rw (e, same) (first_block, refl, omega arith)
  ];
}

anc-Lineage_example :
    Returns (Lineage root_of two_chain.blocks first_block (1 ∷ [])) (anc root_of two_chain (1 ∷ []))
unfolding lookup bytes_eq
anc-Lineage_example =
    anc-Lineage root_of two_chain (1 ∷ []) second_block first_block two_blocks-Rooted refl refl
