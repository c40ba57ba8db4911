-- ===== src/Mono/Ancestors.antt =====
-- Anc ends on a chain whose blocks all lead down to its first block.
use monosulfide.Prelude.{
  ℕ, zero, suc, ◌<◌, ◌≡◌, ap, ◌∙◌, sym, ◌⊎◌, inl, inr, false, List, [], some, Bool-cases, length,
  get_elem?, bytes, bytes_eq, bytes_eq_iff, bytes_eq_refl, arith, Returns, returns, Returns-test,
  Returns-weaken,
}
use monosulfide.Prelude.Maps.{lookup, insert, lookup-insert}
use monosulfide.Content.{Bytes}
use monosulfide.Mono.{FideBlock, MonoChain, anc_loop, anc}

abbrev pub Blocks : Type 0
Blocks = List (Bytes × FideBlock)

-- A block stands under the hash.
abbrev pub Holds : Blocks → Bytes → Type 0
Holds m k = (b : FideBlock) × (lookup k m ≡ some b)

Holds-insert : (m : Blocks) (k j : Bytes) (v : FideBlock) → Holds m k → Holds (insert j v m) k
Holds-insert m k j v (b, h) = elim (Bool-cases (bytes_eq j k)) [
  | inl hit ↦ (v, ground (arith, lookup-insert j k v m, hit))
  | inr miss ↦ (b, ground (arith, lookup-insert j k v m, miss, h))
]

Holds-insert_self : (m : Blocks) (k : Bytes) (v : FideBlock) → Holds (insert k v m) k
Holds-insert_self m k v = (v, ground (arith, lookup-insert k k v m, bytes_eq_refl k))

module _ (hash : FideBlock → Bytes) where
  -- Each block stands under its hash and, unless it is the first block, has its parent among the
  -- blocks, closer to the first one. `height` is below the number of the blocks.
  pub record Rooted (blocks : Blocks) (genesis : FideBlock) : Type 0 where
    pub height : Bytes → ℕ
    pub low : (k : Bytes) (b : FideBlock) → lookup k blocks ≡ some b → height k < length blocks
    pub named : (k : Bytes) (b : FideBlock) → lookup k blocks ≡ some b → hash b ≡ k
    pub parent :
        (k : Bytes) (b : FideBlock)
        → lookup k blocks ≡ some b
        → bytes_eq (hash b) (hash genesis) ≡ false
        → (p : FideBlock) × (lookup b.h.parent_hash blocks ≡ some p)
          × (height b.h.parent_hash < height k)

  -- The parents of what is collected are collected, or are the block that comes next.
  abbrev Pending : FideBlock → Bytes → Blocks → Type 0
  Pending genesis next m =
      (k : Bytes) (b : FideBlock)
      → lookup k m ≡ some b
      → (hash b ≡ hash genesis) ⊎ (Holds m b.h.parent_hash ⊎ (b.h.parent_hash ≡ next))

  -- The block `j` is the block `k` or one of its ancestors, down to the first block.
  pub data Down (blocks : Blocks) (genesis : FideBlock) : Bytes → Bytes → Type 0 where
    itself : {k : Bytes} → Down blocks genesis k k
    below :
        {k j : Bytes} (b : FideBlock)
        → lookup k blocks ≡ some b
        → bytes_eq (hash b) (hash genesis) ≡ false
        → Down blocks genesis b.h.parent_hash j
        → Down blocks genesis k j

  -- The first block under its hash, or an ancestor of the block `k` under its own, as in the chain.
  abbrev pub IsAncestor : Blocks → FideBlock → Bytes → Bytes → FideBlock → Type 0
  IsAncestor blocks genesis k j b =
      ((j ≡ hash genesis) × (b ≡ genesis)) ⊎ ((lookup j blocks ≡ some b) × Down blocks genesis k j)

  -- The block `k` with all its ancestors of the chain, and no other blocks: the first block is in the
  -- set, and the parent of every block of it that is not the first one.
  pub record Lineage (blocks : Blocks) (genesis : FideBlock) (k : Bytes) (m : Blocks) : Type 0 where
    pub has_block : Holds m k
    pub has_genesis : lookup (hash genesis) m ≡ some genesis
    pub closed :
        (j : Bytes) (b : FideBlock)
        → lookup j m ≡ some b
        → (hash b ≡ hash genesis) ⊎ Holds m b.h.parent_hash
    pub only : (j : Bytes) (b : FideBlock) → lookup j m ≡ some b → IsAncestor blocks genesis k j b

  Pending-insert :
      (genesis temp : FideBlock) (m : Blocks)
      → Pending genesis (hash temp) m
      → Pending genesis temp.h.parent_hash (insert (hash temp) temp m)
  Pending-insert genesis temp m p k b here = elim (Bool-cases (bytes_eq (hash temp) k)) [
    | inl hit ↦
        let same : b ≡ temp = ground (arith, lookup-insert (hash temp) k temp m, hit, here) in
        inr (inr (ap (λ x. x.h.parent_hash) same))
    | inr miss ↦ elim (p k b (ground (arith, lookup-insert (hash temp) k temp m, miss, here))) [
      | inl first ↦ inl first
      | inr (inl held) ↦ inr (inl (Holds-insert m b.h.parent_hash (hash temp) temp held))
      | inr (inr next) ↦ inr (inl (rw next (Holds-insert_self m (hash temp) temp)))
    ]
  ]

  -- The blocks of `ret` are kept, and what comes to them is an ancestor of the block `k`.
  abbrev Grown : Blocks → FideBlock → Bytes → Blocks → Blocks → Type 0
  Grown blocks genesis k ret m =
      ((j : Bytes) → Holds ret j → Holds m j)
      × (lookup (hash genesis) m ≡ some genesis)
      × ((j : Bytes) (b : FideBlock)
          → lookup j m ≡ some b
          → (hash b ≡ hash genesis) ⊎ Holds m b.h.parent_hash)
      × ((j : Bytes) (b : FideBlock)
          → lookup j m ≡ some b
          → (lookup j ret ≡ some b) ⊎ IsAncestor blocks genesis k j b)
      × Holds m k

  finish :
      (blocks : Blocks) (genesis temp : FideBlock) (m : Blocks)
      → Pending genesis (hash temp) m
      → hash temp ≡ hash genesis
      → Grown blocks genesis (hash temp) m (insert (hash genesis) genesis m)
  finish blocks genesis temp m p e = (
    λ k held. Holds-insert m k (hash genesis) genesis held,
    ground (
      arith,
      lookup-insert (hash genesis) (hash genesis) genesis m,
      bytes_eq_refl (hash genesis),
    ),
    λ j b here. elim (Bool-cases (bytes_eq (hash genesis) j)) [
      | inl hit ↦
          inl (ap hash (ground (arith, lookup-insert (hash genesis) j genesis m, hit, here)))
      | inr miss ↦
          elim (p j b (ground (arith, lookup-insert (hash genesis) j genesis m, miss, here))) [
            | inl first ↦ inl first
            | inr (inl held) ↦ inr (Holds-insert m b.h.parent_hash (hash genesis) genesis held)
            | inr (inr next) ↦ inr (rw (next ∙ e) (Holds-insert_self m (hash genesis) genesis))
          ]
    ],
    λ j b here. elim (Bool-cases (bytes_eq (hash genesis) j)) [
      | inl hit ↦ inr (
          inl (
            sym ((bytes_eq_iff (hash genesis) j).0 hit),
            ground (arith, lookup-insert (hash genesis) j genesis m, hit, here),
          ))
      | inr miss ↦ inl (ground (arith, lookup-insert (hash genesis) j genesis m, miss, here))
    ],
    rw e (Holds-insert_self m (hash genesis) genesis),
  )

  IsAncestor-below :
      (blocks : Blocks) (genesis temp : FideBlock) (j : Bytes) (b : FideBlock)
      → lookup (hash temp) blocks ≡ some temp
      → bytes_eq (hash temp) (hash genesis) ≡ false
      → IsAncestor blocks genesis temp.h.parent_hash j b
      → IsAncestor blocks genesis (hash temp) j b
  IsAncestor-below blocks genesis temp j b there later (inl first) = inl first
  IsAncestor-below blocks genesis temp j b there later (inr (found, down)) =
      inr (found, below temp there later down)

  one_more :
      (blocks : Blocks) (genesis temp : FideBlock) (ret m : Blocks)
      → lookup (hash temp) blocks ≡ some temp
      → bytes_eq (hash temp) (hash genesis) ≡ false
      → Grown blocks genesis temp.h.parent_hash (insert (hash temp) temp ret) m
      → Grown blocks genesis (hash temp) ret m
  one_more blocks genesis temp ret m there later (more, first, closed, only, _) = (
    λ k held. more k (Holds-insert ret k (hash temp) temp held),
    first,
    closed,
    λ j b found. elim (only j b found) [
      | inr up ↦ inr (IsAncestor-below blocks genesis temp j b there later up)
      | inl old ↦ elim (Bool-cases (bytes_eq (hash temp) j)) [
        | inl hit ↦
            let same : b ≡ temp = ground (arith, lookup-insert (hash temp) j temp ret, hit, old) in
            rw (← (bytes_eq_iff (hash temp) j).0 hit) (inr (inr (rw same there, itself)))
        | inr miss ↦ inl (ground (arith, lookup-insert (hash temp) j temp ret, miss, old))
      ]
    ],
    more (hash temp) (Holds-insert_self ret (hash temp) temp),
  )

  anc_loop-Lineage :
      (fuel : ℕ) (blocks : Blocks) (genesis temp : FideBlock) (ret : Blocks)
      (r : Rooted blocks genesis)
      → lookup (hash temp) blocks ≡ some temp
      → r.height (hash temp) < fuel
      → Pending genesis (hash temp) ret
      → Returns (Grown blocks genesis (hash temp) ret) (anc_loop hash fuel blocks genesis temp ret)
  unfolding anc_loop
  anc_loop-Lineage zero blocks genesis temp ret r there enough p = absurd (omega arith)
  anc_loop-Lineage (suc fuel) blocks genesis temp ret r there enough p =
      Returns-test (bytes_eq (hash temp) (hash genesis))
        (λ first.
          returns _
            (finish blocks genesis temp ret p ((bytes_eq_iff (hash temp) (hash genesis)).0 first)))
        λ later.
          let (up, found, lower) = r.parent (hash temp) temp there later in
          let name : hash up ≡ temp.h.parent_hash = r.named temp.h.parent_hash up found in
          rw found (
            Returns-weaken
              (anc_loop-Lineage fuel blocks genesis up (insert (hash temp) temp ret) r
                (rw name found) (rw name (omega (arith, lower, enough)))
                (rw name (Pending-insert genesis temp ret p)))
              λ m grown. one_more blocks genesis temp ret m there later (rw name at grown))

  -- Anc returns on a chain whose blocks lead down to the first block of the shard, for each of its
  -- blocks: with that block and all its ancestors, each as it stands in the chain under its hash, with
  -- the first block as block_gs has it, and with no other block.
  pub anc-Lineage :
      (ch : MonoChain) (k : Bytes) (b genesis : FideBlock)
      → Rooted ch.blocks genesis
      → lookup k ch.blocks ≡ some b
      → get_elem? ch.block_gs b.h.shard_idx ≡ some genesis
      → Returns (Lineage ch.blocks genesis k) (anc hash ch k)
  unfolding anc lookup
  anc-Lineage ch k b genesis r there first =
      let name : hash b ≡ k = r.named k b there in
      rw (there, first)
        (Returns-weaken
          (anc_loop-Lineage (length ch.blocks) ch.blocks genesis b [] r (rw name there)
            (rw name (r.low k b there)) (λ j x here. absurd (ground (arith, here))))
          λ m grown.
            let (_, has_first, closed, only, held) = rw name at grown in
            record {
              has_block = held;
              has_genesis = has_first;
              closed = closed;
              only = λ j x found. elim (only j x found) [
                | inl none_before ↦ absurd (ground (arith, none_before))
                | inr up ↦ up
              ];
            })
