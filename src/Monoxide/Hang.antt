-- ===== src/Monoxide/Hang.antt =====
-- A new block under its parent leaves the blocks of a shard a tree.
use mathlib.Core.List.{Memᴰ}
use mathlib.Core.List.Memᴰ.{head, tail}
use monosulfide.Prelude.{
  ℕ, suc, ◌<◌, ◌≡◌, ◌≢◌, ◌⊎◌, ◌∙◌, refl, sym, true, false, List, [], ◌∷◌, ◌++◌, some, none, bytes,
  bytes_eq, bytes_eq_iff, bytes_eq_refl, nat_eq, length, inl, inr, arith, Bool-cases, if◌then◌else◌,
  Returns, returns, Returns-bind,
}
use monosulfide.Prelude.Maps.{lookup, lookup-insert, length-insert}
use monosulfide.Content.{Bytes}
use monosulfide.Monoxide.{RelayBlock, RelayChain, weight_of, path_of, add_block, hang}
use monosulfide.Monoxide.Branch.{same, Tree}
use monosulfide.Monoxide.Weights.{Down, Raised, add_weights-Raised}

Mem-append_one : (c x : Bytes) (xs : List Bytes) → Memᴰ c (xs ++ (x ∷ [])) → Memᴰ c xs ⊎ (c ≡ x)
Mem-append_one c x [] (head e) = inr e
Mem-append_one c x [] (tail more) = elim more [ ]
Mem-append_one c x (y ∷ ys) (head e) = inl (head e)
Mem-append_one c x (y ∷ ys) (tail more) = elim (Mem-append_one c x ys more) [
  | inl old ↦ inl (tail old)
  | inr new ↦ inr new
]

append_one-filled : (x : Bytes) (xs : List Bytes) → (xs ++ (x ∷ [])) ≢ []
append_one-filled x [] e = ground (arith, e)
append_one-filled x (y ∷ ys) e = ground (arith, e)

module _ (hash : RelayBlock → Bytes) (ch : RelayChain) (block : RelayBlock) where
  lookup-add_block :
      (k : Bytes)
      → lookup k (add_block hash ch block).blocks
        ≡ (if bytes_eq (hash block) k then some block else lookup k ch.blocks)
  unfolding add_block
  lookup-add_block k = lookup-insert (hash block) k block ch.blocks

  path_of-add_block :
      (k : Bytes)
      → path_of (add_block hash ch block) k ≡ (
          if bytes_eq block.h.parent_hash k
          then path_of ch block.h.parent_hash ++ (hash block ∷ [])
          else path_of ch k)
  unfolding add_block path_of
  path_of-add_block k = ground (
    arith,
    lookup-insert block.h.parent_hash k (path_of ch block.h.parent_hash ++ (hash block ∷ []))
        ch.path,
  )

  -- A block that can hang from its parent: it is new, and so is its hash in Path.
  pub record Hangs (genesis : RelayBlock) (t : Tree hash ch genesis) : Type 0 where
    pub parent_mine : t.mine block.h.parent_hash
    pub fresh : lookup (hash block) ch.blocks ≡ none
    pub childless : path_of ch (hash block) ≡ []

  module _ (genesis : RelayBlock) (t : Tree hash ch genesis) (hangs : Hangs genesis t) where
    abbrev pub MineAfter : Bytes → Type 0
    MineAfter k = t.mine k ⊎ (k ≡ hash block)

    unfoldable pub height_after : Bytes → ℕ
    height_after k =
        if bytes_eq (hash block) k then suc (t.height block.h.parent_hash) else t.height k

    pub mine-other : (k : Bytes) → t.mine k → bytes_eq (hash block) k ≡ false
    mine-other k mine =
        let (b, found, name) = t.held k mine in
        ground (arith, found, hangs.fresh, bytes_eq_iff (hash block) k)

    height-mine : (k : Bytes) → t.mine k → height_after k ≡ t.height k
    unfolding height_after
    height-mine k mine = ground (arith, mine-other k mine)

    height-block : height_after (hash block) ≡ suc (t.height block.h.parent_hash)
    unfolding height_after
    height-block = ground (arith, bytes_eq_refl (hash block))

    pub lookup-mine :
        (k : Bytes) → t.mine k → lookup k (add_block hash ch block).blocks ≡ lookup k ch.blocks
    lookup-mine k mine = ground (arith, lookup-add_block k, mine-other k mine)

    pub lookup-block : lookup (hash block) (add_block hash ch block).blocks ≡ some block
    lookup-block = ground (arith, lookup-add_block (hash block), bytes_eq_refl (hash block))

    pub held_after :
        (k : Bytes)
        → MineAfter k
        → (b : RelayBlock) × (lookup k (add_block hash ch block).blocks ≡ some b) × (hash b ≡ k)
    held_after k (inl mine) =
        let (b, found, name) = t.held k mine in (b, lookup-mine k mine ∙ found, name)
    held_after k (inr e) = rw e (block, lookup-block, refl)

    pub path-miss :
        (k : Bytes)
        → bytes_eq block.h.parent_hash k ≡ false
        → path_of (add_block hash ch block) k ≡ path_of ch k
    path-miss k miss = ground (arith, path_of-add_block k, miss)

    pub path-hit :
        (k : Bytes)
        → bytes_eq block.h.parent_hash k ≡ true
        → path_of (add_block hash ch block) k ≡ path_of ch block.h.parent_hash ++ (hash block ∷ [])
    path-hit k hit = ground (arith, path_of-add_block k, hit)

    pub path-block : path_of (add_block hash ch block) (hash block) ≡ []
    path-block =
        path-miss (hash block) (
          ground (
            arith,
            mine-other block.h.parent_hash hangs.parent_mine,
            bytes_eq_iff (hash block) block.h.parent_hash,
            bytes_eq_iff block.h.parent_hash (hash block),
          ))
        ∙ hangs.childless

    path-filled : (k : Bytes) → path_of ch k ≢ [] → path_of (add_block hash ch block) k ≢ []
    path-filled k full =
        rw (path_of-add_block k) (elim (Bool-cases (bytes_eq block.h.parent_hash k)) [
          | inl hit ↦ rw hit (append_one-filled (hash block) (path_of ch block.h.parent_hash))
          | inr miss ↦ rw miss full
        ])

    path-parent : path_of (add_block hash ch block) block.h.parent_hash ≢ []
    path-parent =
        rw (path_of-add_block block.h.parent_hash, bytes_eq_refl block.h.parent_hash)
          (append_one-filled (hash block) (path_of ch block.h.parent_hash))

    pub parent_after :
        (k : Bytes) (b : RelayBlock)
        → MineAfter k
        → lookup k (add_block hash ch block).blocks ≡ some b
        → bytes_eq (hash genesis) k ≡ false
        → MineAfter b.h.parent_hash
          × (height_after b.h.parent_hash < height_after k)
          × (path_of (add_block hash ch block) b.h.parent_hash ≢ [])
    parent_after k b (inl mine) found later =
        let (parent_mine, lower, full) =
          t.parent k b mine (sym (lookup-mine k mine) ∙ found) later in
        (
          inl parent_mine,
          rw (height-mine b.h.parent_hash parent_mine, height-mine k mine) lower,
          path-filled b.h.parent_hash full,
        )
    parent_after k b (inr e) found later =
        let same_block : block ≡ b = ground (arith, found, e, lookup-block) in
        rw (← same_block) (
          inl hangs.parent_mine,
          rw (e, height-block, height-mine block.h.parent_hash hangs.parent_mine) (omega arith),
          path-parent,
        )

    -- A hash in Path of a block is one that was there, or the new one under its parent.
    kid_cases :
        (k c : Bytes)
        → MineAfter k
        → Memᴰ c (path_of (add_block hash ch block) k)
        → (t.mine k × Memᴰ c (path_of ch k)) ⊎ ((c ≡ hash block) × (k ≡ block.h.parent_hash))
    kid_cases k c (inl mine) there = elim (Bool-cases (bytes_eq block.h.parent_hash k)) [
      | inl hit ↦
          let here : block.h.parent_hash ≡ k = (bytes_eq_iff block.h.parent_hash k).0 hit in
          elim (Mem-append_one c (hash block) (path_of ch block.h.parent_hash)
            (rw (path-hit k hit) at there)) [
              | inl old ↦ inl (mine, rw (← here) old)
              | inr new ↦ inr (new, sym here)
            ]
      | inr miss ↦ inl (mine, rw (path-miss k miss) at there)
    ]
    kid_cases k c (inr e) there =
        let nothing : path_of (add_block hash ch block) k ≡ [] = rw e path-block in
        let none_there : Memᴰ c [] = rw nothing at there in elim none_there [ ]

    pub block-later : bytes_eq (hash genesis) (hash block) ≡ false
    block-later = ground (
      arith,
      mine-other (hash genesis) t.first.0,
      bytes_eq_iff (hash block) (hash genesis),
      bytes_eq_iff (hash genesis) (hash block),
    )

    pub child_after :
        (k c : Bytes)
        → MineAfter k
        → Memᴰ c (path_of (add_block hash ch block) k)
        → MineAfter c
          × (height_after k < height_after c)
          × (bytes_eq (hash genesis) c ≡ false)
          × ((0 < weight_of ch c) ⊎ (c ≡ hash block))
          × ((b : RelayBlock)
              → lookup c (add_block hash ch block).blocks ≡ some b
              → b.h.parent_hash ≡ k)
    child_after k c mine there = elim (kid_cases k c mine there) [
      | inl (k_mine, old) ↦
          let (c_mine, higher, weighs, later, named) = t.child k c k_mine old in
          (
            inl c_mine,
            rw (height-mine k k_mine, height-mine c c_mine) higher,
            later,
            inl weighs,
            λ b found. named b (sym (lookup-mine c c_mine) ∙ found),
          )
      | inr (new, under) ↦
          rw (new, under)
            (
              inr refl,
              rw (height-block, height-mine block.h.parent_hash hangs.parent_mine) (omega arith),
              block-later,
              inr refl,
              λ b found.
                  let same_block : block ≡ b = ground (arith, found, lookup-block) in
                  rw (← same_block) refl,
            )
    ]

    abbrev pub down_after : Down hash (add_block hash ch block) genesis
    down_after = record {
      mine = MineAfter;
      height = height_after;
      held = held_after;
      parent = λ k b mine found later.
          let (parent_mine, lower, full) = parent_after k b mine found later in
          (parent_mine, lower);
    }

    -- The chain with the weights of Append is a tree again.
    abbrev pub hung : List (Bytes × ℕ) → RelayChain
    hung ws = record (add_block hash ch block) { weight = ws }

    length-add_block : length (add_block hash ch block).blocks ≡ suc (length ch.blocks)
    unfolding add_block
    length-add_block = ground (arith, length-insert (hash block) block ch.blocks, hangs.fresh)

    pub low_after :
        (k : Bytes) → MineAfter k → height_after k < length (add_block hash ch block).blocks
    low_after k (inl mine) = rw (height-mine k mine, length-add_block) (omega (arith, t.low k mine))
    low_after k (inr e) =
        rw (e, height-block, length-add_block)
          (omega (arith, t.low block.h.parent_hash hangs.parent_mine))

    pub weighs_after :
        (ws : List (Bytes × ℕ))
        → Raised hash (add_block hash ch block) genesis down_after block ch.weight ws
        → (c : Bytes) → bytes_eq (hash genesis) c ≡ false
        → (0 < weight_of ch c) ⊎ (c ≡ hash block)
        → 0 < weight_of (hung ws) c
    unfolding weight_of
    weighs_after ws raised c later (inl weighs) = omega (arith, (raised.0 c).0, weighs)
    weighs_after ws raised c later (inr new) = omega (arith, raised.1 c (rw new same) later)

    unfoldable pub tree_after :
        (ws : List (Bytes × ℕ))
        → Raised hash (add_block hash ch block) genesis down_after block ch.weight ws
        → Tree hash (hung ws) genesis
    unfolding path_of
    tree_after ws raised = record {
      mine = MineAfter;
      height = height_after;
      first = (inl t.first.0, lookup-mine (hash genesis) t.first.0 ∙ t.first.1);
      held = held_after;
      low = low_after;
      parent = parent_after;
      child = λ k c mine there.
          let (c_mine, higher, later, weight, named) = child_after k c mine there in
          (c_mine, higher, weighs_after ws raised c later weight, later, named);
    }

    pub hang-Raised :
        lookup block.h.nonce ch.block_gs ≡ some genesis
        → Returns
            (λ after.
              (ws : List (Bytes × ℕ)) × (after ≡ hung ws)
              × Raised hash (add_block hash ch block) genesis down_after block ch.weight ws)
            (hang hash ch block)
    unfolding hang
    hang-Raised first = rw first (
        Returns-bind _
          (add_weights-Raised hash (length (add_block hash ch block).blocks)
            (add_block hash ch block) genesis block ch.weight down_after (inr refl) lookup-block
            (low_after (hash block) (inr refl)))
          λ ws raised. returns _ (ws, refl, raised))
