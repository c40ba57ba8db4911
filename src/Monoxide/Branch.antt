-- ===== src/Monoxide/Branch.antt =====
-- The blocks of one shard as a tree over its first block, and the path of the top in it.
use mathlib.Core.List.{Memᴰ}
use monosulfide.Prelude.{
  ℕ, zero, suc, ◌<◌, ◌≡◌, ◌∙◌, refl, ◌≢◌, ◌⊎◌, true, false, Bool, List, [], some, bytes, bytes_eq,
  bytes_eq_iff, length, Bool-cases, inl, inr, arith, Returns, returns, Returns-test, if◌then◌else◌,
}
use monosulfide.Prelude.Maps.{lookup, insert, lookup-insert}
use monosulfide.Content.{Bytes}
use monosulfide.Monoxide.{RelayBlock, RelayChain, weight_of, path_of, on_path, mark_path}

-- The block `a` is the block `k` or one of its ancestors, down to the first block `root`.
pub data Upto (ch : RelayChain) (root : Bytes) : Bytes → Bytes → Type 0 where
  same : {k : Bytes} → Upto ch root k k
  above :
      {k a : Bytes} (b : RelayBlock)
      → lookup k ch.blocks ≡ some b
      → bytes_eq root k ≡ false
      → Upto ch root b.h.parent_hash a
      → Upto ch root k a

pub Upto-parent :
    (ch : RelayChain) (root k a : Bytes) (b : RelayBlock)
    → Upto ch root k a
    → lookup a ch.blocks ≡ some b
    → bytes_eq root a ≡ false
    → Upto ch root k b.h.parent_hash
Upto-parent ch root k a b same found later = above b found later same
Upto-parent ch root k a b (above c up later' rest) found later =
    above c up later' (Upto-parent ch root c.h.parent_hash a b rest found later)

pub Upto-next :
    (ch : RelayChain) (root k a : Bytes)
    → Upto ch root k a
    → (k ≡ a)
      ⊎ ((b : RelayBlock) × (lookup k ch.blocks ≡ some b)
          × (bytes_eq root k ≡ false)
          × Upto ch root b.h.parent_hash a)
Upto-next ch root k a same = inl refl
Upto-next ch root k a (above b found later rest) = inr (b, found, later, rest)

on_path-insert :
    (k j : Bytes) (curr : List (Bytes × Bool))
    → on_path (insert k true curr) j ≡ (if bytes_eq k j then true else on_path curr j)
unfolding on_path
on_path-insert k j curr = ground (arith, lookup-insert k j true curr)

module _ (hash : RelayBlock → Bytes) where
  -- The blocks `mine` of a shard are a tree: each stands under its hash, each but the first hangs
  -- from its parent, at a greater height, among the hashes of Path of its parent, and each hash there
  -- is a block of the tree with some weight that names this parent. The heights are below the number
  -- of the blocks.
  pub record Tree (ch : RelayChain) (genesis : RelayBlock) : Type 1 where
    pub mine : Bytes → Type 0
    pub height : Bytes → ℕ
    pub first : mine (hash genesis) × (lookup (hash genesis) ch.blocks ≡ some genesis)
    pub held :
        (k : Bytes) → mine k → (b : RelayBlock) × (lookup k ch.blocks ≡ some b) × (hash b ≡ k)
    pub low : (k : Bytes) → mine k → height k < length ch.blocks
    pub parent :
        (k : Bytes) (b : RelayBlock)
        → mine k
        → lookup k ch.blocks ≡ some b
        → bytes_eq (hash genesis) k ≡ false
        → mine b.h.parent_hash
          × (height b.h.parent_hash < height k)
          × (path_of ch b.h.parent_hash ≢ [])
    pub child :
        (k c : Bytes)
        → mine k
        → Memᴰ c (path_of ch k)
        → mine c
          × (height k < height c)
          × (0 < weight_of ch c)
          × (bytes_eq (hash genesis) c ≡ false)
          × ((b : RelayBlock) → lookup c ch.blocks ≡ some b → b.h.parent_hash ≡ k)

  -- The marks that the first loop of findTop leaves on the path of a block: each is on a block that
  -- is `top` or has children, and `top` descends from it.
  abbrev pub Marked : RelayChain → Bytes → Bytes → List (Bytes × Bool) → Type 0
  Marked ch root top curr =
      (k : Bytes) → on_path curr k ≡ true → Upto ch root top k × ((k ≡ top) ⊎ (path_of ch k ≢ []))

  -- Each block on the way from `top` to `k` and further down is marked, or is `k` or below it.
  abbrev Passed : RelayChain → Bytes → Bytes → Bytes → List (Bytes × Bool) → Type 0
  Passed ch root top k curr =
      (j : Bytes) → Upto ch root top j → (on_path curr j ≡ true) ⊎ Upto ch root k j

  Passed-next :
      (ch : RelayChain) (root top : Bytes) (temp parent : RelayBlock) (curr : List (Bytes × Bool))
      → lookup (hash temp) ch.blocks ≡ some temp
      → hash parent ≡ temp.h.parent_hash
      → Passed ch root top (hash temp) curr
      → Passed ch root top (hash parent) (insert (hash temp) true curr)
  Passed-next ch root top temp parent curr there name passed j up = elim (passed j up) [
    | inl on ↦ inl (ground (arith, on_path-insert (hash temp) j curr, on))
    | inr down ↦ elim (Upto-next ch root (hash temp) j down) [
      | inl here ↦
          inl
            (ground (arith, on_path-insert (hash temp) j curr, (bytes_eq_iff (hash temp) j).1 here))
      | inr (b, found, later, rest) ↦
          let same_block : b ≡ temp = ground (arith, found, there) in
          inr (rw (name, ← same_block) rest)
    ]
  ]

  Passed-end :
      (ch : RelayChain) (root top k : Bytes) (curr : List (Bytes × Bool))
      → bytes_eq root k ≡ true
      → Passed ch root top k curr
      → (j : Bytes) → Upto ch root top j
      → (on_path curr j ≡ true) ⊎ (root ≡ j)
  Passed-end ch root top k curr done passed j up = elim (passed j up) [
    | inl on ↦ inl on
    | inr down ↦ elim (Upto-next ch root k j down) [
      | inl here ↦ inr ((bytes_eq_iff root k).0 done ∙ here)
      | inr (b, found, later, rest) ↦ absurd (ground (arith, later, done))
    ]
  ]

  insert-Marked :
      (ch : RelayChain) (root top k : Bytes) (curr : List (Bytes × Bool))
      → Upto ch root top k
      → (k ≡ top) ⊎ (path_of ch k ≢ [])
      → Marked ch root top curr
      → Marked ch root top (insert k true curr)
  insert-Marked ch root top k curr up leaf marked j on = elim (Bool-cases (bytes_eq k j)) [
    | inl hit ↦ rw (← (bytes_eq_iff k j).0 hit) (up, leaf)
    | inr miss ↦ marked j (ground (arith, on_path-insert k j curr, miss, on))
  ]

  pub mark_path-Marked :
      (fuel : ℕ) (ch : RelayChain) (genesis temp : RelayBlock) (top : Bytes)
      (curr : List (Bytes × Bool)) (t : Tree ch genesis)
      → t.mine (hash temp)
      → lookup (hash temp) ch.blocks ≡ some temp
      → t.height (hash temp) < fuel
      → Upto ch (hash genesis) top (hash temp)
      → (hash temp ≡ top) ⊎ (path_of ch (hash temp) ≢ [])
      → Marked ch (hash genesis) top curr
      → Passed ch (hash genesis) top (hash temp) curr
      → Returns
          (λ marks.
            Marked ch (hash genesis) top marks
            × ((j : Bytes)
                → Upto ch (hash genesis) top j
                → (on_path marks j ≡ true) ⊎ (hash genesis ≡ j))
            × Upto ch (hash genesis) top (hash genesis)
            × ((hash genesis ≡ top) ⊎ (path_of ch (hash genesis) ≢ [])))
          (mark_path hash fuel ch genesis temp curr)
  unfolding mark_path
  mark_path-Marked zero ch genesis temp top curr t mine there enough up leaf marked passed =
      absurd (omega (arith, enough))
  mark_path-Marked (suc fuel) ch genesis temp top curr t mine there enough up leaf marked passed =
      Returns-test (bytes_eq (hash genesis) (hash temp))
        (λ done. returns curr (
          marked,
          Passed-end ch (hash genesis) top (hash temp) curr done passed,
          rw (← (bytes_eq_iff (hash genesis) (hash temp)).0 done) at up,
          rw ((bytes_eq_iff (hash genesis) (hash temp)).0 done) leaf,
        ))
        λ further.
          let (parent_mine, lower, hangs) = t.parent (hash temp) temp mine there further in
          let (parent, found, name) = t.held temp.h.parent_hash parent_mine in
          rw found (
            mark_path-Marked fuel ch genesis parent top (insert (hash temp) true curr) t
              (rw name parent_mine) (rw name found) (rw name (omega (arith, lower, enough)))
              (rw name (Upto-parent ch (hash genesis) top (hash temp) temp up there further))
              (rw name (inr hangs))
              (insert-Marked ch (hash genesis) top (hash temp) curr up leaf marked)
              (Passed-next ch (hash genesis) top temp parent curr there name passed))
