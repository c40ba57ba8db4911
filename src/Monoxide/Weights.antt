-- ===== src/Monoxide/Weights.antt =====
-- The weights after Append: one more for each block on the way from the new block to the first one.
use monosulfide.Prelude.{
  ℕ, zero, suc, ◌+◌, ◌<◌, ◌≤◌, ◌≡◌, ◌∙◌, ◌⊎◌, refl, true, false, List, some, bytes, bytes_eq,
  bytes_eq_iff, bytes_eq_refl, inl, inr, arith, Returns, returns, Returns-test, Returns-weaken,
}
use monosulfide.Prelude.Maps.{lookup, insert, lookup-insert}
use monosulfide.Content.{Bytes}
use monosulfide.Monoxide.{RelayBlock, RelayChain, weight_in, add_weights}
use monosulfide.Monoxide.Branch.{Upto, same, above, Upto-next}

weight_in-insert :
    (k j : Bytes) (w : ℕ) (ws : List (Bytes × ℕ))
    → ((k ≡ j) × (weight_in (insert k w ws) j ≡ w))
      ⊎ ((bytes_eq k j ≡ false) × (weight_in (insert k w ws) j ≡ weight_in ws j))
unfolding weight_in
weight_in-insert k j w ws = ground (arith, lookup-insert k j w ws, bytes_eq_iff k j)

weight_in-insert_self :
    (k : Bytes) (w : ℕ) (ws : List (Bytes × ℕ)) → weight_in (insert k w ws) k ≡ w
unfolding weight_in
weight_in-insert_self k w ws = ground (arith, lookup-insert k k w ws, bytes_eq_refl k)

module _ (hash : RelayBlock → Bytes) where
  -- The blocks `mine` of a shard stand under their hashes and lead down to the first one.
  pub record Down (ch : RelayChain) (genesis : RelayBlock) : Type 1 where
    pub mine : Bytes → Type 0
    pub height : Bytes → ℕ
    pub held :
        (k : Bytes) → mine k → (b : RelayBlock) × (lookup k ch.blocks ≡ some b) × (hash b ≡ k)
    pub parent :
        (k : Bytes) (b : RelayBlock)
        → mine k
        → lookup k ch.blocks ≡ some b
        → bytes_eq (hash genesis) k ≡ false
        → mine b.h.parent_hash × (height b.h.parent_hash < height k)

  -- From `ws` to `ws'` no weight falls or grows by more than one, those of blocks above `temp` stay,
  -- and those that grow are those on the way from `temp` to the first block.
  abbrev pub Raised :
      (ch : RelayChain) (genesis : RelayBlock)
      → Down ch genesis
      → RelayBlock
      → List (Bytes × ℕ)
      → List (Bytes × ℕ)
      → Type 0
  Raised ch genesis d temp ws ws' =
      ((k : Bytes)
        → (weight_in ws k ≤ weight_in ws' k)
          × (weight_in ws' k ≤ weight_in ws k + 1)
          × (d.height (hash temp) < d.height k → weight_in ws' k ≡ weight_in ws k))
      × ((k : Bytes)
          → Upto ch (hash genesis) (hash temp) k
          → bytes_eq (hash genesis) k ≡ false
          → weight_in ws' k ≡ weight_in ws k + 1)
      × ((k : Bytes)
          → (weight_in ws' k ≡ weight_in ws k)
            ⊎ (Upto ch (hash genesis) (hash temp) k × (bytes_eq (hash genesis) k ≡ false)))

  Raised-start :
      (ch : RelayChain) (genesis temp : RelayBlock) (d : Down ch genesis) (ws : List (Bytes × ℕ))
      → bytes_eq (hash genesis) (hash temp) ≡ true
      → Raised ch genesis d temp ws ws
  Raised-start ch genesis temp d ws done = (
    λ k. (omega arith, omega arith, λ higher. refl),
    λ k up later. elim (Upto-next ch (hash genesis) (hash temp) k up) [
      | inl e ↦ absurd (
          ground (
            arith,
            (bytes_eq_iff (hash genesis) (hash temp)).0 done,
            e,
            later,
            bytes_eq_iff (hash genesis) k,
          ))
      | inr (b, found, further, rest) ↦ absurd (ground (arith, further, done))
    ],
    λ k. inl refl,
  )

  Raised-step :
      (ch : RelayChain) (genesis temp parent : RelayBlock) (d : Down ch genesis)
      (ws ws' : List (Bytes × ℕ))
      → lookup (hash temp) ch.blocks ≡ some temp
      → bytes_eq (hash genesis) (hash temp) ≡ false
      → hash parent ≡ temp.h.parent_hash
      → d.height temp.h.parent_hash < d.height (hash temp)
      → Raised ch genesis d parent (insert (hash temp) (weight_in ws (hash temp) + 1) ws) ws'
      → Raised ch genesis d temp ws ws'
  Raised-step ch genesis temp parent d ws ws' there further name lower (bounds, grown, only) =
      let stays : (k : Bytes)
          → d.height temp.h.parent_hash < d.height k
          → weight_in ws' k ≡ weight_in (insert (hash temp) (weight_in ws (hash temp) + 1) ws) k =
        λ k less. (bounds k).2 (rw name less) in
      let here_grown : weight_in ws' (hash temp) ≡ weight_in ws (hash temp) + 1 =
        stays (hash temp) lower
        ∙ weight_in-insert_self (hash temp) (weight_in ws (hash temp) + 1) ws in
      (
        λ k. elim (weight_in-insert (hash temp) k (weight_in ws (hash temp) + 1) ws) [
          | inl (here, value) ↦ rw (← here) (
            omega (arith, here_grown),
            omega (arith, here_grown),
            λ higher. absurd (omega (arith, higher)),
          )
          | inr (other, value) ↦ (
            omega (arith, value, (bounds k).0),
            omega (arith, value, (bounds k).1),
            λ higher. stays k (omega (arith, higher, lower)) ∙ value,
          )
        ],
        λ k up later. elim (Upto-next ch (hash genesis) (hash temp) k up) [
          | inl here ↦ rw (← here) here_grown
          | inr (b, found, _, rest) ↦
              let same_block : b ≡ temp = ground (arith, found, there) in
              let grows = grown k (rw (name, ← same_block) rest) later in
              elim (weight_in-insert (hash temp) k (weight_in ws (hash temp) + 1) ws) [
                | inl (here, value) ↦ rw (← here) here_grown
                | inr (other, value) ↦ omega (arith, grows, value)
              ]
        ],
        λ k. elim (weight_in-insert (hash temp) k (weight_in ws (hash temp) + 1) ws) [
          | inl (here, value) ↦ rw (← here) (inr (same, further))
          | inr (other, value) ↦ elim (only k) [
            | inl stayed ↦ inl (stayed ∙ value)
            | inr (up, later) ↦ inr (above temp there further (rw name at up), later)
          ]
        ],
      )

  pub add_weights-Raised :
      (fuel : ℕ) (ch : RelayChain) (genesis temp : RelayBlock) (ws : List (Bytes × ℕ))
      (d : Down ch genesis)
      → d.mine (hash temp)
      → lookup (hash temp) ch.blocks ≡ some temp
      → d.height (hash temp) < fuel
      → Returns (Raised ch genesis d temp ws) (add_weights hash fuel ch genesis temp ws)
  unfolding add_weights
  add_weights-Raised zero ch genesis temp ws d mine there enough = absurd (omega (arith, enough))
  add_weights-Raised (suc fuel) ch genesis temp ws d mine there enough =
      Returns-test (bytes_eq (hash genesis) (hash temp))
        (λ done. returns ws (Raised-start ch genesis temp d ws done))
        λ further.
          let (parent_mine, lower) = d.parent (hash temp) temp mine there further in
          let (parent, found, name) = d.held temp.h.parent_hash parent_mine in
          rw found (
            Returns-weaken
              (add_weights-Raised fuel ch genesis parent
                (insert (hash temp) (weight_in ws (hash temp) + 1) ws) d (rw name parent_mine)
                (rw name found) (rw name (omega (arith, lower, enough))))
              λ ws' raised.
                Raised-step ch genesis temp parent d ws ws' there further name lower raised)
