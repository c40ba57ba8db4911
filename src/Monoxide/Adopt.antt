-- ===== src/Monoxide/Adopt.antt =====
-- A block that extends the heaviest branch is the end of the heaviest branch.
use mathlib.Core.List.{Memᴰ}
use mathlib.Core.List.Memᴰ.{head, tail}
use monosulfide.Prelude.{
  ℕ, ◌≤◌, ◌≡◌, ◌∙◌, refl, ap, List, [], ◌∷◌, ◌++◌, bytes, bytes_eq, bytes_eq_iff, bytes_eq_refl,
  nat_eq, inl, inr, arith, Bool-cases,
}
use monosulfide.Content.{Bytes}
use monosulfide.Monoxide.{RelayBlock, RelayChain, weight_in, weight_of, path_of, add_block}
use monosulfide.Monoxide.Pick.{Heaviest}
use monosulfide.Monoxide.Branch.{Upto, same, above, Upto-parent, Tree}
use monosulfide.Monoxide.Ghost.{Ghost, leaf, heavier}
use monosulfide.Monoxide.Weights.{Raised}
use monosulfide.Monoxide.Hang.{
  Hangs, hung, down_after, lookup-mine, lookup-block, block-later, path-miss, path-hit, path-block,
}

Ghost-end : (ch : RelayChain) (k t : Bytes) → Ghost ch k t → path_of ch t ≡ []
Ghost-end ch k t (leaf end) = end
Ghost-end ch k t (heavier {c = c} best rest) = Ghost-end ch c t rest

module _ (hash : RelayBlock → Bytes) (ch : RelayChain) (genesis : RelayBlock)
    (t : Tree hash ch genesis) where
  Ghost-Upto : (k top : Bytes) → t.mine k → Ghost ch k top → Upto ch (hash genesis) top k
  Ghost-Upto k top mine (leaf end) = same
  Ghost-Upto k top mine (heavier {c = c} best rest) =
      let (c_mine, higher, weighs, later, named) = t.child k c mine best.0 in
      let (b, found, name) = t.held c c_mine in
      rw (← named b found)
        (Upto-parent ch (hash genesis) top c b (Ghost-Upto c top c_mine rest) found later)

  module _ (block : RelayBlock) (hangs : Hangs hash ch block genesis t) where
    Upto-add_block :
        (k a : Bytes)
        → t.mine k
        → Upto ch (hash genesis) k a
        → Upto (add_block hash ch block) (hash genesis) k a
    Upto-add_block k a mine same = same
    Upto-add_block k a mine (above b found later rest) =
        above b (lookup-mine hash ch block genesis t hangs k mine ∙ found) later
          (Upto-add_block b.h.parent_hash a (t.parent k b mine found later).0 rest)

    module _ (ws : List (Bytes × ℕ))
        (raised : Raised hash
          (add_block hash ch block)
          genesis
          (down_after hash ch block genesis t hangs)
          block
          ch.weight
          ws) where
      Heaviest-raised :
          (k c : Bytes)
          → t.mine k
          → Heaviest ch (path_of ch k) c
          → Upto ch (hash genesis) block.h.parent_hash c
          → ((h : Bytes) → Memᴰ h (path_of ch k) → weight_in ws h ≤ weight_in ws c)
      unfolding weight_of
      Heaviest-raised k c mine best up h there =
          let later = (t.child k c mine best.0).3 in
          let grown =
            raised.1 c
              (above block (lookup-block hash ch block genesis t hangs)
                (block-later hash ch block genesis t hangs)
                (Upto-add_block block.h.parent_hash c hangs.parent_mine up))
              later in
          omega (arith, best.1 h there, (raised.0 h).1, grown)

      -- A block of the branch that is not its end keeps its children.
      inner-path :
          (k c : Bytes)
          → Memᴰ c (path_of ch k)
          → path_of ch block.h.parent_hash ≡ []
          → path_of (add_block hash ch block) k ≡ path_of ch k
      inner-path k c there end = elim (Bool-cases (bytes_eq block.h.parent_hash k)) [
        | inl hit ↦
            let nothing : path_of ch k ≡ [] =
              rw ((bytes_eq_iff block.h.parent_hash k).0 hit) at end in
            let none_there : Memᴰ c [] = rw nothing at there in elim none_there [ ]
        | inr miss ↦ path-miss hash ch block genesis t hangs k miss
      ]

      end-path :
          path_of ch block.h.parent_hash ≡ []
          → path_of (add_block hash ch block) block.h.parent_hash ≡ hash block ∷ []
      end-path end =
          path-hit hash ch block genesis t hangs block.h.parent_hash
            (bytes_eq_refl block.h.parent_hash)
          ∙ ap (λ hs. hs ++ (hash block ∷ [])) end

      only-Heaviest : (after : RelayChain) (h : Bytes) → Heaviest after (h ∷ []) h
      only-Heaviest after h =
          (head refl, λ k m. elim m [ head e ↦ rw e (omega arith) | tail more ↦ elim more [ ] ])

      -- The block extends the heaviest branch.
      pub Ghost-extend :
          (k : Bytes)
          → Ghost ch k block.h.parent_hash
          → t.mine k
          → Ghost (hung hash ch block genesis t hangs ws) k (hash block)
      unfolding path_of weight_of
      Ghost-extend k (leaf end) mine =
          heavier {c = hash block}
            (rw (end-path end) (only-Heaviest (hung hash ch block genesis t hangs ws) (hash block)))
            (leaf (path-block hash ch block genesis t hangs))
      Ghost-extend k (heavier {c = c} best rest) mine =
          let end = Ghost-end ch c block.h.parent_hash rest in
          let c_mine = (t.child k c mine best.0).0 in
          heavier {c = c}
            (rw (inner-path k c best.0 end) (
              best.0,
              Heaviest-raised k c mine best (Ghost-Upto c block.h.parent_hash c_mine rest),
            ))
            (Ghost-extend c rest c_mine)
