-- ===== src/Merkle/Tests.antt =====
-- A digest of one byte, which has collisions.
use monosulfide.Prelude.{ℕ, ◌%◌, ◌+◌, [], ◌∷◌, ◌≡◌, ◌⊎◌, refl, arith}
use monosulfide.Content.{Bytes}
use monosulfide.Merkle.{last_hash, gen_mpt_root, root_loop, merge_pairs, pad, first_hash}
use monosulfide.Merkle.Binding.{Collision, gen_mpt_root_binds, gen_mpt_root_repeat}

abbrev byte_sum : Bytes → ℕ
byte_sum [] = 0
byte_sum (b ∷ s) = (b + byte_sum s) % 256

abbrev checksum : Bytes → Bytes
checksum s = byte_sum s ∷ []

abbrev leaf : ℕ → Bytes
leaf n = n ∷ []

-- The two lists have one root, and the inputs of the digest collide.
same_roots :
    gen_mpt_root checksum (leaf 1 ∷ leaf 2 ∷ []) ≡ gen_mpt_root checksum (leaf 2 ∷ leaf 1 ∷ [])
unfolding gen_mpt_root root_loop merge_pairs pad last_hash first_hash
same_roots = refl

gen_mpt_root_binds_example : (leaf 1 ∷ leaf 2 ∷ [] ≡ leaf 2 ∷ leaf 1 ∷ []) ⊎ Collision checksum
gen_mpt_root_binds_example =
    gen_mpt_root_binds checksum 1 (λ x. refl) (leaf 1 ∷ leaf 2 ∷ []) (leaf 2 ∷ leaf 1 ∷ [])
      (refl, (refl, tt)) (refl, (refl, tt)) refl same_roots

gen_mpt_root_repeat_example :
    gen_mpt_root checksum (leaf 1 ∷ leaf 2 ∷ leaf 3 ∷ leaf 3 ∷ [])
    ≡ gen_mpt_root checksum (leaf 1 ∷ leaf 2 ∷ leaf 3 ∷ [])
unfolding last_hash
gen_mpt_root_repeat_example =
    gen_mpt_root_repeat checksum (leaf 1) (leaf 2) (leaf 3) [] (omega arith)
