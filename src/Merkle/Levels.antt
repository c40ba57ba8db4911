-- ===== src/Merkle/Levels.antt =====
-- GenMPTRoot ends, and its levels in closed form.
use monosulfide.Prelude.{
  ℕ, zero, suc, ◌+◌, ◌/◌, ◌%◌, ◌≤◌, ◌≡◌, refl, ◌∙◌, List, [], ◌∷◌, ◌++◌, length, ◌==◌, ok, arith,
  Bool-cases, inl, inr, lt→ltb,
}
use monosulfide.Content.{Bytes}
use monosulfide.Merkle.{last_hash, pad, merge_pairs, first_hash, root_loop}

pad_three : (x y z : Bytes) (rest : List Bytes) → pad (x ∷ y ∷ z ∷ rest) ≡ x ∷ y ∷ pad (z ∷ rest)
unfolding pad last_hash
pad_three x y z rest =
    let parity : length (x ∷ y ∷ z ∷ rest) % 2 ≡ length (z ∷ rest) % 2 = omega arith in
    elim (Bool-cases (length (z ∷ rest) % 2 == 0)) [
      | inl even ↦ rw (parity, even)
      | inr odd ↦ rw (parity, odd)
    ]

module _ (sum256 : Bytes → Bytes) where
  -- The next level: pairs, and a last hash with itself.
  abbrev pub next_level : List Bytes → List Bytes
  next_level [] = []
  next_level (x ∷ []) = sum256 (x ++ x) ∷ []
  next_level (x ∷ y ∷ rest) = sum256 (x ++ y) ∷ next_level rest

  pub merge_pairs-pad : (hs : List Bytes) → merge_pairs sum256 (pad hs) ≡ ok (next_level hs)
  unfolding merge_pairs pad last_hash
  merge_pairs-pad [] = refl
  merge_pairs-pad (x ∷ []) = refl
  merge_pairs-pad (x ∷ y ∷ []) = refl
  merge_pairs-pad (x ∷ y ∷ z ∷ rest) = rw (pad_three x y z rest, merge_pairs-pad (z ∷ rest))

  pub length-next_level : (hs : List Bytes) → length (next_level hs) ≡ (length hs + 1) / 2
  length-next_level [] = refl
  length-next_level (x ∷ []) = refl
  length-next_level (x ∷ y ∷ rest) = omega (arith, length-next_level rest)

  pub root_loop-step :
      (fuel : ℕ) (x y : Bytes) (hs : List Bytes)
      → root_loop sum256 (suc fuel) (x ∷ y ∷ hs) ≡ root_loop sum256 fuel (next_level (x ∷ y ∷ hs))
  unfolding root_loop
  root_loop-step fuel x y hs =
      rw (lt→ltb 1 (length (x ∷ y ∷ hs)) (omega arith), merge_pairs-pad (x ∷ y ∷ hs))

  pub root_loop-one : (fuel : ℕ) (x : Bytes) → root_loop sum256 (suc fuel) (x ∷ []) ≡ ok x
  unfolding root_loop first_hash
  root_loop-one fuel x = refl

  -- Any fuel from the length on gives the same root.
  pub root_loop-fuel :
      (m n : ℕ) (x : Bytes) (hs : List Bytes)
      → length (x ∷ hs) ≤ m
      → length (x ∷ hs) ≤ n
      → (r : Bytes) × (root_loop sum256 m (x ∷ hs) ≡ ok r) × (root_loop sum256 n (x ∷ hs) ≡ ok r)
  root_loop-fuel zero n x hs p q = absurd (omega arith)
  root_loop-fuel (suc m) zero x hs p q = absurd (omega arith)
  root_loop-fuel (suc m) (suc n) x [] p q = (x, root_loop-one m x, root_loop-one n x)
  root_loop-fuel (suc m) (suc n) x (y ∷ hs) p q =
      let shorter = length-next_level hs in
      let (r, a, b) =
        root_loop-fuel m n (sum256 (x ++ y)) (next_level hs) (omega arith) (omega arith) in
      (r, root_loop-step m x y hs ∙ a, root_loop-step n x y hs ∙ b)
