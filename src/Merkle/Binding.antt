-- ===== src/Merkle/Binding.antt =====
-- What a Merkle root says of the list behind it.
use monosulfide.Prelude.{
  ℕ, zero, suc, ◌%◌, ◌≤◌, ◌≡◌, ◌≢◌, ◌⊎◌, inl, inr, refl, sym, ◌∙◌, ap, List, [], ◌∷◌, ◌++◌, length,
  length-append, ok, arith, Bool-cases, bytes_eq, bytes_eq_iff, All,
}
use monosulfide.Content.{Bytes}
use monosulfide.Merkle.{last_hash, root_loop, gen_mpt_root}
use monosulfide.Merkle.Levels.{
  next_level, length-next_level, root_loop-step, root_loop-one, root_loop-fuel,
}

Bytes-cases : (a b : Bytes) → (a ≡ b) ⊎ (a ≢ b)
Bytes-cases a b = elim (Bool-cases (bytes_eq a b)) [
  | inl same ↦ inl ((bytes_eq_iff a b).0 same)
  | inr other ↦ inr (λ e. cc ((bytes_eq_iff a b).1 e, other))
]

append_split : (a b c d : Bytes) → length a ≡ length b → a ++ c ≡ b ++ d → (a ≡ b) × (c ≡ d)
append_split [] [] c d l e = (refl, e)
append_split [] (y ∷ b) c d l e = absurd (omega arith)
append_split (x ∷ a) [] c d l e = absurd (omega arith)
append_split (x ∷ a) (y ∷ b) c d l e =
    let head : x ≡ y = cc in
    let tail : a ++ c ≡ b ++ d = cc in
    let (same, rest) = append_split a b c d (omega arith) tail in ((λ i. head i ∷ same i), rest)

module _ (sum256 : Bytes → Bytes) where
  -- Two different inputs with one hash.
  abbrev pub Collision : Type 0
  Collision = (a : Bytes) × (b : Bytes) × (a ≢ b) × (sum256 a ≡ sum256 b)

  sum256-cases : (a b : Bytes) → sum256 a ≡ sum256 b → (a ≡ b) ⊎ Collision
  sum256-cases a b e = elim (Bytes-cases a b) [
    | inl same ↦ inl same
    | inr other ↦ inr (a, b, other, e)
  ]

  pair_binds :
      (w : ℕ) (a b c d : Bytes)
      → length a ≡ w
      → length b ≡ w
      → sum256 (a ++ c) ≡ sum256 (b ++ d)
      → ((a ≡ b) × (c ≡ d)) ⊎ Collision
  pair_binds w a b c d la lb e = elim (sum256-cases (a ++ c) (b ++ d) e) [
    | inl same ↦ inl (append_split a b c d (omega arith) same)
    | inr found ↦ inr found
  ]

  next_level_binds :
      (w : ℕ) (xs ys : List Bytes)
      → All (λ x. length x ≡ w) xs
      → All (λ x. length x ≡ w) ys
      → length xs ≡ length ys
      → next_level sum256 xs ≡ next_level sum256 ys
      → (xs ≡ ys) ⊎ Collision
  next_level_binds w [] [] hx hy l e = inl refl
  next_level_binds w [] (y ∷ ys) hx hy l e = absurd (omega arith)
  next_level_binds w (x ∷ xs) [] hx hy l e = absurd (omega arith)
  next_level_binds w (x ∷ []) (y ∷ []) hx hy l e = elim (pair_binds w x y x y hx.0 hy.0 (cc)) [
    | inl same ↦ inl (λ i. same.0 i ∷ [])
    | inr found ↦ inr found
  ]
  next_level_binds w (x ∷ []) (y ∷ y' ∷ ys) hx hy l e = absurd (omega arith)
  next_level_binds w (x ∷ x' ∷ xs) (y ∷ []) hx hy l e = absurd (omega arith)
  next_level_binds w (x ∷ x' ∷ xs) (y ∷ y' ∷ ys) hx hy l e =
      join (pair_binds w x y x' y' hx.0 hy.0 (cc))
        (next_level_binds w xs ys hx.1.1 hy.1.1 (omega arith) (cc))
    where
      join :
          ((x ≡ y) × (x' ≡ y')) ⊎ Collision
          → (xs ≡ ys) ⊎ Collision
          → (◌≡◌ {A = List Bytes} (x ∷ x' ∷ xs) (y ∷ y' ∷ ys)) ⊎ Collision
      join (inl (p, q)) (inl r) = inl (λ i. p i ∷ q i ∷ r i)
      join (inl _) (inr found) = inr found
      join (inr found) _ = inr found

  All-next_level :
      (w : ℕ)
      → ((x : Bytes) → length (sum256 x) ≡ w)
      → (hs : List Bytes) → All (λ x. length x ≡ w) (next_level sum256 hs)
  All-next_level w size [] = tt
  All-next_level w size (x ∷ []) = (size (x ++ x), tt)
  All-next_level w size (x ∷ y ∷ hs) = (size (x ++ y), All-next_level w size hs)

  root_loop_binds :
      (w fuel : ℕ)
      → ((x : Bytes) → length (sum256 x) ≡ w)
      → (xs ys : List Bytes) → All (λ x. length x ≡ w) xs
      → All (λ x. length x ≡ w) ys
      → length xs ≡ length ys
      → length xs ≤ fuel
      → root_loop sum256 fuel xs ≡ root_loop sum256 fuel ys
      → (xs ≡ ys) ⊎ Collision
  root_loop_binds w fuel size [] [] hx hy l f e = inl refl
  root_loop_binds w fuel size [] (y ∷ ys) hx hy l f e = absurd (omega arith)
  root_loop_binds w fuel size (x ∷ xs) [] hx hy l f e = absurd (omega arith)
  root_loop_binds w zero size (x ∷ xs) (y ∷ ys) hx hy l f e = absurd (omega arith)
  root_loop_binds w (suc fuel) size (x ∷ []) (y ∷ []) hx hy l f e =
      let both : ok x ≡ ok y =
        sym (root_loop-one sum256 fuel x) ∙ e ∙ root_loop-one sum256 fuel y in
      let same : x ≡ y = cc in inl (λ i. same i ∷ [])
  root_loop_binds w (suc fuel) size (x ∷ []) (y ∷ y' ∷ ys) hx hy l f e = absurd (omega arith)
  root_loop_binds w (suc fuel) size (x ∷ x' ∷ xs) (y ∷ []) hx hy l f e = absurd (omega arith)
  root_loop_binds w (suc fuel) size (x ∷ x' ∷ xs) (y ∷ y' ∷ ys) hx hy l f e =
      let down = length-next_level sum256 xs in
      let down' = length-next_level sum256 ys in
      let next =
        sym (root_loop-step sum256 fuel x x' xs) ∙ e ∙ root_loop-step sum256 fuel y y' ys in
      elim (root_loop_binds w fuel size (next_level sum256 (x ∷ x' ∷ xs))
        (next_level sum256 (y ∷ y' ∷ ys)) (All-next_level w size (x ∷ x' ∷ xs))
        (All-next_level w size (y ∷ y' ∷ ys)) (omega arith) (omega arith) next) [
          | inl same ↦ next_level_binds w (x ∷ x' ∷ xs) (y ∷ y' ∷ ys) hx hy l same
          | inr found ↦ inr found
        ]

  -- GenMPTRoot ends with a root on every list.
  pub gen_mpt_root_total : (hs : List Bytes) → (r : Bytes) × (gen_mpt_root sum256 hs ≡ ok r)
  unfolding gen_mpt_root
  gen_mpt_root_total [] = ([], refl)
  gen_mpt_root_total (x ∷ hs) =
      let (r, e, _) =
        root_loop-fuel sum256 (length (x ∷ hs)) (length (x ∷ hs)) x hs (omega arith)
          (omega arith) in
      (r, e)

  -- Two lists of the same length, of hashes of one width, have the same root only if they are the
  -- same list, or if two different inputs of sum256 with one hash are at hand.
  pub gen_mpt_root_binds :
      (w : ℕ)
      → ((x : Bytes) → length (sum256 x) ≡ w)
      → (xs ys : List Bytes) → All (λ x. length x ≡ w) xs
      → All (λ x. length x ≡ w) ys
      → length xs ≡ length ys
      → gen_mpt_root sum256 xs ≡ gen_mpt_root sum256 ys
      → (xs ≡ ys) ⊎ Collision
  unfolding gen_mpt_root
  gen_mpt_root_binds w size [] [] hx hy l e = inl refl
  gen_mpt_root_binds w size [] (y ∷ ys) hx hy l e = absurd (omega arith)
  gen_mpt_root_binds w size (x ∷ xs) [] hx hy l e = absurd (omega arith)
  gen_mpt_root_binds w size (x ∷ xs) (y ∷ ys) hx hy l e =
      root_loop_binds w (length (x ∷ xs)) size (x ∷ xs) (y ∷ ys) hx hy l (omega arith)
        (e ∙ ap (λ n. root_loop sum256 n (y ∷ ys)) (sym l))

  next_level_repeat :
      (x : Bytes) (hs : List Bytes)
      → length (x ∷ hs) % 2 ≡ 1
      → next_level sum256 (x ∷ hs ++ last_hash x hs ∷ []) ≡ next_level sum256 (x ∷ hs)
  unfolding last_hash
  next_level_repeat x [] odd = refl
  next_level_repeat x (y ∷ []) odd = absurd (omega arith)
  next_level_repeat x (y ∷ z ∷ hs) odd =
      ap (◌∷◌ (sum256 (x ++ y))) (next_level_repeat z hs (omega arith))

  -- A list of odd length, three at least, has the root of the longer list that repeats its last
  -- entry: the root does not tell the two apart.
  pub gen_mpt_root_repeat :
      (x y z : Bytes) (hs : List Bytes)
      → length (z ∷ hs) % 2 ≡ 1
      → gen_mpt_root sum256 (x ∷ y ∷ z ∷ hs ++ last_hash z hs ∷ [])
        ≡ gen_mpt_root sum256 (x ∷ y ∷ z ∷ hs)
  unfolding gen_mpt_root
  gen_mpt_root_repeat x y z hs odd =
      let long : List Bytes = z ∷ hs ++ last_hash z hs ∷ [] in
      let size : length long ≡ suc (length (z ∷ hs)) =
        omega (arith, length-append hs (last_hash z hs ∷ [])) in
      let same = next_level_repeat z hs odd in
      let down = length-next_level sum256 (z ∷ hs) in
      let (r, a, b) =
        root_loop-fuel sum256 (suc (suc (length (z ∷ hs)))) (suc (length (z ∷ hs)))
          (sum256 (x ++ y)) (next_level sum256 (z ∷ hs)) (omega arith) (omega arith) in
      ap (λ n. root_loop sum256 n (x ∷ y ∷ long)) (ap (λ n. suc (suc n)) size)
      ∙ root_loop-step sum256 (suc (suc (length (z ∷ hs)))) x y long
      ∙ ap (λ t. root_loop sum256 (suc (suc (length (z ∷ hs)))) (sum256 (x ++ y) ∷ t)) same
      ∙ a
      ∙ sym b
      ∙ sym (root_loop-step sum256 (suc (length (z ∷ hs))) x y (z ∷ hs))
