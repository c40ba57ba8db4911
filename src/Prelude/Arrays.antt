-- ===== src/Prelude/Arrays.antt =====
-- Slices that a loop indexes: reads with a default, and the exchange of two entries.
use mathlib.Core.Logic.{∥∥₁_elim}
use native.Mathlib.Nat.{ℕ_set}
use mathlib.Core.List.{Perm, Permᴰ, Mem, not-mem-nil, mem-cons}
use mathlib.Core.List.Perm
use mathlib.Core.Logic.Or
use native.Mathlib.Bridge.{le_prop}
use Prim.Native.Nat.{ℕ, zero, suc, ◌≤◌, ◌<◌}
use mathlib.Core.Path.{◌≡◌, refl, ap, ◌∙◌}
use mathlib.Core.List.{List, [], ◌∷◌, ◌++◌}
use mathlib.Core.Option.{some}
use native.Mathlib.Omega.{arith}
use monosulfide.Prelude.Tests.{◌==◌, if◌then◌else◌}
use monosulfide.Prelude.Lists.{length, get_elem?, set, take, length-set}

module _ {ℓ} {A : Type ℓ} where
  abbrev pub get_or : List A → ℕ → A → A
  get_or [] i d = d
  get_or (x ∷ xs) zero d = x
  get_or (x ∷ xs) (suc i) d = get_or xs i d

  pub get_elem?-get_or :
      (xs : List A) (i : ℕ) (d : A) → i < length xs → get_elem? xs i ≡ some (get_or xs i d)
  get_elem?-get_or [] i d h = absurd (omega arith)
  get_elem?-get_or (x ∷ xs) zero d h = refl
  get_elem?-get_or (x ∷ xs) (suc i) d h = get_elem?-get_or xs i d (omega arith)

  pub get_or-set :
      (xs : List A) (i j : ℕ) (v d : A)
      → i < length xs
      → get_or (set xs i v) j d ≡ (if i == j then v else get_or xs j d)
  get_or-set [] i j v d h = absurd (omega arith)
  get_or-set (x ∷ xs) zero zero v d h = refl
  get_or-set (x ∷ xs) zero (suc j) v d h = ground arith
  get_or-set (x ∷ xs) (suc i) zero v d h = ground arith
  get_or-set (x ∷ xs) (suc i) (suc j) v d h = ground (arith, get_or-set xs i j v d)

  pub get_or-append :
      (xs ys : List A) (i : ℕ) (d : A) → i < length xs → get_or (xs ++ ys) i d ≡ get_or xs i d
  get_or-append [] ys i d h = absurd (omega arith)
  get_or-append (x ∷ xs) ys zero d h = refl
  get_or-append (x ∷ xs) ys (suc i) d h = get_or-append xs ys i d (omega arith)

  pub get_or-take :
      (n : ℕ) (xs : List A) (i : ℕ) (d : A) → i < n → get_or (take n xs) i d ≡ get_or xs i d
  get_or-take zero xs i d h = absurd (omega arith)
  get_or-take (suc n) [] i d h = refl
  get_or-take (suc n) (x ∷ xs) zero d h = refl
  get_or-take (suc n) (x ∷ xs) (suc i) d h = get_or-take n xs i d (omega arith)

  -- The entry at `i` changes places with a new one.
  pub set-perm :
      (xs : List A) (i : ℕ) (v d : A) → i < length xs → Perm (get_or xs i d ∷ set xs i v) (v ∷ xs)
  set-perm [] i v d h = absurd (omega arith)
  set-perm (x ∷ xs) zero v d h = Perm.swap v x xs
  set-perm (x ∷ xs) (suc i) v d h =
      Perm.trans (Perm.swap x (get_or xs i d) (set xs i v))
        (Perm.trans (Perm.cons x (set-perm xs i v d (omega arith))) (Perm.swap v x xs))

  pub length-take_of_le : (n : ℕ) (xs : List A) → n ≤ length xs → length (take n xs) ≡ n
  length-take_of_le zero xs h = refl
  length-take_of_le (suc n) [] h = absurd (omega arith)
  length-take_of_le (suc n) (x ∷ xs) h = ap suc (length-take_of_le n xs (omega arith))

  -- A list without its last entry, and that entry.
  pub take-last :
      (n : ℕ) (xs : List A) (d : A) → length xs ≡ suc n → take n xs ++ get_or xs n d ∷ [] ≡ xs
  take-last n [] d h = absurd (omega arith)
  take-last zero (x ∷ []) d h = refl
  take-last zero (x ∷ y ∷ xs) d h = absurd (omega arith)
  take-last (suc n) (x ∷ xs) d h = ap (◌∷◌ x) (take-last n xs d (omega arith))

  Permᴰ-length : {xs ys : List A} → Permᴰ xs ys → length xs ≡ length ys
  Permᴰ-length Permᴰ.nil = refl
  Permᴰ-length (Permᴰ.cons x p) = ap suc (Permᴰ-length p)
  Permᴰ-length (Permᴰ.swap x y) = refl
  Permᴰ-length (Permᴰ.trans p q) = Permᴰ-length p ∙ Permᴰ-length q

  pub length-perm : {xs ys : List A} → Perm xs ys → length xs ≡ length ys
  length-perm p = ∥∥₁_elim p (ℕ_set _ _) Permᴰ-length

  -- A bound on every entry that an index reads is a bound on every member.
  pub le_of_mem :
      (f : A → ℕ) (b : ℕ) (d : A) (xs : List A)
      → ((i : ℕ) → i < length xs → b ≤ f (get_or xs i d))
      → (x : A) → Mem x xs
      → b ≤ f x
  le_of_mem f b d [] h x m = absurd (not-mem-nil m)
  le_of_mem f b d (y ∷ ys) h x m =
      Or.elim le_prop (mem-cons.0 m) (λ e. rw e (h 0 (omega arith)))
        (le_of_mem f b d ys (λ i p. h (suc i) (omega arith)) x)

-- Go's `xs[i], xs[j] = xs[j], xs[i]`, for two indices in range.
abbrev pub exchange {ℓ} : {A : Type ℓ} → A → List A → ℕ → ℕ → List A
exchange d xs i j = set (set xs i (get_or xs j d)) j (get_or xs i d)

module _ {ℓ} {A : Type ℓ} (d : A) (xs : List A) (i j : ℕ) (hi : i < length xs)
    (hj : j < length xs) where
  pub get_or-exchange :
      (c : ℕ)
      → get_or (exchange d xs i j) c d
        ≡ (if j == c then get_or xs i d else if i == c then get_or xs j d else get_or xs c d)
  get_or-exchange c = rw (
    get_or-set (set xs i (get_or xs j d)) j c (get_or xs i d) d (rw length-set hj),
    get_or-set xs i c (get_or xs j d) d hi,
  )

  pub exchange-perm : Perm (exchange d xs i j) xs
  exchange-perm =
      let once = set xs i (get_or xs j d) in
      let kept : get_or once j d ≡ get_or xs j d =
        ground (arith, get_or-set xs i j (get_or xs j d) d) in
      let twice = rw kept at (set-perm once j (get_or xs i d) d (rw length-set hj)) in
      Perm.cons_inv (Perm.trans twice (set-perm xs i (get_or xs j d) d hi))

pub length-exchange {ℓ} :
    {A : Type ℓ} (d : A) (xs : List A) (i j : ℕ) → length (exchange d xs i j) ≡ length xs
length-exchange d xs i j = simp length-set
