-- ===== src/Routes/Grid.antt =====
-- Reads of a square matrix do not panic; when two shards stand side by side.
use monosulfide.Prelude.{
  ℕ, zero, suc, ◌<◌, ◌≡◌, refl, Bool, true, false, not, ◌&&◌, ◌||◌, List, [], ◌∷◌, length, ltb,
  ltb→lt, Bool-cases, inl, inr, ◌≤◌, get_elem?, ok, deref, arith,
}
use monosulfide.Prelude.Arrays.{get_or, get_elem?-get_or}
use monosulfide.Pool.{at, or_else}
use monosulfide.Routes.{linked, covers, fresh}

-- The entry sd[i][j] of a matrix that has one.
unfoldable pub holds : List (List Bool) → ℕ → ℕ → Bool
holds sd i j = get_or (get_or sd i []) j false

unfoldable pub adjacent : List (List Bool) → ℕ → ℕ → Bool
adjacent sd i j = holds sd i j || holds sd j i

abbrev pub Adjacent : List (List Bool) → ℕ → ℕ → Type 0
Adjacent sd i j = adjacent sd i j ≡ true

pub record IsSquare (n : ℕ) (sd : List (List Bool)) : Type 0 where
  pub rows : length sd ≡ n
  pub columns : (i : ℕ) → i < n → length (get_or sd i []) ≡ n

module _ {n : ℕ} {sd : List (List Bool)} (square : IsSquare n sd) where
  pub row-ok : (i : ℕ) → i < n → deref (get_elem? sd i) ≡ ok (get_or sd i [])
  row-ok i hi = rw (get_elem?-get_or sd i [] (omega (arith, square.rows)))

  pub at-ok : (i j : ℕ) → i < n → j < n → at sd i j ≡ ok (holds sd i j)
  unfolding at holds
  at-ok i j hi hj = rw (
    get_elem?-get_or sd i [] (omega (arith, square.rows)),
    get_elem?-get_or (get_or sd i []) j false (omega (arith, square.columns i hi)),
  )

  pub linked-ok : (i j : ℕ) → i < n → j < n → linked sd i j ≡ ok (adjacent sd i j)
  unfolding linked or_else adjacent
  linked-ok i j hi hj = ground (arith, at-ok i j hi hj, at-ok j i hj hi)

  pub covers-ok :
      (s i j : ℕ) → s < n → i < n → j < n → covers sd s i j ≡ ok (holds sd s i && holds sd s j)
  unfolding covers
  covers-ok s i j hs hi hj = ground (arith, at-ok s i hs hi, at-ok s j hs hj)

  pub fresh-ok :
      (i j : ℕ) (visited : List Bool)
      → i < n
      → j < n
      → length visited ≡ n
      → fresh sd i j visited ≡ ok (adjacent sd i j && not (get_or visited j false))
  unfolding fresh
  fresh-ok i j visited hi hj size =
      ground (arith, linked-ok i j hi hj, get_elem?-get_or visited j false (omega arith))

get_or_out {ℓ} : {A : Type ℓ} (xs : List A) (i : ℕ) (d : A) → length xs ≤ i → get_or xs i d ≡ d
get_or_out [] i d h = refl
get_or_out (x ∷ xs) zero d h = absurd (omega arith)
get_or_out (x ∷ xs) (suc i) d h = get_or_out xs i d (omega arith)

-- Only shards stand beside a shard.
pub Adjacent-lt :
    {n : ℕ} {sd : List (List Bool)} (square : IsSquare n sd) (i k : ℕ)
    → i < n
    → Adjacent sd i k
    → k < n
unfolding adjacent holds
Adjacent-lt {n} {sd} square i k hi a = elim (Bool-cases (ltb k n)) [
  | inl inside ↦ ltb→lt k n inside
  | inr out ↦
      let far : n ≤ k = ground (arith, out) in
      let no_row = get_or_out sd k [] (omega (arith, square.rows)) in
      let no_cell = get_or_out (get_or sd i []) k false (omega (arith, square.columns i hi)) in
      absurd (ground (arith, rw (no_row, no_cell) at a))
]

pub holds-lt :
    {n : ℕ} {sd : List (List Bool)} (square : IsSquare n sd) (s i : ℕ) → holds sd s i ≡ true → s < n
unfolding holds
holds-lt {n} {sd} square s i h = elim (Bool-cases (ltb s n)) [
  | inl inside ↦ ltb→lt s n inside
  | inr out ↦
      let far : n ≤ s = ground (arith, out) in
      absurd (ground (arith, rw (get_or_out sd s [] (omega (arith, square.rows))) at h))
]

pub adjacent_comm : (sd : List (List Bool)) (i j : ℕ) → adjacent sd i j ≡ adjacent sd j i
unfolding adjacent
adjacent_comm sd i j = ground arith
