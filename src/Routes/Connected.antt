-- ===== src/Routes/Connected.antt =====
-- checkConnectivity finds out whether every shard is reached from the first one.
use monosulfide.Prelude.{
  ℕ, zero, suc, ◌+◌, ◌<◌, ◌≡◌, inl, inr, refl, Bool, true, false, List, [], ◌∷◌, Option, none, some,
  length, replicate, length-replicate, ok, Returns, returns, Returns-bind, arith, sym, Bool-cases,
  ◌==◌,
}
use monosulfide.Prelude.Arrays.{get_or}
use monosulfide.Routes.{check_connectivity, first_missing}
use monosulfide.Routes.Grid.{IsSquare, Adjacent-lt}
use monosulfide.Routes.Dfs.{Seen, unseen, Visited, dfs-Visited}
pub use monosulfide.Routes.Dfs.{Walk, here, next, Walk-trans}

pub get_or-replicate {ℓ} : {A : Type ℓ} (n k : ℕ) (a : A) → get_or (replicate n a) k a ≡ a
get_or-replicate zero k a = refl
get_or-replicate (suc n) zero a = refl
get_or-replicate (suc n) (suc k) a = get_or-replicate n k a

pub unseen-replicate : (n : ℕ) → unseen (replicate n false) ≡ n
unseen-replicate zero = refl
unseen-replicate (suc n) = omega (arith, unseen-replicate n)

-- What the result says of the shards below `n`.
abbrev pub Verdict : ℕ → List (List Bool) → Option ℕ → Type 0
Verdict n sd none = (k : ℕ) → k < n → Walk sd 0 k
Verdict n sd (some i) = (i < n) × ¬ Walk sd 0 i × ((k : ℕ) → k < i → Walk sd 0 k)

module _ (n : ℕ) (sd : List (List Bool)) (square : IsSquare n sd) (some_shard : 0 < n) where
  seen_all :
      (w : List Bool) (k : ℕ)
      → Visited n sd square 0 (replicate n false) w
      → Walk sd 0 k
      → (k < n) × Seen w k
  seen_all w k p here = (some_shard, p.begun)
  seen_all w k p (next {j} walk a) =
      let (hj, s) = seen_all w j p walk in
      let hk = Adjacent-lt square j k hj a in
      (
        hk,
        elim (p.visits.closed j k s hk a) [
          | inl old ↦ absurd (ground (arith, get_or-replicate n j false, old))
          | inr seen ↦ seen
        ],
      )

  walked :
      (w : List Bool) (k : ℕ) → Visited n sd square 0 (replicate n false) w → Seen w k → Walk sd 0 k
  walked w k p s = elim (p.visits.sound k s) [
    | inl old ↦ absurd (ground (arith, get_or-replicate n k false, old))
    | inr walk ↦ walk
  ]

  first_missing-Verdict :
      (w rest : List Bool) (i : ℕ)
      → Visited n sd square 0 (replicate n false) w
      → i + length rest ≡ n
      → ((k : ℕ) → get_or rest k false ≡ get_or w (i + k) false)
      → ((k : ℕ) → k < i → Walk sd 0 k)
      → Verdict n sd (first_missing i rest)
  unfolding first_missing
  first_missing-Verdict w [] i p size same before = λ k hk. before k (omega arith)
  first_missing-Verdict w (true ∷ rest) i p size same before =
      first_missing-Verdict w rest (suc i) p (omega arith)
        (λ k. let shift : i + suc k ≡ suc i + k = omega arith in rw (same (suc k), shift) refl)
        λ k low. elim (Bool-cases (k == i)) [
          | inl e ↦
              let here_now : i + 0 ≡ k = ground (arith, e) in
              walked w k p (rw (← here_now) (sym (same 0)))
          | inr e ↦ before k (ground (arith, e))
        ]
  first_missing-Verdict w (false ∷ rest) i p size same before = (
    omega arith,
    λ walk.
        let (_, s) = seen_all w i p walk in
        let here_now : i + 0 ≡ i = omega arith in
        ground (arith, same 0, rw here_now at (same 0), s),
    before,
  )

  -- On a square matrix with a shard checkConnectivity ends without a panic. It returns nil exactly
  -- when every shard is reached from shard 0 over shards that hold each other's chains; otherwise
  -- its error names a shard that is not reached, the first of them.
  pub check_connectivity-Verdict : Returns (Verdict n sd) (check_connectivity n sd)
  unfolding check_connectivity
  check_connectivity-Verdict =
      Returns-bind (λ visited. ok (first_missing 0 visited))
        (dfs-Visited n sd square (suc n) 0 (replicate n false) some_shard (length-replicate n false)
          (get_or-replicate n 0 false) (omega (arith, unseen-replicate n)))
        λ w p. returns (first_missing 0 w) (
          first_missing-Verdict w w 0 p (omega (arith, p.visits.size))
            (λ k. let e : 0 + k ≡ k = omega arith in rw e refl) λ k low. absurd (omega arith))
