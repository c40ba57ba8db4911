-- ===== src/Routes/Table.antt =====
-- The table of routes that InitShardConfig builds.
use monosulfide.Prelude.{
  ℕ, zero, suc, ◌+◌, ◌≤◌, ◌<◌, ◌≡◌, ◌≢◌, ◌⊎◌, inl, inr, refl, Bool, true, false, not, panic, ◌&&◌,
  List, [], ◌∷◌, Option, none, some, get_elem?, ok, ◌>>=◌, Returns, returns, Returns-bind,
  Returns-weaken, Bool-cases, if◌then◌else◌, ◌==◌, arith,
}
use monosulfide.Pool.{at}
use monosulfide.Routes.{
  common_parent, covers, find_route, route_entry, route_row, route_rows, route, init_routes,
}
use monosulfide.Routes.Grid.{
  adjacent, holds, IsSquare, linked-ok, covers-ok, holds-lt, adjacent_comm,
}
use monosulfide.Routes.Connected.{Walk, here, next, Walk-trans, Verdict, check_connectivity-Verdict}
use monosulfide.Routes.Trace.{IsRoute}
use monosulfide.Routes.Shrink.{Hop}
use monosulfide.Routes.Search.{find_route-Found}

Walk-sym : {sd : List (List Bool)} {i j : ℕ} → Walk sd i j → Walk sd j i
Walk-sym here = here
Walk-sym {sd} (next {j} {k} w a) = Walk-trans (next here (rw adjacent_comm a)) (Walk-sym w)

-- The entry for the way from `i` to `j`.
abbrev pub Routed : List (List Bool) → ℕ → ℕ → Option (List ℕ) → Type 0
Routed sd i j none = (i ≡ j) ⊎ Hop sd i j
Routed sd i j (some path) = (i ≢ j) × ¬ Hop sd i j × IsRoute (Hop sd) i j path

-- A list has an entry for each index below `m`, and the entry at k satisfies `P (i + k)`.
abbrev Cells {ℓ} : {A : Type ℓ} → (ℕ → A → Type ℓ) → ℕ → ℕ → List A → Type ℓ
Cells {A} P i m xs = (k : ℕ) → k < m → (a : A) × (get_elem? xs k ≡ some a) × P (i + k) a

Cells-cons {ℓ} :
    {A : Type ℓ} (P : ℕ → A → Type ℓ) (i m : ℕ) (a : A) (rest : List A)
    → P i a
    → Cells P (suc i) m rest
    → Cells P i (suc m) (a ∷ rest)
Cells-cons P i m a rest p cells zero low = let e : i + 0 ≡ i = omega arith in (a, refl, rw e p)
Cells-cons P i m a rest p cells (suc k) low =
    let (b, there, q) = cells k (omega arith) in
    let e : suc i + k ≡ i + suc k = omega arith in (b, there, rw e at q)

not_linked :
    (sd : List (List Bool)) (i j : ℕ)
    → adjacent sd i j ≡ false
    → (holds sd i j ≡ false) × (holds sd j i ≡ false)
unfolding adjacent
not_linked sd i j h = (ground (arith, h), ground (arith, h))

module _ (n : ℕ) (sd : List (List Bool)) (square : IsSquare n sd) where
  -- What the loop over the third shards from `k` on finds.
  abbrev Parent : ℕ → ℕ → ℕ → ℕ → Bool → Type 0
  Parent i j k m true = (s : ℕ) × (holds sd s i ≡ true) × (holds sd s j ≡ true)
  Parent i j k m false =
      (s : ℕ) → k ≤ s → s < k + m → s ≢ i → s ≢ j → (holds sd s i && holds sd s j) ≡ false

  module _ (i j : ℕ) (hi : i < n) (hj : j < n) where
    Parent-step :
        (k m : ℕ) (b : Bool)
        → (not (k == i) && not (k == j) && (holds sd k i && holds sd k j)) ≡ false
        → Parent i j (suc k) m b
        → Parent i j k (suc m) b
    Parent-step k m true none_here p = p
    Parent-step k m false none_here p = λ s low high si sj. elim (Bool-cases (s == k)) [
      | inl same ↦
          let e : s ≡ k = ground (arith, same) in
          rw e (ground (arith, none_here, rw e at si, rw e at sj))
      | inr other ↦ p s (ground (arith, other)) (omega arith) si sj
    ]

    common_parent-Parent :
        (k m : ℕ) → k + m ≡ n → Returns (Parent i j k m) (common_parent sd i j k m)
    unfolding common_parent
    common_parent-Parent k zero total = returns false (λ s low high. absurd (omega arith))
    common_parent-Parent k (suc m) total =
        let third = not (k == i) && not (k == j) && (holds sd k i && holds sd k j) in
        let test : (if k == i then ok false else if k == j then ok false else covers sd k i j)
            ≡ ok third =
          ground (arith, covers-ok square k i j (omega arith) hi hj) in
        rw test (elim (Bool-cases third) [
          | inl found ↦ rw found (returns true (k, ground (arith, found), ground (arith, found)))
          | inr none_here ↦ rw none_here (
              Returns-weaken (common_parent-Parent (suc k) m (omega arith))
                λ b p. Parent-step k m b none_here p)
        ])

    far_apart : i ≢ j → adjacent sd i j ≡ false → Parent i j 0 n false → ¬ Hop sd i j
    far_apart apart no_link p (inl beside) = ground (arith, no_link, beside)
    far_apart apart no_link p (inr (s, a, b)) = elim (Bool-cases (s == i)) [
      | inl same ↦
          let e : s ≡ i = ground (arith, same) in
          absurd (ground (arith, not_linked sd i j no_link, rw e at b))
      | inr other ↦ elim (Bool-cases (s == j)) [
        | inl same ↦
            let e : s ≡ j = ground (arith, same) in
            absurd (ground (arith, not_linked sd i j no_link, rw e at a))
        | inr differs ↦ absurd (
            ground (
              arith,
              p s (omega arith) (omega (arith, holds-lt square s i a)) (ground (arith, other))
                  (ground (arith, differs)),
              a,
              b,
            ))
      ]
    ]

    far-Routed :
        Walk sd i j
        → (near : Bool) → i ≢ j
        → adjacent sd i j ≡ false
        → Parent i j 0 n near
        → Returns
            (Routed sd i j)
            (if near then ok none else (find_route n sd i j >>= λ path. ok (some path)))
    far-Routed walk true apart no_link p = returns none (inr (inr p))
    far-Routed walk false apart no_link p =
        Returns-bind (λ path. ok (some path)) (find_route-Found n sd square i j hi hj)
          λ path found. returns (some path) (
            apart,
            far_apart apart no_link p,
            elim found [ inl good ↦ good | inr (empty, no_walk) ↦ absurd (no_walk walk) ],
          )

    entry-Routed : Walk sd i j → Returns (Routed sd i j) (route_entry n sd i j)
    unfolding route_entry
    entry-Routed walk = elim (Bool-cases (i == j)) [
      | inl same ↦ rw same (returns none (inl (ground (arith, same))))
      | inr apart ↦
          rw (apart, linked-ok square i j hi hj)
            (elim (Bool-cases (adjacent sd i j)) [
              | inl beside ↦ rw beside (returns none (inr (inl beside)))
              | inr no_link ↦ rw no_link (
                  Returns-bind
                    (λ near.
                      if near then ok none else (find_route n sd i j >>= λ path. ok (some path)))
                    (common_parent-Parent 0 n (omega arith))
                    λ near p. far-Routed walk near (ground (arith, apart)) no_link p)
            ])
    ]

  module _ (all : (i j : ℕ) → i < n → j < n → Walk sd i j) where
    row-Cells :
        (i j m : ℕ) → i < n → j + m ≡ n → Returns (Cells (Routed sd i) j m) (route_row n sd i j m)
    unfolding route_row
    row-Cells i j zero hi total = returns [] (λ k low. absurd (omega arith))
    row-Cells i j (suc m) hi total =
        Returns-bind (λ entry. route_row n sd i (suc j) m >>= λ rest. ok (entry ∷ rest))
          (entry-Routed i j hi (omega arith) (all i j hi (omega arith)))
          λ entry p.
            Returns-bind (λ rest. ok (entry ∷ rest)) (row-Cells i (suc j) m hi (omega arith))
              λ rest q. returns (entry ∷ rest) (Cells-cons (Routed sd i) j m entry rest p q)

    rows-Cells :
        (i m : ℕ)
        → i + m ≡ n
        → Returns (Cells (λ k row. Cells (Routed sd k) 0 n row) i m) (route_rows n sd i m)
    unfolding route_rows
    rows-Cells i zero total = returns [] (λ k low. absurd (omega arith))
    rows-Cells i (suc m) total =
        Returns-bind (λ row. route_rows n sd (suc i) m >>= λ rest. ok (row ∷ rest))
          (row-Cells i 0 n (omega arith) (omega arith))
          λ row p.
            Returns-bind (λ rest. ok (row ∷ rest)) (rows-Cells (suc i) m (omega arith))
              λ rest q.
                returns (row ∷ rest)
                  (Cells-cons (λ k r. Cells (Routed sd k) 0 n r) i m row rest p q)

  -- The table has the right entry for each two shards.
  abbrev pub IsTable : List (List (Option (List ℕ))) → Type 0
  IsTable table =
      (i j : ℕ)
      → i < n
      → j < n
      → (entry : Option (List ℕ)) × (at table i j ≡ ok entry) × Routed sd i j entry

  Cells-IsTable :
      (table : List (List (Option (List ℕ))))
      → Cells (λ k row. Cells (Routed sd k) 0 n row) 0 n table
      → IsTable table
  unfolding at
  Cells-IsTable table cells i j hi hj =
      let (row, first, inner) = cells i hi in
      let (entry, there, routed) = inner j hj in
      let e : 0 + j ≡ j = omega arith in
      let e' : 0 + i ≡ i = omega arith in (entry, rw (first, there), rw (e, e') at routed)

  -- On a square matrix in which every shard is reached from shard 0, the tables of InitShardConfig
  -- are built without a panic. The route from i to j is nil exactly if i is j, or they stand side by
  -- side, or a third shard holds the chains of both. Otherwise it begins with i, ends with j, and
  -- each hop of it is between shards that stand side by side or have such a third shard.
  pub init_routes-IsTable :
      0 < n → ((k : ℕ) → k < n → Walk sd 0 k) → Returns IsTable (init_routes n sd)
  unfolding init_routes route
  init_routes-IsTable some_shard reached =
      let all = λ (i j : ℕ) (hi : i < n) (hj : j < n).
        Walk-trans (Walk-sym (reached i hi)) (reached j hj) in
      Returns-bind (λ missing. elim missing [ none ↦ route_rows n sd 0 n | some i ↦ panic ])
        (check_connectivity-Verdict n sd square some_shard)
        λ missing verdict.
          elim missing
              as (λ o.
                Verdict n sd o
                → Returns IsTable (elim o [ none ↦ route_rows n sd 0 n | some i ↦ panic ])) [
                  | none ↦ λ v. Returns-weaken (rows-Cells all 0 n (omega arith)) Cells-IsTable
                  | some i ↦ λ v. absurd (v.1 (reached i v.0))
                ]
            verdict
