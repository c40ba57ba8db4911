-- ===== src/Pool/Cross.antt =====
-- Tx/TxPool.go, PackageCrossTxs and ResetControl, and RelatedShards of Tx/transaction.go.
use monosulfide.Prelude.{
  ℕ, zero, suc, ◌+◌, ◌≤◌, ◌<◌, ◌≡◌, refl, Bool, true, false, List, [], ◌∷◌, ◌++◌, none, some, inl,
  inr, Option-cases, length, length-append, replicate, set, ltb, leb, ◌==◌, if◌then◌else◌,
  get_elem?, Outcome, ok, panic, out_of_fuel, ◌>>=◌, deref, arith, Returns, returns, Returns-test,
}
use monosulfide.Tx.{Transaction, Config, TxList, values, s_in_shard, r_in_shard}
use monosulfide.Pool.{Pool, at, or_else, in_route}

-- One round over the candidate groups: the transactions chosen so far, and roundAdded.
unfoldable pub cross_round :
    ℕ → ℕ → List (List Transaction) → List Transaction → Bool → List Transaction × Bool
cross_round max round [] txs added = (txs, added)
cross_round max round (group ∷ groups) txs added = elim (get_elem? group round) [
  | none ↦ cross_round max round groups txs added
  | some tx ↦
      let rest = cross_round max round groups (txs ++ tx ∷ []) true in
      if leb max (length (txs ++ tx ∷ [])) then (txs ++ tx ∷ [], true) else rest
]

unfoldable pub cross_loop :
    ℕ → ℕ → ℕ → List (List Transaction) → List Transaction → Outcome (List Transaction)
cross_loop zero max round groups txs = out_of_fuel
cross_loop (suc fuel) max round groups txs =
    let next = cross_round max round groups txs false in
    let again = cross_loop fuel max (suc round) groups next.0 in
    if ltb (length txs) max then (if next.1 then again else ok next.0) else ok txs

-- The round-robin choice; at most `max` rounds add a transaction.
unfoldable pub cross_choice : ℕ → List (List Transaction) → Outcome (List Transaction)
cross_choice max groups = cross_loop (suc max) max 0 groups []

module _ (visit : TxList → TxList) where
  -- The groups of row i from column j on; the second index is only read if the first test holds.
  pub row_groups : List Bool → ℕ → ℕ → List TxList → Outcome (List (List Transaction))
  row_groups controls i j [] = ok []
  row_groups controls i j (txs ∷ row) = row_groups controls i (suc j) row >>= λ rest.
      if i == j
      then ok rest
      else deref (get_elem? controls i) >>= λ a.
          (if a then deref (get_elem? controls j) else ok false) >>= λ both.
          ok (if both then values (visit txs) ∷ rest else rest)

  pub candidate_groups : List Bool → ℕ → List (List TxList) → Outcome (List (List Transaction))
  candidate_groups controls i [] = ok []
  candidate_groups controls i (row ∷ rows) = row_groups controls i 0 row >>= λ groups.
      candidate_groups controls (suc i) rows >>= λ rest. ok (groups ++ rest)

  unfoldable pub package_cross_txs : Config → Pool → Outcome (List Transaction)
  package_cross_txs conf pool =
      if conf.pyr_enable
      then (candidate_groups pool.controls 0 pool.tx_lists >>= cross_choice conf.max_block_size)
      else panic

-- controls[i] = true for each of the indices; one out of range panics.
pub take_control : List ℕ → List Bool → Outcome (List Bool)
take_control [] controls = ok controls
take_control (i ∷ rest) controls =
    deref (get_elem? controls i) >>= λ _. take_control rest (set controls i true)

-- The shards that the switch of ResetControl adds.
pub extra_controls : ℕ → List ℕ
extra_controls amount =
    if amount == 8
    then 5 ∷ []
    else if amount == 16
    then 13 ∷ []
    else if amount == 32
    then 29 ∷ 27 ∷ 28 ∷ 1 ∷ []
    else []

unfoldable pub reset_control : Config → Pool → Outcome Pool
reset_control conf pool =
    let fresh = replicate conf.fide_shard_amount false in
    (if conf.fide_enable
      then (take_control (extra_controls conf.fide_shard_amount) fresh
          >>= take_control (pool.local_index ∷ []))
      else ok fresh)
    >>= λ controls. ok (record pool { controls = controls })

-- The numbers from i on, `n` of them.
pub shards_from : ℕ → ℕ → List ℕ
shards_from i zero = []
shards_from i (suc n) = i ∷ shards_from (suc i) n

module _ (conf : Config) where
  -- The shards among `is` that control an end of the transaction, or lie on its route.
  pub related : ℕ → ℕ → List ℕ → Outcome (List ℕ)
  related s r [] = ok []
  related s r (i ∷ is) =
      or_else (or_else (at conf.shard_distribution i r) (at conf.shard_distribution i s))
        (in_route conf i r s)
      >>= λ mine. related s r is >>= λ rest. ok (if mine then i ∷ rest else rest)

  unfoldable pub related_shards : Transaction → Outcome (List ℕ)
  related_shards tx = s_in_shard conf tx >>= λ s. r_in_shard conf tx >>= λ r.
      if conf.pyr_enable
      then related s r (shards_from 0 conf.pyr_shard_amount)
      else if conf.fide_enable
      then ok (if conf.tx_test then shards_from 0 conf.fide_shard_amount else s ∷ [])
      else if conf.monoxide_enable
      then ok (shards_from 0 conf.monoxide_shard_amount)
      else ok []

-- A round only appends, stays within the block, and tells truly that it appended something.
record Appended (max : ℕ) (txs : List Transaction) (added : Bool) (out : List Transaction × Bool)
    : Type 0 where
  grows : length txs ≤ length out.0
  bounded : length txs < max → length out.0 ≤ max
  progress : added ≡ false → out.1 ≡ true → length txs < length out.0

cross_round-Appended :
    (max round : ℕ) (groups : List (List Transaction)) (txs : List Transaction) (added : Bool)
    → Appended max txs added (cross_round max round groups txs added)
unfolding cross_round
cross_round-Appended max round [] txs added = record {
  grows = omega arith;
  bounded = λ h. omega arith;
  progress = λ h k. ground (arith, h, k);
}
cross_round-Appended max round (group ∷ groups) txs added =
    elim (Option-cases (get_elem? group round)) [
      | inl short ↦ rw (cross_round, short) (cross_round-Appended max round groups txs added)
      | inr (tx, there) ↦
          let rest = cross_round-Appended max round groups (txs ++ tx ∷ []) true in
          let one = length-append txs (tx ∷ []) in
          rw (cross_round, there)
            (record {
              grows = ground (arith, rest.grows, one);
              bounded = λ h. ground (arith, rest.bounded, one, h);
              progress = λ h k. ground (arith, rest.grows, one, h, k);
            })
    ]

cross_loop-bounded :
    (fuel max round : ℕ) (groups : List (List Transaction)) (txs : List Transaction)
    → length txs ≤ max
    → max < fuel + length txs
    → Returns (λ out. length out ≤ max) (cross_loop fuel max round groups txs)
unfolding cross_loop
cross_loop-bounded zero max round groups txs fits enough = absurd (omega arith)
cross_loop-bounded (suc fuel) max round groups txs fits enough =
    let a = cross_round-Appended max round groups txs false in
    let next = cross_round max round groups txs false in
    Returns-test (ltb (length txs) max)
      (λ more.
        Returns-test next.1
          (λ some_more.
            cross_loop-bounded fuel max (suc round) groups next.0 (a.bounded (ground (arith, more)))
              (omega (arith, a.progress refl some_more, enough)))
          (λ none_more. returns next.0 (a.bounded (ground (arith, more)))))
      (λ full. returns txs fits)

-- The round-robin choice of PackageCrossTxs ends within its fuel for all groups, and chooses no more
-- transactions than a block may hold.
pub length-cross_choice_le :
    (max : ℕ) (groups : List (List Transaction))
    → Returns (λ txs. length txs ≤ max) (cross_choice max groups)
unfolding cross_choice
length-cross_choice_le max groups =
    cross_loop-bounded (suc max) max 0 groups [] (omega arith) (omega arith)
