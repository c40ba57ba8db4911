-- ===== src/Pool/Package.antt =====
-- Tx/TxPool.go: FindBest and the Package functions, which choose the transactions of a block.
use monosulfide.Prelude.{
  ℕ, zero, suc, ◌/◌, Bool, true, false, ◌&&◌, List, [], ◌∷◌, ◌++◌, map, Option, none, some, length,
  take, replicate, ltb, leb, ◌==◌, if◌then◌else◌, get_elem?, Outcome, ok, panic, out_of_fuel, ◌>>=◌,
  deref,
}
use monosulfide.Tx.{Transaction, Config, TxList, values}
use monosulfide.Pool.{Pool, at, row_amount}

-- if cnt > maxCnt { maxCnt = cnt; ret = s }
pub improve : Option (ℕ × ℕ) → ℕ → ℕ → Option (ℕ × ℕ)
improve none cnt s = some (cnt, s)
improve (some (max_cnt, i)) cnt s = if ltb max_cnt cnt then some (cnt, s) else some (max_cnt, i)

-- The loop of FindBest from row `s` on, with `maxCnt` and `ret` in one value, `none` for -1.
-- `skip` says whether the rows that the shard does not control are passed over.
pub best_loop :
    Bool → List Bool → ℕ → Option (ℕ × ℕ) → List (List TxList) → Outcome (Option (ℕ × ℕ))
best_loop skip controls s best [] = ok best
best_loop skip controls s best (row ∷ rows) =
    let cnt = row_amount row in
    (if skip then deref (get_elem? controls s) else ok true) >>= λ mine.
    best_loop skip controls (suc s) (if mine then improve best cnt s else best) rows

unfoldable pub find_best : Config → Pool → Outcome (Option ℕ)
find_best conf pool =
    best_loop (conf.fide_enable && conf.storage_optimize) pool.controls 0 none pool.tx_lists
    >>= λ best. ok (elim best [ none ↦ none | some (cnt, i) ↦ some i ])

-- The loop of PackageInnerTxs: it stops when the block is full, after an append.
pub fill : ℕ → List Transaction → List Transaction → List Transaction
fill max acc [] = acc
fill max acc (tx ∷ txs) =
    let rest = fill max (acc ++ tx ∷ []) txs in
    if leb max (length (acc ++ tx ∷ [])) then acc ++ tx ∷ [] else rest

-- The variables of the round-robin loop of PackageRelayTxs: `transactions`, `cnt`, and `roundAdd`.
pub record Packing : Type 0 where
  pub chosen : List (List Transaction)
  pub cnt : ℕ
  pub round_add : Bool

unfoldable pub behind : List Transaction → Packing → Packing
behind txs p = record p { chosen = txs ∷ p.chosen }

-- The inner loop over the candidate groups, with the entries of `transactions` beside them.
-- `len(list) > round` holds exactly if `list[round]` is there.
unfoldable pub pack_round :
    ℕ → ℕ → List (List Transaction) → List (List Transaction) → ℕ → Bool → Packing
pack_round max round [] chosen cnt added = record { chosen = chosen; cnt = cnt; round_add = added }
pack_round max round (group ∷ groups) [] cnt added = record {
  chosen = [];
  cnt = cnt;
  round_add = added;
}
pack_round max round (group ∷ groups) (txs ∷ chosen) cnt added = elim (get_elem? group round) [
  | none ↦
      let rest = pack_round max round groups chosen cnt added in
      if leb max cnt
      then record { chosen = txs ∷ chosen; cnt = cnt; round_add = added }
      else behind txs rest
  | some tx ↦
      let rest = pack_round max round groups chosen (suc cnt) true in
      if leb max (suc cnt)
      then record { chosen = (txs ++ tx ∷ []) ∷ chosen; cnt = suc cnt; round_add = true }
      else behind (txs ++ tx ∷ []) rest
]

-- The outer loop.
unfoldable pub pack_loop : ℕ → ℕ → ℕ → List (List Transaction) → Packing → Outcome Packing
pack_loop zero max round groups p = out_of_fuel
pack_loop (suc fuel) max round groups p =
    let next = pack_round max round groups p.chosen p.cnt false in
    let again = pack_loop fuel max (suc round) groups next in
    if ltb p.cnt max then (if next.round_add then again else ok next) else ok p

-- The round-robin choice from the groups; at most `max` rounds add a transaction.
unfoldable pub pack : ℕ → List (List Transaction) → Outcome (List (List Transaction))
unfolding pack_loop pack_round behind
pack max groups =
    pack_loop (suc max) max 0 groups
      (record { chosen = replicate (length groups) []; cnt = 0; round_add = false })
    >>= λ p. ok p.chosen

-- candidateGroups[dest] = txs, for a slice of `n` entries: too many lists panic, too few leave nil.
pub groups_of : ℕ → List (List Transaction) → Outcome (List (List Transaction))
groups_of zero [] = ok []
groups_of zero (txs ∷ lists) = panic
groups_of (suc n) [] = groups_of n [] >>= λ gs. ok ([] ∷ gs)
groups_of (suc n) (txs ∷ lists) = groups_of n lists >>= λ gs. ok (txs ∷ gs)

module _ (conf : Config) (visit : TxList → TxList) where
  unfoldable pub package_inner_txs : Pool → Outcome (List Transaction)
  unfolding fill
  package_inner_txs pool = at pool.tx_lists pool.local_index pool.local_index >>= λ txs.
      ok (fill conf.max_block_size [] (values (visit txs)))

  -- FindBest returns -1 where no row is admitted, and the index then panics.
  unfoldable pub package_relay_txs : Pool → Outcome (List (List Transaction) × ℕ)
  package_relay_txs pool = find_best conf pool >>= λ best. deref best >>= λ i.
      deref (get_elem? pool.tx_lists i) >>= λ row.
      groups_of conf.fide_shard_amount (map (λ txs. values (visit txs)) row) >>= λ groups.
      pack conf.max_block_size groups >>= λ chosen. ok (chosen, i)

  pub all_of : List TxList → List Transaction
  all_of [] = []
  all_of (txs ∷ row) = values (visit txs) ++ all_of row

  -- A zero shard amount panics in the division.
  unfoldable pub package_txs_from : Pool → ℕ → Outcome (List Transaction)
  unfolding all_of
  package_txs_from pool sid = deref (get_elem? pool.tx_lists sid) >>= λ row.
      if conf.monoxide_shard_amount == 0
      then panic
      else ok (take (conf.max_block_size / conf.monoxide_shard_amount) (all_of row))

  unfoldable pub package_cross_tx : Pool → ℕ → Outcome (List Transaction)
  package_cross_tx pool dest =
      at pool.tx_lists pool.local_index dest >>= λ txs. ok (values (visit txs))
