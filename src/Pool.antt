-- ===== src/Pool.antt =====
-- Tx/TxPool.go: the pool of a node. `tx_lists[s][r]` is the list of the transactions from shard s to
-- shard r; `localTxs` is the pointer to the list [local][local], so it is read there. `visit` gives
-- the order in which a `range` visits a list's map. A pool is used under its lock, one call at a time.
pub mod Package
pub mod Update
pub mod Round
pub mod Cross
pub mod Halts
mod Tests
use monosulfide.Prelude.{
  ℕ, zero, suc, ◌+◌, ◌/◌, Bool, true, false, not, ◌&&◌, List, [], ◌∷◌, ◌++◌, map, Option, none,
  some, length, take, replicate, set, ltb, leb, ◌==◌, if◌then◌else◌, get_elem?, Outcome, ok, panic,
  out_of_fuel, ◌>>=◌, deref,
}
use monosulfide.Content.{Bytes}
use monosulfide.Tx.{
  Transaction, Config, TxList, relay_tx, relay_dump, new_transaction, s_in_shard, r_in_shard,
  append_tx, remove_tx, tx_exist, values,
}

pub record Pool : Type 0 where
  pub tx_lists : List (List TxList)
  pub local_index : ℕ
  pub controls : List Bool

-- xs[i][j]
unfoldable pub at {ℓ} : {A : Type ℓ} → List (List A) → ℕ → ℕ → Outcome A
at xs i j = deref (get_elem? xs i) >>= λ row. deref (get_elem? row j)

unfoldable pub new_tx_pool : Config → ℕ → Outcome Pool
new_tx_pool conf local_index =
    let amount = conf.shard_amount in
    let lists = replicate amount (replicate amount []) in
    at lists local_index local_index >>= λ _.
    (if conf.pyr_enable then deref (get_elem? conf.shard_distribution local_index) else ok [])
    >>= λ controls. ok (record { tx_lists = lists; local_index = local_index; controls = controls })

-- `a || b`, where `b` is only evaluated if `a` is false.
unfoldable pub or_else : Outcome Bool → Outcome Bool → Outcome Bool
or_else a b = a >>= λ x. if x then ok true else b

module _ (conf : Config) where
  -- Does shard i hold the chain of a shard on the route?
  pub on_route : ℕ → List ℕ → Outcome Bool
  on_route i [] = ok false
  on_route i (p ∷ rest) = or_else (at conf.shard_distribution i p) (on_route i rest)

  -- InRoute(i, s, r) of config/pyramidConfig.go.
  pub in_route : ℕ → ℕ → ℕ → Outcome Bool
  in_route i s r =
      at conf.shard_route s r >>= λ rt. elim rt [ none ↦ ok false | some path ↦ on_route i path ]

  -- genRtx for each step of a route.
  pub relay_steps : Transaction → ℕ → List ℕ → Outcome (List Transaction)
  relay_steps rtx pre [] = ok []
  relay_steps rtx pre (curr ∷ rest) = deref (get_elem? conf.default_addr pre) >>= λ from.
      deref (get_elem? conf.default_addr curr) >>= λ to. relay_steps rtx curr rest >>= λ txs.
      ok (new_transaction from to rtx.value rtx.nonce relay_tx ∷ txs)

  pub relay_path : Transaction → Option (List ℕ) → Outcome (List Transaction)
  relay_path rtx none = ok []
  relay_path rtx (some []) = ok []
  relay_path rtx (some (p ∷ path)) = relay_steps rtx p path

  pub split_relay : Transaction → Outcome (List Transaction)
  split_relay rtx = s_in_shard conf rtx >>= λ s.
      r_in_shard conf rtx >>= λ r. at conf.shard_route s r >>= relay_path rtx

  module _ (digest : Transaction → Bytes) where
    -- list := pool.TxLists[s][r]; list.append(tx)
    unfoldable pub put : Pool → ℕ → ℕ → Transaction → Outcome Pool
    put pool s r tx = deref (get_elem? pool.tx_lists s) >>= λ row.
        deref (get_elem? row r) >>= λ txs.
        ok (record pool { tx_lists = set pool.tx_lists s (set row r (append_tx digest txs tx)) })

    -- The steps of a relayed transaction that this shard controls an end of.
    pub put_relays : Pool → List Transaction → Outcome Pool
    put_relays pool [] = ok pool
    put_relays pool (tx ∷ txs) = s_in_shard conf tx >>= λ s. r_in_shard conf tx >>= λ r.
        or_else (at conf.shard_distribution pool.local_index s)
          (at conf.shard_distribution pool.local_index r)
        >>= λ mine. (if mine then put pool s r tx else ok pool) >>= λ pool'. put_relays pool' txs

    pub append_pyr : Pool → Transaction → ℕ → ℕ → Outcome Pool
    append_pyr pool tx s r = in_route pool.local_index r s >>= λ relay.
        if relay
        then split_relay tx >>= put_relays pool
        else or_else (deref (get_elem? pool.controls s)) (deref (get_elem? pool.controls r))
          >>= λ mine. if mine then put pool s r tx else ok pool

    unfoldable pub append : Pool → Transaction → Outcome Pool
    append pool tx = s_in_shard conf tx >>= λ s. r_in_shard conf tx >>= λ r.
        if conf.pyr_enable then append_pyr pool tx s r else put pool s r tx

    -- One round of RemoveTxs. TxExist only counts; its index is the one that `remove` takes.
    unfoldable pub remove_one : Pool → Transaction → Outcome Pool
    remove_one pool tx = s_in_shard conf tx >>= λ s. r_in_shard conf tx >>= λ r.
        deref (get_elem? pool.tx_lists s) >>= λ row. deref (get_elem? row r) >>= λ txs.
        ok (record pool { tx_lists = set pool.tx_lists s (set row r (remove_tx digest txs tx)) })

    unfoldable pub remove_txs : Pool → List Transaction → Outcome Pool
    remove_txs pool [] = ok pool
    remove_txs pool (tx ∷ txs) = remove_one pool tx >>= λ pool'. remove_txs pool' txs

    unfoldable pub pool_tx_exist : Pool → Transaction → Outcome Bool
    pool_tx_exist pool tx = s_in_shard conf tx >>= λ s.
        r_in_shard conf tx >>= λ r. at pool.tx_lists s r >>= λ txs. ok (tx_exist digest txs tx)

    unfoldable pub append_relay : Pool → List Transaction → Outcome Pool
    append_relay pool [] = ok pool
    append_relay pool (tx ∷ intra) =
        let dumped = record tx { tx_type = relay_dump } in
        (if tx.tx_type == relay_dump
          then ok pool
          else s_in_shard conf tx >>= λ s.
              r_in_shard conf tx >>= λ r. if s == r then ok pool else append pool dumped)
        >>= λ pool'. append_relay pool' intra

-- len of the maps of one row, and of all.
pub row_amount : List TxList → ℕ
row_amount [] = 0
row_amount (txs ∷ row) = length txs + row_amount row

pub rows_amount : List (List TxList) → ℕ
rows_amount [] = 0
rows_amount (row ∷ rows) = row_amount row + rows_amount rows

unfoldable pub amount : Pool → ℕ
unfolding rows_amount row_amount
amount pool = rows_amount pool.tx_lists
