-- ===== src/Pool/Update.antt =====
-- What Append and RemoveTxs change in the pool, entry by entry.
use monosulfide.Prelude.{
  ℕ, zero, suc, ◌≡◌, refl, Bool, true, false, ◌&&◌, panic, out_of_fuel, List, [], ◌∷◌, Option, none,
  some, ◌==◌, if◌then◌else◌, get_elem?, set, ok, deref, deref_ok, bytes, bytes_eq, arith, Ensures,
  ensured, Ensures-step, Ensures-bind, Ensures-weaken,
}
use monosulfide.Prelude.Maps.{lookup, lookup-insert, lookup-delete}
use monosulfide.Content.{Bytes}
use monosulfide.Tx.{Transaction, Config, TxList, append_tx, remove_tx, s_in_shard, r_in_shard}
use monosulfide.Pool.{Pool, put, append, remove_one, remove_txs}

-- The list of the transactions from shard i to shard j, empty outside the pool.
abbrev pub cell : List (List TxList) → ℕ → ℕ → TxList
cell lists i j = elim (get_elem? lists i) [
  | none ↦ []
  | some row ↦ elim (get_elem? row j) [ none ↦ [] | some txs ↦ txs ]
]

-- The transaction under a hash, from shard i to shard j.
abbrev pub entry : Pool → ℕ → ℕ → Bytes → Option Transaction
entry pool i j h = lookup h (cell pool.tx_lists i j)

get_elem?-set {ℓ} :
    {A : Type ℓ} (xs : List A) (i j : ℕ) (v x : A)
    → get_elem? xs i ≡ some x
    → get_elem? (set xs i v) j ≡ (if i == j then some v else get_elem? xs j)
get_elem?-set [] i j v x h = ground (arith, h)
get_elem?-set (y ∷ xs) zero zero v x h = refl
get_elem?-set (y ∷ xs) zero (suc j) v x h = ground arith
get_elem?-set (y ∷ xs) (suc i) zero v x h = ground arith
get_elem?-set (y ∷ xs) (suc i) (suc j) v x h = ground (arith, get_elem?-set xs i j v x h)

cell-set :
    (lists : List (List TxList)) (s r i j : ℕ) (row : List TxList) (old new : TxList)
    → get_elem? lists s ≡ some row
    → get_elem? row r ≡ some old
    → cell (set lists s (set row r new)) i j ≡ (if s == i && r == j then new else cell lists i j)
cell-set lists s r i j row old new h k =
    ground
      (arith, get_elem?-set lists s i (set row r new) row h, get_elem?-set row r j new old k, h, k)

module _ (conf : Config) (digest : Transaction → Bytes) where
  -- The pool `after` is `pool` with `tx` under its hash, from shard s to shard r.
  abbrev pub Added : Pool → ℕ → ℕ → Transaction → Pool → Type 0
  Added pool s r tx after =
      (i j : ℕ) (h : Bytes)
      → entry after i j h
        ≡ (if (s == i && r == j) && bytes_eq (digest tx) h then some tx else entry pool i j h)

  put_adds :
      (pool : Pool) (s r : ℕ) (tx : Transaction)
      → Ensures (Added pool s r tx) (put conf digest pool s r tx)
  unfolding put append_tx
  put_adds pool s r tx = Ensures-step (deref (get_elem? pool.tx_lists s)) _ λ row h.
      Ensures-step (deref (get_elem? row r)) _ λ txs k. ensured _ λ i j x. ground (
        arith,
        cell-set pool.tx_lists s r i j row txs (append_tx digest txs tx) (deref_ok _ row h)
            (deref_ok _ txs k),
        lookup-insert (digest tx) x tx txs,
        h,
        k,
      )

  -- Append without Pyramid routes: if it returns, the transaction stands under its hash in the list
  -- of its two shards, and every other entry of the pool is as it was.
  pub append-Added :
      (pool : Pool) (tx : Transaction) (s r : ℕ)
      → conf.pyr_enable ≡ false
      → s_in_shard conf tx ≡ ok s
      → r_in_shard conf tx ≡ ok r
      → Ensures (Added pool s r tx) (append conf digest pool tx)
  unfolding append put
  append-Added pool tx s r plain from to = rw (from, to, plain) (put_adds pool s r tx)

  -- Is `h` the hash of `tx`, and does `tx` go from shard i to shard j?
  abbrev pub is_of : ℕ → ℕ → Bytes → Transaction → Bool
  is_of i j h tx = elim (s_in_shard conf tx) [
    | ok s ↦ elim (r_in_shard conf tx) [
      | ok r ↦ (s == i && r == j) && bytes_eq (digest tx) h
      | panic ↦ false
      | out_of_fuel ↦ false
    ]
    | panic ↦ false
    | out_of_fuel ↦ false
  ]

  -- Is a transaction of the list one of these?
  abbrev pub listed : ℕ → ℕ → Bytes → List Transaction → Bool
  listed i j h [] = false
  listed i j h (tx ∷ txs) = if is_of i j h tx then true else listed i j h txs

  -- The pool `after` is `pool` without the transactions `txs`.
  abbrev pub Removed : Pool → List Transaction → Pool → Type 0
  Removed pool txs after =
      (i j : ℕ) (h : Bytes)
      → entry after i j h ≡ (if listed i j h txs then none else entry pool i j h)

  remove_one-Without :
      (pool : Pool) (tx : Transaction)
      → Ensures
          (λ after.
            (i j : ℕ) (h : Bytes)
            → entry after i j h ≡ (if is_of i j h tx then none else entry pool i j h))
          (remove_one conf digest pool tx)
  unfolding remove_one remove_tx
  remove_one-Without pool tx = Ensures-step (s_in_shard conf tx) _ λ s from.
      Ensures-step (r_in_shard conf tx) _ λ r to.
        Ensures-step (deref (get_elem? pool.tx_lists s)) _ λ row h.
          Ensures-step (deref (get_elem? row r)) _ λ txs k. ensured _ λ i j x.
            rw (is_of, from, to)
              (ground (
                arith,
                cell-set pool.tx_lists s r i j row txs (remove_tx digest txs tx) (deref_ok _ row h)
                    (deref_ok _ txs k),
                lookup-delete (digest tx) x txs,
                h,
                k,
              ))

  -- RemoveTxs, if it returns, removes from the list of its two shards the entry under the hash of each
  -- transaction that it is given, and leaves every other entry of the pool as it was.
  pub remove_txs-Removed :
      (pool : Pool) (txs : List Transaction)
      → Ensures (Removed pool txs) (remove_txs conf digest pool txs)
  unfolding remove_txs
  remove_txs-Removed pool [] = ensured pool λ i j h. refl
  remove_txs-Removed pool (tx ∷ txs) = Ensures-bind _ (remove_one-Without pool tx) λ mid law.
      Ensures-weaken (remove_txs-Removed mid txs)
        λ after rest i j h. ground (arith, rest i j h, law i j h)
