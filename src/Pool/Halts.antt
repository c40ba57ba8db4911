-- ===== src/Pool/Halts.antt =====
-- Append and RemoveTxs come to an end: they return, or an address or a missing list panics.
use monosulfide.Prelude.{
  ◌==◌, ℕ, List, [], ◌∷◌, Option, none, some, true, false, Bool, Outcome, ok, deref, get_elem?,
  panicked, Halts, Halts-bind, Halts-deref, Halts-ok, Halts-if,
}
use monosulfide.Content.{Bytes}
use monosulfide.Tx.{Config, Transaction, relay_dump}
use monosulfide.Tx.Halts.{r_in_shard-Halts, s_in_shard-Halts}
use monosulfide.Pool.{
  Pool, at, or_else, on_route, in_route, relay_steps, relay_path, split_relay, put, put_relays,
  append_pyr, append, append_relay, remove_one, remove_txs,
}

pub at-Halts : {A : Type 0} (xs : List (List A)) (i j : ℕ) → Halts (at xs i j)
unfolding at
at-Halts xs i j = Halts-deref (get_elem? xs i) _ λ row.
    elim (get_elem? row j) as (λ o. Halts (deref o)) [ none ↦ panicked | some a ↦ Halts-ok a ]

or_else-Halts : (a b : Outcome Bool) → Halts a → Halts b → Halts (or_else a b)
unfolding or_else
or_else-Halts a b p q = Halts-bind a _ p λ x. Halts-if x _ _ (Halts-ok true) q

deref-Halts : {A : Type 0} (o : Option A) → Halts (deref o)
deref-Halts none = panicked
deref-Halts (some a) = Halts-ok a

module _ (conf : Config) where
  on_route-Halts : (i : ℕ) (path : List ℕ) → Halts (on_route conf i path)
  unfolding on_route
  on_route-Halts i [] = Halts-ok false
  on_route-Halts i (p ∷ rest) =
      or_else-Halts _ _ (at-Halts conf.shard_distribution i p) (on_route-Halts i rest)

  in_route-Halts : (i s r : ℕ) → Halts (in_route conf i s r)
  unfolding in_route
  in_route-Halts i s r = Halts-bind _ _ (at-Halts conf.shard_route s r) λ rt. route_option i rt
    where
      route_option :
          (i : ℕ) (rt : Option (List ℕ))
          → Halts (elim rt [ none ↦ ok false | some path ↦ on_route conf i path ])
      route_option i none = Halts-ok false
      route_option i (some path) = on_route-Halts i path

  relay_steps-Halts :
      (rtx : Transaction) (pre : ℕ) (path : List ℕ) → Halts (relay_steps conf rtx pre path)
  unfolding relay_steps
  relay_steps-Halts rtx pre [] = Halts-ok []
  relay_steps-Halts rtx pre (curr ∷ rest) = Halts-deref (get_elem? conf.default_addr pre) _ λ from.
      Halts-deref (get_elem? conf.default_addr curr) _
        λ to. Halts-bind _ _ (relay_steps-Halts rtx curr rest) λ txs. Halts-ok _

  relay_path-Halts : (rtx : Transaction) (path : Option (List ℕ)) → Halts (relay_path conf rtx path)
  unfolding relay_path
  relay_path-Halts rtx none = Halts-ok []
  relay_path-Halts rtx (some []) = Halts-ok []
  relay_path-Halts rtx (some (p ∷ path)) = relay_steps-Halts rtx p path

  split_relay-Halts : (rtx : Transaction) → Halts (split_relay conf rtx)
  unfolding split_relay
  split_relay-Halts rtx = Halts-bind _ _ (s_in_shard-Halts conf rtx) λ s.
      Halts-bind _ _ (r_in_shard-Halts conf rtx)
        λ r. Halts-bind _ _ (at-Halts conf.shard_route s r) λ path. relay_path-Halts rtx path

  module _ (digest : Transaction → Bytes) where
    put-Halts : (pool : Pool) (s r : ℕ) (tx : Transaction) → Halts (put conf digest pool s r tx)
    unfolding put
    put-Halts pool s r tx =
        Halts-deref (get_elem? pool.tx_lists s) _
          λ row. Halts-deref (get_elem? row r) _ λ txs. Halts-ok _

    put_relays-Halts :
        (pool : Pool) (txs : List Transaction) → Halts (put_relays conf digest pool txs)
    unfolding put_relays
    put_relays-Halts pool [] = Halts-ok pool
    put_relays-Halts pool (tx ∷ txs) = Halts-bind _ _ (s_in_shard-Halts conf tx) λ s.
        Halts-bind _ _ (r_in_shard-Halts conf tx) λ r.
          Halts-bind _ _
            (or_else-Halts _ _ (at-Halts conf.shard_distribution pool.local_index s)
              (at-Halts conf.shard_distribution pool.local_index r))
            λ mine.
              Halts-bind _ _ (Halts-if mine _ _ (put-Halts pool s r tx) (Halts-ok pool))
                λ next. put_relays-Halts next txs

    append_pyr-Halts :
        (pool : Pool) (tx : Transaction) (s r : ℕ) → Halts (append_pyr conf digest pool tx s r)
    unfolding append_pyr
    append_pyr-Halts pool tx s r = Halts-bind _ _ (in_route-Halts pool.local_index r s) λ relay.
        Halts-if relay _ _ (Halts-bind _ _ (split_relay-Halts tx) λ txs. put_relays-Halts pool txs)
          (Halts-bind _ _
            (or_else-Halts _ _ (deref-Halts (get_elem? pool.controls s))
              (deref-Halts (get_elem? pool.controls r)))
            λ mine. Halts-if mine _ _ (put-Halts pool s r tx) (Halts-ok pool))

    pub append-Halts : (pool : Pool) (tx : Transaction) → Halts (append conf digest pool tx)
    unfolding append
    append-Halts pool tx = Halts-bind _ _ (s_in_shard-Halts conf tx) λ s.
        Halts-bind _ _ (r_in_shard-Halts conf tx)
          λ r. Halts-if conf.pyr_enable _ _ (append_pyr-Halts pool tx s r) (put-Halts pool s r tx)

    remove_one-Halts : (pool : Pool) (tx : Transaction) → Halts (remove_one conf digest pool tx)
    unfolding remove_one
    remove_one-Halts pool tx = Halts-bind _ _ (s_in_shard-Halts conf tx) λ s.
        Halts-bind _ _ (r_in_shard-Halts conf tx) λ r.
          Halts-deref (get_elem? pool.tx_lists s) _
            λ row. Halts-deref (get_elem? row r) _ λ txs. Halts-ok _

    pub remove_txs-Halts :
        (pool : Pool) (txs : List Transaction) → Halts (remove_txs conf digest pool txs)
    unfolding remove_txs
    remove_txs-Halts pool [] = Halts-ok pool
    remove_txs-Halts pool (tx ∷ txs) =
        Halts-bind _ _ (remove_one-Halts pool tx) λ next. remove_txs-Halts next txs

    pub append_relay-Halts :
        (pool : Pool) (txs : List Transaction) → Halts (append_relay conf digest pool txs)
    unfolding append_relay
    append_relay-Halts pool [] = Halts-ok pool
    append_relay-Halts pool (tx ∷ txs) =
        Halts-bind _ _
          (Halts-if (tx.tx_type == relay_dump) _ _ (Halts-ok pool) (
            Halts-bind _ _ (s_in_shard-Halts conf tx) λ s.
              Halts-bind _ _ (r_in_shard-Halts conf tx)
                λ r. Halts-if (s == r) _ _ (Halts-ok pool) (append-Halts pool _)))
          λ next. append_relay-Halts next txs
