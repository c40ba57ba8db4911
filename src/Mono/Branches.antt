-- ===== src/Mono/Branches.antt =====
-- Monosulfide/MonosulfideChain.go, FindBestBranches: the blocks are visited from the first one on, a
-- block when all its references have been; where the shards fork, the heaviest of the forked blocks
-- goes on. The slice `seq` is only written and is left out. `now` is the clock.
use monosulfide.Prelude.{
  ℕ, zero, suc, ◌+◌, ◌*◌, Bool, true, false, not, ◌&&◌, List, [], ◌∷◌, map, Option, none, some,
  length, set, ltb, ◌==◌, if◌then◌else◌, get_elem?, Outcome, ok, out_of_fuel, ◌>>=◌, deref, bytes,
  bytes_eq, nat_eq,
}
use monosulfide.Prelude.Int.{ℤ, pos, negsuc}
use monosulfide.Prelude.Maps.{lookup, insert, delete}
use monosulfide.Content.{Bytes}
use monosulfide.Tx.{Transaction, Config}
use monosulfide.Pool.{Pool, append, remove_txs}
use monosulfide.Mono.{FideBlock, MonoChain, txs, top, anc}

-- The variables of the first half. A value of Removeable may be nil.
pub record Sweep : Type 0 where
  pub bs : List (Bytes × FideBlock)
  pub ref_cnt : List (Bytes × ℤ)
  pub tops : List Bytes
  pub lock_map : List (Bytes × Bool)
  pub removeable : List (Bytes × Option FideBlock)
  pub removed : Bool

-- Reads of the maps, with the zero value for a missing key.
abbrev pub or_zero {ℓ} : {A : Type ℓ} → A → Option A → A
or_zero a none = a
or_zero a (some b) = b

-- n - 1 of a signed number, and the test for zero.
abbrev pub count_down : ℤ → ℤ
count_down (pos zero) = negsuc 0
count_down (pos (suc n)) = pos n
count_down (negsuc n) = negsuc (suc n)

abbrev pub is_zero : ℤ → Bool
is_zero (pos zero) = true
is_zero (pos (suc n)) = false
is_zero (negsuc n) = false

abbrev pub keys {ℓ} : {V : Type ℓ} → List (Bytes × V) → List Bytes
keys m = map (λ e. e.0) m

-- The order in which the ranges over Removeable visit its keys: `visit` for those that are there at
-- the beginning, and `weave` for a key that is written while the keys `todo` are still to come; it
-- may be passed over.
pub record Order : Type 0 where
  pub visit : List Bytes → List Bytes
  pub weave : List Bytes → Bytes → List Bytes

-- refCnt[c]--, and Removeable[c] = Bs[c] at zero.
unfoldable pub release : Order → Sweep × List Bytes → Bytes → Sweep × List Bytes
release order (s, todo) c =
    let left = count_down (or_zero (pos 0) (lookup c s.ref_cnt)) in
    if is_zero left
    then (
      record s {
        ref_cnt = insert c left s.ref_cnt;
        removeable = insert c (lookup c s.bs) s.removeable;
      },
      order.weave todo c,
    )
    else (record s { ref_cnt = insert c left s.ref_cnt }, todo)

unfoldable pub release_all : Order → Sweep × List Bytes → List Bytes → Sweep × List Bytes
release_all order st [] = st
release_all order st (c ∷ cs) = release_all order (release order st c) cs

-- LockMap[dec] = true for each of the children.
unfoldable pub lock_all : List Bytes → List (Bytes × Bool) → List (Bytes × Bool)
lock_all [] locks = locks
lock_all (dec ∷ decs) locks = lock_all decs (insert dec true locks)

module _ (hash : FideBlock → Bytes) (order : Order) where
  -- A visit of the block `b`, with the keys `todo` still to come.
  unfoldable pub take_block :
      MonoChain → FideBlock → Sweep → List Bytes → Outcome (Sweep × List Bytes)
  take_block ch b s todo =
      let decs = or_zero [] (lookup (hash b) ch.path) in
      let locks = if ltb 1 (length decs) then lock_all decs s.lock_map else s.lock_map in
      let begun = record s { bs = delete (hash b) s.bs; lock_map = locks; removed = true } in
      let (next, todo') = release_all order (begun, todo) (or_zero [] (lookup (hash b) ch.refs)) in
      deref (get_elem? next.tops b.h.shard_idx) >>= λ _. ok (
        record next {
          tops = set next.tops b.h.shard_idx (hash b);
          removeable = delete (hash b) next.removeable;
        },
        todo',
      )

  unfoldable pub visit_key : MonoChain → Bytes → Sweep → List Bytes → Outcome (Sweep × List Bytes)
  visit_key ch k s todo = elim (lookup k s.removeable) [
    | none ↦ ok (s, todo)
    | some slot ↦ deref slot >>= λ b.
        if or_zero false (lookup (hash b) s.lock_map) then ok (s, todo) else take_block ch b s todo
  ]

  -- The first range over Removeable.
  unfoldable pub sweep : ℕ → MonoChain → Sweep → List Bytes → Outcome Sweep
  sweep zero ch s todo = out_of_fuel
  sweep (suc fuel) ch s todo = elim todo [
    | [] ↦ ok s
    | k ∷ rest ↦ visit_key ch k s rest >>= λ (next, todo'). sweep fuel ch next todo'
  ]

  -- The second range: the largest weight with its hash and time so far.
  unfoldable pub heavier : MonoChain → ℕ × Bytes × ℕ → FideBlock → ℕ × Bytes × ℕ
  heavier ch (max_w, best, last_t) b =
      let w = or_zero 0 (lookup (hash b) ch.weight) in
      let t = or_zero 0 (lookup (hash b) ch.updata_t) in
      if ltb max_w w
      then (w, hash b, t)
      else if w == max_w
      then (if ltb t last_t then (max_w, hash b, t) else (max_w, best, last_t))
      else (max_w, best, last_t)

  unfoldable pub heaviest :
      MonoChain → List (Bytes × Option FideBlock) → List Bytes → ℕ × Bytes × ℕ → Outcome Bytes
  heaviest ch removeable [] sofar = ok sofar.1
  heaviest ch removeable (k ∷ todo) sofar = elim (lookup k removeable) [
    | none ↦ heaviest ch removeable todo sofar
    | some slot ↦ deref slot >>= λ b. heaviest ch removeable todo (heavier ch sofar b)
  ]

  -- The third range: the other blocks of the shard lose.
  unfoldable pub discard : ℕ → Bytes → List Bytes → Sweep → Outcome Sweep
  discard sid best [] s = ok s
  discard sid best (k ∷ todo) s = elim (lookup k s.removeable) [
    | none ↦ discard sid best todo s
    | some slot ↦ deref slot >>= λ b. discard sid best todo (
        if b.h.shard_idx == sid && not (bytes_eq (hash b) best)
        then record s {
          removeable = delete (hash b) s.removeable;
          lock_map = delete (hash b) s.lock_map;
        }
        else s)
  ]

  unfoldable pub unlock_best : ℕ → MonoChain → Sweep → Outcome Sweep
  unlock_best now ch s =
      heaviest ch s.removeable (order.visit (keys s.removeable)) (0, [], now) >>= λ best.
      deref (lookup best ch.blocks) >>= λ winner.
      discard winner.h.shard_idx best (order.visit (keys s.removeable)) s >>= λ left.
      ok (record left { lock_map = delete best left.lock_map })

  -- The loop while len(Removeable) != 0.
  unfoldable pub remove_loop : ℕ → ℕ → MonoChain → Sweep → Outcome Sweep
  remove_loop zero now ch s = out_of_fuel
  remove_loop (suc fuel) now ch s =
      let turn =
        sweep (suc (length (order.visit (keys s.removeable)) + length s.ref_cnt)) ch
          (record s { removed = false }) (order.visit (keys s.removeable))
        >>= λ swept.
            (if swept.removed then ok swept else unlock_best now ch swept)
            >>= remove_loop fuel now ch in
      if length s.removeable == 0 then ok s else turn

  -- top[i] = ch.BlockGs[i].Hash()
  unfoldable pub first_tops : MonoChain → ℕ → ℕ → Outcome (List Bytes)
  first_tops ch i zero = ok []
  first_tops ch i (suc n) = deref (get_elem? ch.block_gs i) >>= λ b.
      first_tops ch (suc i) n >>= λ rest. ok (hash b ∷ rest)

  unfoldable pub first_removeable :
      List FideBlock → List (Bytes × Option FideBlock) → List (Bytes × Option FideBlock)
  first_removeable [] m = m
  first_removeable (b ∷ bs) m = first_removeable bs (insert (hash b) (some b) m)

  unfoldable pub first_sweep : Config → MonoChain → List Bytes → Sweep
  first_sweep conf ch tops = record {
    bs = ch.blocks;
    ref_cnt = map (λ e. (e.0, pos conf.fide_shard_amount)) ch.blocks;
    tops = tops;
    lock_map = [];
    removeable = first_removeable ch.block_gs [];
    removed = false;
  }

  unfoldable pub best_tops : ℕ → Config → MonoChain → Outcome (List Bytes)
  best_tops now conf ch = first_tops ch 0 conf.fide_shard_amount >>= λ tops.
      let s = first_sweep conf ch tops in
      remove_loop (2 * (length s.ref_cnt + length s.removeable) + 2) now ch s >>= λ done.
      ok done.tops

  module _ (conf : Config) (digest : Transaction → Bytes)
      (visit_blocks : List (Bytes × FideBlock) → List (Bytes × FideBlock)) where
    unfoldable pub append_all : Pool → List Transaction → Outcome Pool
    append_all pool [] = ok pool
    append_all pool (tx ∷ rest) = append conf digest pool tx >>= λ next. append_all next rest

    -- The ranges over oldAnc and over newAnc: `change` is done with the transactions of the blocks
    -- that the other one does not have.
    unfoldable pub change_blocks :
        (Pool → List Transaction → Outcome Pool)
        → List (Bytes × FideBlock)
        → List (Bytes × FideBlock)
        → Pool
        → Outcome Pool
    change_blocks change others [] pool = ok pool
    change_blocks change others ((k, b) ∷ rest) pool =
        (elim (lookup k others) [ none ↦ change pool (txs b.b) | some _ ↦ ok pool ])
        >>= change_blocks change others rest

    -- The last loop, for the shards from `i` on and their new tops.
    unfoldable pub move_tops : ℕ → List Bytes → MonoChain → Outcome MonoChain
    move_tops i [] ch = ok ch
    move_tops i (h ∷ tops) ch =
        (if bytes_eq (top ch i) h
          then ok ch.tx_pool
          else anc hash ch (top ch i) >>= λ old. anc hash ch h >>= λ new.
              change_blocks append_all new (visit_blocks old) ch.tx_pool
              >>= change_blocks (remove_txs conf digest) old (visit_blocks new))
        >>= λ pool.
            move_tops (suc i) tops
              (record ch { tx_pool = pool; top_block_hash = insert i h ch.top_block_hash })

    unfoldable pub find_best_branches : ℕ → MonoChain → Outcome MonoChain
    find_best_branches now ch = best_tops now conf ch >>= λ tops. move_tops 0 tops ch
