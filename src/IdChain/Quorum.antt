-- ===== src/IdChain/Quorum.antt =====
-- The thresholds of idChain/IdChain.go: two quorums meet in a node that is not faulty, and the nodes
-- that are not faulty are a quorum.
use monosulfide.Prelude.{
  ℕ, ◌+◌, ◌*◌, ◌/◌, ◌^◌, ◌≤◌, ◌<◌, ◌≡◌, refl, Bool, true, not, ◌&&◌, [], ◌∷◌, Bool-cases, inl, inr,
  arith,
}
use mathlib.Core.List.{Mem, mem-cons_self, mem-cons_of_mem}
use monosulfide.Content.{Bytes}
use monosulfide.IdChain.{
  Node, NodeMap, is_running, count, running_node_amount, sub64, threshold_of, threshold,
}

-- The number of nodes that a threshold leaves out.
threshold_of_value : (n : ℕ) → 0 < n → n + 2 < 2 ^ 64 → (threshold_of n + (n + 2) / 3 ≡ n + 1)
unfolding threshold_of sub64
threshold_of_value n pos bound = omega arith

-- A running node with a property.
unfoldable pub running_and : (Bytes × Node → Bool) → Bytes × Node → Bool
running_and p kv = is_running kv.1 && p kv

count-meet :
    (p q f : Bytes × Node → Bool) (m : NodeMap)
    → count (running_and p) m + count (running_and q) m
      ≤ running_node_amount m
        + count (running_and f) m
        + count (running_and λ kv. p kv && q kv && not (f kv)) m
unfolding count running_and running_node_amount
count-meet p q f [] = omega arith
count-meet p q f (kv ∷ m) = ground (arith, count-meet p q f m)

count-rest :
    (f : Bytes × Node → Bool) (m : NodeMap)
    → count (running_and λ kv. not (f kv)) m + count (running_and f) m ≡ running_node_amount m
unfolding count running_and running_node_amount
count-rest f [] = refl
count-rest f (kv ∷ m) = ground (arith, count-rest f m)

count-Mem :
    (p : Bytes × Node → Bool) (m : NodeMap)
    → 0 < count p m
    → (kv : Bytes × Node) × Mem kv m × (p kv ≡ true)
unfolding count
count-Mem p [] pos = ground arith
count-Mem p (kv ∷ m) pos = elim (Bool-cases (p kv)) [
  | inl hit ↦ (kv, mem-cons_self, hit)
  | inr miss ↦
      let (found, there, holds) = count-Mem p m (ground (arith, miss)) in
      (found, mem-cons_of_mem kv there, holds)
]

-- Two sets of running nodes that each reach the threshold have a running node in common that is not
-- faulty, if some node runs, fewer than a third of the running nodes are faulty, and the number of
-- running nodes is below 2 ^ 64 - 2.
pub quorums_meet :
    (m : NodeMap) (p q faulty : Bytes × Node → Bool)
    → 0 < running_node_amount m
    → running_node_amount m + 2 < 2 ^ 64
    → count (running_and faulty) m * 3 < running_node_amount m
    → threshold m ≤ count (running_and p) m
    → threshold m ≤ count (running_and q) m
    → (kv : Bytes × Node) × Mem kv m × (running_and (λ n. p n && q n && not (faulty n)) kv ≡ true)
unfolding threshold
quorums_meet m p q faulty pos bound few enough_p enough_q = count-Mem _ m (
    omega (
      arith,
      count-meet p q faulty m,
      threshold_of_value (running_node_amount m) pos bound,
      few,
      enough_p,
      enough_q,
    ))

-- The running nodes that are not faulty reach the threshold alone, under the same conditions.
pub threshold_reachable :
    (m : NodeMap) (faulty : Bytes × Node → Bool)
    → 0 < running_node_amount m
    → running_node_amount m + 2 < 2 ^ 64
    → count (running_and faulty) m * 3 < running_node_amount m
    → threshold m ≤ count (running_and λ kv. not (faulty kv)) m
unfolding threshold
threshold_reachable m faulty pos bound few =
    omega (arith, count-rest faulty m, threshold_of_value (running_node_amount m) pos bound, few)
