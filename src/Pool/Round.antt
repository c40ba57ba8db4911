-- ===== src/Pool/Round.antt =====
-- The round-robin choice of PackageRelayTxs ends, and fills at most one block.
use monosulfide.Prelude.{
  ℕ, zero, suc, ◌+◌, ◌≤◌, ◌<◌, ◌≡◌, refl, Bool, true, false, List, [], ◌∷◌, inl, inr, Option-cases,
  length, length-append, replicate, ltb, get_elem?, arith, Returns, returns, Returns-bind,
  Returns-test,
}
use monosulfide.Tx.{Transaction}
use monosulfide.Pool.Package.{Packing, pack_round, pack_loop, pack, behind}

-- The number of the chosen transactions.
unfoldable pub total : List (List Transaction) → ℕ
total [] = 0
total (txs ∷ chosen) = length txs + total chosen

-- What one round does: it counts what it chooses, stays within the block, and tells truly that it
-- has chosen something.
record Counted (max : ℕ) (chosen : List (List Transaction)) (cnt : ℕ) (added : Bool) (p : Packing)
    : Type 0 where
  counted : total p.chosen + cnt ≡ p.cnt + total chosen
  grows : cnt ≤ p.cnt
  bounded : cnt < max → p.cnt ≤ max
  progress : added ≡ false → p.round_add ≡ true → cnt < p.cnt

pack_round-Counted :
    (max round : ℕ) (groups chosen : List (List Transaction)) (cnt : ℕ) (added : Bool)
    → Counted max chosen cnt added (pack_round max round groups chosen cnt added)
unfolding pack_round behind total
pack_round-Counted max round [] chosen cnt added = record {
  counted = omega arith;
  grows = omega arith;
  bounded = λ h. omega arith;
  progress = λ h k. ground (arith, h, k);
}
pack_round-Counted max round (group ∷ groups) [] cnt added = record {
  counted = omega arith;
  grows = omega arith;
  bounded = λ h. omega arith;
  progress = λ h k. ground (arith, h, k);
}
pack_round-Counted max round (group ∷ groups) (txs ∷ chosen) cnt added =
    let skip = pack_round-Counted max round groups chosen cnt added in
    let took = pack_round-Counted max round groups chosen (suc cnt) true in
    elim (Option-cases (get_elem? group round)) [
      | inl short ↦
          rw (pack_round, short)
            (record {
              counted = ground (arith, skip.counted);
              grows = ground (arith, skip.grows);
              bounded = λ h. ground (arith, skip.bounded, h);
              progress = λ h k. ground (arith, skip.progress, h, k);
            })
      | inr (tx, there) ↦
          let one = length-append txs (tx ∷ []) in
          rw (pack_round, there)
            (record {
              counted = ground (arith, took.counted, one);
              grows = ground (arith, took.grows);
              bounded = λ h. ground (arith, took.bounded, h);
              progress = λ h k. ground (arith, took.grows, h, k);
            })
    ]

pack_loop-bounded :
    (fuel max round : ℕ) (groups : List (List Transaction)) (p : Packing)
    → total p.chosen ≡ p.cnt
    → p.cnt ≤ max
    → max < fuel + p.cnt
    → Returns (λ q. total q.chosen ≤ max) (pack_loop fuel max round groups p)
unfolding pack_loop
pack_loop-bounded zero max round groups p same fits enough = absurd (omega arith)
pack_loop-bounded (suc fuel) max round groups p same fits enough =
    let c = pack_round-Counted max round groups p.chosen p.cnt false in
    let next = pack_round max round groups p.chosen p.cnt false in
    Returns-test (ltb p.cnt max)
      (λ more.
        Returns-test next.round_add
          (λ some_more.
            pack_loop-bounded fuel max (suc round) groups next (omega (arith, c.counted, same))
              (c.bounded (ground (arith, more))) (omega (arith, c.progress refl some_more, enough)))
          (λ none_more.
            returns next (omega (arith, c.counted, same, c.bounded (ground (arith, more))))))
      (λ full. returns p (omega (arith, same, fits)))

total-replicate : (n : ℕ) → total (replicate n []) ≡ 0
unfolding total
total-replicate zero = refl
total-replicate (suc n) = omega (arith, total-replicate n)

-- The round-robin choice ends within its fuel for all groups, and chooses no more transactions than
-- a block may hold.
pub total-pack_le :
    (max : ℕ) (groups : List (List Transaction))
    → Returns (λ chosen. total chosen ≤ max) (pack max groups)
unfolding pack
total-pack_le max groups =
    Returns-bind _
      (pack_loop-bounded (suc max) max 0 groups _ (total-replicate (length groups)) (omega arith)
        (omega arith))
      λ q fits. returns q.chosen fits
