-- ===== src/Proposals/Sink.antt =====
-- The loop of Pop restores the heap order below the root.
use mathlib.Core.List.Perm
use monosulfide.Prelude.{
  ℕ, zero, suc, ◌+◌, ◌-◌, ◌*◌, ◌/◌, ◌≤◌, ◌<◌, ◌≡◌, ◌⊎◌, inl, inr, List, Option, none, some, ltb,
  leb, if◌then◌else◌, length, arith, Returns, returns, Returns-bind, Returns-weaken, Returns-test,
}
use monosulfide.Prelude.Arrays.{length-exchange}
use monosulfide.Content.{Bytes}
use monosulfide.Proposals.{Proposal, slot_amount, child, sink}
use monosulfide.Proposals.Heap.{
  key, SinkInv, Ordered, less_lem, swap_lem, swapped, swapped-perm, blank, key-swapped,
}

child_cases : (c i : ℕ) → c / 2 ≡ i → (c ≡ i * 2) ⊎ (c ≡ i * 2 + 1)
child_cases c i f = omega arith

module _ (priority : Bytes → ℕ) where
  -- The most urgent of the slots whose father is `i`.
  record IsLeastChild (a : List Proposal) (i t : ℕ) : Type 0 where
    father : t / 2 ≡ i
    inside : t ≤ length a
    least : (c : ℕ) → c ≤ length a → c / 2 ≡ i → key priority a t ≤ key priority a c

  abbrev Chosen : List Proposal → ℕ → Option ℕ → Type 0
  Chosen a i none = length a < 2 * i
  Chosen a i (some t) = IsLeastChild a i t

  child_chooses : (a : List Proposal) (i : ℕ) → 1 ≤ i → Returns (Chosen a i) (child priority a i)
  unfolding child slot_amount
  child_chooses a i l =
      Returns-test (leb (length a + 1) (i * 2 + 1))
        (λ out.
          Returns-test (leb (length a + 1) (i * 2)) (λ e. returns none (ground arith))
            (λ e. returns (some (i * 2)) (record {
              father = omega arith;
              inside = ground arith;
              least = λ c u f. let same : c ≡ i * 2 = ground arith in rw same (omega arith);
            })))
        λ both.
          let u : i * 2 + 1 ≤ length a = ground arith in
          rw (less_lem priority a (i * 2 + 1) (i * 2) (omega arith) u (omega arith) (omega arith)) (
            returns
              (some (
                if ltb (key priority a (i * 2 + 1)) (key priority a (i * 2))
                then i * 2 + 1
                else i * 2))
              (record {
                father = ground arith;
                inside = ground arith;
                least = λ c v f. elim (child_cases c i f) [
                  | inl e ↦ rw e (ground arith)
                  | inr e ↦ rw e (ground arith)
                ];
              }))

  sink-SinkInv :
      (a : List Proposal) (i t : ℕ)
      → SinkInv priority a i
      → IsLeastChild a i t
      → key priority a t < key priority a i
      → SinkInv priority (swapped a t i) t
  sink-SinkInv a i t v least below =
      let same = length-exchange blank a (t - 1) (i - 1) in
      let at =
        key-swapped priority a t i (omega (arith, v.lower, least.father)) least.inside v.lower
          (omega (arith, v.lower, least.father, least.inside)) in
      record {
        lower = omega (arith, v.lower, least.father);
        edges = λ c l u n.
            ground (
              arith,
              at c,
              at (c / 2),
              v.edges c,
              v.across t,
              least.father,
              least.least c,
              v.lower,
            );
        across = λ c l u e two. ground (arith, at c, at i, v.edges c, least.father, v.lower);
      }

  pub sink_orders :
      (fuel : ℕ) (a : List Proposal) (i : ℕ)
      → 1 ≤ fuel
      → length a < i + fuel
      → SinkInv priority a i
      → Returns (Ordered priority a) (sink fuel priority a i)
  unfolding sink
  sink_orders zero a i one h v = absurd (omega arith)
  sink_orders (suc fuel) a i one h v = Returns-bind _ (child_chooses a i v.lower) (elim [
    | none ↦ λ out. returns a ((λ c l u. v.edges c l u (omega arith)), Perm.refl a)
    | some t ↦ λ least.
        let lt : 1 ≤ t = omega (arith, v.lower, least.father) in
        let ui : i ≤ length a = omega (arith, v.lower, least.father, least.inside) in
        rw
          (
            less_lem priority a t i lt least.inside v.lower ui,
            swap_lem priority a t i lt least.inside v.lower ui,
          )
          (Returns-test (ltb (key priority a t) (key priority a i))
            (λ below.
              Returns-weaken
                (sink_orders fuel (swapped a t i) t
                  (omega (arith, v.lower, least.father, least.inside))
                  (rw (length-exchange blank a (t - 1) (i - 1))
                    (omega (arith, v.lower, least.father)))
                  (sink-SinkInv a i t v least (ground arith)))
                λ b o.
                  (o.0, Perm.trans o.1 (swapped-perm priority a t i lt least.inside v.lower ui)))
            (λ above. returns a ((λ c l u. ground (arith, v.edges c, least.least c)), Perm.refl a)))
  ])
