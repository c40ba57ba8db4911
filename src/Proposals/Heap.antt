-- ===== src/Proposals/Heap.antt =====
-- The heap order of the buffer, and the two loops that restore it.
use mathlib.Core.List.{Perm}
use mathlib.Core.List.Perm
use monosulfide.Prelude.{
  ℕ, zero, suc, ◌-◌, ◌/◌, ◌≤◌, ◌<◌, ◌≡◌, ◌≢◌, List, [], ltb, ◌==◌, if◌then◌else◌, length, arith, ok,
  Returns, returns, Returns-weaken, Returns-test,
}
use monosulfide.Prelude.Arrays.{
  get_or, get_elem?-get_or, exchange, get_or-exchange, exchange-perm, length-exchange,
}
use monosulfide.Content.{Bytes}
use monosulfide.Proposals.{Proposal, get, less, swap, rise}

abbrev pub blank : Proposal
blank = record { req_type = []; vars = [] }

module _ (priority : Bytes → ℕ) where
  -- The priority in slot `i`.
  abbrev pub key : List Proposal → ℕ → ℕ
  key a i = priority (get_or a (i - 1) blank).req_type

  -- No slot is more urgent than its father.
  abbrev pub IsHeap : List Proposal → Type 0
  IsHeap a = (c : ℕ) → 2 ≤ c → c ≤ length a → key a (c / 2) ≤ key a c

  -- In order but for the edge above slot `i`.
  pub record RiseInv (a : List Proposal) (i : ℕ) : Type 0 where
    pub lower : 1 ≤ i
    pub upper : i ≤ length a
    pub edges : (c : ℕ) → 2 ≤ c → c ≤ length a → c ≢ i → key a (c / 2) ≤ key a c
    pub across : (c : ℕ) → 2 ≤ c → c ≤ length a → c / 2 ≡ i → 2 ≤ i → key a (i / 2) ≤ key a c

  -- In order but for the edges below slot `i`.
  pub record SinkInv (a : List Proposal) (i : ℕ) : Type 0 where
    pub lower : 1 ≤ i
    pub edges : (c : ℕ) → 2 ≤ c → c ≤ length a → c / 2 ≢ i → key a (c / 2) ≤ key a c
    pub across : (c : ℕ) → 2 ≤ c → c ≤ length a → c / 2 ≡ i → 2 ≤ i → key a (i / 2) ≤ key a c

  -- A heap of the same proposals.
  abbrev pub Ordered : List Proposal → List Proposal → Type 0
  Ordered a b = IsHeap b × Perm b a

pub get_lem :
    (a : List Proposal) (i : ℕ) → 1 ≤ i → i ≤ length a → get a i ≡ ok (get_or a (i - 1) blank)
unfolding get
get_lem a zero l u = absurd (omega arith)
get_lem a (suc i) l u = ground (arith, get_elem?-get_or a i blank)

abbrev pub swapped : List Proposal → ℕ → ℕ → List Proposal
swapped a i j = exchange blank a (i - 1) (j - 1)

module _ (priority : Bytes → ℕ) (a : List Proposal) (i j : ℕ) (li : 1 ≤ i) (ui : i ≤ length a)
    (lj : 1 ≤ j) (uj : j ≤ length a) where
  pub less_lem : less priority a i j ≡ ok (ltb (key priority a i) (key priority a j))
  unfolding less
  less_lem = rw (get_lem a i li ui, get_lem a j lj uj)

  pub swap_lem : swap a i j ≡ ok (swapped a i j)
  unfolding swap
  swap_lem = rw (get_lem a i li ui, get_lem a j lj uj)

  pub swapped-perm : Perm (swapped a i j) a
  swapped-perm = exchange-perm blank a (i - 1) (j - 1) (omega arith) (omega arith)

  pub key-swapped :
      (c : ℕ)
      → 1 ≤ c
      → key priority (swapped a i j) c ≡ (
          if c == j
          then key priority a i
          else if c == i
          then key priority a j
          else key priority a c)
  key-swapped c lc =
      ground (arith, get_or-exchange blank a (i - 1) (j - 1) (omega arith) (omega arith) (c - 1))

module _ (priority : Bytes → ℕ) where
  rise-RiseInv :
      (a : List Proposal) (i : ℕ)
      → RiseInv priority a i
      → 2 ≤ i
      → key priority a i < key priority a (i / 2)
      → RiseInv priority (swapped a i (i / 2)) (i / 2)
  rise-RiseInv a i v two below =
      let same = length-exchange blank a (i - 1) (i / 2 - 1) in
      let f : ℕ = i / 2 in
      let at =
        key-swapped priority a i (i / 2) v.lower v.upper (omega arith) (omega (arith, v.upper)) in
      record {
        lower = omega arith;
        upper = omega (arith, v.upper);
        edges = λ c l u n. ground (arith, at c, at (c / 2), v.edges c, v.across c);
        across = λ c l u e t. ground (arith, at c, at (i / 2 / 2), v.edges c, v.edges (i / 2));
      }

  pub rise_orders :
      (fuel : ℕ) (a : List Proposal) (i : ℕ)
      → i ≤ fuel
      → RiseInv priority a i
      → Returns (Ordered priority a) (rise fuel priority a i)
  unfolding rise
  rise_orders zero a i h v = absurd (omega (arith, v.lower))
  rise_orders (suc fuel) a i h v =
      Returns-test (i == 1) (λ e. returns a ((λ c l u. v.edges c l u (ground arith)), Perm.refl a))
        λ n.
          let two : 2 ≤ i = ground (arith, v.lower) in
          rw
            (
              less_lem priority a i (i / 2) v.lower v.upper (omega arith) (omega (arith, v.upper)),
              swap_lem priority a i (i / 2) v.lower v.upper (omega arith) (omega (arith, v.upper)),
            )
            (Returns-test (ltb (key priority a i) (key priority a (i / 2)))
              (λ below.
                Returns-weaken
                  (rise_orders fuel (swapped a i (i / 2)) (i / 2) (omega arith)
                    (rise-RiseInv a i v two (ground arith)))
                  λ b o. (
                    o.0,
                    Perm.trans o.1 (
                        swapped-perm priority a i (i / 2) v.lower v.upper (omega arith)
                          (omega (arith, v.upper))),
                  ))
              (λ above. returns a ((λ c l u. ground (arith, v.edges c)), Perm.refl a)))

  pub root_least_below :
      (k : ℕ) (a : List Proposal) (i : ℕ)
      → IsHeap priority a
      → i < k
      → 1 ≤ i
      → i ≤ length a
      → key priority a 1 ≤ key priority a i
  root_least_below zero a i h f l u = absurd (omega arith)
  root_least_below (suc k) a i h f l u = ground (arith, h i, root_least_below k a (i / 2) h)
