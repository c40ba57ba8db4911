-- ===== src/Assign/Placed.antt =====
-- Each node stands in the map of its shard, and in no other one.
use native.Mathlib.Nat.{mod-lt, zero-lt-suc}
use monosulfide.Prelude.{
  ℕ, zero, suc, ◌%◌, ◌/◌, ◌&&◌, ◌<◌, ◌≤◌, ◌≡◌, refl, List, [], ◌∷◌, Option, none, some, length,
  get_elem?, set, replicate, length-set, length-replicate, ◌==◌, Outcome, ok, panic, out_of_fuel,
  if◌then◌else◌, bytes, bytes_eq, arith, Bool-cases, inl, inr, ap, bytes_eq_iff, Returns, returns,
  Returns-bind, Returns-value, Returns-weaken, Returns-test, ◌∙◌,
}
use monosulfide.Prelude.Arrays.{get_or, get_elem?-get_or, get_or-set}
use monosulfide.Prelude.Maps.{lookup, insert, lookup-insert}
use monosulfide.Prelude.Int.{pos}
use monosulfide.Content.{Bytes}
use monosulfide.Tx.{modulo}
use monosulfide.IdChain.{Node, NodeMap}
use monosulfide.Assign.{Setting, port, atoi, tenth_mod, hash_to_range, place, assign, shard_maps}

-- Each key stands there once.
pub data Distinct : NodeMap → Type 0 where
  no_node : Distinct []
  one_more :
      {key : Bytes} {node : Node} {rest : NodeMap}
      → lookup key rest ≡ none
      → Distinct rest
      → Distinct ((key, node) ∷ rest)

-- Each node has an address with a port that is no negative number; text that is no number counts as 0.
abbrev pub HasPort : Node → Type 0
HasPort node = (p : Bytes) × (m : ℕ) × (port node ≡ ok p) × (atoi p ≡ pos m)

abbrev pub Addressed : NodeMap → Type 0
Addressed [] = Unit
Addressed ((key, node) ∷ rest) = HasPort node × Addressed rest

modulo_lt : (x n : ℕ) → 1 ≤ n → x % n < n
modulo_lt x zero some_left = absurd (omega arith)
modulo_lt x (suc n) some_left = mod-lt x (zero-lt-suc n)

modulo-low : (x n : ℕ) → 1 ≤ n → Returns (λ r. r < n) (modulo x n)
unfolding modulo
modulo-low x n some_left =
    Returns-test (n == 0) (λ none_left. absurd (ground (arith, none_left, some_left)))
      λ _. returns _ (modulo_lt x n some_left)

get_or-replicate : (n t : ℕ) → get_or (replicate {A = NodeMap} n []) t [] ≡ []
get_or-replicate zero t = refl
get_or-replicate (suc n) zero = refl
get_or-replicate (suc n) (suc t) = get_or-replicate n t

abbrev kept : Node → ℕ → Outcome ℕ → Option Node
kept node t (ok s) = if s == t then some (record node { shard_id = s }) else none
kept node t panic = none
kept node t out_of_fuel = none

-- A node that is written into one of the maps.
stored :
    (maps : List NodeMap) (s t : ℕ) (k key : Bytes) (node : Node)
    → s < length maps
    → lookup key (get_or (set maps s (insert k node (get_or maps s []))) t []) ≡ (
        if s == t
        then (if bytes_eq k key then some node else lookup key (get_or maps t []))
        else lookup key (get_or maps t []))
stored maps s t k key node low = ground (
  arith,
  get_or-set maps s t (insert k node (get_or maps s [])) [] low,
  lookup-insert k key node (get_or maps s []),
)

module _ (sum256 modulus exponent : Bytes → Bytes) (conf : Setting) (rand : ℕ) where
  abbrev pub place_of : Node → Outcome ℕ
  place_of = place sum256 modulus exponent conf rand

  -- The node in the map of shard `t`, if that is its shard.
  abbrev pub home : Node → ℕ → Option Node
  home node t = kept node t (place_of node)

  home-placed :
      (node : Node) (s t : ℕ)
      → place_of node ≡ ok s
      → home node t ≡ (if s == t then some (record node { shard_id = s }) else none)
  home-placed node s t e = ap (kept node t) e

  place-low :
      1 ≤ conf.shard_amount
      → conf.spy_at_shard < conf.shard_amount
      → (node : Node) → HasPort node
      → Returns (λ s. s < conf.shard_amount) (place_of node)
  unfolding place hash_to_range tenth_mod
  place-low some_shard spy node (p, m, at_port, number) =
      rw (at_port, number)
        (Returns-bind {P = λ i. (r : ℕ) × (i ≡ pos r) × (r < conf.shard_amount)} _
          (Returns-test conf.real_rand
            (λ _.
              Returns-bind _ (modulo-low _ conf.shard_amount some_shard)
                λ r low. returns _ (r, refl, low))
            λ _.
              Returns-bind _ (modulo-low (m / 10) conf.shard_amount some_shard)
                λ r low. returns _ (r, refl, low))
          λ i (r, e, low). rw e (elim (Bool-cases (bytes_eq p conf.main_port && conf.enable_spy)) [
            | inl spies ↦ rw spies (returns _ spy)
            | inr honest ↦ rw honest (returns _ low)
          ]))

  abbrev Placed : NodeMap → List NodeMap → List NodeMap → Type 0
  Placed nodes maps after =
      (key : Bytes) (t : ℕ)
      → lookup key (get_or after t []) ≡ elim (lookup key nodes) [
        | none ↦ lookup key (get_or maps t [])
        | some node ↦ elim (home node t) [
          | none ↦ lookup key (get_or maps t [])
          | some placed ↦ some placed
        ]
      ]

  assign-Placed :
      1 ≤ conf.shard_amount
      → conf.spy_at_shard < conf.shard_amount
      → (nodes : NodeMap) (maps : List NodeMap) → Distinct nodes
      → Addressed nodes
      → length maps ≡ conf.shard_amount
      → Returns
          (λ out. Placed nodes maps out.1)
          (assign sum256 modulus exponent conf rand nodes maps)
  unfolding assign lookup
  assign-Placed some_shard spy [] maps no_node addressed size = returns _ λ key t. refl
  assign-Placed some_shard spy ((k, node) ∷ rest) maps (one_more new distinct) (has_port, addressed)
        size =
      let (s, at_s, low) = Returns-value (place-low some_shard spy node has_port) in
      let m = get_or maps s [] in
      let found : get_elem? maps s ≡ some m =
        get_elem?-get_or maps s [] (omega (arith, low, size)) in
      let placed = record node { shard_id = s } in
      rw (at_s, found)
        (Returns-bind _
          (assign-Placed some_shard spy rest (set maps s (insert k placed m)) distinct addressed
            (length-set maps s (insert k placed m) ∙ size))
          λ out h. returns _ λ key t.
            let at_home = home-placed node s t at_s in
            let mine = stored maps s t k key placed (omega (arith, low, size)) in
            elim (Bool-cases (bytes_eq k key)) [
              | inl hit ↦
                  let gone : lookup key rest ≡ none = rw (← (bytes_eq_iff k key).0 hit) new in
                  ground (arith, h key t, gone, at_home, mine, hit)
              | inr miss ↦ ground (arith, h key t, mine, miss)
            ])

  -- With one shard at least, the shard of the spy among the shards, and a port in the address of each
  -- node that is no negative number, the nodes are assigned without a panic; each then stands, with the number of its shard, in the map of that shard and in no other
  -- map, and the maps hold no other nodes.
  pub shard_maps-Placed :
      1 ≤ conf.shard_amount
      → conf.spy_at_shard < conf.shard_amount
      → (nodes : NodeMap) → Distinct nodes
      → Addressed nodes
      → Returns
          (λ out.
            (key : Bytes) (t : ℕ)
            → lookup key (get_or out.1 t [])
              ≡ elim (lookup key nodes) [ none ↦ none | some node ↦ home node t ])
          (shard_maps sum256 modulus exponent conf rand nodes)
  unfolding shard_maps lookup
  shard_maps-Placed some_shard spy nodes distinct addressed =
      Returns-weaken
        (assign-Placed some_shard spy nodes (replicate conf.shard_amount []) distinct addressed
          (length-replicate conf.shard_amount []))
        λ out placed key t. ground (arith, placed key t, get_or-replicate conf.shard_amount t)
