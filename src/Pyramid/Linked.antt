-- ===== src/Pyramid/Linked.antt =====
-- The chains that a shard holds lead back from their tops, so that printChain ends.
use mathlib.Core.List.{Memᴰ}
use monosulfide.Prelude.{
  ℕ, zero, suc, ◌≤◌, ◌≡◌, inl, inr, refl, ap, true, false, List, [], ◌∷◌, ◌++◌, none, some, length,
  bytes, bytes_eq, nat_eq, bytes_eq_iff, arith, Bool-cases, Returns, returns, Returns-bind,
}
use monosulfide.Prelude.Maps.{lookup, insert, lookup-insert}
use monosulfide.Content.{Bytes}
use monosulfide.Pyramid.{StdBlock, PyrChain, hash_at, print_loop, print_chain, print_all}

-- From the block under a hash the parents in chain `i` lead to the block that stands on `id_top`, over
-- so many blocks at most.
pub data Leads (id_top : Bytes) (blocks : List (Bytes × StdBlock)) (i : ℕ)
    : ℕ → Bytes → Type 0 where
  origin :
      {d : ℕ} {k : Bytes} (b : StdBlock) (ps : List (ℕ × Bytes))
      → lookup k blocks ≡ some b
      → b.h.parent_hashes ≡ some ps
      → bytes_eq (hash_at i ps) id_top ≡ true
      → Leads id_top blocks i (suc d) k
  onward :
      {d : ℕ} {k : Bytes} (b : StdBlock) (ps : List (ℕ × Bytes))
      → lookup k blocks ≡ some b
      → b.h.parent_hashes ≡ some ps
      → bytes_eq (hash_at i ps) id_top ≡ false
      → Leads id_top blocks i d (hash_at i ps)
      → Leads id_top blocks i (suc d) k

-- The shard holds chain `i`.
abbrev pub Holds : PyrChain → ℕ → Type 0
Holds ch i = Memᴰ i (ch.owner_shard.related_i_shard ++ ch.owner_shard.sid ∷ [])

pub record IsLinked (id_top : Bytes) (ch : PyrChain) : Type 0 where
  pub outside : lookup id_top ch.blocks ≡ none
  pub leads :
      (i : ℕ)
      → Holds ch i
      → (d : ℕ) × Leads id_top ch.blocks i d (hash_at i ch.top_block_hash) × (d ≤ length ch.blocks)

pub still :
    (blocks : List (Bytes × StdBlock)) (h : Bytes) (new : StdBlock)
    → lookup h blocks ≡ none
    → (k : Bytes) (b : StdBlock) → lookup k blocks ≡ some b
    → lookup k (insert h new blocks) ≡ some b
still blocks h new fresh k b found = elim (Bool-cases (bytes_eq h k)) [
  | inl hit ↦
      let e : h ≡ k = (bytes_eq_iff h k).0 hit in absurd (ground (arith, fresh, rw (← e) at found))
  | inr miss ↦ ground (arith, lookup-insert h k new blocks, miss, found)
]

module _ (id_top : Bytes) (blocks : List (Bytes × StdBlock)) (i : ℕ) where
  pub Leads-block :
      {d : ℕ} {k : Bytes} → Leads id_top blocks i d k → (b : StdBlock) × (lookup k blocks ≡ some b)
  Leads-block (origin b ps found parents last) = (b, found)
  Leads-block (onward b ps found parents more rest) = (b, found)

  -- A new block leaves what leads back alone.
  pub Leads-insert :
      {d : ℕ} {k : Bytes} (h : Bytes) (new : StdBlock)
      → lookup h blocks ≡ none
      → Leads id_top blocks i d k
      → Leads id_top (insert h new blocks) i d k
  Leads-insert {d} {k} h new fresh (origin b ps found parents last) =
      origin b ps (still blocks h new fresh k b found) parents last
  Leads-insert {d} {k} h new fresh (onward b ps found parents more rest) =
      onward b ps (still blocks h new fresh k b found) parents more (Leads-insert h new fresh rest)

module _ (id_top : Bytes) (ch : PyrChain) where
  print_loop-Returns :
      (i fuel d : ℕ) (k : Bytes) (b : StdBlock)
      → Leads id_top ch.blocks i d k
      → lookup k ch.blocks ≡ some b
      → d ≤ fuel
      → Returns (λ nonces. Unit {0}) (print_loop id_top ch i fuel b)
  unfolding print_loop
  print_loop-Returns i zero d k b (origin c ps there parents last) found low = absurd (omega arith)
  print_loop-Returns i zero d k b (onward c ps there parents more rest) found low =
      absurd (omega arith)
  print_loop-Returns i (suc fuel) zero k b leads found low = elim leads [ ]
  print_loop-Returns i (suc fuel) (suc d) k b (origin c ps there parents last) found low =
      let same : c ≡ b = ground (arith, there, found) in
      rw (rw same at parents, last) (returns _ tt)
  print_loop-Returns i (suc fuel) (suc d) k b (onward c ps there parents more rest) found low =
      let same : c ≡ b = ground (arith, there, found) in
      let (next, beyond) = Leads-block id_top ch.blocks i rest in
      rw (rw same at parents, more, beyond)
        (Returns-bind _ (print_loop-Returns i fuel d (hash_at i ps) next rest beyond (omega arith))
          λ nonces _. returns _ tt)

  print_chain-Returns :
      (i : ℕ)
      → IsLinked id_top ch
      → Holds ch i
      → Returns (λ nonces. Unit {0}) (print_chain id_top ch i)
  unfolding print_chain
  print_chain-Returns i linked mine =
      let (d, leads, low) = linked.leads i mine in
      let (b, found) = Leads-block id_top ch.blocks i leads in
      rw found
        (print_loop-Returns i (length ch.blocks) d (hash_at i ch.top_block_hash) b leads found low)

  pub print_all-Returns :
      (is : List ℕ)
      → IsLinked id_top ch
      → ((i : ℕ) → Memᴰ i is → Holds ch i)
      → Returns (λ lines. length lines ≡ length is) (print_all id_top ch is)
  unfolding print_all
  print_all-Returns [] linked mine = returns [] refl
  print_all-Returns (i ∷ is) linked mine =
      Returns-bind _ (print_chain-Returns i linked (mine i (Memᴰ.head refl))) λ nonces _.
        Returns-bind _ (print_all-Returns is linked (λ j mem. mine j (Memᴰ.tail mem)))
          λ rest e. returns (nonces ∷ rest) (ap suc e)
