-- ===== src/Assign/Mains.antt =====
-- The shards after RDomain.
use monosulfide.Prelude.{
  ℕ, zero, suc, ◌<◌, ◌≡◌, refl, ap, ◌≤◌, List, [], ◌∷◌, none, some, bytes, ◌∙◌, Ensures, ensured,
  panics, Ensures-bind, Ensures-step, Ensures-weaken, get_elem?, deref, Returns-value,
}
use monosulfide.Prelude.Arrays.{get_or}
use monosulfide.Prelude.Maps.{lookup}
use monosulfide.Content.{Bytes}
use monosulfide.IdChain.{NodeMap}
use monosulfide.Assign.{Setting, ShardEntry, select_shard_main, select_mains, r_domain}
use monosulfide.Assign.Placed.{Distinct, Addressed, home, shard_maps-Placed}

-- NodeMap of shard `t`.
abbrev nodes_of : List ShardEntry → ℕ → NodeMap
nodes_of [] t = []
nodes_of (shard ∷ shards) zero = shard.node_map
nodes_of (shard ∷ shards) (suc t) = nodes_of shards t

-- What a shard has after the loop.
abbrev given : NodeMap → NodeMap → NodeMap
given [] old = old
given (kv ∷ m) old = kv ∷ m

given_bare : (m : NodeMap) → given m [] ≡ m
given_bare [] = refl
given_bare (kv ∷ m) = refl

one_further :
    (m : NodeMap) (maps : List NodeMap) (shard next : ShardEntry) (shards rest : List ShardEntry)
    → next.node_map ≡ given m shard.node_map
    → ((t : ℕ) → nodes_of rest t ≡ given (get_or maps t []) (nodes_of shards t))
    → (t : ℕ)
    → nodes_of (next ∷ rest) t ≡ given (get_or (m ∷ maps) t []) (nodes_of (shard ∷ shards) t)
one_further m maps shard next shards rest here more zero = here
one_further m maps shard next shards rest here more (suc t) = more t

module _ (sum256 modulus exponent : Bytes → Bytes) (conf : Setting) (rand : ℕ) where
  -- Maps beyond the last shard are empty, or the loop panics.
  select_mains-beyond :
      (i : ℕ) (maps : List NodeMap)
      → Ensures
          (λ after. (after ≡ []) × ((t : ℕ) → get_or maps t [] ≡ []))
          (select_mains sum256 modulus exponent conf rand i maps [])
  unfolding select_mains
  select_mains-beyond i [] = ensured [] (refl, λ t. refl)
  select_mains-beyond i ([] ∷ maps) =
      Ensures-weaken (select_mains-beyond (suc i) maps)
        λ after (e, none_there). (e, elim [ zero ↦ refl | suc t ↦ none_there t ])
  select_mains-beyond i ((kv ∷ m) ∷ maps) = panics

  select_mains-given :
      (i : ℕ) (maps : List NodeMap) (shards : List ShardEntry)
      → Ensures
          (λ after. (t : ℕ) → nodes_of after t ≡ given (get_or maps t []) (nodes_of shards t))
          (select_mains sum256 modulus exponent conf rand i maps shards)
  unfolding select_mains
  select_mains-given i [] shards = ensured shards λ t. refl
  select_mains-given i (m ∷ maps) [] =
      Ensures-weaken (select_mains-beyond i (m ∷ maps))
        λ after (e, none_there) t. rw (e, none_there t) refl
  select_mains-given i ([] ∷ maps) (shard ∷ shards) =
      Ensures-bind _ (select_mains-given (suc i) maps shards)
        λ rest h. ensured (shard ∷ rest) (one_further [] maps shard shard shards rest refl h)
  select_mains-given i ((kv ∷ m) ∷ maps) (shard ∷ shards) =
      Ensures-step (select_shard_main sum256 modulus exponent conf rand i (kv ∷ m)) _ λ main _.
        Ensures-bind _ (select_mains-given (suc i) maps shards) λ rest h.
          let next : ShardEntry = record { node_map = kv ∷ m; main_node = main } in
          ensured (next ∷ rest) (one_further (kv ∷ m) maps shard next shards rest refl h)

  -- Where RDomain returns, each address has a port that is no negative number and the shards had no nodes before it, the node map of each shard holds the
  -- nodes that are assigned to it, and no others.
  pub r_domain-given :
      1 ≤ conf.shard_amount
      → conf.spy_at_shard < conf.shard_amount
      → (running : Bytes) (nodes : NodeMap) (shards : List ShardEntry) → Distinct nodes
      → Addressed nodes
      → ((t : ℕ) → nodes_of shards t ≡ [])
      → Ensures
          (λ out.
            (key : Bytes) (t : ℕ)
            → lookup key (nodes_of out.1 t) ≡ elim (lookup key nodes) [
              | none ↦ none
              | some node ↦ home sum256 modulus exponent conf rand node t
            ])
          (r_domain sum256 modulus exponent conf rand running nodes shards)
  unfolding r_domain
  r_domain-given some_shard spy running nodes shards distinct addressed bare =
      let (out, made, placed) = Returns-value (
        shard_maps-Placed sum256 modulus exponent conf rand some_shard spy nodes distinct
          addressed) in
      rw made (
        Ensures-step (deref (lookup running out.0)) _ λ self _.
          Ensures-step (deref (get_elem? shards self.shard_id)) _ λ local _.
            Ensures-bind _ (select_mains-given 0 out.1 shards) λ after h.
              Ensures-step (deref (get_elem? after self.shard_id)) _ λ own _.
                Ensures-step (deref own.main_node) _ λ main _.
                  ensured (out.0, after, self.shard_id)
                    λ key t.
                      ap (lookup key) (
                        h t
                        ∙ ap (given (get_or out.1 t [])) (bare t)
                        ∙ given_bare (get_or out.1 t []))
                      ∙ placed key t)
