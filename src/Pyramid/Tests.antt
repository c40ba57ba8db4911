-- ===== src/Pyramid/Tests.antt =====
-- A b-shard and its i-shard, and a cross block on the tops of both.
use monosulfide.Prelude.{
  ℕ, List, [], ◌∷◌, ◌≡◌, true, false, refl, ap, ◌≤◌, none, some, Ends, bytes, bytes_eq, arith,
}
use monosulfide.Prelude.Maps.{lookup}
use monosulfide.Content.{Bytes}
use monosulfide.Tx.{Transaction, Config, pry_tx}
use monosulfide.Pyramid.{StdBlock, PyrChain, hash_at, append_block}
use monosulfide.Pyramid.Linked.{Leads, Holds, origin, IsLinked}
use monosulfide.Pyramid.Appends.{Stands, append_block-IsLinked}
use mathlib.Core.List.{Memᴰ}

abbrev two_shards : Config
two_shards = record {
  shard_amount = 2;
  pyr_enable = true;
  pyr_shard_amount = 2;
  shard_distribution = (true ∷ false ∷ []) ∷ (true ∷ true ∷ []) ∷ [];
  shard_route = [];
  default_addr = [];
  fide_enable = false;
  fide_shard_amount = 0;
  storage_optimize = false;
  monoxide_enable = false;
  monoxide_shard_amount = 0;
  max_block_size = 10;
  tx_test = false;
}

-- Seven zeros and a digit.
abbrev zeros : ℕ → Bytes
zeros c = b'0' ∷ b'0' ∷ b'0' ∷ b'0' ∷ b'0' ∷ b'0' ∷ b'0' ∷ c ∷ []

-- From shard 0 to shard 1.
abbrev payment : Transaction
payment = record {
  sender = zeros b'0';
  recipient = zeros b'1';
  value = none;
  nonce = 0;
  tx_type = pry_tx;
  interface = [];
  time = 0;
}

abbrev block_on : List (ℕ × Bytes) → ℕ → List Transaction → StdBlock
block_on parents nonce txs = record {
  h = record {
    parent_hashes = some parents;
    merkle_root = [];
    state_root = [];
    nonce = nonce;
    timestamp = 0;
    bits = 0;
  };
  transactions = txs;
}

abbrev by_nonce : StdBlock → Bytes
by_nonce b = b.h.nonce ∷ []

abbrev no_digest : Transaction → Bytes
no_digest tx = []

abbrev no_sum : Bytes → Bytes
no_sum s = []

abbrev two_chains : PyrChain
two_chains = record {
  storage = [];
  tx_pool = record {
    tx_lists = ([] ∷ [] ∷ []) ∷ ([] ∷ [] ∷ []) ∷ [];
    local_index = 1;
    controls = true ∷ true ∷ [];
  };
  owner_shard = record { sid = 1; related_i_shard = 0 ∷ []; related_b_shard = [] };
  blocks =
      (10 ∷ [], block_on ((0, 9 ∷ []) ∷ []) 10 [])
      ∷ (11 ∷ [], block_on ((1, 9 ∷ []) ∷ []) 11 [])
      ∷ [];
  top_block_hash = (0, 10 ∷ []) ∷ (1, 11 ∷ []) ∷ [];
  nonce = 2;
}

abbrev cross_block : StdBlock
cross_block = block_on ((0, 10 ∷ []) ∷ (1, 11 ∷ []) ∷ []) 12 (payment ∷ [])

-- The two tops stand on the identity chain.
top_leads :
    (i : ℕ)
    → Holds two_chains i
    → (d : ℕ) × Leads (9 ∷ []) two_chains.blocks i d (hash_at i two_chains.top_block_hash) × (d ≤ 2)
unfolding lookup bytes_eq
top_leads i (Memᴰ.head e) = rw e (
  1,
  origin {k = 10 ∷ []} (block_on ((0, 9 ∷ []) ∷ []) 10 []) ((0, 9 ∷ []) ∷ []) refl refl refl,
  omega arith,
)
top_leads i (Memᴰ.tail (Memᴰ.head e)) = rw e (
  1,
  origin {k = 11 ∷ []} (block_on ((1, 9 ∷ []) ∷ []) 11 []) ((1, 9 ∷ []) ∷ []) refl refl refl,
  omega arith,
)
top_leads i (Memᴰ.tail (Memᴰ.tail m)) = elim m [ ]

two_chains-IsLinked : IsLinked (9 ∷ []) two_chains
unfolding lookup bytes_eq
two_chains-IsLinked = record { outside = refl; leads = top_leads }

abbrev two_parents : List (ℕ × Bytes)
two_parents = (0, 10 ∷ []) ∷ (1, 11 ∷ []) ∷ []

once_there : (j : ℕ) (h : Bytes) → Memᴰ (j, h) two_parents → hash_at j two_parents ≡ h
unfolding lookup
once_there j h (Memᴰ.head e) =
    rw (ap (λ (x : ℕ × Bytes). x.0) e, ap (λ (x : ℕ × Bytes). x.1) e) refl
once_there j h (Memᴰ.tail (Memᴰ.head e)) =
    rw (ap (λ (x : ℕ × Bytes). x.0) e, ap (λ (x : ℕ × Bytes). x.1) e) refl
once_there j h (Memᴰ.tail (Memᴰ.tail m)) = elim m [ ]

cross_block-Stands : Stands by_nonce (9 ∷ []) two_chains cross_block 1
unfolding lookup bytes_eq
cross_block-Stands = record {
  parents = two_parents;
  built = refl;
  fresh = refl;
  apart = refl;
  once = once_there;
  on_top = refl;
}

append_block-IsLinked_example :
    Ends
      (IsLinked (9 ∷ []))
      (append_block by_nonce two_shards no_digest (9 ∷ []) no_sum two_chains cross_block 1)
append_block-IsLinked_example =
    append_block-IsLinked by_nonce two_shards no_digest (9 ∷ []) two_chains cross_block 1
      two_chains-IsLinked cross_block-Stands no_sum
