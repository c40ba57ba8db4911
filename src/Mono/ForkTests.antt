-- ===== src/Mono/ForkTests.antt =====
-- Two shards that both fork: FindBestBranches leaves the heavier branch of one for a block that was
-- waiting for the other shard. The hash of a block is its state root here.
use mathlib.Core.List.{Memᴰ}
use mathlib.Core.List.Memᴰ
use monosulfide.Prelude.{
  Ends, Outcome, if◌then◌else◌, ◌==◌, ℕ, zero, suc, ◌<◌, ◌≡◌, refl, inl, inr, List, [], ◌∷◌, ◌++◌,
  Option, some, Option-cases, All, length-append, get_elem?, arith, ok, Returns, bytes, bytes_eq,
  true, false,
}
use monosulfide.Prelude.Maps.{lookup, insert, delete, All-lookup}
use monosulfide.Content.{Bytes}
use monosulfide.Tx.{Transaction, Config}
use monosulfide.Mono.{FideBlock, SubBlock, MonoChain, top}
use monosulfide.Mono.Branches.{
  Order, or_zero, best_tops, first_tops, first_sweep, first_removeable, remove_loop, sweep,
  visit_key, take_block, lock_all, release_all, release, unlock_best, heaviest, heavier, discard,
}
use monosulfide.Mono.Measure.{IsOrder}
use monosulfide.Mono.Turn.{IsGrown, First}
use monosulfide.Mono.Ancestors.{Rooted}
use monosulfide.Mono.Append.{append_block}
use monosulfide.Mono.Registered.{IsChain, Fits}
use monosulfide.Mono.Settled.{IsTopped, Appended, append_block-Appended}
use monosulfide.Mono.Ends.{AreTops, best_tops-AreTops}

abbrev root_of : FideBlock → Bytes
root_of b = b.h.state_root

abbrev link : ℕ → Option SubBlock
link r = some (record {
  c_head = some (record { remote_block_hash = r ∷ []; tx_root = [] });
  c_body = some [];
})

-- Block `name` of a shard, with its parent and its references to the two shards.
abbrev make_block : ℕ → ℕ → ℕ → ℕ → ℕ → FideBlock
make_block name shard parent r s = record {
  h = record {
    nonce = 0;
    shard_idx = shard;
    parent_hash = parent ∷ [];
    intra_tx_root = [];
    sub_block_root = [];
    state_root = name ∷ [];
    timestamp = 0;
  };
  b = link r ∷ link s ∷ [];
}

-- Blocks 1 and 5 are the heavier branch of shard 0, blocks 2 and 3 the two branches of shard 1, and
-- block 4 is the other branch of shard 0, and has seen block 2.
abbrev forked : MonoChain
forked = record {
  tx_pool = record { tx_lists = []; local_index = 0; controls = [] };
  blocks =
      (0 ∷ [], make_block 0 0 9 9 9)
      ∷ (1 ∷ [], make_block 1 0 0 0 0)
      ∷ (2 ∷ [], make_block 2 1 0 0 0)
      ∷ (3 ∷ [], make_block 3 1 0 0 0)
      ∷ (4 ∷ [], make_block 4 0 0 0 2)
      ∷ (5 ∷ [], make_block 5 0 1 1 0)
      ∷ [];
  top_block_hash = (0, 5 ∷ []) ∷ (1, 2 ∷ []) ∷ [];
  block_gs = make_block 0 0 9 9 9 ∷ make_block 0 0 9 9 9 ∷ [];
  nonce = 0;
  weight = (1 ∷ [], 2) ∷ (2 ∷ [], 1) ∷ (3 ∷ [], 1) ∷ (4 ∷ [], 1) ∷ (5 ∷ [], 1) ∷ [];
  path = (0 ∷ [], (1 ∷ []) ∷ (2 ∷ []) ∷ (3 ∷ []) ∷ (4 ∷ []) ∷ []) ∷ (1 ∷ [], (5 ∷ []) ∷ []) ∷ [];
  refs =
      (
        0 ∷ [],
        (1 ∷ []) ∷ (1 ∷ []) ∷ (2 ∷ []) ∷ (2 ∷ []) ∷ (3 ∷ []) ∷ (3 ∷ []) ∷ (4 ∷ []) ∷ (5 ∷ []) ∷ [],
      )
      ∷ (2 ∷ [], (4 ∷ []) ∷ [])
      ∷ (1 ∷ [], (5 ∷ []) ∷ [])
      ∷ [];
  updata_t = (1 ∷ [], 5) ∷ (2 ∷ [], 2) ∷ (3 ∷ [], 3) ∷ (4 ∷ [], 4) ∷ (5 ∷ [], 5) ∷ [];
}

-- Keys are visited in the order in which they were written.
abbrev in_order : Order
in_order = record { visit = λ ks. ks; weave = λ ks k. ks ++ k ∷ [] }

in_order-IsOrder : IsOrder in_order
in_order-IsOrder = record {
  visits = λ ks k mem. mem;
  joins = λ ks k. omega (arith, length-append ks (k ∷ []));
}

abbrev two_shards : Config
two_shards = record {
  shard_amount = 2;
  pyr_enable = false;
  pyr_shard_amount = 0;
  shard_distribution = [];
  shard_route = [];
  default_addr = [];
  fide_enable = true;
  fide_shard_amount = 2;
  storage_optimize = false;
  monoxide_enable = false;
  monoxide_shard_amount = 0;
  max_block_size = 10;
  tx_test = false;
}

-- The top of shard 0 is block 4, of weight 1, and not block 5 on the branch of weight 2.
lighter_top : best_tops root_of in_order 9 two_shards forked ≡ ok ((4 ∷ []) ∷ (2 ∷ []) ∷ [])
unfolding best_tops first_tops first_sweep first_removeable remove_loop sweep visit_key take_block
    lock_all release_all release unlock_best heaviest heavier discard lookup insert delete bytes_eq
lighter_top = refl

first_only :
    (i : ℕ) (g : FideBlock) → get_elem? forked.block_gs i ≡ some g → g ≡ make_block 0 0 9 9 9
first_only zero g h = ground (arith, h)
first_only (suc zero) g h = ground (arith, h)
first_only (suc (suc i)) g h = absurd (ground (arith, h))

comes_later : (c : ℕ) → 0 < c → ¬ First root_of forked (c ∷ [])
comes_later c pos (i, g, found, e) = absurd (ground (arith, pos, rw (first_only i g found) at e))

All-Mem : (R : Bytes → Type 0) (cs : List Bytes) (c : Bytes) → All R cs → Memᴰ c cs → R c
All-Mem R [] c all mem = absurd (Memᴰ.not-nil mem)
All-Mem R (x ∷ cs) c all mem = elim (Memᴰ.cases_cons mem) [
  | inl same ↦ rw same all.0
  | inr later ↦ All-Mem R cs c all.1 later
]

or_zero-All :
    {V : Type 0} (P : V → Type 0) (d : V) (m : List (Bytes × V)) (k : Bytes)
    → P d
    → All (λ e. P e.1) m
    → P (or_zero d (lookup k m))
or_zero-All P d m k base all = elim (Option-cases (lookup k m)) [
  | inl missing ↦ rw missing base
  | inr (v, found) ↦ rw found (All-lookup (λ j w. P w) m k v all found)
]

abbrev Referring : Bytes → Type 0
Referring c = ((b : FideBlock) × (lookup c forked.blocks ≡ some b)) × ¬ First root_of forked c

refs_known : (k : Bytes) → All Referring (or_zero [] (lookup k forked.refs))
unfolding lookup bytes_eq
refs_known k =
    let one : Referring (1 ∷ []) = ((make_block 1 0 0 0 0, refl), comes_later 1 (omega arith)) in
    let two : Referring (2 ∷ []) = ((make_block 2 1 0 0 0, refl), comes_later 2 (omega arith)) in
    let three : Referring (3 ∷ []) = ((make_block 3 1 0 0 0, refl), comes_later 3 (omega arith)) in
    let four : Referring (4 ∷ []) = ((make_block 4 0 0 0 2, refl), comes_later 4 (omega arith)) in
    let five : Referring (5 ∷ []) = ((make_block 5 0 1 1 0, refl), comes_later 5 (omega arith)) in
    or_zero-All (All Referring) [] forked.refs k tt (
      (one, (one, (two, (two, (three, (three, (four, (five, tt)))))))),
      ((four, tt), ((five, tt), tt)),
    )

forked-IsGrown : IsGrown root_of 9 2 forked
unfolding lookup bytes_eq
forked-IsGrown = record {
  named = λ k b h.
      All-lookup (λ j c. root_of c ≡ j) forked.blocks k b
        (refl, (refl, (refl, (refl, (refl, (refl, tt)))))) h;
  filled = refl;
  placed = λ k b h. All-lookup (λ j c. c.h.shard_idx < 2) forked.blocks k b (omega arith) h;
  shards = refl;
  begun = λ i g found. rw (first_only i g found) refl;
  referring = λ k c mem. All-Mem Referring (or_zero [] (lookup k forked.refs)) c (refs_known k) mem;
  past = λ k. or_zero-All (λ t. t < 9) 0 forked.updata_t k (omega arith) (omega arith);
}

best_tops-AreTops_example :
    Returns
      (AreTops root_of 9 2 in_order in_order-IsOrder forked forked-IsGrown)
      (best_tops root_of in_order 9 two_shards forked)
best_tops-AreTops_example =
    best_tops-AreTops root_of 9 2 in_order in_order-IsOrder forked forked-IsGrown two_shards refl

-- How far a block is from the first one.
abbrev height : Bytes → ℕ
height [] = 0
height (k ∷ rest) = if k == 0 then 0 else if k == 5 then 2 else 1

abbrev origin : FideBlock
origin = make_block 0 0 9 9 9

abbrev HasParent : Bytes → FideBlock → Type 0
HasParent k b =
    bytes_eq (root_of b) (root_of origin) ≡ false
    → (p : FideBlock) × (lookup b.h.parent_hash forked.blocks ≡ some p)
      × (height b.h.parent_hash < height k)

forked-Rooted : Rooted root_of forked.blocks origin
unfolding lookup bytes_eq
forked-Rooted = record {
  height = height;
  low = λ k b h. All-lookup (λ j c. height j < 6) forked.blocks k b (omega arith) h;
  named = forked-IsGrown.named;
  parent = λ k b h.
      All-lookup HasParent forked.blocks k b
        (
          (λ later. absurd (ground (arith, later))),
          (
            (λ later. (origin, refl, omega arith)),
            (
              (λ later. (origin, refl, omega arith)),
              (
                (λ later. (origin, refl, omega arith)),
                (
                  (λ later. (origin, refl, omega arith)),
                  ((λ later. (make_block 1 0 0 0 0, refl, omega arith)), tt),
                ),
              ),
            ),
          ),
        )
        h;
}

forked-IsChain : IsChain root_of 9 2 forked
forked-IsChain = record {
  grown = forked-IsGrown;
  rooted = λ i g found. rw (first_only i g found) forked-Rooted;
}

forked-IsTopped : IsTopped 2 forked
unfolding top lookup bytes_eq
forked-IsTopped zero low = (make_block 5 0 1 1 0, refl, inl refl)
forked-IsTopped (suc zero) low = (make_block 2 1 0 0 0, refl, inl refl)
forked-IsTopped (suc (suc i)) low = absurd (omega arith)

abbrev no_digest : Transaction → Bytes
no_digest tx = []

abbrev as_stored : List (Bytes × FideBlock) → List (Bytes × FideBlock)
as_stored blocks = blocks

-- A block on the top of shard 0.
abbrev sixth : FideBlock
sixth = make_block 6 0 5 5 2

sixth-Fits : Fits root_of 2 forked sixth
unfolding lookup bytes_eq
sixth-Fits = record {
  fresh = refl;
  has_hash = refl;
  shard = omega arith;
  parent = (make_block 5 0 1 1 0, refl);
}

abbrev add_sixth : Outcome MonoChain
add_sixth =
    append_block root_of (λ head. []) (λ s. []) in_order two_shards no_digest as_stored 9 10 forked
      sixth

append_block-Appended_example : Ends (Appended root_of 10 2 forked sixth) add_sixth
append_block-Appended_example =
    append_block-Appended root_of (λ head. []) (λ s. []) in_order in_order-IsOrder two_shards
      no_digest as_stored 9 10 2 (omega arith) refl forked sixth forked-IsChain forked-IsTopped
      sixth-Fits
