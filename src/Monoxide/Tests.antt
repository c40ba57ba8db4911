-- ===== src/Monoxide/Tests.antt =====
-- Four blocks: the first one, a block of weight one, on the top, and beside it a branch of two blocks.
use mathlib.Core.List.{Memᴰ}
use mathlib.Core.List.Memᴰ.{head, tail}
use monosulfide.Prelude.{
  Outcome, List, Halts-ok, ℕ, ◌≡◌, ◌≢◌, ◌<◌, refl, false, [], ◌∷◌, some, ok, ◌>>=◌, arith, bytes,
  bytes_eq, nat_eq, Returns, Ends,
}
use monosulfide.Prelude.Maps.{lookup, insert}
use monosulfide.Content.{Bytes}
use monosulfide.Tx.{Config, Transaction}
use monosulfide.Pool.{remove_txs}
use monosulfide.Monoxide.{
  RelayBlock, RelayChain, weight_of, path_of, top_of, on_path, better, pick, mark_path, descend,
  find_top, walk, append_all, switch, choose_branch, append_block, weight_in,
}
use monosulfide.Monoxide.Pick.{Heaviest}
use monosulfide.Monoxide.Branch.{Tree}
use monosulfide.Monoxide.Hang.{Hangs}
use monosulfide.Monoxide.Follow.{Followed, Weighed, append_block-Followed}
use monosulfide.Monoxide.Ghost.{Ghost, leaf, heavier, Forked, find_top-Ghost}
use monosulfide.Monoxide.Grow.{choose_branch-Ghost}

-- The hash of a block is its transaction root here, and both roots are the same.
abbrev block : ℕ → ℕ → RelayBlock
block k parent = record {
  h = record {
    nonce = 0;
    parent_hash = parent ∷ [];
    confirmed_tx_root = k ∷ [];
    out_tx_root = k ∷ [];
    timestamp = 0;
  };
  b = record { intra = []; out = [] };
}

abbrev hash : RelayBlock → Bytes
hash b = b.h.confirmed_tx_root

abbrev four_blocks : RelayChain
four_blocks = record {
  tx_pool = record { tx_lists = []; local_index = 0; controls = [] };
  blocks =
      (0 ∷ [], block 0 9) ∷ (1 ∷ [], block 1 0) ∷ (2 ∷ [], block 2 0) ∷ (3 ∷ [], block 3 2) ∷ [];
  weight = (1 ∷ [], 1) ∷ (2 ∷ [], 2) ∷ (3 ∷ [], 1) ∷ [];
  path = (0 ∷ [], (1 ∷ []) ∷ (2 ∷ []) ∷ []) ∷ (2 ∷ [], (3 ∷ []) ∷ []) ∷ [];
  top_block_hash = (0, 1 ∷ []) ∷ [];
  block_gs = (0, block 0 9) ∷ [];
}

find_top_four : find_top hash four_blocks 0 ≡ ok (block 3 2, some (block 0 9))
unfolding find_top mark_path descend pick better on_path top_of path_of weight_of weight_in lookup
    insert bytes_eq
find_top_four = refl

data Mine : Bytes → Type 0 where
  zeroth : Mine (0 ∷ [])
  first : Mine (1 ∷ [])
  second : Mine (2 ∷ [])
  third : Mine (3 ∷ [])

abbrev height_of : Bytes → ℕ
height_of [] = 0
height_of (k ∷ ks) = k

four_held :
    (k : Bytes) → Mine k → (b : RelayBlock) × (lookup k four_blocks.blocks ≡ some b) × (hash b ≡ k)
unfolding lookup bytes_eq
four_held k zeroth = (block 0 9, refl, refl)
four_held k first = (block 1 0, refl, refl)
four_held k second = (block 2 0, refl, refl)
four_held k third = (block 3 2, refl, refl)

four_low : (k : Bytes) → Mine k → height_of k < 4
four_low k zeroth = omega arith
four_low k first = omega arith
four_low k second = omega arith
four_low k third = omega arith

-- The block that a known hash stands for is the one that is found.
four_parent :
    (k : Bytes) (b : RelayBlock)
    → Mine k
    → lookup k four_blocks.blocks ≡ some b
    → bytes_eq (0 ∷ []) k ≡ false
    → Mine b.h.parent_hash
      × (height_of b.h.parent_hash < height_of k)
      × (path_of four_blocks b.h.parent_hash ≢ [])
unfolding lookup bytes_eq path_of
four_parent k b zeroth found later = ground (arith, later)
four_parent k b first found later =
    let e : block 1 0 ≡ b = ground (arith, found) in
    rw (← e) (zeroth, omega arith, λ none_there. ground (arith, none_there))
four_parent k b second found later =
    let e : block 2 0 ≡ b = ground (arith, found) in
    rw (← e) (zeroth, omega arith, λ none_there. ground (arith, none_there))
four_parent k b third found later =
    let e : block 3 2 ≡ b = ground (arith, found) in
    rw (← e) (second, omega arith, λ none_there. ground (arith, none_there))

abbrev Kid : Bytes → Bytes → Type 0
Kid k c =
    Mine c
    × (height_of k < height_of c)
    × (0 < weight_of four_blocks c)
    × (bytes_eq (0 ∷ []) c ≡ false)
    × ((b : RelayBlock) → lookup c four_blocks.blocks ≡ some b → b.h.parent_hash ≡ k)

one-Kid : Kid (0 ∷ []) (1 ∷ [])
unfolding lookup bytes_eq weight_of weight_in
one-Kid = (
  first,
  omega arith,
  omega arith,
  refl,
  λ b found. let e : block 1 0 ≡ b = ground (arith, found) in rw (← e) refl,
)

two-Kid : Kid (0 ∷ []) (2 ∷ [])
unfolding lookup bytes_eq weight_of weight_in
two-Kid = (
  second,
  omega arith,
  omega arith,
  refl,
  λ b found. let e : block 2 0 ≡ b = ground (arith, found) in rw (← e) refl,
)

three-Kid : Kid (2 ∷ []) (3 ∷ [])
unfolding lookup bytes_eq weight_of weight_in
three-Kid = (
  third,
  omega arith,
  omega arith,
  refl,
  λ b found. let e : block 3 2 ≡ b = ground (arith, found) in rw (← e) refl,
)

four_child : (k c : Bytes) → Mine k → Memᴰ c (path_of four_blocks k) → Kid k c
unfolding path_of lookup bytes_eq
four_child k c zeroth (head e) = rw e one-Kid
four_child k c zeroth (tail (head e)) = rw e two-Kid
four_child k c zeroth (tail (tail more)) = elim more [ ]
four_child k c first more = elim more [ ]
four_child k c second (head e) = rw e three-Kid
four_child k c second (tail more) = elim more [ ]
four_child k c third more = elim more [ ]

four_first : Mine (0 ∷ []) × (lookup (0 ∷ []) four_blocks.blocks ≡ some (block 0 9))
unfolding lookup bytes_eq
four_first = (zeroth, refl)

abbrev four_tree : Tree hash four_blocks (block 0 9)
four_tree = record {
  mine = Mine;
  height = height_of;
  first = four_first;
  held = four_held;
  low = four_low;
  parent = four_parent;
  child = four_child;
}

first_block : lookup 0 four_blocks.block_gs ≡ some (block 0 9)
unfolding lookup
first_block = refl

top_of-Mine : Mine (top_of four_blocks 0)
unfolding top_of lookup
top_of-Mine = first

find_top-Ghost_example :
    Returns
      (λ out.
        Ghost four_blocks (0 ∷ []) (hash out.0)
        × Forked hash four_blocks (0 ∷ []) (top_of four_blocks 0) (hash out.0) out.1
        × (lookup (hash out.0) four_blocks.blocks ≡ some out.0)
        × Mine (hash out.0))
      (find_top hash four_blocks 0)
find_top-Ghost_example =
    find_top-Ghost hash four_blocks 0 (block 0 9) four_tree first_block top_of-Mine

abbrev conf : Config
conf = record {
  shard_amount = 1;
  pyr_enable = false;
  pyr_shard_amount = 0;
  shard_distribution = [];
  shard_route = [];
  default_addr = [];
  fide_enable = false;
  fide_shard_amount = 0;
  storage_optimize = false;
  monoxide_enable = false;
  monoxide_shard_amount = 0;
  max_block_size = 10;
  tx_test = false;
}

abbrev digest : Transaction → Bytes
digest tx = tx.sender

choose_branch_four :
    (choose_branch hash conf digest four_blocks 0 (block 3 2) >>= λ after. ok (top_of after 0))
    ≡ ok (3 ∷ [])
unfolding choose_branch switch walk append_all remove_txs find_top mark_path descend pick better
    on_path top_of path_of weight_of weight_in lookup insert bytes_eq
choose_branch_four = refl

choose_branch-Ghost_example :
    Ends
      (λ after. Ghost four_blocks (0 ∷ []) (top_of after 0) × (after.blocks ≡ four_blocks.blocks))
      (choose_branch hash conf digest four_blocks 0 (block 3 2))
choose_branch-Ghost_example =
    choose_branch-Ghost hash conf digest four_blocks 0 (block 3 2) (block 0 9) four_tree first_block
      top_of-Mine

-- The same blocks with the end of the heavier branch on the top, and a block beside it.
abbrev settled_blocks : RelayChain
settled_blocks = record four_blocks { top_block_hash = (0, 3 ∷ []) ∷ [] }

settled_tree : Tree hash settled_blocks (block 0 9)
unfolding path_of weight_of
settled_tree = record {
  mine = Mine;
  height = height_of;
  first = four_first;
  held = four_held;
  low = four_low;
  parent = four_parent;
  child = four_child;
}

root-Heaviest : Heaviest settled_blocks (path_of settled_blocks (0 ∷ [])) (2 ∷ [])
unfolding path_of weight_of weight_in lookup bytes_eq
root-Heaviest = (
  tail (head refl),
  λ h there. elim there [
    | head e ↦ rw e (omega arith)
    | tail (head e) ↦ rw e (omega arith)
    | tail (tail more) ↦ elim more [ ]
  ],
)

branch-Heaviest : Heaviest settled_blocks (path_of settled_blocks (2 ∷ [])) (3 ∷ [])
unfolding path_of weight_of weight_in lookup bytes_eq
branch-Heaviest =
    (head refl, λ h there. elim there [ head e ↦ rw e (omega arith) | tail more ↦ elim more [ ] ])

settled-Ghost : Ghost settled_blocks (0 ∷ []) (3 ∷ [])
unfolding path_of lookup bytes_eq
settled-Ghost =
    heavier {c = 2 ∷ []} root-Heaviest (heavier {c = 3 ∷ []} branch-Heaviest (leaf refl))

settled : Followed hash settled_blocks (block 0 9) 0
unfolding top_of lookup settled_tree
settled = record { tree = settled_tree; top_in = third; heaviest = settled-Ghost }

four-Hangs : Hangs hash settled_blocks (block 4 1) (block 0 9) settled_tree
unfolding lookup bytes_eq path_of settled_tree
four-Hangs = record { parent_mine = first; fresh = refl; childless = refl }

abbrev known_root : List Transaction → Outcome Bytes
known_root txs = ok (4 ∷ [])

append_block-Followed_example :
    Ends
      (λ after.
        Followed hash after (block 0 9) 0
        × Weighed hash settled_blocks (block 0 9) (block 4 1) after.weight)
      (append_block hash conf digest known_root settled_blocks (block 4 1))
unfolding settled
append_block-Followed_example =
    append_block-Followed hash conf digest known_root (λ txs. Halts-ok (4 ∷ [])) settled_blocks
      (block 4 1) (block 0 9) settled four-Hangs first_block
