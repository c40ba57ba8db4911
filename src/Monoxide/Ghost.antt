-- ===== src/Monoxide/Ghost.antt =====
-- findTop follows the heaviest branch to its end, and tells where it leaves the path of the top.
use mathlib.Core.List.Memᴰ.{head}
use monosulfide.Prelude.{
  ℕ, zero, suc, ◌+◌, ◌≤◌, ◌≡◌, ◌≢◌, ◌⊎◌, refl, true, false, Bool, bytes_eq_iff, List, [], ◌∷◌,
  Option, some, none, bytes, bytes_eq, length, Bool-cases, inl, inr, arith, Returns, returns,
  Returns-bind, Returns-list, Returns-weaken, if◌then◌else◌, nat_eq,
}
use monosulfide.Prelude.Maps.{lookup}
use monosulfide.Content.{Bytes}
use monosulfide.Monoxide.{RelayBlock, RelayChain, path_of, top_of, on_path, pick, descend, find_top}
use monosulfide.Monoxide.Pick.{Heaviest, pick-Heaviest}
use monosulfide.Monoxide.Branch.{Upto, same, above, Tree, Marked, mark_path-Marked}

-- The leaf that is reached by going, from each block, to a child that no other child outweighs.
pub data Ghost (ch : RelayChain) : Bytes → Bytes → Type 0 where
  leaf : {k : Bytes} → path_of ch k ≡ [] → Ghost ch k k
  heavier : {k c t : Bytes} → Heaviest ch (path_of ch k) c → Ghost ch c t → Ghost ch k t

module _ (hash : RelayBlock → Bytes) where
  -- At the block `f` the branch to `t` leaves the path of the top: both blocks descend from it, and the
  -- heaviest child of it that the branch goes on with is no ancestor of the top.
  abbrev pub Leaves : RelayChain → Bytes → Bytes → Bytes → Bytes → Type 0
  Leaves ch root top t f =
      Upto ch root top f
      × Upto ch root t f
      × ((c : Bytes) × Heaviest ch (path_of ch f) c × Upto ch root t c × (¬ Upto ch root top c))

  -- Without a fork the leaf that is found is the top.
  abbrev pub Forked : RelayChain → Bytes → Bytes → Bytes → Option RelayBlock → Type 0
  Forked ch root top t none = t ≡ top
  Forked ch root top t (some f) = Leaves ch root top t (hash f)

  -- The same on the way: a block on the path of the top is the top or has children.
  abbrev OnWay : RelayChain → Bytes → Bytes → Bytes → Option RelayBlock → Type 0
  OnWay ch root top k none = Upto ch root top k × ((k ≡ top) ⊎ (path_of ch k ≢ []))
  OnWay ch root top k (some f) = Leaves ch root top k (hash f)

  OnWay-end :
      (ch : RelayChain) (root top k : Bytes) (fork : Option RelayBlock)
      → path_of ch k ≡ []
      → OnWay ch root top k fork
      → Forked ch root top k fork
  OnWay-end ch root top k none empty (up, inl at_top) = at_top
  OnWay-end ch root top k none empty (up, inr children) = absurd (children empty)
  OnWay-end ch root top k (some f) empty way = way

  -- Every ancestor of the top but the first block is marked.
  abbrev AllMarked : RelayChain → Bytes → Bytes → List (Bytes × Bool) → Type 0
  AllMarked ch root top curr =
      (j : Bytes) → Upto ch root top j → (on_path curr j ≡ true) ⊎ (root ≡ j)

  off_path :
      (ch : RelayChain) (root top c : Bytes) (curr : List (Bytes × Bool))
      → AllMarked ch root top curr
      → bytes_eq root c ≡ false
      → on_path curr c ≡ false
      → ¬ Upto ch root top c
  off_path ch root top c curr all later off up = elim (all c up) [
    | inl on ↦ ground (arith, on, off)
    | inr first ↦ ground (arith, later, (bytes_eq_iff root c).1 first)
  ]

  OnWay-next :
      (ch : RelayChain) (root top c : Bytes) (curr : List (Bytes × Bool)) (temp next : RelayBlock)
      (fork : Option RelayBlock)
      → Marked hash ch root top curr
      → AllMarked ch root top curr
      → Heaviest ch (path_of ch (hash temp)) c
      → lookup c ch.blocks ≡ some next
      → bytes_eq root c ≡ false
      → next.h.parent_hash ≡ hash temp
      → OnWay ch root top (hash temp) fork
      → OnWay ch root top c
          (elim fork [ none ↦ if on_path curr c then none else some temp | some f ↦ some f ])
  OnWay-next ch root top c curr temp next none marked all best found later parent way =
      elim (Bool-cases (on_path curr c)) [
        | inl on ↦ rw on (marked c on)
        | inr off ↦ rw off (
          way.0,
          above next found later (rw parent same),
          (c, best, same, off_path ch root top c curr all later off),
        )
      ]
  OnWay-next ch root top c curr temp next (some f) marked all best found later parent way =
      let (leaves_by, heavy, up, apart) = way.2 in
      (
        way.0,
        above next found later (rw parent way.1),
        (leaves_by, heavy, above next found later (rw parent up), apart),
      )

  unmarked : (ch : RelayChain) (root top : Bytes) → Marked hash ch root top []
  unfolding on_path lookup
  unmarked ch root top k on = ground (arith, on)

  descend-Ghost :
      (fuel : ℕ) (ch : RelayChain) (genesis temp : RelayBlock) (top : Bytes)
      (curr : List (Bytes × Bool)) (fork : Option RelayBlock) (t : Tree hash ch genesis)
      → t.mine (hash temp)
      → lookup (hash temp) ch.blocks ≡ some temp
      → length ch.blocks ≤ fuel + t.height (hash temp)
      → Marked hash ch (hash genesis) top curr
      → AllMarked ch (hash genesis) top curr
      → OnWay ch (hash genesis) top (hash temp) fork
      → Returns
          (λ out.
            Ghost ch (hash temp) (hash out.0)
            × Forked ch (hash genesis) top (hash out.0) out.1
            × (lookup (hash out.0) ch.blocks ≡ some out.0)
            × t.mine (hash out.0))
          (descend hash fuel ch curr temp fork)
  unfolding descend
  descend-Ghost zero ch genesis temp top curr fork t mine there enough marked all way =
      absurd (omega (arith, enough, t.low (hash temp) mine))
  descend-Ghost (suc fuel) ch genesis temp top curr fork t mine there enough marked all way =
      Returns-list (path_of ch (hash temp)) _ _
        (λ empty.
          returns _
            (leaf empty, OnWay-end ch (hash genesis) top (hash temp) fork empty way, there, mine))
        λ h hs children.
          let c = pick ch curr (h ∷ hs) (0, hash temp) in
          let first = t.child (hash temp) h mine (rw children (head refl)) in
          let best = pick-Heaviest ch curr h hs (hash temp) first.2 in
          let (c_mine, higher, weighs, later, named) =
            t.child (hash temp) c mine (rw children best.0) in
          let (next, found, name) = t.held c c_mine in
          rw found (
            Returns-weaken
              (descend-Ghost fuel ch genesis next top curr _ t (rw name c_mine) (rw name found)
                (rw name (omega (arith, higher, enough))) marked all
                (rw name (
                  OnWay-next ch (hash genesis) top c curr temp next fork marked all
                    (rw children best) found later (named next found) way)))
              λ out (ghost, forked, known, owned).
                (heavier {c = hash next} (rw (children, name) best) ghost, forked, known, owned))

  -- On a tree of blocks that holds the top of a shard, findTop returns: with the leaf of the branch
  -- that goes from the first block always to a child that no other outweighs, and with the fork where
  -- this branch leaves the path of the top: an ancestor of the leaf and of the top, of which the branch
  -- goes on with a heaviest child that is no ancestor of the top. Without a fork the leaf is the top.
  pub find_top-Ghost :
      (ch : RelayChain) (sid : ℕ) (genesis : RelayBlock) (t : Tree hash ch genesis)
      → lookup sid ch.block_gs ≡ some genesis
      → t.mine (top_of ch sid)
      → Returns
          (λ out.
            Ghost ch (hash genesis) (hash out.0)
            × Forked ch (hash genesis) (top_of ch sid) (hash out.0) out.1
            × (lookup (hash out.0) ch.blocks ≡ some out.0)
            × t.mine (hash out.0))
          (find_top hash ch sid)
  unfolding find_top
  find_top-Ghost ch sid genesis t first top_mine =
      let (temp, found, name) = t.held (top_of ch sid) top_mine in
      rw (found, first)
        (Returns-bind _
          (mark_path-Marked hash (length ch.blocks) ch genesis temp (top_of ch sid) [] t
            (rw name top_mine) (rw name found) (rw name (t.low (top_of ch sid) top_mine))
            (rw name same) (inl name) (unmarked ch (hash genesis) (top_of ch sid))
            (λ j up. inr (rw name up)))
          λ curr (marked, all, up, way).
            descend-Ghost (length ch.blocks) ch genesis genesis (top_of ch sid) curr none t
              t.first.0 t.first.1 (omega arith) marked all (up, way))
