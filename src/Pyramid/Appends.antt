-- ===== src/Pyramid/Appends.antt =====
-- Append keeps the chains of a shard leading back, those on which a cross block stands included.
use mathlib.Core.Path.{subst}
use mathlib.Core.List.{Memᴰ}
use monosulfide.Prelude.{
  ℕ, suc, ◌≤◌, ◌<◌, ◌≡◌, ◌⊎◌, inl, inr, refl, ap, ◌∙◌, sym, true, false, ◌&&◌, List, [], ◌∷◌, ◌++◌,
  none, some, length, map, if◌then◌else◌, ◌==◌, ok, ◌>>=◌, bytes, bytes_eq, nat_eq, bytes_eq_iff,
  bytes_eq_refl, arith, Bool-cases, Ends, ended, Ends-bind, Ends-test, Halts, Halts-bind, Halts-ok,
  Halts-if, Returns-Ends,
}
use monosulfide.Prelude.Maps.{lookup, insert, lookup-insert, length-insert}
use monosulfide.Content.{Bytes}
use monosulfide.Merkle.{gen_tx_root}
use monosulfide.Merkle.Binding.{gen_mpt_root_total}
use monosulfide.Tx.{Transaction, Config}
use monosulfide.Tx.Halts.{s_in_shard-Halts, r_in_shard-Halts}
use monosulfide.Pool.{Pool}
use monosulfide.Pool.Halts.{remove_txs-Halts, at-Halts}
use monosulfide.Pyramid.{
  StdBlock, PyrChain, Shard, hash_at, listed, light, controls, count_relate_txs, verify_block,
  move_tops, settle_txs, store, append_block, print_all,
}
use monosulfide.Pyramid.Linked.{
  Leads, onward, Holds, IsLinked, Leads-block, Leads-insert, print_all-Returns,
}

-- A block that is new to the chain and stands on the top of shard `sid`. Each key of its parent
-- hashes stands there once.
pub record Stands (hash : StdBlock → Bytes) (id_top : Bytes) (ch : PyrChain) (block : StdBlock)
    (sid : ℕ) : Type 0 where
  pub parents : List (ℕ × Bytes)
  pub built : block.h.parent_hashes ≡ some parents
  pub fresh : lookup (hash block) ch.blocks ≡ none
  pub apart : bytes_eq (hash block) id_top ≡ false
  pub once : (j : ℕ) (h : Bytes) → Memᴰ (j, h) parents → hash_at j parents ≡ h
  pub on_top : hash_at sid parents ≡ hash_at sid ch.top_block_hash

hash_at-insert :
    (i j : ℕ) (h : Bytes) (tops : List (ℕ × Bytes))
    → hash_at j (insert i h tops) ≡ (if i == j then h else hash_at j tops)
hash_at-insert i j h tops = ground (arith, lookup-insert i j h tops)

module _ (hash : StdBlock → Bytes) (conf : Config) (digest : Transaction → Bytes)
    (id_top : Bytes) where
  controls-Halts : (shard : Shard) (r : ℕ) → Halts (controls conf shard r)
  unfolding controls
  controls-Halts shard r = at-Halts conf.shard_distribution shard.sid r

  count_relate_txs-Halts :
      (ch : PyrChain) (txs : List Transaction) → Halts (count_relate_txs conf ch txs)
  unfolding count_relate_txs
  count_relate_txs-Halts ch [] = Halts-ok 0
  count_relate_txs-Halts ch (tx ∷ txs) = Halts-bind _ _ (s_in_shard-Halts conf tx) λ s.
      Halts-bind _ _ (r_in_shard-Halts conf tx) λ r.
        Halts-bind _ _ (controls-Halts ch.owner_shard s) λ a.
          Halts-bind _ _ (Halts-if a _ _ (controls-Halts ch.owner_shard r) (Halts-ok false))
            λ both. Halts-bind _ _ (count_relate_txs-Halts ch txs) λ rest. Halts-ok _

  module _ (ch : PyrChain) (block : StdBlock) (sid : ℕ) (linked : IsLinked id_top ch)
      (stands : Stands hash id_top ch block sid) where
    abbrev all_blocks : List (Bytes × StdBlock)
    all_blocks = insert (hash block) (light block) ch.blocks

    size : length all_blocks ≡ suc (length ch.blocks)
    size = length-insert (hash block) (light block) ch.blocks ∙ rw stands.fresh refl

    -- From this hash chain `j` leads back; it is that of the new block, or there is room for one more.
    abbrev LeadsFrom : ℕ → Bytes → Type 0
    LeadsFrom j k =
        (d : ℕ) × Leads id_top all_blocks j d k
        × (d ≤ length all_blocks)
        × ((k ≡ hash block) ⊎ (d < length all_blocks))

    -- All chains that the shard holds lead back from these tops.
    abbrev LeadBack : List (ℕ × Bytes) → Type 0
    LeadBack tops = (i : ℕ) → Holds ch i → LeadsFrom i (hash_at i tops)

    old_top : LeadBack ch.top_block_hash
    old_top j mine =
        let (d, leads, low) = linked.leads j mine in
        (
          d,
          Leads-insert id_top ch.blocks j (hash block) (light block) stands.fresh leads,
          omega (arith, size),
          inr (omega (arith, size)),
        )

    outside_after : lookup id_top all_blocks ≡ none
    outside_after = ground (
      arith,
      lookup-insert (hash block) id_top (light block) ch.blocks,
      stands.apart,
      linked.outside,
    )

    found_block : lookup (hash block) all_blocks ≡ some (light block)
    found_block = ground (
      arith,
      lookup-insert (hash block) (hash block) (light block) ch.blocks,
      bytes_eq_refl (hash block),
    )

    -- The new block on what leads back.
    on_block :
        (j d : ℕ) (k : Bytes)
        → hash_at j stands.parents ≡ k
        → Leads id_top all_blocks j d k
        → Leads id_top all_blocks j (suc d) (hash block)
    unfolding light
    on_block j d k e leads =
        let (b, found) = Leads-block id_top all_blocks j leads in
        onward (light block) stands.parents found_block stands.built
          (elim (Bool-cases (bytes_eq (hash_at j stands.parents) id_top)) [
            | inl hit ↦
                let same : k ≡ id_top =
                  sym e ∙ (bytes_eq_iff (hash_at j stands.parents) id_top).0 hit in
                absurd (ground (arith, outside_after, rw same at found))
            | inr miss ↦ miss
          ])
          (subst (Leads id_top all_blocks j d) (sym e) leads)

    one_more :
        (j : ℕ) (k : Bytes)
        → hash_at j stands.parents ≡ k
        → LeadsFrom j k
        → LeadsFrom j (hash block)
    one_more j k e (d, leads, low, inl same) =
        (d, subst (Leads id_top all_blocks j d) same leads, low, inl refl)
    one_more j k e (d, leads, low, inr room) =
        (suc d, on_block j d k e leads, omega arith, inl refl)

    insert_top :
        (tops : List (ℕ × Bytes)) (j i : ℕ) (h : Bytes)
        → ((j ≡ i) → LeadsFrom i h)
        → LeadsFrom i (hash_at i tops)
        → LeadsFrom i (hash_at i (insert j h tops))
    insert_top tops j i h mine other =
        subst (LeadsFrom i) (sym (hash_at-insert j i h tops)) (elim (Bool-cases (j == i)) [
          | inl same ↦ rw same (mine (ground (arith, same)))
          | inr differs ↦ rw differs other
        ])

    move_one :
        (tops : List (ℕ × Bytes)) (j : ℕ) (h : Bytes)
        → LeadBack tops
        → Memᴰ (j, h) stands.parents
        → bytes_eq (hash_at j tops) h ≡ true
        → LeadBack (insert j (hash block) tops)
    move_one tops j h back mem on i mine =
        insert_top tops j i (hash block)
          (λ e.
            let here : h ≡ hash_at i tops =
              sym ((bytes_eq_iff (hash_at j tops) h).0 on) ∙ ap (λ (x : ℕ). hash_at x tops) e in
            let known : hash_at i stands.parents ≡ hash_at i tops =
              ap (λ (x : ℕ). hash_at x stands.parents) (sym e) ∙ stands.once j h mem ∙ here in
            one_more i (hash_at i tops) known (back i mine))
          (back i mine)

    stored : LeadBack (insert sid (hash block) ch.top_block_hash)
    stored i mine =
        insert_top ch.top_block_hash sid i (hash block)
          (λ e.
            let known : hash_at i stands.parents ≡ hash_at i ch.top_block_hash =
              ap (λ (x : ℕ). hash_at x stands.parents) (sym e)
              ∙ stands.on_top
              ∙ ap (λ (x : ℕ). hash_at x ch.top_block_hash) e in
            one_more i (hash_at i ch.top_block_hash) known (old_top i mine))
          (old_top i mine)

    -- The chain with the block, another pool and other tops.
    abbrev after : Pool → List (ℕ × Bytes) → PyrChain
    after pool tops = record (store hash conf digest id_top ch block sid) {
      tx_pool = pool;
      top_block_hash = tops;
    }

    after-IsLinked :
        (pool : Pool) (tops : List (ℕ × Bytes)) → LeadBack tops → IsLinked id_top (after pool tops)
    unfolding store
    after-IsLinked pool tops back = record {
      outside = outside_after;
      leads = λ i mine. let (d, leads, low, _) = back i mine in (d, leads, low);
    }

    move_tops-LeadBack :
        (rest : List (ℕ × Bytes)) (pool : Pool) (tops : List (ℕ × Bytes))
        → ((j : ℕ) (h : Bytes) → Memᴰ (j, h) rest → Memᴰ (j, h) stands.parents)
        → LeadBack tops
        → Ends
            (λ next. (ts : List (ℕ × Bytes)) × (next ≡ after pool ts) × LeadBack ts)
            (move_tops hash conf digest id_top rest block (after pool tops))
    unfolding move_tops
    move_tops-LeadBack [] pool tops inside back = ended _ (tops, refl, back)
    move_tops-LeadBack ((j, h) ∷ rest) pool tops inside back =
        Ends-bind _ (controls-Halts (after pool tops).owner_shard j) λ mine _.
          elim (Bool-cases (mine && bytes_eq (hash_at j tops) h)) [
            | inl moves ↦ rw moves (
                move_tops-LeadBack rest pool (insert j (hash block) tops)
                  (λ i w mem. inside i w (Memᴰ.tail mem))
                  (move_one tops j h back (inside j h (Memᴰ.head refl)) (ground (arith, moves))))
            | inr stays ↦
                rw stays
                  (move_tops-LeadBack rest pool tops (λ i w mem. inside i w (Memᴰ.tail mem)) back)
          ]

    printed :
        (pool : Pool) (tops : List (ℕ × Bytes))
        → LeadBack tops
        → Ends (IsLinked id_top) (
            print_all id_top
              (after pool tops)
              (ch.owner_shard.related_i_shard ++ ch.owner_shard.sid ∷ [])
            >>= λ _. ok (after pool tops))
    unfolding store
    printed pool tops back =
        let linked_after = after-IsLinked pool tops back in
        Ends-bind _
          (Returns-Ends (
            print_all-Returns id_top (after pool tops)
              (ch.owner_shard.related_i_shard ++ ch.owner_shard.sid ∷ []) linked_after
              λ i mem. mem))
          λ lines _. ended _ linked_after

    settle_txs-IsLinked :
        (txs : List Transaction)
        → Ends (IsLinked id_top) (
            settle_txs hash conf digest id_top block txs
              (store hash conf digest id_top ch block sid))
    unfolding settle_txs store
    settle_txs-IsLinked [] =
        ended _ (after-IsLinked ch.tx_pool (insert sid (hash block) ch.top_block_hash) stored)
    settle_txs-IsLinked (tx ∷ txs) =
        Ends-bind _ (remove_txs-Halts conf digest ch.tx_pool (tx ∷ txs)) λ pool _.
          Ends-bind _ (s_in_shard-Halts conf tx) λ s _.
            Ends-bind _ (r_in_shard-Halts conf tx) λ r _.
              Ends-test (s == r)
                (λ inner.
                  ended _ (after-IsLinked pool (insert sid (hash block) ch.top_block_hash) stored))
                λ cross.
                  Ends-bind _
                    (move_tops-LeadBack (listed block.h.parent_hashes) pool
                      (insert sid (hash block) ch.top_block_hash)
                      (λ j h mem. subst (Memᴰ (j, h)) (ap listed stands.built) mem) stored)
                    λ next (ts, e, back). rw e (printed pool ts back)

    -- Append of a block that is new and stands on the top of its shard ends: printChain does, too. Where
    -- it returns, each chain that the shard holds still leads back from its top to the block on the
    -- identity chain, the chains that a cross block has moved included.
    pub append_block-IsLinked :
        (sum256 : Bytes → Bytes)
        → Ends (IsLinked id_top) (append_block hash conf digest id_top sum256 ch block sid)
    unfolding append_block verify_block gen_tx_root
    append_block-IsLinked sum256 =
        let (root, e) = gen_mpt_root_total sum256 (map digest block.transactions) in
        Ends-bind _
          (Halts-bind _ _ (count_relate_txs-Halts ch block.transactions) λ n. rw e (Halts-ok _))
          λ is_legal _.
            Ends-test is_legal (λ legal. settle_txs-IsLinked block.transactions)
              λ illegal. ended ch linked
