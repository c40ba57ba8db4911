-- ===== src/Mono/Settled.antt =====
-- Append ends, and leaves a chain with a top for each shard.
use monosulfide.Prelude.{
  ℕ, zero, suc, ◌+◌, ◌<◌, ◌≡◌, inl, inr, refl, ◌∙◌, true, false, not, ◌&&◌, List, [], ◌∷◌, Option,
  some, length, if◌then◌else◌, get_elem?, Outcome, ok, ◌>>=◌, bytes, bytes_eq, nat_eq, ◌==◌, arith,
  Bool-cases, Option-cases, Ends, ended, panicked, Ends-bind, Ends-option, Ends-deref, Ends-test,
  Ends-weaken, Halts, Halts-bind, Halts-deref, Halts-ok, Halts-if, Returns-Ends,
}
use monosulfide.Prelude.Maps.{lookup, insert, lookup-insert}
use monosulfide.Prelude.Arrays.{get_or, get_elem?-get_or}
use monosulfide.Content.{Bytes}
use monosulfide.Tx.{Transaction, Config}
use monosulfide.Pool.{Pool, remove_txs}
use monosulfide.Pool.Halts.{append-Halts, remove_txs-Halts}
use monosulfide.Merkle.Binding.{gen_mpt_root_total}
use monosulfide.Mono.{
  FideBlock, MonoChain, CBlockHead, SubBlock, txs, top, anc, ancs, refs_known, valid_from, valid,
  sub_hashes, verify_remote_block, verify_block,
}
use monosulfide.Mono.Ancestors.{Rooted, anc-Lineage}
use monosulfide.Mono.Branches.{Order, append_all, change_blocks, move_tops, find_best_branches}
use monosulfide.Mono.Measure.{IsOrder}
use monosulfide.Mono.Turn.{First, IsTop}
use monosulfide.Mono.Ends.{best_tops-AreTops}
use monosulfide.Mono.Append.{hold, refs_on_tops, choose_top, append_block}
use monosulfide.Mono.Registered.{
  IsChain, Fits, ReferringIn, Past, ref-Halts, note_refs-ReferringIn, add_weights-Past,
  later-IsChain, lookup_new, lookup_old, all_blocks-Rooted,
}

moved_step :
    (i : ℕ) (h : Bytes) (new : List Bytes) (old tops : List (ℕ × Bytes))
    → ((k : ℕ) (w : Bytes) → get_elem? new k ≡ some w → lookup (suc i + k) tops ≡ some w)
    → lookup i tops ≡ lookup i (insert i h old)
    → (k : ℕ) (w : Bytes) → get_elem? (h ∷ new) k ≡ some w
    → lookup (i + k) tops ≡ some w
moved_step i h new old tops later now zero w there =
    let e : i + 0 ≡ i = omega arith in rw e (now ∙ ground (arith, lookup-insert i i h old, there))
moved_step i h new old tops later now (suc k) w there =
    let e : i + suc k ≡ suc i + k = omega arith in rw e (later k w there)

lt_later : (now later : ℕ) {t : ℕ} → t < now → now < later → t < later
lt_later now later low clock = omega arith

-- Every shard has a top.
abbrev pub IsTopped : ℕ → MonoChain → Type 0
IsTopped n ch = (i : ℕ) → i < n → IsTop ch i (top ch i)

module _ (hash : FideBlock → Bytes) where
  anc-Halts :
      (ch : MonoChain) (k : Bytes)
      → ((i : ℕ) (g : FideBlock) → get_elem? ch.block_gs i ≡ some g → Rooted hash ch.blocks g)
      → Halts (anc hash ch k)
  unfolding anc
  anc-Halts ch k rooted = elim (Option-cases (lookup k ch.blocks)) [
    | inl missing ↦ rw (missing, anc) panicked
    | inr (b, found) ↦ elim (Option-cases (get_elem? ch.block_gs b.h.shard_idx)) [
      | inl no_shard ↦ rw (found, anc, no_shard) panicked
      | inr (g, first) ↦
          Ends-weaken
            (Returns-Ends (anc-Lineage hash ch k b g (rooted b.h.shard_idx g first) found first))
            λ m p. tt
    ]
  ]

  refs_on_tops-Halts :
      (ch : MonoChain) (block : FideBlock) (i m : ℕ)
      → ((j : ℕ) (g : FideBlock) → get_elem? ch.block_gs j ≡ some g → Rooted hash ch.blocks g)
      → Halts (refs_on_tops hash ch block i m)
  unfolding refs_on_tops
  refs_on_tops-Halts ch block i zero rooted = Halts-ok true
  refs_on_tops-Halts ch block i (suc m) rooted =
      Halts-bind _ _ (anc-Halts ch (top ch i) rooted) λ branch.
        Halts-bind _ _ (ref-Halts block i)
          λ r. Halts-bind _ _ (refs_on_tops-Halts ch block (suc i) m rooted) λ rest. Halts-ok _

  module _ (ch : MonoChain)
      (rooted : (i : ℕ) (g : FideBlock)
        → get_elem? ch.block_gs i ≡ some g
        → Rooted hash ch.blocks g) where
    ancs-Halts : (block : FideBlock) (i m : ℕ) → Halts (ancs hash ch block i m)
    unfolding ancs
    ancs-Halts block i zero = Halts-ok []
    ancs-Halts block i (suc m) = Halts-bind _ _ (ref-Halts block i) λ r.
        Halts-bind _ _ (anc-Halts ch r rooted)
          λ a. Halts-bind _ _ (ancs-Halts block (suc i) m) λ rest. Halts-ok _

    refs_known-Halts :
        (block : FideBlock) (j : ℕ) (anc_s : List (List (Bytes × FideBlock)))
        → Halts (refs_known hash block j anc_s)
    unfolding refs_known
    refs_known-Halts block j [] = Halts-ok true
    refs_known-Halts block j (a ∷ rest) = Halts-bind _ _ (ref-Halts block j) λ r.
        Ends-option (lookup r a) _ _ (λ missing. Halts-ok false)
          λ b found. refs_known-Halts block (suc j) rest

    valid_from-Halts :
        (block : FideBlock) (anc_s : List (List (Bytes × FideBlock))) (i m : ℕ)
        → Halts (valid_from hash ch block anc_s i m)
    unfolding valid_from
    valid_from-Halts block anc_s i zero = Halts-ok true
    valid_from-Halts block anc_s i (suc m) = Halts-bind _ _ (ref-Halts block i) λ r.
        Halts-deref (lookup r ch.blocks) _ λ ref_i. Halts-deref (get_elem? ch.block_gs i) _ λ g.
          Halts-bind _ _
            (Halts-if (bytes_eq (hash ref_i) (hash g)) _ _ (Halts-ok true)
              (refs_known-Halts ref_i 0 anc_s))
            λ good. Halts-if good _ _ (valid_from-Halts block anc_s (suc i) m) (Halts-ok false)

    module _ (sub_hash : Option CBlockHead → Bytes) (sum256 : Bytes → Bytes) (conf : Config) where
      sub_hashes-Halts :
          (m : ℕ) (subs : List (Option SubBlock)) → Halts (sub_hashes sub_hash sum256 m subs)
      unfolding sub_hashes
      sub_hashes-Halts m [] = Halts-ok _
      sub_hashes-Halts zero (sub ∷ subs) = panicked
      sub_hashes-Halts (suc m) (sub ∷ subs) =
          Halts-deref sub _ λ s. Halts-bind _ _ (sub_hashes-Halts m subs) λ rest. Halts-ok _

      verify_block-Halts :
          (block : FideBlock) → Halts (verify_block sub_hash sum256 hash conf ch block)
      unfolding verify_block verify_remote_block valid
      verify_block-Halts block =
          Halts-bind _ _
            (Halts-bind _ _ (sub_hashes-Halts conf.fide_shard_amount block.b)
              λ hashes. let (root, e) = gen_mpt_root_total sum256 hashes in rw e (Halts-ok _))
            λ legal.
              Halts-bind _ _
                (Halts-bind _ _ (ancs-Halts block 0 conf.fide_shard_amount)
                  λ anc_s. valid_from-Halts block anc_s 0 conf.fide_shard_amount)
                λ good. Halts-ok _

  module _ (conf : Config) (digest : Transaction → Bytes)
      (visit_blocks : List (Bytes × FideBlock) → List (Bytes × FideBlock)) (order : Order) where
    append_all-Halts :
        (pool : Pool) (new : List Transaction)
        → Halts (append_all hash order conf digest visit_blocks pool new)
    unfolding append_all
    append_all-Halts pool [] = Halts-ok pool
    append_all-Halts pool (tx ∷ rest) =
        Halts-bind _ _ (append-Halts conf digest pool tx) λ next. append_all-Halts next rest

    change_blocks-Halts :
        (change : Pool → List Transaction → Outcome Pool)
        → ((pool : Pool) (moved : List Transaction) → Halts (change pool moved))
        → (others blocks : List (Bytes × FideBlock)) (pool : Pool)
        → Halts (change_blocks hash order conf digest visit_blocks change others blocks pool)
    unfolding change_blocks
    change_blocks-Halts change ends others [] pool = Halts-ok pool
    change_blocks-Halts change ends others ((k, b) ∷ rest) pool =
        Halts-bind _ _
          (Ends-option (lookup k others) _ _ (λ missing. ends pool (txs b.b))
            (λ c found. Halts-ok pool))
          λ next. change_blocks-Halts change ends others rest next

    module _ (now n : ℕ) (base : MonoChain) (chain : IsChain hash now n base) where
      -- The chain with another pool and with other tops.
      abbrev renewed : Pool → List (ℕ × Bytes) → MonoChain
      renewed pool tops = record base { tx_pool = pool; top_block_hash = tops }

      renewed-IsChain :
          (pool : Pool) (tops : List (ℕ × Bytes)) → IsChain hash now n (renewed pool tops)
      renewed-IsChain pool tops = record {
        grown = record {
          named = chain.grown.named;
          filled = chain.grown.filled;
          placed = chain.grown.placed;
          shards = chain.grown.shards;
          begun = chain.grown.begun;
          referring = chain.grown.referring;
          past = chain.grown.past;
        };
        rooted = chain.rooted;
      }

      pool_after-Halts :
          (i : ℕ) (h : Bytes) (pool : Pool) (tops : List (ℕ × Bytes))
          → Halts (
              if bytes_eq (top (renewed pool tops) i) h
              then ok pool
              else anc hash (renewed pool tops) (top (renewed pool tops) i) >>= λ old.
                  anc hash (renewed pool tops) h >>= λ new.
                  change_blocks hash order conf digest visit_blocks
                    (append_all hash order conf digest visit_blocks)
                    new
                    (visit_blocks old)
                    pool
                  >>= change_blocks hash order conf digest visit_blocks
                      (remove_txs conf digest)
                      old
                      (visit_blocks new))
      pool_after-Halts i h pool tops =
          let ch = renewed pool tops in
          Halts-if (bytes_eq (top ch i) h) _ _ (Halts-ok pool) (
            Halts-bind _ _ (anc-Halts ch (top ch i) chain.rooted) λ old.
              Halts-bind _ _ (anc-Halts ch h chain.rooted) λ new.
                Halts-bind _ _ (change_blocks-Halts _ append_all-Halts new (visit_blocks old) pool)
                  λ next.
                    change_blocks-Halts _ (remove_txs-Halts conf digest) old (visit_blocks new)
                      next)

      -- The tops from shard `i` on are the given ones, the others are the old ones.
      record MovedTo (i : ℕ) (new : List Bytes) (old : List (ℕ × Bytes)) (ch : MonoChain)
          : Type 0 where
        pool : Pool
        tops : List (ℕ × Bytes)
        same : ch ≡ renewed pool tops
        moved : (k : ℕ) (h : Bytes) → get_elem? new k ≡ some h → lookup (i + k) tops ≡ some h
        kept : (j : ℕ) → j < i → lookup j tops ≡ lookup j old

      MovedTo-step :
          (i : ℕ) (h : Bytes) (new : List Bytes) (old : List (ℕ × Bytes)) (ch : MonoChain)
          → MovedTo (suc i) new (insert i h old) ch
          → MovedTo i (h ∷ new) old ch
      MovedTo-step i h new old ch p = record {
        pool = p.pool;
        tops = p.tops;
        same = p.same;
        moved = moved_step i h new old p.tops p.moved (p.kept i (omega arith));
        kept = λ j low. p.kept j (omega arith) ∙ ground (arith, lookup-insert i j h old);
      }

      move_tops-MovedTo :
          (i : ℕ) (new : List Bytes) (pool : Pool) (old : List (ℕ × Bytes))
          → Ends
              (MovedTo i new old)
              (move_tops hash order conf digest visit_blocks i new (renewed pool old))
      unfolding move_tops
      move_tops-MovedTo i [] pool old = ended _ (record {
        pool = pool;
        tops = old;
        same = refl;
        moved = λ k h there. absurd (ground (arith, there));
        kept = λ j low. refl;
      })
      move_tops-MovedTo i (h ∷ new) pool old = Ends-bind _ (pool_after-Halts i h pool old) λ next _.
          Ends-weaken (move_tops-MovedTo (suc i) new next (insert i h old))
            λ ch p. MovedTo-step i h new old ch p

      -- The chain is in order, each shard has a top, and the blocks are those of before.
      pub record Settled (ch : MonoChain) : Type 0 where
        pub chain_after : IsChain hash now n ch
        pub topped : IsTopped n ch
        pub same_blocks : ch.blocks ≡ base.blocks

      renewed-Settled :
          (pool : Pool) (tops : List (ℕ × Bytes))
          → ((i : ℕ) → i < n → IsTop base i (top (renewed pool tops) i))
          → Settled (renewed pool tops)
      renewed-Settled pool tops good = record {
        chain_after = renewed-IsChain pool tops;
        topped = good;
        same_blocks = refl;
      }

      MovedTo-Settled :
          (new : List Bytes) (ch : MonoChain)
          → (length new ≡ n) × ((i : ℕ) (h : Bytes) → get_elem? new i ≡ some h → IsTop base i h)
          → MovedTo 0 new base.top_block_hash ch
          → Settled ch
      unfolding top lookup
      MovedTo-Settled new ch (size, good) p = rw p.same (
          renewed-Settled p.pool p.tops λ i low.
            let h = get_or new i [] in
            let there = get_elem?-get_or new i [] (omega arith) in
            let e : 0 + i ≡ i = omega arith in rw (rw e at (p.moved i h there)) (good i h there))

      module _ (o : IsOrder order) (amount : conf.fide_shard_amount ≡ n) where
        find_best_branches-Settled :
            Ends Settled (find_best_branches hash order conf digest visit_blocks now base)
        unfolding find_best_branches
        find_best_branches-Settled =
            Ends-bind _
              (Returns-Ends (best_tops-AreTops hash now n order o base chain.grown conf amount))
              λ new tops.
                Ends-weaken (move_tops-MovedTo 0 new base.tx_pool base.top_block_hash)
                  λ ch p. MovedTo-Settled new ch tops p

        module _ (sub_hash : Option CBlockHead → Bytes) (sum256 : Bytes → Bytes) (block : FideBlock)
            (there : lookup (hash block) base.blocks ≡ some block) (topped : IsTopped n base) where
          new_top :
              (pool : Pool) (i : ℕ)
              → i < n
              → IsTop base i
                  (top (renewed pool (insert block.h.shard_idx (hash block) base.top_block_hash)) i)
          unfolding top
          new_top pool i low =
              let found = lookup-insert block.h.shard_idx i (hash block) base.top_block_hash in
              elim (Bool-cases (block.h.shard_idx == i)) [
                | inl mine ↦
                    let e : block.h.shard_idx ≡ i = ground (arith, mine) in
                    rw (found, top, mine) (block, there, inl e)
                | inr other ↦ rw (found, top, other) (topped i low)
              ]

          choose_top-Settled :
              Ends Settled
                (choose_top hash sub_hash sum256 order conf digest visit_blocks now block base)
          unfolding choose_top
          choose_top-Settled =
              Ends-bind _ (refs_on_tops-Halts base block 0 conf.fide_shard_amount chain.rooted)
                λ good _.
                  Ends-test (bytes_eq block.h.parent_hash (top base block.h.shard_idx) && good)
                    (λ grows.
                      Ends-bind _ (remove_txs-Halts conf digest base.tx_pool (txs block.b))
                        λ pool _. ended _ (
                          renewed-Settled pool
                            (insert block.h.shard_idx (hash block) base.top_block_hash)
                            (new_top pool)))
                    λ forks. find_best_branches-Settled

-- What Append leaves: a chain in order with the block, the blocks of before, and a top for each
-- shard.
pub record Appended (hash : FideBlock → Bytes) (later n : ℕ) (ch : MonoChain) (block : FideBlock)
    (next : MonoChain) : Type 0 where
  pub chain : IsChain hash later n next
  pub topped : IsTopped n next
  pub there : lookup (hash block) next.blocks ≡ some block
  pub kept :
      (k : Bytes) (b : FideBlock) → lookup k ch.blocks ≡ some b → lookup k next.blocks ≡ some b

module _ (hash : FideBlock → Bytes) (sub_hash : Option CBlockHead → Bytes) (sum256 : Bytes → Bytes)
    (order : Order) (o : IsOrder order) (conf : Config) (digest : Transaction → Bytes)
    (visit_blocks : List (Bytes × FideBlock) → List (Bytes × FideBlock)) (now later n : ℕ)
    (clock : now < later) (amount : conf.fide_shard_amount ≡ n) where
  module _ (ch : MonoChain) (block : FideBlock) (chain : IsChain hash now n ch)
      (fits : Fits hash n ch block) where
    abbrev held : MonoChain
    held = hold hash ch block

    abbrev weighed : List (Bytes × List Bytes) → List (Bytes × ℕ) → List (Bytes × ℕ) → MonoChain
    weighed rs ws us = record held { refs = rs; weight = ws; updata_t = us }

    not_begun : ¬ First hash ch (hash block)
    not_begun (i, g, found, e) =
        let known = chain.grown.begun i g found in
        absurd (ground (arith, fits.fresh, rw e at known))

    held-ReferringIn : ReferringIn hash held ch.refs
    unfolding hold
    held-ReferringIn k c mem =
        let ((b, found), later) = chain.grown.referring k c mem in
        ((b, (lookup_old hash now n ch block chain fits c b found).0), later)

    weighed-IsTopped :
        (rs : List (Bytes × List Bytes)) (ws us : List (Bytes × ℕ))
        → IsTopped n ch
        → IsTopped n (weighed rs ws us)
    unfolding hold top
    weighed-IsTopped rs ws us topped i low =
        let (b, found, place) = topped i low in
        (b, (lookup_old hash now n ch block chain fits _ b found).0, place)

    choose_top-Appended :
        (rs : List (Bytes × List Bytes)) (ws us : List (Bytes × ℕ))
        → IsTopped n ch
        → ReferringIn hash held rs
        → Past hash later us
        → Ends (Appended hash later n ch block) (
            choose_top hash sub_hash sum256 order conf digest visit_blocks later block
              (weighed rs ws us))
    unfolding hold
    choose_top-Appended rs ws us topped referring past =
        let base = weighed rs ws us in
        let after = later-IsChain hash now n ch block chain fits later rs ws us referring past in
        let there = lookup_new hash now n ch block chain fits in
        Ends-weaken
          (choose_top-Settled hash conf digest visit_blocks order later n base after o amount
            sub_hash sum256 block there (weighed-IsTopped rs ws us topped))
          λ next p. record {
            chain = p.chain_after;
            topped = p.topped;
            there = rw p.same_blocks there;
            kept = λ k b found.
                rw p.same_blocks ((lookup_old hash now n ch block chain fits k b found).0);
          }

  -- Append ends, for every order of the ranges of FindBestBranches, with a block that is new to a
  -- chain of which all blocks descend from the first blocks. Where it returns, the chain still is
  -- one, with the block and all blocks of before, and the top of each shard is a block of that shard
  -- or its first block.
  pub append_block-Appended :
      (ch : MonoChain) (block : FideBlock)
      → IsChain hash now n ch
      → IsTopped n ch
      → Fits hash n ch block
      → Ends
          (Appended hash later n ch block)
          (append_block hash sub_hash sum256 order conf digest visit_blocks now later ch block)
  unfolding append_block hold
  append_block-Appended ch block chain topped fits =
      Ends-bind _ (verify_block-Halts hash ch chain.rooted sub_hash sum256 conf block) λ is_legal _.
        Ends-test (not is_legal) (λ illegal. panicked)
          λ legal.
            Ends-bind _
              (note_refs-ReferringIn hash (hold hash ch block) block 0 conf.fide_shard_amount
                ch.refs
                ((block, lookup_new hash now n ch block chain fits), not_begun ch block chain fits)
                (held-ReferringIn ch block chain fits))
              λ noted (rs, e, referring). rw e (
                Ends-deref (get_elem? ch.block_gs block.h.shard_idx) _ λ genesis first.
                  let r =
                    all_blocks-Rooted hash now n ch block chain fits genesis
                      (chain.rooted block.h.shard_idx genesis first) in
                  let new = lookup_new hash now n ch block chain fits in
                  Ends-bind _
                    (Returns-Ends (
                      add_weights-Past hash (record (hold hash ch block) { refs = rs }) genesis r
                        now later _ block ch.weight ch.updata_t clock new
                        (r.low (hash block) block new)
                        λ k. lt_later now later (chain.grown.past k) clock))
                    λ next (ws, us, e', past).
                      rw e'
                        (choose_top-Appended ch block chain fits rs ws us topped referring past))
