-- ===== src/Mono/Registered.antt =====
-- Append writes a new block to the maps, and leaves a chain on which FindBestBranches can run.
use mathlib.Core.List.{Memᴰ}
use mathlib.Core.List.Memᴰ
use monosulfide.Prelude.{
  ℕ, zero, suc, ◌+◌, ◌<◌, ◌≡◌, ◌⊎◌, inl, inr, refl, ◌∙◌, sym, false, List, [], ◌∷◌, ◌++◌, none,
  some, length, if◌then◌else◌, get_elem?, bytes, bytes_eq, bytes_eq_iff, bytes_eq_refl, arith,
  Bool-cases, Ends, ended, Ends-bind, Halts, Halts-deref, Halts-ok, Returns, returns, Returns-test,
}
use monosulfide.Prelude.Maps.{lookup, insert, lookup-insert, length-insert}
use monosulfide.Content.{Bytes}
use monosulfide.Mono.{FideBlock, MonoChain, ref}
use monosulfide.Mono.Ancestors.{Rooted}
use monosulfide.Mono.Branches.{or_zero}
use monosulfide.Mono.Measure.{lookup-insert_cases}
use monosulfide.Mono.Turn.{IsGrown, First}
use monosulfide.Mono.Append.{hold, note_refs, add_weights}

pub ref-Halts : (block : FideBlock) (i : ℕ) → Halts (ref block i)
unfolding ref
ref-Halts block i =
    Halts-deref (get_elem? block.b i) _
      λ slot. Halts-deref slot _ λ sub. Halts-deref sub.c_head _ λ head. Halts-ok _

module _ (hash : FideBlock → Bytes) where
  -- A chain of `n` shards whose blocks all descend from the first blocks of the shards.
  pub record IsChain (now n : ℕ) (ch : MonoChain) : Type 0 where
    pub grown : IsGrown hash now n ch
    pub rooted :
        (i : ℕ) (g : FideBlock) → get_elem? ch.block_gs i ≡ some g → Rooted hash ch.blocks g

  -- A block that is new to the chain, and whose parent is there.
  pub record Fits (n : ℕ) (ch : MonoChain) (block : FideBlock) : Type 0 where
    pub fresh : lookup (hash block) ch.blocks ≡ none
    pub has_hash : bytes_eq (hash block) [] ≡ false
    pub shard : block.h.shard_idx < n
    pub parent : (p : FideBlock) × (lookup block.h.parent_hash ch.blocks ≡ some p)

  -- What refs may hold.
  abbrev pub ReferringIn : MonoChain → List (Bytes × List Bytes) → Type 0
  ReferringIn ch rs =
      (k c : Bytes)
      → Memᴰ c (or_zero [] (lookup k rs))
      → ((b : FideBlock) × (lookup c ch.blocks ≡ some b)) × ¬ First hash ch c

  abbrev pub Past : ℕ → List (Bytes × ℕ) → Type 0
  Past later us = (k : Bytes) → or_zero 0 (lookup k us) < later

  referring_more :
      (ch : MonoChain) (rs : List (Bytes × List Bytes)) (r h : Bytes)
      → ReferringIn ch rs
      → ((b : FideBlock) × (lookup h ch.blocks ≡ some b)) × ¬ First hash ch h
      → ReferringIn ch (insert r (or_zero [] (lookup r rs) ++ h ∷ []) rs)
  referring_more ch rs r h p good k c mem =
      elim (lookup-insert_cases r k (or_zero [] (lookup r rs) ++ h ∷ []) rs) [
        | inl same ↦ p k c (rw same at mem)
        | inr (e, new) ↦ elim (Memᴰ.append_cases (or_zero [] (lookup r rs)) (rw new at mem)) [
          | inl old ↦ p r c old
          | inr last ↦ rw (Memᴰ.eq_of_singleton last) good
        ]
      ]

  pub note_refs-ReferringIn :
      (base : MonoChain) (block : FideBlock) (i m : ℕ) (rs : List (Bytes × List Bytes))
      → ((b : FideBlock) × (lookup (hash block) base.blocks ≡ some b))
        × ¬ First hash base (hash block)
      → ReferringIn base rs
      → Ends
          (λ ch.
            (qs : List (Bytes × List Bytes)) × (ch ≡ record base { refs = qs })
            × ReferringIn base qs)
          (note_refs hash block i m (record base { refs = rs }))
  unfolding note_refs
  note_refs-ReferringIn base block i zero rs good p = ended _ (rs, refl, p)
  note_refs-ReferringIn base block i (suc m) rs good p = Ends-bind _ (ref-Halts block i) λ r _.
      note_refs-ReferringIn base block (suc i) m
        (insert r (or_zero [] (lookup r rs) ++ hash block ∷ []) rs) good
        (referring_more base rs r (hash block) p good)

  still_before :
      (now later : ℕ) (us : List (Bytes × ℕ)) (k : Bytes)
      → now < later
      → Past later us
      → Past later (insert k now us)
  still_before now later us k low p j = elim (lookup-insert_cases k j now us) [
    | inl same ↦ rw same (p j)
    | inr (e, new) ↦ rw new low
  ]

  pub add_weights-Past :
      (base : MonoChain) (genesis : FideBlock) (r : Rooted hash base.blocks genesis) (now later : ℕ)
      (fuel : ℕ) (temp : FideBlock) (ws us : List (Bytes × ℕ))
      → now < later
      → lookup (hash temp) base.blocks ≡ some temp
      → r.height (hash temp) < fuel
      → Past later us
      → Returns
          (λ ch.
            (vs ts : List (Bytes × ℕ)) × (ch ≡ record base { weight = vs; updata_t = ts })
            × Past later ts)
          (add_weights hash fuel now genesis temp (record base { weight = ws; updata_t = us }))
  unfolding add_weights
  add_weights-Past base genesis r now later zero temp ws us low there enough p =
      absurd (omega arith)
  add_weights-Past base genesis r now later (suc fuel) temp ws us low there enough p =
      Returns-test (bytes_eq (hash temp) (hash genesis)) (λ over. returns _ (ws, us, refl, p))
        λ more.
          let (up, found, lower) = r.parent (hash temp) temp there more in
          let name : hash up ≡ temp.h.parent_hash = r.named temp.h.parent_hash up found in
          rw found (
            add_weights-Past base genesis r now later fuel up
              (insert (hash temp) (or_zero 0 (lookup (hash temp) ws) + 1) ws)
              (insert (hash temp) now us) low (rw name found)
              (rw name (omega (arith, lower, enough)))
              (still_before now later us (hash temp) low p))

  module _ (now n : ℕ) (ch : MonoChain) (block : FideBlock) (chain : IsChain now n ch)
      (fits : Fits n ch block) where
    abbrev all_blocks : List (Bytes × FideBlock)
    all_blocks = insert (hash block) block ch.blocks

    pub lookup_new : lookup (hash block) all_blocks ≡ some block
    lookup_new =
        ground (
          arith,
          lookup-insert (hash block) (hash block) block ch.blocks,
          bytes_eq_refl (hash block),
        )

    pub lookup_old :
        (k : Bytes) (b : FideBlock)
        → lookup k ch.blocks ≡ some b
        → (lookup k all_blocks ≡ some b) × (bytes_eq (hash block) k ≡ false)
    lookup_old k b found = elim (Bool-cases (bytes_eq (hash block) k)) [
      | inl hit ↦
          let e : hash block ≡ k = (bytes_eq_iff (hash block) k).0 hit in
          absurd (ground (arith, fits.fresh, rw (← e) at found))
      | inr miss ↦ (ground (arith, lookup-insert (hash block) k block ch.blocks, miss, found), miss)
    ]

    -- A block of the chain afterwards is the new one or one from before.
    found_cases :
        (k : Bytes) (b : FideBlock)
        → lookup k all_blocks ≡ some b
        → ((k ≡ hash block) × (b ≡ block)) ⊎ (lookup k ch.blocks ≡ some b)
    found_cases k b found = elim (lookup-insert_cases (hash block) k block ch.blocks) [
      | inl same ↦ inr (sym same ∙ found)
      | inr (e, new) ↦ inl (sym e, ground (arith, new, found))
    ]

    size : length all_blocks ≡ suc (length ch.blocks)
    size = length-insert (hash block) block ch.blocks ∙ rw fits.fresh refl

    height_after : (Bytes → ℕ) → Bytes → ℕ
    height_after height k =
        if bytes_eq (hash block) k then suc (height block.h.parent_hash) else height k

    pub all_blocks-Rooted : (g : FideBlock) → Rooted hash ch.blocks g → Rooted hash all_blocks g
    unfolding height_after
    all_blocks-Rooted g r =
        let (up, known) = fits.parent in
        let (_, apart) = lookup_old block.h.parent_hash up known in
        let same = bytes_eq_refl (hash block) in
        record {
          height = height_after r.height;
          low = λ k b found. elim (found_cases k b found) [
            | inl (e, _) ↦ rw (e, same) (omega (arith, size, r.low block.h.parent_hash up known))
            | inr old ↦
                let (_, other) = lookup_old k b old in rw other (omega (arith, size, r.low k b old))
          ];
          named = λ k b found. elim (found_cases k b found) [
            | inl (e, f) ↦ rw (e, f) refl
            | inr old ↦ r.named k b old
          ];
          parent = λ k b found more. elim (found_cases k b found) [
            | inl (e, f) ↦ (
              up,
              rw f ((lookup_old block.h.parent_hash up known).0),
              rw (e, f, same, apart) (omega arith),
            )
            | inr old ↦
                let (p, there, lower) = r.parent k b old more in
                let (still, other) = lookup_old b.h.parent_hash p there in
                let (_, here) = lookup_old k b old in (p, still, rw (other, here) lower)
          ];
        }

    pub later-IsChain :
        (later : ℕ) (rs : List (Bytes × List Bytes)) (ws us : List (Bytes × ℕ))
        → ReferringIn (hold hash ch block) rs
        → Past later us
        → IsChain later n (record (hold hash ch block) { refs = rs; weight = ws; updata_t = us })
    unfolding hold
    later-IsChain later rs ws us referring past = record {
      grown = record {
        named = λ k b found. elim (found_cases k b found) [
          | inl (e, f) ↦ rw (e, f) refl
          | inr old ↦ chain.grown.named k b old
        ];
        filled = ground (
          arith,
          lookup-insert (hash block) [] block ch.blocks,
          fits.has_hash,
          chain.grown.filled,
        );
        placed = λ k b found. elim (found_cases k b found) [
          | inl (e, f) ↦ rw f fits.shard
          | inr old ↦ chain.grown.placed k b old
        ];
        shards = chain.grown.shards;
        begun = λ i g found. (lookup_old (hash g) g (chain.grown.begun i g found)).0;
        referring = referring;
        past = past;
      };
      rooted = λ i g found. all_blocks-Rooted g (chain.rooted i g found);
    }
