-- ===== src/Mono/Ends.antt =====
-- FindBestBranches ends: the heaviest of the forked blocks goes on where all of them are locked.
use mathlib.Core.List.{Memᴰ}
use mathlib.Core.List.Memᴰ
use monosulfide.Prelude.{
  ℕ, zero, suc, ◌+◌, ◌*◌, ◌≤◌, ◌<◌, ◌≡◌, ◌≢◌, ◌⊎◌, inl, inr, refl, ◌∙◌, ap, sym, false, not, ◌&&◌,
  List, [], ◌∷◌, Option, none, some, length, ltb, if◌then◌else◌, get_elem?, ok, bytes, bytes_eq,
  bytes_eq_iff, bytes_eq_refl, nat_eq, ◌==◌, arith, Bool-cases, Option-cases, if-cases, Returns,
  returns, Returns-bind, Returns-weaken, Returns-test,
}
use monosulfide.Prelude.Maps.{lookup, insert, delete, lookup-delete, length-delete-le}
use monosulfide.Content.{Bytes}
use monosulfide.Tx.{Config}
use monosulfide.Mono.{FideBlock, MonoChain}
use monosulfide.Mono.Branches.{
  Sweep, Order, or_zero, keys, heavier, heaviest, discard, unlock_best, remove_loop, first_tops,
  first_removeable, first_sweep, best_tops,
}
use monosulfide.Mono.Measure.{positives-le, work, IsOrder, lookup-insert_cases}
use monosulfide.Mono.Turn.{IsTop, IsGrown, Sound, Swept, sweep-Swept, lookup-delete_le}

lookup-Mem {ℓ} :
    {V : Type ℓ} (k : Bytes) (m : List (Bytes × V)) (v : V) → lookup k m ≡ some v → Memᴰ k (keys m)
unfolding lookup
lookup-Mem k [] v h = absurd (ground (arith, h))
lookup-Mem k ((j, w) ∷ m) v h = elim (Bool-cases (bytes_eq j k)) [
  | inl hit ↦ Memᴰ.head (sym ((bytes_eq_iff j k).0 hit))
  | inr miss ↦ Memᴰ.tail (lookup-Mem k m v (rw miss at h))
]

filled-key {ℓ} :
    {V : Type ℓ} (m : List (Bytes × V))
    → (length m == 0) ≡ false
    → (k : Bytes) × (v : V) × (lookup k m ≡ some v)
unfolding lookup
filled-key [] h = absurd (ground (arith, h))
filled-key ((k, v) ∷ m) h = (k, v, rw (bytes_eq_refl k) refl)

get_elem?-ne_none {ℓ} : {A : Type ℓ} (xs : List A) (i : ℕ) → i < length xs → get_elem? xs i ≢ none
get_elem?-ne_none [] i low missing = absurd (omega arith)
get_elem?-ne_none (x ∷ xs) zero low missing = ground (arith, missing)
get_elem?-ne_none (x ∷ xs) (suc i) low missing = get_elem?-ne_none xs i (omega arith) missing

module _ (hash : FideBlock → Bytes) (now n : ℕ) (order : Order) (o : IsOrder order) (ch : MonoChain)
    (grown : IsGrown hash now n ch) where
  abbrev SoundHere : Sweep → Type 0
  SoundHere s = Sound hash now n order o ch grown s

  -- A key with its block.
  abbrev Entry : Sweep → Bytes → Type 0
  Entry s k = (b : FideBlock) × (lookup k s.removeable ≡ some (some b))

  heavier_cases :
      (best : ℕ × Bytes × ℕ) (b : FideBlock)
      → ((heavier hash order ch best b).1 ≡ best.1) ⊎ ((heavier hash order ch best b).1 ≡ hash b)
  unfolding heavier
  heavier_cases (m, h, t) b =
      let P = λ (x : ℕ × Bytes × ℕ). (x.1 ≡ h) ⊎ (x.1 ≡ hash b) in
      let old : ℕ × Bytes × ℕ = (m, h, t) in
      let w = or_zero 0 (lookup (hash b) ch.weight) in
      let u = or_zero 0 (lookup (hash b) ch.updata_t) in
      let more : ℕ × Bytes × ℕ = (w, hash b, u) in
      let newer : ℕ × Bytes × ℕ = (m, hash b, u) in
      let tie = if ltb u t then newer else old in
      if-cases P (ltb m w) more (if w == m then tie else old) (inr refl) (
        if-cases P (w == m) tie old (if-cases P (ltb u t) newer old (inr refl) (inl refl))
          (inl refl))

  heavier_first : (b : FideBlock) → (heavier hash order ch (0, [], now) b).1 ≡ hash b
  unfolding heavier
  heavier_first b = ground (arith, grown.past (hash b))

  heaviest-Entry :
      (s : Sweep) (todo : List Bytes) (best : ℕ × Bytes × ℕ)
      → SoundHere s
      → Entry s best.1
        ⊎ ((best ≡ (0, [], now))
            × ((k : Bytes) × (slot : Option FideBlock) × (lookup k s.removeable ≡ some slot)
                × Memᴰ k todo))
      → Returns (Entry s) (heaviest hash order ch s.removeable todo best)
  unfolding heaviest
  heaviest-Entry s [] best p (inl chosen) = returns best.1 chosen
  heaviest-Entry s [] best p (inr (e, (k, slot, there, mem))) = absurd (Memᴰ.not-nil mem)
  heaviest-Entry s (k ∷ todo) best p chosen = elim (Option-cases (lookup k s.removeable)) [
    | inl missing ↦
        rw (missing, heaviest)
          (heaviest-Entry s todo best p (elim chosen [
            | inl entry ↦ inl entry
            | inr (e, (j, slot, there, mem)) ↦ elim (Memᴰ.cases_cons mem) [
              | inl same ↦ absurd (ground (arith, missing, rw same at there))
              | inr later ↦ inr (e, (j, slot, there, later))
            ]
          ]))
    | inr (slot, there) ↦
        let (b, full, found) = p.held k slot there in
        let name : hash b ≡ k = grown.named k b found in
        let here : Entry s (hash b) = (b, rw name (there ∙ ap some full)) in
        rw (there, heaviest, full)
          (heaviest-Entry s todo (heavier hash order ch best b) p (
            inl (elim chosen [
              | inl entry ↦ elim (heavier_cases best b) [
                | inl old ↦ rw old entry
                | inr new ↦ rw new here
              ]
              | inr (e, _) ↦ rw (e, heavier_first b) here
            ])))
  ]

  record Kept (best : Bytes) (w : FideBlock) (s t : Sweep) : Type 0 where
    sound : SoundHere t
    no_more : work t ≤ work s
    there : lookup best t.removeable ≡ some (some w)

  lost :
      (best k : Bytes) (w b : FideBlock) (s : Sweep)
      → SoundHere s
      → lookup best s.removeable ≡ some (some w)
      → bytes_eq (hash b) best ≡ false
      → Kept best w s (record s {
        removeable = delete (hash b) s.removeable;
        lock_map = delete (hash b) s.lock_map;
      })
  lost best k w b s p there other = record {
    sound = record {
      held = λ j slot h. p.held j slot (lookup-delete_le (hash b) j s.removeable slot h);
      spent = λ j slot h. p.spent j slot (lookup-delete_le (hash b) j s.removeable slot h);
      waiting = p.waiting;
      shards = p.shards;
      size = p.size;
    };
    no_more = omega (arith, length-delete-le (hash b) s.removeable);
    there = ground (arith, lookup-delete (hash b) best s.removeable, other, there);
  }

  Kept-trans :
      (best : Bytes) (w : FideBlock) (s t u : Sweep)
      → Kept best w s t
      → Kept best w t u
      → Kept best w s u
  Kept-trans best w s t u p q = record {
    sound = q.sound;
    no_more = omega (arith, p.no_more, q.no_more);
    there = q.there;
  }

  discard-Kept :
      (sid : ℕ) (best : Bytes) (w : FideBlock) (todo : List Bytes) (s : Sweep)
      → SoundHere s
      → lookup best s.removeable ≡ some (some w)
      → Returns (Kept best w s) (discard hash order sid best todo s)
  unfolding discard
  discard-Kept sid best w [] s p there =
      returns s (record { sound = p; no_more = omega arith; there = there })
  discard-Kept sid best w (k ∷ todo) s p there = elim (Option-cases (lookup k s.removeable)) [
    | inl missing ↦ rw (missing, discard) (discard-Kept sid best w todo s p there)
    | inr (slot, entry) ↦
        let (b, full, found) = p.held k slot entry in
        rw (entry, discard, full)
          (elim (Bool-cases (b.h.shard_idx == sid && not (bytes_eq (hash b) best))) [
            | inl loses ↦
                let q = lost best k w b s p there (ground (arith, loses)) in
                rw loses (
                  Returns-weaken (discard-Kept sid best w todo _ q.sound q.there)
                    λ u r. Kept-trans best w s _ u q r)
            | inr stays ↦ rw stays (discard-Kept sid best w todo s p there)
          ])
  ]

  -- A block in Removeable that is not locked.
  abbrev Free : Sweep → Type 0
  Free s =
      (k : Bytes) × (b : FideBlock) × (lookup k s.removeable ≡ some (some b))
      × (or_zero false (lookup (hash b) s.lock_map) ≡ false)

  unlock_best-Free :
      (s : Sweep)
      → SoundHere s
      → (length s.removeable == 0) ≡ false
      → Returns (λ t. SoundHere t × (work t ≤ work s) × Free t) (unlock_best hash order now ch s)
  unfolding unlock_best
  unlock_best-Free s p filled =
      let (k, slot, entry) = filled-key s.removeable filled in
      let mem = o.visits (keys s.removeable) k (lookup-Mem k s.removeable slot entry) in
      Returns-bind _
        (heaviest-Entry s (order.visit (keys s.removeable)) (0, [], now) p
          (inr (refl, (k, slot, entry, mem))))
        λ best (w, there).
          let (c, full, found) = p.held best (some w) there in
          rw found (
            Returns-bind _
              (discard-Kept c.h.shard_idx best w (order.visit (keys s.removeable)) s p there)
              λ t q.
                let name : hash w ≡ best = grown.named best w (found ∙ sym full) in
                returns _ (
                  record {
                    held = q.sound.held;
                    spent = q.sound.spent;
                    waiting = q.sound.waiting;
                    shards = q.sound.shards;
                    size = q.sound.size;
                  },
                  q.no_more,
                  (
                    best,
                    w,
                    q.there,
                    ground
                        (arith, lookup-delete best (hash w) t.lock_map, name, bytes_eq_refl best),
                  ),
                ))

  -- Enough turns are left: one fewer suffices where a block is free, since then the next turn visits
  -- one.
  abbrev Ready : ℕ → Sweep → Type 0
  Ready fuel s = (2 * work s + 1 < fuel) ⊎ ((2 * work s < fuel) × Free s)

  abbrev again : Sweep → Sweep
  again s = record s { removed = false }

  again-Sound : (s : Sweep) → SoundHere s → SoundHere (again s)
  again-Sound s p = record {
    held = p.held;
    spent = p.spent;
    waiting = p.waiting;
    shards = p.shards;
    size = p.size;
  }

  turn-Ready :
      (fuel : ℕ) (s t : Sweep)
      → Ready (suc fuel) s
      → (length s.removeable == 0) ≡ false
      → Swept hash now n order o ch grown (again s) (order.visit (keys s.removeable)) t
      → Returns
          (λ u. SoundHere u × Ready fuel u)
          (if t.removed then ok t else unlock_best hash order now ch t)
  turn-Ready fuel s t ready filled q =
      Returns-test t.removed
        (λ busy. returns t (
          q.sound,
          elim q.result [
            | inl (same, _) ↦ absurd (ground (arith, busy, ap (λ (v : Sweep). v.removed) same))
            | inr (_, less) ↦ elim ready [
              | inl enough ↦ inl (omega (arith, less))
              | inr (enough, _) ↦ inl (omega (arith, less))
            ]
          ],
        ))
        λ none_taken. elim q.result [
          | inl (same, idle) ↦ elim ready [
            | inl enough ↦ rw same (
                Returns-weaken (unlock_best-Free (again s) (rw same at q.sound) filled)
                  λ u (sound, low, free). (sound, inr (omega arith, free)))
            | inr (_, (k, b, there, unlocked)) ↦
                let mem =
                  o.visits (keys s.removeable) k (lookup-Mem k s.removeable (some b) there) in
                absurd (ground (arith, idle k mem b there, unlocked))
          ]
          | inr (busy, _) ↦ absurd (ground (arith, busy, none_taken))
        ]

  remove_loop-Sound :
      (fuel : ℕ) (s : Sweep)
      → SoundHere s
      → Ready fuel s
      → Returns SoundHere (remove_loop hash order fuel now ch s)
  unfolding remove_loop
  remove_loop-Sound zero s p (inl enough) = absurd (omega arith)
  remove_loop-Sound zero s p (inr (enough, free)) = absurd (omega arith)
  remove_loop-Sound (suc fuel) s p ready = elim (Bool-cases (length s.removeable == 0)) [
    | inl over ↦ rw over (returns s p)
    | inr filled ↦
        let todo = order.visit (keys s.removeable) in
        rw filled (
          Returns-bind _
            (sweep-Swept hash now n order o ch grown (suc (length todo + length s.ref_cnt))
              (again s) todo (omega (arith, positives-le s.ref_cnt)) (again-Sound s p))
            λ t q.
              Returns-bind (remove_loop hash order fuel now ch) (turn-Ready fuel s t ready filled q)
                λ u (sound, more). remove_loop-Sound fuel u sound more)
  ]

  -- The tops that FindBestBranches may give to the shards.
  abbrev pub AreTops : List Bytes → Type 0
  AreTops tops =
      (length tops ≡ n) × ((i : ℕ) (h : Bytes) → get_elem? tops i ≡ some h → IsTop ch i h)

  first_top : (i : ℕ) → i < n → (g : FideBlock) × (get_elem? ch.block_gs i ≡ some g)
  first_top i low = elim (Option-cases (get_elem? ch.block_gs i)) [
    | inl missing ↦ absurd (get_elem?-ne_none ch.block_gs i (omega (arith, grown.shards)) missing)
    | inr found ↦ found
  ]

  tops_cons :
      (i : ℕ) (g : FideBlock) (rest : List Bytes)
      → get_elem? ch.block_gs i ≡ some g
      → ((j : ℕ) (h : Bytes) → get_elem? rest j ≡ some h → IsTop ch (suc i + j) h)
      → (j : ℕ) (h : Bytes) → get_elem? (hash g ∷ rest) j ≡ some h
      → IsTop ch (i + j) h
  tops_cons i g rest found good zero h there =
      let e : i + 0 ≡ i = omega arith in
      let same : h ≡ hash g = ground (arith, there) in
      rw (e, same) (g, grown.begun i g found, inr found)
  tops_cons i g rest found good (suc j) h there =
      let e : suc i + j ≡ i + suc j = omega arith in rw e at (good j h there)

  first_tops-AreTops :
      (i m : ℕ)
      → i + m ≡ n
      → Returns
          (λ tops.
            (length tops ≡ m)
            × ((j : ℕ) (h : Bytes) → get_elem? tops j ≡ some h → IsTop ch (i + j) h))
          (first_tops hash order ch i m)
  unfolding first_tops
  first_tops-AreTops i zero total = returns [] (refl, λ j h there. absurd (ground (arith, there)))
  first_tops-AreTops i (suc m) total =
      let (g, found) = first_top i (omega arith) in
      rw found (
        Returns-bind _ (first_tops-AreTops (suc i) m (omega arith))
          λ rest (size, good). returns (hash g ∷ rest) (ap suc size, tops_cons i g rest found good))

  -- What stands in Removeable at first.
  abbrev Begins : List (Bytes × Option FideBlock) → Type 0
  Begins m =
      (k : Bytes) (slot : Option FideBlock)
      → lookup k m ≡ some slot
      → (i : ℕ) × (g : FideBlock) × (get_elem? ch.block_gs i ≡ some g)
        × (slot ≡ some g)
        × (hash g ≡ k)

  first_removeable-Begins :
      (gs : List FideBlock) (m : List (Bytes × Option FideBlock))
      → ((i : ℕ) (g : FideBlock)
          → get_elem? gs i ≡ some g
          → (j : ℕ) × (get_elem? ch.block_gs j ≡ some g))
      → Begins m
      → Begins (first_removeable hash order gs m)
  unfolding first_removeable
  first_removeable-Begins [] m all begins = begins
  first_removeable-Begins (g ∷ gs) m all begins =
      first_removeable-Begins gs (insert (hash g) (some g) m) (λ i x. all (suc i) x)
        λ k slot there. elim (lookup-insert_cases (hash g) k (some g) m) [
          | inl old ↦ begins k slot (sym old ∙ there)
          | inr (e, new) ↦
              let (j, found) = all 0 g refl in (j, g, found, ground (arith, new, there), e)
        ]

  first_sweep-Sound :
      (conf : Config) (tops : List Bytes)
      → AreTops tops
      → SoundHere (first_sweep hash order conf ch tops)
  unfolding first_sweep lookup
  first_sweep-Sound conf tops good =
      let begins =
        first_removeable-Begins ch.block_gs [] (λ i g found. (i, found))
          (λ k slot there. absurd (ground (arith, there))) in
      record {
        held = λ k slot there.
            let (i, g, found, full, e) = begins k slot there in
            (g, full, rw (← e) (grown.begun i g found));
        spent = λ k slot there.
            let (i, g, found, full, e) = begins k slot there in inr (i, g, found, e);
        waiting = λ k b more later found. found;
        shards = good.1;
        size = good.0;
      }

  -- On a chain as Append leaves it, for every order of the ranges, the first half of
  -- FindBestBranches ends without a panic: it finds a block to visit, or a heaviest block to unlock,
  -- in each turn. It gives a new top to each shard, which is a block of that shard or its first one.
  pub best_tops-AreTops :
      (conf : Config)
      → conf.fide_shard_amount ≡ n
      → Returns AreTops (best_tops hash order now conf ch)
  unfolding best_tops
  best_tops-AreTops conf amount =
      let begins : Returns
          (λ tops.
            (length tops ≡ n)
            × ((j : ℕ) (h : Bytes) → get_elem? tops j ≡ some h → IsTop ch (0 + j) h))
          (first_tops hash order ch 0 conf.fide_shard_amount) =
        rw amount (first_tops-AreTops 0 n (omega arith)) in
      Returns-bind _ begins λ tops (size, good).
        let s = first_sweep hash order conf ch tops in
        let start =
          first_sweep-Sound conf tops
            (size, λ i h there. let e : 0 + i ≡ i = omega arith in rw e at (good i h there)) in
        Returns-bind _
          (remove_loop-Sound (2 * (length s.ref_cnt + length s.removeable) + 2) s start
            (inl (omega (arith, positives-le s.ref_cnt))))
          λ done sound. returns done.tops (sound.size, sound.shards)
