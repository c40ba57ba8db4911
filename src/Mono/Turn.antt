-- ===== src/Mono/Turn.antt =====
-- One range of FindBestBranches over Removeable ends: it visits a block, or all of them are locked.
use mathlib.Core.List.{Memᴰ}
use mathlib.Core.List.Memᴰ
use monosulfide.Prelude.{
  ℕ, zero, suc, ◌+◌, ◌≤◌, ◌<◌, ◌≡◌, ◌⊎◌, inl, inr, refl, ◌∙◌, ap, sym, Bool, true, false, List, [],
  ◌∷◌, Option, none, some, length, length-set, set, ltb, if◌then◌else◌, get_elem?, bytes, bytes_eq,
  nat_eq, arith, Bool-cases, Option-cases, Returns, returns, Returns-bind, Returns-test,
  Returns-weaken, bytes_eq_iff,
}
use monosulfide.Prelude.Arrays.{get_or, get_elem?-get_or}
use monosulfide.Prelude.Maps.{lookup, delete, lookup-delete}
use monosulfide.Content.{Bytes}
use monosulfide.Mono.{FideBlock, MonoChain}
use monosulfide.Mono.Branches.{
  Sweep, Order, or_zero, lock_all, release_all, take_block, visit_key, sweep,
}
use monosulfide.Mono.Measure.{
  positives, work, above, above-le, count_of, IsOrder, Released, release_all-Released,
  length-delete-lt,
}

-- The top of shard `i` is a block of that shard, or its first block.
abbrev pub IsTop : MonoChain → ℕ → Bytes → Type 0
IsTop ch i h =
    (b : FideBlock) × (lookup h ch.blocks ≡ some b)
    × ((b.h.shard_idx ≡ i) ⊎ (get_elem? ch.block_gs i ≡ some b))

pub lookup-delete_le {ℓ} :
    {V : Type ℓ} (j k : Bytes) (m : List (Bytes × V)) (v : V)
    → lookup k (delete j m) ≡ some v
    → lookup k m ≡ some v
lookup-delete_le j k m v h = elim (Bool-cases (bytes_eq j k)) [
  | inl hit ↦ absurd (ground (arith, lookup-delete j k m, hit, h))
  | inr miss ↦ ground (arith, lookup-delete j k m, miss, h)
]

get_elem?-set_cases :
    (xs : List Bytes) (i j : ℕ) (v w : Bytes)
    → get_elem? (set xs i v) j ≡ some w
    → ((i ≡ j) × (w ≡ v)) ⊎ (get_elem? xs j ≡ some w)
get_elem?-set_cases [] i j v w h = inr h
get_elem?-set_cases (x ∷ xs) zero zero v w h = ground (arith, h)
get_elem?-set_cases (x ∷ xs) zero (suc j) v w h = inr h
get_elem?-set_cases (x ∷ xs) (suc i) zero v w h = inr h
get_elem?-set_cases (x ∷ xs) (suc i) (suc j) v w h = elim (get_elem?-set_cases xs i j v w h) [
  | inl (e, f) ↦ inl (ap suc e, f)
  | inr old ↦ inr old
]

-- Some shard begins with a block of this hash.
abbrev pub First : (FideBlock → Bytes) → MonoChain → Bytes → Type 0
First hash ch k = (i : ℕ) × (g : FideBlock) × (get_elem? ch.block_gs i ≡ some g) × (hash g ≡ k)

-- A chain of `n` shards as Append leaves it: the blocks stand under their hashes, which are not
-- empty, and belong to one of the shards; refs names blocks that are not the first of a shard; the
-- times of updataT lie before `now`.
pub record IsGrown (hash : FideBlock → Bytes) (now n : ℕ) (ch : MonoChain) : Type 0 where
  pub named : (k : Bytes) (b : FideBlock) → lookup k ch.blocks ≡ some b → hash b ≡ k
  pub filled : lookup [] ch.blocks ≡ none
  pub placed : (k : Bytes) (b : FideBlock) → lookup k ch.blocks ≡ some b → b.h.shard_idx < n
  pub shards : length ch.block_gs ≡ n
  pub begun :
      (i : ℕ) (g : FideBlock)
      → get_elem? ch.block_gs i ≡ some g
      → lookup (hash g) ch.blocks ≡ some g
  pub referring :
      (k c : Bytes)
      → Memᴰ c (or_zero [] (lookup k ch.refs))
      → ((b : FideBlock) × (lookup c ch.blocks ≡ some b)) × ¬ First hash ch c
  pub past : (k : Bytes) → or_zero 0 (lookup k ch.updata_t) < now

module _ (hash : FideBlock → Bytes) (now n : ℕ) (order : Order) (o : IsOrder order) (ch : MonoChain)
    (grown : IsGrown hash now n ch) where
  -- The maps hold blocks of the chain under their hashes, and the tops are tops of their shards. A
  -- block whose counter is above zero is still in Bs, one in Removeable has none.
  pub record Sound (s : Sweep) : Type 0 where
    pub held :
        (k : Bytes) (slot : Option FideBlock)
        → lookup k s.removeable ≡ some slot
        → (b : FideBlock) × (slot ≡ some b) × (lookup k ch.blocks ≡ some b)
    pub spent :
        (k : Bytes) (slot : Option FideBlock)
        → lookup k s.removeable ≡ some slot
        → (above (count_of s k) ≡ 0) ⊎ First hash ch k
    pub waiting :
        (k : Bytes) (b : FideBlock)
        → above (count_of s k) ≡ 1
        → ¬ First hash ch k
        → lookup k ch.blocks ≡ some b
        → lookup k s.bs ≡ some b
    pub shards : (i : ℕ) (h : Bytes) → get_elem? s.tops i ≡ some h → IsTop ch i h
    pub size : length s.tops ≡ n

  -- A visit of a block.
  record Moved (s : Sweep) (todo : List Bytes) (t : Sweep) (todo' : List Bytes) : Type 0 where
    sound : Sound t
    less_work : work t < work s
    to_come : positives t.ref_cnt + length todo' ≤ positives s.ref_cnt + length todo
    busy : t.removed ≡ true

  -- The variables of a visit, before the references to its block are released.
  abbrev begin : FideBlock → Sweep → List (Bytes × Bool) → Sweep
  begin b s locks = record s { bs = delete (hash b) s.bs; lock_map = locks; removed = true }

  -- And after it.
  abbrev finish : FideBlock → Sweep → Sweep
  finish b t = record t {
    tops = set t.tops b.h.shard_idx (hash b);
    removeable = delete (hash b) t.removeable;
  }

  module _ (k : Bytes) (b : FideBlock) (s : Sweep) (todo : List Bytes) (p : Sound s)
      (there : lookup k s.removeable ≡ some (some b)) (locks : List (Bytes × Bool)) (t : Sweep)
      (todo' : List Bytes)
      (r : Released (begin b s locks) todo (or_zero [] (lookup (hash b) ch.refs)) t todo') where
    in_chain : lookup k ch.blocks ≡ some b
    in_chain =
        let (c, full, found) = p.held k (some b) there in
        let same : c ≡ b = ground (arith, full) in rw (← same) found

    name : hash b ≡ k
    name = grown.named k b in_chain

    -- A block that is still waited for is not the one that is visited.
    apart : (j : Bytes) → above (count_of s j) ≡ 1 → ¬ First hash ch j → bytes_eq (hash b) j ≡ false
    apart j more later = elim (Bool-cases (bytes_eq (hash b) j)) [
      | inl hit ↦
          let e : k ≡ j = sym name ∙ (bytes_eq_iff (hash b) j).0 hit in
          elim (p.spent k (some b) there) [
            | inl none_left ↦ absurd (omega (arith, more, rw e at none_left))
            | inr begins ↦ absurd (later (rw e at begins))
          ]
      | inr miss ↦ miss
    ]

    still_waiting :
        (j : Bytes) (c : FideBlock)
        → above (count_of s j) ≡ 1
        → ¬ First hash ch j
        → lookup j ch.blocks ≡ some c
        → lookup j (delete (hash b) s.bs) ≡ some c
    still_waiting j c more later found =
        lookup-delete (hash b) j s.bs ∙ rw (apart j more later) (p.waiting j c more later found)

    count_le : (j : Bytes) → above (count_of t j) ≡ 1 → above (count_of s j) ≡ 1
    count_le j more = omega (arith, r.fewer j, above-le (count_of s j))

    finish-Sound : Sound (finish b t)
    finish-Sound = record {
      held = λ j slot h.
          let here = lookup-delete_le (hash b) j t.removeable slot h in
          elim (r.removeable j) [
            | inl same ↦ p.held j slot (sym same ∙ here)
            | inr new ↦
                let ((c, found), later) = grown.referring (hash b) j new.among in
                let stays = still_waiting j c new.before later found in
                (c, ground (arith, here, new.entry, stays), found)
          ];
      spent = λ j slot h.
          let here = lookup-delete_le (hash b) j t.removeable slot h in
          elim (r.removeable j) [
            | inl same ↦ elim (p.spent j slot (sym same ∙ here)) [
              | inl none_left ↦ inl (omega (arith, r.fewer j, none_left))
              | inr begins ↦ inr begins
            ]
            | inr new ↦ inl new.after
          ];
      waiting =
          λ j c more later found. rw r.same_bs (still_waiting j c (count_le j more) later found);
      shards = λ i w h. elim (get_elem?-set_cases t.tops b.h.shard_idx i (hash b) w h) [
        | inl (e, f) ↦ (b, rw (f, name) in_chain, inl e)
        | inr old ↦ p.shards i w (rw (← r.same_tops) old)
      ];
      size = length-set t.tops b.h.shard_idx (hash b) ∙ ap length r.same_tops ∙ p.size;
    }

    still : (slot : Option FideBlock) × (lookup (hash b) t.removeable ≡ some slot)
    still = elim (r.removeable (hash b)) [
      | inl same ↦ (some b, same ∙ rw name there)
      | inr new ↦ (lookup (hash b) (delete (hash b) s.bs), new.entry)
    ]

    finish-Moved : Moved s todo (finish b t) todo'
    finish-Moved = record {
      sound = finish-Sound;
      less_work =
          omega (arith, r.less_work, length-delete-lt (hash b) t.removeable still.0 still.1);
      to_come = r.to_come;
      busy = r.same_removed;
    }

    in_range : (old : Bytes) × (get_elem? t.tops b.h.shard_idx ≡ some old)
    in_range =
        let low = grown.placed k b in_chain in
        (
          get_or t.tops b.h.shard_idx [],
          get_elem?-get_or t.tops b.h.shard_idx []
              (omega (arith, p.size, ap (length {A = Bytes}) r.same_tops)),
        )

  take_block-Moved :
      (k : Bytes) (b : FideBlock) (s : Sweep) (todo : List Bytes)
      → Sound s
      → lookup k s.removeable ≡ some (some b)
      → Returns (λ (t, todo'). Moved s todo t todo') (take_block hash order ch b s todo)
  unfolding take_block
  take_block-Moved k b s todo p there =
      let decs = or_zero [] (lookup (hash b) ch.path) in
      let locks = if ltb 1 (length decs) then lock_all decs s.lock_map else s.lock_map in
      let cs = or_zero [] (lookup (hash b) ch.refs) in
      let next = release_all order (begin b s locks, todo) cs in
      let r = release_all-Released order o (begin b s locks) todo cs in
      rw ((in_range k b s todo p there locks next.0 next.1 r).1)
        (returns _ (finish-Moved k b s todo p there locks next.0 next.1 r))

  -- The key `k` has no block to visit.
  abbrev pub Idle : Sweep → Bytes → Type 0
  Idle s k =
      (b : FideBlock)
      → lookup k s.removeable ≡ some (some b)
      → or_zero false (lookup (hash b) s.lock_map) ≡ true

  abbrev Visited : Sweep → List Bytes → Bytes → Sweep × List Bytes → Type 0
  Visited s todo k (t, todo') = ((t ≡ s) × (todo' ≡ todo) × Idle s k) ⊎ Moved s todo t todo'

  visit_key-Visited :
      (k : Bytes) (s : Sweep) (todo : List Bytes)
      → Sound s
      → Returns (Visited s todo k) (visit_key hash order ch k s todo)
  unfolding visit_key
  visit_key-Visited k s todo p = elim (Option-cases (lookup k s.removeable)) [
    | inl missing ↦
        rw (missing, visit_key)
          (returns (s, todo) (inl (refl, refl, λ b h. absurd (ground (arith, missing, h)))))
    | inr (slot, there) ↦
        let (b, full, found) = p.held k slot there in
        rw (there, visit_key, full)
          (Returns-test (or_zero false (lookup (hash b) s.lock_map))
            (λ locked.
              returns (s, todo)
                (inl (
                  refl,
                  refl,
                  λ c h. let same : c ≡ b = ground (arith, there, full, h) in rw same locked,
                )))
            λ free.
              Returns-weaken (take_block-Moved k b s todo p (rw (← full) there))
                λ t moved. inr moved)
  ]

  -- The end of a range over the keys `todo`.
  pub record Swept (s : Sweep) (todo : List Bytes) (t : Sweep) : Type 0 where
    pub sound : Sound t
    pub result :
        ((t ≡ s) × ((k : Bytes) → Memᴰ k todo → Idle s k))
        ⊎ ((t.removed ≡ true) × (work t < work s))

  Swept-after :
      (s : Sweep) (todo todo' : List Bytes) (t u : Sweep)
      → t.removed ≡ true
      → work t < work s
      → Swept t todo' u
      → Swept s todo u
  Swept-after s todo todo' t u busy less q = record {
    sound = q.sound;
    result = elim q.result [
      | inl (e, all) ↦ inr (ap (λ (v : Sweep). v.removed) e ∙ busy, rw e less)
      | inr (still_busy, more) ↦ inr (still_busy, omega (arith, less, more))
    ];
  }

  Swept-cons :
      (s : Sweep) (k : Bytes) (rest : List Bytes) (u : Sweep)
      → Idle s k
      → Swept s rest u
      → Swept s (k ∷ rest) u
  Swept-cons s k rest u idle q = record {
    sound = q.sound;
    result = elim q.result [
      | inl (e, all) ↦ inl (
        e,
        λ j mem. elim (Memᴰ.cases_cons mem) [ inl first ↦ rw first idle | inr later ↦ all j later ],
      )
      | inr busy ↦ inr busy
    ];
  }

  pub sweep-Swept :
      (fuel : ℕ) (s : Sweep) (todo : List Bytes)
      → positives s.ref_cnt + length todo < fuel
      → Sound s
      → Returns (Swept s todo) (sweep hash order fuel ch s todo)
  unfolding sweep
  sweep-Swept zero s todo low p = absurd (omega arith)
  sweep-Swept (suc fuel) s [] low p =
      returns s (record { sound = p; result = inl (refl, λ k mem. absurd (Memᴰ.not-nil mem)) })
  sweep-Swept (suc fuel) s (k ∷ rest) low p =
      Returns-bind (λ (next, todo'). sweep hash order fuel ch next todo')
        (visit_key-Visited k s rest p)
        λ (t, todo') moved. elim moved [
          | inl (same, rest_same, idle) ↦
              rw (same, rest_same)
                (Returns-weaken (sweep-Swept fuel s rest (omega arith) p)
                  λ u q. Swept-cons s k rest u idle q)
          | inr m ↦
              Returns-weaken (sweep-Swept fuel t todo' (omega (arith, m.to_come)) m.sound)
                λ u q. Swept-after s (k ∷ rest) todo' t u m.busy m.less_work q
        ]
