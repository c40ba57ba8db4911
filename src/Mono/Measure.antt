-- ===== src/Mono/Measure.antt =====
-- What a visit of a block uses up: the blocks that may still be put in Removeable, and those in it.
use mathlib.Core.List.{Memᴰ}
use mathlib.Core.List.Memᴰ
use monosulfide.Prelude.{
  ℕ, zero, suc, ◌+◌, ◌≤◌, ◌<◌, ◌≡◌, ◌⊎◌, inl, inr, refl, ◌∙◌, ap, sym, true, false, List, [], ◌∷◌,
  some, length, bytes, bytes_eq, bytes_eq_iff, bytes_eq_refl, arith, Bool-cases, Option-cases,
}
use monosulfide.Prelude.Int.{ℤ, pos, negsuc}
use monosulfide.Prelude.Maps.{
  lookup, insert, delete, lookup-insert, length-insert, length-delete-le,
}
use monosulfide.Content.{Bytes}
use monosulfide.Mono.{FideBlock}
use monosulfide.Mono.Branches.{Sweep, Order, or_zero, count_down, is_zero, release, release_all}

-- 1 for a counter that has not yet come down to zero.
abbrev pub above : ℤ → ℕ
above (pos zero) = 0
above (pos (suc n)) = 1
above (negsuc n) = 0

abbrev pub positives : List (Bytes × ℤ) → ℕ
positives [] = 0
positives ((k, z) ∷ m) = above z + positives m

pub positives-le : (m : List (Bytes × ℤ)) → positives m ≤ length m
positives-le [] = omega arith
positives-le ((k, pos zero) ∷ m) = omega (arith, positives-le m)
positives-le ((k, pos (suc n)) ∷ m) = omega (arith, positives-le m)
positives-le ((k, negsuc n) ∷ m) = omega (arith, positives-le m)

positives-insert :
    (k : Bytes) (z : ℤ) (m : List (Bytes × ℤ))
    → positives (insert k z m) + above (or_zero (pos 0) (lookup k m)) ≡ positives m + above z
unfolding insert lookup
positives-insert k z [] = omega arith
positives-insert k z ((j, y) ∷ m) = elim (Bool-cases (bytes_eq j k)) [
  | inl hit ↦ rw hit (omega arith)
  | inr miss ↦ rw miss (omega (arith, positives-insert k z m))
]

-- A key that goes makes the map shorter.
pub length-delete-lt {ℓ} :
    {V : Type ℓ} (k : Bytes) (m : List (Bytes × V)) (v : V)
    → lookup k m ≡ some v
    → length (delete k m) < length m
unfolding delete lookup
length-delete-lt k [] v h = ground (arith, h)
length-delete-lt k ((j, w) ∷ m) v h = elim (Bool-cases (bytes_eq j k)) [
  | inl hit ↦ rw hit (omega (arith, length-delete-le k m))
  | inr miss ↦ rw miss (omega (arith, length-delete-lt k m v (rw miss at h)))
]

-- A counter that comes down from above zero to zero, or to a number above zero or below.
released :
    (z : ℤ)
    → ((is_zero (count_down z) ≡ true) × (above z ≡ 1) × (above (count_down z) ≡ 0))
      ⊎ ((is_zero (count_down z) ≡ false) × (above (count_down z) ≤ above z))
released (pos zero) = inr (refl, omega arith)
released (pos (suc zero)) = inl (refl, refl, refl)
released (pos (suc (suc n))) = inr (refl, omega arith)
released (negsuc n) = inr (refl, omega arith)

abbrev pub work : Sweep → ℕ
work s = positives s.ref_cnt + length s.removeable

pub length-insert_le {ℓ} :
    {V : Type ℓ} (k : Bytes) (v : V) (m : List (Bytes × V)) → length (insert k v m) ≤ suc (length m)
length-insert_le k v m = elim (Option-cases (lookup k m)) [
  | inl missing ↦ ground (arith, length-insert k v m, missing)
  | inr (w, there) ↦ ground (arith, length-insert k v m, there)
]

-- A key that joins a range is one more at most.
pub record IsOrder (order : Order) : Type 0 where
  pub visits : (ks : List Bytes) (k : Bytes) → Memᴰ k ks → Memᴰ k (order.visit ks)
  pub joins : (ks : List Bytes) (k : Bytes) → length (order.weave ks k) ≤ suc (length ks)

abbrev pub count_of : Sweep → Bytes → ℤ
count_of s c = or_zero (pos 0) (lookup c s.ref_cnt)

-- The entry of `k` in Removeable is new: its counter has come down to zero.
pub record Freed (s t : Sweep) (cs : List Bytes) (k : Bytes) : Type 0 where
  pub entry : lookup k t.removeable ≡ some (lookup k s.bs)
  pub before : above (count_of s k) ≡ 1
  pub after : above (count_of t k) ≡ 0
  pub among : Memᴰ k cs

-- What releases of the keys `cs` leave alone, and that they use up what they add.
pub record Released (s : Sweep) (todo : List Bytes) (cs : List Bytes) (t : Sweep)
    (todo' : List Bytes) : Type 0 where
  pub less_work : work t ≤ work s
  pub to_come : positives t.ref_cnt + length todo' ≤ positives s.ref_cnt + length todo
  pub same_bs : t.bs ≡ s.bs
  pub same_tops : t.tops ≡ s.tops
  pub same_removed : t.removed ≡ s.removed
  pub fewer : (k : Bytes) → above (count_of t k) ≤ above (count_of s k)
  pub removeable : (k : Bytes) → (lookup k t.removeable ≡ lookup k s.removeable) ⊎ Freed s t cs k

pub above-le : (z : ℤ) → above z ≤ 1
above-le (pos zero) = omega arith
above-le (pos (suc n)) = omega arith
above-le (negsuc n) = omega arith

-- The two ends of a release.
abbrev counted : Sweep → Bytes → Sweep
counted s c = record s { ref_cnt = insert c (count_down (count_of s c)) s.ref_cnt }

abbrev freed : Sweep → Bytes → Sweep
freed s c = record s {
  ref_cnt = insert c (count_down (count_of s c)) s.ref_cnt;
  removeable = insert c (lookup c s.bs) s.removeable;
}

pub lookup-insert_cases {ℓ} :
    {V : Type ℓ} (c k : Bytes) (v : V) (m : List (Bytes × V))
    → (lookup k (insert c v m) ≡ lookup k m) ⊎ ((c ≡ k) × (lookup k (insert c v m) ≡ some v))
lookup-insert_cases c k v m = elim (Bool-cases (bytes_eq c k)) [
  | inl hit ↦ inr ((bytes_eq_iff c k).0 hit, rw (lookup-insert c k v m, hit) refl)
  | inr miss ↦ inl (rw (lookup-insert c k v m, miss) refl)
]

counted-fewer :
    (s : Sweep) (c : Bytes)
    → above (count_down (count_of s c)) ≤ above (count_of s c)
    → (k : Bytes) → above (count_of (counted s c) k) ≤ above (count_of s k)
counted-fewer s c low k = elim (lookup-insert_cases c k (count_down (count_of s c)) s.ref_cnt) [
  | inl same ↦ rw same (omega arith)
  | inr (e, new) ↦ rw new (rw (← e) low)
]

counted-Released :
    (s : Sweep) (todo : List Bytes) (c : Bytes)
    → above (count_down (count_of s c)) ≤ above (count_of s c)
    → Released s todo (c ∷ []) (counted s c) todo
counted-Released s todo c low =
    let sum = positives-insert c (count_down (count_of s c)) s.ref_cnt in
    record {
      less_work = omega arith;
      to_come = omega arith;
      same_bs = refl;
      same_tops = refl;
      same_removed = refl;
      fewer = counted-fewer s c low;
      removeable = λ k. inl refl;
    }

freed-Released :
    (order : Order) (o : IsOrder order) (s : Sweep) (todo : List Bytes) (c : Bytes)
    → above (count_of s c) ≡ 1
    → above (count_down (count_of s c)) ≡ 0
    → Released s todo (c ∷ []) (freed s c) (order.weave todo c)
freed-Released order o s todo c before after =
    let sum = positives-insert c (count_down (count_of s c)) s.ref_cnt in
    let down = lookup-insert c c (count_down (count_of s c)) s.ref_cnt in
    let same = bytes_eq_refl c in
    record {
      less_work = omega (arith, length-insert_le c (lookup c s.bs) s.removeable);
      to_come = omega (arith, o.joins todo c);
      same_bs = refl;
      same_tops = refl;
      same_removed = refl;
      fewer = counted-fewer s c (omega arith);
      removeable = λ k. elim (lookup-insert_cases c k (lookup c s.bs) s.removeable) [
        | inl old ↦ inl old
        | inr (e, new) ↦ inr (record {
          entry = new ∙ ap (λ (x : Bytes). some (lookup x s.bs)) e;
          before = rw (← e) before;
          after = rw (← e, down, same) after;
          among = Memᴰ.head (sym e);
        })
      ];
    }

Released-trans :
    (s t u : Sweep) (a b c : List Bytes) (x : Bytes) (cs : List Bytes)
    → Released s a (x ∷ []) t b
    → Released t b cs u c
    → Released s a (x ∷ cs) u c
Released-trans s t u a b c x cs p q = record {
  less_work = omega (arith, p.less_work, q.less_work);
  to_come = omega (arith, p.to_come, q.to_come);
  same_bs = q.same_bs ∙ p.same_bs;
  same_tops = q.same_tops ∙ p.same_tops;
  same_removed = q.same_removed ∙ p.same_removed;
  fewer = λ k. omega (arith, p.fewer k, q.fewer k);
  removeable = λ k. elim (q.removeable k) [
    | inl same ↦ elim (p.removeable k) [
      | inl old ↦ inl (same ∙ old)
      | inr new ↦ inr (record {
        entry = same ∙ new.entry;
        before = new.before;
        after = omega (arith, q.fewer k, new.after);
        among = Memᴰ.head (Memᴰ.eq_of_singleton new.among);
      })
    ]
    | inr new ↦ inr (record {
      entry = new.entry ∙ ap (λ (m : List (Bytes × FideBlock)). some (lookup k m)) p.same_bs;
      before = omega (arith, p.fewer k, new.before, above-le (count_of s k));
      after = new.after;
      among = Memᴰ.tail new.among;
    })
  ];
}

module _ (order : Order) (o : IsOrder order) where
  release-Released :
      (s : Sweep) (todo : List Bytes) (c : Bytes)
      → Released s todo (c ∷ []) (release order (s, todo) c).0 (release order (s, todo) c).1
  unfolding release
  release-Released s todo c = elim (released (count_of s c)) [
    | inl (zero_now, before, after) ↦ rw zero_now (freed-Released order o s todo c before after)
    | inr (not_zero, low) ↦ rw not_zero (counted-Released s todo c low)
  ]

  pub release_all-Released :
      (s : Sweep) (todo cs : List Bytes)
      → Released s todo cs (release_all order (s, todo) cs).0 (release_all order (s, todo) cs).1
  unfolding release_all
  release_all-Released s todo [] = record {
    less_work = omega arith;
    to_come = omega arith;
    same_bs = refl;
    same_tops = refl;
    same_removed = refl;
    fewer = λ k. omega arith;
    removeable = λ k. inl refl;
  }
  release_all-Released s todo (c ∷ cs) =
      let next = release order (s, todo) c in
      Released-trans s next.0 (release_all order next cs).0 todo next.1
        (release_all order next cs).1 c cs (release-Released s todo c)
        (release_all-Released next.0 next.1 cs)
