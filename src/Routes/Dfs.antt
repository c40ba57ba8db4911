-- ===== src/Routes/Dfs.antt =====
-- dfs ends, visits only shards that it reaches, and leaves no shard behind.
use monosulfide.Prelude.{
  ℕ, zero, suc, ◌+◌, ◌≤◌, ◌<◌, ◌≡◌, ◌⊎◌, inl, inr, refl, Bool, true, false, not, ◌&&◌, List, [],
  ◌∷◌, length, set, length-set, Outcome, ok, Returns, returns, Returns-bind, Returns-weaken,
  Bool-cases, if◌then◌else◌, arith, ◌==◌,
}
use monosulfide.Prelude.Arrays.{get_or, get_elem?-get_or, get_or-set}
use monosulfide.Routes.{mark, dfs_loop, dfs}
use monosulfide.Routes.Grid.{Adjacent, adjacent, IsSquare, row-ok, fresh-ok}

-- A walk over shards that stand side by side.
pub data Walk (sd : List (List Bool)) (i : ℕ) : ℕ → Type 0 where
  here : Walk sd i i
  next : {j k : ℕ} → Walk sd i j → Adjacent sd j k → Walk sd i k

pub Walk-trans : {sd : List (List Bool)} {i j k : ℕ} → Walk sd i j → Walk sd j k → Walk sd i k
Walk-trans w here = w
Walk-trans w (next v a) = next (Walk-trans w v) a

abbrev pub Seen : List Bool → ℕ → Type 0
Seen v k = get_or v k false ≡ true

-- How many flags are not set yet.
abbrev pub unseen : List Bool → ℕ
unseen [] = 0
unseen (flag ∷ v) = (if flag then 0 else 1) + unseen v

pub unseen-set :
    (v : List Bool) (k : ℕ)
    → k < length v
    → get_or v k false ≡ false
    → suc (unseen (set v k true)) ≡ unseen v
unseen-set [] k low new = absurd (omega arith)
unseen-set (flag ∷ v) zero low new = ground (arith, new)
unseen-set (flag ∷ v) (suc k) low new = ground (arith, unseen-set v k (omega arith) new)

pub Seen-set : (v : List Bool) (i k : ℕ) → i < length v → Seen (set v i true) k → (k ≡ i) ⊎ Seen v k
Seen-set v i k h s = ground (arith, get_or-set v i k true false, s)

pub set-Seen : (v : List Bool) (i : ℕ) → i < length v → Seen (set v i true) i
set-Seen v i h = ground (arith, get_or-set v i i true false)

pub set-Seen_old : (v : List Bool) (i k : ℕ) → i < length v → Seen v k → Seen (set v i true) k
set-Seen_old v i k h s = ground (arith, get_or-set v i k true false, s)

pub Seen-lt : (v : List Bool) (k : ℕ) → Seen v k → k < length v
Seen-lt [] k s = ground (arith, s)
Seen-lt (b ∷ v) zero s = omega arith
Seen-lt (b ∷ v) (suc k) s = omega (arith, Seen-lt v k s)

module _ (n : ℕ) (sd : List (List Bool)) (square : IsSquare n sd) where
  -- What a search from `root` makes of the flags `v`: those it adds are reached from the root, and
  -- all that stands beside a shard of `mine` or a shard that it adds is seen.
  pub record Visits (root : ℕ) (v w : List Bool) : Type 0 where
    pub size : length w ≡ n
    pub fewer : unseen w ≤ unseen v
    pub kept : (k : ℕ) → Seen v k → Seen w k
    pub sound : (k : ℕ) → Seen w k → Seen v k ⊎ Walk sd root k
    pub closed : (k m : ℕ) → Seen w k → m < n → Adjacent sd k m → Seen v k ⊎ Seen w m

  Visits-refl : (root : ℕ) (v : List Bool) → length v ≡ n → Visits root v v
  Visits-refl root v size = record {
    size = size;
    fewer = omega arith;
    kept = λ k s. s;
    sound = λ k s. inl s;
    closed = λ k m s hm a. inl s;
  }

  Visits-trans :
      (root : ℕ) (u v w : List Bool) → Visits root u v → Visits root v w → Visits root u w
  Visits-trans root u v w p q = record {
    size = q.size;
    fewer = omega (arith, p.fewer, q.fewer);
    kept = λ k s. q.kept k (p.kept k s);
    sound = λ k s. elim (q.sound k s) [ inl old ↦ p.sound k old | inr walk ↦ inr walk ];
    closed = λ k m s hm a. elim (q.closed k m s hm a) [
      | inl old ↦ elim (p.closed k m old hm a) [
        | inl first ↦ inl first
        | inr seen ↦ inr (q.kept m seen)
      ]
      | inr seen ↦ inr seen
    ];
  }

  Visits-from : (root k : ℕ) (v w : List Bool) → Adjacent sd root k → Visits k v w → Visits root v w
  Visits-from root k v w a p = record {
    size = p.size;
    fewer = p.fewer;
    kept = p.kept;
    sound = λ m s. elim (p.sound m s) [
      | inl old ↦ inl old
      | inr walk ↦ inr (Walk-trans (next here a) walk)
    ];
    closed = p.closed;
  }

  -- The search of dfs, which also sees its root.
  pub record Visited (root : ℕ) (v w : List Bool) : Type 0 where
    pub visits : Visits root v w
    pub begun : Seen w root

  abbrev Searches : (ℕ → List Bool → Outcome (List Bool)) → ℕ → Type 0
  Searches visit bound =
      (k : ℕ) (v : List Bool)
      → k < n
      → length v ≡ n
      → get_or v k false ≡ false
      → unseen v ≤ bound
      → Returns (Visited k v) (visit k v)

  -- The loop over the neighbours from `k` on: each of them is seen afterwards.
  pub record Looped (shard k m : ℕ) (v w : List Bool) : Type 0 where
    pub visits : Visits shard v w
    pub beside : (x : ℕ) → k ≤ x → x < k + m → Adjacent sd shard x → Seen w x

  module _ (visit : ℕ → List Bool → Outcome (List Bool)) (bound shard : ℕ)
      (searches : Searches visit bound) (inside : shard < n) where
    turn :
        (k : ℕ) (v : List Bool)
        → k < n
        → length v ≡ n
        → unseen v ≤ bound
        → (new : Bool) → new ≡ (adjacent sd shard k && not (get_or v k false))
        → Returns (Looped shard k 1 v) (if new then visit k v else ok v)
    turn k v hk size small true e =
        let a : Adjacent sd shard k = ground (arith, e) in
        Returns-weaken (searches k v hk size (ground (arith, e)) small) λ w p. record {
          visits = Visits-from shard k v w a p.visits;
          beside = λ x low high adj. let same : x ≡ k = omega arith in rw same p.begun;
        }
    turn k v hk size small false e = returns v (record {
      visits = Visits-refl shard v size;
      beside = λ x low high adj.
          let same : x ≡ k = omega arith in
          elim (Bool-cases (get_or v k false)) [
            | inl seen ↦ rw same seen
            | inr new ↦ absurd (ground (arith, e, new, rw same at adj))
          ];
    })

    dfs_loop-Looped :
        (k m : ℕ) (v : List Bool)
        → k + m ≡ n
        → length v ≡ n
        → unseen v ≤ bound
        → Returns (Looped shard k m v) (dfs_loop visit sd shard k m v)
    unfolding dfs_loop
    dfs_loop-Looped k zero v total size small = returns v (record {
      visits = Visits-refl shard v size;
      beside = λ x low high adj. absurd (omega arith);
    })
    dfs_loop-Looped k (suc m) v total size small =
        rw (fresh-ok square shard k v inside (omega arith) size) (
          Returns-bind (dfs_loop visit sd shard (suc k) m)
            (turn k v (omega arith) size small (adjacent sd shard k && not (get_or v k false)) refl)
            λ u p.
              Returns-weaken
                (dfs_loop-Looped (suc k) m u (omega arith) p.visits.size
                  (omega (arith, p.visits.fewer)))
                λ w q. record {
                  visits = Visits-trans shard v u w p.visits q.visits;
                  beside = λ x low high adj. elim (Bool-cases (x == k)) [
                    | inl same ↦ q.visits.kept x (p.beside x low (ground (arith, same)) adj)
                    | inr other ↦ q.beside x (ground (arith, other)) (omega arith) adj
                  ];
                })

  started :
      (shard : ℕ) (v w : List Bool)
      → shard < n
      → length v ≡ n
      → get_or v shard false ≡ false
      → Looped shard 0 n (set v shard true) w
      → Visited shard v w
  started shard v w hs size new p = record {
    visits = record {
      size = p.visits.size;
      fewer = omega (arith, p.visits.fewer, unseen-set v shard (omega arith) new);
      kept = λ k s. p.visits.kept k (set-Seen_old v shard k (omega arith) s);
      sound = λ k s. elim (p.visits.sound k s) [
        | inl old ↦ elim (Seen-set v shard k (omega arith) old) [
          | inl same ↦ rw same (inr here)
          | inr before ↦ inl before
        ]
        | inr walk ↦ inr walk
      ];
      closed = λ k m s hm a. elim (p.visits.closed k m s hm a) [
        | inl old ↦ elim (Seen-set v shard k (omega arith) old) [
          | inl same ↦ inr (p.beside m (omega arith) (omega arith) (rw same at a))
          | inr before ↦ inl before
        ]
        | inr seen ↦ inr seen
      ];
    };
    begun = p.visits.kept shard (set-Seen v shard (omega arith));
  }

  pub dfs-Visited : (fuel : ℕ) → Searches (dfs fuel sd) fuel
  unfolding dfs mark
  dfs-Visited zero shard v hs size new small =
      absurd (omega (arith, unseen-set v shard (omega arith) new))
  dfs-Visited (suc fuel) shard v hs size new small =
      let fewer = unseen-set v shard (omega arith) new in
      rw
        (
          get_elem?-get_or v shard false (omega arith),
          row-ok square shard hs,
          square.columns shard hs,
        )
        (Returns-weaken
          (dfs_loop-Looped (dfs fuel sd) fuel shard (dfs-Visited fuel) hs 0 n (set v shard true)
            (omega arith) (rw length-set size) (omega arith))
          λ w p. started shard v w hs size new p)
