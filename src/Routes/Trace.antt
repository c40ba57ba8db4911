-- ===== src/Routes/Trace.antt =====
-- The predecessors that findRoute notes lead back to its first shard.
use monosulfide.Prelude.{
  ℕ, zero, suc, ◌+◌, ◌≤◌, ◌<◌, ◌≡◌, inl, inr, refl, Bool, true, false, List, [], ◌∷◌, Option, none,
  some, length, set, Returns, returns, Bool-cases, ◌==◌, arith,
}
use monosulfide.Prelude.Arrays.{get_or, get_elem?-get_or, get_or-set}
use monosulfide.Routes.{Frontier, trace_back}
use monosulfide.Routes.Grid.{Adjacent}
use monosulfide.Routes.Dfs.{Seen, Seen-lt, Seen-set, set-Seen, set-Seen_old, unseen, unseen-set}

-- A list of shards leads from `x` to `j`, by hops of which each satisfies `R`.
abbrev pub Leads : (ℕ → ℕ → Type 0) → ℕ → ℕ → List ℕ → Type 0
Leads R x j [] = x ≡ j
Leads R x j (y ∷ ys) = R x y × Leads R y j ys

abbrev pub IsRoute : (ℕ → ℕ → Type 0) → ℕ → ℕ → List ℕ → Type 0
IsRoute R i j [] = ⊥
IsRoute R i j (x ∷ xs) = (x ≡ i) × Leads R x j xs

module _ (n : ℕ) (sd : List (List Bool)) (i : ℕ) where
  -- From a seen shard the predecessors lead to `i`, over less than so many shards.
  pub data Traced (vis : List Bool) (prev : List (Option ℕ)) : ℕ → ℕ → Type 0 where
    origin : {d : ℕ} → Seen vis i → get_or prev i none ≡ none → Traced vis prev (suc d) i
    via :
        {d j k : ℕ}
        → Traced vis prev d j
        → Seen vis k
        → get_or prev k none ≡ some j
        → Adjacent sd j k
        → Traced vis prev (suc d) k

  pub record IsTraced (s : Frontier) : Type 0 where
    pub vis_size : length s.vis ≡ n
    pub prev_size : length s.prev ≡ n
    pub traces : (k : ℕ) → Seen s.vis k → (d : ℕ) × Traced s.vis s.prev d k × (d + unseen s.vis ≤ n)

  module _ (vis : List Bool) (prev : List (Option ℕ)) (vis_size : length vis ≡ n)
      (prev_size : length prev ≡ n) (j : ℕ) where
    pub trace_back-IsRoute :
        (fuel d k : ℕ) (path : List ℕ)
        → Traced vis prev d k
        → d < fuel
        → Leads (Adjacent sd) k j path
        → Returns (IsRoute (Adjacent sd) i j) (trace_back fuel prev (some k) path)
    unfolding trace_back
    trace_back-IsRoute zero d k path t low leads = absurd (omega arith)
    trace_back-IsRoute (suc zero) zero k path t low leads = elim t [ ]
    trace_back-IsRoute (suc (suc fuel)) zero k path t low leads = elim t [ ]
    trace_back-IsRoute (suc zero) (suc d) k path t low leads = absurd (omega arith)
    trace_back-IsRoute (suc (suc fuel)) (suc d) k path (origin s first) low leads =
        rw (get_elem?-get_or prev k none (omega (arith, Seen-lt vis k s)), first)
          (returns (k ∷ path) (refl, leads))
    trace_back-IsRoute (suc (suc fuel)) (suc d) k path (via {j = p} t s up a) low leads =
        rw (get_elem?-get_or prev k none (omega (arith, Seen-lt vis k s)), up)
          (trace_back-IsRoute (suc fuel) d p (k ∷ path) t (omega arith) (a, leads))

  module _ (vis : List Bool) (prev : List (Option ℕ)) (vis_size : length vis ≡ n)
      (prev_size : length prev ≡ n) (k curr : ℕ) (inside : k < n)
      (new : get_or vis k false ≡ false) where
    other : (x : ℕ) → Seen vis x → get_or (set prev k (some curr)) x none ≡ get_or prev x none
    other x s = elim (Bool-cases (k == x)) [
      | inl same ↦ let e : k ≡ x = ground (arith, same) in absurd (ground (arith, rw e at new, s))
      | inr differs ↦ ground (arith, get_or-set prev k x (some curr) none (omega arith), differs)
    ]

    kept : (d x : ℕ) → Traced vis prev d x → Traced (set vis k true) (set prev k (some curr)) d x
    kept d x (origin s first) = origin (set-Seen_old vis k x (omega arith) s) (rw (other x s) first)
    kept d x (via t s up a) =
        via (kept _ _ t) (set-Seen_old vis k x (omega arith) s) (rw (other x s) up) a

    pub set-traces :
        ((x : ℕ) → Seen vis x → (d : ℕ) × Traced vis prev d x × (d + unseen vis ≤ n))
        → Seen vis curr
        → Adjacent sd curr k
        → (x : ℕ) → Seen (set vis k true) x
        → (d : ℕ) × Traced (set vis k true) (set prev k (some curr)) d x
          × (d + unseen (set vis k true) ≤ n)
    set-traces traces from a x s = elim (Seen-set vis k x (omega arith) s) [
      | inl same ↦
          let (d, t, low) = traces curr from in
          (
            suc d,
            rw same (
                via (kept d curr t) (set-Seen vis k (omega arith))
                  (ground (arith, get_or-set prev k k (some curr) none (omega arith))) a),
            omega (arith, unseen-set vis k (omega arith) new),
          )
      | inr before ↦
          let (d, t, low) = traces x before in
          (d, kept d x t, omega (arith, unseen-set vis k (omega arith) new))
    ]
