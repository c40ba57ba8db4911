-- ===== src/Routes/Scan.antt =====
-- One turn of the search of findRoute, over the neighbours of a shard.
use mathlib.Core.List.{Memᴰ}
use mathlib.Core.List.Memᴰ
use monosulfide.Prelude.{
  ℕ, zero, suc, ◌+◌, ◌≤◌, ◌<◌, ◌≡◌, ◌⊎◌, inl, inr, refl, Bool, true, false, not, ◌&&◌, List, [],
  ◌∷◌, ◌++◌, some, length, length-append, set, length-set, Returns, returns, Returns-weaken,
  Bool-cases, ◌==◌, arith,
}
use monosulfide.Prelude.Arrays.{get_or}
use monosulfide.Routes.{Frontier, scan}
use monosulfide.Routes.Grid.{Adjacent, adjacent, IsSquare, fresh-ok}
use monosulfide.Routes.Dfs.{Seen, Seen-set, set-Seen, set-Seen_old, unseen, unseen-set}
use monosulfide.Routes.Trace.{IsTraced, set-traces}

module _ (n : ℕ) (sd : List (List Bool)) (square : IsSquare n sd) (i curr : ℕ)
    (inside : curr < n) where
  -- The neighbours of `curr` from `k` on are seen; what is new is queued.
  pub record Scanned (k m : ℕ) (s t : Frontier) : Type 0 where
    pub traced : IsTraced n sd i t
    pub work : unseen t.vis + length t.q ≡ unseen s.vis + length s.q
    pub kept : (x : ℕ) → Seen s.vis x → Seen t.vis x
    pub waiting : (x : ℕ) → Memᴰ x s.q → Memᴰ x t.q
    pub queued : (x : ℕ) → Memᴰ x t.q → Memᴰ x s.q ⊎ Seen t.vis x
    pub new : (x : ℕ) → Seen t.vis x → Seen s.vis x ⊎ Memᴰ x t.q
    pub beside : (x : ℕ) → k ≤ x → x < k + m → Adjacent sd curr x → Seen t.vis x

  Scanned-refl : (k : ℕ) (s : Frontier) → IsTraced n sd i s → Scanned k 0 s s
  Scanned-refl k s traced = record {
    traced = traced;
    work = refl;
    kept = λ x p. p;
    waiting = λ x p. p;
    queued = λ x p. inl p;
    new = λ x p. inl p;
    beside = λ x low high a. absurd (omega arith);
  }

  Scanned-trans :
      (k m : ℕ) (s t u : Frontier) → Scanned k 1 s t → Scanned (suc k) m t u → Scanned k (suc m) s u
  Scanned-trans k m s t u p q = record {
    traced = q.traced;
    work = omega (arith, p.work, q.work);
    kept = λ x e. q.kept x (p.kept x e);
    waiting = λ x e. q.waiting x (p.waiting x e);
    queued = λ x e. elim (q.queued x e) [
      | inl first ↦ elim (p.queued x first) [ inl old ↦ inl old | inr seen ↦ inr (q.kept x seen) ]
      | inr seen ↦ inr seen
    ];
    new = λ x e. elim (q.new x e) [
      | inl first ↦ elim (p.new x first) [ inl old ↦ inl old | inr mem ↦ inr (q.waiting x mem) ]
      | inr mem ↦ inr mem
    ];
    beside = λ x low high a. elim (Bool-cases (x == k)) [
      | inl same ↦ q.kept x (p.beside x low (ground (arith, same)) a)
      | inr other ↦ q.beside x (ground (arith, other)) (omega arith) a
    ];
  }

  abbrev push_neighbour : ℕ → Frontier → Frontier
  push_neighbour k s = record {
    vis = set s.vis k true;
    q = s.q ++ k ∷ [];
    prev = set s.prev k (some curr);
  }

  pushed :
      (k : ℕ) (s : Frontier)
      → IsTraced n sd i s
      → Seen s.vis curr
      → k < n
      → Adjacent sd curr k
      → get_or s.vis k false ≡ false
      → Scanned k 1 s (push_neighbour k s)
  pushed k s p from hk a new = record {
    traced = record {
      vis_size = rw length-set p.vis_size;
      prev_size = rw length-set p.prev_size;
      traces = set-traces n sd i s.vis s.prev p.vis_size p.prev_size k curr hk new p.traces from a;
    };
    work =
        omega
          (arith, unseen-set s.vis k (omega (arith, p.vis_size)) new, length-append s.q (k ∷ []));
    kept = λ x e. set-Seen_old s.vis k x (omega (arith, p.vis_size)) e;
    waiting = λ x e. Memᴰ.append_left _ e;
    queued = λ x e. elim (Memᴰ.append_cases s.q e) [
      | inl old ↦ inl old
      | inr last ↦
          rw (Memᴰ.eq_of_singleton last) (inr (set-Seen s.vis k (omega (arith, p.vis_size))))
    ];
    new = λ x e. elim (Seen-set s.vis k x (omega (arith, p.vis_size)) e) [
      | inl same ↦ inr (Memᴰ.append_right s.q (Memᴰ.head same))
      | inr old ↦ inl old
    ];
    beside = λ x low high adj.
        let same : x ≡ k = omega arith in rw same (set-Seen s.vis k (omega (arith, p.vis_size)));
  }

  passed :
      (k : ℕ) (s : Frontier)
      → IsTraced n sd i s
      → (adjacent sd curr k && not (get_or s.vis k false)) ≡ false
      → Scanned k 1 s s
  passed k s p old = record {
    traced = p;
    work = refl;
    kept = λ x e. e;
    waiting = λ x e. e;
    queued = λ x e. inl e;
    new = λ x e. inl e;
    beside = λ x low high adj.
        let same : x ≡ k = omega arith in
        elim (Bool-cases (get_or s.vis k false)) [
          | inl seen ↦ rw same seen
          | inr fresh ↦ absurd (ground (arith, old, fresh, rw same at adj))
        ];
  }

  pub scan-Scanned :
      (k m : ℕ) (s : Frontier)
      → k + m ≡ n
      → IsTraced n sd i s
      → Seen s.vis curr
      → Returns (Scanned k m s) (scan sd curr k m s)
  unfolding scan
  scan-Scanned k zero s total p from = returns s (Scanned-refl k s p)
  scan-Scanned k (suc m) s total p from =
      rw (fresh-ok square curr k s.vis inside (omega arith) p.vis_size)
        elim (Bool-cases (adjacent sd curr k && not (get_or s.vis k false))) [
          | inl new ↦
              let t = push_neighbour k s in
              let step =
                pushed k s p from (omega arith) (ground (arith, new)) (ground (arith, new)) in
              rw new (
                Returns-weaken
                  (scan-Scanned (suc k) m t (omega arith) step.traced (step.kept curr from))
                  λ u q. Scanned-trans k m s t u step q)
          | inr old ↦ rw old (
              Returns-weaken (scan-Scanned (suc k) m s (omega arith) p from)
                λ u q. Scanned-trans k m s s u (passed k s p old) q)
        ]
