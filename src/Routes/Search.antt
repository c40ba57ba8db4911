-- ===== src/Routes/Search.antt =====
-- The search of findRoute ends, with a route where there is a walk and with nothing where there is
-- none.
use mathlib.Core.Path.{subst}
use mathlib.Core.List.{Memᴰ}
use mathlib.Core.List.Memᴰ
use monosulfide.Prelude.{
  ℕ, zero, suc, ◌+◌, ◌<◌, ◌≡◌, ◌⊎◌, inl, inr, refl, Bool, true, false, List, [], ◌∷◌, Option, none,
  some, length, replicate, length-replicate, set, length-set, ◌>>=◌, Returns, returns, Returns-bind,
  Returns-weaken, Bool-cases, ◌==◌, arith,
}
use monosulfide.Prelude.Arrays.{get_elem?-get_or}
use monosulfide.Routes.{Frontier, search, find_route, trace_back, shrink, mark}
use monosulfide.Routes.Grid.{Adjacent, IsSquare, Adjacent-lt}
use monosulfide.Routes.Dfs.{Walk, here, next, Seen, Seen-lt, Seen-set, set-Seen, unseen, unseen-set}
use monosulfide.Routes.Connected.{get_or-replicate, unseen-replicate}
use monosulfide.Routes.Trace.{IsRoute, IsTraced, origin, trace_back-IsRoute}
use monosulfide.Routes.Scan.{Scanned, scan-Scanned}
use monosulfide.Routes.Shrink.{Hop, shrink-IsRoute}

module _ (n : ℕ) (sd : List (List Bool)) (square : IsSquare n sd) (i j : ℕ) (hi : i < n)
    (hj : j < n) where
  -- What findRoute may return.
  abbrev pub Found : List ℕ → Type 0
  Found path = IsRoute (Hop sd) i j path ⊎ ((path ≡ []) × ¬ Walk sd i j)

  record Searching (s : Frontier) : Type 0 where
    traced : IsTraced n sd i s
    begun : Seen s.vis i
    queued : (k : ℕ) → Memᴰ k s.q → Seen s.vis k
    closed : (k m : ℕ) → Seen s.vis k → m < n → Adjacent sd k m → Memᴰ k s.q ⊎ Seen s.vis m
    ahead : Seen s.vis j → Memᴰ j s.q

  seen_on_way :
      (s : Frontier) (k : ℕ) → Searching s → s.q ≡ [] → Walk sd i k → (k < n) × Seen s.vis k
  seen_on_way s k p empty here = (hi, p.begun)
  seen_on_way s k p empty (next {j = m} walk a) =
      let (hm, seen) = seen_on_way s m p empty walk in
      let hk = Adjacent-lt square m k hm a in
      (
        hk,
        elim (p.closed m k seen hk a) [
          | inl waiting ↦ absurd (Memᴰ.not-nil (subst (Memᴰ m) empty waiting))
          | inr now ↦ now
        ],
      )

  gives_up : (s : Frontier) → Searching s → s.q ≡ [] → Found []
  gives_up s p empty = inr (
    refl,
    λ walk.
        let (_, seen) = seen_on_way s j p empty walk in
        Memᴰ.not-nil (subst (Memᴰ j) empty (p.ahead seen)),
  )

  arrives :
      (s : Frontier)
      → IsTraced n sd i s
      → Seen s.vis j
      → Returns Found
          (trace_back (suc n) s.prev (some j) [] >>= λ path. shrink (suc (length path)) sd 1 path)
  arrives s p seen =
      let (d, t, low) = p.traces j seen in
      Returns-bind (λ path. shrink (suc (length path)) sd 1 path)
        (trace_back-IsRoute n sd i s.vis s.prev p.vis_size p.prev_size j (suc n) d j [] t
          (omega arith) refl)
        λ path route. Returns-weaken (shrink-IsRoute n sd square i j path hi route) λ short q. inl q

  module _ (vis : List Bool) (prev : List (Option ℕ)) (curr : ℕ) (rest : List ℕ) where
    abbrev before : Frontier
    before = record { vis = vis; q = curr ∷ rest; prev = prev }

    abbrev taken : Frontier
    taken = record { vis = vis; q = rest; prev = prev }

    goes_on :
        (hc : curr < n) (t : Frontier)
        → (curr == j) ≡ false
        → Searching before
        → Scanned n sd square i curr hc 0 n taken t
        → Searching t
    goes_on hc t apart p q = record {
      traced = q.traced;
      begun = q.kept i p.begun;
      queued = λ k mem. elim (q.queued k mem) [
        | inl old ↦ q.kept k (p.queued k (Memᴰ.tail old))
        | inr seen ↦ seen
      ];
      closed = λ k m seen hm a. elim (q.new k seen) [
        | inl old ↦ elim (p.closed k m old hm a) [
          | inl mem ↦ elim (Memᴰ.cases_cons mem) [
            | inl same ↦ inr (q.beside m (omega arith) (omega arith) (rw same at a))
            | inr later ↦ inl (q.waiting k later)
          ]
          | inr now ↦ inr (q.kept m now)
        ]
        | inr mem ↦ inl mem
      ];
      ahead = λ seen. elim (q.new j seen) [
        | inl old ↦ elim (Memᴰ.cases_cons (p.ahead old)) [
          | inl same ↦ absurd (ground (arith, same, apart))
          | inr later ↦ q.waiting j later
        ]
        | inr mem ↦ mem
      ];
    }

  search-Found :
      (fuel : ℕ) (vis : List Bool) (prev : List (Option ℕ)) (q : List ℕ)
      → Searching (record { vis = vis; q = q; prev = prev })
      → unseen vis + length q < fuel
      → Returns Found (search fuel sd n j (record { vis = vis; q = q; prev = prev }))
  unfolding search
  search-Found zero vis prev q p low = absurd (omega arith)
  search-Found (suc fuel) vis prev [] p low =
      returns [] (gives_up (record { vis = vis; q = []; prev = prev }) p refl)
  search-Found (suc fuel) vis prev (curr ∷ rest) p low =
      let seen = p.queued curr (Memᴰ.head refl) in
      elim (Bool-cases (curr == j)) [
        | inl same ↦
            let e : curr ≡ j = ground (arith, same) in
            rw same (arrives (before vis prev curr rest) p.traced (rw e at seen))
        | inr apart ↦
            let hc : curr < n = omega (arith, Seen-lt vis curr seen, p.traced.vis_size) in
            rw apart (
              Returns-bind (search fuel sd n j)
                (scan-Scanned n sd square i curr hc 0 n (taken vis prev curr rest) (omega arith)
                  (record {
                    vis_size = p.traced.vis_size;
                    prev_size = p.traced.prev_size;
                    traces = p.traced.traces;
                  })
                  seen)
                λ t q.
                  search-Found fuel t.vis t.prev t.q (goes_on vis prev curr rest hc t apart p q)
                    (omega (arith, q.work)))
      ]

  Seen-origin : (k : ℕ) → Seen (set (replicate n false) i true) k → k ≡ i
  Seen-origin k seen =
      elim (Seen-set (replicate n false) i k (omega (arith, length-replicate n false)) seen) [
        | inl same ↦ same
        | inr old ↦ absurd (ground (arith, get_or-replicate n k false, old))
      ]

  start-Searching :
      Searching
        (record { vis = set (replicate n false) i true; q = i ∷ []; prev = replicate n none })
  start-Searching =
      let size : length (replicate n false) ≡ n = length-replicate n false in
      let new = get_or-replicate n i false in
      record {
        traced = record {
          vis_size = rw length-set size;
          prev_size = length-replicate n none;
          traces = λ k seen. (
            1,
            rw (Seen-origin k seen)
                (origin (set-Seen (replicate n false) i (omega arith)) (get_or-replicate n i none)),
            omega (arith, unseen-set (replicate n false) i (omega arith) new, unseen-replicate n),
          );
        };
        begun = set-Seen (replicate n false) i (omega arith);
        queued =
            λ k mem. rw (Memᴰ.eq_of_singleton mem) (set-Seen (replicate n false) i (omega arith));
        closed = λ k m seen hm a. inl (Memᴰ.head (Seen-origin k seen));
        ahead = λ seen. Memᴰ.head (Seen-origin j seen);
      }

  pub find_route-Found : Returns Found (find_route n sd i j)
  unfolding find_route mark
  find_route-Found =
      let new = get_or-replicate n i false in
      let size = length-replicate n false in
      rw (get_elem?-get_or (replicate n false) i false (omega arith)) (
        search-Found (suc n) (set (replicate n false) i true) (replicate n none) (i ∷ [])
          start-Searching
          (omega (arith, unseen-set (replicate n false) i (omega arith) new, unseen-replicate n)))
