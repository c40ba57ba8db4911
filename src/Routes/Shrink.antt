-- ===== src/Routes/Shrink.antt =====
-- The loop that shortens a route keeps its ends, and leaves hops between shards that stand side by
-- side or have a common parent.
use monosulfide.Prelude.{
  ℕ, zero, suc, ◌+◌, ◌-◌, ◌<◌, ◌≡◌, ◌⊎◌, inl, inr, refl, Bool, true, false, ◌&&◌, List, [], ◌∷◌,
  ◌++◌, some, length, length-append, get_elem?, ok, Returns, returns, Returns-weaken, Bool-cases,
  if◌then◌else◌, ltb, arith, append_assoc, ap, ◌∙◌,
}
use monosulfide.Routes.{shrink, remove, covers}
use monosulfide.Routes.Grid.{Adjacent, holds, IsSquare, covers-ok, Adjacent-lt}
use monosulfide.Routes.Trace.{Leads, IsRoute}

-- Two shards stand side by side, or a third one holds the chains of both.
abbrev pub Hop : List (List Bool) → ℕ → ℕ → Type 0
Hop sd x y = Adjacent sd x y ⊎ ((s : ℕ) × (holds sd s x ≡ true) × (holds sd s y ≡ true))

get_elem?-after : (a b : List ℕ) (m k : ℕ) → m ≡ length a + k → get_elem? (a ++ b) m ≡ get_elem? b k
get_elem?-after [] b m k e = let same : m ≡ k = omega arith in rw same refl
get_elem?-after (y ∷ a) b m k e =
    let next : m ≡ suc (length a + k) = omega arith in
    rw next (get_elem?-after a b (length a + k) k refl)

remove-after : (a b : List ℕ) (m k : ℕ) → m ≡ length a + k → remove m (a ++ b) ≡ a ++ remove k b
remove-after [] b m k e = let same : m ≡ k = omega arith in rw same refl
remove-after (y ∷ a) b m k e =
    let next : m ≡ suc (length a + k) = omega arith in
    let again : suc (length a + k) + 1 ≡ suc (length a + k + 1) = omega arith in
    rw (next, again) (ap (◌∷◌ y) (remove-after a b (length a + k) k refl))

shrink-stop :
    (fuel : ℕ) (sd : List (List Bool)) (idx : ℕ) (path : List ℕ)
    → ltb (idx + 1) (length path) ≡ false
    → shrink (suc fuel) sd idx path ≡ ok path
unfolding shrink
shrink-stop fuel sd idx path stop = rw stop

shrink-turn :
    (fuel : ℕ) (sd : List (List Bool)) (idx sid pre nxt : ℕ) (path : List ℕ) (both : Bool)
    → ltb (idx + 1) (length path) ≡ true
    → get_elem? path idx ≡ some sid
    → get_elem? path (idx - 1) ≡ some pre
    → get_elem? path (idx + 1) ≡ some nxt
    → covers sd sid pre nxt ≡ ok both
    → shrink (suc fuel) sd idx path
      ≡ shrink fuel sd (idx + 1) (if both then remove idx path else path)
unfolding shrink
shrink-turn fuel sd idx sid pre nxt path both more a b c d = rw (more, a, b, c, d)

module _ (n : ℕ) (sd : List (List Bool)) (square : IsSquare n sd) where
  weaken : (x j : ℕ) (path : List ℕ) → Leads (Adjacent sd) x j path → Leads (Hop sd) x j path
  weaken x j [] leads = leads
  weaken x j (y ∷ path) leads = (inl leads.0, weaken y j path leads.1)

  -- The paths that the loop may leave, where what stands before shard `x` is done.
  abbrev Shrunk : List ℕ → ℕ → ℕ → List ℕ → Type 0
  Shrunk before x j path =
      (short : List ℕ) × (path ≡ before ++ x ∷ short) × Leads (Hop sd) x j short

  shrink-turn_at :
      (fuel x y z : ℕ) (before rest : List ℕ)
      → x < n
      → y < n
      → z < n
      → shrink (suc fuel) sd (length before + 1) (before ++ x ∷ y ∷ z ∷ rest)
        ≡ shrink fuel sd (length before + 1 + 1) (
            if holds sd y x && holds sd y z
            then before ++ x ∷ z ∷ rest
            else before ++ x ∷ y ∷ z ∷ rest)
  shrink-turn_at fuel x y z before rest hx hy hz =
      let path = before ++ x ∷ y ∷ z ∷ rest in
      let here = length before + 1 in
      shrink-turn fuel sd here y x z path (holds sd y x && holds sd y z)
        (ground (arith, length-append before (x ∷ y ∷ z ∷ rest)))
        (get_elem?-after before (x ∷ y ∷ z ∷ rest) here 1 refl)
        (get_elem?-after before (x ∷ y ∷ z ∷ rest) (here - 1) 0 (omega arith))
        (get_elem?-after before (x ∷ y ∷ z ∷ rest) (here + 1) 2 (omega arith))
        (covers-ok square y x z hy hx hz)
      ∙ rw (remove-after before (x ∷ y ∷ z ∷ rest) here 1 refl) refl

  shrink-Shrunk :
      (fuel x j : ℕ) (before rest : List ℕ)
      → x < n
      → length rest < fuel
      → Leads (Adjacent sd) x j rest
      → Returns (Shrunk before x j) (shrink fuel sd (length before + 1) (before ++ x ∷ rest))
  shrink-Shrunk zero x j before rest hx low leads = absurd (omega arith)
  shrink-Shrunk (suc fuel) x j before [] hx low leads =
      rw
        (shrink-stop fuel sd (length before + 1) (before ++ x ∷ [])
          (ground (arith, length-append before (x ∷ []))))
        (returns (before ++ x ∷ []) ([], refl, leads))
  shrink-Shrunk (suc fuel) x j before (y ∷ []) hx low leads =
      rw
        (shrink-stop fuel sd (length before + 1) (before ++ x ∷ y ∷ [])
          (ground (arith, length-append before (x ∷ y ∷ []))))
        (returns (before ++ x ∷ y ∷ []) (y ∷ [], refl, (inl leads.0, leads.1)))
  shrink-Shrunk (suc fuel) x j before (y ∷ z ∷ rest) hx low leads =
      let hy = Adjacent-lt square x y hx leads.0 in
      let hz = Adjacent-lt square y z hy leads.1.0 in
      let on : length (before ++ x ∷ []) ≡ length before + 1 = length-append before (x ∷ []) in
      rw (shrink-turn_at fuel x y z before rest hx hy hz)
        (elim (Bool-cases (holds sd y x && holds sd y z)) [
          | inl both ↦ rw both (
              Returns-weaken
                (rw (on, append_assoc) at
                  (shrink-Shrunk fuel z j (before ++ x ∷ []) rest hz (omega arith) leads.1.1))
                λ path (short, e, good). (
                  z ∷ short,
                  e ∙ append_assoc before (x ∷ []) (z ∷ short),
                  (inr (y, ground (arith, both), ground (arith, both)), good),
                ))
          | inr apart ↦ rw apart (
              Returns-weaken
                (rw (on, append_assoc) at
                  (shrink-Shrunk fuel y j (before ++ x ∷ []) (z ∷ rest) hy (omega arith) leads.1))
                λ path (short, e, good).
                  (y ∷ short, e ∙ append_assoc before (x ∷ []) (y ∷ short), (inl leads.0, good)))
        ])

  pub shrink-IsRoute :
      (i j : ℕ) (path : List ℕ)
      → i < n
      → IsRoute (Adjacent sd) i j path
      → Returns (IsRoute (Hop sd) i j) (shrink (suc (length path)) sd 1 path)
  shrink-IsRoute i j [] hi route = absurd route
  shrink-IsRoute i j (x ∷ path) hi route =
      Returns-weaken
        (shrink-Shrunk (suc (length (x ∷ path))) x j [] path (rw route.0 hi) (omega arith) route.1)
        λ short (rest, e, good). rw e (route.0, good)
