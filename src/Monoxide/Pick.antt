-- ===== src/Monoxide/Pick.antt =====
-- The choice of findTop among the children of a block is one of the heaviest.
use mathlib.Core.List.{Memᴰ}
use mathlib.Core.List.Memᴰ.{head, tail}
use monosulfide.Prelude.{ℕ, ◌≤◌, ◌<◌, ◌≡◌, refl, Bool, List, [], ◌∷◌, inl, inr, arith, ◌⊎◌}
use monosulfide.Content.{Bytes}
use monosulfide.Monoxide.{RelayChain, weight_of, better, pick}

-- A child that no other child outweighs.
abbrev pub Heaviest : RelayChain → List Bytes → Bytes → Type 0
Heaviest ch hs r = Memᴰ r hs × ((h : Bytes) → Memᴰ h hs → weight_of ch h ≤ weight_of ch r)

-- What one turn of the loop keeps of the best child so far.
abbrev Best : RelayChain → ℕ × Bytes → Type 0
Best ch best = weight_of ch best.1 ≡ best.0

better-Best :
    (ch : RelayChain) (curr : List (Bytes × Bool)) (h : Bytes) (best : ℕ × Bytes)
    → Best ch best
    → Best ch (better ch curr h best)
      × (best.0 ≤ (better ch curr h best).0)
      × (weight_of ch h ≤ (better ch curr h best).0)
      × (((better ch curr h best).1 ≡ h) ⊎ ((better ch curr h best).1 ≡ best.1))
unfolding better
better-Best ch curr h (max_w, tar) same = ground (arith, same)

better_first :
    (ch : RelayChain) (curr : List (Bytes × Bool)) (h tar : Bytes)
    → 0 < weight_of ch h
    → better ch curr h (0, tar) ≡ (weight_of ch h, h)
unfolding better
better_first ch curr h tar pos = ground (arith, pos)

module _ (ch : RelayChain) (curr : List (Bytes × Bool)) (all : List Bytes) where
  pick-Best :
      (hs : List Bytes) (best : ℕ × Bytes)
      → ((h : Bytes) → Memᴰ h hs → Memᴰ h all)
      → Memᴰ best.1 all
      → Best ch best
      → Memᴰ (pick ch curr hs best) all
        × (best.0 ≤ weight_of ch (pick ch curr hs best))
        × ((h : Bytes) → Memᴰ h hs → weight_of ch h ≤ weight_of ch (pick ch curr hs best))
  unfolding pick
  pick-Best [] best sub there same = (there, omega (arith, same), λ h m. elim m [ ])
  pick-Best (h ∷ hs) best sub there same =
      let (next_same, grows, above, which) = better-Best ch curr h best same in
      let (inside, least, rest) =
        pick-Best hs (better ch curr h best) (λ k m. sub k (tail m))
          (elim which [ inl new ↦ rw new (sub h (head refl)) | inr old ↦ rw old there ])
          next_same in
      (
        inside,
        omega (arith, least, grows),
        λ k m. elim m [ head e ↦ rw e (omega (arith, above, least)) | tail later ↦ rest k later ],
      )

-- Of the children of a block, all of some weight, findTop goes to one of the heaviest.
pub pick-Heaviest :
    (ch : RelayChain) (curr : List (Bytes × Bool)) (h : Bytes) (hs : List Bytes) (tar : Bytes)
    → 0 < weight_of ch h
    → Heaviest ch (h ∷ hs) (pick ch curr (h ∷ hs) (0, tar))
unfolding pick
pick-Heaviest ch curr h hs tar pos = rw (better_first ch curr h tar pos) (
    let (inside, least, rest) =
      pick-Best ch curr (h ∷ hs) hs (weight_of ch h, h) (λ k m. tail m) (head refl) refl in
    (inside, λ k m. elim m [ head e ↦ rw e least | tail later ↦ rest k later ]))
