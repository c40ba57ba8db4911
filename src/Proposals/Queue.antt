-- ===== src/Proposals/Queue.antt =====
-- Push and Pop as operations of a priority queue with a threshold.
use mathlib.Core.List.{Perm, Mem, append-nil, perm_middle, not-mem-nil}
use mathlib.Core.List.Perm
use mathlib.Core.Path.{subst}
use monosulfide.Prelude.{
  ℕ, suc, ◌+◌, ◌-◌, ◌/◌, ◌≤◌, ◌≡◌, refl, sym, ◌∙◌, List, [], ◌∷◌, ◌++◌, Option, none, some, ltb,
  ◌==◌, length, length-append, set, length-set, take, arith, Returns, returns, Returns-bind,
  Returns-test,
}
use monosulfide.Prelude.Arrays.{
  get_or, get_or-append, get_or-set, get_or-take, set-perm, take-last, length-take_of_le, le_of_mem,
}
use monosulfide.Proposals.{
  Proposal, ProposalBuffer, slot_amount, new_proposal_buffer, push, remove_root, pop,
}
use monosulfide.Proposals.Heap.{
  blank, IsHeap, RiseInv, SinkInv, get_lem, rise_orders, root_least_below,
}
use monosulfide.Proposals.Sink.{sink_orders}

nil_of_length {ℓ} : {A : Type ℓ} (xs : List A) → length xs ≡ 0 → xs ≡ []
nil_of_length [] h = refl
nil_of_length (x ∷ xs) h = absurd (omega arith)

abbrev pub IsValid : ProposalBuffer → Type 0
IsValid b = IsHeap b.priority b.pros

-- A valid buffer of the proposals `pros`, under the settings of `b`.
pub record Holds (b : ProposalBuffer) (pros : List Proposal) (r : ProposalBuffer) : Type 0 where
  pub valid : IsValid r
  pub same : Perm r.pros pros
  pub priorities : r.priority ≡ b.priority
  pub threshold : r.prior_threshold ≡ b.prior_threshold

pub new-IsValid : IsValid new_proposal_buffer
unfolding new_proposal_buffer
new-IsValid c l u = absurd (omega arith)

grown-RiseInv :
    (b : ProposalBuffer) (x : Proposal)
    → IsValid b
    → RiseInv b.priority (b.pros ++ x ∷ []) (length b.pros + 1)
grown-RiseInv b x v =
    let size = length-append b.pros (x ∷ []) in
    let at = get_or-append b.pros (x ∷ []) in
    record {
      lower = omega arith;
      upper = omega arith;
      edges = λ c l u n. ground (arith, at (c - 1) blank, at (c / 2 - 1) blank, v c);
      across = λ c l u e t. absurd (omega arith);
    }

-- Push adds exactly the proposal, to a valid buffer of any size, and keeps the heap order and the
-- settings.
pub push_correct :
    (b : ProposalBuffer) (x : Proposal) → IsValid b → Returns (Holds b (x ∷ b.pros)) (push b x)
unfolding push
push_correct b x v =
    let size = length-append b.pros (x ∷ []) in
    let start : RiseInv b.priority (b.pros ++ x ∷ []) (length (b.pros ++ x ∷ []) + 1 - 1) =
      let same : length (b.pros ++ x ∷ []) + 1 - 1 ≡ length b.pros + 1 = omega arith in
      rw same (grown-RiseInv b x v) in
    Returns-bind _ (rise_orders b.priority _ (b.pros ++ x ∷ []) _ (omega arith) start) λ a o.
      returns _ (record {
        valid = o.0;
        same = Perm.trans o.1 (rw (append-nil b.pros) at (perm_middle {a = x} b.pros []));
        priorities = refl;
        threshold = refl;
      })

-- What Pop returns. `none`: no proposal is within the threshold, and the buffer stays as it was.
-- `some p`: a most urgent proposal, within the threshold, and a valid buffer of the others.
abbrev pub Popped : ProposalBuffer → Option Proposal × ProposalBuffer → Type 0
Popped b (none, r) =
    (r ≡ b) × ((t : Proposal) → Mem t b.pros → suc b.prior_threshold ≤ b.priority t.req_type)
Popped b (some p, r) =
    ((rest : List Proposal) × Holds b rest r × Perm (p ∷ rest) b.pros)
    × ((t : Proposal) → Mem t b.pros → b.priority p.req_type ≤ b.priority t.req_type)
    × (b.priority p.req_type ≤ b.prior_threshold)

root_least :
    (b : ProposalBuffer) (t : Proposal)
    → IsValid b
    → Mem t b.pros
    → b.priority (get_or b.pros 0 blank).req_type ≤ b.priority t.req_type
root_least b t v m =
    le_of_mem (λ p. b.priority p.req_type) _ blank b.pros
      (λ i h.
        let i' = i + 1 in ground (arith, root_least_below b.priority (i + 2) b.pros (i + 1) v))
      t m

-- The slice that the loop of Pop starts from.
abbrev cut : ProposalBuffer → ℕ → List Proposal
cut b n = take n (set b.pros 0 (get_or b.pros n blank))

module _ (b : ProposalBuffer) (n : ℕ) (size : length b.pros ≡ suc n) where
  cut-perm : Perm (get_or b.pros 0 blank ∷ cut b n) b.pros
  cut-perm =
      let last = get_or b.pros n blank in
      let whole = set b.pros 0 last in
      let end : get_or whole n blank ≡ last = ground (arith, get_or-set b.pros 0 n last blank) in
      let parts = take-last n whole blank (length-set b.pros 0 last ∙ size) in
      let split : whole ≡ cut b n ++ last ∷ [] = sym (rw end at parts) in
      let moved : Perm whole (last ∷ cut b n) =
        subst (λ z. Perm z (last ∷ cut b n)) (sym split)
          (rw (append-nil (cut b n)) at (perm_middle {a = last} (cut b n) [])) in
      let root = get_or b.pros 0 blank in
      let placed = set-perm b.pros 0 last blank (omega arith) in
      Perm.cons_inv (
        Perm.trans (Perm.swap root last (cut b n))
          (Perm.trans (Perm.cons root (Perm.symm moved)) placed))

  length-cut : length (cut b n) ≡ n
  length-cut = length-take_of_le n _ (rw length-set (omega arith))

  cut-SinkInv : IsValid b → SinkInv b.priority (cut b n) 1
  cut-SinkInv v =
      let last = get_or b.pros n blank in
      let whole = set b.pros 0 last in
      let short = length-cut in
      record {
        lower = omega arith;
        edges = λ c l u n'. ground (
          arith,
          v c,
          get_or-take n whole (c - 1) blank,
          get_or-take n whole (c / 2 - 1) blank,
          get_or-set b.pros 0 (c - 1) last blank,
          get_or-set b.pros 0 (c / 2 - 1) last blank,
        );
        across = λ c l u e t. absurd (omega arith);
      }

  remove_root_correct :
      IsValid b
      → b.priority (get_or b.pros 0 blank).req_type ≤ b.prior_threshold
      → Returns (Popped b) (remove_root b (get_or b.pros 0 blank))
  unfolding remove_root slot_amount
  remove_root_correct v soon =
      let back : length b.pros + 1 - 1 ≡ suc n = omega arith in
      let short : length b.pros - 1 ≡ n = omega arith in
      let last : suc n - 1 ≡ n = omega arith in
      rw (back, short, get_lem b.pros (suc n) (omega arith) (omega arith), last)
        (Returns-bind _
          (sink_orders b.priority (length (cut b n) + 1) (cut b n) 1 (omega arith) (omega arith)
            (cut-SinkInv v))
          λ a o. returns _ (
            (
              cut b n,
              record { valid = o.0; same = o.1; priorities = refl; threshold = refl },
              cut-perm,
            ),
            (λ t m. root_least b t v m),
            soon,
          ))

-- Pop on a valid buffer never panics. It takes out one proposal that is most urgent and not behind the
-- threshold, and leaves a valid buffer of the others with its settings; or it takes nothing and
-- changes nothing, and then every proposal is behind the threshold.
pub pop_correct : (b : ProposalBuffer) → IsValid b → Returns (Popped b) (pop b)
unfolding pop slot_amount
pop_correct b v =
    Returns-test (length b.pros + 1 == 1)
      (λ e.
        returns (none, b)
          (refl, λ t m. absurd (not-mem-nil (rw (nil_of_length b.pros (ground arith)) at m))))
      λ more.
        let first : get_or b.pros (1 - 1) blank ≡ get_or b.pros 0 blank = refl in
        rw (get_lem b.pros 1 (omega arith) (ground arith)) (
          Returns-test (ltb b.prior_threshold (b.priority (get_or b.pros 0 blank).req_type))
            (λ late. returns (none, b) (refl, λ t m. ground (arith, root_least b t v m)))
            (λ soon. remove_root_correct b (length b.pros - 1) (ground arith) v (ground arith)))
