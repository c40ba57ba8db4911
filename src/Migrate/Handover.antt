-- ===== src/Migrate/Handover.antt =====
-- The hand-over as a whole: what the old main node sends is what the new one proposes.
use mathlib.Core.List.{
  Perm, Mem, Pairwise, mem-append, mem-cons, perm_middle, not-mem-nil, mem-cons_self,
  mem-cons_of_mem,
}
use mathlib.Core.List.Perm
use mathlib.Core.Logic.Or
use native.Mathlib.Bridge.{le_prop}
use monosulfide.Prelude.{
  ℕ, zero, suc, ◌+◌, ◌^◌, ◌≤◌, ◌<◌, ◌≡◌, refl, ◌∙◌, sym, List, [], ◌∷◌, ◌++◌, append_assoc,
  append-nil, Option, none, some, length, length-append, All, Outcome, ok, panic, ◌>>=◌, Returns,
  returns, Returns-bind, Returns-weaken, arith,
}
use monosulfide.Prelude.Arrays.{length-perm}
use monosulfide.Content.{Bytes}
use monosulfide.Content.Parse.{Encodes, Encodes-new}
use monosulfide.Crypt.{uint_to_bytes}
use monosulfide.Proposals.{Proposal, ProposalBuffer, amount}
use monosulfide.Proposals.Queue.{IsValid, Holds, Popped, push_correct, pop_correct}
use monosulfide.Migrate.{
  append_proposal, generate_loop, generate_msg, parse_msg, push_all, handle_request,
}
use monosulfide.Migrate.Message.{
  fields_of, entry, Fits, Encodes-append_proposal, parse_proposals-fields_of, parse_proposals_short,
  parse_msg_lem,
}

-- Most urgent first.
abbrev pub IsSorted : (Bytes → ℕ) → List Proposal → Type 0
IsSorted priority = Pairwise (λ p q. priority p.req_type ≤ priority q.req_type)

-- What the popping loop has done when it ends: `taken` stands behind the fields `fs`.
record Emptied (b : ProposalBuffer) (fs : List Bytes) (content : Bytes) (r : ProposalBuffer)
    : Type 0 where
  taken : List Proposal
  sent : Encodes content (fs ++ fields_of taken)
  split : Perm (taken ++ r.pros) b.pros
  sorted : IsSorted b.priority taken
  soon : (t : Proposal) → Mem t taken → b.priority t.req_type ≤ b.prior_threshold
  late : (t : Proposal) → Mem t r.pros → b.prior_threshold < b.priority t.req_type

abbrev Emptying : ProposalBuffer → List Bytes → Bytes × ProposalBuffer → Type 0
Emptying b fs out = Emptied b fs out.0 out.1

module _ (b r out : ProposalBuffer) (p : Proposal) (fs : List Bytes) (content : Bytes)
    (popped : Popped b (some p, r)) (e : Emptied r (fs ++ entry p) content out) where
  -- All that was taken, in one list with what is left.
  whole : Perm (p ∷ (e.taken ++ out.pros)) b.pros
  whole =
      let (rest, h, same) = popped.0 in Perm.trans (Perm.cons p (Perm.trans e.split h.same)) same

  least : (t : Proposal) → Mem t e.taken → b.priority p.req_type ≤ b.priority t.req_type
  least t m = popped.1 t ((Perm.mem_iff whole).0 (mem-cons_of_mem p (mem-append.1 (Or.inl m))))

  Emptied-cons : Emptied b fs content out
  Emptied-cons =
      let (rest, h, same) = popped.0 in
      record {
        taken = p ∷ e.taken;
        sent = rw append_assoc at e.sent;
        split = whole;
        sorted = Pairwise.cons least (rw h.priorities at e.sorted);
        soon = λ t m.
            Or.elim le_prop (mem-cons.0 m) (λ eq. rw eq popped.2)
              (λ m'. rw (h.priorities, h.threshold) at (e.soon t m'));
        late = λ t m. rw (h.priorities, h.threshold) at (e.late t m);
      }

fewer : (b r : ProposalBuffer) (p : Proposal) → Popped b (some p, r) → length r.pros < length b.pros
fewer b r p popped =
    let (rest, h, same) = popped.0 in omega (arith, length-perm h.same, length-perm same)

-- One round of the loop, with the rounds behind it as `next`.
loop_step :
    (b : ProposalBuffer) (fs : List Bytes) (content : Bytes)
    (next : ProposalBuffer → Bytes → Outcome (Bytes × ProposalBuffer))
    (popped : Option Proposal × ProposalBuffer)
    → Popped b popped
    → Encodes content fs
    → ((r : ProposalBuffer) (p : Proposal)
        → length r.pros < length b.pros
        → IsValid r
        → Encodes (append_proposal content p) (fs ++ entry p)
        → Returns (Emptying r (fs ++ entry p)) (next r (append_proposal content p)))
    → Returns (Emptying b fs) (elim popped.0 [
      | none ↦ ok (content, popped.1)
      | some p ↦ next popped.1 (append_proposal content p)
    ])
loop_step b fs content next (none, r) (same, late) e ih = returns _ (record {
  taken = [];
  sent = rw (append-nil fs) e;
  split = rw same (Perm.refl b.pros);
  sorted = Pairwise.nil;
  soon = λ t m. absurd (not-mem-nil m);
  late = λ t m. late t (rw same at m);
})
loop_step b fs content next (some p, r) popped e ih =
    let (rest, h, same) = popped.0 in
    Returns-weaken (ih r p (fewer b r p popped) h.valid (Encodes-append_proposal content fs p e))
      λ out emptied. Emptied-cons b r out.1 p fs out.0 popped emptied

generate_loop_empties :
    (fuel : ℕ) (b : ProposalBuffer) (content : Bytes) (fs : List Bytes)
    → length b.pros < fuel
    → IsValid b
    → Encodes content fs
    → Returns (Emptying b fs) (generate_loop fuel b content)
unfolding generate_loop
generate_loop_empties zero b content fs h v e = absurd (omega arith)
generate_loop_empties (suc fuel) b content fs h v e = Returns-bind _ (pop_correct b v) λ out popped.
    loop_step b fs content (generate_loop fuel) out popped e λ r p less valid sent.
      generate_loop_empties fuel r (append_proposal content p) (fs ++ entry p) (omega arith) valid
        sent

generate_msg_empties :
    (b : ProposalBuffer)
    → IsValid b
    → Returns (Emptying b (uint_to_bytes (amount b) ∷ [])) (generate_msg b)
unfolding generate_msg amount
generate_msg_empties b v =
    generate_loop_empties (length b.pros + 1) b _ _ (omega arith) v (Encodes-new _ [])

-- A message that the new main node can read: it holds all the proposals, most urgent first.
pub record Sent (b : ProposalBuffer) (out : Bytes × ProposalBuffer) : Type 0 where
  pub pros : List Proposal
  pub read : parse_msg out.0 ≡ ok pros
  pub all : Perm pros b.pros
  pub sorted : IsSorted b.priority pros
  pub emptied : out.1.pros ≡ []

All-of_mem {ℓ κ} :
    {A : Type ℓ} (P : A → Type κ) (xs : List A) → ((x : A) → Mem x xs → P x) → All P xs
All-of_mem P [] h = tt
All-of_mem P (x ∷ xs) h = (h x mem-cons_self, All-of_mem P xs (λ y m. h y (mem-cons_of_mem x m)))

length_of_mem {ℓ} : {A : Type ℓ} {x : A} (xs : List A) → Mem x xs → 0 < length xs
length_of_mem [] m = absurd (not-mem-nil m)
length_of_mem (y ∷ xs) m = omega arith

-- One of two lists holds the late entry, and it is not the first.
left_of_late :
    (threshold : ℕ) (priority : Bytes → ℕ) (t : Proposal) (taken rest : List Proposal)
    → threshold < priority t.req_type
    → ((p : Proposal) → Mem p taken → priority p.req_type ≤ threshold)
    → Mem t (taken ++ rest)
    → 0 < length rest
left_of_late threshold priority t taken rest late soon m =
    Or.elim le_prop (mem-append.0 m) (λ early. absurd (omega (arith, soon t early)))
      (length_of_mem rest)

nil_of_late :
    (b : ProposalBuffer) (rest taken : List Proposal)
    → Perm (taken ++ rest) b.pros
    → ((t : Proposal) → Mem t rest → b.prior_threshold < b.priority t.req_type)
    → ((t : Proposal) → Mem t b.pros → b.priority t.req_type ≤ b.prior_threshold)
    → rest ≡ []
nil_of_late b [] taken same late soon = refl
nil_of_late b (x ∷ rest) taken same late soon =
    let here : b.priority x.req_type ≤ b.prior_threshold =
      soon x ((Perm.mem_iff same).0 (mem-append.1 (Or.inr mem-cons_self))) in
    absurd (omega (arith, late x mem-cons_self))

-- When no proposal is behind the threshold, the message holds them all, most urgent first, the old
-- main node's buffer is empty, and _parseMsg reads exactly the proposals back.
pub generate_msg_hands_over :
    (b : ProposalBuffer)
    → IsValid b
    → length b.pros < 2 ^ 64
    → ((t : Proposal) → Mem t b.pros → Fits t)
    → ((t : Proposal) → Mem t b.pros → b.priority t.req_type ≤ b.prior_threshold)
    → Returns (Sent b) (generate_msg b)
generate_msg_hands_over b v size fits soon = Returns-weaken (generate_msg_empties b v) λ out e.
    let left : out.1.pros ≡ [] = nil_of_late b out.1.pros e.taken e.split e.late soon in
    let all : Perm e.taken b.pros = rw (left, append-nil e.taken) at e.split in
    let count : amount b ≡ length e.taken = unfold amount in sym (length-perm all) in
    let each : All Fits e.taken =
      All-of_mem Fits e.taken (λ t m. fits t ((Perm.mem_iff all).0 m)) in
    let sent : Encodes out.0 (uint_to_bytes (length e.taken) ∷ fields_of e.taken) =
      rw count at e.sent in
    record {
      pros = e.taken;
      read =
          parse_msg_lem out.0 (length e.taken) (fields_of e.taken) (omega (arith, length-perm all))
            sent
          ∙ parse_proposals-fields_of e.taken each;
      all = all;
      sorted = e.sorted;
      emptied = left;
    }

-- When some proposal is behind the threshold, the amount that heads the message counts it and the
-- message does not hold it, so that _parseMsg at the new main node panics.
pub generate_msg_blocked :
    (b : ProposalBuffer) (t : Proposal)
    → IsValid b
    → length b.pros < 2 ^ 64
    → ((t : Proposal) → Mem t b.pros → Fits t)
    → Mem t b.pros
    → b.prior_threshold < b.priority t.req_type
    → Returns (λ out. parse_msg out.0 ≡ panic) (generate_msg b)
unfolding amount
generate_msg_blocked b t v size fits m late = Returns-weaken (generate_msg_empties b v) λ out e.
    let kept : Mem t (e.taken ++ out.1.pros) = (Perm.mem_iff e.split).1 m in
    let each : All Fits e.taken =
      All-of_mem Fits e.taken
        (λ t m'. fits t ((Perm.mem_iff e.split).0 (mem-append.1 (Or.inl m')))) in
    let some_left : 0 < length out.1.pros =
      left_of_late b.prior_threshold b.priority t e.taken out.1.pros late e.soon kept in
    let count : length e.taken < amount b =
      omega (arith, length-perm e.split, length-append e.taken out.1.pros) in
    parse_msg_lem out.0 (amount b) (fields_of e.taken) size e.sent
    ∙ parse_proposals_short e.taken (amount b) count each

pub push_all_correct :
    (pros : List Proposal) (b : ProposalBuffer)
    → IsValid b
    → Returns (Holds b (pros ++ b.pros)) (push_all pros b)
unfolding push_all
push_all_correct [] b v =
    returns b (record { valid = v; same = Perm.refl b.pros; priorities = refl; threshold = refl })
push_all_correct (p ∷ pros) b v = Returns-bind _ (push_correct b p v) λ r h.
    Returns-weaken (push_all_correct pros r h.valid) λ s k. record {
      valid = k.valid;
      same =
          Perm.trans k.same (Perm.trans (Perm.append_left pros h.same) (perm_middle pros b.pros));
      priorities = k.priorities ∙ h.priorities;
      threshold = k.threshold ∙ h.threshold;
    }

-- The hand-over loses and invents nothing: with no proposal behind the old main node's threshold,
-- the new main node's buffer ends valid, with its own proposals and all of the old one's.
pub migrate_keeps_proposals :
    (old new : ProposalBuffer)
    → IsValid old
    → IsValid new
    → length old.pros < 2 ^ 64
    → ((t : Proposal) → Mem t old.pros → Fits t)
    → ((t : Proposal) → Mem t old.pros → old.priority t.req_type ≤ old.prior_threshold)
    → Returns
        (Holds new (old.pros ++ new.pros))
        (generate_msg old >>= λ (content, _). handle_request content new)
migrate_keeps_proposals old new v w size fits soon =
    unfold handle_request in
    Returns-bind _ (generate_msg_hands_over old v size fits soon) λ out s. rw s.read (
      Returns-weaken (push_all_correct s.pros new w) λ r h. record {
        valid = h.valid;
        same = Perm.trans h.same (Perm.append_right new.pros s.all);
        priorities = h.priorities;
        threshold = h.threshold;
      })
