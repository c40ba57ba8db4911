-- ===== src/Proposals.antt =====
-- Proposals/ProposalBuffer.go and Proposals/Proposal.go: the proposals that wait for consensus, in a
-- binary heap by priority (a smaller number is more urgent) behind a threshold.
-- Slot 0 of the slice `pros` always holds nil, so the list `pros` starts at slot 1 and an access to
-- slot 0 panics, as the dereference of nil does. The map `priority` is a function, 0 where a key is
-- missing. Priorities and thresholds are the non-negative constants of the file.
pub mod Heap
pub mod Sink
pub mod Queue
mod Tests
use monosulfide.Prelude.{
  ℕ, zero, suc, ◌+◌, ◌-◌, ◌*◌, ◌/◌, Bool, List, [], ◌∷◌, ◌++◌, Option, none, some, ltb, leb, ◌==◌,
  if◌then◌else◌, length, get_elem?, set, take, bytes_eq, Outcome, ok, panic, out_of_fuel, ◌>>=◌,
  deref,
}
use monosulfide.Content.{Bytes}

pub record Proposal : Type 0 where
  pub req_type : Bytes
  pub vars : List Bytes

pub record ProposalBuffer : Type 0 where
  pub pros : List Proposal
  pub priority : Bytes → ℕ
  pub prior_threshold : ℕ

abbrev pub lowest_priority : ℕ
lowest_priority = 1024

abbrev pub normal_priority : ℕ
normal_priority = 128

abbrev pub now : ℕ
now = 64

abbrev pub cross_priority : ℕ
cross_priority = 32

unfoldable pub new_proposal_buffer : ProposalBuffer
new_proposal_buffer = record { pros = []; priority = λ k. 0; prior_threshold = lowest_priority }

unfoldable pub set_priority : ProposalBuffer → Bytes → ℕ → ProposalBuffer
set_priority b req_type pri = record b {
  priority = λ k. if bytes_eq req_type k then pri else b.priority k;
}

unfoldable pub set_threshold : ProposalBuffer → ℕ → ProposalBuffer
set_threshold b threshold = record b { prior_threshold = threshold }

unfoldable pub amount : ProposalBuffer → ℕ
amount b = length b.pros

-- `get` followed by the use of what it returns.
pub get : List Proposal → ℕ → Outcome Proposal
get pros zero = panic
get pros (suc i) = deref (get_elem? pros i)

-- `len`: slot 0 is counted.
pub slot_amount : List Proposal → ℕ
slot_amount pros = length pros + 1

module _ (priority : Bytes → ℕ) where
  pub less : List Proposal → ℕ → ℕ → Outcome Bool
  less pros i j =
      get pros i >>= λ x. get pros j >>= λ y. ok (ltb (priority x.req_type) (priority y.req_type))

pub swap : List Proposal → ℕ → ℕ → Outcome (List Proposal)
swap pros i j = get pros j >>= λ y. get pros i >>= λ x. ok (set (set pros (i - 1) y) (j - 1) x)

-- The loop of Push.
pub rise : ℕ → (Bytes → ℕ) → List Proposal → ℕ → Outcome (List Proposal)
rise zero priority pros curr = out_of_fuel
rise (suc fuel) priority pros curr =
    let father = curr / 2 in
    let moved = swap pros curr father >>= λ risen. rise fuel priority risen father in
    let step = less priority pros curr father >>= λ below. if below then moved else ok pros in
    if curr == 1 then ok pros else step

unfoldable pub push : ProposalBuffer → Proposal → Outcome ProposalBuffer
unfolding slot_amount
push b x =
    let grown = b.pros ++ x ∷ [] in
    rise (slot_amount grown) b.priority grown (slot_amount grown - 1) >>= λ risen.
    ok (record b { pros = risen })

-- The child that the loop of Pop compares with, `none` where it leaves the loop.
pub child : (Bytes → ℕ) → List Proposal → ℕ → Outcome (Option ℕ)
child priority pros index =
    let l = index * 2 in
    let r = index * 2 + 1 in
    if leb (slot_amount pros) r
    then (if leb (slot_amount pros) l then ok none else ok (some l))
    else less priority pros r l >>= λ below. ok (some (if below then r else l))

-- The loop of Pop.
pub sink : ℕ → (Bytes → ℕ) → List Proposal → ℕ → Outcome (List Proposal)
sink zero priority pros index = out_of_fuel
sink (suc fuel) priority pros index = child priority pros index >>= λ temp. elim temp [
  | none ↦ ok pros
  | some t ↦
      let moved = swap pros t index >>= λ sunk. sink fuel priority sunk t in
      less priority pros t index >>= λ below. if below then moved else ok pros
]

-- The part of Pop behind its two guards: the last slot takes the root's place and sinks.
pub remove_root : ProposalBuffer → Proposal → Outcome (Option Proposal × ProposalBuffer)
remove_root b ret = get b.pros (slot_amount b.pros - 1) >>= λ root.
    let cut = take (length b.pros - 1) (set b.pros 0 root) in
    sink (slot_amount cut) b.priority cut 1 >>= λ sunk. ok (some ret, record b { pros = sunk })

unfoldable pub pop : ProposalBuffer → Outcome (Option Proposal × ProposalBuffer)
unfolding remove_root
pop b =
    if slot_amount b.pros == 1
    then ok (none, b)
    else get b.pros 1 >>= λ ret.
        if ltb b.prior_threshold (b.priority ret.req_type) then ok (none, b) else remove_root b ret
