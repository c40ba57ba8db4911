-- ===== src/Proposals/Tests.antt =====
-- A buffer of two proposals.
use monosulfide.Prelude.{[], ◌∷◌, Returns, arith}
use monosulfide.Proposals.{Proposal, ProposalBuffer, push, pop}
use monosulfide.Proposals.Queue.{IsValid, Holds, Popped, push_correct, pop_correct}

abbrev sync_proposal : Proposal
sync_proposal = record { req_type = 83 ∷ []; vars = [] }

abbrev reset_proposal : Proposal
reset_proposal = record { req_type = 69 ∷ []; vars = (1 ∷ []) ∷ [] }

abbrev two_proposals : ProposalBuffer
two_proposals = record {
  pros = sync_proposal ∷ reset_proposal ∷ [];
  priority = λ t. 128;
  prior_threshold = 1024;
}

two_proposals-IsValid : IsValid two_proposals
two_proposals-IsValid c l u = omega arith

push_correct_example :
    Returns
      (Holds two_proposals (reset_proposal ∷ sync_proposal ∷ reset_proposal ∷ []))
      (push two_proposals reset_proposal)
push_correct_example = push_correct two_proposals reset_proposal two_proposals-IsValid

pop_correct_example : Returns (Popped two_proposals) (pop two_proposals)
pop_correct_example = pop_correct two_proposals two_proposals-IsValid
