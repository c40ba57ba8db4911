-- ===== src/Migrate/Tests.antt =====
-- A hand-over of two proposals.
use mathlib.Core.List.{Mem, mem-cons, mem-cons_self, not-mem-nil}
use mathlib.Core.Logic.Or
use native.Mathlib.Bridge.{le_prop}
use monosulfide.Prelude.{[], ◌∷◌, ◌++◌, ◌≡◌, panic, ◌>>=◌, Returns, arith}
use monosulfide.Proposals.{Proposal, ProposalBuffer}
use monosulfide.Proposals.Queue.{IsValid, Holds}
use monosulfide.Migrate.{generate_msg, parse_msg, handle_request}
use monosulfide.Migrate.Message.{Fits}
use monosulfide.Migrate.Handover.{
  Sent, generate_msg_hands_over, generate_msg_blocked, migrate_keeps_proposals,
}

abbrev tx_proposal : Proposal
tx_proposal = record { req_type = 84 ∷ []; vars = (1 ∷ 9 ∷ []) ∷ [] }

abbrev waiting_buffer : ProposalBuffer
waiting_buffer = record {
  pros = tx_proposal ∷ tx_proposal ∷ [];
  priority = λ t. 128;
  prior_threshold = 1024;
}

-- The same with a threshold that blocks its proposals.
abbrev blocked_buffer : ProposalBuffer
blocked_buffer = record waiting_buffer { prior_threshold = 31 }

waiting-IsValid : IsValid waiting_buffer
waiting-IsValid c l u = omega arith

blocked-IsValid : IsValid blocked_buffer
blocked-IsValid c l u = omega arith

waiting-Fits : (t : Proposal) → Mem t (tx_proposal ∷ tx_proposal ∷ []) → Fits t
waiting-Fits t m =
    Or.elim le_prop (mem-cons.0 m) (λ e. rw e (omega arith))
      λ m'.
        Or.elim le_prop (mem-cons.0 m') (λ e. rw e (omega arith))
          (λ none_left. absurd (not-mem-nil none_left))

generate_msg_hands_over_example : Returns (Sent waiting_buffer) (generate_msg waiting_buffer)
generate_msg_hands_over_example =
    generate_msg_hands_over waiting_buffer waiting-IsValid (omega arith) waiting-Fits
      (λ t m. omega arith)

generate_msg_blocked_example :
    Returns (λ out. parse_msg out.0 ≡ panic) (generate_msg blocked_buffer)
generate_msg_blocked_example =
    generate_msg_blocked blocked_buffer tx_proposal blocked-IsValid (omega arith) waiting-Fits
      mem-cons_self (omega arith)

migrate_keeps_proposals_example :
    Returns
      (Holds blocked_buffer (waiting_buffer.pros ++ blocked_buffer.pros))
      (generate_msg waiting_buffer >>= λ (content, _). handle_request content blocked_buffer)
migrate_keeps_proposals_example =
    migrate_keeps_proposals waiting_buffer blocked_buffer waiting-IsValid blocked-IsValid
      (omega arith) waiting-Fits (λ t m. omega arith)
