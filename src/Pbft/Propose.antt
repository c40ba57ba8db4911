-- ===== src/Pbft/Propose.antt =====
-- Pbft1_Propose.go, with NewPrePrepareMsg of Pbft2_PrePrepare.go.
use monosulfide.Prelude.{Option, true, none, some, if◌then◌else◌, Outcome, ok, ◌>>=◌, nat_eq}
use monosulfide.Prelude.Maps.{insert}
use monosulfide.Proposals.{Proposal, ProposalBuffer, pop}
use monosulfide.Pbft.{Request, sent_pre_prepare, Domain, Con, send, enable}

module _ {W : Type 0} (d : Domain W) (as_request : Proposal → Request) where
  -- `as_request` builds the request of a proposal, with its type, its joined variables and the time.
  unfoldable pub new_pre_prepare_msg : Con W → Request → Con W
  new_pre_prepare_msg con req =
      send (record con { proposal_pool = insert con.sequence (some req) con.proposal_pool })
        (sent_pre_prepare req (d.get_digest req) con.sequence)

  -- Propose with what Pop gave: nothing, or a proposal to prepare and send.
  unfoldable pub propose_popped : Con W → Option Proposal → Outcome (Con W)
  propose_popped con none = enable con
  propose_popped con (some p) = d.prepare (as_request p) con.world >>= λ (ready, w).
      if ready
      then ok (new_pre_prepare_msg (record con { world = w }) (as_request p))
      else enable (record con { world = w })

  -- Propose, once it has the lock; a call waits while `propose_locked` holds.
  unfoldable pub propose : Con W → ProposalBuffer → Outcome (Con W × ProposalBuffer)
  propose con buffer = pop buffer >>= λ (pro, rest).
      propose_popped (record con { propose_locked = true }) pro >>= λ con'. ok (con', rest)
