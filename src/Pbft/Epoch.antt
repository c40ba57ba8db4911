-- ===== src/Pbft/Epoch.antt =====
-- A waiting node that refuses the proposal of an epoch reset, in HandlePrePrepare.
use monosulfide.Prelude.{
  ◌≡◌, refl, true, false, bytes_eq, Ensures, ensured, panics, Ensures-bind, Ensures-test,
}
use monosulfide.IdChain.{is_waiting}
use monosulfide.Pbft.{PrePrepare, Domain, Votes, Con}
use monosulfide.Pbft.Execution.{record_pre_prepare-value}
use monosulfide.Pbft.Handlers.{
  Next, verify, join_epoch, leave_epoch, check_proposal, handle_pre_prepare,
}

module _ {W : Type 0} (d : Domain W) (visit : Votes → Votes)
    (activated : (w : W) → is_waiting (d.running_node (d.activate_self true w)) ≡ false) where
  -- The state of a node that has joined the epoch of the message.
  abbrev pub Joined : Con W → PrePrepare → Next W → Type 0
  Joined con msg out =
      (out.0.sequence ≡ msg.seq_id)
      × (out.0.world ≡ d.activate_self true con.world)
      × (out.0.executed ≡ con.executed)

  verify-digest :
      (con : Con W) (msg : PrePrepare)
      → is_waiting (d.running_node con.world) ≡ false
      → bytes_eq msg.digest (d.get_digest msg.request) ≡ false
      → Ensures (λ result. result ≡ false) (verify d visit con msg)
  unfolding verify
  verify-digest con msg active wrong =
      rw (active, wrong) (Ensures-test _ (λ other. panics) (λ main. ensured false refl))

  check_proposal-Joined :
      (con : Con W) (msg : PrePrepare)
      → is_waiting (d.running_node con.world) ≡ true
      → bytes_eq msg.request.request_type d.epoch_reset ≡ true
      → bytes_eq msg.digest (d.get_digest msg.request) ≡ false
      → Ensures (Joined con msg) (check_proposal d visit con msg)
  unfolding check_proposal join_epoch leave_epoch
  check_proposal-Joined con msg waiting reset wrong =
      let after = record con { sequence = msg.seq_id; world = d.activate_self true con.world } in
      rw (reset, waiting, activated con.world)
        (Ensures-bind _ (verify-digest after msg (activated con.world) wrong)
          λ result e. rw (e, activated con.world) (ensured _ (refl, refl, refl)))

  -- A waiting node that refuses the proposal of an epoch reset for its digest, if it does not panic,
  -- still takes the proposer's number and stays activated, with nothing executed: the roll back that
  -- follows the refusal does not happen. An activation is taken to end the waiting.
  pub handle_pre_prepare-Joined :
      (con : Con W) (msg : PrePrepare)
      → is_waiting (d.running_node con.world) ≡ true
      → bytes_eq msg.request.request_type d.epoch_reset ≡ true
      → bytes_eq msg.digest (d.get_digest msg.request) ≡ false
      → Ensures (Joined con msg) (handle_pre_prepare d visit con msg)
  unfolding handle_pre_prepare
  handle_pre_prepare-Joined con msg waiting reset wrong =
      Ensures-bind _ (record_pre_prepare-value d visit con msg) λ r e. rw e (
        check_proposal-Joined (record con { pre_pre_msgs = r.pre_pre_msgs }) msg waiting reset
          wrong)
