-- ===== src/Pbft/Handlers.antt =====
-- The handlers of Pbft2_PrePrepare.go, Pbft3_Prepare.go and Pbft4_Commit.go. After an execution the
-- node handles a pre-prepare message that came early; that call is the last one of all its callers, so
-- a handler returns the message that is to be handled next, and `Step` of Steps runs it.
use monosulfide.Prelude.{
  ℕ, ◌-◌, Bool, true, false, not, ◌&&◌, List, [], ◌∷◌, Option, none, some, length, ltb, leb, ◌==◌,
  if◌then◌else◌, Outcome, ok, panic, ◌>>=◌, deref, bytes, bytes_eq, nat_eq,
}
use monosulfide.Prelude.Maps.{lookup, insert, delete}
use monosulfide.Content.{Bytes}
use monosulfide.IdChain.{Node, is_running, is_waiting, is_preparing, present}
use monosulfide.Pbft.{
  Request, PrePrepare, Vote, sent_prepare, sent_commit, sent_reply, unprepared, prepared, committed,
  Domain, Votes, Confirms, Con, read, request_at, same_node, nxt_seq, send, enable,
}

-- A state, and the message to be handled next.
abbrev pub Next : Type 0 → Type 0
Next W = Con W × Option PrePrepare

-- cntConfirm[key], with the sender in it if it runs.
unfoldable pub confirm : Node → Bytes → List (Bytes × Confirms) → List (Bytes × Confirms)
confirm sender key cnt =
    let old = read [] key cnt in
    insert key (if is_running sender then insert sender.node_id true old else old) cnt

module _ {W : Type 0} (d : Domain W) where
  -- The end of an execution: another node's turn is awaited, or the main node may propose again.
  unfoldable pub after_execution : Con W → Outcome (Next W)
  after_execution con =
      if same_node (some (d.self con.world)) (d.main con.world)
      then (enable con >>= λ con'. ok (con', none))
      else ok (con, lookup con.sequence con.pre_pre_msgs)

  -- The state once the request under `seq` is executed, in the world it leaves.
  unfoldable pub executed_state : Con W → ℕ → Request → W → Con W
  executed_state con seq req w = record con {
    is_reply = insert seq true con.is_reply;
    proposal_status = insert seq committed con.proposal_status;
    pre_pre_msgs = delete seq con.pre_pre_msgs;
    prepare_msgs = delete seq con.prepare_msgs;
    commit_msgs = delete seq con.commit_msgs;
    sequence = nxt_seq con.sequence;
    world = w;
    executed = (seq, req) ∷ con.executed;
  }

  -- The body of the execution in HandleCommitMsgs.
  unfoldable pub execute_round : Con W → ℕ → Outcome (Next W)
  execute_round con seq = deref (request_at seq con.proposal_pool) >>= λ req.
      d.execute req con.world >>= λ w. after_execution (executed_state con seq req w)

  -- The commit of `sender` is counted.
  unfoldable pub count_commit : Con W → Node → Bytes → Con W
  count_commit con sender key = record con {
    cnt_commit_confirm = confirm sender key con.cnt_commit_confirm;
  }

  -- The test before the execution.
  unfoldable pub commit_ready : Con W → Vote → Bool
  commit_ready con msg =
      leb (d.threshold con.world) (length (read [] msg.digest con.cnt_commit_confirm))
      && (not (read false msg.seq_id con.is_reply) && read false msg.digest con.is_commit_broadcast)

  -- The loop of HandleCommitMsgs.
  unfoldable pub commit_loop : Con W → Votes → Outcome (Next W)
  commit_loop con [] = ok (con, none)
  commit_loop con ((_, msg) ∷ msgs) =
      deref (lookup msg.remote_info (d.nodes con.world)) >>= λ sender.
      let con' = count_commit con sender msg.digest in
      let rest = commit_loop con' msgs in
      if commit_ready con' msg then execute_round con' msg.seq_id else rest

module _ {W : Type 0} (d : Domain W) (visit : Votes → Votes) where
  unfoldable pub handle_commit_msgs : Con W → Outcome (Next W)
  handle_commit_msgs con =
      let msgs = read [] con.sequence con.commit_msgs in
      if ltb (length msgs) (d.threshold con.world)
      then ok (con, none)
      else commit_loop d con (visit msgs)

  unfoldable pub handle_commit : Con W → Vote → Outcome (Next W)
  handle_commit con msg =
      if read 0 msg.seq_id con.proposal_status == committed
      then ok (con, none)
      else handle_commit_msgs (record con {
        commit_msgs =
            insert msg.seq_id (insert msg.remote_info msg (read [] msg.seq_id con.commit_msgs))
              con.commit_msgs;
      })

  -- A prepared certificate: the commit message is broadcast.
  unfoldable pub broadcast_commit : Con W → Vote → Outcome (Next W)
  broadcast_commit con msg =
      let marked = record con {
        is_commit_broadcast = insert msg.digest true con.is_commit_broadcast;
      } in
      let sending =
        if is_running (d.running_node con.world)
        then send marked (sent_commit msg.digest msg.seq_id)
        else marked in
      handle_commit_msgs (record sending {
        proposal_status = insert msg.seq_id prepared con.proposal_status;
        prepare_msgs = delete con.sequence con.prepare_msgs;
      })

  -- The prepare of `sender` is counted.
  unfoldable pub count_prepare : Con W → Node → Bytes → Con W
  count_prepare con sender key = record con {
    cnt_prepare_confirm = confirm sender key con.cnt_prepare_confirm;
  }

  -- A preparing node needs no prepare but its own.
  unfoldable pub prepare_ready : Con W → Request → Bytes → Bool
  prepare_ready con req key =
      let threshold =
        if bytes_eq req.request_type d.epoch_reset && is_preparing (d.running_node con.world)
        then 0
        else d.threshold con.world in
      leb threshold (length (read [] key con.cnt_prepare_confirm))

  -- The loop of HandlePrepareMsgs, for the request under the current number.
  unfoldable pub prepare_loop : Option Request → Con W → Votes → Outcome (Next W)
  prepare_loop req con [] = ok (con, none)
  prepare_loop req con ((_, msg) ∷ msgs) =
      deref (lookup msg.remote_info (d.nodes con.world)) >>= λ sender.
      let con' = count_prepare con sender msg.digest in
      let rest = prepare_loop req con' msgs in
      if read false msg.digest con'.is_commit_broadcast
      then ok (con', none)
      else deref req >>= λ r.
          if prepare_ready con' r msg.digest then broadcast_commit con' msg else rest

  unfoldable pub handle_prepare_msgs : Con W → Outcome (Next W)
  handle_prepare_msgs con =
      let msgs = read [] con.sequence con.prepare_msgs in
      if ltb (length msgs) (d.threshold con.world)
      then ok (con, none)
      else elim (lookup con.sequence con.proposal_pool) [
        | none ↦ ok (con, none)
        | some req ↦ prepare_loop req con (visit msgs)
      ]

  unfoldable pub handle_prepare : Con W → Vote → Outcome (Next W)
  handle_prepare con msg = deref (lookup msg.remote_info (d.nodes con.world)) >>= λ sender.
      if leb prepared (read 0 msg.seq_id con.proposal_status)
      then ok (con, none)
      else let msgs = read [] msg.seq_id con.prepare_msgs in
        handle_prepare_msgs (record con {
          prepare_msgs =
              insert msg.seq_id
                (if is_running sender then insert msg.remote_info msg msgs else msgs)
                con.prepare_msgs;
        })

  -- verify
  unfoldable pub verify : Con W → PrePrepare → Outcome Bool
  verify con msg =
      if not (same_node (present (d.nodes con.world) msg.remote_info) (d.main con.world))
      then panic
      else if is_waiting (d.running_node con.world)
          && not (bytes_eq msg.request.request_type d.epoch_reset)
      then ok false
      else if not (bytes_eq msg.digest (d.get_digest msg.request))
      then ok false
      else if ltb con.sequence msg.seq_id
      then elim (lookup msg.seq_id con.proposal_pool) [
        | none ↦ if con.sequence == msg.seq_id - 1 then ok false else panic
        | some _ ↦ ok true
      ]
      else ok (not (ltb msg.seq_id con.sequence))

  -- A waiting node takes the number of the proposer of an epoch reset, and prepares.
  unfoldable pub join_epoch : Con W → PrePrepare → Con W
  join_epoch con msg =
      if bytes_eq msg.request.request_type d.epoch_reset && is_waiting (d.running_node con.world)
      then record con { sequence = msg.seq_id; world = d.activate_self true con.world }
      else con

  -- The roll back of a refused proposal.
  unfoldable pub leave_epoch : ℕ → Con W → PrePrepare → Con W
  leave_epoch temp_seq con msg =
      if bytes_eq msg.request.request_type d.epoch_reset && is_waiting (d.running_node con.world)
      then record con { sequence = temp_seq; world = d.activate_self false con.world }
      else con

  -- HandlePrePrepare after the Verify of the operation.
  unfoldable pub answer_proposal : Con W → PrePrepare → Bool → W → Outcome (Next W)
  answer_proposal con msg flag w =
      let seq = msg.seq_id in
      let kept = record con {
        proposal_status = insert seq unprepared con.proposal_status;
        is_reply = insert seq false con.is_reply;
        world = w;
      } in
      let pooled = record kept {
        proposal_pool = insert seq (some msg.request) con.proposal_pool;
      } in
      let refused = record kept { proposal_pool = insert seq none con.proposal_pool } in
      if flag
      then (if is_running (d.running_node w)
          then ok (send pooled (sent_prepare msg.digest seq), none)
          else handle_prepare pooled
              (record { digest = msg.digest; seq_id = seq; remote_info = d.self w }))
      else (deref (d.main w) >>= λ _. ok (send refused (sent_reply seq false), none))

  -- HandlePrePrepare from a verified proposal on.
  unfoldable pub accept_proposal : Con W → PrePrepare → Outcome (Next W)
  accept_proposal con msg =
      d.verify msg.request con.world >>= λ (flag, w). answer_proposal con msg flag w

  -- PrePreMsgs keeps the first message of a number; a later one must come from the main node.
  unfoldable pub record_pre_prepare : Con W → PrePrepare → Outcome (Con W)
  record_pre_prepare con msg = elim (lookup msg.seq_id con.pre_pre_msgs) [
    | none ↦ ok (record con { pre_pre_msgs = insert msg.seq_id msg con.pre_pre_msgs })
    | some _ ↦
        if same_node (present (d.nodes con.world) msg.remote_info) (d.main con.world)
        then ok con
        else panic
  ]

  -- HandlePrePrepare once the message is recorded.
  unfoldable pub check_proposal : Con W → PrePrepare → Outcome (Next W)
  check_proposal con msg =
      let joined = join_epoch con msg in
      let again = join_epoch joined msg in
      verify again msg >>= λ result.
      if result then accept_proposal again msg else ok (leave_epoch joined.sequence again msg, none)

  unfoldable pub handle_pre_prepare : Con W → PrePrepare → Outcome (Next W)
  handle_pre_prepare con msg =
      record_pre_prepare con msg >>= λ recorded. check_proposal recorded msg
