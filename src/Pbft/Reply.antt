-- ===== src/Pbft/Reply.antt =====
-- Pbft5_Reply.go: the replies that the main node counts.
use monosulfide.Prelude.{
  ℕ, suc, Bool, true, false, not, [], ◌∷◌, none, some, leb, ◌==◌, if◌then◌else◌, Outcome, ok, panic,
  ◌>>=◌, deref, bytes, bytes_eq, nat_eq,
}
use monosulfide.Prelude.Maps.{lookup, insert}
use monosulfide.Content.{Bytes}
use monosulfide.Pbft.{Domain, Confirms, Con, read, request_at, same_node, nxt_seq}

-- The number of entries with the value `b`.
pub count_replies : Bool → Confirms → ℕ
count_replies b [] = 0
count_replies b ((_, true) ∷ cs) = let rest = count_replies b cs in if b then suc rest else rest
count_replies b ((_, false) ∷ cs) = let rest = count_replies b cs in if b then rest else suc rest

module _ {W : Type 0} (d : Domain W) where
  -- HandleReply from the count on.
  unfoldable pub answer_reply : Con W → ℕ → Confirms → Outcome (Con W)
  answer_reply con seq confirms = deref (request_at seq con.proposal_pool) >>= λ req.
      let threshold =
        if bytes_eq req.request_type d.epoch_reset
        then d.global_threshold con.world
        else d.threshold con.world in
      if read false seq con.is_reply
      then ok con
      else if leb threshold (count_replies true confirms)
      then (d.execute req con.world >>= λ w. ok (record con {
        is_reply = insert seq true con.is_reply;
        world = w;
        sequence = nxt_seq con.sequence;
        executed = (seq, req) ∷ con.executed;
      }))
      else ok con

  -- A write to the nil map panics.
  unfoldable pub handle_reply : Con W → ℕ → Bytes → Bool → Outcome (Con W)
  handle_reply con seq remote_info result =
      if not (same_node (some (d.self con.world)) (d.main con.world))
      then panic
      else if con.sequence == seq
      then elim con.cnt_reply_confirm [
        | none ↦ panic
        | some cnt ↦ deref (lookup remote_info (d.nodes con.world)) >>= λ sender.
            let confirms = insert sender.node_id result (read [] seq cnt) in
            answer_reply (record con { cnt_reply_confirm = some (insert seq confirms cnt) }) seq
              confirms
      ]
      else ok con
