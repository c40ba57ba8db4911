-- ===== src/Sync/Blocks.antt =====
-- HandleRequest and CheckBlock of Comm/MonosulfideComm/SyncFideBlock.go, and of SyncIBlock.go with
-- the rules of that file. `visit` is the order in which `range` comes to the keys of reqCnt.
use monosulfide.Prelude.{
  ℕ, zero, suc, Bool, true, false, List, [], ◌∷◌, Option, none, some, ltb, Outcome, ok, out_of_fuel,
  ◌>>=◌, deref, get_elem?, if◌then◌else◌, length, bytes, bytes_eq, nat_eq,
}
use monosulfide.Prelude.Maps.{lookup, insert}
use monosulfide.Content.{Bytes}
use monosulfide.Sync.{
  Chains, Inbox, Inboxes, Message, Rules, ShardView, count_ack, flag, or_empty, settle,
}

module _ {B W : Type 0} (ch : Chains B W) (rules : Rules B W)
    (visit : List (Bytes × ℕ) → List Bytes) where
  -- GlobalShards[rid].Threshold()
  abbrev pub threshold : W → ℕ → Outcome ℕ
  threshold w rid = deref (get_elem? (ch.global_shards w) rid) >>= λ shard. ok shard.threshold

  unfoldable pub check_held : W → ℕ → Inbox B → Bytes → ℕ → Option B → Outcome (Option B)
  check_held w rid inbox h ack_amount none = ok none
  check_held w rid inbox h ack_amount (some block) = threshold w rid >>= λ enough.
      if ltb ack_amount enough
      then ok none
      else (rules.ready w inbox rid h block >>= λ r. ok (if r then some block else none))

  -- Whether the body of the loop of CheckBlock comes to its Append for a hash, and with which block.
  unfoldable pub check_entry : W → ℕ → Inbox B → Bytes → Outcome (Option B)
  check_entry w rid inbox h = elim (lookup h inbox.req_cnt) [
    | none ↦ ok none
    | some ack_amount ↦ check_held w rid inbox h ack_amount (lookup h inbox.blocks)
  ]

  -- The loop of CheckBlock up to the first block that it appends.
  unfoldable pub find_ready : W → ℕ → Inbox B → List Bytes → Outcome (Option (Bytes × B))
  find_ready w rid inbox [] = ok none
  find_ready w rid inbox (h ∷ keys) = check_entry w rid inbox h >>= λ found. elim found [
    | none ↦ find_ready w rid inbox keys
    | some block ↦ ok (some (h, block))
  ]

  -- CheckBlock, which calls itself after each block that it appends.
  unfoldable pub check_loop : ℕ → W → ℕ → Inbox B → Outcome (W × Inbox B)
  check_loop zero w rid inbox = out_of_fuel
  check_loop (suc fuel) w rid inbox = find_ready w rid inbox (visit inbox.req_cnt) >>= λ found.
      elim found [
        | none ↦ ok (w, inbox)
        | some (h, block) ↦
            ch.append w rid block >>= λ after. check_loop fuel after rid (settle h inbox)
      ]

  unfoldable pub check_block : W → ℕ → Inbox B → Outcome (W × Inbox B)
  check_block w rid inbox = check_loop (suc (length inbox.req_cnt)) w rid inbox

  -- The block of a main node: where it is kept, and under which hash; none where it is refused.
  unfoldable pub receive_block : W → ℕ → Inbox B → List Bytes → Outcome (Option (Bytes × Inbox B))
  receive_block w sid inbox contents = deref (get_elem? contents 0) >>= λ byte_block.
      ch.decode byte_block >>= λ block.
      let kept =
        some (ch.hash block, record inbox { blocks = insert (ch.hash block) block inbox.blocks }) in
      elim (ch.blocks w (ch.hash block)) [
        | some known ↦ ok kept
        | none ↦ rules.takes w inbox sid block >>= λ taken. ok (if taken then kept else none)
      ]

  -- The acknowledged hash of a message, after its block is kept where it brings one.
  unfoldable pub receive : Bool → W → ℕ → Inbox B → List Bytes → Outcome (Option (Bytes × Inbox B))
  receive is_main w sid inbox contents =
      if is_main
      then receive_block w sid inbox contents
      else (rules.read_ack contents >>= λ h. ok (some (h, inbox)))

  -- The end of HandleRequest: an acknowledgement of a finished hash is not counted.
  unfoldable pub acknowledge : W → ℕ → Inbox B → Bytes → Outcome (W × Inbox B)
  acknowledge w sid inbox h =
      if flag inbox h then ok (w, inbox) else check_block w sid (count_ack inbox h)

  -- remoteShard.Main() == remoteNode
  abbrev pub is_main : ShardView → Bytes → Bool
  is_main shard address = elim shard.main [ none ↦ false | some main ↦ bytes_eq main address ]

  -- HandleRequest: its result, the world and the inboxes after it.
  unfoldable pub handle_request : W → Inboxes B → Message → Outcome (Bool × W × Inboxes B)
  handle_request w inboxes msg = deref (lookup msg.remote_info (ch.node_map w)) >>= λ remote_node.
      deref (get_elem? (ch.global_shards w) remote_node.shard_id) >>= λ remote_shard.
      let sid = remote_shard.sid in
      let inbox = or_empty (lookup sid inboxes) in
      receive (is_main remote_shard msg.remote_info) w sid inbox msg.contents >>= λ received.
      elim received [
        | none ↦ ok (false, w, insert sid inbox inboxes)
        | some (h, kept) ↦
            acknowledge w sid kept h >>= λ out. ok (true, out.0, insert sid out.1 inboxes)
      ]
