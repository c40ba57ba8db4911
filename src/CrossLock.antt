-- ===== src/CrossLock.antt =====
-- Comm/PyramidComm/CrossLock.go: a b-shard locks its related i-shards before a cross-shard block. The
-- state is that of the main node of a shard: CrossLockCom with innerBlocked, the buffer of its
-- proposals, the top hashes of its chain, and what is sent. `signals` counts the calls of awake, and
-- `delayed` those of AppendDelayedCom; Request of a b-shard waits for a signal twice, so it is three
-- functions. A node is its key, and the pointers of the source come out of NodeMap.
mod Lock
mod Refine
mod Tests
use monosulfide.Prelude.{
  ℕ, zero, suc, ◌+◌, ◌*◌, Bool, true, false, not, ◌&&◌, ◌||◌, List, [], ◌∷◌, Option, none, some,
  ltb, ◌==◌, Outcome, ok, panic, ◌>>=◌, deref, get_elem?, length, if◌then◌else◌, bytes, bytes_eq,
  nat_eq,
}
use monosulfide.Prelude.Maps.{lookup, insert}
use monosulfide.Content.{Bytes}
use monosulfide.IdChain.{Node, NodeMap}
use monosulfide.Proposals.{ProposalBuffer, set_threshold, cross_priority, lowest_priority}

-- "successByte" and "failByte".
abbrev pub success_byte : Bytes
success_byte = 115 ∷ 117 ∷ 99 ∷ 99 ∷ 101 ∷ 115 ∷ 115 ∷ 66 ∷ 121 ∷ 116 ∷ 101 ∷ []

abbrev pub fail_byte : Bytes
fail_byte = 102 ∷ 97 ∷ 105 ∷ 108 ∷ 66 ∷ 121 ∷ 116 ∷ 101 ∷ []

abbrev pub sleep_min : ℕ
sleep_min = 64

-- A request or a response, to the related i-shards or to an address.
pub data Sent : Type 0 where
  ask_related : Sent
  answer : Bytes → Bytes → Sent
  respond_related : Bytes → Sent
  respond : Bytes → Bytes → Sent

pub record LockMsg : Type 0 where
  pub remote_info : Bytes
  pub contents : List Bytes

pub record CrossLockCom : Type 0 where
  pub related_i_shard : ℕ
  pub local_id : ℕ
  pub node_map : NodeMap
  pub running_node : Bytes
  pub acks : List (ℕ × Bool)
  pub b_main_node : Option Bytes
  pub activating : Bool
  pub success : Bool
  pub sleep_t : ℕ
  pub inner_blocked : Bool
  pub buffer : ProposalBuffer
  pub top_block_hash : List (ℕ × Bytes)
  pub top_hash_to_be_confirmed : List (ℕ × Bool)
  pub signals : ℕ
  pub delayed : ℕ
  pub sent : List Sent

-- IsBShard
abbrev pub is_b_shard : CrossLockCom → Bool
is_b_shard lc = ltb 0 lc.related_i_shard

unfoldable pub block_inner : CrossLockCom → CrossLockCom
block_inner lc = record lc { buffer = set_threshold lc.buffer cross_priority; inner_blocked = true }

unfoldable pub unblock_inner : CrossLockCom → CrossLockCom
unblock_inner lc = record lc {
  buffer = set_threshold lc.buffer lowest_priority;
  inner_blocked = false;
}

unfoldable pub reset : CrossLockCom → CrossLockCom
reset lc = record lc { activating = false; acks = []; sleep_t = sleep_min }

-- IpAddr of BMainNode.
abbrev pub b_main_addr : CrossLockCom → Outcome Bytes
b_main_addr lc =
    deref lc.b_main_node >>= λ key. deref (lookup key lc.node_map) >>= λ n. ok n.ip_addr

-- Request of an i-shard: the answer to the b-shard.
unfoldable pub answer_b : Bytes → CrossLockCom → Outcome CrossLockCom
answer_b byte lc = b_main_addr lc >>= λ addr. ok (record lc { sent = answer addr byte ∷ lc.sent })

-- Request of a b-shard up to its first wait.
unfoldable pub request_begin : CrossLockCom → CrossLockCom
request_begin lc = record lc {
  acks = [];
  activating = true;
  success = true;
  sent = ask_related ∷ lc.sent;
}

-- Response of a b-shard, with one of the two bytes.
unfoldable pub respond_b : Bytes → CrossLockCom → CrossLockCom
respond_b byte lc = record lc { sent = respond_related byte ∷ lc.sent }

abbrev pub min : ℕ → ℕ → ℕ
min a b = if ltb b a then b else a

-- Request of a b-shard after its first wait: to its second wait, or to its end, where a new Request
-- is started beside it.
unfoldable pub request_answered : CrossLockCom → CrossLockCom
request_answered lc =
    if lc.success
    then respond_b success_byte (block_inner lc)
    else record (respond_b fail_byte lc) {
      sleep_t = min (lc.sleep_t * 2) (sleep_min * 128);
      activating = false;
    }

-- Request of a b-shard after its second wait, with the request that it schedules.
unfoldable pub request_locked : CrossLockCom → CrossLockCom
request_locked lc = record lc { activating = false }

-- One more shard has answered: the waiting Request is woken once all have.
unfoldable pub record_ack : ℕ → Bool → CrossLockCom → CrossLockCom
record_ack sid value lc =
    let acks = insert sid value lc.acks in
    if length acks == lc.related_i_shard
    then record lc { acks = []; signals = lc.signals + 1 }
    else record lc { acks = acks }

-- HandleRequest of a b-shard: the answer of an i-shard.
unfoldable pub take_answer : Node → LockMsg → CrossLockCom → Outcome (Bool × CrossLockCom)
take_answer remote msg lc =
    if not lc.activating
    then ok (false, lc)
    else deref (get_elem? msg.contents 0) >>= λ byte.
        let success = if bytes_eq byte fail_byte then false else lc.success in
        ok (true, record_ack remote.shard_id success (record lc { success = success }))

-- HandleRequest of an i-shard: it links with the b-shard, or refuses it.
unfoldable pub link : Node → LockMsg → CrossLockCom → Outcome (Bool × CrossLockCom)
link remote msg lc =
    let refused = record lc { sent = answer remote.ip_addr fail_byte ∷ lc.sent } in
    let linked = block_inner (record lc { b_main_node = some msg.remote_info }) in
    elim lc.b_main_node [
      | some key ↦ ok (false, refused)
      | none ↦
          if lc.inner_blocked
          then ok (false, refused)
          else (answer_b success_byte linked >>= λ after. ok (true, after))
    ]

unfoldable pub handle_request : CrossLockCom → LockMsg → Outcome (Bool × CrossLockCom)
handle_request lc msg = deref (lookup msg.remote_info lc.node_map) >>= λ remote.
    if is_b_shard lc then take_answer remote msg lc else link remote msg lc

-- Response of an i-shard: the top hash of its chain; it lets the b-shard go.
unfoldable pub respond_i : CrossLockCom → Outcome CrossLockCom
respond_i lc = b_main_addr lc >>= λ addr.
    let top : Bytes = elim (lookup lc.local_id lc.top_block_hash) [ none ↦ [] | some h ↦ h ] in
    ok (record lc { sent = respond addr top ∷ lc.sent; b_main_node = none })

-- HandleResponse of a message of the node itself.
unfoldable pub unblock_self : LockMsg → CrossLockCom → Outcome CrossLockCom
unblock_self msg lc = deref (get_elem? msg.contents 0) >>= λ byte.
    if bytes_eq byte fail_byte then ok (record (unblock_inner lc) { b_main_node = none }) else panic

-- HandleResponse of a b-shard: the top hash of an i-shard, to be confirmed.
unfoldable pub take_top : Node → LockMsg → CrossLockCom → Outcome CrossLockCom
take_top sender msg lc = deref (get_elem? msg.contents 0) >>= λ top. ok (
    record_ack sender.shard_id true (record lc {
      top_block_hash = insert sender.shard_id top lc.top_block_hash;
      top_hash_to_be_confirmed = insert sender.shard_id true lc.top_hash_to_be_confirmed;
    }))

-- HandleResponse of an i-shard: only its b-shard can go on or let it go.
unfoldable pub take_response : LockMsg → CrossLockCom → Outcome CrossLockCom
take_response msg lc = elim lc.b_main_node [
  | none ↦ ok lc
  | some key ↦
      if lc.inner_blocked && not (bytes_eq key msg.remote_info)
      then ok lc
      else (deref (get_elem? msg.contents 0) >>= λ byte.
          if bytes_eq byte success_byte
          then ok (record lc { delayed = lc.delayed + 1 })
          else if bytes_eq byte fail_byte
          then ok (record (unblock_inner lc) { b_main_node = none })
          else panic)
]

unfoldable pub handle_response : CrossLockCom → LockMsg → Outcome CrossLockCom
handle_response lc msg = elim (lookup msg.remote_info lc.node_map) [
  | none ↦ panic
  | some sender ↦
      if bytes_eq msg.remote_info lc.running_node
      then unblock_self msg lc
      else if is_b_shard lc
      then take_top sender msg lc
      else take_response msg lc
]

-- What happens at the main node of an i-shard; `released` is its Response.
pub data Event : Type 0 where
  requested responded : LockMsg → Event
  released : Event

unfoldable pub handle : CrossLockCom → Event → Outcome CrossLockCom
handle lc (requested msg) = handle_request lc msg >>= λ out. ok out.1
handle lc (responded msg) = handle_response lc msg
handle lc released = respond_i lc

unfoldable pub handle_all : CrossLockCom → List Event → Outcome CrossLockCom
handle_all lc [] = ok lc
handle_all lc (e ∷ events) = handle lc e >>= λ after. handle_all after events
