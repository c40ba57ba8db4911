-- ===== src/CrossPrepare.antt =====
-- Comm/PyramidComm/CrossPrepare.go: the i-shards of a cross block verify it, and the b-shard commits it
-- after their answers. Decode with VerifyBlock of the chain is a parameter, and so is the address of
-- the main node of a shard. The mutex of the handlers is `locked`: a call that would lock it twice
-- never returns.
mod Verdicts
mod Tests
use monosulfide.Prelude.{
  ℕ, ◌+◌, Bool, true, false, List, [], ◌∷◌, Option, none, some, ◌==◌, Outcome, ok, panic, ◌>>=◌,
  deref, get_elem?, length, if◌then◌else◌, bytes_eq, nat_eq,
}
use monosulfide.Prelude.Maps.{insert}
use monosulfide.Content.{Bytes}
use monosulfide.Crypt.{uint_to_bytes, bytes_to_uint}
use monosulfide.CrossLock.{success_byte, fail_byte}

-- The operations that are scheduled.
pub data Scheduled : Type 0 where
  i_shard_prepare : Bytes → Scheduled
  cross_commit : Scheduled

-- A message: to the related i-shards, or to an address.
pub data Sent : Type 0 where
  prepare_related : List Bytes → Sent
  answer : Bytes → List Bytes → Sent

pub record CrossPrepareCom : Type 0 where
  pub local_id : ℕ
  pub related_i_shard : ℕ
  pub processing_block : Option Bytes
  pub b_shard_id : ℕ
  pub acks : List (ℕ × Bool)
  pub locked : Bool
  pub scheduled : List Scheduled
  pub sent : List Sent

-- A call returns, or it blocks for ever.
pub data Call : Type 0 where
  returned : CrossPrepareCom → Call
  blocked : Call

-- The deferred com.lock.Unlock().
abbrev pub unlock : Call → Call
unlock (returned after) = returned (record after { locked = false })
unlock blocked = blocked

-- What follows a call that returns.
abbrev pub and_then : (CrossPrepareCom → Outcome Call) → Call → Outcome Call
and_then next (returned after) = next after
and_then next blocked = ok blocked

-- com.lock.Lock() and the deferred com.lock.Unlock() around the body of a handler.
abbrev pub with_lock : (CrossPrepareCom → Outcome Call) → CrossPrepareCom → Outcome Call
with_lock body pc =
    if pc.locked
    then ok blocked
    else body (record pc { locked = true }) >>= λ call. ok (unlock call)

unfoldable pub reset : CrossPrepareCom → CrossPrepareCom
reset pc = record pc { acks = [] }

-- Request: the shard and its block.
unfoldable pub request : CrossPrepareCom → Outcome Call
request = with_lock λ pc. deref pc.processing_block >>= λ byte_block. ok (
    returned (record pc {
      sent = prepare_related (uint_to_bytes pc.local_id ∷ byte_block ∷ []) ∷ pc.sent;
    }))

module _ (shard_addr : ℕ → Outcome Bytes) (verify_block : Bytes → Outcome Bool) where
  unfoldable pub respond : Bytes → CrossPrepareCom → Outcome Call
  respond byte = with_lock λ pc. shard_addr pc.b_shard_id >>= λ addr. ok (
      returned (record pc { sent = answer addr (uint_to_bytes pc.local_id ∷ byte ∷ []) ∷ pc.sent }))

  unfoldable pub handle_request : List Bytes → CrossPrepareCom → Outcome Call
  handle_request contents = with_lock λ pc. deref (get_elem? contents 0) >>= λ byte_id.
      bytes_to_uint byte_id >>= λ b_shard_id. deref (get_elem? contents 1) >>= λ byte_block.
      verify_block byte_block >>= λ suc.
      let pc' = record pc { b_shard_id = b_shard_id } in
      if suc
      then ok (returned (record pc' { scheduled = i_shard_prepare byte_block ∷ pc'.scheduled }))
      else respond fail_byte pc'

  -- One more shard has answered; the result is kept, and never read.
  unfoldable pub record_answer : ℕ → Bool → CrossPrepareCom → CrossPrepareCom
  record_answer sid value pc =
      let acks = insert sid value pc.acks in
      if length acks == pc.related_i_shard
      then record pc { acks = []; scheduled = cross_commit ∷ pc.scheduled }
      else record pc { acks = acks }

  unfoldable pub handle_response : List Bytes → CrossPrepareCom → Outcome Call
  handle_response contents = with_lock λ pc. deref (get_elem? contents 0) >>= λ byte_id.
      bytes_to_uint byte_id >>= λ remote_shard_id. deref (get_elem? contents 1) >>= λ result.
      ok (returned (record_answer remote_shard_id (bytes_eq result success_byte) pc))

  -- The answers of a b-shard's i-shards, in the order of their arrival.
  unfoldable pub handle_responses : List (List Bytes) → CrossPrepareCom → Outcome Call
  handle_responses [] pc = ok (returned pc)
  handle_responses (contents ∷ rest) pc =
      handle_response contents pc >>= λ call. and_then (handle_responses rest) call
