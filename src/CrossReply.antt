-- ===== src/CrossReply.antt =====
-- Comm/PyramidComm/CrossReply.go: an i-shard counts the replies of the nodes of a b-shard to a cross
-- block, and schedules AppendCBlock at the threshold of their shard. `nodes` is the node map of the
-- identity chain, and `amounts` has NodeAmount() for each entry of GlobalShards.
mod Appends
mod Tests
use monosulfide.Prelude.{
  ℕ, ◌+◌, ◌%◌, ◌^◌, Bool, true, false, List, [], ◌∷◌, Option, none, some, get_elem?, ◌==◌, Outcome,
  ok, panic, ◌>>=◌, deref, if◌then◌else◌, bytes, bytes_eq,
}
use monosulfide.Prelude.Maps.{lookup, insert}
use monosulfide.Content.{Bytes}
use monosulfide.IdChain.{Node, NodeMap}
use monosulfide.Sync.{Message}
use monosulfide.Pyramid.{threshold}

pub record CrossReplyCom : Type 0 where
  pub req_cnt : List (Bytes × ℕ)

unfoldable pub reset : CrossReplyCom
reset = record { req_cnt = [] }

-- com.reqCnt[h]
abbrev pub replies : CrossReplyCom → Bytes → ℕ
replies cr h = elim (lookup h cr.req_cnt) [ none ↦ 0 | some n ↦ n ]

-- len(content) has to be 1.
unfoldable pub only_content : List Bytes → Outcome Bytes
only_content [] = panic
only_content (h ∷ []) = ok h
only_content (h ∷ k ∷ rest) = panic

module _ (nodes : NodeMap) (amounts : List ℕ) where
  unfoldable pub shard_threshold : Bytes → Outcome ℕ
  shard_threshold key = deref (lookup key nodes) >>= λ node.
      deref (get_elem? amounts node.shard_id) >>= λ amount. ok (threshold amount)

  -- The value that HandleRequest returns, whether it schedules AppendCBlock, and the state after it.
  -- `processing` is `ProcessingBlock() != nil`.
  unfoldable pub handle_request :
      Bool → CrossReplyCom → Message → Outcome (Bool × Bool × CrossReplyCom)
  handle_request false cr msg = ok (false, false, cr)
  handle_request true cr msg = only_content msg.contents >>= λ h.
      shard_threshold msg.remote_info >>= λ enough.
      let count = (replies cr h + 1) % 2 ^ 64 in
      ok (true, count == enough, record cr { req_cnt = insert h count cr.req_cnt })

  -- The requests one after the other, each with `processing` at its time: which of them schedule
  -- AppendCBlock.
  unfoldable pub handle_all : CrossReplyCom → List (Bool × Message) → Outcome (List Bool)
  handle_all cr [] = ok []
  handle_all cr ((processing, msg) ∷ rest) =
      handle_request processing cr msg >>= λ (_, scheduled, next).
      handle_all next rest >>= λ later. ok (scheduled ∷ later)
