-- ===== src/CrossReply/Tests.antt =====
-- A b-shard of four nodes, three of which reply.
use monosulfide.Prelude.{
  ℕ, List, [], ◌∷◌, ◌≡◌, Bool, true, false, refl, Returns, leb, if◌then◌else◌, arith, bytes,
  bytes_eq,
}
use monosulfide.Prelude.Maps.{lookup}
use monosulfide.IdChain.{Node, NodeMap}
use monosulfide.Sync.{Message}
use monosulfide.Pyramid.{threshold}
use monosulfide.CrossReply.{reset, shard_threshold, handle_all}
use monosulfide.CrossReply.Appends.{
  FromShard, none_left, next_from, requests_for, appends_of, handle_all-once,
}

abbrev member : ℕ → Node
member n = record {
  node_id = n ∷ [];
  shard_id = 0;
  ip_addr = n ∷ [];
  activating = true;
  sleeping = false;
  silence = 0;
}

abbrev members : NodeMap
members = (1 ∷ [], member 1) ∷ (2 ∷ [], member 2) ∷ (3 ∷ [], member 3) ∷ (4 ∷ [], member 4) ∷ []

abbrev reply_of : ℕ → Message
reply_of n = record { remote_info = n ∷ []; contents = (7 ∷ []) ∷ [] }

-- The last one comes after the block is appended.
abbrev four_replies : List (Bool × Message)
four_replies =
    (true, reply_of 1) ∷ (true, reply_of 2) ∷ (true, reply_of 3) ∷ (false, reply_of 4) ∷ []

from_members : FromShard members (4 ∷ []) 3 four_replies
unfolding shard_threshold lookup bytes_eq threshold
from_members = next_from {msg = reply_of 1} (7 ∷ []) refl refl (
    next_from {msg = reply_of 2} (7 ∷ []) refl refl (
      next_from {msg = reply_of 3} (7 ∷ []) refl refl
        (next_from {msg = reply_of 4} (7 ∷ []) refl refl none_left)))

handle_all-once_example :
    Returns
      (λ flags.
        appends_of (7 ∷ []) four_replies flags
        ≡ (if leb 3 (requests_for (7 ∷ []) four_replies) then 1 else 0))
      (handle_all members (4 ∷ []) reset four_replies)
unfolding requests_for bytes_eq
handle_all-once_example =
    handle_all-once members (4 ∷ []) 3 (7 ∷ []) four_replies from_members (omega arith)
      (omega arith)
