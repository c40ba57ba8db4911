-- ===== src/Sync/Senders.antt =====
-- The sender of an acknowledgement is not told apart: reqCnt counts messages.
use monosulfide.Prelude.{ℕ, ◌≡◌, refl, false, List, some, get_elem?, bytes}
use monosulfide.Prelude.Maps.{lookup}
use monosulfide.Content.{Bytes}
use monosulfide.IdChain.{Node}
use monosulfide.Sync.{Chains, Inboxes, Message, Rules, ShardView}
use monosulfide.Sync.Blocks.{handle_request, is_main}

module _ {B W : Type 0} (ch : Chains B W) (rules : Rules B W)
    (visit : List (Bytes × ℕ) → List Bytes) where
  -- HandleRequest does not look at who of a shard acknowledges a block: two messages with the same
  -- contents from nodes of one shard that are not its main node have the same effect, so that the
  -- repeated message of one replica counts as often as it is sent.
  pub handle_request-sender :
      (w : W) (inboxes : Inboxes B) (m n : Message) (a b : Node) (shard : ShardView)
      → lookup m.remote_info (ch.node_map w) ≡ some a
      → lookup n.remote_info (ch.node_map w) ≡ some b
      → a.shard_id ≡ b.shard_id
      → get_elem? (ch.global_shards w) b.shard_id ≡ some shard
      → is_main ch rules visit shard m.remote_info ≡ false
      → is_main ch rules visit shard n.remote_info ≡ false
      → m.contents ≡ n.contents
      → handle_request ch rules visit w inboxes m ≡ handle_request ch rules visit w inboxes n
  unfolding handle_request
  handle_request-sender w inboxes m n a b shard known_a known_b shards found replica_m replica_n
        same =
      rw (known_a, known_b, shards, found, replica_m, replica_n, same) refl
