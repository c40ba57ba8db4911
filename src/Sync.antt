-- ===== src/Sync.antt =====
-- Comm/MonosulfideComm/SyncFideBlock.go and Comm/PyramidComm/SyncIBlock.go: a replica counts the
-- acknowledgements of the blocks of other shards and appends a block to its local chain once its
-- shard has sent enough of them. The chains of the local shard are a record of operations that the
-- handlers call; the handlers themselves are whole.
mod Blocks
mod Accepted
mod Once
mod Senders
mod Tests
use monosulfide.Prelude.{
  ℕ, zero, suc, ◌+◌, Bool, true, false, not, ◌&&◌, List, [], ◌∷◌, Option, none, some, ltb, Outcome,
  ok, panic, out_of_fuel, ◌>>=◌, deref, get_elem?, if◌then◌else◌, bytes, bytes_eq, nat_eq,
}
use monosulfide.Prelude.Maps.{lookup, insert, delete}
use monosulfide.Content.{Bytes}
use monosulfide.Crypt.{bytes_to_uint}
use monosulfide.IdChain.{Node, NodeMap}

-- What a handler reads of an entry of GlobalShards: Id(), the address of Main() and Threshold().
pub record ShardView : Type 0 where
  pub sid : ℕ
  pub main : Option Bytes
  pub threshold : ℕ

-- The local shard and its chain, over a world `W` that holds them, with blocks of a type `B`:
-- TopBlockHash, TopHashToBeConfirmed, Blocks, Decode, Hash, ParentHash (of a shard, in a StdBlock)
-- and Append.
pub record Chains (B W : Type 0) : Type 0 where
  pub node_map : W → NodeMap
  pub global_shards : W → List ShardView
  pub top_block_hash : W → ℕ → Bytes
  pub top_hash_to_be_confirmed : W → ℕ → Bool
  pub blocks : W → Bytes → Option B
  pub decode : Bytes → Outcome B
  pub hash : B → Bytes
  pub parent_hash : B → ℕ → Outcome Bytes
  pub append : W → ℕ → B → Outcome W

-- reqCnt[sid], blocks[sid] and finish[sid].
pub record Inbox (B : Type 0) : Type 0 where
  pub req_cnt : List (Bytes × ℕ)
  pub blocks : List (Bytes × B)
  pub finish : List (Bytes × Bool)

abbrev pub Inboxes : Type 0 → Type 0
Inboxes B = List (ℕ × Inbox B)

abbrev pub empty_inbox : {B : Type 0} → Inbox B
empty_inbox = record { req_cnt = []; blocks = []; finish = [] }

pub record Message : Type 0 where
  pub remote_info : Bytes
  pub contents : List Bytes

-- m[h] of a map of bools.
abbrev pub flag : {B : Type 0} → Inbox B → Bytes → Bool
flag inbox h = elim (lookup h inbox.finish) [ none ↦ false | some b ↦ b ]

-- m[h] of a map of counts.
abbrev pub count_of : {B : Type 0} → Inbox B → Bytes → ℕ
count_of inbox h = elim (lookup h inbox.req_cnt) [ none ↦ 0 | some n ↦ n ]

-- com.reqCnt[RemoteSID][hash]++
unfoldable pub count_ack : {B : Type 0} → Inbox B → Bytes → Inbox B
count_ack inbox h = record inbox { req_cnt = insert h (count_of inbox h + 1) inbox.req_cnt }

-- The two deletes and the write of finish in CheckBlock.
unfoldable pub settle : {B : Type 0} → Bytes → Inbox B → Inbox B
settle h inbox = record {
  req_cnt = delete h inbox.req_cnt;
  blocks = delete h inbox.blocks;
  finish = insert h true inbox.finish;
}

abbrev pub or_empty : {B : Type 0} → Option (Inbox B) → Inbox B
or_empty none = empty_inbox
or_empty (some inbox) = inbox

-- What the handlers of the two files do differently: whether a new block of a main node is taken,
-- which hash an acknowledgement is for, and whether a block with enough of them is appended.
pub record Rules (B W : Type 0) : Type 0 where
  pub takes : W → Inbox B → ℕ → B → Outcome Bool
  pub read_ack : List Bytes → Outcome Bytes
  pub ready : W → Inbox B → ℕ → Bytes → B → Outcome Bool

module _ {B W : Type 0} (ch : Chains B W) where
  -- In SyncFideBlock a block is refused whose parent is neither the top nor a received block, unless
  -- the block is itself the top.
  unfoldable pub fide_takes : W → Inbox B → ℕ → B → Outcome Bool
  fide_takes w inbox sid block = ch.parent_hash block sid >>= λ parent. ok (
      if not (bytes_eq (ch.top_block_hash w sid) parent)
        && not (bytes_eq (ch.top_block_hash w sid) (ch.hash block))
      then elim (lookup parent inbox.blocks) [ none ↦ false | some b ↦ true ]
      else true)

  unfoldable pub fide_read_ack : List Bytes → Outcome Bytes
  fide_read_ack contents = deref (get_elem? contents 0) >>= λ h.
      deref (get_elem? contents 1) >>= λ nonce. bytes_to_uint nonce >>= λ n. ok h

  unfoldable pub fide_ready : W → Inbox B → ℕ → Bytes → B → Outcome Bool
  fide_ready w inbox sid h block = ok (not (flag inbox h))

  -- In SyncIBlock a block is refused whose parent is not the top, unless the block is itself the top
  -- and waits for its confirmation; the log line of a refusal reads the body of the local top block.
  unfoldable pub iblock_takes : W → Inbox B → ℕ → B → Outcome Bool
  iblock_takes w inbox sid block = ch.parent_hash block sid >>= λ parent.
      if not (bytes_eq (ch.top_block_hash w sid) parent)
        && not (
            ch.top_hash_to_be_confirmed w sid && bytes_eq (ch.top_block_hash w sid) (ch.hash block))
      then (deref (ch.blocks w (ch.top_block_hash w sid)) >>= λ local_top. ok false)
      else ok true

  unfoldable pub iblock_read_ack : List Bytes → Outcome Bytes
  iblock_read_ack contents = deref (get_elem? contents 0)

  -- pyramid.GetBlock(block.H.ParentHashes[rid]) != nil
  unfoldable pub iblock_ready : W → Inbox B → ℕ → Bytes → B → Outcome Bool
  iblock_ready w inbox sid h block = ch.parent_hash block sid >>= λ parent.
      ok (elim (ch.blocks w parent) [ none ↦ false | some b ↦ true ])

  abbrev pub fide_rules : Rules B W
  fide_rules = record { takes = fide_takes; read_ack = fide_read_ack; ready = fide_ready }

  abbrev pub iblock_rules : Rules B W
  iblock_rules = record { takes = iblock_takes; read_ack = iblock_read_ack; ready = iblock_ready }
