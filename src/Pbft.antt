-- ===== src/Pbft.antt =====
-- consensus_shard/pbft: the state of a PBFT instance and the messages it takes. JSON text is the
-- value it decodes to; a handler takes the message decoded, as text that does not decode panics.
-- `Tic`, the loggers and the sleeps only concern time and are left out. What an instance uses of its
-- domain, of the node map and of the operations is the interface `Domain`, over a world `W`.
pub mod Propose
pub mod Handlers
pub mod Execution
pub mod Ballots
pub mod Rounds
pub mod Steps
pub mod Epoch
pub mod Reply
mod Tests
use monosulfide.Prelude.{
  ℕ, ◌+◌, ◌%◌, ◌^◌, Bool, true, false, not, ◌&&◌, List, [], ◌∷◌, Option, none, some, length, ◌==◌,
  if◌then◌else◌, Outcome, ok, panic, ◌>>=◌, deref, bytes, bytes_eq, nat_eq,
}
use monosulfide.Prelude.Maps.{lookup, insert, delete}
use monosulfide.Content.{Bytes}
use monosulfide.IdChain.{Node, NodeMap, present}

pub record Request : Type 0 where
  pub request_type : Bytes
  pub vars : List Bytes

-- A message with its decoded PrePrepare, and its sender.
pub record PrePrepare : Type 0 where
  pub request : Request
  pub digest : Bytes
  pub seq_id : ℕ
  pub remote_info : Bytes

-- A message with its decoded Prepare or Commit, and its sender.
pub record Vote : Type 0 where
  pub digest : Bytes
  pub seq_id : ℕ
  pub remote_info : Bytes

-- What is sent.
pub data Sent : Type 0 where
  sent_pre_prepare : Request → Bytes → ℕ → Sent
  sent_prepare : Bytes → ℕ → Sent
  sent_commit : Bytes → ℕ → Sent
  sent_reply : ℕ → Bool → Sent

-- The constants Unprepared, Prepared and Committed; 0 stands for a missing entry.
abbrev pub unprepared : ℕ
unprepared = 1

abbrev pub prepared : ℕ
prepared = 2

abbrev pub committed : ℕ
committed = 3

-- The domain of the instance, the identity chain and the operations, over a world `W`. `main` is the
-- key of GetDomain().Main(), none for nil, and `self` the key of RunningNode; both are pointers into
-- the node map, so that keys tell them apart.
pub record Domain (W : Type 0) : Type 0 where
  pub main : W → Option Bytes
  pub self : W → Bytes
  pub running_node : W → Node
  pub activate_self : Bool → W → W
  pub nodes : W → NodeMap
  pub threshold : W → ℕ
  pub global_threshold : W → ℕ
  pub epoch_reset : Bytes
  pub get_digest : Request → Bytes
  pub prepare : Request → W → Outcome (Bool × W)
  pub verify : Request → W → Outcome (Bool × W)
  pub execute : Request → W → Outcome W

abbrev pub Votes : Type 0
Votes = List (Bytes × Vote)

abbrev pub Confirms : Type 0
Confirms = List (Bytes × Bool)

-- The fields of ConPbft; `sent` and `executed` record the messages sent and the requests executed,
-- the last one first. `propose_locked` is the state of proposeLock. A nil map is none.
pub record Con (W : Type 0) : Type 0 where
  pub pre_pre_msgs : List (ℕ × PrePrepare)
  pub prepare_msgs : List (ℕ × Votes)
  pub cnt_prepare_confirm : List (Bytes × Confirms)
  pub commit_msgs : List (ℕ × Votes)
  pub cnt_commit_confirm : List (Bytes × Confirms)
  pub is_commit_broadcast : List (Bytes × Bool)
  pub cnt_reply_confirm : Option (List (ℕ × Confirms))
  pub proposal_pool : List (ℕ × Option Request)
  pub proposal_status : List (ℕ × ℕ)
  pub is_reply : List (ℕ × Bool)
  pub sequence : ℕ
  pub propose_locked : Bool
  pub world : W
  pub sent : List Sent
  pub executed : List (ℕ × Request)

unfoldable pub new_pbft_consensus : {W : Type 0} → W → Con W
new_pbft_consensus w = record {
  pre_pre_msgs = [];
  prepare_msgs = [];
  cnt_prepare_confirm = [];
  commit_msgs = [];
  cnt_commit_confirm = [];
  is_commit_broadcast = [];
  cnt_reply_confirm = none;
  proposal_pool = [];
  proposal_status = [];
  is_reply = [];
  sequence = 0;
  propose_locked = true;
  world = w;
  sent = [];
  executed = [];
}

-- A read of a map with Go's zero value for a missing key.
unfoldable pub read {ℓ} :
    {K : Type 0} {V : Type ℓ} ⦃e : monosulfide.Prelude.Eq K⦄ → V → K → List (K × V) → V
read d k m = elim (lookup k m) [ none ↦ d | some v ↦ v ]

-- The request under a number, where nil and a missing entry both make a use of it panic.
unfoldable pub request_at : ℕ → List (ℕ × Option Request) → Option Request
request_at seq pool = elim (lookup seq pool) [ none ↦ none | some r ↦ r ]

-- The comparison of two node pointers.
unfoldable pub same_node : Option Bytes → Option Bytes → Bool
same_node none none = true
same_node none (some b) = false
same_node (some a) none = false
same_node (some a) (some b) = bytes_eq a b

pub nxt_seq : ℕ → ℕ
nxt_seq seq = (seq + 1) % 2 ^ 64

module _ {W : Type 0} where
  -- SendMsg
  pub send : Con W → Sent → Con W
  send con msg = record con { sent = msg ∷ con.sent }

  -- Unlocking an unlocked mutex is fatal.
  unfoldable pub enable : Con W → Outcome (Con W)
  enable con = if con.propose_locked then ok (record con { propose_locked = false }) else panic
