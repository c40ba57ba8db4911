-- ===== src/ViewChange.antt =====
-- Comm/ViewChange.go: the nodes of the identity chain replace its main node when enough of them ask
-- for a newer view. `modulus` is the order of the keys in SelectMain. A node is its key, and the
-- pointers of the source come out of NodeMap; the fields of the consensus instance that the handlers
-- touch are `propose_locked` (the state of proposeLock, which Enable unlocks), `tics` (the calls of
-- Tic) and `sent`.
mod Votes
mod Deposed
mod Stuck
mod Tests
use monosulfide.Prelude.{
  ℕ, zero, suc, ◌+◌, Bool, true, false, not, ◌&&◌, List, [], ◌∷◌, Option, none, some, leb, Outcome,
  ok, panic, ◌>>=◌, deref, get_elem?, length, if◌then◌else◌, bytes, bytes_eq, nat_eq,
}
use monosulfide.Prelude.Maps.{lookup, insert}
use monosulfide.Content.{Bytes}
use monosulfide.Crypt.{bytes_to_uint, uint_to_bytes}
use monosulfide.IdChain.{Node, NodeMap, IdChain, threshold, select_main}

pub data ViewState : Type 0 where
  stand_by collecting : ViewState

abbrev pub is_stand_by : ViewState → Bool
is_stand_by stand_by = true
is_stand_by collecting = false

-- A message, with its sender's key in RemoteInfo.
pub record ViewMsg : Type 0 where
  pub remote_info : Bytes
  pub contents : List Bytes

-- The messages that a replica handles.
pub data Event : Type 0 where
  requested responded : ViewMsg → Event

-- The messages that are broadcast: ViewChange.RequestType() and ViewChange.ResponseType().
pub data Sent : Type 0 where
  request response : Bytes → Sent

abbrev pub Votes : Type 0
Votes = List (Bytes × Bool)

-- ViewChangeCom with what it reaches of the identity chain and of the consensus instance.
pub record ViewChangeCom : Type 0 where
  pub count : List (ℕ × Votes)
  pub state : ViewState
  pub response_buffer : List (ℕ × Bytes)
  pub idc : IdChain
  pub running_node : Bytes
  pub propose_locked : Bool
  pub tics : ℕ
  pub sent : List Sent

unfoldable pub reset : ViewChangeCom → ViewChangeCom
reset vc = record vc { count = []; state = stand_by; response_buffer = [] }

-- Request: GetViewId() + 1 on uint64.
pub ask : ViewChangeCom → ViewChangeCom
ask vc = record vc { sent = request (uint_to_bytes (vc.idc.view_id + 1)) ∷ vc.sent }

unfoldable pub change : ℕ → ViewChangeCom → ViewChangeCom
change vid vc = record vc { idc = record vc.idc { view_id = vid }; tics = vc.tics + 1 }

-- com.count[vid], made where it is nil.
abbrev pub votes_of : ℕ → ViewChangeCom → Votes
votes_of vid vc = elim (lookup vid vc.count) [ none ↦ [] | some votes ↦ votes ]

-- com.count[vid][msg.RemoteInfo] = true
unfoldable pub vote : ℕ → Bytes → ViewChangeCom → ViewChangeCom
vote vid key vc = record vc { count = insert vid (insert key true (votes_of vid vc)) vc.count }

-- The main node of a chain, as a pointer: a nil one panics.
abbrev pub main_of : IdChain → Outcome (Bytes × Node)
main_of idc = deref idc.main_node >>= λ key. deref (lookup key idc.node_map) >>= λ n. ok (key, n)

abbrev pub dismissed : Node → Node
dismissed n = record n { activating = false; sleeping = false }

module _ (modulus : Bytes → Bytes) where
  -- The dismissal of the main node, and SelectMain.
  unfoldable pub depose : IdChain → Outcome IdChain
  depose idc = main_of idc >>= λ (key, n).
      let m = insert key (dismissed n) idc.node_map in
      select_main modulus m idc.rand_num >>= λ main.
      ok (record idc { node_map = m; main_node = main })

  -- The main node broadcasts its response, changes the view and unlocks proposeLock; unlocking it
  -- twice is fatal.
  unfoldable pub lead : ℕ → ViewChangeCom → Outcome ViewChangeCom
  lead vid vc =
      let led = change vid (record vc { sent = response (uint_to_bytes vid) ∷ vc.sent }) in
      if led.propose_locked then ok (record led { propose_locked = false }) else panic

  -- A node that is not main changes the view at once if the response has come before.
  unfoldable pub follow : ℕ → ViewChangeCom → Outcome ViewChangeCom
  follow vid vc = main_of vc.idc >>= λ (key, n). ok (
      if bytes_eq (elim (lookup vid vc.response_buffer) [ none ↦ [] | some k ↦ k ]) n.node_id
      then change vid vc
      else record vc { state = collecting })

  abbrev pub is_main_node : ViewChangeCom → Bool
  is_main_node vc = elim vc.idc.main_node [ none ↦ false | some key ↦ bytes_eq key vc.running_node ]

  -- HandleRequest after the vote.
  unfoldable pub count_votes : ℕ → ViewChangeCom → Outcome ViewChangeCom
  count_votes vid vc =
      if leb (threshold vc.idc.node_map) (length (votes_of vid vc)) && is_stand_by vc.state
      then (depose vc.idc >>= λ idc.
          let deposed = record vc { idc = idc } in
          main_of idc >>= λ new_main.
          if is_main_node deposed then lead vid deposed else follow vid deposed)
      else ok vc

  unfoldable pub handle_request : ViewChangeCom → ViewMsg → Outcome (Bool × ViewChangeCom)
  handle_request vc msg = deref (get_elem? msg.contents 0) >>= λ byte_vid.
      bytes_to_uint byte_vid >>= λ vid.
      if leb vid vc.idc.view_id
      then ok (false, vc)
      else elim (lookup msg.remote_info vc.idc.node_map) [
        | none ↦ ok (true, vc)
        | some n ↦ count_votes vid (vote vid msg.remote_info vc) >>= λ after. ok (true, after)
      ]

  -- remoteNode == idChain.IDC.Main(), where both may be nil.
  abbrev pub from_main : ViewChangeCom → Bytes → Bool
  from_main vc remote = elim (lookup remote vc.idc.node_map) [
    | none ↦ elim vc.idc.main_node [ none ↦ true | some key ↦ false ]
    | some n ↦ elim vc.idc.main_node [ none ↦ false | some key ↦ bytes_eq remote key ]
  ]

  unfoldable pub handle_response : ViewChangeCom → ViewMsg → Outcome ViewChangeCom
  handle_response vc msg = deref (get_elem? msg.contents 0) >>= λ byte_vid.
      bytes_to_uint byte_vid >>= λ vid. elim vc.state [
        | stand_by ↦
            ok (record vc { response_buffer = insert vid msg.remote_info vc.response_buffer })
        | collecting ↦ ok (if from_main vc msg.remote_info then change vid vc else vc)
      ]

  unfoldable pub handle : ViewChangeCom → Event → Outcome ViewChangeCom
  handle vc (requested msg) = handle_request vc msg >>= λ out. ok out.1
  handle vc (responded msg) = handle_response vc msg

  unfoldable pub handle_all : ViewChangeCom → List Event → Outcome ViewChangeCom
  handle_all vc [] = ok vc
  handle_all vc (e ∷ events) = handle vc e >>= λ after. handle_all after events
