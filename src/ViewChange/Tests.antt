-- ===== src/ViewChange/Tests.antt =====
-- Two nodes, of which the first is main.
use monosulfide.Prelude.{
  ℕ, ◌≡◌, refl, true, false, [], ◌∷◌, some, inl, inr, ◌⊎◌, arith, ok, ◌>>=◌, Ensures, bytes,
  bytes_eq, nat_eq,
}
use monosulfide.Prelude.Maps.{lookup, insert}
use monosulfide.Content.{Bytes}
use monosulfide.Crypt.{bytes_to_uint}
use monosulfide.Tx.{modulo}
use monosulfide.IdChain.{
  Node, IdChain, threshold, threshold_of, sub64, running_node_amount, count, is_running,
  select_main, select_random_key, get_sorted_key_slice, running_keys, sort_keys, insert_key,
  string_less, present,
}
use monosulfide.ViewChange.{
  ViewChangeCom, ViewMsg, requested, stand_by, collecting, handle_request, handle_all, vote,
  votes_of, depose, lead, change, count_votes,
}
use monosulfide.ViewChange.Votes.{Counted}
use monosulfide.ViewChange.Deposed.{Handled, handle_request-Handled}
use monosulfide.ViewChange.Stuck.{Stuck, handle_all-Stuck}

abbrev node : ℕ → Bytes × Node
node k = (
  k ∷ [],
  record {
    node_id = k ∷ [];
    shard_id = 0;
    ip_addr = k ∷ [];
    activating = true;
    sleeping = false;
    silence = 0;
  },
)

abbrev chain : IdChain
chain = record {
  node_map = node 1 ∷ node 2 ∷ [];
  round_id = 0;
  view_id = 0;
  rand_num = 0;
  main_node = some (1 ∷ []);
  chain = record {
    top_block_hash = [];
    tx_pool = record { tx_lists = []; local_index = 0; controls = [] };
    blocks = [];
  };
}

-- The first node has asked for the first view.
abbrev waiting : ViewChangeCom
waiting = record {
  count = (1, (1 ∷ [], true) ∷ []) ∷ [];
  state = stand_by;
  response_buffer = [];
  idc = chain;
  running_node = 2 ∷ [];
  propose_locked = true;
  tics = 0;
  sent = [];
}

abbrev ask_of : ℕ → ViewMsg
ask_of k = record { remote_info = k ∷ []; contents = (0 ∷ 0 ∷ 0 ∷ 0 ∷ 0 ∷ 0 ∷ 0 ∷ 1 ∷ []) ∷ [] }

new_main :
    (handle_request (λ k. k) waiting (ask_of 2) >>= λ out. ok out.1.idc.main_node)
    ≡ ok (some (2 ∷ []))
unfolding handle_request vote depose lead change count_votes lookup insert bytes_eq threshold
    threshold_of sub64 running_node_amount count is_running select_main select_random_key
    get_sorted_key_slice running_keys sort_keys insert_key string_less present modulo bytes_to_uint
new_main = refl

votes_of-waiting :
    (vid : ℕ) → (votes_of vid waiting ≡ (1 ∷ [], true) ∷ []) ⊎ (votes_of vid waiting ≡ [])
unfolding lookup
votes_of-waiting vid = ground arith

waiting-Counted : Counted waiting
unfolding lookup bytes_eq
waiting-Counted vid = elim (votes_of-waiting vid) [
  | inl one ↦ rw one ((refl, tt), (((node 1).1, refl), tt))
  | inr nobody ↦ rw nobody (tt, tt)
]

handle_request-Handled_example :
    Ensures
      (λ out. Handled (λ k. k) waiting (ask_of 2) out.1 × Counted out.1)
      (handle_request (λ k. k) waiting (ask_of 2))
handle_request-Handled_example = handle_request-Handled (λ k. k) waiting (ask_of 2) waiting-Counted

-- A replica that is not the new main node collects.
abbrev gathering : ViewChangeCom
gathering = record waiting { state = collecting; idc = record chain { main_node = some (2 ∷ []) } }

handle_all-Stuck_example :
    Ensures
      (Stuck gathering)
      (handle_all (λ k. k) gathering (requested (ask_of 1) ∷ requested (ask_of 2) ∷ []))
handle_all-Stuck_example =
    handle_all-Stuck (λ k. k) gathering (requested (ask_of 1) ∷ requested (ask_of 2) ∷ []) refl
