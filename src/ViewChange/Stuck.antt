-- ===== src/ViewChange/Stuck.antt =====
-- A replica that collects responses never again replaces a main node.
use monosulfide.Prelude.{
  ◌∙◌, ℕ, ◌≡◌, refl, Bool, true, false, ◌&&◌, List, [], ◌∷◌, bytes, nat_eq, length, leb, ok, deref,
  get_elem?, if-cases, Ensures, ensured, Ensures-bind, Ensures-step, Ensures-test, Ensures-weaken,
  Ensures-option,
}
use monosulfide.Prelude.Maps.{lookup}
use monosulfide.Content.{Bytes}
use monosulfide.Crypt.{bytes_to_uint}
use monosulfide.IdChain.{threshold}
use monosulfide.ViewChange.{
  ViewChangeCom, ViewMsg, ViewState, Event, requested, responded, votes_of, vote, change, from_main,
  count_votes, handle_request, handle_response, handle, handle_all, collecting, is_stand_by,
}

-- The replica still collects, and has the nodes and the main node it had.
abbrev pub Stuck : ViewChangeCom → ViewChangeCom → Type 0
Stuck vc after =
    (after.state ≡ collecting)
    × (after.idc.node_map ≡ vc.idc.node_map)
    × (after.idc.main_node ≡ vc.idc.main_node)

not_standing : (b : Bool) (s : ViewState) → s ≡ collecting → (b && is_stand_by s) ≡ false
not_standing true s e = rw e refl
not_standing false s e = refl

module _ (modulus : Bytes → Bytes) where
  count_votes_collecting :
      (vid : ℕ) (vc : ViewChangeCom) → vc.state ≡ collecting → count_votes modulus vid vc ≡ ok vc
  unfolding count_votes
  count_votes_collecting vid vc stuck =
      rw (not_standing (leb (threshold vc.idc.node_map) (length (votes_of vid vc))) vc.state stuck)
        refl

  handle_request-Stuck :
      (vc : ViewChangeCom) (msg : ViewMsg)
      → vc.state ≡ collecting
      → Ensures (λ out. Stuck vc out.1) (handle_request modulus vc msg)
  unfolding handle_request vote
  handle_request-Stuck vc msg stuck =
      Ensures-step (deref (get_elem? msg.contents 0)) _ λ byte_vid e.
        Ensures-step (bytes_to_uint byte_vid) _ λ vid e'.
          Ensures-test (leb vid vc.idc.view_id) (λ old. ensured _ (stuck, refl, refl))
            λ newer.
              Ensures-option (lookup msg.remote_info vc.idc.node_map) _ _
                (λ unknown. ensured _ (stuck, refl, refl))
                λ n known.
                  rw (count_votes_collecting vid (vote vid msg.remote_info vc) stuck)
                    (ensured _ (stuck, refl, refl))

  handle_response-Stuck :
      (vc : ViewChangeCom) (msg : ViewMsg)
      → vc.state ≡ collecting
      → Ensures (Stuck vc) (handle_response modulus vc msg)
  unfolding handle_response change
  handle_response-Stuck vc msg stuck =
      Ensures-step (deref (get_elem? msg.contents 0)) _ λ byte_vid e.
        Ensures-step (bytes_to_uint byte_vid) _ λ vid e'. rw stuck (
          ensured _ (
            if-cases (Stuck vc) (from_main modulus vc msg.remote_info) (change vid vc) vc
              (stuck, refl, refl) (stuck, refl, refl)))

  -- Once a replica has replaced the main node and waits for the response of the new one, no sequence
  -- of requests and responses makes it replace a main node again, however many nodes ask for however
  -- new a view: it keeps its nodes and its main node, and it keeps collecting. A call may panic.
  pub handle_all-Stuck :
      (vc : ViewChangeCom) (events : List Event)
      → vc.state ≡ collecting
      → Ensures (Stuck vc) (handle_all modulus vc events)
  unfolding handle_all handle
  handle_all-Stuck vc [] stuck = ensured _ (stuck, refl, refl)
  handle_all-Stuck vc (requested msg ∷ events) stuck =
      Ensures-bind _
        (Ensures-bind _ (handle_request-Stuck vc msg stuck) λ out still. ensured _ still)
        λ after (still, nodes, main).
          Ensures-weaken (handle_all-Stuck after events still)
            λ last (stays, same_nodes, same_main). (stays, same_nodes ∙ nodes, same_main ∙ main)
  handle_all-Stuck vc (responded msg ∷ events) stuck =
      Ensures-bind _ (handle_response-Stuck vc msg stuck) λ after (still, nodes, main).
        Ensures-weaken (handle_all-Stuck after events still)
          λ last (stays, same_nodes, same_main). (stays, same_nodes ∙ nodes, same_main ∙ main)
