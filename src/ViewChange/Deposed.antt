-- ===== src/ViewChange/Deposed.antt =====
-- When HandleRequest replaces the main node, and by which node.
use monosulfide.Prelude.{
  ℕ, Outcome, ok, ◌>>=◌, ◌∙◌, ◌≡◌, ◌≤◌, ◌<◌, refl, Bool, true, false, ◌&&◌, some, arith, bytes,
  nat_eq, length, leb, leb→le, if-cases, deref, get_elem?, Ensures, ensured, panics, Ensures-bind,
  Ensures-step, Ensures-test, Ensures-weaken, Ensures-deref, Ensures-option,
}
use monosulfide.Prelude.Maps.{lookup, insert}
use monosulfide.Content.{Bytes}
use monosulfide.Crypt.{bytes_to_uint}
use monosulfide.IdChain.{Node, IdChain, threshold, present}
use monosulfide.IdChain.Chosen.{RunningId, select_main-RunningId}
use monosulfide.ViewChange.{
  ViewChangeCom, ViewMsg, votes_of, vote, change, depose, main_of, dismissed, lead, follow,
  is_main_node, count_votes, handle_request, stand_by, collecting, ViewState, is_stand_by,
}
use monosulfide.ViewChange.Votes.{Counted, Distinct, Stay, Stay-insert, Known-Stay, vote-Counted}

-- The old main node of the chain, which no longer runs, and a running node that is main in its place;
-- the other nodes are as before.
pub data Deposed (before after : IdChain) : Type 0 where
  deposed :
      (old : Bytes) (n : Node) (new : Bytes)
      → before.main_node ≡ some old
      → lookup old before.node_map ≡ some n
      → after.node_map ≡ insert old (dismissed n) before.node_map
      → RunningId after.node_map new
      → after.main_node ≡ present after.node_map new
      → Deposed before after

main_of-value :
    (idc : IdChain)
    → Ensures
        (λ kn. (idc.main_node ≡ some kn.0) × (lookup kn.0 idc.node_map ≡ some kn.1))
        (main_of idc)
main_of-value idc = Ensures-bind _ (Ensures-deref idc.main_node) λ key main.
    Ensures-bind _ (Ensures-deref (lookup key idc.node_map)) λ n found. ensured _ (main, found)

standing : (b : Bool) (s : ViewState) → (b && is_stand_by s) ≡ true → (b ≡ true) × (s ≡ stand_by)
standing true stand_by e = (refl, refl)
standing true collecting e = ground (arith, e)
standing false s e = ground (arith, e)

module _ (modulus : Bytes → Bytes) where
  depose-Deposed : (idc : IdChain) → Ensures (Deposed idc) (depose modulus idc)
  unfolding depose
  depose-Deposed idc = Ensures-bind _ (main_of-value idc) λ (key, n) (main, found).
      let m = insert key (dismissed n) idc.node_map in
      Ensures-bind _ (select_main-RunningId modulus m idc.rand_num)
        λ new_main (new, runs, is_new). ensured _ (deposed key n new main found refl runs is_new)

  -- What the end of HandleRequest leaves alone.
  abbrev Ended : ViewChangeCom → ViewChangeCom → Type 0
  Ended vc after =
      (after.idc.node_map ≡ vc.idc.node_map)
      × (after.idc.main_node ≡ vc.idc.main_node)
      × (after.count ≡ vc.count)

  lead-Ended : (vid : ℕ) (vc : ViewChangeCom) → Ensures (Ended vc) (lead modulus vid vc)
  unfolding lead change
  lead-Ended vid vc =
      Ensures-test vc.propose_locked (λ locked. ensured _ (refl, refl, refl)) λ open_lock. panics

  follow-Ended : (vid : ℕ) (vc : ViewChangeCom) → Ensures (Ended vc) (follow modulus vid vc)
  unfolding follow change
  follow-Ended vid vc = Ensures-step (main_of vc.idc) _ λ main e. ensured _ (
      if-cases (Ended vc) _ (change vid vc) (record vc { state = collecting }) (refl, refl, refl)
        (refl, refl, refl))

  Counted-same :
      (vc after : ViewChangeCom)
      → after.count ≡ vc.count
      → Stay vc.idc.node_map after.idc.node_map
      → Counted vc
      → Counted after
  Counted-same vc after counts stay counted vid = rw counts (
    (counted vid).0,
    Known-Stay vc.idc.node_map after.idc.node_map (votes_of vid vc) stay (counted vid).1,
  )

  Deposed-Stay :
      (before after : IdChain) → Deposed before after → Stay before.node_map after.node_map
  Deposed-Stay before after (deposed old n new was found gone runs is_new) =
      rw gone (Stay-insert old (dismissed n) before.node_map)

  Deposed-same :
      (idc before after : IdChain)
      → after.node_map ≡ before.node_map
      → after.main_node ≡ before.main_node
      → Deposed idc before
      → Deposed idc after
  Deposed-same idc before after nodes main (deposed old n new was found gone runs is_new) =
      deposed old n new was found (nodes ∙ gone) (rw nodes runs) (rw (main, nodes) is_new)

  -- The view that a message asks for.
  abbrev pub asked : ViewMsg → Outcome ℕ
  asked msg = deref (get_elem? msg.contents 0) >>= bytes_to_uint

  -- What a request does to the identity chain: nothing, or a change of the main node, for the view that
  -- it asks for, with the votes for that view, of different registered nodes.
  pub data Handled (vc : ViewChangeCom) (msg : ViewMsg) (after : ViewChangeCom) : Type 0 where
    unchanged : after.idc ≡ vc.idc → Handled vc msg after
    replaced :
        (vid : ℕ)
        → asked msg ≡ ok vid
        → vc.idc.view_id < vid
        → vc.state ≡ stand_by
        → threshold vc.idc.node_map ≤ length (votes_of vid after)
        → Distinct vc.idc.node_map (votes_of vid after)
        → Deposed vc.idc after.idc
        → Handled vc msg after

  count_votes-Handled :
      (vid : ℕ) (msg : ViewMsg) (vc : ViewChangeCom)
      → asked msg ≡ ok vid
      → vc.idc.view_id < vid
      → Counted vc
      → Ensures (λ after. Handled vc msg after × Counted after) (count_votes modulus vid vc)
  unfolding count_votes
  count_votes-Handled vid msg vc wants newer counted =
      Ensures-test
        (leb (threshold vc.idc.node_map) (length (votes_of vid vc)) && is_stand_by vc.state)
        (λ enough.
          let (reached, waits) = standing _ vc.state enough in
          Ensures-bind _ (depose-Deposed vc.idc) λ idc gone.
            Ensures-step (main_of idc) _ λ new_main e.
              Ensures-weaken
                (Ensures-test (is_main_node modulus (record vc { idc = idc }))
                  (λ main. lead-Ended vid (record vc { idc = idc }))
                  λ other. follow-Ended vid (record vc { idc = idc }))
                λ after (nodes, main, counts). (
                  replaced vid wants newer waits
                      (rw counts
                        (leb→le (threshold vc.idc.node_map) (length (votes_of vid vc)) reached))
                      (rw counts (counted vid)) (Deposed-same vc.idc idc after.idc nodes main gone),
                  Counted-same vc after counts (rw nodes (Deposed-Stay vc.idc idc gone)) counted,
                ))
        λ few. ensured _ (unchanged refl, counted)

  Handled-vote :
      (vid : ℕ) (key : Bytes) (msg : ViewMsg) (vc after : ViewChangeCom)
      → Handled (vote vid key vc) msg after
      → Handled vc msg after
  unfolding vote
  Handled-vote vid key msg vc after (unchanged same) = unchanged same
  Handled-vote vid key msg vc after (replaced v wants newer waits enough voters gone) =
      replaced v wants newer waits enough voters gone

  -- A request for a view leaves the identity chain as it is, or it replaces the main node: then the
  -- replica was on stand-by, the view that the message asks for is newer than that of the chain, and
  -- the votes for it, each of another node of the node map, reach the threshold; the old main node no
  -- longer runs, the new one is registered under the id of a running node, and the other nodes are as
  -- before. Where the votes of each view are one for each node, of nodes of the node map alone, they
  -- stay so. The call may panic.
  pub handle_request-Handled :
      (vc : ViewChangeCom) (msg : ViewMsg)
      → Counted vc
      → Ensures (λ out. Handled vc msg out.1 × Counted out.1) (handle_request modulus vc msg)
  unfolding handle_request vote
  handle_request-Handled vc msg counted =
      Ensures-step (deref (get_elem? msg.contents 0)) _ λ byte_vid e.
        Ensures-step (bytes_to_uint byte_vid) _ λ vid e'.
          Ensures-test (leb vid vc.idc.view_id) (λ old. ensured _ (unchanged refl, counted))
            λ newer.
              Ensures-option (lookup msg.remote_info vc.idc.node_map) _ _
                (λ unknown. ensured _ (unchanged refl, counted))
                λ n known.
                  Ensures-bind _
                    (count_votes-Handled vid msg (vote vid msg.remote_info vc) (rw (e, e') refl)
                      (ground (arith, newer)) (vote-Counted vid msg.remote_info n vc known counted))
                    λ after (handled, kept).
                      ensured _ (Handled-vote vid msg.remote_info msg vc after handled, kept)
