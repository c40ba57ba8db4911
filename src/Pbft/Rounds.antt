-- ===== src/Pbft/Rounds.antt =====
-- What the handlers of pre-prepare and reply messages and the proposals keep and execute.
use mathlib.Core.List.{Mem}
use monosulfide.Prelude.{
  panics, Option, ℕ, Bool-cases, inl, inr, ◌≡◌, refl, ◌∙◌, Bool, false, List, none, some, ◌==◌,
  if◌then◌else◌, ok, deref, bytes, bytes_eq, nat_eq, arith, Ensures, Ensures-bind, Ensures-step,
  Ensures-test, ensured, Ensures-weaken, Outcome, panic, not, ◌==◌, ◌>>=◌, sym, ◌&&◌,
}
use monosulfide.Content.{Bytes}
use monosulfide.IdChain.{is_waiting, is_running}
use monosulfide.Pbft.{
  enable, Request, PrePrepare, Vote, same_node, Domain, Votes, Con, send, Sent, sent_prepare,
  sent_reply,
}
use monosulfide.Proposals.{Proposal}
use monosulfide.Pbft.Reply.{handle_reply}
use monosulfide.Pbft.Propose.{new_pre_prepare_msg, propose_popped}
use monosulfide.Pbft.Handlers.{
  answer_proposal, accept_proposal, handle_pre_prepare, check_proposal, join_epoch, leave_epoch,
  verify,
}
use monosulfide.Pbft.Ballots.{handle_prepare-Good}
use monosulfide.Pbft.Execution.{record_pre_prepare-value, Heard-send, Sound, Progress, idle, Good}

module _ {W : Type 0} (d : Domain W) (visit : Votes → Votes)
    (visits : (m : Votes) (kv : Bytes × Vote) → Mem kv (visit m) → Mem kv m) (log : List Vote) where
  answer_proposal-Good :
      (con : Con W) (msg : PrePrepare) (flag : Bool) (w : W)
      → Sound d log con
      → Ensures (Good d log con.executed con.sequence) (answer_proposal d visit con msg flag w)
  unfolding answer_proposal send
  answer_proposal-Good con msg flag w f =
      let sends = λ (m : Sent). Heard-send d con.is_commit_broadcast con.sent m f.1 in
      Ensures-test flag
        (λ right.
          Ensures-test (is_running (d.running_node w))
            (λ running.
              ensured _ (idle refl refl, (f.0, sends (sent_prepare msg.digest msg.seq_id), f.2)))
            (λ other. handle_prepare-Good d visit visits log _ _ f))
        (λ wrong.
          Ensures-step (deref (d.main w)) _
            λ _ _. ensured _ (idle refl refl, (f.0, sends (sent_reply msg.seq_id false), f.2)))

  -- A waiting node takes the number of an epoch reset.
  abbrev pub joins_epoch : Con W → PrePrepare → Bool
  joins_epoch con msg =
      bytes_eq msg.request.request_type d.epoch_reset && is_waiting (d.running_node con.world)

  -- The number at which a node handles a pre-prepare message.
  abbrev pub number_for : Con W → PrePrepare → ℕ
  number_for con msg = if joins_epoch con msg then msg.seq_id else con.sequence

  -- What joining an epoch leaves alone.
  abbrev Joined : Con W → PrePrepare → Con W → Type 0
  Joined con msg after =
      (after.executed ≡ con.executed)
      × (after.sequence ≡ number_for con msg)
      × (Sound d log con → Sound d log after)
      × (number_for after msg ≡ number_for con msg)

  join_epoch-Joined : (con : Con W) (msg : PrePrepare) → Joined con msg (join_epoch d visit con msg)
  unfolding join_epoch
  join_epoch-Joined con msg = elim (Bool-cases (joins_epoch con msg)) [
    | inl joins ↦ rw joins (refl, refl, λ f. f, ground arith)
    | inr stays ↦ rw stays (refl, refl, λ f. f, rw stays refl)
  ]

  leave_epoch-Good :
      (con : Con W) (msg : PrePrepare) (temp_seq : ℕ)
      → temp_seq ≡ con.sequence
      → Sound d log con
      → Ensures
          (Good d log con.executed con.sequence)
          (ok (leave_epoch d visit temp_seq con msg, none))
  unfolding leave_epoch
  leave_epoch-Good con msg temp_seq e f = elim (Bool-cases (joins_epoch con msg)) [
    | inl joins ↦ rw joins (ensured _ (idle refl e, f))
    | inr stays ↦ rw stays (ensured _ (idle refl refl, f))
  ]

  checked-Good :
      (con : Con W) (msg : PrePrepare) (temp_seq : ℕ)
      → temp_seq ≡ con.sequence
      → Sound d log con
      → Ensures (Good d log con.executed con.sequence) (
          verify d visit con msg >>= λ result.
          if result
          then accept_proposal d visit con msg
          else ok (leave_epoch d visit temp_seq con msg, none))
  unfolding accept_proposal
  checked-Good con msg temp_seq e f = Ensures-step (verify d visit con msg) _ λ result checked.
      Ensures-test result
        (λ right.
          Ensures-step (d.verify msg.request con.world) _
            λ (flag, w) _. answer_proposal-Good con msg flag w f)
        (λ wrong. leave_epoch-Good con msg temp_seq e f)

  Progress-same :
      (executed executed' : List (ℕ × Request)) (s s' : ℕ) (con : Con W)
      → executed ≡ executed'
      → s ≡ s'
      → Progress d log executed s con
      → Progress d log executed' s' con
  Progress-same executed executed' s s' con e e' p = rw (← e, ← e') p

  check_proposal-Good :
      (con : Con W) (msg : PrePrepare)
      → Sound d log con
      → Ensures (Good d log con.executed (number_for con msg)) (check_proposal d visit con msg)
  unfolding check_proposal
  check_proposal-Good con msg f =
      let once = join_epoch d visit con msg in
      let twice = join_epoch d visit once msg in
      let (same, at_number, sound, again) = join_epoch-Joined con msg in
      let (same', at_number', sound', _) = join_epoch-Joined once msg in
      Ensures-weaken
        (checked-Good twice msg once.sequence (at_number ∙ sym again ∙ sym at_number')
          (sound' (sound f)))
        λ out (progress, kept). (
          Progress-same twice.executed con.executed twice.sequence (number_for con msg) out.0
              (same' ∙ same) (at_number' ∙ again) progress,
          kept,
        )

  pub handle_pre_prepare-Good :
      (con : Con W) (msg : PrePrepare)
      → Sound d log con
      → Ensures (Good d log con.executed (number_for con msg)) (handle_pre_prepare d visit con msg)
  unfolding handle_pre_prepare
  handle_pre_prepare-Good con msg f =
      Ensures-bind _ (record_pre_prepare-value d visit con msg)
        λ r e. rw e (check_proposal-Good (record con { pre_pre_msgs = r.pre_pre_msgs }) msg f)

  -- A proposal leaves what was executed and the number as they are.
  abbrev pub Kept : Con W → Con W → Type 0
  Kept con after =
      (after.executed ≡ con.executed)
      × (after.sequence ≡ con.sequence)
      × (Sound d log con → Sound d log after)

  enable-Kept : (con : Con W) → Ensures (Kept con) (enable con)
  unfolding enable
  enable-Kept con =
      Ensures-test con.propose_locked (λ _. ensured _ (refl, refl, λ f. f)) (λ _. panics)

  -- A write to a map that is not made.
  unmade :
      {X : Type 0} {P : Con W → Type 0} (m : Option X) (f : X → Outcome (Con W))
      → m ≡ none
      → Ensures P (elim m [ none ↦ panic | some x ↦ f x ])
  unmade none f nil = panics
  unmade (some x) f nil = absurd (ground (arith, nil))

  -- HandleReply returns only where it has nothing to do: cntReplyConfirm is nil.
  pub handle_reply-Kept :
      (con : Con W) (seq : ℕ) (remote_info : Bytes) (result : Bool)
      → con.cnt_reply_confirm ≡ none
      → Ensures (λ after. after ≡ con) (handle_reply d con seq remote_info result)
  unfolding handle_reply
  handle_reply-Kept con seq remote_info result nil =
      Ensures-test (not (same_node (some (d.self con.world)) (d.main con.world))) (λ _. panics)
        λ _.
          Ensures-test (con.sequence == seq) (λ _. unmade con.cnt_reply_confirm _ nil)
            λ _. ensured con refl

  pub propose_popped-Kept :
      (as_request : Proposal → Request) (con : Con W) (pro : Option Proposal)
      → Ensures (Kept con) (propose_popped d as_request con pro)
  unfolding propose_popped new_pre_prepare_msg send
  propose_popped-Kept as_request con none = enable-Kept con
  propose_popped-Kept as_request con (some p) =
      Ensures-step (d.prepare (as_request p) con.world) _ λ (ready, w) _.
        Ensures-test ready
          (λ go.
            ensured _
              (refl, refl, λ f. (f.0, Heard-send d con.is_commit_broadcast con.sent _ f.1, f.2)))
          (λ stop. enable-Kept (record con { world = w }))
