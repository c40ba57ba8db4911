-- ===== src/Pbft/Steps.antt =====
-- A PBFT instance as a state machine: the messages arrive in any order, the world changes between
-- them, and the early pre-prepare message that a handler hands on is handled before the next one.
use mathlib.Core.List.{mem-cons_self, mem-cons_of_mem, Mem, not-mem-nil}
use monosulfide.Prelude.{
  true, Option, ℕ, Bool-cases, inl, inr, ◌≡◌, refl, Bool, List, [], ◌∷◌, none, some, length,
  if◌then◌else◌, ok, bytes, nat_eq, arith, Ensures-value,
}
use monosulfide.Prelude.Maps.{lookup}
use monosulfide.Content.{Bytes}
use monosulfide.Pbft.{
  Request, PrePrepare, Vote, Domain, Votes, Con, read, nxt_seq, new_pbft_consensus,
}
use monosulfide.Proposals.{Proposal}
use monosulfide.Pbft.Reply.{handle_reply}
use monosulfide.Pbft.Propose.{propose_popped}
use monosulfide.Pbft.Handlers.{Next, handle_commit, handle_prepare, handle_pre_prepare}
use monosulfide.Pbft.Ballots.{handle_prepare-Good, handle_commit-Good}
use monosulfide.Pbft.Rounds.{
  joins_epoch, number_for, handle_pre_prepare-Good, propose_popped-Kept, handle_reply-Kept,
}
use monosulfide.Pbft.Execution.{Sound, Progress, idle, ran, Good}

-- The numbers of the executed requests, the last one first, and the number that comes next: they go from
-- zero on, each once and in order, but where the node joined an epoch. Each join stands in the last list,
-- as the number of the requests executed before it and the number that it went on with.
pub data InOrder : ℕ → List (ℕ × Request) → List (ℕ × ℕ) → Type 0 where
  first : InOrder 0 [] []
  next_number :
      {s : ℕ} {executed : List (ℕ × Request)} {joins : List (ℕ × ℕ)} (req : Request)
      → InOrder s executed joins
      → InOrder (nxt_seq s) ((s, req) ∷ executed) joins
  joined :
      {s : ℕ} {executed : List (ℕ × Request)} {joins : List (ℕ × ℕ)} (n : ℕ)
      → InOrder s executed joins
      → InOrder n executed ((length executed, n) ∷ joins)

module _ {W : Type 0} (d : Domain W) (visit : Votes → Votes)
    (visits : (m : Votes) (kv : Bytes × Vote) → Mem kv (visit m) → Mem kv m) where
  -- The steps of an instance: a message that a handler handed on, a message from outside, a proposal
  -- of its own, or a change of the world.
  pub data Step : Next W → Next W → Type 0 where
    early :
        {con : Con W} {msg : PrePrepare} {out : Next W}
        → handle_pre_prepare d visit con msg ≡ ok out
        → Step (con, some msg) out
    pre_prepare :
        {con : Con W} {out : Next W} (msg : PrePrepare)
        → handle_pre_prepare d visit con msg ≡ ok out
        → Step (con, none) out
    prepare :
        {con : Con W} {out : Next W} (msg : Vote)
        → handle_prepare d visit con msg ≡ ok out
        → Step (con, none) out
    commit :
        {con : Con W} {out : Next W} (msg : Vote)
        → handle_commit d visit con msg ≡ ok out
        → Step (con, none) out
    reply :
        {con after : Con W} (seq : ℕ) (remote_info : Bytes) (result : Bool)
        → handle_reply d con seq remote_info result ≡ ok after
        → Step (con, none) (after, none)
    propose :
        {con after : Con W} (as_request : Proposal → Request) (pro : Option Proposal)
        → propose_popped d as_request (record con { propose_locked = true }) pro ≡ ok after
        → Step (con, none) (after, none)
    outside : {con : Con W} (w : W) → Step (con, none) (record con { world = w }, none)

  -- The number at which a step begins: that of the proposer where a waiting node joins an epoch.
  abbrev pub number_of : {s t : Next W} → Step s t → ℕ
  number_of (early {con} {msg} h) = number_for d visit visits [] con msg
  number_of (pre_prepare {con} msg h) = number_for d visit visits [] con msg
  number_of (prepare {con} msg h) = con.sequence
  number_of (commit {con} msg h) = con.sequence
  number_of (reply {con} seq remote_info result h) = con.sequence
  number_of (propose {con} as_request pro h) = con.sequence
  number_of (outside {con} w) = con.sequence

  abbrev joined_by : Con W → PrePrepare → List (ℕ × ℕ) → List (ℕ × ℕ)
  joined_by con msg joins =
      if joins_epoch d visit visits [] con msg
      then (length con.executed, msg.seq_id) ∷ joins
      else joins

  -- The joins after a step.
  abbrev pub joins_after : {s t : Next W} → Step s t → List (ℕ × ℕ) → List (ℕ × ℕ)
  joins_after (early {con} {msg} h) joins = joined_by con msg joins
  joins_after (pre_prepare {con} msg h) joins = joined_by con msg joins
  joins_after (prepare msg h) joins = joins
  joins_after (commit msg h) joins = joins
  joins_after (reply seq remote_info result h) joins = joins
  joins_after (propose as_request pro h) joins = joins
  joins_after (outside w) joins = joins

  -- The commit messages that have come after a step.
  abbrev pub log_after : {s t : Next W} → Step s t → List Vote → List Vote
  log_after (early h) log = log
  log_after (pre_prepare msg h) log = log
  log_after (prepare msg h) log = log
  log_after (commit msg h) log = msg ∷ log
  log_after (reply seq remote_info result h) log = log
  log_after (propose as_request pro h) log = log
  log_after (outside w) log = log

  -- The states that can be reached, with the commit messages that have come and the joins on the way.
  pub data Reachable (w : W) : List Vote → List (ℕ × ℕ) → Next W → Type 0 where
    start : Reachable w [] [] (new_pbft_consensus w, none)
    extend :
        {log : List Vote} {joins : List (ℕ × ℕ)} {s t : Next W}
        → Reachable w log joins s
        → (st : Step s t) → Reachable w (log_after st log) (joins_after st joins) t

  Sound-more :
      (log : List Vote) (msg : Vote) (con : Con W) → Sound d log con → Sound d (msg ∷ log) con
  Sound-more log msg con f = (
    λ s. (
      (f.0 s).0,
      λ kv there.
          let (at_number, named, came) = (f.0 s).1 kv there in
          (at_number, named, mem-cons_of_mem _ came),
    ),
    f.1,
    f.2,
  )

  Step-Good :
      {s t : Next W} (log : List Vote) (st : Step s t)
      → Sound d log s.0
      → Good d (log_after st log) s.0.executed (number_of st) t
  Step-Good log (early {con} {msg} h) f =
      Ensures-value (rw h at (handle_pre_prepare-Good d visit visits log con msg f))
  Step-Good log (pre_prepare {con} msg h) f =
      Ensures-value (rw h at (handle_pre_prepare-Good d visit visits log con msg f))
  Step-Good log (prepare {con} msg h) f =
      Ensures-value (rw h at (handle_prepare-Good d visit visits log con msg f))
  Step-Good log (commit {con} msg h) f = Ensures-value (
      rw h at (
        handle_commit-Good d visit visits (msg ∷ log) con msg mem-cons_self
          (Sound-more log msg con f)))
  Step-Good log (reply {con} seq remote_info result h) f =
      let same =
        Ensures-value
          (rw h at (handle_reply-Kept d visit visits log con seq remote_info result f.2)) in
      rw same (idle refl refl, f)
  Step-Good log (propose {con} as_request pro h) f =
      let (same, number, kept) = Ensures-value (
        rw h at (
          propose_popped-Kept d visit visits log as_request (record con { propose_locked = true })
            pro)) in
      (idle same number, kept f)
  Step-Good log (outside w) f = (idle refl refl, f)

  Reachable-Sound :
      {w : W} {log : List Vote} {joins : List (ℕ × ℕ)} {s : Next W}
      → Reachable w log joins s
      → Sound d log s.0
  unfolding new_pbft_consensus read lookup
  Reachable-Sound start = (
    λ t. (tt, λ kv there. absurd (not-mem-nil there)),
    λ key marked. absurd (ground (arith, marked)),
    refl,
  )
  Reachable-Sound (extend {log = log} r st) = (Step-Good log st (Reachable-Sound r)).1

  -- Each step from a state that can be reached begins at the current number, or at that of the proposer
  -- where a waiting node takes an epoch reset. It executes nothing and keeps that number, or executes
  -- the request that the pool has under it and moves to the next number, with a certificate: commit
  -- messages for that number have come from as many different senders as the threshold asks for, one of
  -- them for a digest whose count of commits has as many nodes, and for that digest the node has marked
  -- its own commit as broadcast, and has sent it if it runs in every world. That the others are for the
  -- same digest, and that it is the digest of the request, is not claimed. `visit` gives entries of the map only.
  pub Step-executes :
      (w : W) (log : List Vote) (joins : List (ℕ × ℕ)) (s t : Next W)
      → Reachable w log joins s
      → (st : Step s t) → Progress d (log_after st log) s.0.executed (number_of st) t.0
  Step-executes w log joins s t r st = (Step-Good log st (Reachable-Sound r)).0

  InOrder-begin :
      {joins : List (ℕ × ℕ)} {s t : Next W} (st : Step s t)
      → InOrder s.0.sequence s.0.executed joins
      → InOrder (number_of st) s.0.executed (joins_after st joins)
  InOrder-begin (early {con} {msg} h) o =
      elim (Bool-cases (joins_epoch d visit visits [] con msg)) [
        | inl joins ↦ rw joins (joined msg.seq_id o)
        | inr stays ↦ rw stays o
      ]
  InOrder-begin (pre_prepare {con} msg h) o =
      elim (Bool-cases (joins_epoch d visit visits [] con msg)) [
        | inl joins ↦ rw joins (joined msg.seq_id o)
        | inr stays ↦ rw stays o
      ]
  InOrder-begin (prepare msg h) o = o
  InOrder-begin (commit msg h) o = o
  InOrder-begin (reply seq remote_info result h) o = o
  InOrder-begin (propose as_request pro h) o = o
  InOrder-begin (outside w) o = o

  InOrder-Progress :
      {log : List Vote} {executed : List (ℕ × Request)} {sequence : ℕ} {joins : List (ℕ × ℕ)}
      {con : Con W}
      → Progress d log executed sequence con
      → InOrder sequence executed joins
      → InOrder con.sequence con.executed joins
  InOrder-Progress (idle same number) o = rw (same, number) o
  InOrder-Progress (ran req more number c) o = rw (more, number) (next_number req o)

  -- In every state that can be reached, the executed requests have the numbers from zero on, each once
  -- and in order, modulo 2 ^ 64, and `sequence` is the number that comes next; only where a waiting node
  -- has taken the number of an epoch reset do they go on with that number. The steps are the handlers
  -- of the messages, the reply included, proposals and changes of the world, and `visit` gives entries
  -- of the map only.
  pub executed-InOrder :
      (w : W) (log : List Vote) (joins : List (ℕ × ℕ)) (s : Next W)
      → Reachable w log joins s
      → InOrder s.0.sequence s.0.executed joins
  unfolding new_pbft_consensus
  executed-InOrder w log joins s start = first
  executed-InOrder w log joins s (extend {log = early_log} {joins = before} r st) =
      InOrder-Progress (Step-executes w early_log before _ s r st)
        (InOrder-begin st (executed-InOrder w early_log before _ r))
