-- ===== src/Pbft/Execution.antt =====
-- What a PBFT instance executes, over all orders in which messages arrive.
use mathlib.Core.List.{Mem, mem-cons_self, mem-cons_of_mem, not-mem-nil}
use monosulfide.Prelude.{
  panics, Option-cases, ℕ, Eq, beq_refl, Bool-cases, inl, inr, ◌≡◌, refl, Bool, true, false, List,
  [], ◌∷◌, Option, none, some, length, leb, ◌==◌, if◌then◌else◌, ok, deref, deref_ok, bytes, nat_eq,
  arith, Ensures, Ensures-bind, Ensures-step, Ensures-test, ensured,
}
use monosulfide.Prelude.Maps.{lookup, insert, delete, lookup-insert, lookup-delete}
use monosulfide.Content.{Bytes}
use monosulfide.IdChain.{present, is_running}
use monosulfide.Pbft.{
  Sent, sent_commit, same_node, Request, PrePrepare, Vote, Domain, Votes, Con, read, request_at,
  nxt_seq, enable,
}
use monosulfide.Pbft.Handlers.{
  record_pre_prepare, Next, after_execution, executed_state, execute_round, count_commit,
  commit_ready, commit_loop,
}

-- Every sender stands once in the votes.
abbrev pub Once : Votes → Type 0
Once [] = Unit
Once ((k, v) ∷ votes) = (lookup k votes ≡ none) × Once votes

-- The entry is a commit message that has come, for the number `s`, under its sender.
abbrev pub Ballot : List Vote → ℕ → Bytes × Vote → Type 0
Ballot log s kv = (kv.1.seq_id ≡ s) × (kv.1.remote_info ≡ kv.0) × Mem kv.1 log

-- Under each number stand messages for that number out of `log`, one of each sender.
abbrev pub Filed : List Vote → List (ℕ × Votes) → Type 0
Filed log m =
    (s : ℕ) → Once (read [] s m) × ((kv : Bytes × Vote) → Mem kv (read [] s m) → Ballot log s kv)

module _ {W : Type 0} (d : Domain W) where
  -- A node that runs in every world has sent its commit for each digest whose commit it marks as
  -- broadcast.
  abbrev pub Heard : List (Bytes × Bool) → List Sent → Type 0
  Heard marks sent =
      (key : Bytes)
      → read false key marks ≡ true
      → ((w : W) → is_running (d.running_node w) ≡ true)
      → (seq : ℕ) × Mem (sent_commit key seq) sent

  pub Heard-send :
      (marks : List (Bytes × Bool)) (sent : List Sent) (msg : Sent)
      → Heard marks sent
      → Heard marks (msg ∷ sent)
  Heard-send marks sent msg heard key marked runs =
      let (seq, there) = heard key marked runs in (seq, mem-cons_of_mem _ there)

module _ {W : Type 0} (d : Domain W) (log : List Vote) where
  -- What all handlers keep: each commit that has come stands under its number, marked commits are sent, and
  -- cntReplyConfirm is never made.
  abbrev pub Sound : Con W → Type 0
  Sound con =
      Filed log con.commit_msgs
      × Heard d con.is_commit_broadcast con.sent
      × (con.cnt_reply_confirm ≡ none)

  -- Commit messages for the number `seq` out of `log`, of as many different senders as the threshold asks
  -- for, of which one is for the digest `key`.
  abbrev pub Quorum : W → Bytes → ℕ → Type 0
  Quorum w key seq =
      (ballots : Votes) × Once ballots
      × ((kv : Bytes × Vote) → Mem kv ballots → Ballot log seq kv)
      × (leb (d.threshold w) (length ballots) ≡ true)
      × ((kv : Bytes × Vote) × Mem kv ballots × (kv.1.digest ≡ key))

  -- The request `req` was executed under the number `seq` in a world where the count of the commits to one
  -- digest had as many nodes as the threshold asks for, on as many commit messages for that number. The
  -- commit of this node for it is marked as broadcast, and was sent by a node that runs in every world.
  pub record Certificate (con : Con W) (seq : ℕ) (req : Request) : Type 0 where
    pub before : W
    pub key : Bytes
    pub executed_in : d.execute req before ≡ ok con.world
    pub broadcast : read false key con.is_commit_broadcast ≡ true
    pub announced :
        ((w : W) → is_running (d.running_node w) ≡ true)
        → (number : ℕ) × Mem (sent_commit key number) con.sent
    pub quorum : Quorum before key seq
    pub enough : leb (d.threshold before) (length (read [] key con.cnt_commit_confirm)) ≡ true
    pub pooled : request_at seq con.proposal_pool ≡ some req
    pub replied : read false seq con.is_reply ≡ true

  -- From the requests and the number of before to the state of after: nothing was executed, or one
  -- request was, under that number, with a certificate.
  pub data Progress (executed : List (ℕ × Request)) (sequence : ℕ) (con : Con W) : Type 0 where
    idle : con.executed ≡ executed → con.sequence ≡ sequence → Progress executed sequence con
    ran :
        (req : Request)
        → con.executed ≡ (sequence, req) ∷ executed
        → con.sequence ≡ nxt_seq sequence
        → Certificate con sequence req
        → Progress executed sequence con

  abbrev pub Good : List (ℕ × Request) → ℕ → Next W → Type 0
  Good executed sequence out = Progress executed sequence out.0 × Sound out.0

  pub read-delete :
      (s t : ℕ) (m : List (ℕ × Votes))
      → read [] t (delete s m) ≡ (if s == t then [] else read [] t m)
  unfolding read
  read-delete s t m = ground (arith, lookup-delete s t m)

  Filed-delete : (s : ℕ) (m : List (ℕ × Votes)) → Filed log m → Filed log (delete s m)
  Filed-delete s m f t = elim (Bool-cases (s == t)) [
    | inl hit ↦ rw (read-delete s t m, hit) (tt, λ kv there. elim (not-mem-nil there) [ ])
    | inr miss ↦ rw (read-delete s t m, miss) (f t)
  ]

  pub read_insert_self :
      {K : Type 0} {V : Type 0} ⦃e : Eq K⦄ (k : K) (v x : V) (m : List (K × V))
      → read x k (insert k v m) ≡ v
  unfolding read
  read_insert_self ⦃e⦄ k v x m = ground (arith, lookup-insert k k v m, beq_refl k)

  after_execution-keeps :
      (P : Next W → Type 0) (con : Con W)
      → ((locked : Bool) (next : Option PrePrepare)
          → P (record con { propose_locked = locked }, next))
      → Ensures P (after_execution d con)
  unfolding after_execution enable
  after_execution-keeps P con keeps =
      Ensures-test (same_node (some (d.self con.world)) (d.main con.world))
        (λ _.
          Ensures-bind
            {P = λ con'. (locked : Bool) × (con' ≡ record con { propose_locked = locked })}
            (λ con'. ok (con', none))
            (Ensures-test con.propose_locked (λ _. ensured _ (false, refl)) (λ _. panics))
            (λ con' (locked, e). rw e (ensured _ (keeps locked none))))
        (λ _. ensured _ (keeps con.propose_locked (lookup con.sequence con.pre_pre_msgs)))

  execute_round-Good :
      (con : Con W) (key : Bytes) (seq : ℕ)
      → seq ≡ con.sequence
      → leb (d.threshold con.world) (length (read [] key con.cnt_commit_confirm)) ≡ true
      → read false key con.is_commit_broadcast ≡ true
      → Quorum con.world key con.sequence
      → Sound con
      → Ensures (Good con.executed con.sequence) (execute_round d con seq)
  unfolding execute_round executed_state
  execute_round-Good con key seq same enough broadcast quorum f = rw same (
      Ensures-step (deref (request_at con.sequence con.proposal_pool)) _ λ req pooled.
        Ensures-step (d.execute req con.world) _ λ w done.
          after_execution-keeps (Good con.executed con.sequence)
            (executed_state d con con.sequence req w)
            λ locked next. (
              ran req refl refl (record {
                before = con.world;
                key = key;
                executed_in = done;
                broadcast = broadcast;
                announced = f.1 key broadcast;
                quorum = quorum;
                enough = enough;
                pooled = deref_ok _ req pooled;
                replied = read_insert_self con.sequence true false con.is_reply;
              }),
              (Filed-delete con.sequence con.commit_msgs f.0, f.1, f.2),
            ))

  pub commit_loop-Good :
      (con : Con W) (ballots msgs : Votes)
      → Once ballots
      → ((kv : Bytes × Vote) → Mem kv ballots → Ballot log con.sequence kv)
      → leb (d.threshold con.world) (length ballots) ≡ true
      → ((kv : Bytes × Vote) → Mem kv msgs → Mem kv ballots)
      → Sound con
      → Ensures (Good con.executed con.sequence) (commit_loop d con msgs)
  unfolding commit_loop count_commit commit_ready
  commit_loop-Good con ballots [] once own many sub f = ensured _ (idle refl refl, f)
  commit_loop-Good con ballots ((k, msg) ∷ msgs) once own many sub f =
      Ensures-step (deref (lookup msg.remote_info (d.nodes con.world))) _ λ sender found.
        let con' = count_commit d con sender msg.digest in
        let there = sub (k, msg) mem-cons_self in
        Ensures-test (commit_ready d con' msg)
          (λ full.
            execute_round-Good con' msg.digest msg.seq_id (own (k, msg) there).0
              (ground (arith, full)) (ground (arith, full))
              (ballots, once, own, many, ((k, msg), there, refl)) f)
          (λ more.
            commit_loop-Good con' ballots msgs once own many
              (λ kv held. sub kv (mem-cons_of_mem _ held)) f)

module _ {W : Type 0} (d : Domain W) (visit : Votes → Votes) where
  -- Recording a pre-prepare message changes PrePreMsgs alone.
  pub record_pre_prepare-value :
      (con : Con W) (msg : PrePrepare)
      → Ensures
          (λ r. r ≡ record con { pre_pre_msgs = r.pre_pre_msgs })
          (record_pre_prepare d visit con msg)
  unfolding record_pre_prepare
  record_pre_prepare-value con msg = elim (Option-cases (lookup msg.seq_id con.pre_pre_msgs)) [
    | inl new ↦ rw (record_pre_prepare, new) (ensured _ refl)
    | inr (_, old) ↦
        rw (record_pre_prepare, old)
          (Ensures-test (same_node (present (d.nodes con.world) msg.remote_info) (d.main con.world))
            (λ main. ensured con refl) (λ other. panics))
  ]
