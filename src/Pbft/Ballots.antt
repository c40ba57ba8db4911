-- ===== src/Pbft/Ballots.antt =====
-- What the handlers of prepare and commit messages keep and execute.
use mathlib.Core.List.{Mem, mem-cons, mem-cons_self, mem-cons_of_mem}
use mathlib.Core.Logic.Or
use mathlib.Core.Path.{subst}
use monosulfide.Prelude.{
  sym, true, Option, ℕ, Bool-cases, Option-cases, inl, inr, ◌≡◌, refl, Bool, false, List, [], ◌∷◌,
  length, leb, ltb, ◌==◌, if◌then◌else◌, deref, bytes, bytes_eq, nat_eq, arith, Ensures,
  Ensures-step, Ensures-test, ensured, bytes_eq_iff,
}
use monosulfide.Prelude.Maps.{lookup, insert, lookup-insert}
use monosulfide.Content.{Bytes}
use monosulfide.IdChain.{is_running}
use monosulfide.Pbft.{
  Request, Vote, Domain, Votes, Con, read, prepared, committed, send, Sent, sent_commit,
}
use monosulfide.Pbft.Handlers.{
  handle_commit_msgs, handle_commit, broadcast_commit, prepare_loop, handle_prepare_msgs,
  handle_prepare, count_prepare, prepare_ready,
}
use monosulfide.Pbft.Execution.{
  Once, Ballot, Filed, Heard, Heard-send, Sound, idle, Good, commit_loop-Good,
}

read-insert :
    (s t : ℕ) (v : Votes) (m : List (ℕ × Votes))
    → read [] t (insert s v m) ≡ (if s == t then v else read [] t m)
unfolding read
read-insert s t v m = ground (arith, lookup-insert s t v m)

insert-Once : (k : Bytes) (v : Vote) (m : Votes) → Once m → Once (insert k v m)
unfolding insert lookup
insert-Once k v [] once = (refl, tt)
insert-Once k v ((j, w) ∷ m) once = elim (Bool-cases (bytes_eq j k)) [
  | inl same ↦ rw same (rw (← (bytes_eq_iff j k).0 same) once.0, once.1)
  | inr other ↦ rw other (
    ground (arith, lookup-insert k j v m, bytes_eq_iff j k, bytes_eq_iff k j, once.0, other),
    insert-Once k v m once.1,
  )
]

-- An entry of a map after a write is the new one or an old one.
mem-insert :
    (k : Bytes) (v : Vote) (m : Votes) (kv : Bytes × Vote) (P : Bytes × Vote → Type 0)
    → ((x : Bytes × Vote) → IsProp (P x))
    → Mem kv (insert k v m)
    → P (k, v)
    → ((x : Bytes × Vote) → Mem x m → P x)
    → P kv
unfolding insert
mem-insert k v [] kv P prop there new old =
    Or.elim (prop kv) (mem-cons.0 there) (λ e. subst P (sym e) new) (old kv)
mem-insert k v ((j, w) ∷ m) kv P prop there new old = elim (Bool-cases (bytes_eq j k)) [
  | inl hit ↦
      Or.elim (prop kv) (mem-cons.0 (rw hit at there)) (λ e. subst P (sym e) new)
        (λ t. old kv (mem-cons_of_mem _ t))
  | inr miss ↦
      Or.elim (prop kv) (mem-cons.0 (rw miss at there))
        (λ e. subst P (sym e) (old (j, w) mem-cons_self))
        (λ t. mem-insert k v m kv P prop t new (λ x y. old x (mem-cons_of_mem _ y)))
]

Ballot-prop : (log : List Vote) (s : ℕ) (kv : Bytes × Vote) → IsProp (Ballot log s kv)
Ballot-prop log s kv = hlevel

Filed-insert :
    (log : List Vote) (v : Vote) (m : List (ℕ × Votes))
    → Mem v log
    → Filed log m
    → Filed log (insert v.seq_id (insert v.remote_info v (read [] v.seq_id m)) m)
Filed-insert log v m came f t = elim (Bool-cases (v.seq_id == t)) [
  | inl hit ↦
      let here : v.seq_id ≡ t = ground (arith, hit) in
      rw (read-insert v.seq_id t (insert v.remote_info v (read [] v.seq_id m)) m, hit)
        (
          insert-Once v.remote_info v (read [] v.seq_id m) (f v.seq_id).0,
          λ kv there.
              mem-insert v.remote_info v (read [] v.seq_id m) kv (Ballot log t) (Ballot-prop log t)
                there (here, refl, came) (λ x y. rw (← here) ((f v.seq_id).1 x y)),
        )
  | inr miss ↦
      rw (read-insert v.seq_id t (insert v.remote_info v (read [] v.seq_id m)) m, miss) (f t)
]

module _ {W : Type 0} (d : Domain W) (visit : Votes → Votes)
    (visits : (m : Votes) (kv : Bytes × Vote) → Mem kv (visit m) → Mem kv m) (log : List Vote) where
  handle_commit_msgs-Good :
      (con : Con W)
      → Sound d log con
      → Ensures (Good d log con.executed con.sequence) (handle_commit_msgs d visit con)
  unfolding handle_commit_msgs
  handle_commit_msgs-Good con f =
      Ensures-test (ltb (length (read [] con.sequence con.commit_msgs)) (d.threshold con.world))
        (λ few. ensured _ (idle refl refl, f))
        (λ enough.
          commit_loop-Good d log con (read [] con.sequence con.commit_msgs)
            (visit (read [] con.sequence con.commit_msgs)) (f.0 con.sequence).0 (f.0 con.sequence).1
            (ground (arith, enough)) (visits _) f)

  pub handle_commit-Good :
      (con : Con W) (msg : Vote)
      → Mem msg log
      → Sound d log con
      → Ensures (Good d log con.executed con.sequence) (handle_commit d visit con msg)
  unfolding handle_commit
  handle_commit-Good con msg came f =
      Ensures-test (read 0 msg.seq_id con.proposal_status == committed)
        (λ late. ensured _ (idle refl refl, f))
        (λ pending.
          handle_commit_msgs-Good _ (Filed-insert log msg con.commit_msgs came f.0, f.1, f.2))

  Heard-mark :
      (digest : Bytes) (marks : List (Bytes × Bool)) (sent : List Sent)
      → (((w : W) → is_running (d.running_node w) ≡ true)
          → (seq : ℕ) × Mem (sent_commit digest seq) sent)
      → Heard d marks sent
      → Heard d (insert digest true marks) sent
  unfolding read
  Heard-mark digest marks sent own heard key marked runs = elim (Bool-cases (bytes_eq digest key)) [
    | inl hit ↦ rw (← (bytes_eq_iff digest key).0 hit) (own runs)
    | inr miss ↦ heard key (ground (arith, marked, lookup-insert digest key true marks, miss)) runs
  ]

  broadcast_commit-Good :
      (con : Con W) (msg : Vote)
      → Sound d log con
      → Ensures (Good d log con.executed con.sequence) (broadcast_commit d visit con msg)
  unfolding broadcast_commit send
  broadcast_commit-Good con msg f = elim (Bool-cases (is_running (d.running_node con.world))) [
    | inl running ↦
        let sent = sent_commit msg.digest msg.seq_id ∷ con.sent in
        rw running (
          handle_commit_msgs-Good _ (
            f.0,
            Heard-mark msg.digest con.is_commit_broadcast sent (λ runs. (msg.seq_id, mem-cons_self))
                (Heard-send d con.is_commit_broadcast con.sent (sent_commit msg.digest msg.seq_id)
                  f.1),
            f.2,
          ))
    | inr other ↦ rw other (
        handle_commit_msgs-Good _ (
          f.0,
          Heard-mark msg.digest con.is_commit_broadcast con.sent
              (λ runs. absurd (ground (arith, runs con.world, other))) f.1,
          f.2,
        ))
  ]

  prepare_loop-Good :
      (req : Option Request) (con : Con W) (msgs : Votes)
      → Sound d log con
      → Ensures (Good d log con.executed con.sequence) (prepare_loop d visit req con msgs)
  unfolding prepare_loop count_prepare
  prepare_loop-Good req con [] f = ensured _ (idle refl refl, f)
  prepare_loop-Good req con ((k, msg) ∷ msgs) f =
      Ensures-step (deref (lookup msg.remote_info (d.nodes con.world))) _ λ sender found.
        let con' = count_prepare d visit con sender msg.digest in
        Ensures-test (read false msg.digest con'.is_commit_broadcast)
          (λ done. ensured _ (idle refl refl, f))
          (λ fresh. Ensures-step (deref req) _ λ r known.
            Ensures-test (prepare_ready d visit con' r msg.digest)
              (λ full. broadcast_commit-Good con' msg f)
              (λ more. prepare_loop-Good req con' msgs f))

  handle_prepare_msgs-Good :
      (con : Con W)
      → Sound d log con
      → Ensures (Good d log con.executed con.sequence) (handle_prepare_msgs d visit con)
  unfolding handle_prepare_msgs
  handle_prepare_msgs-Good con f =
      Ensures-test (ltb (length (read [] con.sequence con.prepare_msgs)) (d.threshold con.world))
        (λ few. ensured _ (idle refl refl, f))
        (λ enough. elim (Option-cases (lookup con.sequence con.proposal_pool)) [
          | inl missing ↦ rw missing (ensured _ (idle refl refl, f))
          | inr (req, there) ↦ rw there (prepare_loop-Good req con _ f)
        ])

  pub handle_prepare-Good :
      (con : Con W) (msg : Vote)
      → Sound d log con
      → Ensures (Good d log con.executed con.sequence) (handle_prepare d visit con msg)
  unfolding handle_prepare
  handle_prepare-Good con msg f =
      Ensures-step (deref (lookup msg.remote_info (d.nodes con.world))) _ λ sender found.
        Ensures-test (leb prepared (read 0 msg.seq_id con.proposal_status))
          (λ late. ensured _ (idle refl refl, f)) (λ pending. handle_prepare_msgs-Good _ f)
