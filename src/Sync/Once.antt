-- ===== src/Sync/Once.antt =====
-- No block of another shard is appended twice: an acknowledgement of a finished hash is not counted,
-- and CheckBlock appends only what is counted.
use monosulfide.Prelude.{
  ℕ, ◌+◌, ◌≡◌, refl, Bool, true, false, List, [], ◌∷◌, Option, none, some, ok, ◌>>=◌, if◌then◌else◌,
  bytes, bytes_eq, bytes_eq_refl, nat_eq, arith, Bool-cases, inl, inr, All, Ensures, ensured,
  Ensures-bind, Ensures-test, Ensures-step, Ensures-weaken, Ends-Ensures, Ensures-option, ◌==◌,
  deref, get_elem?, Stops, ◌≢◌, bytes_eq_iff,
}
use monosulfide.Prelude.Maps.{lookup, insert, lookup-delete, lookup-insert}
use mathlib.Core.List.{Memᴰ}
use monosulfide.Content.{Bytes}
use monosulfide.Sync.{
  Chains, Inbox, Inboxes, Message, or_empty, Rules, settle, flag, count_of, count_ack,
}
use monosulfide.Sync.Accepted.{Accepts, settled, accepts, Result, result, check_block-Result}
use monosulfide.Sync.Blocks.{acknowledge, receive, receive_block, handle_request}

-- The hashes differ from each other.
abbrev pub Distinct : List Bytes → Type 0
Distinct [] = Unit
Distinct (h ∷ hs) = All (λ k. k ≢ h) hs × Distinct hs

All-weaken :
    {A : Type 0} (P Q : A → Type 0) (xs : List A) → ((x : A) → P x → Q x) → All P xs → All Q xs
All-weaken P Q [] weaken all = tt
All-weaken P Q (x ∷ xs) weaken all = (weaken x all.0, All-weaken P Q xs weaken all.1)

module _ {B : Type 0} where
  -- A finished hash is not counted.
  abbrev pub Clean : Inbox B → Type 0
  Clean inbox = (h : Bytes) → flag inbox h ≡ true → lookup h inbox.req_cnt ≡ none

  settle-Clean : (h : Bytes) (inbox : Inbox B) → Clean inbox → Clean (settle h inbox)
  unfolding settle
  settle-Clean h inbox clean k finished = ground (
    arith,
    clean k,
    finished,
    lookup-insert h k true inbox.finish,
    lookup-delete h k inbox.req_cnt,
  )

  count_ack-Clean :
      (h : Bytes) (inbox : Inbox B) → flag inbox h ≡ false → Clean inbox → Clean (count_ack inbox h)
  unfolding count_ack
  count_ack-Clean h inbox open_hash clean k finished = ground (
    arith,
    clean k,
    finished,
    open_hash,
    lookup-insert h k (count_of inbox h + 1) inbox.req_cnt,
    bytes_eq_iff h k,
  )

  settle-flag :
      (h k : Bytes) (inbox : Inbox B)
      → flag (settle h inbox) k ≡ (if bytes_eq h k then true else flag inbox k)
  unfolding settle
  settle-flag h k inbox = ground (arith, lookup-insert h k true inbox.finish)

  settle-unfinished :
      (h k : Bytes) (inbox : Inbox B)
      → flag (settle h inbox) k ≡ false
      → (flag inbox k ≡ false) × (k ≢ h)
  settle-unfinished h k inbox unfinished = (
    ground (arith, settle-flag h k inbox, unfinished),
    λ same.
        ground (arith, settle-flag h k inbox, unfinished, bytes_eq_refl h, same, bytes_eq_iff h k),
  )

  unmarked :
      (h : Bytes) (inbox : Inbox B)
      → Clean inbox
      → (n : ℕ) → lookup h inbox.req_cnt ≡ some n
      → flag inbox h ≡ false
  unmarked h inbox clean n counted = ground (arith, clean h, counted)

  -- What appends of the given hashes, one after the other, did to the marks of an inbox.
  abbrev pub Marked : Inbox B → List Bytes → Inbox B → Type 0
  Marked inbox hs final =
      Clean final
      × Distinct hs
      × All (λ h. flag inbox h ≡ false) hs
      × All (λ h. flag final h ≡ true) hs
      × ((h : Bytes) → flag inbox h ≡ true → flag final h ≡ true)

module _ {B W : Type 0} (ch : Chains B W) (rules : Rules B W)
    (visit : List (Bytes × ℕ) → List Bytes) where
  Accepts-Marked :
      (rid : ℕ) (w : W) (inbox : Inbox B) (hs : List Bytes) (last : W) (final : Inbox B)
      → Accepts ch rules visit rid w inbox hs last final
      → Clean inbox
      → Marked inbox hs final
  Accepts-Marked rid w inbox hs last final settled clean = (clean, tt, tt, tt, λ h marked. marked)
  Accepts-Marked rid w inbox (h ∷ hs) last final (accepts eligible appended more) clean =
      let (clean_end, distinct, unfinished, finished, stays) =
        Accepts-Marked rid _ (settle h inbox) hs last final more (settle-Clean h inbox clean) in
      (
        clean_end,
        (
          All-weaken _ _ hs (λ k open_hash. (settle-unfinished h k inbox open_hash).1) unfinished,
          distinct,
        ),
        (
          unmarked h inbox clean eligible.0.0 eligible.0.2,
          All-weaken _ _ hs (λ k open_hash. (settle-unfinished h k inbox open_hash).0) unfinished,
        ),
        (stays h (ground (arith, settle-flag h h inbox, bytes_eq_refl h)), finished),
        λ k marked. stays k (ground (arith, settle-flag h k inbox, marked)),
      )

  -- The inbox of a shard, where there may be none yet.
  abbrev pub inbox_of : ℕ → Inboxes B → Inbox B
  inbox_of sid inboxes = or_empty (lookup sid inboxes)

  abbrev pub AllClean : Inboxes B → Type 0
  AllClean inboxes = (sid : ℕ) → Clean (inbox_of sid inboxes)

  -- What a message leads to: the blocks of the shard `sid` that it completes are appended in turn.
  pub data Acknowledged (w : W) (inboxes : Inboxes B) : Bool × W × Inboxes B → Type 0 where
    acknowledged :
        {answer : Bool} {last : W} {final : Inbox B} {after : Inboxes B} (sid : ℕ)
        (counted : Inbox B) (hs : List Bytes)
        → Accepts ch rules visit sid w counted hs last final
        → Marked (inbox_of sid inboxes) hs final
        → inbox_of sid after ≡ final
        → AllClean after
        → Acknowledged w inboxes (answer, last, after)

  inbox_of-insert :
      (sid : ℕ) (inbox : Inbox B) (inboxes : Inboxes B)
      → inbox_of sid (insert sid inbox inboxes) ≡ inbox
  inbox_of-insert sid inbox inboxes = ground (arith, lookup-insert sid sid inbox inboxes)

  insert-AllClean :
      (sid : ℕ) (inbox : Inbox B) (inboxes : Inboxes B)
      → Clean inbox
      → AllClean inboxes
      → AllClean (insert sid inbox inboxes)
  insert-AllClean sid inbox inboxes clean all k = elim (Bool-cases (sid == k)) [
    | inl same ↦ rw (lookup-insert sid k inbox inboxes, same) clean
    | inr other ↦ rw (lookup-insert sid k inbox inboxes, other) (all k)
  ]

  -- A received inbox has the marks and the counts of the one before.
  Keeps : Inbox B → Option (Bytes × Inbox B) → Type 0
  Keeps inbox none = Unit
  Keeps inbox (some (h, kept)) = (kept.finish ≡ inbox.finish) × (kept.req_cnt ≡ inbox.req_cnt)

  taken-Keeps :
      (taken : Bool) (inbox : Inbox B) (h : Bytes) (kept : Inbox B)
      → kept.finish ≡ inbox.finish
      → kept.req_cnt ≡ inbox.req_cnt
      → Keeps inbox (if taken then some (h, kept) else none)
  unfolding Keeps
  taken-Keeps true inbox h kept marks counts = (marks, counts)
  taken-Keeps false inbox h kept marks counts = tt

  Clean-same :
      (inbox kept : Inbox B)
      → kept.finish ≡ inbox.finish
      → kept.req_cnt ≡ inbox.req_cnt
      → Clean inbox
      → Clean kept
  Clean-same inbox kept marks counts clean = rw (marks, counts) clean

  Marked-same :
      (inbox kept : Inbox B) (hs : List Bytes) (final : Inbox B)
      → kept.finish ≡ inbox.finish
      → Marked kept hs final
      → Marked inbox hs final
  Marked-same inbox kept hs final marks marked = rw (← marks) marked

  receive-Keeps :
      (is_main : Bool) (w : W) (sid : ℕ) (inbox : Inbox B) (contents : List Bytes)
      → Ensures (Keeps inbox) (receive ch rules visit is_main w sid inbox contents)
  unfolding receive receive_block Keeps
  receive-Keeps is_main w sid inbox contents =
      Ensures-test is_main
        (λ main. Ensures-step (deref (get_elem? contents 0)) _ λ byte_block e.
          Ensures-step (ch.decode byte_block) _ λ block e'.
            Ensures-option (ch.blocks w (ch.hash block)) _ _
              (λ unknown.
                Ensures-step (rules.takes w inbox sid block) _
                  λ taken e''. ensured _ (taken-Keeps taken inbox (ch.hash block) _ refl refl))
              λ known e''. ensured _ (refl, refl))
        λ replica. Ensures-step (rules.read_ack contents) _ λ h e. ensured _ (refl, refl)

  module _
      (ends : (w : W) (inbox : Inbox B) (rid : ℕ) (h : Bytes) (block : B)
        → Stops (rules.ready w inbox rid h block))
      (visits : (h : Bytes) (m : List (Bytes × ℕ)) (n : ℕ) → lookup h m ≡ some n → Memᴰ h (visit m))
      (appends : (w : W) (rid : ℕ) (block : B) → Stops (ch.append w rid block)) where
    count_ack-Marked :
        (w : W) (sid : ℕ) (inbox kept : Inbox B) (h : Bytes)
        → Clean (count_ack kept h)
        → kept.finish ≡ inbox.finish
        → (out : W × Inbox B) → Result ch rules visit sid w (count_ack kept h) out
        → (counted : Inbox B) × (hs : List Bytes) × Accepts ch rules visit sid w counted hs out.0
            out.1
          × Marked inbox hs out.1
    unfolding count_ack
    count_ack-Marked w sid inbox kept h clean marks (last, final) (result hs accepted none_left) = (
      count_ack kept h,
      hs,
      accepted,
      Marked-same inbox (count_ack kept h) hs final marks
          (Accepts-Marked sid w (count_ack kept h) hs last final accepted clean),
    )

    acknowledge-Marked :
        (w : W) (sid : ℕ) (inbox kept : Inbox B) (h : Bytes)
        → Clean inbox
        → kept.finish ≡ inbox.finish
        → kept.req_cnt ≡ inbox.req_cnt
        → Ensures
            (λ out.
              (counted : Inbox B) × (hs : List Bytes) × Accepts ch rules visit sid w counted hs
                out.0 out.1
              × Marked inbox hs out.1)
            (acknowledge ch rules visit w sid kept h)
    unfolding acknowledge count_ack
    acknowledge-Marked w sid inbox kept h clean marks counts =
        let kept_clean = Clean-same inbox kept marks counts clean in
        Ensures-test (flag kept h)
          (λ old. ensured _ (
            kept,
            [],
            settled,
            Marked-same inbox kept [] kept marks (kept_clean, tt, tt, tt, λ k marked. marked),
          ))
          λ new.
            Ensures-weaken
              (Ends-Ensures
                (check_block-Result ch rules visit ends visits appends w sid (count_ack kept h)))
              λ out r.
                count_ack-Marked w sid inbox kept h (count_ack-Clean h kept new kept_clean) marks
                  out r

    handle_received :
        (w : W) (inboxes : Inboxes B) (sid : ℕ)
        → AllClean inboxes
        → (received : Option (Bytes × Inbox B)) → Keeps (inbox_of sid inboxes) received
        → Ensures (Acknowledged w inboxes) (elim received [
          | none ↦ ok (false, w, insert sid (inbox_of sid inboxes) inboxes)
          | some (h, kept) ↦ acknowledge ch rules visit w sid kept h >>= λ out.
              ok (true, out.0, insert sid out.1 inboxes)
        ])
    unfolding Keeps
    handle_received w inboxes sid clean none keeps = ensured _ (
        acknowledged sid _ [] settled (clean sid, tt, tt, tt, λ h marked. marked)
          (inbox_of-insert sid _ inboxes) (insert-AllClean sid _ inboxes (clean sid) clean))
    handle_received w inboxes sid clean (some (h, kept)) keeps =
        Ensures-bind _
          (acknowledge-Marked w sid (inbox_of sid inboxes) kept h (clean sid) keeps.0 keeps.1)
          λ out (counted, hs, accepted, marked). ensured _ (
            acknowledged sid counted hs accepted marked (inbox_of-insert sid out.1 inboxes)
              (insert-AllClean sid out.1 inboxes marked.0 clean))

    -- HandleRequest, from inboxes in which no finished hash is counted, appends only blocks of hashes
    -- that were not finished, each hash once; they are finished afterwards, those that were finished
    -- stay so, and again no finished hash is counted. It may panic.
    pub handle_request-Acknowledged :
        (w : W) (inboxes : Inboxes B) (msg : Message)
        → AllClean inboxes
        → Ensures (Acknowledged w inboxes) (handle_request ch rules visit w inboxes msg)
    unfolding handle_request Keeps
    handle_request-Acknowledged w inboxes msg clean =
        Ensures-step (deref (lookup msg.remote_info (ch.node_map w))) _ λ node e.
          Ensures-step (deref (get_elem? (ch.global_shards w) node.shard_id)) _ λ shard e'.
            Ensures-bind _ (receive-Keeps _ w shard.sid _ msg.contents)
              λ received keeps. handle_received w inboxes shard.sid clean received keeps
