-- ===== src/Sync/Accepted.antt =====
-- What CheckBlock does to the local chain: the blocks it appends, and that none is left.
use monosulfide.Prelude.{
  ℕ, zero, suc, ◌≤◌, ◌<◌, ◌≡◌, refl, Bool, true, false, List, [], ◌∷◌, Option, none, some, ltb,
  Outcome, ok, panic, out_of_fuel, ◌>>=◌, bind_ok, get_elem?, if◌then◌else◌, length, bytes, nat_eq,
  Ends, ended, Ends-bind, Ends-test, Ends-deref, Ends-weaken, Stops, Ends-Stops, Ends-option, arith,
  Option-cases, inl, inr, ap, ◌∙◌,
}
use monosulfide.Prelude.Maps.{lookup, delete, length-delete-le}
use mathlib.Core.List.{Memᴰ}
use mathlib.Core.List.Memᴰ.{head, tail}
use monosulfide.Content.{Bytes}
use monosulfide.Sync.{Chains, Inbox, Rules, settle}
use monosulfide.Sync.Blocks.{
  threshold, check_entry, check_held, find_ready, check_loop, check_block,
}

length-delete-lt :
    {V : Type 0} (k : Bytes) (m : List (Bytes × V)) (v : V)
    → lookup k m ≡ some v
    → length (delete k m) < length m
unfolding lookup delete
length-delete-lt k [] v h = ground (arith, h)
length-delete-lt k ((j, w) ∷ m) v h =
    ground (arith, h, length-delete-lt k m v, length-delete-le k m)

held_same : {B : Type 0} (x y : B) → some x ≡ some y → x ≡ y
held_same x y e = ground (arith, e)

held_value :
    {B : Type 0} (o : Outcome Bool) (few : Bool) (x y : B)
    → (if few then ok none else (o >>= λ r. ok (if r then some x else none))) ≡ ok (some y)
    → (few ≡ false) × (o ≡ ok true) × (some x ≡ some y)
held_value o true x y e = ground (arith, e)
held_value (ok true) false x y e = (refl, refl, ground (arith, e))
held_value (ok false) false x y e = ground (arith, e)
held_value panic false x y e = ground (arith, e)
held_value out_of_fuel false x y e = ground (arith, e)

module _ {B W : Type 0} (ch : Chains B W) (rules : Rules B W)
    (visit : List (Bytes × ℕ) → List Bytes) where
  -- What CheckBlock asks of a hash before it appends: its block is there, its acknowledgements reach
  -- the threshold of the shard, and the rules let it through.
  abbrev pub Eligible : W → ℕ → Inbox B → Bytes → B → Type 0
  Eligible w rid inbox h block =
      ((n : ℕ) × (least : ℕ) × (lookup h inbox.req_cnt ≡ some n)
        × (threshold ch rules visit w rid ≡ ok least)
        × (least ≤ n))
      × (lookup h inbox.blocks ≡ some block)
      × (rules.ready w inbox rid h block ≡ ok true)

  -- The world and the inbox after the appends of the eligible blocks of the given hashes, in order.
  pub data Accepts (rid : ℕ) : W → Inbox B → List Bytes → W → Inbox B → Type 0 where
    settled : {w : W} {inbox : Inbox B} → Accepts rid w inbox [] w inbox
    accepts :
        {w : W} {inbox : Inbox B} {h : Bytes} {block : B} {next : W} {hs : List Bytes} {last : W}
        {final : Inbox B}
        → Eligible w rid inbox h block
        → ch.append w rid block ≡ ok next
        → Accepts rid next (settle h inbox) hs last final
        → Accepts rid w inbox (h ∷ hs) last final

  pub data Result (rid : ℕ) (w : W) (inbox : Inbox B) : W × Inbox B → Type 0 where
    result :
        {last : W} {final : Inbox B} (hs : List Bytes)
        → Accepts rid w inbox hs last final
        → ((h : Bytes) (block : B) → ¬ Eligible last rid final h block)
        → Result rid w inbox (last, final)

  check_held-Eligible :
      (w : W) (rid : ℕ) (inbox : Inbox B) (h : Bytes) (n : ℕ) (o : Option B) (block : B)
      → check_held ch rules visit w rid inbox h n o ≡ ok (some block)
      → ((least : ℕ) × (threshold ch rules visit w rid ≡ ok least) × (least ≤ n))
        × (o ≡ some block)
        × (rules.ready w inbox rid h block ≡ ok true)
  unfolding check_held
  check_held-Eligible w rid inbox h n none block e = ground (arith, e)
  check_held-Eligible w rid inbox h n (some held) block e =
      let (least, enough, passed) = bind_ok (threshold ch rules visit w rid) _ (some block) e in
      let (many, let_through, same) =
        held_value (rules.ready w inbox rid h held) (ltb n least) held block passed in
      ((least, enough, ground (arith, many)), same, rw (← held_same held block same) let_through)

  check_entry-Eligible :
      (w : W) (rid : ℕ) (inbox : Inbox B) (h : Bytes) (block : B)
      → check_entry ch rules visit w rid inbox h ≡ ok (some block)
      → Eligible w rid inbox h block
  unfolding check_entry
  check_entry-Eligible w rid inbox h block e = elim (Option-cases (lookup h inbox.req_cnt)) [
    | inl missing ↦ ground (arith, missing, e)
    | inr (n, counted) ↦
        let held =
          check_held-Eligible w rid inbox h n (lookup h inbox.blocks) block
            (ground (arith, counted, e)) in
        ((n, held.0.0, counted, held.0.1, held.0.2), held.1, held.2)
  ]

  Eligible-check_entry :
      (w : W) (rid : ℕ) (inbox : Inbox B) (h : Bytes) (block : B)
      → Eligible w rid inbox h block
      → check_entry ch rules visit w rid inbox h ≡ ok (some block)
  unfolding check_entry check_held
  Eligible-check_entry w rid inbox h block ((n, least, counted, enough, le), held, let_through) =
      rw (check_entry, counted, held, check_held, enough, let_through) (ground (arith, le))

  -- What find_ready says of the keys it has seen.
  data Found (w : W) (rid : ℕ) (inbox : Inbox B) (keys : List Bytes)
      : Option (Bytes × B) → Type 0 where
    nowhere :
        ((h : Bytes) → Memᴰ h keys → check_entry ch rules visit w rid inbox h ≡ ok none)
        → Found w rid inbox keys none
    found_at :
        (h : Bytes) (block : B)
        → check_entry ch rules visit w rid inbox h ≡ ok (some block)
        → Found w rid inbox keys (some (h, block))

  Found-cons :
      (w : W) (rid : ℕ) (inbox : Inbox B) (h : Bytes) (keys : List Bytes) (o : Option (Bytes × B))
      → check_entry ch rules visit w rid inbox h ≡ ok none
      → Found w rid inbox keys o
      → Found w rid inbox (h ∷ keys) o
  Found-cons w rid inbox h keys none passed (nowhere rest) =
      nowhere λ k m. elim m [ head e ↦ rw e passed | tail later ↦ rest k later ]
  Found-cons w rid inbox h keys o passed (found_at k block e) = found_at k block e

  module _
      (ends : (w : W) (inbox : Inbox B) (rid : ℕ) (h : Bytes) (block : B)
        → Stops (rules.ready w inbox rid h block)) where
    check_held-Stops :
        (w : W) (rid : ℕ) (inbox : Inbox B) (h : Bytes) (n : ℕ) (o : Option B)
        → Ends {_, 0} (λ found. Unit {0}) (check_held ch rules visit w rid inbox h n o)
    unfolding check_held
    check_held-Stops w rid inbox h n none = ended none tt
    check_held-Stops w rid inbox h n (some block) =
        Ends-bind _
          (Ends-deref {_, 0, _} {Q = λ n. Unit {0}} (get_elem? (ch.global_shards w) rid) _
            λ shard e. ended _ tt)
          λ enough e.
            Ends-test (ltb n enough) (λ few. ended none tt)
              λ many. Ends-bind _ (ends w inbox rid h block) λ r let_through. ended _ tt

    check_entry-Stops :
        (w : W) (rid : ℕ) (inbox : Inbox B) (h : Bytes)
        → Stops (check_entry ch rules visit w rid inbox h)
    unfolding check_entry
    check_entry-Stops w rid inbox h = elim (Option-cases (lookup h inbox.req_cnt)) [
      | inl missing ↦ rw (check_entry, missing) (ended none refl)
      | inr (n, counted) ↦
          rw (check_entry, counted)
            (Ends-Stops (check_held-Stops w rid inbox h n (lookup h inbox.blocks)))
    ]

    find_ready-Ends :
        (w : W) (rid : ℕ) (inbox : Inbox B) (keys : List Bytes)
        → Ends (Found w rid inbox keys) (find_ready ch rules visit w rid inbox keys)
    unfolding find_ready
    find_ready-Ends w rid inbox [] = ended none (nowhere λ h m. elim m [ ])
    find_ready-Ends w rid inbox (h ∷ keys) =
        Ends-bind _ (check_entry-Stops w rid inbox h) λ found e.
          Ends-option found _ _
            (λ nothing.
              Ends-weaken (find_ready-Ends w rid inbox keys)
                λ o seen. Found-cons w rid inbox h keys o (e ∙ ap ok nothing) seen)
            λ block it. ended (some (h, block)) (found_at h block (e ∙ ap ok it))

    module _
        (visits : (h : Bytes) (m : List (Bytes × ℕ)) (n : ℕ)
          → lookup h m ≡ some n
          → Memᴰ h (visit m))
        (appends : (w : W) (rid : ℕ) (block : B) → Stops (ch.append w rid block)) where
      Result-accept :
          (w : W) (rid : ℕ) (inbox : Inbox B) (h : Bytes) (block : B) (next : W)
          → Eligible w rid inbox h block
          → ch.append w rid block ≡ ok next
          → (out : W × Inbox B) → Result rid next (settle h inbox) out
          → Result rid w inbox out
      Result-accept w rid inbox h block next eligible appended (last, final)
            (result hs more none_left) =
          result (h ∷ hs) (accepts eligible appended more) none_left

      check_loop-Found :
          (fuel : ℕ) (w : W) (rid : ℕ) (inbox : Inbox B) (found : Option (Bytes × B))
          → Found w rid inbox (visit inbox.req_cnt) found
          → ((next : W) (h : Bytes) (n : ℕ)
              → lookup h inbox.req_cnt ≡ some n
              → Ends
                  (Result rid next (settle h inbox))
                  (check_loop ch rules visit fuel next rid (settle h inbox)))
          → Ends (Result rid w inbox) (elim found [
            | none ↦ ok (w, inbox)
            | some (h, block) ↦ ch.append w rid block >>= λ after.
                check_loop ch rules visit fuel after rid (settle h inbox)
          ])
      check_loop-Found fuel w rid inbox none (nowhere none_left) again = ended _ (
          result [] settled λ h block eligible. ground (
            arith,
            none_left h (visits h inbox.req_cnt eligible.0.0 eligible.0.2),
            Eligible-check_entry w rid inbox h block eligible,
          ))
      check_loop-Found fuel w rid inbox o (found_at h block e) again =
          let eligible = check_entry-Eligible w rid inbox h block e in
          Ends-bind _ (appends w rid block) λ next appended.
            Ends-weaken (again next h eligible.0.0 eligible.0.2)
              (Result-accept w rid inbox h block next eligible appended)

      check_loop-Result :
          (fuel : ℕ) (w : W) (rid : ℕ) (inbox : Inbox B)
          → length inbox.req_cnt < fuel
          → Ends (Result rid w inbox) (check_loop ch rules visit fuel w rid inbox)
      unfolding check_loop settle
      check_loop-Result zero w rid inbox lt = ground (arith, lt)
      check_loop-Result (suc fuel) w rid inbox lt =
          Ends-bind _ (find_ready-Ends w rid inbox (visit inbox.req_cnt)) λ found seen.
            check_loop-Found fuel w rid inbox found seen λ next h n counted.
              check_loop-Result fuel next rid (settle h inbox)
                (omega (arith, lt, length-delete-lt h inbox.req_cnt n counted))

      -- CheckBlock comes to an end, if an append and the rules do, in any order in which the range
      -- visits every hash that is counted: it has appended, one after the other, blocks that were
      -- there with as many acknowledgements as the threshold of their shard asks for and that the
      -- rules let through, and nothing else, and it leaves no such block behind.
      pub check_block-Result :
          (w : W) (rid : ℕ) (inbox : Inbox B)
          → Ends (Result rid w inbox) (check_block ch rules visit w rid inbox)
      unfolding check_block
      check_block-Result w rid inbox =
          check_loop-Result (suc (length inbox.req_cnt)) w rid inbox (omega arith)
