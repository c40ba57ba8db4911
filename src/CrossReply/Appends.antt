-- ===== src/CrossReply/Appends.antt =====
-- AppendCBlock is scheduled once for a block, at the threshold.
use monosulfide.Prelude.{
  ℕ, ◌+◌, ◌%◌, ◌^◌, ◌<◌, ◌≤◌, ◌≡◌, refl, Bool, true, false, ◌&&◌, List, [], ◌∷◌, leb, ltb, ◌==◌, ok,
  if◌then◌else◌, bytes, bytes_eq, arith, ap, bytes_eq_iff, Returns, returns, Returns-bind,
  Returns-weaken,
}
use monosulfide.Prelude.Maps.{lookup, insert, lookup-insert}
use monosulfide.Content.{Bytes}
use monosulfide.IdChain.{NodeMap}
use monosulfide.Sync.{Message}
use monosulfide.CrossReply.{
  CrossReplyCom, reset, replies, only_content, shard_threshold, handle_request, handle_all,
}

-- A message that names the block `h` alone.
abbrev pub names : Bytes → Message → Bool
names h msg = elim msg.contents [ [] ↦ false | k ∷ rest ↦ bytes_eq k h ]

-- The requests for block `h` that come while a block is processed.
unfoldable pub requests_for : Bytes → List (Bool × Message) → ℕ
requests_for h [] = 0
requests_for h ((processing, msg) ∷ rest) =
    if processing && names h msg then requests_for h rest + 1 else requests_for h rest

-- The requests for block `h` that schedule AppendCBlock.
unfoldable pub appends_of : Bytes → List (Bool × Message) → List Bool → ℕ
appends_of h [] flags = 0
appends_of h (r ∷ rest) [] = 0
appends_of h ((processing, msg) ∷ rest) (scheduled ∷ flags) =
    if scheduled && names h msg then appends_of h rest flags + 1 else appends_of h rest flags

replies-insert :
    (k h : Bytes) (count : ℕ) (cr : CrossReplyCom)
    → replies (record cr { req_cnt = insert k count cr.req_cnt }) h
      ≡ (if bytes_eq k h then count else replies cr h)
replies-insert k h count cr = ground (arith, lookup-insert k h count cr.req_cnt)

replies-same :
    (k h : Bytes) (cr : CrossReplyCom) → bytes_eq k h ≡ true → replies cr k ≡ replies cr h
replies-same k h cr hit = ap (replies cr) ((bytes_eq_iff k h).0 hit)

-- What one more request adds to the requests that schedule, of `c` replies before and `r` after it.
one_request :
    (c r enough : ℕ)
    → (if c + 1 == enough
        then (if ltb (c + 1) enough && leb enough (c + 1 + r) then 1 else 0) + 1
        else (if ltb (c + 1) enough && leb enough (c + 1 + r) then 1 else 0))
      ≡ (if ltb c enough && leb enough (c + (r + 1)) then 1 else 0)
one_request c r enough = ground arith

module _ (nodes : NodeMap) (amounts : List ℕ) (enough : ℕ) where
  -- The requests have one content each and come from the nodes of a shard with this threshold.
  pub data FromShard : List (Bool × Message) → Type 0 where
    none_left : FromShard []
    next_from :
        {p : Bool} {msg : Message} {rest : List (Bool × Message)} (h : Bytes)
        → msg.contents ≡ h ∷ []
        → shard_threshold nodes amounts msg.remote_info ≡ ok enough
        → FromShard rest
        → FromShard ((p, msg) ∷ rest)

  handle_all-from :
      (h : Bytes) (cr : CrossReplyCom) (ins : List (Bool × Message))
      → FromShard ins
      → replies cr h + requests_for h ins < 2 ^ 64
      → Returns
          (λ flags. appends_of h ins flags ≡ (
            if ltb (replies cr h) enough && leb enough (replies cr h + requests_for h ins)
            then 1
            else 0))
          (handle_all nodes amounts cr ins)
  unfolding handle_all handle_request requests_for appends_of only_content
  handle_all-from h cr [] none_left few = returns [] (ground arith)
  handle_all-from h cr ((false, msg) ∷ rest) (next_from k one known more) few =
      Returns-bind _ (handle_all-from h cr rest more few) λ flags e. returns (false ∷ flags) e
  handle_all-from h cr ((true, msg) ∷ rest) (next_from k one known more) few =
      let named : names h msg ≡ bytes_eq k h = rw one refl in
      let count = (replies cr k + 1) % 2 ^ 64 in
      let after = replies-insert k h count cr in
      let alike = replies-same k h cr in
      rw (one, known)
        (Returns-bind _
          (handle_all-from h (record cr { req_cnt = insert k count cr.req_cnt }) rest more
            (ground (arith, after, alike, named, few)))
          λ flags e. returns _ (
            ground (
              arith,
              after,
              alike,
              named,
              e,
              few,
              one_request (replies cr h) (requests_for h rest) enough,
            )))

  -- While fewer than 2^64 requests for a block come from the nodes of a shard with a threshold above 0,
  -- all requests are handled; AppendCBlock is scheduled once for the block if as many as the threshold
  -- come while a block is processed, and never otherwise.
  pub handle_all-once :
      (h : Bytes) (ins : List (Bool × Message))
      → FromShard ins
      → 1 ≤ enough
      → requests_for h ins < 2 ^ 64
      → Returns
          (λ flags. appends_of h ins flags ≡ (if leb enough (requests_for h ins) then 1 else 0))
          (handle_all nodes amounts reset ins)
  unfolding reset lookup
  handle_all-once h ins from some_needed few =
      Returns-weaken (handle_all-from h reset ins from (omega (arith, few)))
        λ flags e. ground (arith, e, some_needed)
