-- ===== src/CrossPrepare/Verdicts.antt =====
-- What becomes of a cross block that an i-shard refuses.
use monosulfide.Prelude.{
  ℕ, suc, ◌≡◌, refl, sym, ◌∙◌, ap, Bool, true, false, List, [], ◌∷◌, ◌==◌, Outcome, ok, panic,
  out_of_fuel, ◌>>=◌, arith, Bool-cases, inl, inr, length, map, if◌then◌else◌, bytes_eq, nat_eq,
}
use monosulfide.Prelude.Maps.{insert}
use monosulfide.Content.{Bytes}
use monosulfide.Crypt.{bytes_to_uint}
use monosulfide.CrossLock.{success_byte}
use monosulfide.CrossPrepare.{
  CrossPrepareCom, Call, returned, blocked, unlock, and_then, respond, handle_request,
  record_answer, handle_response, handle_responses,
}

-- The shards of a map, in its order.
abbrev pub shards : List (ℕ × Bool) → List ℕ
shards [] = []
shards ((k, v) ∷ m) = k ∷ shards m

unfoldable shards_insert : ℕ → List ℕ → List ℕ
shards_insert k [] = k ∷ []
shards_insert k (j ∷ ks) = let rest = shards_insert k ks in if j == k then k ∷ ks else j ∷ rest

shards-insert :
    (k : ℕ) (v : Bool) (m : List (ℕ × Bool)) → shards (insert k v m) ≡ shards_insert k (shards m)
unfolding insert shards_insert
shards-insert k v [] = refl
shards-insert k v ((j, w) ∷ m) = ground (arith, shards-insert k v m)

length-shards : (m : List (ℕ × Bool)) → length m ≡ length (shards m)
length-shards [] = refl
length-shards ((k, v) ∷ m) = ap suc (length-shards m)

-- Two calls that differ only in the kept results.
pub data Alike : Outcome Call → Outcome Call → Type 0 where
  alike_returned :
      (a : CrossPrepareCom) (m : List (ℕ × Bool))
      → shards a.acks ≡ shards m
      → Alike (ok (returned a)) (ok (returned (record a { acks = m })))
  alike_blocked : Alike (ok blocked) (ok blocked)
  alike_panic : Alike panic panic
  alike_fuel : Alike out_of_fuel out_of_fuel

module _ (shard_addr : ℕ → Outcome Bytes) (verify_block : Bytes → Outcome Bool) where
  -- An i-shard that refuses a cross block never answers: HandleRequest holds its mutex and calls
  -- Response, which locks it again.
  pub handle_request-blocked :
      (pc : CrossPrepareCom) (byte_id byte_block : Bytes) (b_shard_id : ℕ) (rest : List Bytes)
      → bytes_to_uint byte_id ≡ ok b_shard_id
      → verify_block byte_block ≡ ok false
      → handle_request shard_addr verify_block (byte_id ∷ byte_block ∷ rest) pc ≡ ok blocked
  unfolding handle_request respond
  handle_request-blocked pc byte_id byte_block b_shard_id rest id refused =
      elim (Bool-cases pc.locked) [
        | inl held ↦ rw (handle_request, held) refl
        | inr open_lock ↦ rw (handle_request, open_lock, id, refused) refl
      ]

  record_answer-acks :
      (sid : ℕ) (v w : Bool) (a : CrossPrepareCom) (m : List (ℕ × Bool))
      → shards a.acks ≡ shards m
      → (m' : List (ℕ × Bool)) × (record_answer shard_addr verify_block sid w
            (record a { acks = m })
          ≡ record (record_answer shard_addr verify_block sid v a) { acks = m' })
        × (shards (record_answer shard_addr verify_block sid v a).acks ≡ shards m')
  unfolding record_answer
  record_answer-acks sid v w a m keys =
      let keys_after : shards (insert sid v a.acks) ≡ shards (insert sid w m) =
        shards-insert sid v a.acks ∙ ap (shards_insert sid) keys ∙ sym (shards-insert sid w m) in
      let lengths : length (insert sid w m) ≡ length (insert sid v a.acks) =
        length-shards (insert sid w m)
        ∙ ap length (sym keys_after)
        ∙ sym (length-shards (insert sid v a.acks)) in
      elim (Bool-cases (length (insert sid v a.acks) == a.related_i_shard)) [
        | inl all ↦ rw (lengths, all) ([], refl, refl)
        | inr some_left ↦ rw (lengths, some_left) (insert sid w m, refl, keys_after)
      ]

  -- One answer, and what follows it.
  answer-Alike :
      (o : Outcome ℕ) (v w : Bool) (a : CrossPrepareCom) (m : List (ℕ × Bool))
      (next next' : CrossPrepareCom → Outcome Call)
      → shards a.acks ≡ shards m
      → ((a : CrossPrepareCom) (m : List (ℕ × Bool))
          → shards a.acks ≡ shards m
          → Alike (next a) (next' (record a { acks = m })))
      → Alike
          (o
            >>= (λ sid. ok (returned (record_answer shard_addr verify_block sid v a)))
            >>= (λ call. ok (unlock call))
            >>= and_then next)
          (o
            >>= (λ sid.
                ok (returned (record_answer shard_addr verify_block sid w (record a { acks = m }))))
            >>= (λ call. ok (unlock call))
            >>= and_then next')
  answer-Alike (ok sid) v w a m next next' keys follow =
      let (m', same, keys') = record_answer-acks sid v w a m keys in
      rw same (
        follow (record (record_answer shard_addr verify_block sid v a) { locked = false }) m' keys')
  answer-Alike panic v w a m next next' keys follow = alike_panic
  answer-Alike out_of_fuel v w a m next next' keys follow = alike_fuel

  -- What the i-shards answer does not matter to a b-shard: two sequences of answers from the same
  -- shards have the same effect, but for the results that are kept and never read. A cross block that
  -- i-shards refuse is committed as if they had accepted it.
  pub handle_responses-Alike :
      (answers : List (Bytes × Bytes × Bytes)) (a : CrossPrepareCom) (m : List (ℕ × Bool))
      → shards a.acks ≡ shards m
      → Alike (handle_responses shard_addr verify_block (map (λ r. r.0 ∷ r.1 ∷ []) answers) a) (
          handle_responses shard_addr verify_block
            (map (λ r. r.0 ∷ r.2 ∷ []) answers)
            (record a { acks = m }))
  unfolding handle_responses handle_response
  handle_responses-Alike [] a m keys = alike_returned a m keys
  handle_responses-Alike (r ∷ answers) a m keys = elim (Bool-cases a.locked) [
    | inl held ↦ rw held alike_blocked
    | inr open_lock ↦ rw open_lock (
        answer-Alike (bytes_to_uint r.0) (bytes_eq r.1 success_byte) (bytes_eq r.2 success_byte)
          (record a { locked = true }) m _ _ keys (handle_responses-Alike answers))
  ]
