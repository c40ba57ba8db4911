-- ===== src/CrossPrepare/Tests.antt =====
-- A b-shard with two i-shards that both refuse its block.
use monosulfide.Prelude.{
  ℕ, ◌≡◌, refl, Bool, false, List, [], ◌∷◌, none, Outcome, ok, ◌>>=◌, map, bytes_eq, nat_eq,
}
use monosulfide.Prelude.Maps.{insert}
use monosulfide.Content.{Bytes}
use monosulfide.Crypt.{bytes_to_uint}
use monosulfide.CrossLock.{success_byte, fail_byte}
use monosulfide.CrossPrepare.{
  CrossPrepareCom, Call, Scheduled, cross_commit, returned, blocked, handle_request, record_answer,
  handle_response, handle_responses,
}
use monosulfide.CrossPrepare.Verdicts.{Alike, handle_request-blocked, handle_responses-Alike}

abbrev waiting : CrossPrepareCom
waiting = record {
  local_id = 0;
  related_i_shard = 2;
  processing_block = none;
  b_shard_id = 0;
  acks = [];
  locked = false;
  scheduled = [];
  sent = [];
}

abbrev shard_byte : ℕ → Bytes
shard_byte k = 0 ∷ 0 ∷ 0 ∷ 0 ∷ 0 ∷ 0 ∷ 0 ∷ k ∷ []

abbrev addr : ℕ → Outcome Bytes
addr k = ok (k ∷ [])

abbrev refuse : Bytes → Outcome Bool
refuse block = ok false

abbrev scheduled_by : Call → List Scheduled
scheduled_by (returned after) = after.scheduled
scheduled_by blocked = []

abbrev two_answers : List (Bytes × Bytes × Bytes)
two_answers = (shard_byte 1, success_byte, fail_byte) ∷ (shard_byte 2, success_byte, fail_byte) ∷ []

commits_refused :
    (handle_responses addr refuse (map (λ r. r.0 ∷ r.2 ∷ []) two_answers) waiting >>= λ call.
    ok (scheduled_by call))
    ≡ ok (cross_commit ∷ [])
unfolding handle_responses handle_response record_answer insert bytes_to_uint bytes_eq
commits_refused = refl

one_block : bytes_to_uint (shard_byte 1) ≡ ok 1
unfolding bytes_to_uint
one_block = refl

handle_request-blocked_example :
    handle_request addr refuse (shard_byte 1 ∷ (5 ∷ []) ∷ []) waiting ≡ ok blocked
handle_request-blocked_example =
    handle_request-blocked addr refuse waiting (shard_byte 1) (5 ∷ []) 1 [] one_block refl

handle_responses-Alike_example :
    Alike
      (handle_responses addr refuse (map (λ r. r.0 ∷ r.1 ∷ []) two_answers) waiting)
      (handle_responses addr refuse (map (λ r. r.0 ∷ r.2 ∷ []) two_answers) waiting)
handle_responses-Alike_example = handle_responses-Alike addr refuse two_answers waiting [] refl
