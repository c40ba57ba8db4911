-- ===== src/Migrate/Message.antt =====
-- The message that _generateMsg builds, field by field, and what _parseMsg reads from it.
use monosulfide.Prelude.{
  ℕ, zero, suc, ◌^◌, ◌<◌, ◌≡◌, refl, List, [], ◌∷◌, ◌++◌, append_assoc, length, All, ok, panic,
  ◌>>=◌, arith,
}
use monosulfide.Content.{Bytes}
use monosulfide.Content.Parse.{Encodes, Encodes-append}
use monosulfide.Crypt.{uint_to_bytes}
use monosulfide.Crypt.Words.{bytes_to_uint-uint_to_bytes}
use monosulfide.Proposals.{Proposal}
use monosulfide.Migrate.{append_proposal, parse_vars, parse_proposals, parse_msg}

-- The fields of one proposal.
abbrev pub entry : Proposal → List Bytes
entry p = p.req_type ∷ uint_to_bytes (length p.vars) ∷ p.vars

-- The fields of a list of proposals.
abbrev pub fields_of : List Proposal → List Bytes
fields_of [] = []
fields_of (p ∷ pros) = entry p ++ fields_of pros

-- The number of parameters fits the field that carries it.
abbrev pub Fits : Proposal → Type 0
Fits p = length p.vars < 2 ^ 64

pub Encodes-append_proposal :
    (content : Bytes) (fs : List Bytes) (p : Proposal)
    → Encodes content fs
    → Encodes (append_proposal content p) (fs ++ entry p)
unfolding append_proposal
Encodes-append_proposal content fs p e =
    let number = uint_to_bytes (length p.vars) in
    let typed = Encodes-append content fs (p.req_type ∷ []) e in
    let counted = Encodes-append _ (fs ++ p.req_type ∷ []) (number ∷ []) typed in
    let full = Encodes-append _ ((fs ++ p.req_type ∷ []) ++ number ∷ []) p.vars counted in
    simp append_assoc at full

parse_vars-append : (vs rest : List Bytes) → parse_vars (length vs) (vs ++ rest) ≡ ok (vs, rest)
unfolding parse_vars
parse_vars-append [] rest = refl
parse_vars-append (v ∷ vs) rest = rw (parse_vars-append vs rest)

parse_proposals-step :
    (n : ℕ) (p : Proposal) (rest : List Bytes)
    → Fits p
    → parse_proposals (suc n) (p.req_type ∷ uint_to_bytes (length p.vars) ∷ (p.vars ++ rest))
      ≡ (parse_proposals n rest >>= λ pros. ok (p ∷ pros))
unfolding parse_proposals
parse_proposals-step n p rest f =
    rw (bytes_to_uint-uint_to_bytes (length p.vars) f, parse_vars-append p.vars rest)

pub parse_proposals-fields_of :
    (pros : List Proposal)
    → All Fits pros
    → parse_proposals (length pros) (fields_of pros) ≡ ok pros
parse_proposals-fields_of [] f = unfold parse_proposals in refl
parse_proposals-fields_of (p ∷ pros) f =
    rw (
      parse_proposals-step (length pros) p (fields_of pros) f.0,
      parse_proposals-fields_of pros f.1,
    )

-- A count above the number of proposals runs past the end of the fields.
pub parse_proposals_short :
    (pros : List Proposal) (n : ℕ)
    → length pros < n
    → All Fits pros
    → parse_proposals n (fields_of pros) ≡ panic
parse_proposals_short pros zero h f = absurd (omega arith)
parse_proposals_short [] (suc n) h f = unfold parse_proposals in refl
parse_proposals_short (p ∷ pros) (suc n) h f =
    rw (
      parse_proposals-step n p (fields_of pros) f.0,
      parse_proposals_short pros n (omega arith) f.1,
    )

pub parse_msg_lem :
    (content : Bytes) (n : ℕ) (fs : List Bytes)
    → n < 2 ^ 64
    → Encodes content (uint_to_bytes n ∷ fs)
    → parse_msg content ≡ parse_proposals n fs
unfolding parse_msg
parse_msg_lem content n fs h e = rw (e.parsed, bytes_to_uint-uint_to_bytes n h)
