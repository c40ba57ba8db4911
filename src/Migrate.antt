-- ===== src/Migrate.antt =====
-- Comm/IdChainComm/Com_ProposalBufferMigrate.go: a node that has stopped being the main node sends
-- its waiting proposals to the new main node. `req_type` and the entries of `vars` are byte strings;
-- the index `cnt` of _parseMsg is the list of the fields that it has not passed.
pub mod Message
pub mod Handover
mod Tests
use monosulfide.Prelude.{
  ℕ, zero, suc, ◌+◌, List, [], ◌∷◌, ◌++◌, Option, none, some, length, Outcome, ok, panic,
  out_of_fuel, ◌>>=◌,
}
use monosulfide.Content.{Bytes, new_byte_content, append_byte_content, parse_content}
use monosulfide.Crypt.{uint_to_bytes, bytes_to_uint}
use monosulfide.Proposals.{Proposal, ProposalBuffer, amount, push, pop}

-- One round of _generateMsg's loop.
pub append_proposal : Bytes → Proposal → Bytes
append_proposal content pro =
    append_byte_content
      (append_byte_content (append_byte_content content (pro.req_type ∷ []))
        (uint_to_bytes (length pro.vars) ∷ []))
      pro.vars

pub generate_loop : ℕ → ProposalBuffer → Bytes → Outcome (Bytes × ProposalBuffer)
generate_loop zero b content = out_of_fuel
generate_loop (suc fuel) b content = pop b >>= λ (pro, b'). elim pro [
  | none ↦ ok (content, b')
  | some p ↦ generate_loop fuel b' (append_proposal content p)
]

-- _generateMsg, called with the buffer's amount as Request calls it.
unfoldable pub generate_msg : ProposalBuffer → Outcome (Bytes × ProposalBuffer)
generate_msg b = generate_loop (amount b + 1) b (new_byte_content (uint_to_bytes (amount b) ∷ []))

-- The inner loop of _parseMsg: `paramAmount` fields, an index out of range panics.
pub parse_vars : ℕ → List Bytes → Outcome (List Bytes × List Bytes)
parse_vars zero contents = ok ([], contents)
parse_vars (suc n) [] = panic
parse_vars (suc n) (v ∷ contents) = parse_vars n contents >>= λ (vars, rest). ok (v ∷ vars, rest)

-- The outer loop, for the rounds that are left.
pub parse_proposals : ℕ → List Bytes → Outcome (List Proposal)
parse_proposals zero contents = ok []
parse_proposals (suc n) [] = panic
parse_proposals (suc n) (req_type ∷ []) = panic
parse_proposals (suc n) (req_type ∷ number ∷ contents) = bytes_to_uint number >>= λ k.
    parse_vars k contents >>= λ (vars, rest).
    parse_proposals n rest >>= λ pros. ok (record { req_type = req_type; vars = vars } ∷ pros)

parse_fields : List Bytes → Outcome (List Proposal)
parse_fields [] = panic
parse_fields (number ∷ contents) = bytes_to_uint number >>= λ n. parse_proposals n contents

unfoldable pub parse_msg : Bytes → Outcome (List Proposal)
unfolding parse_fields
parse_msg content = parse_fields (parse_content content)

-- The loop of HandleRequest, which proposes each entry: Propose pushes it into the buffer.
pub push_all : List Proposal → ProposalBuffer → Outcome ProposalBuffer
push_all [] b = ok b
push_all (p ∷ pros) b = push b p >>= push_all pros

-- HandleRequest on the identity chain's main node.
unfoldable pub handle_request : Bytes → ProposalBuffer → Outcome ProposalBuffer
handle_request content b = parse_msg content >>= λ pros. push_all pros b
