-- ===== src/Merkle.antt =====
-- Tx/transaction.go, GenMPTRoot and GenTxRoot: the Merkle root of a list of hashes. `sum256` stands for
-- sha256.Sum256, which the source only calls. nil and the empty slice are one value here:
-- bytes.Equal, which compares the roots, does not tell them apart.
pub mod Levels
pub mod Binding
mod Tests
use monosulfide.Prelude.{
  ℕ, zero, suc, ◌%◌, List, [], ◌∷◌, ◌++◌, length, map, ltb, ◌==◌, if◌then◌else◌, Outcome, ok, panic,
  out_of_fuel, ◌>>=◌,
}
use monosulfide.Content.{Bytes}
use monosulfide.Tx.{Transaction}

-- hashes[len(hashes)-1] of a list with the head `x`.
pub last_hash : Bytes → List Bytes → Bytes
last_hash x [] = x
last_hash x (y ∷ rest) = last_hash y rest

-- A level of odd length repeats its last hash.
pub pad : List Bytes → List Bytes
pad [] = []
pad (x ∷ rest) = if length (x ∷ rest) % 2 == 0 then x ∷ rest else x ∷ rest ++ last_hash x rest ∷ []

pub first_hash : List Bytes → Outcome Bytes
first_hash [] = panic
first_hash (x ∷ rest) = ok x

module _ (sum256 : Bytes → Bytes) where
  -- The inner loop: hashes[i+1] out of range panics.
  pub merge_pairs : List Bytes → Outcome (List Bytes)
  merge_pairs [] = ok []
  merge_pairs (x ∷ []) = panic
  merge_pairs (x ∷ y ∷ rest) = merge_pairs rest >>= λ level. ok (sum256 (x ++ y) ∷ level)

  -- The outer loop.
  pub root_loop : ℕ → List Bytes → Outcome Bytes
  root_loop zero hashes = out_of_fuel
  root_loop (suc fuel) hashes =
      let next = merge_pairs (pad hashes) >>= root_loop fuel in
      if ltb 1 (length hashes) then next else first_hash hashes

  unfoldable pub gen_mpt_root : List Bytes → Outcome Bytes
  gen_mpt_root [] = ok []
  gen_mpt_root (x ∷ rest) = root_loop (length (x ∷ rest)) (x ∷ rest)

  -- `digest` gives the hash of a transaction.
  unfoldable pub gen_tx_root : (Transaction → Bytes) → List Transaction → Outcome Bytes
  gen_tx_root digest txs = gen_mpt_root (map digest txs)
