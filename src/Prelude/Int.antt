-- ===== src/Prelude/Int.antt =====
-- Signed numbers over the native ones: the values of big.Int, which this program carries and does not
-- compute with, and the int that strconv.Atoi reads. `negsuc n` is -(n + 1).
use Prim.Native.Nat.{ℕ}

pub data ℤ : Type 0 where
  pos : ℕ → ℤ
  negsuc : ℕ → ℤ
