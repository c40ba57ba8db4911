-- ===== src/Crypt/Words.antt =====
-- The two codecs undo one another.
use monosulfide.Prelude.{ℕ, ◌^◌, ◌<◌, ◌≡◌, ap, arith, ok}
use monosulfide.Crypt.{uint_to_bytes, bytes_to_uint}

-- Every uint64 is read back from its eight bytes.
pub bytes_to_uint-uint_to_bytes : (n : ℕ) → n < 2 ^ 64 → bytes_to_uint (uint_to_bytes n) ≡ ok n
unfolding bytes_to_uint uint_to_bytes
bytes_to_uint-uint_to_bytes n h = ap ok (omega arith)
