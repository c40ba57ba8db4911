-- ===== src/Crypt/Tests.antt =====
-- A number of eight bytes.
use monosulfide.Prelude.{ok, ◌≡◌, arith}
use monosulfide.Crypt.{uint_to_bytes, bytes_to_uint}
use monosulfide.Crypt.Words.{bytes_to_uint-uint_to_bytes}

bytes_to_uint-uint_to_bytes_example : bytes_to_uint (uint_to_bytes 1234567890123) ≡ ok 1234567890123
bytes_to_uint-uint_to_bytes_example = bytes_to_uint-uint_to_bytes 1234567890123 (omega arith)
