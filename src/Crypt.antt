-- ===== src/Crypt.antt =====
-- crypt/toolFuncs.go: numbers as big-endian bytes.
pub mod Words
mod Tests
use monosulfide.Prelude.{ℕ, ◌+◌, ◌*◌, ◌/◌, ◌%◌, ◌^◌, List, [], ◌∷◌, Outcome, ok, panic}
use monosulfide.Content.{Bytes}

-- binary.BigEndian.PutUint64 on a fresh buffer of eight bytes.
unfoldable pub uint_to_bytes : ℕ → Bytes
uint_to_bytes num =
    num / 2 ^ 56 % 256
    ∷ (num / 2 ^ 48 % 256)
    ∷ (num / 2 ^ 40 % 256)
    ∷ (num / 2 ^ 32 % 256)
    ∷ (num / 2 ^ 24 % 256)
    ∷ (num / 2 ^ 16 % 256)
    ∷ (num / 2 ^ 8 % 256)
    ∷ (num % 256)
    ∷ []

-- binary.BigEndian.Uint64: it reads the first eight bytes, and panics if there are fewer.
unfoldable pub bytes_to_uint : Bytes → Outcome ℕ
bytes_to_uint (a ∷ b ∷ c ∷ d ∷ e ∷ f ∷ g ∷ h ∷ rest) =
    ok (a * 2 ^ 56 + b * 2 ^ 48 + c * 2 ^ 40 + d * 2 ^ 32 + e * 2 ^ 24 + f * 2 ^ 16 + g * 2 ^ 8 + h)
bytes_to_uint _ = panic
